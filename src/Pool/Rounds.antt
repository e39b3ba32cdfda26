-- ===== src/Pool/Rounds.antt =====
-- A round of ServerRecyConnectionThread, and the owners of connections.
use flydragon.Base.{
  ℕ, zero, suc, ◌+◌, ◌≤◌, ◌<◌, ◌≡◌, inl, inr, [], ◌∷◌, arith, length, Bool, true, false, ◌==◌,
  if◌then◌else◌, erase, length-append, Option-cases, Bool-cases, decrement, is_positive,
}
use flydragon.State.{Server}
use flydragon.Pool.{first_due, recycle, recy_scan, is_due, recy_round, free_connection}
use flydragon.Pool.Owned.{
  occurs, occurs-erase, occurs_erased, length_erased, first_due-occurs, owners, IsPooled, Fits,
  free_connection-IsPooled,
}

-- A connection that leaves the queue for the pool.
abbrev taken_off : ℕ → Server → Server
taken_off i s = record s {
  total_recyconnection_n = decrement s.total_recyconnection_n;
  recyconnection_list = erase i s.recyconnection_list;
}

taken_off-IsPooled :
    (i : ℕ) (s : Server)
    → IsPooled s
    → Fits s
    → 0 < occurs i s.recyconnection_list
    → IsPooled (taken_off i s)
      × Fits (taken_off i s)
      × (owners i (taken_off i s) ≡ 0)
      × (i < s.next_conn)
taken_off-IsPooled i s h f o =
    let l = length_erased i s.recyconnection_list o in
    (
      record {
        once = λ j. omega (arith, h.once j, occurs-erase j i s.recyconnection_list);
        exists = λ j le. omega (arith, h.exists j le, occurs-erase j i s.recyconnection_list);
        free_count = h.free_count;
        recy_count = omega (arith, h.recy_count, l, f.free_fits);
      },
      record { free_fits = omega (arith, l, f.free_fits) },
      omega (arith, h.once i, occurs_erased i s.recyconnection_list),
      exists_if (h.exists i),
    )
  where
    exists_if : (s.next_conn ≤ i → owners i s ≡ 0) → i < s.next_conn
    exists_if g = grind (arith, g)

recycle-Fits :
    (i : ℕ) (s : Server)
    → Fits s
    → length s.recyconnection_list ≡ length (erase i s.recyconnection_list) + 1
    → Fits (recycle i s)
unfolding recycle free_connection
recycle-Fits i s f l = record {
  free_fits = omega (arith, f.free_fits, l, length-append s.freeconnection_list (i ∷ []));
}

pub recycle-IsPooled :
    (i : ℕ) (s : Server)
    → IsPooled s
    → Fits s
    → 0 < occurs i s.recyconnection_list
    → IsPooled (recycle i s) × Fits (recycle i s)
unfolding recycle
recycle-IsPooled i s h f o =
    let (h₁, f₁, z, b) = taken_off-IsPooled i s h f o in
    (
      free_connection-IsPooled i (taken_off i s) h₁ f₁ z b,
      recycle-Fits i s f (length_erased i s.recyconnection_list o),
    )

recy_scan-IsPooled :
    (due : Server → ℕ → Bool) (fuel : ℕ) (s : Server)
    → IsPooled s
    → Fits s
    → IsPooled (recy_scan fuel due s) × Fits (recy_scan fuel due s)
unfolding recy_scan
recy_scan-IsPooled due zero s h f = (h, f)
recy_scan-IsPooled due (suc fuel) s h f =
    elim (Option-cases (first_due (due s) s.recyconnection_list)) [
      | inl e ↦ rw (e, recy_scan) (h, f)
      | inr (i, e) ↦
          let (h₁, f₁) =
            recycle-IsPooled i s h f (first_due-occurs (due s) s.recyconnection_list i e) in
          rw (e, recy_scan) (recy_scan-IsPooled due fuel (recycle i s) h₁ f₁)
    ]

maybe_scan-IsPooled :
    (due : Server → ℕ → Bool) (fuel : ℕ) (positive : Bool) (s : Server)
    → IsPooled s
    → Fits s
    → IsPooled (if positive then recy_scan fuel due s else s)
      × Fits (if positive then recy_scan fuel due s else s)
maybe_scan-IsPooled due fuel true s h f = recy_scan-IsPooled due fuel s h f
maybe_scan-IsPooled due fuel false s h f = (h, f)

pub recy_round-IsPooled :
    (now : ℕ) (s : Server) → IsPooled s → Fits s → IsPooled (recy_round now s).0
unfolding recy_round
recy_round-IsPooled now s h f =
    let (h₁, f₁) =
      maybe_scan-IsPooled (is_due now) (length s.recyconnection_list)
        (is_positive s.total_recyconnection_n) s h f in
    let (h₂, _) = maybe_scan-IsPooled (λ _ _. true) _ _ _ h₁ f₁ in
    elim (Bool-cases (s.stop_event == 1)) [ inl e ↦ rw e h₂ | inr e ↦ rw e h₁ ]
