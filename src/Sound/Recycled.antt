-- ===== src/Sound/Recycled.antt =====
-- A connection that waits, in a round of the recycling thread.
use flydragon.Base.{
  ℕ, zero, suc, ◌+◌, ◌^◌, ◌≤◌, ◌<◌, ◌≡◌, ◌⊎◌, inl, inr, refl, ap, ◌∙◌, List, [], ◌∷◌, arith, length,
  Bool, true, false, ◌==◌, if◌then◌else◌, filter_by, Option-cases, Bool-cases, eq_cases,
  is_positive,
}
use flydragon.State.{Server}
use flydragon.Pool.{
  first_due, recycle, recy_scan, is_due, recy_round, free_connection, put_one_to_free,
}
use flydragon.Pool.Owned.{occurs, occurs-append, IsPooled}
use flydragon.Pool.Recycle.{is_over, recy_round_running}
use flydragon.Sound.Recycling.{occurs-erase_ne}
use flydragon.Sound.Waiting.{StillWaits, StillWaits-trans}

-- Connection `j` waits as before, or is free.
abbrev pub WaitsOrFree : ℕ → Server → Server → Type 0
WaitsOrFree j s t = StillWaits j s t ⊎ (0 < occurs j t.freeconnection_list)

recycle_free :
    (i j : ℕ) (s : Server)
    → 0 < occurs j s.freeconnection_list
    → 0 < occurs j (recycle i s).freeconnection_list
unfolding recycle free_connection
recycle_free i j s w = omega (arith, w, occurs-append j s.freeconnection_list (i ∷ []))

recycle-WaitsOrFree :
    (i j : ℕ) (s : Server) → 0 < occurs j s.recyconnection_list → WaitsOrFree j s (recycle i s)
unfolding recycle free_connection put_one_to_free
recycle-WaitsOrFree i j s w = elim (eq_cases i j) [
  | inl e ↦ inr (ground (arith, e, occurs-append j s.freeconnection_list (i ∷ [])))
  | inr d ↦ inl (record {
    waits = omega (arith, w, occurs-erase_ne i j s.recyconnection_list d);
    since = ground arith;
    settings = refl;
  })
]

scan_free :
    (due : Server → ℕ → Bool) (fuel j : ℕ) (s : Server)
    → 0 < occurs j s.freeconnection_list
    → 0 < occurs j (recy_scan fuel due s).freeconnection_list
unfolding recy_scan
scan_free due zero j s w = w
scan_free due (suc fuel) j s w = elim (Option-cases (first_due (due s) s.recyconnection_list)) [
  | inl e ↦ rw (e, recy_scan) w
  | inr (i, e) ↦ rw (e, recy_scan) (scan_free due fuel j (recycle i s) (recycle_free i j s w))
]

scan-WaitsOrFree :
    (due : Server → ℕ → Bool) (fuel j : ℕ) (s : Server)
    → 0 < occurs j s.recyconnection_list
    → WaitsOrFree j s (recy_scan fuel due s)
unfolding recy_scan
scan-WaitsOrFree due zero j s w = inl (record { waits = w; since = refl; settings = refl })
scan-WaitsOrFree due (suc fuel) j s w =
    elim (Option-cases (first_due (due s) s.recyconnection_list)) [
      | inl e ↦ rw (e, recy_scan) (inl (record { waits = w; since = refl; settings = refl }))
      | inr (i, e) ↦
          rw (e, recy_scan)
            (elim (recycle-WaitsOrFree i j s w) [
              | inr f ↦ inr (scan_free due fuel j (recycle i s) f)
              | inl a ↦ elim (scan-WaitsOrFree due fuel j (recycle i s) a.waits) [
                | inr f ↦ inr f
                | inl b ↦ inl (StillWaits-trans a b)
              ]
            ])
    ]

maybe_scan-WaitsOrFree :
    (due : Server → ℕ → Bool) (fuel j : ℕ) (positive : Bool) (s : Server)
    → 0 < occurs j s.recyconnection_list
    → WaitsOrFree j s (if positive then recy_scan fuel due s else s)
maybe_scan-WaitsOrFree due fuel j true s w = scan-WaitsOrFree due fuel j s w
maybe_scan-WaitsOrFree due fuel j false s w =
    inl (record { waits = w; since = refl; settings = refl })

maybe_scan_free :
    (due : Server → ℕ → Bool) (fuel j : ℕ) (positive : Bool) (s : Server)
    → 0 < occurs j s.freeconnection_list
    → 0 < occurs j (if positive then recy_scan fuel due s else s).freeconnection_list
maybe_scan_free due fuel j true s w = scan_free due fuel j s w
maybe_scan_free due fuel j false s w = w

-- A round leaves a connection waiting, or frees it.
pub recy_round-WaitsOrFree :
    (now j : ℕ) (s : Server)
    → 0 < occurs j s.recyconnection_list
    → WaitsOrFree j s (recy_round now s).0
unfolding recy_round
recy_round-WaitsOrFree now j s w =
    let fuel = length s.recyconnection_list in
    let positive = is_positive s.total_recyconnection_n in
    let t = if positive then recy_scan fuel (is_due now) s else s in
    let first = maybe_scan-WaitsOrFree (is_due now) fuel j positive s w in
    elim (Bool-cases (s.stop_event == 1)) [
      | inr e ↦ rw e first
      | inl e ↦ rw e (elim first [
        | inr f ↦ inr (
            maybe_scan_free (λ _ _. true) (length t.recyconnection_list) j
              (is_positive t.total_recyconnection_n) t f)
        | inl a ↦
            elim (maybe_scan-WaitsOrFree (λ _ _. true) (length t.recyconnection_list) j
              (is_positive t.total_recyconnection_n) t a.waits) [
                | inr f ↦ inr f
                | inl b ↦ inl (StillWaits-trans a b)
              ]
      ])
    ]

occurs-filter_by :
    (p : ℕ → Bool) (j : ℕ) (xs : List ℕ)
    → p j ≡ true
    → 0 < occurs j xs
    → 0 < occurs j (filter_by p xs)
occurs-filter_by p j [] e w = absurd (omega arith)
occurs-filter_by p j (x ∷ xs) e w = elim (eq_cases x j) [
  | inl q ↦ rw (ap p q ∙ e) (ground (arith, q))
  | inr d ↦ elim (Bool-cases (p x)) [
    | inl t ↦ rw t (ground (arith, d, occurs-filter_by p j xs e))
    | inr t ↦ rw t (ground (arith, d, occurs-filter_by p j xs e))
  ]
]

-- The round after its time is over frees it.
pub recy_round_frees :
    (now j : ℕ) (s : Server)
    → s.stop_event ≡ 0
    → IsPooled s
    → length s.recyconnection_list < 2 ^ 31
    → 0 < occurs j s.recyconnection_list
    → (s.conn j).in_recy_time + s.recy_wait_time ≤ now
    → 0 < occurs j (recy_round now s).0.freeconnection_list
recy_round_frees now j s running h fits w over =
    let (r, _) = recy_round_running now s running h.recy_count fits in
    let passing =
      occurs-filter_by (is_over now s) j s.recyconnection_list (ground (arith, over)) w in
    omega (
      arith,
      passing,
      ap (occurs j) r.freed,
      occurs-append j s.freeconnection_list (filter_by (is_over now s) s.recyconnection_list),
    )
