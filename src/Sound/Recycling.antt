-- ===== src/Sound/Recycling.antt =====
-- A round of ServerRecyConnectionThread in a sound state.
use flydragon.Base.{
  ℕ, zero, suc, ◌+◌, ◌-◌, ◌^◌, ◌<◌, ◌≡◌, ◌≢◌, inl, inr, refl, ap, subst, List, [], ◌∷◌, arith,
  length, Bool, true, false, ◌==◌, if◌then◌else◌, erase, Option-cases, Bool-cases, eq_cases,
  is_positive,
}
use flydragon.Timer.Order.{IsTimed-same}
use flydragon.State.{Server}
use flydragon.Pool.{
  first_due, recycle, recy_scan, is_due, recy_round, free_connection, put_one_to_free,
}
use flydragon.Pool.Owned.{occurs, occurs-append, occurs_erased, first_due-occurs, owners}
use flydragon.Pool.Rounds.{recycle-IsPooled}
use flydragon.Sound.{IsSound, KeepsSound}
use flydragon.Sound.Room.{IsSound-Fits}

pub occurs-erase_ne : (i j : ℕ) (xs : List ℕ) → i ≢ j → occurs j (erase i xs) ≡ occurs j xs
unfolding erase
occurs-erase_ne i j [] d = refl
occurs-erase_ne i j (x ∷ xs) d = ground (arith, occurs-erase_ne i j xs d)

-- A connection that leaves the queue for the pool has as many owners as before, and so have others.
owners-recycle :
    (i j : ℕ) (s : Server)
    → 0 < occurs i s.recyconnection_list
    → owners j (recycle i s) ≡ owners j s
unfolding recycle free_connection
owners-recycle i j s o = elim (eq_cases i j) [
  | inl e ↦ ground (
    arith,
    e,
    o,
    occurs-append j s.freeconnection_list (i ∷ []),
    subst (λ (k : ℕ). occurs k (erase i s.recyconnection_list) ≡ occurs k s.recyconnection_list - 1)
        e (occurs_erased i s.recyconnection_list),
    ap (λ (k : ℕ). occurs k s.recyconnection_list) e,
  )
  | inr d ↦ ground (
    arith,
    d,
    occurs-append j s.freeconnection_list (i ∷ []),
    occurs-erase_ne i j s.recyconnection_list d,
  )
]

pub recycle-IsSound :
    (i : ℕ) (s : Server)
    → IsSound s
    → s.next_conn + 1 < 2 ^ 31
    → 0 < occurs i s.recyconnection_list
    → IsSound (recycle i s)
unfolding recycle free_connection put_one_to_free
recycle-IsSound i s h room o =
    let (pooled, _) = recycle-IsPooled i s h.pooled (IsSound-Fits s h room) o in
    record {
      pooled = pooled;
      timed = IsTimed-same refl h.timed;
      once = λ j. omega (arith, h.once j, owners-recycle i j s o);
      exists = h.exists;
      no_fd = λ j w. ground (arith, h.no_fd j (omega (arith, w, owners-recycle i j s o)));
      armed = h.armed;
      waits = h.waits;
      writes = λ j le. ground (arith, h.writes j le);
    }

recy_scan-IsSound :
    (due : Server → ℕ → Bool) (fuel : ℕ) (s : Server)
    → IsSound s
    → s.next_conn + 1 < 2 ^ 31
    → IsSound (recy_scan fuel due s) × ((recy_scan fuel due s).next_conn ≡ s.next_conn)
unfolding recy_scan recycle free_connection
recy_scan-IsSound due zero s h room = (h, refl)
recy_scan-IsSound due (suc fuel) s h room =
    elim (Option-cases (first_due (due s) s.recyconnection_list)) [
      | inl e ↦ rw (e, recy_scan) (h, refl)
      | inr (i, e) ↦
          let waits = first_due-occurs (due s) s.recyconnection_list i e in
          rw (e, recy_scan)
            (recy_scan-IsSound due fuel (recycle i s) (recycle-IsSound i s h room waits) room)
    ]

maybe_scan-IsSound :
    (due : Server → ℕ → Bool) (fuel : ℕ) (positive : Bool) (s : Server)
    → IsSound s
    → s.next_conn + 1 < 2 ^ 31
    → IsSound (if positive then recy_scan fuel due s else s)
      × ((if positive then recy_scan fuel due s else s).next_conn ≡ s.next_conn)
maybe_scan-IsSound due fuel true s h room = recy_scan-IsSound due fuel s h room
maybe_scan-IsSound due fuel false s h room = (h, refl)

-- In a sound state in which the connections can be counted, a round of the recycling thread leaves the
-- state sound.
pub recy_round-KeepsSound :
    (now : ℕ) (s : Server)
    → IsSound s
    → s.next_conn + 1 < 2 ^ 31
    → KeepsSound s (recy_round now s).0
unfolding recy_round
recy_round-KeepsSound now s h room =
    let (h₁, n₁) =
      maybe_scan-IsSound (is_due now) (length s.recyconnection_list)
        (is_positive s.total_recyconnection_n) s h room in
    let (h₂, n₂) = maybe_scan-IsSound (λ _ _. true) _ _ _ h₁ (omega (arith, n₁, room)) in
    elim (Bool-cases (s.stop_event == 1)) [
      | inl e ↦ rw e (record { sound = h₂; next = omega (arith, n₁, n₂) })
      | inr e ↦ rw e (record { sound = h₁; next = omega (arith, n₁) })
    ]
