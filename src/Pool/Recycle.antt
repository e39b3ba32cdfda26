-- ===== src/Pool/Recycle.antt =====
-- ServerRecyConnectionThread: which connections leave the queue, and where they go.
use flydragon.Base.{
  ℕ, zero, suc, ◌+◌, ◌^◌, ◌≤◌, ◌<◌, ◌≡◌, inl, inr, refl, ap, ap₂, sym, subst, ◌∙◌, List, [], ◌∷◌,
  ◌++◌, arith, length, some, none, Bool, true, false, not, leb, if◌then◌else◌, filter_by, erase,
  decrement, is_positive, Option-cases, Bool-cases, ne→==, append-nil, append_assoc,
}
use mathlib.Core.Path.{fun_ext}
use flydragon.State.{Server}
use flydragon.Pool.{first_due, recycle, recy_scan, is_due, recy_round}

first_due-none :
    (p : ℕ → Bool) (xs : List ℕ)
    → first_due p xs ≡ none
    → (filter_by p xs ≡ []) × (filter_by (λ i. not (p i)) xs ≡ xs)
unfolding first_due
first_due-none p [] h = (refl, refl)
first_due-none p (x ∷ xs) h = ground (arith, first_due-none p xs)

first_due_passes : (p : ℕ → Bool) (xs : List ℕ) (i : ℕ) → first_due p xs ≡ some i → p i ≡ true
unfolding first_due
first_due_passes p [] i h = absurd (cc)
first_due_passes p (x ∷ xs) i h = ground (arith, first_due_passes p xs i)

first_due-some :
    (p : ℕ → Bool) (xs : List ℕ) (i : ℕ)
    → first_due p xs ≡ some i
    → (filter_by p xs ≡ i ∷ filter_by p (erase i xs))
      × (filter_by (λ j. not (p j)) (erase i xs) ≡ filter_by (λ j. not (p j)) xs)
      × (length xs ≡ length (erase i xs) + 1)
unfolding first_due erase
first_due-some p [] i h = absurd (cc)
first_due-some p (x ∷ xs) i h = elim (Bool-cases (p x)) [
  | inl e ↦ ground (arith, e)
  | inr e ↦ ground (arith, e, first_due-some p xs i, first_due_passes p xs i)
]

-- The connections of the queue that pass the test go to the end of the free list in their order,
-- the others stay in theirs; the queue's count follows its length.
pub record Partitions (due : ℕ → Bool) (s t : Server) : Type 0 where
  pub stay : t.recyconnection_list ≡ filter_by (λ i. not (due i)) s.recyconnection_list
  pub freed : t.freeconnection_list ≡ s.freeconnection_list ++ filter_by due s.recyconnection_list
  pub counted : t.total_recyconnection_n ≡ length t.recyconnection_list

Partitions-refl :
    (p : ℕ → Bool) (s : Server)
    → filter_by p s.recyconnection_list ≡ []
    → filter_by (λ i. not (p i)) s.recyconnection_list ≡ s.recyconnection_list
    → s.total_recyconnection_n ≡ length s.recyconnection_list
    → Partitions p s s
Partitions-refl p s none_due all_stay n = record {
  stay = sym all_stay;
  freed = rw none_due (sym (append-nil s.freeconnection_list));
  counted = n;
}

-- What one release does to the lists.
recycle_lem :
    (i : ℕ) (s : Server)
    → ((recycle i s).recyconnection_list ≡ erase i s.recyconnection_list)
      × ((recycle i s).freeconnection_list ≡ s.freeconnection_list ++ i ∷ [])
      × ((recycle i s).total_recyconnection_n ≡ decrement s.total_recyconnection_n)
unfolding recycle
recycle_lem i s = (refl, refl, refl)

Partitions-step :
    (p : ℕ → Bool) (s t : Server) (i : ℕ)
    → first_due p s.recyconnection_list ≡ some i
    → Partitions p (recycle i s) t
    → Partitions p s t
Partitions-step p s t i e r =
    let (recy, free, _) = recycle_lem i s in
    let (passing, staying, _) = first_due-some p s.recyconnection_list i e in
    record {
      stay = r.stay ∙ ap (filter_by (λ j. not (p j))) recy ∙ staying;
      freed =
          r.freed
          ∙ ap₂ (λ (a b : List ℕ). a ++ filter_by p b) free recy
          ∙ append_assoc s.freeconnection_list (i ∷ []) _
          ∙ ap (◌++◌ s.freeconnection_list) (sym passing);
      counted = r.counted;
    }

-- A test that a release of connections does not change.
abbrev IsStable : (Server → ℕ → Bool) → Type 0
IsStable due = (s : Server) (i j : ℕ) → due (recycle i s) j ≡ due s j

filter_by_empty :
    (p : ℕ → Bool) (xs : List ℕ)
    → length xs ≤ 0
    → (filter_by p xs ≡ []) × (filter_by (λ i. not (p i)) xs ≡ xs)
filter_by_empty p [] h = (refl, refl)
filter_by_empty p (x ∷ xs) h = absurd (omega arith)

recy_scan-Partitions :
    (due : Server → ℕ → Bool) (stable : IsStable due) (fuel : ℕ) (s : Server)
    → length s.recyconnection_list ≤ fuel
    → s.total_recyconnection_n ≡ length s.recyconnection_list
    → length s.recyconnection_list < 2 ^ 31
    → Partitions (due s) s (recy_scan fuel due s)
unfolding recy_scan
recy_scan-Partitions due stable zero s f n b =
    let (none_due, all_stay) = filter_by_empty (due s) s.recyconnection_list f in
    Partitions-refl (due s) s none_due all_stay n
recy_scan-Partitions due stable (suc fuel) s f n b =
    elim (Option-cases (first_due (due s) s.recyconnection_list)) [
      | inl e ↦
          let (none_due, all_stay) = first_due-none (due s) s.recyconnection_list e in
          rw (e, recy_scan) (Partitions-refl (due s) s none_due all_stay n)
      | inr (i, e) ↦
          let (recy, _, count) = recycle_lem i s in
          let (_, _, l) = first_due-some (due s) s.recyconnection_list i e in
          rw (e, recy_scan)
            (Partitions-step (due s) s (recy_scan fuel due (recycle i s)) i e (
              subst
                (λ (q : ℕ → Bool). Partitions q (recycle i s) (recy_scan fuel due (recycle i s)))
                (fun_ext (stable s i))
                (recy_scan-Partitions due stable fuel (recycle i s)
                  (omega (arith, ap length recy, l)) (omega (arith, ap length recy, l, count))
                  (omega (arith, ap length recy, l)))))
    ]

is_due-IsStable : (now : ℕ) → IsStable (is_due now)
unfolding is_due recycle
is_due-IsStable now s i j = ground arith

-- The scan, under the test of the count before it.
scan_if_positive-Partitions :
    (due : Server → ℕ → Bool) (stable : IsStable due) (s : Server)
    → s.total_recyconnection_n ≡ length s.recyconnection_list
    → length s.recyconnection_list < 2 ^ 31
    → Partitions (due s) s (
        if is_positive s.total_recyconnection_n
        then recy_scan (length s.recyconnection_list) due s
        else s)
scan_if_positive-Partitions due stable s n b =
    elim (Bool-cases (is_positive s.total_recyconnection_n)) [
      | inl e ↦
          rw e (recy_scan-Partitions due stable (length s.recyconnection_list) s (omega arith) n b)
      | inr e ↦
          let (none_due, all_stay) =
            filter_by_empty (due s) s.recyconnection_list
              (not_positive (length s.recyconnection_list) (ap is_positive (sym n) ∙ e) b) in
          rw e (Partitions-refl (due s) s none_due all_stay n)
    ]
  where
    not_positive : (n : ℕ) → is_positive n ≡ false → n < 2 ^ 31 → n ≤ 0
    not_positive n e b = ground arith

-- The connections that were given up `recy_wait_time` seconds ago or earlier.
abbrev pub is_over : ℕ → Server → ℕ → Bool
is_over now s i = leb ((s.conn i).in_recy_time + s.recy_wait_time) now

is_due-is_over : (now : ℕ) (s : Server) → s.stop_event ≡ 0 → is_due now s ≡ is_over now s
unfolding is_due
is_due-is_over now s h = fun_ext (λ i. ground arith)

-- If the count of the queue is its length, below 2 ^ 31, then while the program runs a round of the
-- recycling thread gives back to the pool exactly the
-- connections whose waiting time is over, in their order; the others stay, in theirs; the count
-- follows; and the thread goes on.
pub recy_round_running :
    (now : ℕ) (s : Server)
    → s.stop_event ≡ 0
    → s.total_recyconnection_n ≡ length s.recyconnection_list
    → length s.recyconnection_list < 2 ^ 31
    → Partitions (is_over now s) s (recy_round now s).0 × ((recy_round now s).1 ≡ false)
unfolding recy_round
recy_round_running now s h n b = rw (ne→== s.stop_event 1 (omega arith)) (
  subst (λ (p : ℕ → Bool). Partitions p s (if_scan now s)) (is_due-is_over now s h)
      (scan_if_positive-Partitions (is_due now) (is_due-IsStable now) s n b),
  refl,
)
  where
    if_scan : ℕ → Server → Server
    if_scan now s =
        if is_positive s.total_recyconnection_n
        then recy_scan (length s.recyconnection_list) (is_due now) s
        else s
