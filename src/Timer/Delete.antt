-- ===== src/Timer/Delete.antt =====
-- `DeleteFromTimerQueue`: the entries of one connection and those of the others.
use flydragon.Base.{
  ℕ, zero, suc, ◌+◌, ◌-◌, ◌≤◌, ◌<◌, ◌^◌, ◌≡◌, ◌≢◌, ltb→ge, refl, ap, ◌∙◌, List, [], ◌∷◌, arith,
  length, some, none, inl, inr, not, ◌==◌, filter_by, Option-cases, dec64, Bool-cases, ltb,
}
use flydragon.State.{Entry, Server}
use flydragon.State.Memory.{free_memory}
use flydragon.Timer.{delete_first, delete_scan, delete_from_timer_queue, get_earliest_time}
use flydragon.Timer.Order.{
  IsSorted, NoneBefore, IsTimed, set_timer_value_lem, set_timer_value-IsTimed,
}

-- The entries of other connections.
abbrev pub others : ℕ → List Entry → List Entry
others i = filter_by (λ e. not (e.timer.conn == i))

length-others-le : (i : ℕ) (es : List Entry) → length (others i es) ≤ length es
length-others-le i [] = omega arith
length-others-le i (e ∷ es) = ground (arith, length-others-le i es)

NoneBefore-others : (i t : ℕ) (es : List Entry) → NoneBefore t es → NoneBefore t (others i es)
NoneBefore-others i t [] h = tt
NoneBefore-others i t (e ∷ es) h = ground (arith, NoneBefore-others i t es h.1)

others-IsSorted : (i : ℕ) (es : List Entry) → IsSorted es → IsSorted (others i es)
others-IsSorted i [] h = tt
others-IsSorted i (e ∷ es) h =
    ground (arith, others-IsSorted i es h.1, NoneBefore-others i e.time es h.0)

delete_first-none : (i : ℕ) (es : List Entry) → delete_first i es ≡ none → others i es ≡ es
unfolding delete_first
delete_first-none i [] h = refl
delete_first-none i (e ∷ es) h = ground (arith, delete_first-none i es)

delete_first-some :
    (i : ℕ) (es rest : List Entry)
    → delete_first i es ≡ some rest
    → (others i rest ≡ others i es) × (length es ≡ length rest + 1)
unfolding delete_first
delete_first-some i [] rest h = absurd (cc)
delete_first-some i (e ∷ es) rest h = elim (Option-cases (delete_first i es)) [
  | inl n ↦ ground (arith, n)
  | inr (r, n) ↦ ground (arith, n, delete_first-some i es r n)
]

-- The state with the entries of a connection taken out.
abbrev pub without : ℕ → Server → Server
without i s = record s {
  timer_queue = others i s.timer_queue;
  cur_size = length (others i s.timer_queue);
  blocks = s.blocks + length (others i s.timer_queue) - length s.timer_queue;
}

without_nothing :
    (i : ℕ) (s : Server)
    → others i s.timer_queue ≡ s.timer_queue
    → s.cur_size ≡ length s.timer_queue
    → s ≡ without i s
without_nothing i s e h = ground (arith, e, ap length e)

others_of_empty : (i : ℕ) (es : List Entry) → length es ≤ 0 → others i es ≡ es
others_of_empty i [] h = refl
others_of_empty i (e ∷ es) h = absurd (omega arith)

-- After one deletion.
abbrev shorter : ℕ → List Entry → Server → Server
shorter i rest s = record s {
  blocks = free_memory (some i) s.blocks;
  timer_queue = rest;
  cur_size = dec64 s.cur_size;
}

without-shorter :
    (i : ℕ) (s : Server) (rest : List Entry)
    → others i rest ≡ others i s.timer_queue
    → length s.timer_queue ≡ length rest + 1
    → without i (shorter i rest s) ≡ without i s
without-shorter i s rest e l = ground (arith, e, ap length e, l, length-others-le i rest)

delete_scan-without :
    (fuel i : ℕ) (s : Server)
    → length s.timer_queue ≤ fuel
    → s.cur_size ≡ length s.timer_queue
    → length s.timer_queue < 2 ^ 64
    → delete_scan fuel i s ≡ without i s
unfolding delete_scan
delete_scan-without zero i s f h b = without_nothing i s (others_of_empty i s.timer_queue f) h
delete_scan-without (suc fuel) i s f h b = elim (Option-cases (delete_first i s.timer_queue)) [
  | inl e ↦ rw (e, delete_scan) (without_nothing i s (delete_first-none i s.timer_queue e) h)
  | inr (rest, e) ↦
      let (same, l) = delete_first-some i s.timer_queue rest e in
      rw (e, delete_scan)
        (delete_scan-without fuel i (shorter i rest s) (omega (arith, l)) (omega (arith, l))
            (omega (arith, l))
          ∙ without-shorter i s rest same l)
]

-- No entry is of the connection.
abbrev pub NoneOf : ℕ → List Entry → Type 0
NoneOf i [] = Unit {0}
NoneOf i (e ∷ es) = (e.timer.conn ≢ i) × NoneOf i es

others-NoneOf : (i : ℕ) (es : List Entry) → NoneOf i (others i es)
others-NoneOf i [] = tt
others-NoneOf i (e ∷ es) = ground (arith, others-NoneOf i es)

no_earliest : (es : List Entry) (t : ℕ) → length es ≤ 0 → get_earliest_time es ≢ some t
unfolding get_earliest_time
no_earliest [] t h e = cc
no_earliest (x ∷ xs) t h e = omega arith

without-IsTimed :
    (i : ℕ) (s : Server) → IsTimed s → length (others i s.timer_queue) ≤ 0 → IsTimed (without i s)
without-IsTimed i s h none_left = record {
  sorted = others-IsSorted i s.timer_queue h.sorted;
  sized = refl;
  fits = omega (arith, none_left);
  noted = λ t e. absurd (no_earliest (others i s.timer_queue) t none_left e);
}

-- If the queue is in order, counted and noted, then `DeleteFromTimerQueue` takes every check of the
-- connection out of it and frees their blocks, leaves the checks of the others in their order, and
-- changes nothing else but the noted head; the queue is in order, counted and noted afterwards.
pub delete_from_timer_queue-without :
    (i : ℕ) (s : Server)
    → IsTimed s
    → (v : ℕ) × (delete_from_timer_queue i s ≡ record (without i s) { timer_value = v })
      × IsTimed (delete_from_timer_queue i s)
      × NoneOf i (delete_from_timer_queue i s).timer_queue
unfolding delete_from_timer_queue
delete_from_timer_queue-without i s h =
    rw (delete_scan-without (length s.timer_queue) i s (omega arith) h.sized h.fits)
      (elim (Bool-cases (ltb 0 (length (others i s.timer_queue)))) [
        | inl some_left ↦
            let (v, e, _) = set_timer_value_lem (without i s) in
            rw some_left (
              v,
              e,
              set_timer_value-IsTimed (without i s) (others-IsSorted i s.timer_queue h.sorted) refl
                  (omega (arith, h.fits, length-others-le i s.timer_queue)),
              rw e (others-NoneOf i s.timer_queue),
            )
        | inr nothing ↦ rw nothing (
          s.timer_value,
          refl,
          without-IsTimed i s h (ltb→ge 0 _ nothing),
          others-NoneOf i s.timer_queue,
        )
      ])
