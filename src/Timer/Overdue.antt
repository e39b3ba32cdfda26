-- ===== src/Timer/Overdue.antt =====
-- `GetOverTimeTimer`, and the loop of the monitor thread over it.
use flydragon.Base.{
  ℕ, suc, inc64, dec64, subst, ◌+◌, ◌≤◌, ◌<◌, ◌≡◌, ◌⊎◌, refl, ap, ◌∙◌, List, [], ◌∷◌, arith, length,
  some, none, inl, inr, leb, filter_by,
}
use flydragon.State.{Timer, Entry, Server}
use flydragon.Timer.{insert, get_earliest_time, get_over_time_timer, set_timer_value}
use flydragon.Timer.Order.{
  IsSorted, NoneBefore, IsTimed, insert-IsSorted, length-insert, set_timer_value_lem,
  set_timer_value-IsTimed,
}

-- The entries that are due.
abbrev pub due : ℕ → List Entry → List Entry
due now = filter_by (λ e. leb e.time now)

due_none : (now t : ℕ) (es : List Entry) → now < t → NoneBefore t es → due now es ≡ []
due_none now t [] h b = refl
due_none now t (e ∷ es) h b = ground (arith, due_none now t es h b.1)

-- An entry for later does not count.
pub due-insert :
    (now : ℕ) (e : Entry) (es : List Entry) → now < e.time → due now (insert e es) ≡ due now es
unfolding insert
due-insert now e [] h = ground arith
due-insert now e (x ∷ xs) h = ground (arith, due-insert now e xs h)

-- The check that is put back for a connection.
abbrev pub renewed : ℕ → Server → Timer → Entry
renewed now s p = record {
  time = now + s.wait_time;
  timer = record { conn = p.conn; sequence = p.sequence };
}

abbrev put_back : ℕ → Server → Timer → List Entry → Server
put_back now s p es = record s {
  blocks = s.blocks + 1;
  timer_queue = insert (renewed now s p) es;
  cur_size = inc64 (dec64 s.cur_size);
}

over_due :
    (now : ℕ) (s : Server) (e : Entry) (es : List Entry)
    → IsTimed s
    → s.timer_queue ≡ e ∷ es
    → e.time ≤ now
    → get_over_time_timer now s ≡ (some e.timer, set_timer_value (put_back now s e.timer es))
unfolding get_over_time_timer get_earliest_time
over_due now s e es h q le = ground (arith, ap length q, h.sized, h.fits)

-- If the queue is in order, counted and noted and its first check is due, then the check is taken
-- out, one for the same client is put back for after the waiting time, nothing else but the noted
-- head and the number of blocks changes, and the queue is in order, counted and noted.
pub get_over_time_timer_due :
    (now : ℕ) (s : Server) (e : Entry) (es : List Entry)
    → IsTimed s
    → s.timer_queue ≡ e ∷ es
    → e.time ≤ now
    → (v : ℕ) × (get_over_time_timer now s ≡ (
      some e.timer,
      record s {
        timer_queue = insert (renewed now s e.timer) es;
        blocks = s.blocks + 1;
        timer_value = v;
      },
    ))
      × IsTimed (get_over_time_timer now s).1
get_over_time_timer_due now s e es h q le =
    let l : length s.timer_queue ≡ suc (length es) = ap length q in
    let t = put_back now s e.timer es in
    let (v, w, _) = set_timer_value_lem t in
    let n = length-insert (renewed now s e.timer) es in
    let size : inc64 (dec64 s.cur_size) ≡ s.cur_size = omega (arith, h.sized, h.fits, l) in
    rw (over_due now s e es h q le) (
      v,
      ap (λ (r : Server). (some e.timer, r)) w ∙ ground (arith, size),
      set_timer_value-IsTimed t
          (insert-IsSorted (renewed now s e.timer) es (subst IsSorted q h.sorted).1)
          (omega (arith, size, h.sized, n, l)) (omega (arith, h.fits, n, l)),
    )

-- In an ordered queue the first check decides whether any is due.
pub due_cases :
    (now : ℕ) (es : List Entry)
    → IsSorted es
    → ((due now es ≡ [])
        × ((es ≡ []) ⊎ ((e : Entry) × (r : List Entry) × (es ≡ e ∷ r) × (now < e.time))))
      ⊎ ((e : Entry) × (r : List Entry) × (es ≡ e ∷ r) × (e.time ≤ now))
due_cases now [] s = inl (refl, inl refl)
due_cases now (e ∷ es) s = elim (le_or_lt e.time now) [
  | inl le ↦ inr (e, es, refl, le)
  | inr lt ↦ inl (ground (arith, due_none now e.time es lt s.0), inr (e, es, refl, lt))
]
  where
    le_or_lt : (a b : ℕ) → (a ≤ b) ⊎ (b < a)
    le_or_lt a b = ground arith

-- If the queue is in order, counted and noted and has no check that is due, then there is no result
-- and no change.
pub get_over_time_timer-none :
    (now : ℕ) (s : Server)
    → IsTimed s
    → (s.timer_queue ≡ [])
      ⊎ ((e : Entry) × (r : List Entry) × (s.timer_queue ≡ e ∷ r) × (now < e.time))
    → get_over_time_timer now s ≡ (none, s)
unfolding get_over_time_timer get_earliest_time
get_over_time_timer-none now s h (inl q) = ground (arith, ap length q, h.sized)
get_over_time_timer-none now s h (inr (e, r, q, lt)) = ground (arith, ap length q, h.sized)
