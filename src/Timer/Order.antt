-- ===== src/Timer/Order.antt =====
-- The order of the timer queue, its size and its noted head, and `AddToTimerQueue`.
use flydragon.Base.{
  ◌==◌, if◌then◌else◌, ℕ, ◌+◌, ◌≤◌, ◌<◌, ◌^◌, ◌≡◌, refl, sym, subst, Option-cases, List, [], ◌∷◌,
  arith, length, some, inl, inr,
}
use flydragon.State.{Entry, Server}
use flydragon.Timer.{insert, get_earliest_time, set_timer_value, add_to_timer_queue}

-- Every entry is due at the time or later.
abbrev pub NoneBefore : ℕ → List Entry → Type 0
NoneBefore t [] = Unit {0}
NoneBefore t (e ∷ es) = (t ≤ e.time) × NoneBefore t es

abbrev pub IsSorted : List Entry → Type 0
IsSorted [] = Unit {0}
IsSorted (e ∷ es) = NoneBefore e.time es × IsSorted es

pub NoneBefore-mono : (t u : ℕ) (es : List Entry) → u ≤ t → NoneBefore t es → NoneBefore u es
NoneBefore-mono t u [] h b = tt
NoneBefore-mono t u (e ∷ es) h b = (omega arith, NoneBefore-mono t u es h b.1)

NoneBefore-insert :
    (t : ℕ) (e : Entry) (es : List Entry)
    → t ≤ e.time
    → NoneBefore t es
    → NoneBefore t (insert e es)
unfolding insert
NoneBefore-insert t e [] h b = (h, tt)
NoneBefore-insert t e (x ∷ xs) h b = ground (arith, NoneBefore-insert t e xs h b.1)

pub insert-IsSorted : (e : Entry) (es : List Entry) → IsSorted es → IsSorted (insert e es)
unfolding insert
insert-IsSorted e [] s = (tt, tt)
insert-IsSorted e (x ∷ xs) s = ground (
  arith,
  insert-IsSorted e xs s.1,
  NoneBefore-insert x.time e xs,
  NoneBefore-mono x.time e.time xs,
)

pub length-insert : (e : Entry) (es : List Entry) → length (insert e es) ≡ length es + 1
unfolding insert
length-insert e [] = refl
length-insert e (x ∷ xs) = ground (arith, length-insert e xs)

-- How many checks there are for a connection.
abbrev pub checks : ℕ → List Entry → ℕ
checks i [] = 0
checks i (e ∷ es) = (if e.timer.conn == i then 1 else 0) + checks i es

pub checks-insert :
    (i : ℕ) (e : Entry) (es : List Entry)
    → checks i (insert e es) ≡ (if e.timer.conn == i then 1 else 0) + checks i es
unfolding insert
checks-insert i e [] = refl
checks-insert i e (x ∷ xs) = ground (arith, checks-insert i e xs)

-- What holds of the timer queue between two operations.
pub record IsTimed (s : Server) : Type 0 where
  pub sorted : IsSorted s.timer_queue
  pub sized : s.cur_size ≡ length s.timer_queue
  pub fits : length s.timer_queue < 2 ^ 64
  pub noted : (t : ℕ) → get_earliest_time s.timer_queue ≡ some t → s.timer_value ≡ t

-- What `IsTimed` is about.
abbrev pub Timed : Type 0
Timed = List Entry × ℕ × ℕ

abbrev pub timed_of : Server → Timed
timed_of s = (s.timer_queue, s.cur_size, s.timer_value)

abbrev with_timed : Server → Timed → Server
with_timed t (queue, size, value) = record t {
  timer_queue = queue;
  cur_size = size;
  timer_value = value;
}

-- It holds of every state that has the same of it.
pub IsTimed-same : {s t : Server} → timed_of t ≡ timed_of s → IsTimed s → IsTimed t
IsTimed-same {s} {t} e h =
    subst (λ (p : Timed). IsTimed (with_timed t p)) (sym e)
      (record { sorted = h.sorted; sized = h.sized; fits = h.fits; noted = h.noted })

-- Only the noted time changes, to that of the head.
pub set_timer_value_lem :
    (s : Server)
    → (v : ℕ) × (set_timer_value s ≡ record s { timer_value = v })
      × ((t : ℕ) → get_earliest_time s.timer_queue ≡ some t → v ≡ t)
unfolding set_timer_value
set_timer_value_lem s = elim (Option-cases (get_earliest_time s.timer_queue)) [
  | inl e ↦ (s.timer_value, rw (e, set_timer_value) refl, λ t h. cc)
  | inr (v, e) ↦ (v, rw (e, set_timer_value) refl, λ t h. cc)
]

pub set_timer_value-IsTimed :
    (s : Server)
    → IsSorted s.timer_queue
    → s.cur_size ≡ length s.timer_queue
    → length s.timer_queue < 2 ^ 64
    → IsTimed (set_timer_value s)
set_timer_value-IsTimed s a b c =
    let (v, e, h) = set_timer_value_lem s in
    rw e (record { sorted = a; sized = b; fits = c; noted = h })

-- If there is room for one more check, then after a connection is added the queue is in key order,
-- its size is counted and its head is noted, as before.
pub add_to_timer_queue-IsTimed :
    (now i : ℕ) (s : Server)
    → IsTimed s
    → length s.timer_queue + 1 < 2 ^ 64
    → IsTimed (add_to_timer_queue now i s)
unfolding add_to_timer_queue
add_to_timer_queue-IsTimed now i s h fits =
    set_timer_value-IsTimed _ (insert-IsSorted _ s.timer_queue h.sorted)
      (omega (arith, h.sized, length-insert e s.timer_queue))
      (omega (arith, length-insert e s.timer_queue))
  where
    e : Entry
    e = record {
      time = now + s.wait_time;
      timer = record { conn = i; sequence = (s.conn i).sequence };
    }
