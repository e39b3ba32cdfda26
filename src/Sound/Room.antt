-- ===== src/Sound/Room.antt =====
-- How long the lists of a sound state can be.
use flydragon.Base.{
  ℕ, zero, suc, ◌+◌, ◌^◌, ◌≤◌, ◌<◌, ◌≡◌, refl, ap, List, [], ◌∷◌, ◌++◌, map, arith, length,
  length-append, ltb, ◌==◌, if◌then◌else◌,
}
use flydragon.State.{Entry, Server}
use flydragon.Pool.Owned.{occurs, occurs-append, Fits}
use flydragon.Timer.Order.{checks}
use flydragon.Sound.{IsSound}

-- How often the numbers below `n` are in a list.
abbrev total : ℕ → List ℕ → ℕ
total zero xs = 0
total (suc n) xs = total n xs + occurs n xs

total_le : (n : ℕ) (xs : List ℕ) → ((i : ℕ) → occurs i xs ≤ 1) → total n xs ≤ n
total_le zero xs h = omega arith
total_le (suc n) xs h = omega (arith, total_le n xs h, h n)

total-cons : (n x : ℕ) (xs : List ℕ) → total n (x ∷ xs) ≡ (if ltb x n then 1 else 0) + total n xs
total-cons zero x xs = ground arith
total-cons (suc n) x xs = ground (arith, total-cons n x xs)

-- A list of numbers below `n` in which each is once has `n` elements at most.
total-length : (n : ℕ) (xs : List ℕ) → ((i : ℕ) → n ≤ i → occurs i xs ≡ 0) → total n xs ≡ length xs
total-length n [] h = total_of_none n
  where
    total_of_none : (n : ℕ) → total n [] ≡ 0
    total_of_none zero = refl
    total_of_none (suc n) = omega (arith, total_of_none n)
total-length n (x ∷ xs) h =
    let rest = total-length n xs (λ i le. omega (arith, h i le)) in
    ground (arith, total-cons n x xs, rest, h x)

length_le :
    (n : ℕ) (xs : List ℕ)
    → ((i : ℕ) → occurs i xs ≤ 1)
    → ((i : ℕ) → n ≤ i → occurs i xs ≡ 0)
    → length xs ≤ n
length_le n xs once exists = omega (arith, total_le n xs once, total-length n xs exists)

-- The connections of the checks.
abbrev watched : List Entry → List ℕ
watched = map (λ e. e.timer.conn)

occurs-watched : (i : ℕ) (es : List Entry) → occurs i (watched es) ≡ checks i es
occurs-watched i [] = refl
occurs-watched i (e ∷ es) = ap (◌+◌ (if e.timer.conn == i then 1 else 0)) (occurs-watched i es)

length-watched : (es : List Entry) → length (watched es) ≡ length es
length-watched [] = refl
length-watched (e ∷ es) = ap suc (length-watched es)

occurs_all :
    (i : ℕ) (f r : List ℕ) (q : List Entry)
    → occurs i (f ++ r ++ watched q) ≡ occurs i f + occurs i r + checks i q
occurs_all i f r q =
    omega (arith, occurs-append i (f ++ r) (watched q), occurs-append i f r, occurs-watched i q)

length_all :
    (f r : List ℕ) (q : List Entry) → length (f ++ r ++ watched q) ≡ length f + length r + length q
length_all f r q =
    omega (arith, length-append (f ++ r) (watched q), length-append f r, length-watched q)

-- In a sound state the free list, the queue to be recycled and the timer queue are together no longer
-- than there are connections.
pub IsSound-room :
    (s : Server)
    → IsSound s
    → length s.freeconnection_list + length s.recyconnection_list + length s.timer_queue
      ≤ s.next_conn
IsSound-room s h =
    let f = s.freeconnection_list in
    let r = s.recyconnection_list in
    let q = s.timer_queue in
    let fits =
      length_le s.next_conn (f ++ r ++ watched q) (λ i. omega (arith, h.once i, occurs_all i f r q))
        (λ i le. omega (arith, h.exists i le, h.pooled.exists i le, occurs_all i f r q)) in
    omega (arith, fits, length_all f r q)

-- So the counters do not wrap while there are fewer connections than they can count.
pub IsSound-Fits : (s : Server) → IsSound s → s.next_conn + 1 < 2 ^ 31 → Fits s
IsSound-Fits s h b = record { free_fits = omega (arith, IsSound-room s h) }
