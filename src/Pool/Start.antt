-- ===== src/Pool/Start.antt =====
-- The pool that `initconnection` makes.
use flydragon.Base.{
  ℕ, zero, suc, ◌+◌, ◌^◌, ◌≤◌, ◌<◌, ◌≡◌, refl, sym, ap, ap₂, ◌∙◌, List, [], ◌∷◌, ◌++◌, arith,
  length, length-append, update,
}
use flydragon.State.{Conn, Server, new_socket}
use flydragon.State.Memory.{alloc_memory}
use flydragon.Pool.{new_connection, get_one_to_use, init_loop, init_connection}
use flydragon.Pool.Owned.{Fits, occurs, occurs-append, owners, IsPooled}

-- What the loop of `initconnection` keeps.
record Grows (s t : Server) (n : ℕ) : Type 0 where
  lists : length t.connection_list ≡ length t.freeconnection_list
  size : length t.connection_list ≡ length s.connection_list + n

module _ (now : ℕ) where
  -- The state after one round of the loop.
  abbrev one_more : Server → Server
  one_more s = record s {
    conn = update s.conn s.next_conn (get_one_to_use now new_connection);
    next_conn = s.next_conn + 1;
    connection_list = s.connection_list ++ s.next_conn ∷ [];
    freeconnection_list = s.freeconnection_list ++ s.next_conn ∷ [];
    blocks = alloc_memory s.blocks;
  }

  init_loop-Grows :
      (rounds : ℕ) (s : Server)
      → length s.connection_list ≡ length s.freeconnection_list
      → Grows s (init_loop rounds now s) rounds
  unfolding init_loop
  init_loop-Grows zero s h = record { lists = h; size = omega arith }
  init_loop-Grows (suc rounds) s h =
      let c = length-append s.connection_list (s.next_conn ∷ []) in
      let f = length-append s.freeconnection_list (s.next_conn ∷ []) in
      let g = init_loop-Grows rounds (one_more s) (omega (arith, h, c, f)) in
      record { lists = g.lists; size = omega (arith, g.size, c) }

  init_loop_lists :
      (rounds : ℕ) (s : Server)
      → ((i : ℕ) → owners i s ≤ 1)
      → ((i : ℕ) → s.next_conn ≤ i → owners i s ≡ 0)
      → ((i : ℕ) → owners i (init_loop rounds now s) ≤ 1)
        × ((i : ℕ) → (init_loop rounds now s).next_conn ≤ i → owners i (init_loop rounds now s) ≡ 0)
        × ((init_loop rounds now s).recyconnection_list ≡ s.recyconnection_list)
        × ((init_loop rounds now s).total_recyconnection_n ≡ s.total_recyconnection_n)
  unfolding init_loop
  init_loop_lists zero s a b = (a, b, refl, refl)
  init_loop_lists (suc rounds) s a b =
      init_loop_lists rounds (one_more s)
        (λ i. ground (arith, a i, b i, occurs-append i s.freeconnection_list (s.next_conn ∷ [])))
        (λ i le. ground (arith, b i, occurs-append i s.freeconnection_list (s.next_conn ∷ [])))

-- No connection is made yet.
pub record IsNew (s : Server) : Type 0 where
  pub none_made : s.connection_list ≡ []
  pub none_free : s.freeconnection_list ≡ []
  pub none_waits : s.recyconnection_list ≡ []
  pub none_counted : s.total_recyconnection_n ≡ 0

pub new_socket-IsNew : (unused : ℕ → Conn) → IsNew (new_socket unused)
new_socket-IsNew unused = record {
  none_made = refl;
  none_free = refl;
  none_waits = refl;
  none_counted = refl;
}

-- What the loop makes of a new object.
new_lists :
    (n now : ℕ) (s : Server)
    → IsNew s
    → ((i : ℕ) → owners i (init_loop n now s) ≤ 1)
      × ((i : ℕ) → (init_loop n now s).next_conn ≤ i → owners i (init_loop n now s) ≡ 0)
      × (length (init_loop n now s).recyconnection_list ≡ 0)
      × ((init_loop n now s).total_recyconnection_n ≡ 0)
      × (length (init_loop n now s).connection_list ≡ n)
      × (length (init_loop n now s).freeconnection_list ≡ n)
new_lists n now s h =
    let nobody : (i : ℕ) → owners i s ≡ 0 =
      λ i. ap₂ (λ (a b : List ℕ). occurs i a + occurs i b) h.none_free h.none_waits in
    let made = ap length h.none_made in
    let free = ap length h.none_free in
    let g = init_loop-Grows now n s (omega (arith, made, free)) in
    let (once, exists, recy, count) =
      init_loop_lists now n s (λ i. omega (arith, nobody i)) (λ i le. nobody i) in
    (
      once,
      exists,
      ap length (recy ∙ h.none_waits),
      count ∙ h.none_counted,
      omega (arith, g.size, made),
      omega (arith, g.lists, g.size, made),
    )

-- The pool that a worker starts with: `initconnection` on an object that has no connections yet, as
-- CSocekt() makes it, keeps every connection once in the free list, of the length asked for, and its
-- counters are the lengths.
pub init_connection-IsPooled :
    (s : Server) (n now : ℕ)
    → IsNew s
    → n < 2 ^ 31
    → IsPooled (init_connection n now s)
      × (length (init_connection n now s).freeconnection_list ≡ n)
unfolding init_connection
init_connection-IsPooled s n now h b =
    let (once, exists, recy, count, made, free) = new_lists n now s h in
    (
      record {
        once = once;
        exists = exists;
        free_count = omega (arith, made, free, b);
        recy_count = count ∙ sym recy;
      },
      free,
    )

pub init_connection-Fits :
    (s : Server) (n now : ℕ) → IsNew s → n + 1 < 2 ^ 31 → Fits (init_connection n now s)
unfolding init_connection
init_connection-Fits s n now h b =
    let (_, _, recy, _, _, free) = new_lists n now s h in
    record { free_fits = omega (arith, recy, free, b) }
