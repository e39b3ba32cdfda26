-- ===== src/Pool/Owned.antt =====
-- Who owns a connection: the free list, the queue to be recycled, or whoever uses it.
use flydragon.Base.{
  ◌≢◌, ℕ, ◌+◌, ◌-◌, ◌^◌, ◌≤◌, ◌<◌, ◌≡◌, inl, inr, refl, sym, ap, subst, List, [], ◌∷◌, ◌++◌, arith,
  length, some, Bool, true, false, ◌==◌, if◌then◌else◌, contains, erase, length-append, Bool-cases,
}
use flydragon.State.{Server}
use flydragon.Pool.{first_due, free_connection, get_from, get_connection, in_recy_connect_queue}

-- How often a connection is in a list.
abbrev pub occurs : ℕ → List ℕ → ℕ
occurs i [] = 0
occurs i (x ∷ xs) = (if x == i then 1 else 0) + occurs i xs

pub occurs-append : (i : ℕ) (xs ys : List ℕ) → occurs i (xs ++ ys) ≡ occurs i xs + occurs i ys
occurs-append i [] ys = omega arith
occurs-append i (x ∷ xs) ys = omega (arith, occurs-append i xs ys)

pub occurs-erase : (i j : ℕ) (xs : List ℕ) → occurs i (erase j xs) ≤ occurs i xs
unfolding erase
occurs-erase i j [] = omega arith
occurs-erase i j (x ∷ xs) = ground (arith, occurs-erase i j xs)

pub occurs_erased : (j : ℕ) (xs : List ℕ) → occurs j (erase j xs) ≡ occurs j xs - 1
unfolding erase
occurs_erased j [] = omega arith
occurs_erased j (x ∷ xs) = ground (arith, occurs_erased j xs)

pub length_erased : (j : ℕ) (xs : List ℕ) → 0 < occurs j xs → length xs ≡ length (erase j xs) + 1
unfolding erase
length_erased j [] h = absurd (omega arith)
length_erased j (x ∷ xs) h = ground (arith, length_erased j xs)

pub occurs_none : (i : ℕ) (xs : List ℕ) → contains i xs ≡ false → occurs i xs ≡ 0
unfolding contains
occurs_none i [] h = refl
occurs_none i (x ∷ xs) h = ground (arith, occurs_none i xs)

occurs_contained : (i : ℕ) (xs : List ℕ) → contains i xs ≡ true → 0 < occurs i xs
unfolding contains
occurs_contained i [] h = absurd (cc)
occurs_contained i (x ∷ xs) h = ground (arith, occurs_contained i xs)

pub occurs_not_contained : (i : ℕ) (xs : List ℕ) → occurs i xs ≡ 0 → contains i xs ≡ false
occurs_not_contained i xs z = elim (Bool-cases (contains i xs)) [
  | inr e ↦ e
  | inl e ↦ absurd (omega (arith, z, occurs_contained i xs e))
]

pub first_due-occurs :
    (p : ℕ → Bool) (xs : List ℕ) (i : ℕ) → first_due p xs ≡ some i → 0 < occurs i xs
unfolding first_due
first_due-occurs p [] i h = absurd (cc)
first_due-occurs p (x ∷ xs) i h = ground (arith, first_due-occurs p xs i)

-- How often a connection is free or waits.
abbrev pub owners : ℕ → Server → ℕ
owners i s = occurs i s.freeconnection_list + occurs i s.recyconnection_list

-- A connection is in one of the two lists at most, and in neither before it exists; the counts are
-- those of the lists.
pub record IsPooled (s : Server) : Type 0 where
  pub once : (i : ℕ) → owners i s ≤ 1
  pub exists : (i : ℕ) → s.next_conn ≤ i → owners i s ≡ 0
  pub free_count : s.free_connection_n ≡ length s.freeconnection_list
  pub recy_count : s.total_recyconnection_n ≡ length s.recyconnection_list

-- What `IsPooled` is about.
abbrev pub Pooled : Type 0
Pooled = ℕ × List ℕ × List ℕ × ℕ × ℕ

abbrev pub pooled_of : Server → Pooled
pooled_of s = (
  s.next_conn, s.freeconnection_list, s.recyconnection_list, s.free_connection_n,
  s.total_recyconnection_n,
)

abbrev with_pooled : Server → Pooled → Server
with_pooled t (next, free, recy, free_n, recy_n) = record t {
  next_conn = next;
  freeconnection_list = free;
  recyconnection_list = recy;
  free_connection_n = free_n;
  total_recyconnection_n = recy_n;
}

-- It holds of every state that has the same of it.
pub IsPooled-same : {s t : Server} → pooled_of t ≡ pooled_of s → IsPooled s → IsPooled t
IsPooled-same {s} {t} e h =
    subst (λ (p : Pooled). IsPooled (with_pooled t p)) (sym e)
      (record {
        once = h.once;
        exists = h.exists;
        free_count = h.free_count;
        recy_count = h.recy_count;
      })

-- The lists are shorter than their counters can tell.
pub record Fits (s : Server) : Type 0 where
  pub free_fits : length s.freeconnection_list + length s.recyconnection_list + 1 < 2 ^ 31

pub free_connection-IsPooled :
    (i : ℕ) (s : Server)
    → IsPooled s
    → Fits s
    → owners i s ≡ 0
    → i < s.next_conn
    → IsPooled (free_connection i s)
unfolding free_connection
free_connection-IsPooled i s h f o b = record {
  once = λ j. ground (arith, h.once j, o, occurs-append j s.freeconnection_list (i ∷ []));
  exists = λ j le. ground (arith, h.exists j le, occurs-append j s.freeconnection_list (i ∷ []));
  free_count =
      omega (arith, h.free_count, f.free_fits, length-append s.freeconnection_list (i ∷ []));
  recy_count = h.recy_count;
}

pub in_recy_connect_queue-IsPooled :
    (now i : ℕ) (s : Server)
    → IsPooled s
    → Fits s
    → occurs i s.freeconnection_list ≡ 0
    → i < s.next_conn
    → IsPooled (in_recy_connect_queue now i s)
unfolding in_recy_connect_queue
in_recy_connect_queue-IsPooled now i s h f o b =
    elim (Bool-cases (contains i s.recyconnection_list)) [
      | inl c ↦ rw c h
      | inr c ↦
          let z = occurs_none i s.recyconnection_list c in
          rw c (record {
            once =
                λ j. ground (arith, h.once j, o, z, occurs-append j s.recyconnection_list (i ∷ []));
            exists = λ j le.
                ground (arith, h.exists j le, occurs-append j s.recyconnection_list (i ∷ []));
            free_count = h.free_count;
            recy_count =
                omega
                  (arith, h.recy_count, f.free_fits, length-append s.recyconnection_list (i ∷ []));
          })
    ]

-- The connection that is given out belongs to nobody else.
get_from-IsPooled :
    (free : List ℕ) (fd now : ℕ) (s : Server)
    → s.freeconnection_list ≡ free
    → IsPooled s
    → Fits s
    → let (t, i) = get_from free fd now s in IsPooled t × (owners i t ≡ 0) × (i < t.next_conn)
unfolding get_from
get_from-IsPooled [] fd now s e h f = (
  record {
    once = h.once;
    exists = λ j le. h.exists j (omega (arith, le));
    free_count = h.free_count;
    recy_count = h.recy_count;
  },
  h.exists s.next_conn (omega arith),
  omega arith,
)
get_from-IsPooled (i ∷ is) fd now s e h f = (
  record {
    once = λ j. omega (arith, h.once j, ap (occurs j) e);
    exists = λ j le. omega (arith, h.exists j le, ap (occurs j) e);
    free_count = omega (arith, h.free_count, f.free_fits, ap length e);
    recy_count = h.recy_count;
  },
  ground (arith, h.once i, ap (occurs i) e),
  exists_if (h.exists i) (ground (arith, ap (occurs i) e)),
)
  where
    exists_if :
        (s.next_conn ≤ i → owners i s ≡ 0) → 0 < occurs i s.freeconnection_list → i < s.next_conn
    exists_if g o = grind (arith, g)

-- If the lists are as in `IsPooled` and their counters do not wrap, `flyd_get_connection` keeps them
-- so, and the connection that it gives out exists, is not free and does not wait to be recycled.
pub get_connection-IsPooled :
    (fd now : ℕ) (s : Server)
    → IsPooled s
    → Fits s
    → let (t, i) = get_connection fd now s in IsPooled t × (owners i t ≡ 0) × (i < t.next_conn)
unfolding get_connection
get_connection-IsPooled fd now s h f = get_from-IsPooled s.freeconnection_list fd now s refl h f

get_from-Fits :
    (free : List ℕ) (fd now : ℕ) (s : Server)
    → s.freeconnection_list ≡ free
    → Fits s
    → Fits (get_from free fd now s).0
unfolding get_from
get_from-Fits [] fd now s e f = record { free_fits = f.free_fits }
get_from-Fits (i ∷ is) fd now s e f = record { free_fits = omega (arith, f.free_fits, ap length e) }

pub get_connection-Fits : (fd now : ℕ) (s : Server) → Fits s → Fits (get_connection fd now s).0
unfolding get_connection
get_connection-Fits fd now s f = get_from-Fits s.freeconnection_list fd now s refl f

get_from_others :
    (free : List ℕ) (fd now : ℕ) (s : Server) (n : ℕ)
    → s.freeconnection_list ≡ free
    → owners n s ≡ 0
    → n < s.next_conn
    → ((get_from free fd now s).0.conn n ≡ s.conn n)
      × (owners n (get_from free fd now s).0 ≡ 0)
      × (s.next_conn ≤ (get_from free fd now s).0.next_conn)
      × ((get_from free fd now s).1 ≢ n)
unfolding get_from
get_from_others [] fd now s n e o b = (ground (arith, b), o, omega arith, omega (arith, b))
get_from_others (i ∷ is) fd now s n e o b =
    let d : i ≢ n = ground (arith, ap (occurs n) e, o) in
    (ground (arith, d), omega (arith, ap (occurs n) e, o), omega arith, d)

-- A connection that is in use stays as it is.
pub get_connection_others :
    (fd now : ℕ) (s : Server) (n : ℕ)
    → owners n s ≡ 0
    → n < s.next_conn
    → ((get_connection fd now s).0.conn n ≡ s.conn n)
      × (owners n (get_connection fd now s).0 ≡ 0)
      × (s.next_conn ≤ (get_connection fd now s).0.next_conn)
      × ((get_connection fd now s).1 ≢ n)
unfolding get_connection
get_connection_others fd now s n o b = get_from_others s.freeconnection_list fd now s n refl o b
