-- ===== src/Sound/Taking.antt =====
-- A connection is taken from the pool of a sound state, and closed or watched.
use flydragon.Base.{
  ℕ, ◌+◌, ◌^◌, ◌≤◌, ◌<◌, ◌≡◌, inl, inr, refl, ap, subst, sym, ◌∙◌, List, [], ◌∷◌, none, arith,
  Option-cases, inc64,
}
use flydragon.State.{Entry, Server, set_conn}
use flydragon.State.Held.{Pools, Keeps}
use flydragon.State.Memory.{alloc_memory}
use flydragon.Pool.{
  get_from, get_connection, free_connection, put_one_to_free, close_connection, new_connection,
  get_one_to_use,
}
use flydragon.Pool.Owned.{
  IsPooled-same, occurs, occurs-append, owners, IsPooled, get_connection-IsPooled,
  free_connection-IsPooled,
}
use flydragon.Timer.{insert, add_to_timer_queue}
use flydragon.Timer.Order.{
  IsTimed-same, IsTimed, add_to_timer_queue-IsTimed, set_timer_value_lem, checks, checks-insert,
}
use flydragon.Sound.{IsSound, KeepsSound, Keeps-IsSound}
use flydragon.Sound.Room.{IsSound-Fits, IsSound-room}

-- The connection `i` of the sound state `s` exists and is neither free nor waits, and has no check.
pub record Taken (i : ℕ) (s : Server) : Type 0 where
  pub sound : IsSound s
  pub exists : i < s.next_conn
  pub owned : owners i s ≡ 0
  pub unchecked : checks i s.timer_queue ≡ 0

get_from-IsSound :
    (free : List ℕ) (fd now : ℕ) (s : Server)
    → s.freeconnection_list ≡ free
    → IsSound s
    → IsPooled (get_from free fd now s).0
    → IsSound (get_from free fd now s).0
      × (checks (get_from free fd now s).1 (get_from free fd now s).0.timer_queue ≡ 0)
      × (s.next_conn ≤ (get_from free fd now s).0.next_conn)
      × ((get_from free fd now s).0.next_conn ≤ s.next_conn + 1)
unfolding get_from new_connection get_one_to_use
get_from-IsSound [] fd now s e h pooled = (
  record {
    pooled = pooled;
    timed = IsTimed-same refl h.timed;
    once = h.once;
    exists = λ i le. h.exists i (omega (arith, le));
    no_fd = λ i w. ground (arith, h.no_fd i w, h.pooled.exists i);
    armed = h.armed;
    waits = h.waits;
    writes = λ i le. ground (arith, h.writes i);
  },
  h.exists s.next_conn (omega arith),
  omega arith,
  omega arith,
)
get_from-IsSound (i ∷ is) fd now s e h pooled = (
  record {
    pooled = pooled;
    timed = IsTimed-same refl h.timed;
    once = λ j. omega (arith, h.once j, ap (occurs j) e);
    exists = h.exists;
    no_fd = λ j w.
        ground (arith, h.no_fd j (omega (arith, w, ap (occurs j) e)), h.once j, ap (occurs j) e, w);
    armed = h.armed;
    waits = h.waits;
    writes = λ j le. ground (arith, h.writes j le);
  },
  ground (arith, h.once i, ap (occurs i) e),
  omega arith,
  omega arith,
)

-- The connection that is given out has no check, as it was free or is new.
pub get_connection-Taken :
    (fd now : ℕ) (s : Server)
    → IsSound s
    → s.next_conn + 2 < 2 ^ 31
    → Taken (get_connection fd now s).1 (get_connection fd now s).0
      × (s.next_conn ≤ (get_connection fd now s).0.next_conn)
      × ((get_connection fd now s).0.next_conn ≤ s.next_conn + 1)
unfolding get_connection
get_connection-Taken fd now s h room =
    let (pooled, free, exists) =
      get_connection-IsPooled fd now s h.pooled (IsSound-Fits s h (omega (arith, room))) in
    let (sound, unchecked, more, next) =
      get_from-IsSound s.freeconnection_list fd now s refl h pooled in
    (record { sound = sound; exists = exists; owned = free; unchecked = unchecked }, more, next)

pub Taken-Keeps : (i : ℕ) (s t : Server) → ((j : ℕ) → Keeps j s t) → Taken i s → Taken i t
Taken-Keeps i s t k h =
    let pools = (k i).pools in
    record {
      sound = Keeps-IsSound s t k h.sound;
      exists = omega (arith, h.exists, ap (λ (p : Pools). p.0) pools);
      owned = ap (λ (p : Pools). occurs i p.1 + occurs i p.2) pools ∙ h.owned;
      unchecked = ap (λ (p : Pools). checks i p.5) pools ∙ h.unchecked;
    }

-- The connection is free and has no descriptor.
abbrev freed : ℕ → Server → Server
freed i s = set_conn (free_connection i s) i (record ((free_connection i s).conn i) { fd = none })

freed-IsSound : (i : ℕ) (s : Server) → Taken i s → s.next_conn + 1 < 2 ^ 31 → IsSound (freed i s)
unfolding free_connection put_one_to_free
freed-IsSound i s k room =
    let h = k.sound in
    let pooled = free_connection-IsPooled i s h.pooled (IsSound-Fits s h room) k.owned k.exists in
    let split = λ (j : ℕ). occurs-append j s.freeconnection_list (i ∷ []) in
    record {
      pooled = IsPooled-same refl pooled;
      timed = IsTimed-same refl h.timed;
      once = λ j. ground (arith, h.once j, split j, k.owned, k.unchecked);
      exists = h.exists;
      no_fd = λ j w. ground (arith, h.no_fd j, split j, w);
      armed = h.armed;
      waits = h.waits;
      writes = λ j le. ground (arith, h.writes j le);
    }

pub close_connection-KeepsSound :
    (i : ℕ) (s : Server)
    → Taken i s
    → s.next_conn + 1 < 2 ^ 31
    → KeepsSound s (close_connection i s)
unfolding close_connection free_connection
close_connection-KeepsSound i s k room =
    let h = freed-IsSound i s k room in
    let t = free_connection i s in
    elim (Option-cases (t.conn i).fd) [
      | inl e ↦
          rw (e, close_connection)
            (record {
              sound =
                  Keeps-IsSound (freed i s) t
                    (λ j. record { held = ground (arith, e); pools = refl }) h;
              next = omega arith;
            })
      | inr (fd, e) ↦
          rw (e, close_connection)
            (record {
              sound = Keeps-IsSound (freed i s) _ (λ j. record { held = refl; pools = refl }) h;
              next = omega arith;
            })
    ]

-- The check of a new connection.
abbrev pub check_for : ℕ → ℕ → Server → Entry
check_for now i s = record {
  time = now + s.wait_time;
  timer = record { conn = i; sequence = (s.conn i).sequence };
}

-- The state with the check, before the head is noted.
abbrev pub with_check : ℕ → ℕ → Server → Server
with_check now i s = record s {
  blocks = alloc_memory s.blocks;
  timer_queue = insert (check_for now i s) s.timer_queue;
  cur_size = inc64 s.cur_size;
}

pub add_to_timer_queue-KeepsSound :
    (now i : ℕ) (s : Server)
    → Taken i s
    → s.kick_time_count ≡ 1
    → s.next_conn + 1 < 2 ^ 31
    → KeepsSound s (add_to_timer_queue now i s)
unfolding add_to_timer_queue
add_to_timer_queue-KeepsSound now i s k kicks room =
    let h = k.sound in
    let e = check_for now i s in
    let t = with_check now i s in
    let timed =
      add_to_timer_queue-IsTimed now i s h.timed (omega (arith, IsSound-room s h, room)) in
    let (v, same, _) = set_timer_value_lem t in
    let timed₁ : IsTimed (record t { timer_value = v }) = subst IsTimed same timed in
    subst (KeepsSound s) (sym same) (record {
      sound = record {
        pooled = IsPooled-same refl h.pooled;
        timed = timed₁;
        once = λ j. ground (arith, h.once j, checks-insert j e s.timer_queue, k.owned, k.unchecked);
        exists = λ j le. ground (arith, h.exists j le, checks-insert j e s.timer_queue, k.exists);
        no_fd = h.no_fd;
        armed = inl kicks;
        waits = h.waits;
        writes = h.writes;
      };
      next = omega arith;
    })
