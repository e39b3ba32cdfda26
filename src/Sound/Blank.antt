-- ===== src/Sound/Blank.antt =====
-- The pool that is made first for a blank object is sound.
use flydragon.Base.{
  ℕ, zero, suc, ◌+◌, ◌^◌, ◌≤◌, ◌<◌, ◌≡◌, inl, inr, refl, sym, ap, ◌∙◌, [], ◌∷◌, ◌++◌, update, none,
  arith, length,
}
use flydragon.State.{Server, no_handler}
use flydragon.State.Memory.{alloc_memory}
use flydragon.Pool.{init_loop, init_connection, new_connection, get_one_to_use}
use flydragon.Pool.Start.{IsNew, init_connection-IsPooled}
use flydragon.Timer.{get_earliest_time}
use flydragon.Sound.{IsSound}

-- The object of a worker before `flyd_epoll_init`: no connection, no check, and a heartbeat that waits.
pub record IsBlank (s : Server) : Type 0 where
  pub new : IsNew s
  pub no_connections : s.next_conn ≡ 0
  pub no_checks : s.timer_queue ≡ []
  pub no_size : s.cur_size ≡ 0
  pub waits : 0 < s.wait_time

-- No connection of `t` has a handler for writing, and heartbeat and timer queue are those of `s`.
pub record NoClients (s t : Server) : Type 0 where
  pub idle : (i : ℕ) → i < t.next_conn → (t.conn i).whandler ≡ no_handler
  pub heartbeat : t.kick_time_count ≡ s.kick_time_count
  pub wait : t.wait_time ≡ s.wait_time
  pub queue : t.timer_queue ≡ s.timer_queue

-- No connection has a descriptor or a handler for writing.
record AreIdle (s t : Server) (n : ℕ) : Type 0 where
  idle : (i : ℕ) → i < t.next_conn → ((t.conn i).fd ≡ none) × ((t.conn i).whandler ≡ no_handler)
  next : t.next_conn ≡ s.next_conn + n
  queue : t.timer_queue ≡ s.timer_queue
  size : t.cur_size ≡ s.cur_size
  wait : t.wait_time ≡ s.wait_time
  heartbeat : t.kick_time_count ≡ s.kick_time_count

init_loop-AreIdle :
    (n now : ℕ) (s : Server)
    → ((i : ℕ) → i < s.next_conn → ((s.conn i).fd ≡ none) × ((s.conn i).whandler ≡ no_handler))
    → AreIdle s (init_loop n now s) n
unfolding init_loop new_connection get_one_to_use
init_loop-AreIdle zero now s h = record {
  idle = h;
  next = omega arith;
  queue = refl;
  size = refl;
  wait = refl;
  heartbeat = refl;
}
init_loop-AreIdle (suc n) now s h =
    let r =
      init_loop-AreIdle n now
        (record s {
          conn = update s.conn s.next_conn (get_one_to_use now new_connection);
          next_conn = s.next_conn + 1;
          connection_list = s.connection_list ++ s.next_conn ∷ [];
          freeconnection_list = s.freeconnection_list ++ s.next_conn ∷ [];
          blocks = alloc_memory s.blocks;
        })
        (λ i le. ground (arith, h i)) in
    record {
      idle = r.idle;
      next = omega (arith, r.next);
      queue = r.queue;
      size = r.size;
      wait = r.wait;
      heartbeat = r.heartbeat;
    }

pub init_connection-IsSound :
    (n now : ℕ) (s : Server)
    → IsBlank s
    → n + 2 < 2 ^ 31
    → IsSound (init_connection n now s)
      × ((init_connection n now s).next_conn ≡ n)
      × NoClients s (init_connection n now s)
unfolding init_connection get_earliest_time
init_connection-IsSound n now s h room =
    let r = init_loop-AreIdle n now s (λ i le. absurd (omega (arith, le, h.no_connections))) in
    let p = (init_connection-IsPooled s n now h.new (omega (arith, room))).0 in
    let empty = r.queue ∙ h.no_checks in
    (
      record {
        pooled = p;
        timed = record {
          sorted = rw empty tt;
          sized = r.size ∙ h.no_size ∙ sym (ap length empty);
          fits = omega (arith, ap length empty);
          noted = λ t e. absurd (cc (empty, e));
        };
        once = λ i. rw empty (omega (arith, p.once i));
        exists = λ i le. rw empty refl;
        no_fd = λ i w. (r.idle i (exists_if (p.exists i) w)).0;
        armed = inr empty;
        waits = omega (arith, r.wait, h.waits);
        writes = λ i le. inl (r.idle i le).1;
      },
      omega (arith, r.next, h.no_connections),
      record {
        idle = λ i le. (r.idle i le).1;
        heartbeat = r.heartbeat;
        wait = r.wait;
        queue = r.queue;
      },
    )
  where
    exists_if : {a b c : ℕ} → (a ≤ b → c ≡ 0) → 0 < c → b < a
    exists_if g o = grind (arith, g)
