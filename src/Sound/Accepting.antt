-- ===== src/Sound/Accepting.antt =====
-- A client connects, in a sound state.
use flydragon.Base.{
  ℕ, ◌+◌, ◌^◌, ◌≤◌, ◌<◌, inl, inr, refl, arith, Bool, true, false, ◌==◌, Bool-cases, ==→eq,
}
use flydragon.Pool.Owned.{IsPooled-same}
use flydragon.Timer.Order.{IsTimed-same}
use flydragon.State.{Server}
use flydragon.State.Held.{sets-Keeps}
use flydragon.Pool.{get_connection}
use flydragon.Accept.{
  AcceptResult, accepted, no_accept4, other_error, Answers, set_handlers, register_connection,
  accept_connection, accept_plain, accept_four, event_accept,
}
use flydragon.Epoll.{ctl_add, epollin, epollrdhup, oper_event}
use flydragon.Sound.{IsSound, KeepsSound}
use flydragon.Sound.Taking.{
  Taken, Taken-Keeps, get_connection-Taken, close_connection-KeepsSound,
  add_to_timer_queue-KeepsSound,
}

set_handlers-Taken : (old new : ℕ) (s : Server) → Taken new s → Taken new (set_handlers old new s)
unfolding set_handlers
set_handlers-Taken old new s k =
    let h = k.sound in
    record {
      sound = record {
        pooled = IsPooled-same refl h.pooled;
        timed = IsTimed-same refl h.timed;
        once = h.once;
        exists = h.exists;
        no_fd = λ j w. ground (arith, h.no_fd j w);
        armed = h.armed;
        waits = h.waits;
        writes = λ j le. ground (arith, h.writes j le);
      };
      exists = k.exists;
      owned = k.owned;
      unchecked = k.unchecked;
    }

oper_event-Taken :
    (ok : Bool) (i : ℕ) (s : Server)
    → Taken i s
    → Taken i (oper_event ctl_add (epollin + epollrdhup) 0 i ok s).0
unfolding oper_event
oper_event-Taken ok i s k = Taken-Keeps i s _ (λ j. sets-Keeps i j _ refl refl refl) k

-- From `newc->listening = ...` on.
register_connection-KeepsSound :
    (ok : Bool) (now old new : ℕ) (s : Server)
    → Taken new s
    → s.next_conn + 1 < 2 ^ 31
    → KeepsSound s (register_connection ok now old new s)
unfolding register_connection set_handlers oper_event
register_connection-KeepsSound ok now old new s k room =
    let t = set_handlers old new s in
    let u = (oper_event ctl_add (epollin + epollrdhup) 0 new ok t).0 in
    let taken = oper_event-Taken ok new t (set_handlers-Taken old new s k) in
    elim (Bool-cases ok) [
      | inr e ↦ rw e (
          let r = close_connection-KeepsSound new u taken room in
          record { sound = r.sound; next = r.next })
      | inl e ↦ rw e (elim (Bool-cases (s.kick_time_count == 1)) [
        | inl q ↦ rw q (
            let r =
              add_to_timer_queue-KeepsSound now new u taken (==→eq s.kick_time_count 1 q) room in
            record { sound = r.sound; next = r.next })
        | inr q ↦ rw q (record { sound = taken.sound; next = omega arith })
      ])
    ]

-- A connection for an accepted descriptor leaves the state sound.
accept_connection-KeepsSound :
    (use_accept4 : Bool) (answers : Answers) (fd now old : ℕ) (s : Server)
    → IsSound s
    → s.next_conn + 2 < 2 ^ 31
    → KeepsSound s (accept_connection use_accept4 answers fd now old s)
unfolding accept_connection
accept_connection-KeepsSound use_accept4 answers fd now old s h room =
    let t = (get_connection fd now s).0 in
    let new = (get_connection fd now s).1 in
    let (taken, more, le) = get_connection-Taken fd now s h room in
    let registered =
      register_connection-KeepsSound answers.ctl now old new t taken (omega (arith, le, room)) in
    let closed = close_connection-KeepsSound new t taken (omega (arith, le, room)) in
    elim (Bool-cases use_accept4) [
      | inl e ↦ rw e (after more registered)
      | inr e ↦ rw e (elim (Bool-cases answers.nonblocking) [
        | inl n ↦ rw n (after more registered)
        | inr n ↦ rw n (after more closed)
      ])
    ]
  where
    after : {t u : Server} → s.next_conn ≤ t.next_conn → KeepsSound t u → KeepsSound s u
    after le r = record { sound = r.sound; next = omega (arith, le, r.next) }

accept_plain-KeepsSound :
    (answers : Answers) (r : AcceptResult) (now old : ℕ) (s : Server)
    → IsSound s
    → s.next_conn + 2 < 2 ^ 31
    → KeepsSound s (accept_plain answers r now old s)
unfolding accept_plain
accept_plain-KeepsSound answers (accepted fd) now old s h room =
    accept_connection-KeepsSound false answers fd now old s h room
accept_plain-KeepsSound answers no_accept4 now old s h room = record {
  sound = h;
  next = omega arith;
}
accept_plain-KeepsSound answers other_error now old s h room = record {
  sound = h;
  next = omega arith;
}

accept_four-KeepsSound :
    (answers : Answers) (r : AcceptResult) (now old : ℕ) (s : Server)
    → IsSound s
    → s.next_conn + 2 < 2 ^ 31
    → KeepsSound s (accept_four answers r now old s).0
unfolding accept_four
accept_four-KeepsSound answers (accepted fd) now old s h room =
    accept_connection-KeepsSound true answers fd now old s h room
accept_four-KeepsSound answers no_accept4 now old s h room =
    accept_plain-KeepsSound answers answers.accept now old s h room
accept_four-KeepsSound answers other_error now old s h room = record {
  sound = h;
  next = omega arith;
}

-- Whatever the kernel answers, the handler of a listening socket leaves a sound state sound.
pub event_accept-KeepsSound :
    (use_accept4 : Bool) (answers : Answers) (now old : ℕ) (s : Server)
    → IsSound s
    → s.next_conn + 2 < 2 ^ 31
    → KeepsSound s (event_accept use_accept4 answers now old s).0
unfolding event_accept
event_accept-KeepsSound true answers now old s h room =
    accept_four-KeepsSound answers answers.accept4 now old s h room
event_accept-KeepsSound false answers now old s h room =
    accept_plain-KeepsSound answers answers.accept now old s h room
