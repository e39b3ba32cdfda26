-- ===== src/Sound/WatchEvents.antt =====
-- The checks of the clients, while clients connect, send and leave.
use flydragon.Base.{
  ℕ, ◌+◌, ◌^◌, ◌≤◌, ◌<◌, ◌≡◌, ◌⊎◌, inl, inr, refl, ap, [], ◌∷◌, arith, Bool, true, false, ◌==◌,
  Bool-cases,
}
use flydragon.State.{Server, Handler, no_handler, wait_request, write_request}
use flydragon.State.Held.{sets-Keeps}
use flydragon.Pool.{get_connection}
use flydragon.Epoll.{ctl_add, epollin, epollout, epollerr, epollhup, epollrdhup, oper_event}
use flydragon.Accept.{
  AcceptResult, accepted, no_accept4, other_error, Answers, set_handlers, register_connection,
  accept_connection, accept_plain, accept_four, event_accept,
}
use flydragon.Recv.{
  ReadResult, got, failed, is_transient, recvproc, after_read, wait_request_handler,
}
use flydragon.Recv.Sending.{wait_request_handler-SendsSame}
use flydragon.Send.{write_request_handler}
use flydragon.Send.Receiving.{write_request_handler-ReceivesSame}
use flydragon.Events.{Event, has_flag, call, on_readable, on_writable, process_event}
use flydragon.Close.{zd_closesocket_proc}
use flydragon.Sound.{IsSound}
use flydragon.Sound.Closing.{zd_closesocket_proc-StaysSound}
use flydragon.Sound.Serving.{IsOpen, IsOpen-owners, on_readable-KeepsSound}
use flydragon.Sound.Watched.{WatchesBut, Watches, SameClient-HasCheck, Keeps-Watches}
use flydragon.Sound.Watching.{
  zd_closesocket_proc-Watches, get_connection-WatchesBut, close_connection-Watches,
  add_to_timer_queue-Watches,
}

module _ {period last : ℕ} where
  -- Until it has its check, only the new connection is changed.
  set_new-WatchesBut :
      (ok : Bool) (old new : ℕ) (s : Server)
      → WatchesBut period last new s
      → WatchesBut period last new
          (oper_event ctl_add (epollin + epollrdhup) 0 new ok (set_handlers old new s)).0
  unfolding oper_event set_handlers
  set_new-WatchesBut ok old new s w = record {
    beats = w.beats;
    others = λ j d.
        SameClient-HasCheck j s _
          (record {
            next = refl;
            writes = ground (arith, d);
            fd = ground (arith, d);
            number = ground (arith, d);
            checks = λ n. refl;
          })
          (w.others j d);
  }

  -- With the heartbeat on, a registered connection gets its check.
  register_connection-Watches :
      (ok : Bool) (now old new : ℕ) (s : Server)
      → now + period ≤ last
      → WatchesBut period last new s
      → Watches period last (register_connection ok now old new s)
  unfolding register_connection
  register_connection-Watches ok now old new s le w =
      let t = (oper_event ctl_add (epollin + epollrdhup) 0 new ok (set_handlers old new s)).0 in
      let set = set_new-WatchesBut ok old new s w in
      elim (Bool-cases ok) [
        | inr e ↦ rw e (close_connection-Watches new t set)
        | inl e ↦
            rw e
              (rw (ap (λ (k : ℕ). k == 1) w.beats.0) (add_to_timer_queue-Watches now new t le set))
      ]

  accept_connection-Watches :
      (use_accept4 : Bool) (answers : Answers) (fd now old : ℕ) (s : Server)
      → now + period ≤ last
      → Watches period last s
      → Watches period last (accept_connection use_accept4 answers fd now old s)
  unfolding accept_connection
  accept_connection-Watches use_accept4 answers fd now old s le w =
      let t = (get_connection fd now s).0 in
      let new = (get_connection fd now s).1 in
      let given = get_connection-WatchesBut fd now s w in
      let registered = register_connection-Watches answers.ctl now old new t le given in
      elim (Bool-cases use_accept4) [
        | inl e ↦ rw e registered
        | inr e ↦ rw e (elim (Bool-cases answers.nonblocking) [
          | inl n ↦ rw n registered
          | inr n ↦ rw n (close_connection-Watches new t given)
        ])
      ]

  accept_plain-Watches :
      (answers : Answers) (r : AcceptResult) (now old : ℕ) (s : Server)
      → now + period ≤ last
      → Watches period last s
      → Watches period last (accept_plain answers r now old s)
  unfolding accept_plain
  accept_plain-Watches answers (accepted fd) now old s le w =
      accept_connection-Watches false answers fd now old s le w
  accept_plain-Watches answers no_accept4 now old s le w = w
  accept_plain-Watches answers other_error now old s le w = w

  accept_four-Watches :
      (answers : Answers) (r : AcceptResult) (now old : ℕ) (s : Server)
      → now + period ≤ last
      → Watches period last s
      → Watches period last (accept_four answers r now old s).0
  unfolding accept_four
  accept_four-Watches answers (accepted fd) now old s le w =
      accept_connection-Watches true answers fd now old s le w
  accept_four-Watches answers no_accept4 now old s le w =
      accept_plain-Watches answers answers.accept now old s le w
  accept_four-Watches answers other_error now old s le w = w

  event_accept-Watches :
      (use_accept4 : Bool) (answers : Answers) (now old : ℕ) (s : Server)
      → now + period ≤ last
      → Watches period last s
      → Watches period last (event_accept use_accept4 answers now old s).0
  unfolding event_accept
  event_accept-Watches true answers now old s le w =
      accept_four-Watches answers answers.accept4 now old s le w
  event_accept-Watches false answers now old s le w =
      accept_plain-Watches answers answers.accept now old s le w

  wait_request_handler-Watches :
      (lo : ℕ → ℕ) (r : ReadResult) (now i : ℕ) (s : Server)
      → IsSound s
      → s.next_conn + 2 < 2 ^ 31
      → IsOpen i s
      → Watches period last s
      → Watches period last (wait_request_handler lo r now i s)
  unfolding wait_request_handler recvproc after_read
  wait_request_handler-Watches lo r now i s h room o w =
      let z = IsOpen-owners i s h o in
      let a =
        zd_closesocket_proc-StaysSound now i s h (omega (arith, room)) o.exists
          (omega (arith, z)) in
      go r (zd_closesocket_proc-Watches now i s h a w)
    where
      go :
          (r : ReadResult)
          → Watches period last (zd_closesocket_proc now i s)
          → Watches period last (wait_request_handler lo r now i s)
      go (got []) closed = closed
      go (got (x ∷ xs)) closed =
          Keeps-Watches s _ (λ j. (wait_request_handler-SendsSame lo i j x xs now s).keeps) w
      go (failed e) closed = elim (Bool-cases (is_transient e)) [
        | inl t ↦ rw t w
        | inr t ↦ rw t closed
      ]

  write_request_handler-Watches :
      (e : Event) (s : Server)
      → Watches period last s
      → Watches period last (write_request_handler e.write e.ctl e.conn s)
  write_request_handler-Watches e s w =
      Keeps-Watches s _ (λ j. (write_request_handler-ReceivesSame j e.write e.ctl e.conn s).keeps) w

  -- The call of a handler for reading.
  call-Watches :
      (lo : ℕ → ℕ) (f : Handler) (e : Event) (s : Server) (b : Bool)
      → e.now + period ≤ last
      → IsSound s
      → s.next_conn + 2 < 2 ^ 31
      → IsOpen e.conn s
      → Watches period last s
      → Watches period last (call lo f e (s, b)).0
  unfolding call
  call-Watches lo no_handler e s b le h room o w = w
  call-Watches lo Handler.event_accept e s b le h room o w =
      event_accept-Watches b e.answers e.now e.conn s le w
  call-Watches lo wait_request e s b le h room o w =
      wait_request_handler-Watches lo e.read e.now e.conn s h room o w
  call-Watches lo write_request e s b le h room o w = write_request_handler-Watches e s w

  -- The call of a handler for writing.
  writer-Watches :
      (lo : ℕ → ℕ) (f : Handler) (e : Event) (s : Server) (b : Bool)
      → (f ≡ no_handler) ⊎ (f ≡ write_request)
      → Watches period last s
      → Watches period last (call lo f e (s, b)).0
  unfolding call
  writer-Watches lo f e s b (inl n) w = rw n w
  writer-Watches lo f e s b (inr q) w = rw q (write_request_handler-Watches e s w)

  on_writable-Watches :
      (lo : ℕ → ℕ) (e : Event) (s : Server) (b : Bool)
      → IsSound s
      → e.conn < s.next_conn
      → Watches period last s
      → Watches period last (on_writable lo e (s, b)).0
  unfolding on_writable
  on_writable-Watches lo e s b h le w = elim (Bool-cases (has_flag e.revents epollout)) [
    | inr q ↦ rw q w
    | inl q ↦ rw q (elim (Bool-cases (has_flag e.revents (epollerr + epollhup + epollrdhup))) [
      | inl r ↦ rw r (Keeps-Watches s _ (λ j. sets-Keeps e.conn j _ refl refl refl) w)
      | inr r ↦ rw r (writer-Watches lo (s.conn e.conn).whandler e s b (h.writes e.conn le) w)
    ])
  ]

  on_readable-Watches :
      (lo : ℕ → ℕ) (e : Event) (s : Server) (b : Bool)
      → e.now + period ≤ last
      → IsSound s
      → s.next_conn + 2 < 2 ^ 31
      → IsOpen e.conn s
      → Watches period last s
      → Watches period last (on_readable lo e (s, b)).0
  unfolding on_readable
  on_readable-Watches lo e s b le h room o w = elim (Bool-cases (has_flag e.revents epollin)) [
    | inl q ↦ rw q (call-Watches lo (s.conn e.conn).rhandler e s b le h room o w)
    | inr q ↦ rw q w
  ]

  pub process_event-Watches :
      (lo : ℕ → ℕ) (e : Event) (s : Server) (b : Bool)
      → e.now + period ≤ last
      → IsSound s
      → s.next_conn + 2 < 2 ^ 31
      → IsOpen e.conn s
      → Watches period last s
      → Watches period last (process_event lo e (s, b)).0
  unfolding process_event
  process_event-Watches lo e s b le h room o w =
      let r = on_readable-KeepsSound lo e s b h room o in
      on_writable-Watches lo e (on_readable lo e (s, b)).0 (on_readable lo e (s, b)).1 r.sound
        (omega (arith, r.next, o.exists)) (on_readable-Watches lo e s b le h room o w)
