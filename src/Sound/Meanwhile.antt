-- ===== src/Sound/Meanwhile.antt =====
-- A connection that waits, while clients connect, send and leave and the monitor makes its rounds.
use flydragon.Base.{
  ℕ, ◌+◌, ◌≤◌, ◌<◌, inl, inr, refl, ap, List, [], ◌∷◌, arith, length, Bool, true, false, ltb, ◌==◌,
  Bool-cases,
}
use flydragon.State.{Timer, Conn, Server, Handler, no_handler, wait_request, write_request}
use flydragon.State.Held.{sets-Keeps}
use flydragon.Pool.{get_connection}
use flydragon.Pool.Owned.{occurs}
use flydragon.Epoll.{ctl_add, epollin, epollout, epollerr, epollhup, epollrdhup, oper_event}
use flydragon.Accept.{
  AcceptResult, accepted, no_accept4, other_error, Answers, set_handlers, register_connection,
  accept_connection, accept_plain, accept_four, event_accept,
}
use flydragon.Recv.{
  ReadResult, got, failed, is_transient, recvproc, after_read, wait_request_handler,
}
use flydragon.Recv.Sending.{wait_request_handler-SendsSame}
use flydragon.Send.Receiving.{write_request_handler-ReceivesSame}
use flydragon.Logic.{proc_ping_time_out_checking}
use flydragon.Events.{Event, has_flag, call, on_readable, on_writable, process_event}
use flydragon.Heartbeat.{collect, check_all, monitor_round}
use flydragon.Heartbeat.Collect.{Lists, collect_due}
use flydragon.Heartbeat.Checks.{check_cases}
use flydragon.Sound.{IsSound}
use flydragon.Sound.Waiting.{
  StillWaits, StillWaits-trans, Keeps-StillWaits, zd_closesocket_proc-StillWaits,
  get_connection-StillWaits, close_connection-StillWaits, add_to_timer_queue-StillWaits,
}

-- Nothing changed.
same : (j : ℕ) (s : Server) → 0 < occurs j s.recyconnection_list → StillWaits j s s
same j s w = record { waits = w; since = refl; settings = refl }

module _ (j : ℕ) where
  register_connection-StillWaits :
      (ok : Bool) (now old new : ℕ) (s : Server)
      → 0 < occurs j s.recyconnection_list
      → StillWaits j s (register_connection ok now old new s)
  unfolding register_connection set_handlers oper_event
  register_connection-StillWaits ok now old new s w =
      let t = (oper_event ctl_add (epollin + epollrdhup) 0 new ok (set_handlers old new s)).0 in
      let set : StillWaits j s t = record { waits = w; since = ground arith; settings = refl } in
      elim (Bool-cases ok) [
        | inr e ↦ rw e (StillWaits-trans set (close_connection-StillWaits new j t w))
        | inl e ↦ rw e (elim (Bool-cases (s.kick_time_count == 1)) [
          | inl q ↦ rw q (StillWaits-trans set (add_to_timer_queue-StillWaits now new j t w))
          | inr q ↦ rw q set
        ])
      ]

  accept_connection-StillWaits :
      (use_accept4 : Bool) (answers : Answers) (fd now old : ℕ) (s : Server)
      → j < s.next_conn
      → 0 < occurs j s.recyconnection_list
      → StillWaits j s (accept_connection use_accept4 answers fd now old s)
  unfolding accept_connection
  accept_connection-StillWaits use_accept4 answers fd now old s b w =
      let t = (get_connection fd now s).0 in
      let new = (get_connection fd now s).1 in
      let given = get_connection-StillWaits fd now j s b w in
      let registered =
        StillWaits-trans given
          (register_connection-StillWaits answers.ctl now old new t given.waits) in
      elim (Bool-cases use_accept4) [
        | inl e ↦ rw e registered
        | inr e ↦ rw e (elim (Bool-cases answers.nonblocking) [
          | inl n ↦ rw n registered
          | inr n ↦ rw n (StillWaits-trans given (close_connection-StillWaits new j t given.waits))
        ])
      ]

  accept_plain-StillWaits :
      (answers : Answers) (r : AcceptResult) (now old : ℕ) (s : Server)
      → j < s.next_conn
      → 0 < occurs j s.recyconnection_list
      → StillWaits j s (accept_plain answers r now old s)
  unfolding accept_plain
  accept_plain-StillWaits answers (accepted fd) now old s b w =
      accept_connection-StillWaits false answers fd now old s b w
  accept_plain-StillWaits answers no_accept4 now old s b w = same j s w
  accept_plain-StillWaits answers other_error now old s b w = same j s w

  accept_four-StillWaits :
      (answers : Answers) (r : AcceptResult) (now old : ℕ) (s : Server)
      → j < s.next_conn
      → 0 < occurs j s.recyconnection_list
      → StillWaits j s (accept_four answers r now old s).0
  unfolding accept_four
  accept_four-StillWaits answers (accepted fd) now old s b w =
      accept_connection-StillWaits true answers fd now old s b w
  accept_four-StillWaits answers no_accept4 now old s b w =
      accept_plain-StillWaits answers answers.accept now old s b w
  accept_four-StillWaits answers other_error now old s b w = same j s w

  event_accept-StillWaits :
      (use_accept4 : Bool) (answers : Answers) (now old : ℕ) (s : Server)
      → j < s.next_conn
      → 0 < occurs j s.recyconnection_list
      → StillWaits j s (event_accept use_accept4 answers now old s).0
  unfolding event_accept
  event_accept-StillWaits true answers now old s b w =
      accept_four-StillWaits answers answers.accept4 now old s b w
  event_accept-StillWaits false answers now old s b w =
      accept_plain-StillWaits answers answers.accept now old s b w

  wait_request_handler-StillWaits :
      (lo : ℕ → ℕ) (r : ReadResult) (now i : ℕ) (s : Server)
      → 0 < occurs j s.recyconnection_list
      → StillWaits j s (wait_request_handler lo r now i s)
  unfolding wait_request_handler recvproc after_read
  wait_request_handler-StillWaits lo (got []) now i s w = zd_closesocket_proc-StillWaits now i j s w
  wait_request_handler-StillWaits lo (got (x ∷ xs)) now i s w =
      Keeps-StillWaits j s _ w (wait_request_handler-SendsSame lo i j x xs now s).keeps
  wait_request_handler-StillWaits lo (failed e) now i s w = elim (Bool-cases (is_transient e)) [
    | inl t ↦ rw t (same j s w)
    | inr t ↦ rw t (zd_closesocket_proc-StillWaits now i j s w)
  ]

  call-StillWaits :
      (lo : ℕ → ℕ) (f : Handler) (e : Event) (s : Server) (b : Bool)
      → j < s.next_conn
      → 0 < occurs j s.recyconnection_list
      → StillWaits j s (call lo f e (s, b)).0
  unfolding call
  call-StillWaits lo no_handler e s b le w = same j s w
  call-StillWaits lo Handler.event_accept e s b le w =
      event_accept-StillWaits b e.answers e.now e.conn s le w
  call-StillWaits lo wait_request e s b le w =
      wait_request_handler-StillWaits lo e.read e.now e.conn s w
  call-StillWaits lo write_request e s b le w =
      Keeps-StillWaits j s _ w (write_request_handler-ReceivesSame j e.write e.ctl e.conn s).keeps

  on_writable-StillWaits :
      (lo : ℕ → ℕ) (e : Event) (s : Server) (b : Bool)
      → j < s.next_conn
      → 0 < occurs j s.recyconnection_list
      → StillWaits j s (on_writable lo e (s, b)).0
  unfolding on_writable
  on_writable-StillWaits lo e s b le w = elim (Bool-cases (has_flag e.revents epollout)) [
    | inr q ↦ rw q (same j s w)
    | inl q ↦ rw q (elim (Bool-cases (has_flag e.revents (epollerr + epollhup + epollrdhup))) [
      | inl r ↦ rw r (Keeps-StillWaits j s _ w (sets-Keeps e.conn j _ refl refl refl))
      | inr r ↦ rw r (call-StillWaits lo (s.conn e.conn).whandler e s b le w)
    ])
  ]

  pub on_readable-StillWaits :
      (lo : ℕ → ℕ) (e : Event) (s : Server) (b : Bool)
      → j < s.next_conn
      → 0 < occurs j s.recyconnection_list
      → StillWaits j s (on_readable lo e (s, b)).0
  unfolding on_readable
  on_readable-StillWaits lo e s b le w = elim (Bool-cases (has_flag e.revents epollin)) [
    | inl q ↦ rw q (call-StillWaits lo (s.conn e.conn).rhandler e s b le w)
    | inr q ↦ rw q (same j s w)
  ]

  -- An event, which never makes the number of connections less, leaves it waiting.
  pub process_event-StillWaits :
      (lo : ℕ → ℕ) (e : Event) (s : Server) (b : Bool)
      → j < s.next_conn
      → s.next_conn ≤ (on_readable lo e (s, b)).0.next_conn
      → 0 < occurs j s.recyconnection_list
      → StillWaits j s (process_event lo e (s, b)).0
  unfolding process_event
  process_event-StillWaits lo e s b le more w =
      let r = on_readable-StillWaits lo e s b le w in
      StillWaits-trans r (
        on_writable-StillWaits lo e (on_readable lo e (s, b)).0 (on_readable lo e (s, b)).1
          (omega (arith, le, more)) r.waits)

  check-StillWaits :
      (now : ℕ) (p : Timer) (s : Server)
      → 0 < occurs j s.recyconnection_list
      → StillWaits j s (proc_ping_time_out_checking now p s)
  check-StillWaits now p s w = elim (check_cases now p s) [
    | inl (_, _, e) ↦
        let r = zd_closesocket_proc-StillWaits now p.conn j s w in
        rw e (record { waits = r.waits; since = r.since; settings = r.settings })
    | inr (_, e) ↦ rw e (record { waits = w; since = refl; settings = refl })
  ]

  check_all-StillWaits :
      (now : ℕ) (ps : List Timer) (s : Server)
      → 0 < occurs j s.recyconnection_list
      → StillWaits j s (check_all now ps s)
  unfolding check_all
  check_all-StillWaits now [] s w = same j s w
  check_all-StillWaits now (p ∷ ps) s w =
      let a = check-StillWaits now p s w in
      StillWaits-trans a (check_all-StillWaits now ps _ a.waits)

  -- A round of the monitor leaves it waiting.
  pub monitor_round-StillWaits :
      (now : ℕ) (s : Server)
      → IsSound s
      → 0 < occurs j s.recyconnection_list
      → StillWaits j s (monitor_round now s)
  unfolding monitor_round
  monitor_round-StillWaits now s h w =
      let r = collect (length s.timer_queue + 1) now s in
      let c = collect_due now s h.timed h.waits in
      let found : StillWaits j s r.1 = record {
        waits = omega (arith, w, ap (λ (l : Lists). occurs j l.2) c.lists);
        since = ap (λ (f : ℕ → Conn). (f j).in_recy_time) c.conns;
        settings = ap (λ (l : Lists). (l.6, l.7)) c.lists;
      } in
      elim (Bool-cases (ltb 0 s.cur_size)) [
        | inr e ↦ rw e (same j s w)
        | inl e ↦ rw e (elim (Bool-cases (ltb s.timer_value now)) [
          | inr q ↦ rw q (same j s w)
          | inl q ↦ rw q (StillWaits-trans found (check_all-StillWaits now r.0 r.1 found.waits))
        ])
      ]
