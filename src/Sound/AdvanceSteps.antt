-- ===== src/Sound/AdvanceSteps.antt =====
-- The sequence number of a connection goes on by four at most in each step of a worker.
use flydragon.Base.{
  ℕ, ◌+◌, ◌^◌, ◌≤◌, ◌<◌, ◌≡◌, inl, inr, refl, ap, sym, subst, [], ◌∷◌, none, arith, length, Bool,
  ltb, if◌then◌else◌, Bool-cases,
}
use flydragon.State.{Conn, Server, Handler, no_handler, wait_request, write_request}
use flydragon.State.Held.{sets-Keeps}
use flydragon.Epoll.{epollin, epollout, epollerr, epollhup, epollrdhup}
use flydragon.Recv.{
  ReadResult, got, failed, is_transient, recvproc, after_read, wait_request_handler,
}
use flydragon.Recv.Sending.{wait_request_handler-SendsSame}
use flydragon.Send.Receiving.{send_round-ReceivesSame, write_request_handler-ReceivesSame}
use flydragon.Close.{zd_closesocket_proc}
use flydragon.Events.{Event, has_flag, call, on_readable, on_writable, process_event}
use flydragon.Heartbeat.{collect, check_all, monitor_round}
use flydragon.Heartbeat.Collect.{collect_due}
use flydragon.Sound.{IsSound}
use flydragon.Sound.Monitoring.{monitor_round-KeepsSound}
use flydragon.Sound.Serving.{on_readable-KeepsSound, process_event-KeepsSound, task-Keeps}
use flydragon.Sound.Numbers.{
  same-Goes, Keeps-Goes, zd_closesocket_proc-ComesToWait, check_all-ComesToWait, recy_round-Leaves,
}
use flydragon.Sound.Run.{Step, event, task, sends, recycles, monitors}
use flydragon.Sound.Advance.{
  Advances, Advances-refl, Advances-trans, weaker, stays, event_accept-Advances,
}

module _ (j : ℕ) where
  -- In a sound state a connection waits once at most.
  zd_closesocket_proc-Advances :
      (now i : ℕ) (s : Server)
      → IsSound (zd_closesocket_proc now i s)
      → Advances j 1 s (zd_closesocket_proc now i s)
  zd_closesocket_proc-Advances now i s h =
      let r = zd_closesocket_proc-ComesToWait now i j s in
      record { count = r.count; goes = r.goes; few = omega (arith, r.more, h.pooled.once j) }

  wait_request_handler-Advances :
      (lo : ℕ → ℕ) (r : ReadResult) (now i : ℕ) (s : Server)
      → IsSound (wait_request_handler lo r now i s)
      → Advances j 1 s (wait_request_handler lo r now i s)
  unfolding wait_request_handler recvproc after_read
  wait_request_handler-Advances lo (got []) now i s h = zd_closesocket_proc-Advances now i s h
  wait_request_handler-Advances lo (got (x ∷ xs)) now i s h =
      stays 1 (Keeps-Goes j s _ (wait_request_handler-SendsSame lo i j x xs now s).keeps)
  wait_request_handler-Advances lo (failed e) now i s h = elim (Bool-cases (is_transient e)) [
    | inl t ↦ rw t (Advances-refl j 1 s)
    | inr t ↦ rw t (
        zd_closesocket_proc-Advances now i s (
          subst
            (λ (b : Bool).
              IsSound
                (after_read lo i (if b then (s, none) else (zd_closesocket_proc now i s, none))))
            t h))
  ]

  call-Advances :
      (lo : ℕ → ℕ) (f : Handler) (e : Event) (s : Server) (b : Bool)
      → j < s.next_conn
      → IsSound (call lo f e (s, b)).0
      → Advances j 2 s (call lo f e (s, b)).0
  unfolding call
  call-Advances lo no_handler e s b le h = Advances-refl j 2 s
  call-Advances lo Handler.event_accept e s b le h =
      event_accept-Advances j b e.answers e.now e.conn s le
  call-Advances lo wait_request e s b le h =
      weaker (omega arith) (wait_request_handler-Advances lo e.read e.now e.conn s h)
  call-Advances lo write_request e s b le h =
      stays 2 (Keeps-Goes j s _ (write_request_handler-ReceivesSame j e.write e.ctl e.conn s).keeps)

  on_readable-Advances :
      (lo : ℕ → ℕ) (e : Event) (s : Server) (b : Bool)
      → j < s.next_conn
      → IsSound (on_readable lo e (s, b)).0
      → Advances j 2 s (on_readable lo e (s, b)).0
  unfolding on_readable
  on_readable-Advances lo e s b le h = elim (Bool-cases (has_flag e.revents epollin)) [
    | inr q ↦ rw q (Advances-refl j 2 s)
    | inl q ↦ rw q (
        call-Advances lo (s.conn e.conn).rhandler e s b le (
          subst
            (λ (c : Bool).
              IsSound (if c then call lo (s.conn e.conn).rhandler e (s, b) else (s, b)).0)
            q h))
  ]

  on_writable-Advances :
      (lo : ℕ → ℕ) (e : Event) (s : Server) (b : Bool)
      → j < s.next_conn
      → IsSound (on_writable lo e (s, b)).0
      → Advances j 2 s (on_writable lo e (s, b)).0
  unfolding on_writable
  on_writable-Advances lo e s b le h = elim (Bool-cases (has_flag e.revents epollout)) [
    | inr q ↦ rw q (Advances-refl j 2 s)
    | inl q ↦ elim (Bool-cases (has_flag e.revents (epollerr + epollhup + epollrdhup))) [
      | inl r ↦ rw (q, r) (stays 2 (Keeps-Goes j s _ (sets-Keeps e.conn j _ refl refl refl)))
      | inr r ↦
          let call_result : (on_writable lo e (s, b)).0
              ≡ (call lo (s.conn e.conn).whandler e (s, b)).0 =
            rw (q, r) refl in
          subst (Advances j 2 s) (sym call_result)
            (call-Advances lo (s.conn e.conn).whandler e s b le (subst IsSound call_result h))
    ]
  ]

  process_event-Advances :
      (lo : ℕ → ℕ) (e : Event) (s : Server) (b : Bool)
      → j < s.next_conn
      → s.next_conn ≤ (on_readable lo e (s, b)).0.next_conn
      → IsSound (on_readable lo e (s, b)).0
      → IsSound (process_event lo e (s, b)).0
      → Advances j 4 s (process_event lo e (s, b)).0
  unfolding process_event
  process_event-Advances lo e s b le more first second =
      Advances-trans (on_readable-Advances lo e s b le first) (
        on_writable-Advances lo e (on_readable lo e (s, b)).0 (on_readable lo e (s, b)).1
          (omega (arith, le, more)) second)

  monitor_round-Advances :
      (now : ℕ) (s : Server)
      → IsSound s
      → IsSound (monitor_round now s)
      → Advances j 4 s (monitor_round now s)
  unfolding monitor_round
  monitor_round-Advances now s h after =
      let r = collect (length s.timer_queue + 1) now s in
      let c = collect_due now s h.timed h.waits in
      let found = same-Goes j s r.1 (ap (λ (f : ℕ → Conn). (f j).sequence) c.conns) in
      let k = check_all-ComesToWait now j r.0 r.1 in
      elim (Bool-cases (ltb 0 s.cur_size)) [
        | inr e ↦ rw e (Advances-refl j 4 s)
        | inl e ↦ elim (Bool-cases (ltb s.timer_value now)) [
          | inr q ↦ rw (e, q) (Advances-refl j 4 s)
          | inl q ↦
              let result : monitor_round now s ≡ check_all now r.0 r.1 = rw (e, q) refl in
              let sound : IsSound (check_all now r.0 r.1) = subst IsSound result after in
              subst (Advances j 4 s) (sym result) (
                Advances-trans {a = 0} {b = 4} (stays 0 found) (record {
                  count = k.count;
                  goes = k.goes;
                  few = omega (arith, k.more, sound.pooled.once j);
                }))
        ]
      ]

-- A step of a worker from a sound state.
pub Step-Advances :
    {s t : Server} (j : ℕ)
    → Step s t
    → IsSound s
    → s.next_conn + 2 < 2 ^ 31
    → j < s.next_conn
    → Advances j 4 s t
Step-Advances j (event lo e b s o) h room le =
    let r = on_readable-KeepsSound lo e s b h room o in
    process_event-Advances j lo e s b le r.next r.sound
      (process_event-KeepsSound lo e s b h room o).sound
Step-Advances j (task lo now s t e) h room le =
    stays 4 (Keeps-Goes j s t (task-Keeps lo now s t e j))
Step-Advances j (sends taken kernel s) h room le =
    stays 4 (Keeps-Goes j s _ (send_round-ReceivesSame j taken kernel s).keeps)
Step-Advances j (recycles now s) h room le =
    let r = recy_round-Leaves now j s in
    record { count = r.count; goes = r.goes; few = omega (arith, r.fewer, h.pooled.once j) }
Step-Advances j (monitors now s) h room le =
    monitor_round-Advances j now s h (monitor_round-KeepsSound now s h (omega (arith, room))).sound
