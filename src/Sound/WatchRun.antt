-- ===== src/Sound/WatchRun.antt =====
-- The monitor gives up the clients that are silent, whatever else happens in a worker.
use flydragon.Base.{
  ℕ, ◌+◌, ◌^◌, ◌<◌, ◌≤◌, ◌≡◌, ◌⊎◌, refl, sym, ap, ◌∙◌, subst, length, [], some, true, false, arith,
  Bool,
}
use flydragon.State.{Server, write_request}
use flydragon.Send.Receiving.{send_round-ReceivesSame}
use flydragon.Startup.{Setup, epoll_init, rounds_of}
use flydragon.Timer.Current.{current-Found}
use flydragon.Heartbeat.{monitor_round}
use flydragon.Heartbeat.Checks.{is_silent, IsShut}
use flydragon.Heartbeat.Kicks.{monitor_round-kicks}
use flydragon.Sound.{IsSound}
use flydragon.Sound.Serving.{IsOpen, task-Keeps}
use flydragon.Sound.Blank.{IsBlank, NoClients}
use flydragon.Sound.Start.{epoll_init-IsSound, epoll_init-NoClients}
use flydragon.Sound.Run.{Step, event, task, sends, recycles, monitors, Run, here, next, Run-IsSound}
use flydragon.Sound.Watched.{HasCheck, Watches, Keeps-Watches}
use flydragon.Sound.WatchRounds.{recy_round-Watches, monitor_round-Watches}
use flydragon.Sound.WatchEvents.{process_event-Watches}

-- The clock of a step that queues checks is not after `time`.
abbrev IsStepBy : {s t : Server} → ℕ → Step s t → Type 0
IsStepBy time (event lo e b s o) = e.now ≤ time
IsStepBy time (task lo now s t e) = Unit {0}
IsStepBy time (sends taken kernel s) = Unit {0}
IsStepBy time (recycles now s) = Unit {0}
IsStepBy time (monitors now s) = now ≤ time

-- And so it is with all steps.
abbrev IsRunBy : {s t : Server} → ℕ → Run s t → Type 0
IsRunBy time here = Unit {0}
IsRunBy time (next r room st) = IsRunBy time r × IsStepBy time st

module _ (time period : ℕ) where
  Step-Watches :
      {s t : Server} (st : Step s t)
      → IsStepBy time st
      → s.next_conn + 2 < 2 ^ 31
      → IsSound s
      → Watches period (time + period) s
      → Watches period (time + period) t
  Step-Watches (event lo e b s o) by room h w =
      process_event-Watches lo e s b (omega (arith, by)) h room o w
  Step-Watches (task lo now s t e) by room h w = Keeps-Watches s t (task-Keeps lo now s t e) w
  Step-Watches (sends taken kernel s) by room h w =
      Keeps-Watches s _ (λ j. (send_round-ReceivesSame j taken kernel s).keeps) w
  Step-Watches (recycles now s) by room h w = recy_round-Watches now s h (omega (arith, room)) w
  Step-Watches (monitors now s) by room h w =
      monitor_round-Watches now s (omega (arith, by)) h (omega (arith, room)) w

  Run-Watches :
      {s t : Server} (r : Run s t)
      → IsRunBy time r
      → IsSound s
      → Watches period (time + period) s
      → Watches period (time + period) t
  Run-Watches here by h w = w
  Run-Watches (next r room st) by h w =
      Step-Watches st by.1 room (Run-IsSound r h) (Run-Watches r by.0 h w)

-- Before the first client.
NoClients-Watches :
    (time : ℕ) (s t : Server)
    → s.kick_time_count ≡ 1
    → s.timer_queue ≡ []
    → NoClients s t
    → Watches s.wait_time (time + s.wait_time) t
unfolding HasCheck
NoClients-Watches time s t on empty h = record {
  beats = (h.heartbeat ∙ on, h.wait, rw (h.queue ∙ empty) refl);
  all = λ j c. absurd (cc (h.idle j c.exists, c.writes));
}

-- What a round of the monitor does with an open client after its waiting time.
Watches-kicks :
    {period last : ℕ} (later j : ℕ) (s : Server)
    → IsSound s
    → Watches period last s
    → IsOpen j s
    → (s.conn j).whandler ≡ write_request
    → last < later
    → ((is_silent later j s ≡ true) × IsShut (s.conn j).fd j (monitor_round later s))
      ⊎ ((is_silent later j s ≡ false) × ((monitor_round later s).conn j ≡ s.conn j))
unfolding HasCheck
Watches-kicks {last = last} later j s h w o writes over =
    let some_check =
      w.all j (record { exists = o.exists; writes = writes; fd = o.fd; socket = o.socket }) in
    let f = current-Found j (s.conn j).sequence last s.timer_queue some_check w.beats.2 in
    subst
      (λ (i : ℕ).
        ((is_silent later i s ≡ true) × IsShut (s.conn i).fd i (monitor_round later s))
        ⊎ ((is_silent later i s ≡ false) × ((monitor_round later s).conn i ≡ s.conn i)))
      f.conn
      (monitor_round-kicks later s f.before f.entry f.after h.timed h.waits f.cut
        (omega (arith, f.in_time, over))
        (f.number ∙ ap (λ (i : ℕ). (s.conn i).sequence) (sym f.conn)))

-- If `flyd_epoll_init` succeeds on an object that has no connection and no check yet, whose heartbeat is
-- on (`m_ifkickTimeCount` is 1), and events come only for connections that have a descriptor, then after
-- any events, tasks, and rounds of the three threads, in every order, while there are fewer connections
-- than the counters tell and no event and no round of the monitor is after `time`, a round of the
-- monitor that comes later than the waiting time after `time` gives up each open client that sent no
-- heartbeat for longer than three waiting times and ten seconds, with `close` called for its descriptor, and leaves the connection of every
-- other open client as it is.
pub Run-kicks :
    (created : Bool) (ctl : ℕ → Bool) (now time later j : ℕ) (s t : Setup) (u : Server)
    → IsBlank s.server
    → s.server.kick_time_count ≡ 1
    → rounds_of s.worker_connections + length s.listen_socket_list + 2 < 2 ^ 31
    → epoll_init created ctl now s ≡ some t
    → (r : Run t.server u) → IsRunBy time r
    → IsOpen j u
    → (u.conn j).whandler ≡ write_request
    → time + s.server.wait_time < later
    → ((is_silent later j u ≡ true) × IsShut (u.conn j).fd j (monitor_round later u))
      ⊎ ((is_silent later j u ≡ false) × ((monitor_round later u).conn j ≡ u.conn j))
Run-kicks created ctl now time later j s t u h on room e r by o writes over =
    let sound = epoll_init-IsSound created ctl now s t h room e in
    let idle = epoll_init-NoClients created ctl now s t h room e in
    let w =
      Run-Watches time s.server.wait_time r by sound
        (NoClients-Watches time s.server t.server on h.no_checks idle) in
    Watches-kicks later j u (Run-IsSound r sound) w o writes over
