-- ===== src/Sound/Run.antt =====
-- Whatever happens in a worker, the pool, the timer queue and the descriptors stay in order.
use flydragon.Base.{ℕ, ◌+◌, ◌^◌, ◌<◌, ◌≡◌, ◌≢◌, some, arith, length, Bool}
use flydragon.State.{Server}
use flydragon.Pool.{get_connection, recy_round}
use flydragon.Pool.Owned.{get_connection_others}
use flydragon.Send.{Kernel, send_round}
use flydragon.Logic.{thread_recv_proc_func}
use flydragon.Heartbeat.{monitor_round}
use flydragon.Events.{Event, process_event}
use flydragon.Startup.{Setup, epoll_init, rounds_of}
use flydragon.Sound.{IsSound, KeepsSound}
use flydragon.Sound.Recycling.{recy_round-KeepsSound}
use flydragon.Sound.Monitoring.{monitor_round-KeepsSound}
use flydragon.Sound.Serving.{
  IsOpen, IsOpen-owners, process_event-KeepsSound, task-KeepsSound, send_round-KeepsSound,
}
use flydragon.Sound.Blank.{IsBlank}
use flydragon.Sound.Start.{epoll_init-IsSound}

-- What the threads of a worker do: an event of a connection that has a descriptor, a task, and a round
-- of the sending thread, of the recycling thread and of the monitor.
pub data Step : Server → Server → Type 0 where
  event :
      (lo : ℕ → ℕ) (e : Event) (use_accept4 : Bool) (s : Server)
      → IsOpen e.conn s
      → Step s (process_event lo e (s, use_accept4)).0
  task : (lo : ℕ → ℕ) (now : ℕ) (s t : Server) → thread_recv_proc_func lo now s ≡ some t → Step s t
  sends : (taken : Bool) (kernel : Kernel) (s : Server) → Step s (send_round taken kernel s).0
  recycles : (now : ℕ) (s : Server) → Step s (recy_round now s).0
  monitors : (now : ℕ) (s : Server) → Step s (monitor_round now s)

-- Some steps, while all connections can be counted.
pub data Run (s : Server) : Server → Type 0 where
  here : Run s s
  next : {t u : Server} → Run s t → t.next_conn + 2 < 2 ^ 31 → Step t u → Run s u

-- How many steps they are.
abbrev pub steps : {s t : Server} → Run s t → ℕ
steps here = 0
steps (next r room st) = steps r + 1

pub Step-KeepsSound :
    {s t : Server} → Step s t → s.next_conn + 2 < 2 ^ 31 → IsSound s → KeepsSound s t
Step-KeepsSound (event lo e b s o) room h = process_event-KeepsSound lo e s b h room o
Step-KeepsSound (task lo now s t e) room h = task-KeepsSound lo now s t h e
Step-KeepsSound (sends taken kernel s) room h = send_round-KeepsSound taken kernel s h
Step-KeepsSound (recycles now s) room h = recy_round-KeepsSound now s h (omega (arith, room))
Step-KeepsSound (monitors now s) room h = monitor_round-KeepsSound now s h (omega (arith, room))

pub Run-IsSound : {s t : Server} → Run s t → IsSound s → IsSound t
Run-IsSound here h = h
Run-IsSound (next r room st) h = (Step-KeepsSound st room (Run-IsSound r h)).sound

-- If `flyd_epoll_init` succeeds on an object that has no connection and no check yet, and events come
-- only for connections that have a descriptor, then in every order of events, tasks, and rounds of the
-- three threads, while there are fewer connections than the counters tell, the state is sound: a
-- connection is free, waits to be recycled or has a check of its heartbeat, and only one of these;
-- those that are free or wait have no descriptor; the counters of the pool are the lengths of its
-- lists, and the timer queue is in order, counted and noted.
pub worker-IsSound :
    (created : Bool) (ctl : ℕ → Bool) (now : ℕ) (s t : Setup) (u : Server)
    → IsBlank s.server
    → rounds_of s.worker_connections + length s.listen_socket_list + 2 < 2 ^ 31
    → epoll_init created ctl now s ≡ some t
    → Run t.server u
    → IsSound u
worker-IsSound created ctl now s t u h room e r =
    Run-IsSound r (epoll_init-IsSound created ctl now s t h room e)

-- If a state comes about from a sound one by events of connections that have a descriptor, tasks, and
-- rounds of the three threads, in any order and while there are fewer connections than the counters
-- tell, then a connection that has a descriptor is never the one that `flyd_get_connection` gives to the
-- next client, and stays as it is.
pub Run-apart :
    {s t : Server} (j fd now : ℕ)
    → IsSound s
    → Run s t
    → IsOpen j t
    → ((get_connection fd now t).1 ≢ j) × ((get_connection fd now t).0.conn j ≡ t.conn j)
Run-apart {s} {t} j fd now h r o =
    let sound = Run-IsSound r h in
    let (same, _, _, apart) =
      get_connection_others fd now t j (IsOpen-owners j t sound o) o.exists in
    (apart, same)
