-- ===== src/Process/Worker.antt =====
-- The workers of proc/flyd_process.cc: what a worker does before its loop, and its loop.
use flydragon.Base.{ℕ, List, [], ◌∷◌, none, some, Bool, if◌then◌else◌}
use flydragon.State.{Server}
use flydragon.Config.{ConfigMap}
use flydragon.Signal.{Signals}
use flydragon.Startup.{epoll_init}
use flydragon.Startup.Threads.{Subproc, Thread, initialize_subproc}
use flydragon.Events.{WaitResult, process_events_and_timers}
use flydragon.Process.{Process, Outcome, aborted, exited, goes_on}

-- A process with its objects: g_socket, the threads of g_threadpool, the configuration and the
-- signals.
pub record Program : Type 0 where
  pub process : Process
  pub socket : Subproc
  pub pool_threads : ℕ
  pub conf : ConfigMap
  pub signals : Signals

-- What the kernel answers in a worker before its loop, and the time.
pub record WorkerCalls : Type 0 where
  pub sigprocmask : Bool
  pub sem_init : Bool
  pub pthread_create : Thread → Bool
  pub epoll_create : Bool
  pub epoll_ctl : ℕ → Bool
  pub now : ℕ

-- `sigprocmask(SIG_SETMASK, ...)` with an empty set
abbrev pub unblock : Bool → Process → Process
unblock ok p = if ok then record p { blocked = [] } else p

-- `flyd_epoll_init`: without an epoll object LOG_FATAL aborts before `exit(2)`, and a listening socket
-- that is not added ends it by `exit(2)`.
unfoldable pub start_epoll : WorkerCalls → Program → Outcome Program
unfolding epoll_init
start_epoll c p = elim (epoll_init c.epoll_create c.epoll_ctl c.now p.socket.setup) [
  | none ↦ if c.epoll_create then exited 2 else aborted
  | some t ↦ goes_on (record p { socket = record p.socket { setup = t } })
]

-- `flyd_worker_process_init`
unfoldable pub worker_process_init : WorkerCalls → Program → Outcome Program
unfolding initialize_subproc start_epoll
worker_process_init c p =
    let (s, ok) = initialize_subproc c.sem_init c.pthread_create p.socket in
    if ok
    then start_epoll c
        (record p { process = unblock c.sigprocmask p.process; socket = s; pool_threads = 5 })
    else aborted

-- `flyd_worker_process_cycle` up to its loop.
unfoldable pub worker_process_cycle : List ℕ → WorkerCalls → Program → Outcome Program
unfolding worker_process_init
worker_process_cycle name c p =
    worker_process_init c (record p { process = record p.process { name = name } })

-- Some rounds of the endless loop of `flyd_worker_process_cycle`, with what `epoll_wait` gives in
-- each.
unfoldable pub worker_loop : (ℕ → ℕ) → List WaitResult → Server × Bool → Server × Bool
unfolding process_events_and_timers
worker_loop left_over [] st = st
worker_loop left_over (w ∷ ws) st =
    worker_loop left_over ws (process_events_and_timers left_over w st)
