-- ===== src/Startup/Threads.antt =====
-- The threads of a worker in net/flyd_socket.cc: `Initialize_subproc`, which creates them, and the
-- part of `Shutdown_subproc` that waits for them.
use flydragon.Base.{List, [], ◌∷◌, ◌++◌, Bool, true, false, ◌==◌, if◌then◌else◌}
use flydragon.Startup.{Setup, shutdown_subproc}

-- The functions that a ThreadItem runs.
pub data Thread : Type 0 where
  send_queue recy_connection timer_queue_monitor : Thread

-- A worker with `m_threadVector` and the threads that run.
pub record Subproc : Type 0 where
  pub setup : Setup
  pub thread_vector : List Thread
  pub running : List Thread

-- `push_back` and `pthread_create`
unfoldable pub create_thread : Bool → Thread → Subproc → Subproc × Bool
create_thread ok t s =
    let u = record s { thread_vector = s.thread_vector ++ t ∷ [] } in
    if ok then (record u { running = s.running ++ t ∷ [] }, true) else (u, false)

-- `sem_init`
unfoldable pub sem_init : Bool → Subproc → Subproc × Bool
sem_init ok s =
    if ok
    then (
      record s {
        setup = record s.setup { server = record s.setup.server { sem_event_send_queue = 0 } };
      },
      true,
    )
    else (s, false)

-- A call, and the next one if it succeeded.
infixl 5 ◌and_then◌
abbrev pub ◌and_then◌ : Subproc × Bool → (Subproc → Subproc × Bool) → Subproc × Bool
(s, true) and_then f = f s
(s, false) and_then f = (s, false)

-- `Initialize_subproc`, with whether `sem_init` and each `pthread_create` succeed.
unfoldable pub initialize_subproc : Bool → (Thread → Bool) → Subproc → Subproc × Bool
unfolding create_thread sem_init
initialize_subproc sem created s =
    sem_init sem s
    and_then create_thread (created send_queue) send_queue
    and_then create_thread (created recy_connection) recy_connection
    and_then λ t.
        if t.setup.server.kick_time_count == 1
        then create_thread (created timer_queue_monitor) timer_queue_monitor t
        else (t, true)

-- `Shutdown_subproc`: each thread of the vector is waited for, so that none runs behind it.
unfoldable pub shutdown_threads : Subproc → Subproc
unfolding shutdown_subproc
shutdown_threads s = record {
  setup = record s.setup { server = shutdown_subproc s.setup.server };
  thread_vector = [];
  running = [];
}
