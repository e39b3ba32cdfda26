-- ===== src/Tests/Processes.antt =====
-- The start of the program at concrete inputs.
use flydragon.Base.{
  ℕ, ◌+◌, ◌<◌, ◌≡◌, ◌==◌, refl, arith, [], ◌∷◌, List, none, some, Bool, true, false, if◌then◌else◌,
}
use flydragon.State.{new_socket}
use flydragon.Pool.Start.{new_socket-IsNew}
use flydragon.Config.{load, get_string}
use flydragon.Startup.{read_conf}
use flydragon.Startup.Threads.{Thread, Subproc, recy_connection, initialize_subproc}
use flydragon.Startup.Created.{needed, created_until, initialize_subproc-created_until}
use flydragon.Process.{
  Process, undefined_process, other_file, DaemonCalls, DaemonResult, goes_on, aborted, Fork,
  fork_failed, in_child, in_parent, in_origin, daemon,
}
use flydragon.Process.Daemon.{ChildEnds, daemon-results}
use flydragon.Process.Worker.{Program, WorkerCalls}
use flydragon.Process.Master.{master_loop, worker_loop_of, master_process_cycle}
use flydragon.Process.Forks.{IsParent, master_process_cycle-master}
use flydragon.Main.{MainCalls, main}
use flydragon.Main.Serving.{IsUsable, LeadsTo, IsServing, main-IsServing}
use flydragon.Tests.{one_use}

-- The process that the shell starts.
abbrev origin : Process
origin = record {
  pid = 100;
  ppid = 1;
  name = [];
  file_mask = 18;
  leads_session = false;
  files = λ i. some (other_file i);
  blocked = [];
  flyd_pid = 0;
  flyd_parent = 0;
  flyd_process = undefined_process;
}

-- The child 101 of its `fork`.
abbrev daemon_calls : DaemonCalls
daemon_calls = record {
  fork = in_child 101;
  setsid = true;
  close = true;
  open_null = some 7;
  dup2_stdin = true;
  dup2_stdout = true;
}

abbrev idle : Subproc
idle = record {
  setup = record {
    server = new_socket (λ _. one_use);
    worker_connections = (false, 1);
    listen_port_count = (false, 1);
    listen_socket_list = [];
  };
  thread_vector = [];
  running = [];
}

abbrev program : Program
program = record {
  process = origin;
  socket = idle;
  pool_threads = 0;
  conf = [];
  signals = record { signals = []; actions = λ _. none; log = [] };
}

abbrev well : WorkerCalls
well = record {
  sigprocmask = true;
  sem_init = true;
  pthread_create = λ _. true;
  epoll_create = true;
  epoll_ctl = λ _. true;
  now = 1000;
}

daemon-results_example :
    (daemon_calls.fork ≡ in_parent 101
      → daemon daemon_calls origin ≡ goes_on (record origin { file_mask = 0 }, in_origin))
    × (daemon_calls.fork ≡ in_child 101
        → (e : Process × DaemonResult) × (daemon daemon_calls origin ≡ goes_on e)
          × ChildEnds daemon_calls 101 origin e)
daemon-results_example = daemon-results daemon_calls 101 origin

-- The second thread cannot be created.
abbrev one_thread : Thread → Bool
one_thread recy_connection = false
one_thread t = true

initialize_subproc-created_until_example :
    let (t, ok) = initialize_subproc true one_thread idle in
    ((t.running, ok) ≡ created_until one_thread (needed idle.setup.server.kick_time_count))
    × (t.setup.server.sem_event_send_queue ≡ 0)
initialize_subproc-created_until_example = initialize_subproc-created_until one_thread idle refl

-- The third `fork` fails.
abbrev two_forks : ℕ → Fork
two_forks i = if i == 2 then fork_failed else in_parent (102 + i)

master_process_cycle-master_example :
    (IsParent two_forks 0 4
      → master_process_cycle true true two_forks (λ _. well) program
        ≡ goes_on (record program { process = record origin { blocked = [] } }, master_loop))
    × ((k : ℕ)
        → k < 4
        → IsParent two_forks 0 k
        → two_forks k ≡ fork_failed
        → master_process_cycle true true two_forks (λ _. well) program ≡ aborted)
master_process_cycle-master_example = master_process_cycle-master true two_forks (λ _. well) program

-- DBInfo=x, ListenPortCount=2
abbrev conf_bytes : List ℕ
conf_bytes =
    b'D' ∷ b'B' ∷ b'I' ∷ b'n' ∷ b'f' ∷ b'o' ∷ b'=' ∷ b'x' ∷ 10 ∷ b'L' ∷ b'i' ∷ b's' ∷ b't' ∷ b'e'
    ∷ b'n' ∷ b'P' ∷ b'o' ∷ b'r' ∷ b't' ∷ b'C' ∷ b'o' ∷ b'u' ∷ b'n' ∷ b't' ∷ b'=' ∷ b'2' ∷ 10 ∷ []

-- The process is the parent of worker 0, and becomes worker 1.
abbrev second_worker : MainCalls
second_worker = record {
  sigaction = λ _. true;
  file = some conf_bytes;
  sockets = λ j. record {
    socket = some (5 + j);
    setsockopt = true;
    nonblocking = true;
    bind = λ port. true;
    listen = true;
  };
  daemon = daemon_calls;
  blocks = true;
  unblocks = true;
  forks = λ i. if i == 1 then in_child 103 else in_parent 102;
  workers = λ _. well;
}

second_worker-LeadsTo : LeadsTo second_worker 1 101 103
second_worker-LeadsTo = record {
  daemon_child = refl;
  daemon_calls = refl;
  below = omega arith;
  parent = λ j a b. (102, ground arith);
  child = refl;
  well = record {
    unblocks = refl;
    semaphore = refl;
    creates = λ t. refl;
    epoll = refl;
    watches = λ i. refl;
  };
}

conf-IsUsable : IsUsable (load second_worker.file []).0 2 idle.setup
unfolding load read_conf get_string
conf-IsUsable = record {
  db_info = b'x' ∷ [];
  has_db_info = refl;
  counts = refl;
  bounded = omega arith;
}

main-IsServing_example :
    (q : Program) × (main second_worker program ≡ goes_on (q, worker_loop_of 1))
    × IsServing (load second_worker.file []).0 (λ j. 5 + j) 2 101 103 program q
main-IsServing_example =
    main-IsServing second_worker 1 101 103 1 (λ j. 5 + j) conf_bytes program
      (record { new = new_socket-IsNew (λ _. one_use); none_open = refl; idle = refl }) refl
      conf-IsUsable
      (λ j h. record { made = refl; reuses = refl; waits_not = refl; bound = refl; listens = refl })
      second_worker-LeadsTo
