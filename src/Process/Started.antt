-- ===== src/Process/Started.antt =====
-- A worker in front of its loop.
use flydragon.Base.{ℕ, ◌+◌, ◌^◌, ◌<◌, ◌≡◌, refl, ap, ◌∙◌, List, [], map, some, Bool, true, arith}
use flydragon.Pool.Owned.{IsPooled}
use flydragon.Pool.Start.{IsNew}
use flydragon.Startup.{Setup, epoll_init, rounds_of}
use flydragon.Startup.Threads.{
  Thread, Subproc, send_queue, recy_connection, timer_queue_monitor, create_thread, sem_init,
  initialize_subproc,
}
use flydragon.Startup.Created.{needed}
use flydragon.Startup.Watched.{AllAccept, epoll_init-AllAccept}
use flydragon.Process.{goes_on}
use flydragon.Process.Worker.{
  Program, WorkerCalls, start_epoll, worker_process_init, worker_process_cycle, unblock,
}

-- Every call of the kernel succeeds.
pub record IsWell (c : WorkerCalls) : Type 0 where
  pub unblocks : c.sigprocmask ≡ true
  pub semaphore : c.sem_init ≡ true
  pub creates : (t : Thread) → c.pthread_create t ≡ true
  pub epoll : c.epoll_create ≡ true
  pub watches : (i : ℕ) → c.epoll_ctl i ≡ true

-- The program is as the start leaves it to a worker.
pub record IsPrepared (p : Program) : Type 0 where
  pub new : IsNew p.socket.setup.server
  pub idle : p.socket.running ≡ []
  pub bounded : rounds_of p.socket.setup.worker_connections + 1 < 2 ^ 31

-- The worker serves: no signal is blocked, all threads run, the pool is in order, and each listening
-- socket, in order, has a connection that accepts clients.
pub record Serves (name : List ℕ) (p q : Program) : Type 0 where
  pub process : q.process ≡ record p.process { name = name; blocked = [] }
  pub pool : q.pool_threads ≡ 5
  pub threads : q.socket.running ≡ needed p.socket.setup.server.kick_time_count
  pub pooled : IsPooled q.socket.setup.server
  pub accept : AllAccept q.socket.setup.server q.socket.setup.listen_socket_list
  pub sockets :
      map (λ l. l.fd) q.socket.setup.listen_socket_list
      ≡ map (λ l. l.fd) p.socket.setup.listen_socket_list

-- The threads are created.
record Creates (s t : Subproc) : Type 0 where
  new : IsNew t.setup.server
  running : t.running ≡ needed s.setup.server.kick_time_count
  sockets : t.setup.listen_socket_list ≡ s.setup.listen_socket_list
  connections : t.setup.worker_connections ≡ s.setup.worker_connections

initialize_subproc-Creates :
    (c : WorkerCalls) (s : Subproc)
    → IsWell c
    → IsNew s.setup.server
    → s.running ≡ []
    → ((initialize_subproc c.sem_init c.pthread_create s).1 ≡ true)
      × Creates s (initialize_subproc c.sem_init c.pthread_create s).0
unfolding initialize_subproc sem_init create_thread
initialize_subproc-Creates c s w n idle = ground (
  arith,
  idle,
  n,
  w.semaphore,
  w.creates send_queue,
  w.creates recy_connection,
  w.creates timer_queue_monitor,
)

start_epoll-goes_on :
    (c : WorkerCalls) (p : Program) (t : Setup)
    → epoll_init c.epoll_create c.epoll_ctl c.now p.socket.setup ≡ some t
    → start_epoll c p ≡ goes_on (record p { socket = record p.socket { setup = t } })
unfolding start_epoll
start_epoll-goes_on c p t e = rw (e, start_epoll) refl

init_goes_on :
    (c : WorkerCalls) (p : Program)
    → (initialize_subproc c.sem_init c.pthread_create p.socket).1 ≡ true
    → worker_process_init c p
      ≡ start_epoll c (record p {
        process = unblock c.sigprocmask p.process;
        socket = (initialize_subproc c.sem_init c.pthread_create p.socket).0;
        pool_threads = 5;
      })
unfolding worker_process_init
init_goes_on c p e = rw e refl

-- If every call of the kernel succeeds, no connection and no thread is made yet and the pool is not
-- larger than its counters can tell, then `flyd_worker_process_cycle` reaches its loop, and serves.
pub worker_process_cycle-Serves :
    (name : List ℕ) (c : WorkerCalls) (p : Program)
    → IsWell c
    → IsPrepared p
    → (q : Program) × (worker_process_cycle name c p ≡ goes_on q) × Serves name p q
unfolding worker_process_cycle
worker_process_cycle-Serves name c p w h =
    let (ok, made) = initialize_subproc-Creates c p.socket w h.new h.idle in
    let s = (initialize_subproc c.sem_init c.pthread_create p.socket).0 in
    let (t, reached, pooled, accept, same) =
      epoll_init-AllAccept c.epoll_ctl c.now s.setup made.new
        (omega (arith, h.bounded, ap rounds_of made.connections)) w.watches in
    let p₁ : Program = record p { process = record p.process { name = name } } in
    let p₂ : Program = record p₁ {
      process = unblock c.sigprocmask p₁.process;
      socket = s;
      pool_threads = 5;
    } in
    (
      record p₂ { socket = record s { setup = t } },
      init_goes_on c p₁ ok
          ∙ start_epoll-goes_on c p₂ t
              (ap (λ (b : Bool). epoll_init b c.epoll_ctl c.now s.setup) w.epoll ∙ reached),
      record {
        process = ap (λ (b : Bool). unblock b p₁.process) w.unblocks;
        pool = refl;
        threads = made.running;
        pooled = pooled;
        accept = accept;
        sockets = same ∙ ap (map (λ l. l.fd)) made.sockets;
      },
    )
