-- ===== src/Main/Serving.antt =====
-- The whole start, from `main` to the loop of a worker.
use flydragon.Base.{
  ℕ, zero, suc, tabulate, ◌+◌, ◌^◌, ◌<◌, ◌≡◌, refl, ap, ap₂, ◌∙◌, List, [], ◌∷◌, map, Option, some,
  Bool, true, false, arith,
}
use flydragon.Pool.Owned.{IsPooled}
use flydragon.Pool.Start.{IsNew}
use flydragon.Config.{ConfigMap, load, get_string}
use flydragon.Signal.{init}
use flydragon.Startup.{port_of, Setup, SocketCalls, rounds_of, read_conf, initialize}
use flydragon.Startup.Created.{needed}
use flydragon.Startup.Sockets.{Opens, opened, open_listening_sockets-opened}
use flydragon.Startup.Watched.{AllAccept}
use flydragon.Process.{
  Process, goes_on, in_child, in_master, child_of, DaemonResult, daemon, work_process,
}
use flydragon.Process.Worker.{Program}
use flydragon.Process.Master.{worker_loop_of, worker_name, master_process_cycle, as_worker, block}
use flydragon.Process.Daemon.{calls_succeed, daemon-results}
use flydragon.Process.Started.{IsWell, IsPrepared, Serves}
use flydragon.Process.Forks.{IsParent, master_process_cycle-worker}
use flydragon.Main.{MainCalls, db_info_name, run_daemon, run_initialize, main}

-- The answers of the kernel to the process that is to become a worker: it is the child of the first
-- `fork`, with the number `master`, and of a later one, with the number `pid`, and no call fails.
pub record LeadsTo (c : MainCalls) (k master pid : ℕ) : Type 0 where
  pub daemon_child : c.daemon.fork ≡ in_child master
  pub daemon_calls : calls_succeed c.daemon ≡ true
  pub below : k < 4
  pub parent : IsParent c.forks 0 k
  pub child : c.forks k ≡ in_child pid
  pub well : IsWell (c.workers k)

-- The configuration names some ports and asks for a pool that its counters can count.
pub record IsUsable (conf : ConfigMap) (ports : ℕ) (s : Setup) : Type 0 where
  pub db_info : List ℕ
  pub has_db_info : get_string conf db_info_name ≡ some db_info
  pub counts : (read_conf conf s).listen_port_count ≡ (false, ports)
  pub bounded : rounds_of (read_conf conf s).worker_connections + 1 < 2 ^ 31

-- The objects of app/main.cc before `main`.
pub record IsUnused (p : Program) : Type 0 where
  pub new : IsNew p.socket.setup.server
  pub none_open : p.socket.setup.listen_socket_list ≡ []
  pub idle : p.socket.running ≡ []

run_daemon_master :
    (c : MainCalls) (p : Program) (d : Process)
    → daemon c.daemon p.process ≡ goes_on (d, in_master)
    → run_daemon c p
      ≡ master_process_cycle c.blocks c.unblocks c.forks c.workers (record p { process = d })
unfolding run_daemon
run_daemon_master c p d e = rw (e, run_daemon) refl

block_pid : (ok : Bool) (p : Process) → (block ok p).pid ≡ p.pid
block_pid true p = refl
block_pid false p = refl

-- The start from `flyd_daemon` on.
run_daemon-Serves :
    (c : MainCalls) (k master pid : ℕ) (p : Program)
    → LeadsTo c k master pid
    → IsPrepared p
    → (d : Process) × (q : Program) × (run_daemon c p ≡ goes_on (q, worker_loop_of k))
      × ((block c.blocks d).pid ≡ master)
      × Serves worker_name (record p { process = as_worker (child_of pid (block c.blocks d)) }) q
run_daemon-Serves c k master pid p l h =
    let (e, reached, ends) = (daemon-results c.daemon master p.process).1 l.daemon_child in
    let (_, good, _) = ends in
    let d = e.0 in
    let (in_the_master, is_daemon) = good l.daemon_calls in
    let (q, loops, serves) =
      master_process_cycle-worker c.blocks c.unblocks c.forks c.workers k pid
        (record p { process = d }) l.below l.parent l.child l.well
        (record { new = h.new; idle = h.idle; bounded = h.bounded }) in
    (
      d,
      q,
      run_daemon_master c p d (reached ∙ ap (λ (r : DaemonResult). goes_on (d, r)) in_the_master)
          ∙ loops,
      block_pid c.blocks d ∙ is_daemon.number,
      serves,
    )

run_initialize_on :
    (c : MainCalls) (p : Program) (t : Setup)
    → initialize p.conf c.sockets p.socket.setup ≡ (t, true)
    → run_initialize c p
      ≡ run_daemon c (record p {
        process = record p.process { flyd_pid = p.process.pid; flyd_parent = p.process.ppid };
        socket = record p.socket { setup = t };
      })
unfolding run_initialize
run_initialize_on c p t e = rw (e, run_initialize) refl

load_ok :
    (file : Option (List ℕ)) (bytes : List ℕ) (m : ConfigMap)
    → file ≡ some bytes
    → (load file m).1 ≡ true
unfolding load
load_ok file bytes m e = rw e refl

main_on :
    (c : MainCalls) (p : Program) (info bytes : List ℕ)
    → c.file ≡ some bytes
    → get_string (load c.file p.conf).0 db_info_name ≡ some info
    → main c p
      ≡ run_initialize c
          (record p { signals = init c.sigaction p.signals; conf = (load c.file p.conf).0 })
unfolding main
main_on c p info bytes e g = rw (load_ok c.file bytes p.conf e, main) (rw g refl)

none_open :
    (conf : ConfigMap) (s : Setup)
    → s.listen_socket_list ≡ []
    → (read_conf conf s).listen_socket_list ≡ []
unfolding read_conf
none_open conf s e = e

read_conf-IsNew : (conf : ConfigMap) (s : Setup) → IsNew s.server → IsNew (read_conf conf s).server
unfolding read_conf
read_conf-IsNew conf s h = record {
  none_made = h.none_made;
  none_free = h.none_free;
  none_waits = h.none_waits;
  none_counted = h.none_counted;
}

initialize-opened :
    (conf : ConfigMap) (calls : ℕ → SocketCalls) (fds : ℕ → ℕ) (n : ℕ) (s : Setup)
    → (read_conf conf s).listen_port_count ≡ (false, suc n)
    → s.listen_socket_list ≡ []
    → ((j : ℕ) → j < suc n → Opens (calls j) (port_of conf j) (fds j))
    → initialize conf calls s
      ≡ (record (read_conf conf s) { listen_socket_list = opened conf fds (suc n) 0 }, true)
unfolding initialize
initialize-opened conf calls fds n s c e h =
    open_listening_sockets-opened conf calls fds n (read_conf conf s) c (none_open conf s e) h

-- The worker with the number `k`, of which the master has the number `master`.
pub record IsServing (conf : ConfigMap) (fds : ℕ → ℕ) (ports master pid : ℕ) (p q : Program)
    : Type 0 where
  pub number : q.process.flyd_pid ≡ pid
  pub parent : q.process.flyd_parent ≡ master
  pub kind : q.process.flyd_process ≡ work_process
  pub unblocked : q.process.blocked ≡ []
  pub pool : q.pool_threads ≡ 5
  pub threads : q.socket.running ≡ needed (read_conf conf p.socket.setup).server.kick_time_count
  pub pooled : IsPooled q.socket.setup.server
  pub accept : AllAccept q.socket.setup.server q.socket.setup.listen_socket_list
  pub sockets : map (λ l. l.fd) q.socket.setup.listen_socket_list ≡ tabulate ports fds

opened_fds :
    (conf : ConfigMap) (fds g : ℕ → ℕ) (n i : ℕ)
    → ((j : ℕ) → fds (i + j) ≡ g j)
    → map (λ l. l.fd) (opened conf fds n i) ≡ tabulate n g
opened_fds conf fds g zero i h = refl
opened_fds conf fds g (suc n) i h =
    ap₂ ◌∷◌ (ap fds (omega arith) ∙ h 0)
      (opened_fds conf fds (λ j. g (suc j)) n (i + 1) (λ j. ap fds (omega arith) ∙ h (suc j)))

-- If the file can be read, names DBInfo and a port or more, asks for a pool that its counters can
-- count, the kernel gives a socket for each port and binds it to the low 16 bits of the port that the
-- configuration has for its index, and no call of `flyd_daemon` and of the worker `k`
-- fails, then `main` leads the process that is the child of the first `fork` and of the one with the
-- number `k` to the loop of this worker: no signal is blocked, the threads of the pool and those of the
-- object run, the pool of connections is in order, and there is a connection that accepts clients for
-- each port, in order.
pub main-IsServing :
    (c : MainCalls) (k master pid n : ℕ) (fds : ℕ → ℕ) (bytes : List ℕ) (p : Program)
    → IsUnused p
    → c.file ≡ some bytes
    → IsUsable (load c.file p.conf).0 (suc n) p.socket.setup
    → ((j : ℕ) → j < suc n → Opens (c.sockets j) (port_of (load c.file p.conf).0 j) (fds j))
    → LeadsTo c k master pid
    → (q : Program) × (main c p ≡ goes_on (q, worker_loop_of k))
      × IsServing (load c.file p.conf).0 fds (suc n) master pid p q
main-IsServing c k master pid n fds bytes p unused file usable opens leads =
    let conf = (load c.file p.conf).0 in
    let s = p.socket.setup in
    let t : Setup = record (read_conf conf s) { listen_socket_list = opened conf fds (suc n) 0 } in
    let p₁ : Program = record p { signals = init c.sigaction p.signals; conf = conf } in
    let p₂ : Program = record p₁ {
      process = record p.process { flyd_pid = p.process.pid; flyd_parent = p.process.ppid };
      socket = record p.socket { setup = t };
    } in
    let (d, q, reached, number, serves) = run_daemon-Serves c k master pid p₂ leads (record {
      new = read_conf-IsNew conf s unused.new;
      idle = unused.idle;
      bounded = usable.bounded;
    }) in
    (
      q,
      main_on c p usable.db_info bytes file usable.has_db_info
          ∙ run_initialize_on c p₁ t
              (initialize-opened conf c.sockets fds n s usable.counts unused.none_open opens)
          ∙ reached,
      record {
        number = ap (λ (x : Process). x.flyd_pid) serves.process;
        parent = ap (λ (x : Process). x.flyd_parent) serves.process ∙ number;
        kind = ap (λ (x : Process). x.flyd_process) serves.process;
        unblocked = ap (λ (x : Process). x.blocked) serves.process;
        pool = serves.pool;
        threads = serves.threads;
        pooled = serves.pooled;
        accept = serves.accept;
        sockets = serves.sockets ∙ opened_fds conf fds fds (suc n) 0 (λ j. ap fds (omega arith));
      },
    )
