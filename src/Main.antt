-- ===== src/Main.antt =====
-- app/main.cc: the start of the program. The log is left out, but for LOG_FATAL, which aborts.
pub mod Serving
use flydragon.Base.{ℕ, List, [], ◌∷◌, Option, none, some, Bool, true, false, if◌then◌else◌}
use flydragon.Config.{load, get_string}
use flydragon.Signal.{init}
use flydragon.Startup.{Setup, SocketCalls, initialize}
use flydragon.Process.{
  Process, Outcome, aborted, exited, goes_on, Fork, DaemonCalls, DaemonResult, failed, in_master,
  in_origin, daemon,
}
use flydragon.Process.Worker.{Program, WorkerCalls}
use flydragon.Process.Master.{Loop, master_process_cycle}

-- What the kernel answers to the process that is looked at, from `main` to its loop.
pub record MainCalls : Type 0 where
  pub sigaction : ℕ → Bool
  pub file : Option (List ℕ)
  pub sockets : ℕ → SocketCalls
  pub daemon : DaemonCalls
  pub blocks : Bool
  pub unblocks : Bool
  pub forks : ℕ → Fork
  pub workers : ℕ → WorkerCalls

abbrev pub db_info_name : List ℕ
db_info_name = b'D' ∷ b'B' ∷ b'I' ∷ b'n' ∷ b'f' ∷ b'o' ∷ []

-- From `flyd_daemon` on: only the original process exits, and the result -1 is logged.
unfoldable pub run_daemon : MainCalls → Program → Outcome (Program × Loop)
unfolding daemon master_process_cycle
run_daemon c p = elim (daemon c.daemon p.process) [
  | aborted ↦ aborted
  | exited code ↦ exited code
  | goes_on (q, in_origin) ↦ exited 0
  | goes_on (q, in_master) ↦
      master_process_cycle c.blocks c.unblocks c.forks c.workers (record p { process = q })
  | goes_on (q, failed) ↦
      master_process_cycle c.blocks c.unblocks c.forks c.workers (record p { process = q })
]

-- The two numbers, and `Initialize`.
unfoldable pub run_initialize : MainCalls → Program → Outcome (Program × Loop)
unfolding initialize run_daemon
run_initialize c p =
    let q = record p.process { flyd_pid = p.process.pid; flyd_parent = p.process.ppid } in
    let (t, ok) = initialize p.conf c.sockets p.socket.setup in
    if ok
    then run_daemon c (record p { process = q; socket = record p.socket { setup = t } })
    else aborted

-- `main`
unfoldable pub main : MainCalls → Program → Outcome (Program × Loop)
unfolding init load get_string run_initialize
main c p =
    let (conf, ok) = load c.file p.conf in
    let p₁ : Program = record p { signals = init c.sigaction p.signals; conf = conf } in
    if ok
    then elim (get_string conf db_info_name) [ none ↦ aborted | some info ↦ run_initialize c p₁ ]
    else aborted
