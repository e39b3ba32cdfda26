-- ===== src/Process/Daemon.antt =====
-- How `flyd_daemon` ends.
use flydragon.Base.{ℕ, ◌≡◌, refl, Option, some, none, Bool, true, false, ◌&&◌, arith}
use flydragon.Process.{
  Process, master_process, dev_null, DaemonCalls, goes_on, in_child, in_parent, in_master,
  in_origin, failed, DaemonResult, daemon, become_master, redirect, close_unused, child_of,
  master_name,
}

-- `open` gives a descriptor.
abbrev pub is_open : Option ℕ → Bool
is_open none = false
is_open (some fd) = true

-- The calls that a master makes behind `fork`.
abbrev pub calls_succeed : DaemonCalls → Bool
calls_succeed c = c.setsid && is_open c.open_null && c.dup2_stdin && c.dup2_stdout

-- The child is the master, in a session of its own, with its standard input and output at /dev/null.
pub record IsDaemon (pid : ℕ) (p q : Process) : Type 0 where
  pub number : q.pid ≡ pid
  pub parent : q.ppid ≡ p.pid
  pub session : q.leads_session ≡ true
  pub mask : q.file_mask ≡ 0
  pub stdin : q.files 0 ≡ some dev_null
  pub stdout : q.files 1 ≡ some dev_null

abbrev pub ChildEnds : DaemonCalls → ℕ → Process → Process × DaemonResult → Type 0
ChildEnds c pid p (q, r) =
    (q.flyd_process ≡ master_process)
    × (calls_succeed c ≡ true → (r ≡ in_master) × IsDaemon pid p q)
    × (calls_succeed c ≡ false → r ≡ failed)

become_master-ChildEnds :
    (c : DaemonCalls) (pid : ℕ) (p q : Process)
    → q.pid ≡ pid
    → q.ppid ≡ p.pid
    → q.file_mask ≡ 0
    → q.flyd_process ≡ master_process
    → ChildEnds c pid p (become_master c q)
unfolding become_master close_unused redirect
become_master-ChildEnds c pid p q a b d e = ground (arith, a, b, d, e)

-- In the parent `flyd_daemon` gives 1, and only the umask changes. In the child it gives 0 if every
-- call behind `fork` succeeds, and -1 if one fails; the child is a master process in both cases, and
-- in the first one it leads a session and reads from and writes to /dev/null.
pub daemon-results :
    (c : DaemonCalls) (pid : ℕ) (p : Process)
    → (c.fork ≡ in_parent pid → daemon c p ≡ goes_on (record p { file_mask = 0 }, in_origin))
      × (c.fork ≡ in_child pid
          → (e : Process × DaemonResult) × (daemon c p ≡ goes_on e) × ChildEnds c pid p e)
unfolding daemon
daemon-results c pid p = (
  λ e. rw e refl,
  λ e.
      let q = record (child_of pid (record p { file_mask = 0 })) {
        name = master_name;
        flyd_process = master_process;
      } in
      (become_master c q, rw e refl, become_master-ChildEnds c pid p q refl refl refl refl),
)
