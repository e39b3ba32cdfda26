-- ===== src/Process.antt =====
-- proc/flyd_process.cc: the process that becomes the master. A process is what the kernel holds for
-- it and the globals of app/main.cc; LOG_FATAL ends in `abort`.
pub mod Worker
pub mod Master
pub mod Daemon
pub mod Started
pub mod Forks
use flydragon.Base.{
  ℕ, List, [], ◌∷◌, ◌++◌, Option, none, some, Bool, true, false, not, ltb, ◌==◌, if◌then◌else◌,
  update,
}

-- `Flyd_Process`
pub data ProcessKind : Type 0 where
  undefined_process master_process work_process : ProcessKind

-- What a descriptor refers to: /dev/null, or another open file.
pub data File : Type 0 where
  dev_null : File
  other_file : ℕ → File

-- What the kernel holds for a process (its numbers, name, umask, descriptors, blocked signals, and
-- whether it leads a session), and the globals of app/main.cc.
pub record Process : Type 0 where
  pub pid : ℕ
  pub ppid : ℕ
  pub name : List ℕ
  pub file_mask : ℕ
  pub leads_session : Bool
  pub files : ℕ → Option File
  pub blocked : List ℕ
  pub flyd_pid : ℕ
  pub flyd_parent : ℕ
  pub flyd_process : ProcessKind

-- How a call ends: the process aborts or exits, or the call returns.
pub data Outcome {ℓ} (A : Type ℓ) : Type ℓ where
  aborted : Outcome A
  exited : ℕ → Outcome A
  goes_on : A → Outcome A

infixl 5 ◌>>=◌
abbrev pub ◌>>=◌ {ℓ κ} : {A : Type ℓ} {B : Type κ} → Outcome A → (A → Outcome B) → Outcome B
aborted >>= f = aborted
exited code >>= f = exited code
goes_on a >>= f = f a

-- What `fork` gives in the process that looks on: -1, 0 with the new process's number, or the number
-- of the child.
pub data Fork : Type 0 where
  fork_failed : Fork
  in_child in_parent : ℕ → Fork

-- The copy that `fork` makes.
abbrev pub child_of : ℕ → Process → Process
child_of pid p = record p { pid = pid; ppid = p.pid; leads_session = false }

abbrev pub master_name : List ℕ
master_name = b'f' ∷ b'l' ∷ b'y' ∷ b'd' ∷ b'_' ∷ b'm' ∷ b'a' ∷ b's' ∷ b't' ∷ b'e' ∷ b'r' ∷ []

-- The results of `flyd_daemon`: -1, 0 and 1.
pub data DaemonResult : Type 0 where
  failed in_master in_origin : DaemonResult

-- What the kernel answers in `flyd_daemon`.
pub record DaemonCalls : Type 0 where
  pub fork : Fork
  pub setsid : Bool
  pub close : Bool
  pub open_null : Option ℕ
  pub dup2_stdin : Bool
  pub dup2_stdout : Bool

-- `dup2`
abbrev pub dup2 : ℕ → ℕ → Process → Process
dup2 fd new p = record p { files = update p.files new (p.files fd) }

-- From `open` on.
unfoldable pub redirect : DaemonCalls → Process → Process × DaemonResult
redirect c p = elim c.open_null [
  | none ↦ (p, failed)
  | some fd ↦
      let p₁ = record p { files = update p.files fd (some dev_null) } in
      if not c.dup2_stdin
      then (p₁, failed)
      else if not c.dup2_stdout
      then (dup2 fd 0 p₁, failed)
      else (dup2 fd 1 (dup2 fd 0 p₁), in_master)
]

-- The test `i > STDERR_FILENO`, for an `i` that is 0, and the `close` under it.
unfoldable pub close_unused : DaemonCalls → Process → Process × Bool
close_unused c p =
    let i : ℕ = 0 in
    if ltb 2 i
    then if c.close then (record p { files = update p.files i none }, true) else (p, false)
    else (p, true)

-- What is left for the child.
unfoldable pub become_master : DaemonCalls → Process → Process × DaemonResult
unfolding redirect close_unused
become_master c p =
    if not c.setsid
    then (p, failed)
    else (let (p₁, ok) = close_unused c (record p { leads_session = true }) in
        if ok then redirect c p₁ else (p₁, failed))

-- `flyd_daemon`; its LOG_FATAL aborts.
unfoldable pub daemon : DaemonCalls → Process → Outcome (Process × DaemonResult)
unfolding become_master
daemon c p =
    let p₁ = record p { file_mask = 0 } in
    elim c.fork [
      | fork_failed ↦ aborted
      | in_child pid ↦ goes_on (
          become_master c
            (record (child_of pid p₁) { name = master_name; flyd_process = master_process }))
      | in_parent pid ↦ goes_on (p₁, in_origin)
    ]
