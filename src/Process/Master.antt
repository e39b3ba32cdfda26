-- ===== src/Process/Master.antt =====
-- The master of proc/flyd_process.cc: it forks the workers, with its signals blocked.
use flydragon.Base.{ℕ, zero, suc, ◌+◌, List, [], ◌∷◌, ◌++◌, Bool, if◌then◌else◌}
use flydragon.Process.{
  Process, work_process, Outcome, aborted, exited, goes_on, ◌>>=◌, Fork, fork_failed, in_child,
  in_parent, child_of,
}
use flydragon.Process.Worker.{Program, WorkerCalls, unblock, worker_process_cycle}

-- Where a process ends up: in the loop of the master, or in that of the worker with a number.
pub data Loop : Type 0 where
  master_loop : Loop
  worker_loop_of : ℕ → Loop

abbrev pub worker_name : List ℕ
worker_name = b'f' ∷ b'l' ∷ b'y' ∷ b'd' ∷ b'_' ∷ b'w' ∷ b'o' ∷ b'r' ∷ b'k' ∷ b'e' ∷ b'r' ∷ []

-- SIGCHLD, SIGALRM, SIGIO, SIGINT, SIGHUP, SIGUSR1, SIGUSR2, SIGWINCH, SIGTERM, SIGQUIT
abbrev pub held_signals : List ℕ
held_signals = 17 ∷ 14 ∷ 29 ∷ 2 ∷ 1 ∷ 10 ∷ 12 ∷ 28 ∷ 15 ∷ 3 ∷ []

-- `sigprocmask(SIG_BLOCK, ...)`
abbrev pub block : Bool → Process → Process
block ok p = if ok then record p { blocked = held_signals ++ p.blocked } else p

-- The globals of a new worker.
abbrev pub as_worker : Process → Process
as_worker p = record p { flyd_parent = p.ppid; flyd_pid = p.pid; flyd_process = work_process }

-- `flyd_spawn_process`. The child does not come back from its loop, and LOG_FATAL aborts.
unfoldable pub spawn_process : Fork → WorkerCalls → ℕ → List ℕ → Program → Outcome (Program × Loop)
unfolding worker_process_cycle
spawn_process fork calls inum name p = elim fork [
  | fork_failed ↦ aborted
  | in_child pid ↦
      worker_process_cycle name calls (record p { process = as_worker (child_of pid p.process) })
      >>= λ q. goes_on (q, worker_loop_of inum)
  | in_parent pid ↦ goes_on (p, master_loop)
]

-- The loop of `flyd_start_worker_processes`, with the rounds that are left and the number.
unfoldable pub start_worker_processes :
    (ℕ → Fork) → (ℕ → WorkerCalls) → ℕ → ℕ → Program → Outcome (Program × Loop)
unfolding spawn_process
start_worker_processes forks calls zero i p = goes_on (p, master_loop)
start_worker_processes forks calls (suc n) i p =
    elim (spawn_process (forks i) (calls i) i worker_name p) [
      | aborted ↦ aborted
      | exited code ↦ exited code
      | goes_on (q, worker_loop_of k) ↦ goes_on (q, worker_loop_of k)
      | goes_on (q, master_loop) ↦ start_worker_processes forks calls n (i + 1) q
    ]

-- `flyd_master_process_cycle` up to its loop, with whether the two calls of `sigprocmask` succeed.
unfoldable pub master_process_cycle :
    Bool → Bool → (ℕ → Fork) → (ℕ → WorkerCalls) → Program → Outcome (Program × Loop)
unfolding start_worker_processes
master_process_cycle blocks unblocks forks calls p =
    elim (start_worker_processes forks calls 4 0 (record p { process = block blocks p.process })) [
      | aborted ↦ aborted
      | exited code ↦ exited code
      | goes_on (q, worker_loop_of k) ↦ goes_on (q, worker_loop_of k)
      | goes_on (q, master_loop) ↦
          goes_on (record q { process = unblock unblocks q.process }, master_loop)
    ]
