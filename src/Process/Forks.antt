-- ===== src/Process/Forks.antt =====
-- The master and its workers: which process reaches which loop.
use flydragon.Base.{
  ℕ, zero, suc, ◌+◌, ◌-◌, ◌≤◌, ◌<◌, ◌≡◌, refl, ap, ◌∙◌, [], Bool, true, false, arith,
}
use flydragon.Process.{Process, aborted, goes_on, Fork, fork_failed, in_child, in_parent, child_of}
use flydragon.Process.Worker.{Program, WorkerCalls, unblock, worker_process_cycle}
use flydragon.Process.Master.{
  master_loop, worker_loop_of, worker_name, block, as_worker, spawn_process, start_worker_processes,
  master_process_cycle,
}
use flydragon.Process.Started.{IsWell, IsPrepared, Serves, worker_process_cycle-Serves}

-- The process is the parent of the workers from `i` on up to `i + n`.
abbrev pub IsParent : (ℕ → Fork) → ℕ → ℕ → Type 0
IsParent forks i n = (j : ℕ) → i ≤ j → j < i + n → (pid : ℕ) × (forks j ≡ in_parent pid)

module _ (forks : ℕ → Fork) (calls : ℕ → WorkerCalls) where
  spawn_step :
      (n i pid : ℕ) (p : Program)
      → forks i ≡ in_parent pid
      → start_worker_processes forks calls (suc n) i p
        ≡ start_worker_processes forks calls n (i + 1) p
  unfolding start_worker_processes spawn_process
  spawn_step n i pid p e = rw (e, start_worker_processes) refl

  -- The loop goes on behind the workers of a parent.
  start_on :
      (n m i : ℕ) (p : Program)
      → IsParent forks i n
      → start_worker_processes forks calls (n + m) i p
        ≡ start_worker_processes forks calls m (i + n) p
  start_on zero m i p h =
      ap (λ (k : ℕ). start_worker_processes forks calls k i p) (omega arith)
      ∙ ap (λ (k : ℕ). start_worker_processes forks calls m k p) (omega arith)
  start_on (suc n) m i p h =
      let (pid, e) = h i (omega arith) (omega arith) in
      ap (λ (k : ℕ). start_worker_processes forks calls k i p) (omega arith)
      ∙ spawn_step (n + m) i pid p e
      ∙ start_on n m (i + 1) p (λ j a b. h j (omega arith) (omega arith))
      ∙ ap (λ (k : ℕ). start_worker_processes forks calls m k p) (omega arith)

  -- The first `k` rounds of four are those of a parent.
  start_at :
      (k : ℕ) (p : Program)
      → k < 4
      → IsParent forks 0 k
      → start_worker_processes forks calls 4 0 p
        ≡ start_worker_processes forks calls (suc (3 - k)) k p
  start_at k p l h =
      ap (λ (n : ℕ). start_worker_processes forks calls n 0 p) (omega arith)
      ∙ start_on k (suc (3 - k)) 0 p h
      ∙ ap (λ (i : ℕ). start_worker_processes forks calls (suc (3 - k)) i p) (omega arith)

  start_child :
      (m i pid : ℕ) (p q : Program)
      → forks i ≡ in_child pid
      → worker_process_cycle worker_name
          (calls i)
          (record p { process = as_worker (child_of pid p.process) })
        ≡ goes_on q
      → start_worker_processes forks calls (suc m) i p ≡ goes_on (q, worker_loop_of i)
  unfolding start_worker_processes spawn_process
  start_child m i pid p q e w = rw (e, start_worker_processes) (rw w refl)

  start_failing :
      (m i : ℕ) (p : Program)
      → forks i ≡ fork_failed
      → start_worker_processes forks calls (suc m) i p ≡ aborted
  unfolding start_worker_processes spawn_process
  start_failing m i p e = rw (e, start_worker_processes) refl

  cycle_worker :
      (blocks unblocks : Bool) (p q : Program) (k : ℕ)
      → start_worker_processes forks calls 4 0 (record p { process = block blocks p.process })
        ≡ goes_on (q, worker_loop_of k)
      → master_process_cycle blocks unblocks forks calls p ≡ goes_on (q, worker_loop_of k)
  unfolding master_process_cycle
  cycle_worker blocks unblocks p q k e = rw (e, master_process_cycle) refl

  cycle_master :
      (blocks unblocks : Bool) (p q : Program)
      → start_worker_processes forks calls 4 0 (record p { process = block blocks p.process })
        ≡ goes_on (q, master_loop)
      → master_process_cycle blocks unblocks forks calls p
        ≡ goes_on (record q { process = unblock unblocks q.process }, master_loop)
  unfolding master_process_cycle
  cycle_master blocks unblocks p q e = rw (e, master_process_cycle) refl

  cycle_failing :
      (blocks unblocks : Bool) (p : Program)
      → start_worker_processes forks calls 4 0 (record p { process = block blocks p.process })
        ≡ aborted
      → master_process_cycle blocks unblocks forks calls p ≡ aborted
  unfolding master_process_cycle
  cycle_failing blocks unblocks p e = rw (e, master_process_cycle) refl

  start_none :
      (i : ℕ) (p : Program) → start_worker_processes forks calls 0 i p ≡ goes_on (p, master_loop)
  unfolding start_worker_processes
  start_none i p = refl

unblocked : (ok : Bool) (p : Process) → unblock true (block ok p) ≡ record p { blocked = [] }
unblocked true p = refl
unblocked false p = refl

-- In the process that `fork` always gives a child's number, and whose signals are unblocked again, the
-- master reaches its loop with no signal blocked, and nothing else changed; if one of the four calls
-- fails it aborts.
pub master_process_cycle-master :
    (blocks : Bool) (forks : ℕ → Fork) (calls : ℕ → WorkerCalls) (p : Program)
    → (IsParent forks 0 4
        → master_process_cycle blocks true forks calls p
          ≡ goes_on (record p { process = record p.process { blocked = [] } }, master_loop))
      × ((k : ℕ)
          → k < 4
          → IsParent forks 0 k
          → forks k ≡ fork_failed
          → master_process_cycle blocks true forks calls p ≡ aborted)
master_process_cycle-master blocks forks calls p =
    let p₁ : Program = record p { process = block blocks p.process } in
    (
      λ h.
          cycle_master forks calls blocks true p p₁
            (start_on forks calls 4 0 0 p₁ h ∙ start_none forks calls 4 p₁)
          ∙ ap (λ (q : Process). goes_on (record p { process = q }, master_loop))
              (unblocked blocks p.process),
      λ k l h e.
          cycle_failing forks calls blocks true p
            (start_at forks calls k p₁ l h ∙ start_failing forks calls (3 - k) k p₁ e),
    )

-- In the process that is the child of the `fork` with the number `k` of the four, if every call of the
-- kernel behind it succeeds and the program is prepared, the worker reaches its loop and serves; it
-- knows its number and that of the master, and is a worker process.
pub master_process_cycle-worker :
    (blocks unblocks : Bool) (forks : ℕ → Fork) (calls : ℕ → WorkerCalls) (k pid : ℕ) (p : Program)
    → k < 4
    → IsParent forks 0 k
    → forks k ≡ in_child pid
    → IsWell (calls k)
    → IsPrepared p
    → (q : Program) × (master_process_cycle blocks unblocks forks calls p
        ≡ goes_on (q, worker_loop_of k))
      × Serves worker_name
          (record p { process = as_worker (child_of pid (block blocks p.process)) })
          q
master_process_cycle-worker blocks unblocks forks calls k pid p l h e well ready =
    let p₁ : Program = record p { process = block blocks p.process } in
    let (q, reached, serves) =
      worker_process_cycle-Serves worker_name (calls k)
        (record p₁ { process = as_worker (child_of pid p₁.process) }) well
        (record { new = ready.new; idle = ready.idle; bounded = ready.bounded }) in
    (
      q,
      cycle_worker forks calls blocks unblocks p q k
          (start_at forks calls k p₁ l h ∙ start_child forks calls (3 - k) k pid p₁ q e reached),
      serves,
    )
