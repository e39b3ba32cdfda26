-- ===== src/Startup/Created.antt =====
-- Which threads `Initialize_subproc` starts.
use flydragon.Base.{ℕ, ◌≡◌, List, [], ◌∷◌, Bool, true, false, ◌==◌, if◌then◌else◌, arith}
use flydragon.Startup.Threads.{
  Thread, send_queue, recy_connection, timer_queue_monitor, Subproc, create_thread, sem_init,
  initialize_subproc,
}

-- The threads that a worker needs; the monitor only if it is switched on.
abbrev pub needed : ℕ → List Thread
needed kick_time_count =
    if kick_time_count == 1
    then send_queue ∷ recy_connection ∷ timer_queue_monitor ∷ []
    else send_queue ∷ recy_connection ∷ []

-- The threads up to the first that is not created, and whether all are.
abbrev pub created_until : (Thread → Bool) → List Thread → List Thread × Bool
created_until created [] = ([], true)
created_until created (t ∷ ts) =
    let (us, all) = created_until created ts in if created t then (t ∷ us, all) else ([], false)

-- If the semaphore is made and no thread runs yet, then the threads that run behind
-- `Initialize_subproc` are those that the worker needs - the monitor of the timer queue only if it is
-- switched on - up to the first that is not created, and the result is true if all are created. The
-- semaphore is 0.
pub initialize_subproc-created_until :
    (created : Thread → Bool) (s : Subproc)
    → s.running ≡ []
    → let (t, ok) = initialize_subproc true created s in
      ((t.running, ok) ≡ created_until created (needed s.setup.server.kick_time_count))
      × (t.setup.server.sem_event_send_queue ≡ 0)
unfolding initialize_subproc sem_init create_thread
initialize_subproc-created_until created s e = ground (arith, e)
