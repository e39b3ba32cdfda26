-- ===== src/Signal/Reaping.antt =====
-- The loop over `waitpid`, when some children have exited.
use flydragon.Base.{
  ℕ, ◌≡◌, refl, ap, ◌∙◌, List, [], ◌∷◌, ◌++◌, map, Option, some, Bool, true, false,
}
use flydragon.Signal.{
  WaitAnswer, none_exited, wait_error, eintr, echild, exited, Report, report_of, and_then,
  waitpid_failed, process_get_status, Signals, SignalMap, SigFunction, signal_handler, find_signal,
  at_signal, signal_came, signal_is, sigchld, announce, handle_signal,
}

-- What the kernel answers while the children of a list, each with its status, have exited and are
-- not reaped yet; the Bool says that others still run. A call may be interrupted, and what comes
-- behind the last answer is open.
pub data Kernel : List (ℕ × ℕ) → Bool → List WaitAnswer → Type 0 where
  all_run : (ws : List WaitAnswer) → Kernel [] true (none_exited ∷ ws)
  no_child : (ws : List WaitAnswer) → Kernel [] false (wait_error echild ∷ ws)
  reap :
      (pid status : ℕ) {kids : List (ℕ × ℕ)} {others : Bool} {ws : List WaitAnswer}
      → Kernel kids others ws
      → Kernel ((pid, status) ∷ kids) others (exited pid status ∷ ws)
  interrupt :
      {kids : List (ℕ × ℕ)} {others : Bool} {ws : List WaitAnswer}
      → Kernel kids others ws
      → Kernel kids others (wait_error eintr ∷ ws)

-- The lines for the children.
abbrev pub reports : List (ℕ × ℕ) → List Report
reports = map (λ k. report_of k.0 k.1)

-- The line of a call that finds no child at all.
abbrev pub complaint : List (ℕ × ℕ) → Bool → Bool → List Report
complaint [] false false = waitpid_failed ∷ []
complaint kids one others = []

complaint_one : (kids : List (ℕ × ℕ)) (others : Bool) → complaint kids true others ≡ []
complaint_one [] others = refl
complaint_one (k ∷ kids) others = refl

process_get_status-Kernel :
    {kids : List (ℕ × ℕ)} {others : Bool} {ws : List WaitAnswer} (one : Bool)
    → Kernel kids others ws
    → process_get_status ws one ≡ some (reports kids ++ complaint kids one others)
unfolding process_get_status
process_get_status-Kernel true (all_run ws) = refl
process_get_status-Kernel false (all_run ws) = refl
process_get_status-Kernel true (no_child ws) = refl
process_get_status-Kernel false (no_child ws) = refl
process_get_status-Kernel {others = others} one (reap pid status {kids = kids} k) =
    ap (and_then (report_of pid status)) (
      process_get_status-Kernel true k
      ∙ ap (λ (rs : List Report). some (reports kids ++ rs)) (complaint_one kids others))
process_get_status-Kernel one (interrupt k) = process_get_status-Kernel one k

at_signal_found :
    (signo : ℕ) (f : SigFunction) (m : SignalMap)
    → find_signal signo m ≡ some f
    → at_signal signo m ≡ (m, f)
unfolding at_signal
at_signal_found signo f m e = rw (e, at_signal) refl

-- If SIGCHLD is in the table and comes, then however often `waitpid` is interrupted, the handler
-- comes to an end; it has reaped and logged each child that has exited, in the order in which the
-- kernel gives them, complains only if there was no child at all, and leaves the table as it is.
pub handle_signal-reports :
    {kids : List (ℕ × ℕ)} {others : Bool} {ws : List WaitAnswer} (sender : Option ℕ) (s : Signals)
    → find_signal sigchld s.signals ≡ some signal_handler
    → Kernel kids others ws
    → handle_signal sigchld sender ws s
      ≡ some (record s {
        log =
            (s.log ++ signal_came ∷ signal_is sigchld sender ∷ [])
            ++ (reports kids ++ complaint kids false others);
      })
unfolding handle_signal announce
handle_signal-reports sender s e k =
    rw (process_get_status-Kernel false k, handle_signal)
      (rw (at_signal_found sigchld signal_handler s.signals e) refl)
