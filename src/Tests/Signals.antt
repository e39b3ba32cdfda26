-- ===== src/Tests/Signals.antt =====
-- Signals at concrete inputs.
use flydragon.Base.{◌≡◌, refl, [], ◌∷◌, ◌++◌, none, some, true, if◌then◌else◌, false}
use flydragon.Signal.{
  Signals, signal_handler, null_function, sigchld, sigusr1, none_exited, wait_error, eintr, exited,
  signal_came, signal_is, init, find_signal, handle_signal, exited_on_signal, exited_with_code,
  process_get_status,
}
use flydragon.Signal.Reaping.{
  Kernel, reap, interrupt, all_run, reports, complaint, handle_signal-reports,
}
use flydragon.Signal.Table.{is_set, came, announce_all, find_signal-announced}

abbrev no_signals : Signals
no_signals = record { signals = []; actions = λ _. none; log = [] }

-- The table after `Init`.
abbrev two_signals : Signals
two_signals = record no_signals {
  signals = (sigusr1, signal_handler) ∷ (sigchld, signal_handler) ∷ [];
}

-- Child 71 was killed by signal 9 and child 72 exited with code 1, while others run; the second call
-- is interrupted.
two_exits :
    Kernel
      ((71, 9) ∷ (72, 256) ∷ [])
      true
      (exited 71 9 ∷ wait_error eintr ∷ exited 72 256 ∷ none_exited ∷ [])
two_exits = reap 71 9 (interrupt (reap 72 256 (all_run [])))

handle_signal-reports_example :
    handle_signal sigchld
      (some 71)
      (exited 71 9 ∷ wait_error eintr ∷ exited 72 256 ∷ none_exited ∷ [])
      two_signals
    ≡ some (record two_signals {
      log =
          (two_signals.log ++ signal_came ∷ signal_is sigchld (some 71) ∷ [])
          ++ (reports ((71, 9) ∷ (72, 256) ∷ [])
              ++ complaint ((71, 9) ∷ (72, 256) ∷ []) false true);
    })
handle_signal-reports_example =
    handle_signal-reports (some 71) two_signals (unfold find_signal in refl) two_exits

two_are_reported :
    process_get_status (exited 71 9 ∷ wait_error eintr ∷ exited 72 256 ∷ none_exited ∷ []) true
    ≡ some (exited_on_signal 71 9 ∷ exited_with_code 72 1 ∷ [])
unfolding process_get_status
two_are_reported = refl

find_signal-announced_example :
    find_signal 12 (announce_all ((12, none) ∷ []) (init (λ _. true) no_signals)).signals ≡ (
      if is_set 12
      then some signal_handler
      else if came 12 ((12, none) ∷ [])
      then some null_function
      else none)
find_signal-announced_example =
    find_signal-announced 12 (λ _. true) ((12, none) ∷ []) no_signals refl
