-- ===== src/Signal.antt =====
-- signal/flyd_signal.cc: the table of signals, and the handler, which reaps the children of the
-- master. A log line is kept with what it says.
pub mod Reaping
pub mod Table
use flydragon.Base.{
  ℕ, ◌/◌, ◌%◌, List, [], ◌∷◌, ◌++◌, Option, none, some, Bool, true, false, ◌==◌, if◌then◌else◌,
  update,
}

abbrev pub sigusr1 : ℕ
sigusr1 = 10

abbrev pub sigchld : ℕ
sigchld = 17

-- `SigFunction`: `Signal::SignalHandler`, the one function that is used, or a null pointer.
pub data SigFunction : Type 0 where
  signal_handler null_function : SigFunction

-- `SignalMap`, an std::unordered_map
abbrev pub SignalMap : Type 0
SignalMap = List (ℕ × SigFunction)

-- A line of the log.
pub data Report : Type 0 where
  not_set : ℕ → Report
  signal_came not_registered : Report
  signal_is : ℕ → Option ℕ → Report
  exited_on_signal exited_with_code : ℕ → ℕ → Report
  waitpid_failed : Report

-- `signals_`, the actions that the kernel has for signals, and the log.
pub record Signals : Type 0 where
  pub signals : SignalMap
  pub actions : ℕ → Option SigFunction
  pub log : List Report

-- `find`
unfoldable pub find_signal : ℕ → SignalMap → Option SigFunction
find_signal signo [] = none
find_signal signo ((k, f) ∷ m) = if k == signo then some f else find_signal signo m

-- `insert`: a key that is there keeps its value.
unfoldable pub insert_signal : ℕ → SigFunction → SignalMap → SignalMap
unfolding find_signal
insert_signal signo f m = elim (find_signal signo m) [ none ↦ m ++ (signo, f) ∷ [] | some g ↦ m ]

-- `signals_[signo]`: a key that is missing is inserted, with a null pointer.
unfoldable pub at_signal : ℕ → SignalMap → SignalMap × SigFunction
unfolding find_signal insert_signal
at_signal signo m = elim (find_signal signo m) [
  | none ↦ (insert_signal signo null_function m, null_function)
  | some f ↦ (m, f)
]

-- `AddSingal`; the first argument says that `sigaction` succeeds.
unfoldable pub add_signal : Bool → ℕ → SigFunction → Signals → Signals
unfolding insert_signal
add_signal ok signo f s =
    let m = insert_signal signo f s.signals in
    if ok
    then record { signals = m; actions = update s.actions signo (some f); log = s.log }
    else record { signals = m; actions = s.actions; log = s.log ++ not_set signo ∷ [] }

-- `Init`
unfoldable pub init : (ℕ → Bool) → Signals → Signals
unfolding add_signal
init ok s =
    add_signal (ok sigchld) sigchld signal_handler
      (add_signal (ok sigusr1) sigusr1 signal_handler s)

-- `errno` after `waitpid`
pub data WaitErrno : Type 0 where
  eintr echild other_errno : WaitErrno

-- What `waitpid(-1, &status, WNOHANG)` gives: 0, -1 and `errno`, or a child and its status.
pub data WaitAnswer : Type 0 where
  none_exited : WaitAnswer
  wait_error : WaitErrno → WaitAnswer
  exited : ℕ → ℕ → WaitAnswer

-- The line for a child: WTERMSIG and WEXITSTATUS of its status.
abbrev pub report_of : ℕ → ℕ → Report
report_of pid status =
    if status % 128 == 0
    then exited_with_code pid (status / 256 % 256)
    else exited_on_signal pid (status % 128)

-- The lines of the loop before it goes on.
abbrev pub and_then : Report → Option (List Report) → Option (List Report)
and_then r none = none
and_then r (some rs) = some (r ∷ rs)

-- `flyd_process_get_status`, with the answers of `waitpid`, one for each round of its loop; `none`
-- if the loop wants one more. `one` says that a child was reaped.
unfoldable pub process_get_status : List WaitAnswer → Bool → Option (List Report)
process_get_status [] one = none
process_get_status (none_exited ∷ ws) one = some []
process_get_status (wait_error eintr ∷ ws) one = process_get_status ws one
process_get_status (wait_error echild ∷ ws) true = some []
process_get_status (wait_error echild ∷ ws) false = some (waitpid_failed ∷ [])
process_get_status (wait_error other_errno ∷ ws) one = some (waitpid_failed ∷ [])
process_get_status (exited pid status ∷ ws) one =
    and_then (report_of pid status) (process_get_status ws true)

-- The lines of `SignalHandler` before it looks for children; `sender` is the `si_pid` of
-- `siginfo`, if there is one and it is not 0.
unfoldable pub announce : ℕ → Option ℕ → Signals → Signals
unfolding at_signal
announce signo sender s =
    let (m, f) = at_signal signo s.signals in
    record s {
      signals = m;
      log =
          s.log
          ++ signal_came ∷ elim f [
            | signal_handler ↦ signal_is signo sender ∷ []
            | null_function ↦ not_registered ∷ signal_is signo sender ∷ []
          ];
    }

-- `SignalHandler`; `none` if the loop wants more answers. The branches for the kinds of process
-- are empty.
unfoldable pub handle_signal : ℕ → Option ℕ → List WaitAnswer → Signals → Option Signals
unfolding announce process_get_status
handle_signal signo sender waits s =
    let t = announce signo sender s in
    if signo == sigchld
    then elim (process_get_status waits false) [
      | none ↦ none
      | some rs ↦ some (record t { log = t.log ++ rs })
    ]
    else some t
