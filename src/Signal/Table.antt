-- ===== src/Signal/Table.antt =====
-- The table of signals after `Init`, and what a signal does to it.
use flydragon.Base.{
  ℕ, ◌≡◌, inl, inr, Option-cases, Bool-cases, subst, eq_cases, eq→==, ne→==, false, ◌||◌, refl, ap,
  ◌∙◌, List, [], ◌∷◌, ◌++◌, Option, some, none, Bool, true, arith, ◌==◌, if◌then◌else◌,
}
use flydragon.Signal.{
  Signals, SignalMap, SigFunction, signal_handler, null_function, find_signal, insert_signal,
  at_signal, add_signal, init, announce, sigusr1, sigchld,
}

-- The function that a table has for a signal, with `default` where it has none.
abbrev pub or_else : SigFunction → Option SigFunction → SigFunction
or_else default none = default
or_else default (some f) = f

find_signal-append :
    (j k : ℕ) (f : SigFunction) (m : SignalMap)
    → find_signal j (m ++ (k, f) ∷ [])
      ≡ elim (find_signal j m) [ none ↦ if k == j then some f else none | some g ↦ some g ]
unfolding find_signal
find_signal-append j k f [] = refl
find_signal-append j k f ((i, g) ∷ m) = ground (arith, find_signal-append j k f m)

-- A signal that is inserted has its function, unless it had one; the others stay.
find_signal-insert_signal :
    (j k : ℕ) (f : SigFunction) (m : SignalMap)
    → find_signal j (insert_signal k f m)
      ≡ (if k == j then some (or_else f (find_signal j m)) else find_signal j m)
unfolding insert_signal
find_signal-insert_signal j k f m = elim (Option-cases (find_signal k m)) [
  | inl e ↦
      rw (e, insert_signal)
        (find_signal-append j k f m ∙ elim (eq_cases k j) [
          | inl q ↦
              let e' = subst (λ (i : ℕ). find_signal i m ≡ none) q e in
              rw e' (rw (eq→== k j q) refl)
          | inr d ↦ (elim (Option-cases (find_signal j m)) [
            | inl n ↦ rw n (rw (ne→== k j d) refl)
            | inr (g, n) ↦ rw n (rw (ne→== k j d) refl)
          ])
        ])
  | inr (g, e) ↦
      rw (e, insert_signal)
        (elim (eq_cases k j) [
          | inl q ↦
              let e' = subst (λ (i : ℕ). find_signal i m ≡ some g) q e in rw (eq→== k j q, e') refl
          | inr d ↦ rw (ne→== k j d) refl
        ])
]

at_signal_inserts : (k : ℕ) (m : SignalMap) → (at_signal k m).0 ≡ insert_signal k null_function m
unfolding at_signal insert_signal
at_signal_inserts k m = elim (Option-cases (find_signal k m)) [
  | inl e ↦ rw (e, at_signal) refl
  | inr (g, e) ↦ rw (e, at_signal, insert_signal) refl
]

-- Signals come one after the other.
abbrev pub announce_all : List (ℕ × Option ℕ) → Signals → Signals
announce_all [] s = s
announce_all ((signo, sender) ∷ es) s = announce_all es (announce signo sender s)

-- A signal is one of those that came.
abbrev pub came : ℕ → List (ℕ × Option ℕ) → Bool
came j [] = false
came j ((signo, sender) ∷ es) = signo == j || came j es

find_signal-announce :
    (j signo : ℕ) (sender : Option ℕ) (s : Signals)
    → find_signal j (announce signo sender s).signals ≡ (
        if signo == j
        then some (or_else null_function (find_signal j s.signals))
        else find_signal j s.signals)
unfolding announce
find_signal-announce j signo sender s =
    ap (find_signal j) (at_signal_inserts signo s.signals)
    ∙ find_signal-insert_signal j signo null_function s.signals

-- What the table has for a signal after others came.
find_signal-announce_all :
    (j : ℕ) (es : List (ℕ × Option ℕ)) (s : Signals)
    → find_signal j (announce_all es s).signals ≡ (
        if came j es
        then some (or_else null_function (find_signal j s.signals))
        else find_signal j s.signals)
find_signal-announce_all j [] s = refl
find_signal-announce_all j ((signo, sender) ∷ es) s =
    find_signal-announce_all j es (announce signo sender s)
    ∙ rw (find_signal-announce j signo sender s) (elim (Bool-cases (signo == j)) [
      | inr e ↦ rw e refl
      | inl e ↦ rw e (elim (Bool-cases (came j es)) [ inl c ↦ rw c refl | inr c ↦ rw c refl ])
    ])

find_signal-add_signal :
    (j k : ℕ) (ok : Bool) (f : SigFunction) (s : Signals)
    → find_signal j (add_signal ok k f s).signals ≡ find_signal j (insert_signal k f s.signals)
unfolding add_signal
find_signal-add_signal j k true f s = refl
find_signal-add_signal j k false f s = refl

-- `SIGUSR1` and `SIGCHLD`
abbrev pub is_set : ℕ → Bool
is_set j = sigchld == j || sigusr1 == j

find_signal-init :
    (j : ℕ) (ok : ℕ → Bool) (s : Signals)
    → s.signals ≡ []
    → find_signal j (init ok s).signals ≡ (if is_set j then some signal_handler else none)
unfolding init find_signal
find_signal-init j ok s e =
    let u = add_signal (ok sigusr1) sigusr1 signal_handler s in
    find_signal-add_signal j sigchld (ok sigchld) signal_handler u
    ∙ find_signal-insert_signal j sigchld signal_handler u.signals
    ∙ rw
        (find_signal-add_signal j sigusr1 (ok sigusr1) signal_handler s
          ∙ find_signal-insert_signal j sigusr1 signal_handler s.signals
          ∙ ap
              (λ (m : SignalMap).
                if sigusr1 == j
                then some (or_else signal_handler (find_signal j m))
                else find_signal j m)
              e)
        (ground arith)

-- If the table is empty before `Init`, then after it, whether or not `sigaction` succeeds, and after
-- any signals, the table has the handler for SIGUSR1 and SIGCHLD, a null pointer for each other
-- signal that came, and nothing else.
pub find_signal-announced :
    (j : ℕ) (ok : ℕ → Bool) (es : List (ℕ × Option ℕ)) (s : Signals)
    → s.signals ≡ []
    → find_signal j (announce_all es (init ok s)).signals
      ≡ (if is_set j then some signal_handler else if came j es then some null_function else none)
find_signal-announced j ok es s e =
    find_signal-announce_all j es (init ok s)
    ∙ rw (find_signal-init j ok s e) (elim (Bool-cases (is_set j)) [
      | inr n ↦ rw n refl
      | inl n ↦ rw n (elim (Bool-cases (came j es)) [ inl c ↦ rw c refl | inr c ↦ rw c refl ])
    ])
