-- ===== src/Heartbeat/Checks.antt =====
-- The checks of a round of ServerTimerQueueMonitorThread, as `procPingTimeOutChecking` decides on them.
use flydragon.Base.{
  ℕ, ◌+◌, ◌*◌, ◌≡◌, ◌⊎◌, refl, ap, subst, sym, ◌∙◌, List, [], ◌∷◌, ◌++◌, arith, inl, inr, none,
  some, Bool, true, false, ltb, ◌==◌, Bool-cases, eq_cases, eq→==, Option, contains,
}
use flydragon.State.{Timer, Conn, Server}
use flydragon.State.Memory.{free_memory}
use flydragon.Logic.{proc_ping_time_out_checking}
use flydragon.Close.{zd_closesocket_proc}
use flydragon.Close.Shut.{with_socket}
use flydragon.Close.Stale.{zd_closesocket_proc-Closed}
use flydragon.Close.Elsewhere.{
  Untouched, Untouched-refl, Untouched-trans, zd_closesocket_proc-Untouched,
}
use flydragon.Heartbeat.{check_all}

-- No heartbeat came for longer than three waiting times and ten seconds.
abbrev pub is_silent : ℕ → ℕ → Server → Bool
is_silent now j s = ltb ((s.conn j).last_ping_time + (s.wait_time * 3 + 10)) now

abbrev pub is_current : Timer → Server → Bool
is_current p s = p.sequence == (s.conn p.conn).sequence

-- The check of one entry either gives its connection up or does nothing but free its block.
pub check_cases :
    (now : ℕ) (p : Timer) (s : Server)
    → ((is_current p s ≡ true)
        × (is_silent now p.conn s ≡ true)
        × (proc_ping_time_out_checking now p s ≡ (
            let t = zd_closesocket_proc now p.conn s in
            record t { blocks = free_memory (some p) t.blocks })))
      ⊎ (((is_current p s ≡ false) ⊎ (is_silent now p.conn s ≡ false))
          × (proc_ping_time_out_checking now p s
              ≡ record s { blocks = free_memory (some p) s.blocks }))
unfolding proc_ping_time_out_checking
check_cases now p s = elim (Bool-cases (is_current p s)) [
  | inr c ↦ inr (inl c, rw c refl)
  | inl c ↦ elim (Bool-cases (is_silent now p.conn s)) [
    | inl q ↦ inl (c, q, rw (c, q) refl)
    | inr q ↦ inr (inr q, rw (c, q) refl)
  ]
]

-- The descriptor, if there is one, is among those that `close` was called for.
abbrev Has : Option ℕ → List ℕ → Type 0
Has none closed = Unit {0}
Has (some fd) closed = contains fd closed ≡ true

-- Connection `j` has no descriptor, and `close` was called for the one that it had.
abbrev pub IsShut : Option ℕ → ℕ → Server → Type 0
IsShut had j t = ((t.conn j).fd ≡ none) × Has had t.closed

Has-more : (o p : Option ℕ) (closed : List ℕ) → Has o closed → Has o (with_socket p closed)
unfolding contains
Has-more none p closed h = tt
Has-more (some fd) none closed h = h
Has-more (some fd) (some x) closed h = ground (arith, h)

Has-own : (o : Option ℕ) (closed : List ℕ) → Has o (with_socket o closed)
unfolding contains
Has-own none closed = tt
Has-own (some fd) closed = ground arith

zd_closesocket_proc-IsShut :
    (now i : ℕ) (s : Server) → IsShut (s.conn i).fd i (zd_closesocket_proc now i s)
zd_closesocket_proc-IsShut now i s =
    let c = zd_closesocket_proc-Closed now i s in
    (c.no_fd, subst (Has (s.conn i).fd) (sym c.shuts) (Has-own (s.conn i).fd s.closed))

-- No check forgets a descriptor that was closed.
check-Has :
    (now : ℕ) (o : Option ℕ) (p : Timer) (s : Server)
    → Has o s.closed
    → Has o (proc_ping_time_out_checking now p s).closed
check-Has now o p s h = elim (check_cases now p s) [
  | inr (_, e) ↦ rw e h
  | inl (_, _, e) ↦ rw e (
      subst (Has o) (sym (zd_closesocket_proc-Closed now p.conn s).shuts)
        (Has-more o (s.conn p.conn).fd s.closed h))
]

-- The connection is as it was, or its socket is closed.
KeptOrClosed : ℕ → Server → Server → Type 0
KeptOrClosed j s t = Untouched j s t ⊎ IsShut (s.conn j).fd j t

pub is_silent-Untouched :
    (now j : ℕ) (s t : Server) → Untouched j s t → is_silent now j t ≡ is_silent now j s
is_silent-Untouched now j s t u = rw (u.conn, u.wait) refl

module _ (now j : ℕ) where
  check_spared :
      (p : Timer) (s : Server)
      → is_silent now j s ≡ false
      → Untouched j s (proc_ping_time_out_checking now p s)
  check_spared p s h = elim (check_cases now p s) [
    | inr (_, e) ↦ rw e (record { conn = refl; wait = refl })
    | inl (c, q, e) ↦ elim (eq_cases p.conn j) [
      | inl o ↦ absurd (cc)
      | inr n ↦
          let u = zd_closesocket_proc-Untouched p.conn j n now s in
          rw e (record { conn = u.conn; wait = u.wait })
    ]
  ]

  check_either : (p : Timer) (s : Server) → KeptOrClosed j s (proc_ping_time_out_checking now p s)
  unfolding KeptOrClosed
  check_either p s = elim (check_cases now p s) [
    | inr (_, e) ↦ inl (rw e (record { conn = refl; wait = refl }))
    | inl (c, q, e) ↦ elim (eq_cases p.conn j) [
      | inl o ↦ inr (
          rw e (
            subst (λ (i : ℕ). IsShut (s.conn i).fd i (zd_closesocket_proc now p.conn s)) o
              (zd_closesocket_proc-IsShut now p.conn s)))
      | inr n ↦
          let u = zd_closesocket_proc-Untouched p.conn j n now s in
          inl (rw e (record { conn = u.conn; wait = u.wait }))
    ]
  ]

  pub check_all_spared :
      (ps : List Timer) (s : Server)
      → is_silent now j s ≡ false
      → Untouched j s (check_all now ps s)
  unfolding check_all
  check_all_spared [] s h = Untouched-refl
  check_all_spared (p ∷ ps) s h =
      let u = check_spared p s h in
      Untouched-trans u (check_all_spared ps _ (is_silent-Untouched now j s _ u ∙ h))

  check_all_closed :
      (had : Option ℕ) (ps : List Timer) (s : Server)
      → IsShut had j s
      → IsShut had j (check_all now ps s)
  unfolding check_all KeptOrClosed
  check_all_closed had [] s h = h
  check_all_closed had (p ∷ ps) s h = check_all_closed had ps _ (
    elim (check_either p s) [ inl u ↦ ap (λ (c : Conn). c.fd) u.conn ∙ h.0 | inr n ↦ n.0 ],
    check-Has now had p s h.1,
  )

check_kicks :
    (now : ℕ) (p : Timer) (s : Server)
    → p.sequence ≡ (s.conn p.conn).sequence
    → is_silent now p.conn s ≡ true
    → IsShut (s.conn p.conn).fd p.conn (proc_ping_time_out_checking now p s)
check_kicks now p s q h = elim (check_cases now p s) [
  | inl (_, _, e) ↦ rw e (zd_closesocket_proc-IsShut now p.conn s)
  | inr (inl c, _) ↦ absurd (cc (eq→== p.sequence (s.conn p.conn).sequence q, c))
  | inr (inr c, _) ↦ absurd (cc)
]

pub check_all_kicks :
    (now : ℕ) (ps : List Timer) (p : Timer) (qs : List Timer) (s : Server)
    → p.sequence ≡ (s.conn p.conn).sequence
    → is_silent now p.conn s ≡ true
    → IsShut (s.conn p.conn).fd p.conn (check_all now (ps ++ p ∷ qs) s)
unfolding check_all KeptOrClosed
check_all_kicks now [] p qs s q h =
    check_all_closed now p.conn (s.conn p.conn).fd qs _ (check_kicks now p s q h)
check_all_kicks now (x ∷ xs) p qs s q h = elim (check_either now p.conn x s) [
  | inl u ↦
      let t = proc_ping_time_out_checking now x s in
      subst (λ (c : Conn). IsShut c.fd p.conn (check_all now (xs ++ p ∷ qs) t)) u.conn
        (check_all_kicks now xs p qs t (q ∙ sym (ap (λ (c : Conn). c.sequence) u.conn))
          (is_silent-Untouched now p.conn s t u ∙ h))
  | inr n ↦ check_all_closed now p.conn (s.conn p.conn).fd (xs ++ p ∷ qs) _ n
]
