-- ===== src/Heartbeat/Kicks.antt =====
-- One round of ServerTimerQueueMonitorThread, as `procPingTimeOutChecking` decides on a connection.
use flydragon.Base.{
  ℕ, ◌+◌, ◌<◌, ◌≤◌, ◌≡◌, ◌⊎◌, refl, ap, subst, sym, ◌∙◌, List, [], ◌∷◌, ◌++◌, map, arith, length,
  inl, inr, some, true, false, ltb, Bool-cases, lt→ltb,
}
use flydragon.State.{Entry, Conn, Server}
use flydragon.Timer.{get_earliest_time}
use flydragon.Timer.Order.{IsSorted, NoneBefore, IsTimed}
use flydragon.Timer.Overdue.{due}
use flydragon.Close.Elsewhere.{Untouched}
use flydragon.Heartbeat.{collect, check_all, monitor_round}
use flydragon.Heartbeat.Collect.{collect_due}
use flydragon.Heartbeat.Checks.{
  is_silent, IsShut, is_silent-Untouched, check_all_spared, check_all_kicks,
}

-- An entry whose time is over is among those that are due.
due-append :
    (now : ℕ) (es₁ : List Entry) (e : Entry) (es₂ : List Entry)
    → e.time < now
    → due now (es₁ ++ e ∷ es₂) ≡ due now es₁ ++ e ∷ due now es₂
due-append now [] e es₂ h = ground arith
due-append now (x ∷ xs) e es₂ h = ground (arith, due-append now xs e es₂ h)

NoneBefore-le :
    (t : ℕ) (es₁ : List Entry) (e : Entry) (es₂ : List Entry)
    → NoneBefore t (es₁ ++ e ∷ es₂)
    → t ≤ e.time
NoneBefore-le t [] e es₂ h = h.0
NoneBefore-le t (x ∷ xs) e es₂ h = NoneBefore-le t xs e es₂ h.1

-- The head of the queue is no later.
head_le :
    (es₁ : List Entry) (e : Entry) (es₂ : List Entry)
    → IsSorted (es₁ ++ e ∷ es₂)
    → (t : ℕ) × (get_earliest_time (es₁ ++ e ∷ es₂) ≡ some t) × (t ≤ e.time)
unfolding get_earliest_time
head_le [] e es₂ h = (e.time, refl, omega arith)
head_le (x ∷ xs) e es₂ h = (x.time, refl, NoneBefore-le x.time xs e es₂ h.0)

length-insides : (es₁ : List Entry) (e : Entry) (es₂ : List Entry) → 0 < length (es₁ ++ e ∷ es₂)
length-insides [] e es₂ = omega arith
length-insides (x ∷ xs) e es₂ = omega arith

-- The timers of a list of checks, cut at one of them.
map-insides :
    (es₁ : List Entry) (e : Entry) (es₂ : List Entry)
    → map (λ (x : Entry). x.timer) (es₁ ++ e ∷ es₂)
      ≡ map (λ (x : Entry). x.timer) es₁ ++ e.timer ∷ map (λ (x : Entry). x.timer) es₂
map-insides [] e es₂ = refl
map-insides (x ∷ xs) e es₂ = ap (◌∷◌ x.timer) (map-insides xs e es₂)

-- If the queue is in order, counted and noted, the waiting time is not 0, and the queue has a check
-- whose time has passed, for a connection that has still the number of the check, then one round of
-- the monitor takes the descriptor from the connection, with `close` called for it, when it sent no heartbeat for longer than three
-- waiting times and ten seconds, and else leaves the connection as it is, whatever other checks are
-- due.
pub monitor_round-kicks :
    (now : ℕ) (s : Server) (es₁ : List Entry) (e : Entry) (es₂ : List Entry)
    → IsTimed s
    → 0 < s.wait_time
    → s.timer_queue ≡ es₁ ++ e ∷ es₂
    → e.time < now
    → e.timer.sequence ≡ (s.conn e.timer.conn).sequence
    → ((is_silent now e.timer.conn s ≡ true)
        × IsShut (s.conn e.timer.conn).fd e.timer.conn (monitor_round now s))
      ⊎ ((is_silent now e.timer.conn s ≡ false)
          × ((monitor_round now s).conn e.timer.conn ≡ s.conn e.timer.conn))
unfolding monitor_round
monitor_round-kicks now s es₁ e es₂ h w q lt current =
    let (t, first, le) = head_le es₁ e es₂ (subst IsSorted q h.sorted) in
    let noted = h.noted t (ap get_earliest_time q ∙ first) in
    let some_left : ltb 0 s.cur_size ≡ true =
      lt→ltb 0 s.cur_size (omega (arith, h.sized, ap length q, length-insides es₁ e es₂)) in
    let over : ltb s.timer_value now ≡ true = lt→ltb s.timer_value now (omega (arith, noted, le)) in
    let r = collect (length s.timer_queue + 1) now s in
    let c = collect_due now s h w in
    let j = e.timer.conn in
    let timers = map (λ (x : Entry). x.timer) in
    let taken : r.0 ≡ timers (due now es₁) ++ e.timer ∷ timers (due now es₂) =
      c.taken
      ∙ ap timers (ap (due now) q ∙ due-append now es₁ e es₂ lt)
      ∙ map-insides (due now es₁) e (due now es₂) in
    let u : Untouched j s r.1 = record { conn = ap (λ f. f j) c.conns; wait = c.wait } in
    let same = is_silent-Untouched now j s r.1 u in
    rw (some_left, over)
      (elim (Bool-cases (is_silent now j s)) [
        | inl quiet ↦ inl (
          quiet,
          rw taken (
              subst
                (λ (d : Conn).
                  IsShut d.fd j
                    (check_all now (timers (due now es₁) ++ e.timer ∷ timers (due now es₂)) r.1))
                u.conn
                (check_all_kicks now (timers (due now es₁)) e.timer (timers (due now es₂)) r.1
                  (current ∙ sym (ap (λ (c : Conn). c.sequence) u.conn)) (same ∙ quiet))),
        )
        | inr heard ↦ inr (heard, (check_all_spared now j r.0 r.1 (same ∙ heard)).conn ∙ u.conn)
      ])
