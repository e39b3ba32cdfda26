-- ===== src/Sound/Monitoring.antt =====
-- A round of ServerTimerQueueMonitorThread in a sound state.
use flydragon.Base.{
  ℕ, ◌+◌, ◌^◌, ◌≤◌, ◌<◌, ◌≡◌, inl, inr, refl, sym, ap, ◌∙◌, subst, List, [], ◌∷◌, map, arith,
  length, ltb, leb, Bool-cases,
}
use flydragon.State.{Timer, Entry, Server}
use flydragon.Pool.Owned.{IsPooled-same, occurs}
use flydragon.Timer.Order.{IsTimed-same, checks}
use flydragon.Timer.Overdue.{due}
use flydragon.Logic.{proc_ping_time_out_checking}
use flydragon.Heartbeat.{collect, check_all, monitor_round}
use flydragon.Heartbeat.Collect.{Collects, Lists, collect_due}
use flydragon.Heartbeat.Checks.{check_cases}
use flydragon.Sound.{IsSound, KeepsSound, Keeps-IsSound}
use flydragon.Sound.Closing.{StaysSound, zd_closesocket_proc-StaysSound}

-- The state with the lists of another one.
abbrev with_lists : Server → Lists → Server
with_lists t (next, free, recy, free_n, recy_n, kicks, delay, stop) = record t {
  next_conn = next;
  freeconnection_list = free;
  recyconnection_list = recy;
  free_connection_n = free_n;
  total_recyconnection_n = recy_n;
  kick_time_count = kicks;
  recy_wait_time = delay;
  stop_event = stop;
}

empty_queue : (es : List Entry) → length es ≡ 0 → es ≡ []
empty_queue [] h = refl
empty_queue (e ∷ es) h = absurd (omega arith)

pub collected-IsSound :
    (now : ℕ) (s : Server) (r : List Timer × Server) → IsSound s → Collects now s r → IsSound r.1
collected-IsSound now s r h c =
    subst (λ (l : Lists). IsSound (with_lists r.1 l)) (sym c.lists)
      (record {
        pooled = IsPooled-same refl h.pooled;
        timed = IsTimed-same refl c.timed;
        once = λ i. omega (arith, h.once i, c.same_checks i);
        exists = λ i le. omega (arith, h.exists i le, c.same_checks i);
        no_fd = λ i w. rw c.conns (h.no_fd i w);
        armed = elim h.armed [
          | inl k ↦ inl k
          | inr q ↦ inr (empty_queue r.1.timer_queue (c.kept ∙ ap length q))
        ];
        waits = omega (arith, h.waits, c.wait);
        writes = λ i le. rw c.conns (h.writes i le);
      })

-- The connections of some checks exist and are not free.
abbrev pub AreUsed : Server → List Timer → Type 0
AreUsed s [] = Unit {0}
AreUsed s (p ∷ ps) =
    ((occurs p.conn s.freeconnection_list ≡ 0) × (p.conn < s.next_conn)) × AreUsed s ps

pub due-AreUsed :
    (now : ℕ) (s : Server) (es : List Entry)
    → IsSound s
    → ((i : ℕ) → checks i es ≤ checks i s.timer_queue)
    → AreUsed s (map (λ e. e.timer) (due now es))
due-AreUsed now s [] h le = tt
due-AreUsed now s (e ∷ es) h le =
    let rest = due-AreUsed now s es h (λ i. ground (arith, le i)) in
    let j = e.timer.conn in
    let one : 0 < checks j s.timer_queue = ground (arith, le j) in
    elim (Bool-cases (leb e.time now)) [
      | inr q ↦ rw q rest
      | inl q ↦ rw q ((omega (arith, h.once j, one), exists_if (h.exists j) one), rest)
    ]
  where
    exists_if : {a b c : ℕ} → (a ≤ b → c ≡ 0) → 0 < c → b < a
    exists_if g o = grind (arith, g)

-- A block of memory more or less.
freed_block :
    {s : Server} (t : Server) (b : ℕ) → StaysSound s t → StaysSound s (record t { blocks = b })
freed_block t b r = record {
  sound = Keeps-IsSound t _ (λ j. record { held = refl; pools = refl }) r.sound;
  free = r.free;
  next = r.next;
}

pub check-StaysSound :
    (now : ℕ) (p : Timer) (s : Server)
    → IsSound s
    → s.next_conn + 1 < 2 ^ 31
    → (occurs p.conn s.freeconnection_list ≡ 0) × (p.conn < s.next_conn)
    → StaysSound s (proc_ping_time_out_checking now p s)
check-StaysSound now p s h room used = elim (check_cases now p s) [
  | inl (_, _, e) ↦
      let r = zd_closesocket_proc-StaysSound now p.conn s h room used.1 used.0 in
      rw e (freed_block _ _ r)
  | inr (_, e) ↦ rw e (freed_block s _ (record { sound = h; free = refl; next = refl }))
]

pub AreUsed-same :
    (s t : Server) (ps : List Timer)
    → t.freeconnection_list ≡ s.freeconnection_list
    → t.next_conn ≡ s.next_conn
    → AreUsed s ps
    → AreUsed t ps
AreUsed-same s t [] f n h = tt
AreUsed-same s t (p ∷ ps) f n h =
    ((ap (occurs p.conn) f ∙ h.0.0, omega (arith, n, h.0.1)), AreUsed-same s t ps f n h.1)

check_all-StaysSound :
    (now : ℕ) (ps : List Timer) (s : Server)
    → IsSound s
    → s.next_conn + 1 < 2 ^ 31
    → AreUsed s ps
    → StaysSound s (check_all now ps s)
unfolding check_all
check_all-StaysSound now [] s h room used = record { sound = h; free = refl; next = refl }
check_all-StaysSound now (p ∷ ps) s h room used =
    let a = check-StaysSound now p s h room used.0 in
    let t = proc_ping_time_out_checking now p s in
    let b =
      check_all-StaysSound now ps t a.sound (omega (arith, a.next, room))
        (AreUsed-same s t ps a.free a.next used.1) in
    record { sound = b.sound; free = b.free ∙ a.free; next = b.next ∙ a.next }

-- In a sound state in which the connections can be counted, a round of the monitor, whatever it
-- gives up, leaves the state sound.
pub monitor_round-KeepsSound :
    (now : ℕ) (s : Server)
    → IsSound s
    → s.next_conn + 1 < 2 ^ 31
    → KeepsSound s (monitor_round now s)
unfolding monitor_round
monitor_round-KeepsSound now s h room =
    let same : KeepsSound s s = record { sound = h; next = omega arith } in
    let r = collect (length s.timer_queue + 1) now s in
    let c = collect_due now s h.timed h.waits in
    let next : r.1.next_conn ≡ s.next_conn = ap (λ (l : Lists). l.0) c.lists in
    let free : r.1.freeconnection_list ≡ s.freeconnection_list = ap (λ (l : Lists). l.1) c.lists in
    let used =
      AreUsed-same s r.1 r.0 free next
        (subst (AreUsed s) (sym c.taken) (due-AreUsed now s s.timer_queue h (λ i. omega arith))) in
    let a =
      check_all-StaysSound now r.0 r.1 (collected-IsSound now s r h c) (omega (arith, next, room))
        used in
    elim (Bool-cases (ltb 0 s.cur_size)) [
      | inr e ↦ rw e same
      | inl e ↦ rw e (elim (Bool-cases (ltb s.timer_value now)) [
        | inr q ↦ rw q same
        | inl q ↦ rw q (record { sound = a.sound; next = omega (arith, a.next, next) })
      ])
    ]
