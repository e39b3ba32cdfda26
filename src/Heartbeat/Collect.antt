-- ===== src/Heartbeat/Collect.antt =====
-- The inner loop of ServerTimerQueueMonitorThread over the checks that are due.
use flydragon.Base.{
  ℕ, zero, suc, ◌+◌, ◌≤◌, ◌<◌, ◌≡◌, refl, ap, subst, Option, sym, ◌∙◌, List, [], ◌∷◌, map, arith,
  length, inl, inr,
}
use flydragon.State.{Timer, Entry, Server}
use flydragon.Timer.{insert}
use flydragon.Timer.Order.{IsTimed, length-insert, checks, checks-insert}
use flydragon.Timer.Overdue.{
  due, due-insert, due_cases, renewed, get_over_time_timer_due, get_over_time_timer-none,
}
use flydragon.Timer.Current.{current, current-insert, late, late-insert}
use flydragon.Heartbeat.{collect}

-- What of the pool and the settings no check reads.
abbrev pub Lists : Type 0
Lists = ℕ × List ℕ × List ℕ × ℕ × ℕ × ℕ × ℕ × ℕ

abbrev pub lists_of : Server → Lists
lists_of s = (
  s.next_conn, s.freeconnection_list, s.recyconnection_list, s.free_connection_n,
  s.total_recyconnection_n, s.kick_time_count, s.recy_wait_time, s.stop_event,
)

-- What the loop leaves: the due checks in order, none that is due in the queue, as many checks as
-- before, in all, for each connection and under each number, none later than one that is queued now or
-- was there, and the connections, the pool and the settings as they were.
pub record Collects (now : ℕ) (s : Server) (r : List Timer × Server) : Type 0 where
  pub taken : r.0 ≡ map (λ e. e.timer) (due now s.timer_queue)
  pub none_left : due now r.1.timer_queue ≡ []
  pub timed : IsTimed r.1
  pub kept : length r.1.timer_queue ≡ length s.timer_queue
  pub conns : r.1.conn ≡ s.conn
  pub wait : r.1.wait_time ≡ s.wait_time
  pub lists : lists_of r.1 ≡ lists_of s
  pub same_current : (i q : ℕ) → current i q r.1.timer_queue ≡ current i q s.timer_queue
  pub none_late :
      (last : ℕ)
      → now + s.wait_time ≤ last
      → late last s.timer_queue ≡ 0
      → late last r.1.timer_queue ≡ 0
  pub same_checks : (i : ℕ) → checks i r.1.timer_queue ≡ checks i s.timer_queue

due-cons :
    (now : ℕ) (e : Entry) (es : List Entry) → e.time ≤ now → due now (e ∷ es) ≡ e ∷ due now es
due-cons now e es h = ground arith

pub collect-Collects :
    (fuel now : ℕ) (s : Server)
    → IsTimed s
    → 0 < s.wait_time
    → length (due now s.timer_queue) < fuel
    → Collects now s (collect fuel now s)
unfolding collect
collect-Collects zero now s h w f = absurd (omega arith)
collect-Collects (suc fuel) now s h w f = elim (due_cases now s.timer_queue h.sorted) [
  | inl (d, c) ↦
      let g = get_over_time_timer-none now s h c in
      rw (g, collect)
        (rw g (record {
          taken = rw d;
          none_left = d;
          timed = h;
          kept = refl;
          conns = refl;
          wait = refl;
          lists = refl;
          same_current = λ i q. refl;
          none_late = λ last le l. l;
          same_checks = λ i. refl;
        }))
  | inr (e, es, q, le) ↦
      let (v, eq, timed) = get_over_time_timer_due now s e es h q le in
      let rest : due now s.timer_queue ≡ e ∷ due now es = ap (due now) q ∙ due-cons now e es le in
      let same = due-insert now (renewed now s e.timer) es (omega arith) in
      let n = length-insert (renewed now s e.timer) es in
      let c =
        collect-Collects fuel now (later s e es v)
          (subst (λ (r : Option Timer × Server). IsTimed r.1) eq timed) w
          (omega (arith, ap length rest, ap length same)) in
      rw (eq, collect)
        (rw eq (record {
          taken =
              ap (◌∷◌ e.timer) (c.taken ∙ ap (map (λ (x : Entry). x.timer)) same)
              ∙ sym (ap (map (λ (x : Entry). x.timer)) rest);
          none_left = c.none_left;
          timed = c.timed;
          kept = omega (arith, c.kept, n, ap length q);
          conns = c.conns;
          wait = c.wait;
          lists = c.lists;
          same_current = λ i n. omega (
            arith,
            c.same_current i n,
            current-insert i n (renewed now s e.timer) es,
            ap (current i n) q,
          );
          none_late = λ last le l. c.none_late last le (
              ground (arith, le, l, late-insert last (renewed now s e.timer) es, ap (late last) q));
          same_checks = λ i.
              omega (
                arith,
                c.same_checks i,
                checks-insert i (renewed now s e.timer) es,
                ap (checks i) q,
              );
        }))
]
  where
    later : Server → Entry → List Entry → ℕ → Server
    later s e es v = record s {
      timer_queue = insert (renewed now s e.timer) es;
      blocks = s.blocks + 1;
      timer_value = v;
    }

length-due-le : (now : ℕ) (es : List Entry) → length (due now es) ≤ length es
length-due-le now [] = omega arith
length-due-le now (e ∷ es) = ground (arith, length-due-le now es)

-- If the queue is in order, counted and noted and the waiting time is not 0, then the loop of the
-- monitor ends by its test: it has taken out all the checks that were due, in key order, none in the
-- queue is due, the queue has as many checks as before, in all, for each connection, and for each
-- connection under each number, and is in order, counted and noted; if no check was after some time
-- that is at least the waiting time from now, none is; the connections, the pool and the settings are
-- as they were.
pub collect_due :
    (now : ℕ) (s : Server)
    → IsTimed s
    → 0 < s.wait_time
    → Collects now s (collect (length s.timer_queue + 1) now s)
collect_due now s h w =
    collect-Collects (length s.timer_queue + 1) now s h w
      (omega (arith, length-due-le now s.timer_queue))
