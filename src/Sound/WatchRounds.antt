-- ===== src/Sound/WatchRounds.antt =====
-- The checks of the clients, while the recycling thread and the monitor make their rounds.
use flydragon.Base.{
  ℕ, zero, suc, ◌+◌, ◌^◌, ◌≤◌, ◌<◌, ◌≡◌, inl, inr, refl, ap, ◌∙◌, subst, sym, List, [], ◌∷◌, arith,
  length, Bool, true, false, ltb, ◌==◌, if◌then◌else◌, Bool-cases, Option-cases, eq_cases,
  is_positive,
}
use flydragon.State.{Timer, Conn, Server}
use flydragon.Pool.{
  free_connection, put_one_to_free, first_due, recycle, recy_scan, is_due, recy_round,
}
use flydragon.Pool.Owned.{occurs, first_due-occurs}
use flydragon.Logic.{proc_ping_time_out_checking}
use flydragon.Heartbeat.{collect, check_all, monitor_round}
use flydragon.Heartbeat.Collect.{Collects, Lists, collect_due}
use flydragon.Heartbeat.Checks.{check_cases}
use flydragon.Sound.{IsSound}
use flydragon.Sound.Closing.{zd_closesocket_proc-StaysSound}
use flydragon.Sound.Recycling.{recycle-IsSound}
use flydragon.Sound.Monitoring.{
  AreUsed, AreUsed-same, due-AreUsed, check-StaysSound, collected-IsSound,
}
use flydragon.Sound.Watched.{HasCheck, Watches, SameClient-HasCheck, closed-HasCheck}
use flydragon.Sound.Watching.{zd_closesocket_proc-Watches}

module _ {period last : ℕ} where
  recycle-Watches :
      (i : ℕ) (s : Server)
      → IsSound s
      → 0 < occurs i s.recyconnection_list
      → Watches period last s
      → Watches period last (recycle i s)
  unfolding recycle free_connection put_one_to_free
  recycle-Watches i s h o w = record {
    beats = w.beats;
    all = λ j. elim (eq_cases j i) [
      | inl q ↦ closed-HasCheck j _ (ground (arith, q, h.no_fd i (omega (arith, o))))
      | inr d ↦
          SameClient-HasCheck j s _
            (record {
              next = refl;
              writes = ground (arith, d);
              fd = ground (arith, d);
              number = ground (arith, d);
              checks = λ n. refl;
            })
            (w.all j)
    ];
  }

  recy_scan-Watches :
      (ready : Server → ℕ → Bool) (fuel : ℕ) (s : Server)
      → IsSound s
      → s.next_conn + 1 < 2 ^ 31
      → Watches period last s
      → Watches period last (recy_scan fuel ready s)
        × (IsSound (recy_scan fuel ready s) × ((recy_scan fuel ready s).next_conn ≡ s.next_conn))
  unfolding recy_scan recycle free_connection
  recy_scan-Watches ready zero s h room w = (w, (h, refl))
  recy_scan-Watches ready (suc fuel) s h room w =
      elim (Option-cases (first_due (ready s) s.recyconnection_list)) [
        | inl e ↦ rw (e, recy_scan) (w, (h, refl))
        | inr (i, e) ↦
            let o = first_due-occurs (ready s) s.recyconnection_list i e in
            rw (e, recy_scan)
              (recy_scan-Watches ready fuel (recycle i s) (recycle-IsSound i s h room o) room
                (recycle-Watches i s h o w))
      ]

  maybe_scan-Watches :
      (ready : Server → ℕ → Bool) (fuel : ℕ) (positive : Bool) (s : Server)
      → IsSound s
      → s.next_conn + 1 < 2 ^ 31
      → Watches period last s
      → Watches period last (if positive then recy_scan fuel ready s else s)
        × (IsSound (if positive then recy_scan fuel ready s else s)
            × ((if positive then recy_scan fuel ready s else s).next_conn ≡ s.next_conn))
  maybe_scan-Watches ready fuel true s h room w = recy_scan-Watches ready fuel s h room w
  maybe_scan-Watches ready fuel false s h room w = (w, (h, refl))

  -- What is recycled has no socket.
  pub recy_round-Watches :
      (now : ℕ) (s : Server)
      → IsSound s
      → s.next_conn + 1 < 2 ^ 31
      → Watches period last s
      → Watches period last (recy_round now s).0
  unfolding recy_round
  recy_round-Watches now s h room w =
      let (w₁, (h₁, n₁)) =
        maybe_scan-Watches (is_due now) (length s.recyconnection_list)
          (is_positive s.total_recyconnection_n) s h room w in
      let (w₂, _) = maybe_scan-Watches (λ _ _. true) _ _ _ h₁ (omega (arith, n₁, room)) w₁ in
      elim (Bool-cases (s.stop_event == 1)) [ inl e ↦ rw e w₂ | inr e ↦ rw e w₁ ]

  -- A block of memory more or less.
  freed_block :
      (b : ℕ) (t : Server) → Watches period last t → Watches period last (record t { blocks = b })
  unfolding HasCheck
  freed_block b t w = record {
    beats = w.beats;
    all = λ j c.
        w.all j (record { exists = c.exists; writes = c.writes; fd = c.fd; socket = c.socket });
  }

  check-Watches :
      (now : ℕ) (p : Timer) (s : Server)
      → IsSound s
      → s.next_conn + 1 < 2 ^ 31
      → (occurs p.conn s.freeconnection_list ≡ 0) × (p.conn < s.next_conn)
      → Watches period last s
      → Watches period last (proc_ping_time_out_checking now p s)
  check-Watches now p s h room used w = elim (check_cases now p s) [
    | inl (_, _, e) ↦
        let r = zd_closesocket_proc-StaysSound now p.conn s h room used.1 used.0 in
        rw e (freed_block _ _ (zd_closesocket_proc-Watches now p.conn s h r w))
    | inr (_, e) ↦ rw e (freed_block _ s w)
  ]

  check_all-Watches :
      (now : ℕ) (ps : List Timer) (s : Server)
      → IsSound s
      → s.next_conn + 1 < 2 ^ 31
      → AreUsed s ps
      → Watches period last s
      → Watches period last (check_all now ps s)
  unfolding check_all
  check_all-Watches now [] s h room used w = w
  check_all-Watches now (p ∷ ps) s h room used w =
      let a = check-StaysSound now p s h room used.0 in
      let t = proc_ping_time_out_checking now p s in
      check_all-Watches now ps t a.sound (omega (arith, a.next, room))
        (AreUsed-same s t ps a.free a.next used.1) (check-Watches now p s h room used.0 w)

  -- The checks that are due are put back for the next time.
  collected-Watches :
      (now : ℕ) (s : Server) (r : List Timer × Server)
      → now + period ≤ last
      → Collects now s r
      → Watches period last s
      → Watches period last r.1
  unfolding HasCheck
  collected-Watches now s r le c w = record {
    beats = (
      ap (λ (l : Lists). l.5) c.lists ∙ w.beats.0,
      c.wait ∙ w.beats.1,
      c.none_late last (omega (arith, le, w.beats.1)) w.beats.2,
    );
    all = λ j.
        SameClient-HasCheck j s r.1
          (record {
            next = ap (λ (l : Lists). l.0) c.lists;
            writes = ap (λ (f : ℕ → Conn). (f j).whandler) c.conns;
            fd = ap (λ (f : ℕ → Conn). (f j).fd) c.conns;
            number = ap (λ (f : ℕ → Conn). (f j).sequence) c.conns;
            checks = c.same_current j;
          })
          (w.all j);
  }

  pub monitor_round-Watches :
      (now : ℕ) (s : Server)
      → now + period ≤ last
      → IsSound s
      → s.next_conn + 1 < 2 ^ 31
      → Watches period last s
      → Watches period last (monitor_round now s)
  unfolding monitor_round
  monitor_round-Watches now s le h room w =
      let r = collect (length s.timer_queue + 1) now s in
      let c = collect_due now s h.timed h.waits in
      let next : r.1.next_conn ≡ s.next_conn = ap (λ (l : Lists). l.0) c.lists in
      let free : r.1.freeconnection_list ≡ s.freeconnection_list =
        ap (λ (l : Lists). l.1) c.lists in
      let used =
        AreUsed-same s r.1 r.0 free next (
          subst (AreUsed s) (sym c.taken) (due-AreUsed now s s.timer_queue h (λ i. omega arith))) in
      let a =
        check_all-Watches now r.0 r.1 (collected-IsSound now s r h c) (omega (arith, next, room))
          used (collected-Watches now s r le c w) in
      elim (Bool-cases (ltb 0 s.cur_size)) [
        | inr e ↦ rw e w
        | inl e ↦
            rw e (elim (Bool-cases (ltb s.timer_value now)) [ inr q ↦ rw q w | inl q ↦ rw q a ])
      ]
