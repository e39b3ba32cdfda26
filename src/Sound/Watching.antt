-- ===== src/Sound/Watching.antt =====
-- The checks of the clients, while connections are given up and taken.
use flydragon.Base.{
  ℕ, ◌≤◌, ◌+◌, ◌≡◌, inl, inr, refl, sym, ap, ◌∙◌, subst, List, [], ◌∷◌, none, some, arith,
  Option-cases, eq_cases, update, update_ne,
}
use flydragon.State.{Conn, Server}
use flydragon.Pool.{
  get_from, get_connection, free_connection, put_one_to_free, close_connection, new_connection,
  get_one_to_use,
}
use flydragon.Timer.{add_to_timer_queue}
use flydragon.Timer.Order.{set_timer_value_lem}
use flydragon.Timer.Current.{current, current-insert, late-insert}
use flydragon.Close.{zd_closesocket_proc}
use flydragon.Close.Stale.{zd_closesocket_proc-Closed}
use flydragon.Close.Elsewhere.{zd_closesocket_proc-Untouched}
use flydragon.Sound.{IsSound}
use flydragon.Sound.Closing.{StaysSound}
use flydragon.Sound.Taking.{with_check, check_for}
use flydragon.Sound.Watched.{
  IsClient, HasCheck, WatchesBut, Watches, SameClient-HasCheck, closed-HasCheck,
  zd_closesocket_proc-SameChecks,
}

module _ {period last : ℕ} where
  -- Giving up a connection takes only its own checks.
  pub zd_closesocket_proc-Watches :
      (now i : ℕ) (s : Server)
      → IsSound s
      → StaysSound s (zd_closesocket_proc now i s)
      → Watches period last s
      → Watches period last (zd_closesocket_proc now i s)
  zd_closesocket_proc-Watches now i s h r w =
      let t = zd_closesocket_proc now i s in
      let same = zd_closesocket_proc-SameChecks now i (i + 1) s (omega arith) h.timed in
      record {
        beats = (same.on ∙ w.beats.0, same.wait ∙ w.beats.1, same.none_late last w.beats.2);
        all = λ j. elim (eq_cases i j) [
          | inl e ↦
              closed-HasCheck j t (
                subst (λ (k : ℕ). (t.conn k).fd ≡ none) e
                  (zd_closesocket_proc-Closed now i s).no_fd)
          | inr d ↦
              let c = (zd_closesocket_proc-Untouched i j d now s).conn in
              SameClient-HasCheck j s t
                (record {
                  next = r.next;
                  writes = ap (λ (c : Conn). c.whandler) c;
                  fd = ap (λ (c : Conn). c.fd) c;
                  number = ap (λ (c : Conn). c.sequence) c;
                  checks = (zd_closesocket_proc-SameChecks now i j s d h.timed).checks;
                })
                (w.all j)
        ];
      }

  get_from-WatchesBut :
      (free : List ℕ) (fd now : ℕ) (s : Server)
      → Watches period last s
      → WatchesBut period last (get_from free fd now s).1 (get_from free fd now s).0
  unfolding get_from HasCheck
  get_from-WatchesBut [] fd now s w = record {
    beats = w.beats;
    others = λ j d c.
        let same : update s.conn s.next_conn
              (record (get_one_to_use now new_connection) { fd = some fd }) j
            ≡ s.conn j =
          update_ne s.conn s.next_conn _ j (λ e. d (sym e)) in
        let before : IsClient j s = record {
          exists = omega (arith, c.exists, d);
          writes = sym (ap (λ (c : Conn). c.whandler) same) ∙ c.writes;
          fd = c.fd;
          socket = sym (ap (λ (c : Conn). c.fd) same) ∙ c.socket;
        } in
        omega (arith, w.all j before, ap (λ (c : Conn). current j c.sequence s.timer_queue) same);
  }
  get_from-WatchesBut (i ∷ is) fd now s w = record {
    beats = w.beats;
    others = λ j d.
        let same : update s.conn i (record (get_one_to_use now (s.conn i)) { fd = some fd }) j
            ≡ s.conn j =
          update_ne s.conn i _ j (λ e. d (sym e)) in
        SameClient-HasCheck j s _
          (record {
            next = refl;
            writes = ap (λ (c : Conn). c.whandler) same;
            fd = ap (λ (c : Conn). c.fd) same;
            number = ap (λ (c : Conn). c.sequence) same;
            checks = λ n. refl;
          })
          (w.all j);
  }

  -- The connection that is given out is still without a check.
  pub get_connection-WatchesBut :
      (fd now : ℕ) (s : Server)
      → Watches period last s
      → WatchesBut period last (get_connection fd now s).1 (get_connection fd now s).0
  unfolding get_connection
  get_connection-WatchesBut fd now s w = get_from-WatchesBut s.freeconnection_list fd now s w

  -- It is closed, so that it needs none.
  pub close_connection-Watches :
      (i : ℕ) (s : Server) → WatchesBut period last i s → Watches period last (close_connection i s)
  unfolding close_connection free_connection put_one_to_free
  close_connection-Watches i s w = elim (Option-cases ((free_connection i s).conn i).fd) [
    | inl e ↦
        rw (e, close_connection)
          (record {
            beats = w.beats;
            all = λ j. elim (eq_cases j i) [
              | inl q ↦
                  closed-HasCheck j _
                    (subst (λ (k : ℕ). ((free_connection i s).conn k).fd ≡ none) (sym q) e)
              | inr d ↦
                  SameClient-HasCheck j s _
                    (record {
                      next = refl;
                      writes = ground (arith, d);
                      fd = ground (arith, d);
                      number = ground (arith, d);
                      checks = λ n. refl;
                    })
                    (w.others j d)
            ];
          })
    | inr (fd, e) ↦
        rw (e, close_connection)
          (record {
            beats = w.beats;
            all = λ j. elim (eq_cases j i) [
              | inl q ↦ closed-HasCheck j _ (ground (arith, q))
              | inr d ↦
                  SameClient-HasCheck j s _
                    (record {
                      next = refl;
                      writes = ground (arith, d);
                      fd = ground (arith, d);
                      number = ground (arith, d);
                      checks = λ n. refl;
                    })
                    (w.others j d)
            ];
          })
  ]

  -- Its check is added.
  pub add_to_timer_queue-Watches :
      (now i : ℕ) (s : Server)
      → now + period ≤ last
      → WatchesBut period last i s
      → Watches period last (add_to_timer_queue now i s)
  unfolding add_to_timer_queue HasCheck
  add_to_timer_queue-Watches now i s le w =
      let (v, e, _) = set_timer_value_lem (with_check now i s) in
      let q = s.timer_queue in
      subst (Watches period last) (sym e) (record {
        beats = (
          w.beats.0,
          w.beats.1,
          ground (arith, le, w.beats.1, w.beats.2, late-insert last (check_for now i s) q),
        );
        all = λ j c. elim (eq_cases j i) [
          | inl k ↦
              let new = current-insert j (s.conn j).sequence (check_for now i s) q in
              ground (arith, new, k, ap (λ (k : ℕ). (s.conn k).sequence) k)
          | inr d ↦
              let before : IsClient j s = record {
                exists = c.exists;
                writes = c.writes;
                fd = c.fd;
                socket = c.socket;
              } in
              let new = current-insert j (s.conn j).sequence (check_for now i s) q in
              omega (arith, new, w.others j d before)
        ];
      })
