-- ===== src/Sound/Advance.antt =====
-- The sequence number of a connection, while another client connects.
use flydragon.Base.{
  ℕ, ◌+◌, ◌≤◌, ◌<◌, inl, inr, sym, subst, List, [], ◌∷◌, arith, Bool, true, false, ◌==◌, Bool-cases,
  Option-cases, eq_cases,
}
use flydragon.State.{Server}
use flydragon.Pool.{
  get_from, get_connection, free_connection, put_one_to_free, close_connection, new_connection,
  get_one_to_use,
}
use flydragon.Timer.{add_to_timer_queue}
use flydragon.Timer.Order.{set_timer_value_lem}
use flydragon.Epoll.{ctl_add, epollin, epollrdhup, oper_event}
use flydragon.Accept.{
  AcceptResult, accepted, no_accept4, other_error, Answers, set_handlers, register_connection,
  accept_connection, accept_plain, accept_four, event_accept,
}
use flydragon.Sound.Taking.{with_check}
use flydragon.Sound.Numbers.{Goes, Goes-refl, Goes-trans, same-Goes}

-- The number goes on, but not by more than `most`.
pub record Advances (j most : ℕ) (s t : Server) : Type 0 where
  pub count : ℕ
  pub goes : Goes j count s t
  pub few : count ≤ most

pub Advances-refl : (j most : ℕ) (s : Server) → Advances j most s s
Advances-refl j most s = record { count = 0; goes = Goes-refl j s; few = omega arith }

pub Advances-trans :
    {j a b : ℕ} {s t u : Server} → Advances j a s t → Advances j b t u → Advances j (a + b) s u
Advances-trans p q = record {
  count = p.count + q.count;
  goes = Goes-trans p.goes q.goes;
  few = omega (arith, p.few, q.few);
}

pub weaker : {j a b : ℕ} {s t : Server} → a ≤ b → Advances j a s t → Advances j b s t
weaker le p = record { count = p.count; goes = p.goes; few = omega (arith, le, p.few) }

pub stays : {j : ℕ} {s t : Server} (most : ℕ) → Goes j 0 s t → Advances j most s t
stays most g = record { count = 0; goes = g; few = omega arith }

module _ (j : ℕ) where
  get_from-Advances :
      (free : List ℕ) (fd now : ℕ) (s : Server)
      → j < s.next_conn
      → Advances j 1 s (get_from free fd now s).0
  unfolding get_from new_connection get_one_to_use
  get_from-Advances [] fd now s b = stays 1 (same-Goes j s _ (ground (arith, b)))
  get_from-Advances (i ∷ is) fd now s b = elim (eq_cases i j) [
    | inl e ↦ record { count = 1; goes = record { number = ground (arith, e) }; few = omega arith }
    | inr d ↦ stays 1 (same-Goes j s _ (ground (arith, d)))
  ]

  get_connection-Advances :
      (fd now : ℕ) (s : Server) → j < s.next_conn → Advances j 1 s (get_connection fd now s).0
  unfolding get_connection
  get_connection-Advances fd now s b = get_from-Advances s.freeconnection_list fd now s b

  free_connection-Advances : (i : ℕ) (s : Server) → Advances j 1 s (free_connection i s)
  unfolding free_connection put_one_to_free
  free_connection-Advances i s = elim (eq_cases i j) [
    | inl e ↦ record { count = 1; goes = record { number = ground (arith, e) }; few = omega arith }
    | inr d ↦ stays 1 (same-Goes j s _ (ground (arith, d)))
  ]

  close_connection-Advances : (i : ℕ) (s : Server) → Advances j 1 s (close_connection i s)
  unfolding close_connection
  close_connection-Advances i s =
      let t = free_connection i s in
      let a = free_connection-Advances i s in
      elim (Option-cases (t.conn i).fd) [
        | inl e ↦ rw (e, close_connection) a
        | inr (fd, e) ↦
            rw (e, close_connection)
              (Advances-trans {b = 0} {t = t} a (stays 0 (same-Goes j t _ (ground arith))))
      ]

  add_to_timer_queue-Goes : (now i : ℕ) (s : Server) → Goes j 0 s (add_to_timer_queue now i s)
  unfolding add_to_timer_queue
  add_to_timer_queue-Goes now i s =
      let (v, e, _) = set_timer_value_lem (with_check now i s) in
      subst (Goes j 0 s) (sym e) (record { number = omega arith })

  register_connection-Advances :
      (ok : Bool) (now old new : ℕ) (s : Server)
      → Advances j 1 s (register_connection ok now old new s)
  unfolding register_connection set_handlers oper_event
  register_connection-Advances ok now old new s =
      let t = (oper_event ctl_add (epollin + epollrdhup) 0 new ok (set_handlers old new s)).0 in
      let set : Advances j 0 s t = stays 0 (same-Goes j s t (ground arith)) in
      elim (Bool-cases ok) [
        | inr e ↦ rw e (Advances-trans set (close_connection-Advances new t))
        | inl e ↦ rw e (elim (Bool-cases (s.kick_time_count == 1)) [
          | inl q ↦ rw q (Advances-trans set (stays 1 (add_to_timer_queue-Goes now new t)))
          | inr q ↦ rw q (weaker (omega arith) set)
        ])
      ]

  accept_connection-Advances :
      (use_accept4 : Bool) (answers : Answers) (fd now old : ℕ) (s : Server)
      → j < s.next_conn
      → Advances j 2 s (accept_connection use_accept4 answers fd now old s)
  unfolding accept_connection
  accept_connection-Advances use_accept4 answers fd now old s b =
      let t = (get_connection fd now s).0 in
      let new = (get_connection fd now s).1 in
      let given = get_connection-Advances fd now s b in
      let registered =
        Advances-trans given (register_connection-Advances answers.ctl now old new t) in
      elim (Bool-cases use_accept4) [
        | inl e ↦ rw e registered
        | inr e ↦ rw e (elim (Bool-cases answers.nonblocking) [
          | inl n ↦ rw n registered
          | inr n ↦ rw n (Advances-trans given (close_connection-Advances new t))
        ])
      ]

  accept_plain-Advances :
      (answers : Answers) (r : AcceptResult) (now old : ℕ) (s : Server)
      → j < s.next_conn
      → Advances j 2 s (accept_plain answers r now old s)
  unfolding accept_plain
  accept_plain-Advances answers (accepted fd) now old s b =
      accept_connection-Advances false answers fd now old s b
  accept_plain-Advances answers no_accept4 now old s b = Advances-refl j 2 s
  accept_plain-Advances answers other_error now old s b = Advances-refl j 2 s

  accept_four-Advances :
      (answers : Answers) (r : AcceptResult) (now old : ℕ) (s : Server)
      → j < s.next_conn
      → Advances j 2 s (accept_four answers r now old s).0
  unfolding accept_four
  accept_four-Advances answers (accepted fd) now old s b =
      accept_connection-Advances true answers fd now old s b
  accept_four-Advances answers no_accept4 now old s b =
      accept_plain-Advances answers answers.accept now old s b
  accept_four-Advances answers other_error now old s b = Advances-refl j 2 s

  pub event_accept-Advances :
      (use_accept4 : Bool) (answers : Answers) (now old : ℕ) (s : Server)
      → j < s.next_conn
      → Advances j 2 s (event_accept use_accept4 answers now old s).0
  unfolding event_accept
  event_accept-Advances true answers now old s b =
      accept_four-Advances answers answers.accept4 now old s b
  event_accept-Advances false answers now old s b =
      accept_plain-Advances answers answers.accept now old s b
