-- ===== src/Close/Stale.antt =====
-- What `zdClosesocketProc` leaves of a connection.
use flydragon.Base.{
  ℕ, ◌+◌, ◌≡◌, inl, inr, sym, ap, ◌∙◌, Option, List, [], ◌∷◌, ◌++◌, none, true, false, arith,
  contains, u64, increment, Bool-cases,
}
use flydragon.State.{Server}
use flydragon.Pool.{in_recy_connect_queue}
use flydragon.Close.{zd_closesocket_proc}
use flydragon.Close.Shut.{settings_of, with_socket, Before, shut, shut_lem}

-- Connection `i` is given up: its socket, if it has one, is closed by `close`, and no other; if it did not wait for the pool yet, it does
-- from `now` on, under the next sequence number; else its place, its number and its time stay. The
-- settings of the recycling stay.
pub record Closed (now i : ℕ) (s t : Server) : Type 0 where
  pub no_fd : (t.conn i).fd ≡ none
  pub shuts : t.closed ≡ with_socket (s.conn i).fd s.closed
  pub first :
      contains i s.recyconnection_list ≡ false
      → ((t.conn i).sequence ≡ u64 ((s.conn i).sequence + 1))
        × ((t.conn i).in_recy_time ≡ now)
        × (t.recyconnection_list ≡ s.recyconnection_list ++ i ∷ [])
        × (t.total_recyconnection_n ≡ increment s.total_recyconnection_n)
  pub again :
      contains i s.recyconnection_list ≡ true
      → ((t.conn i).sequence ≡ (s.conn i).sequence)
        × ((t.conn i).in_recy_time ≡ (s.conn i).in_recy_time)
        × (t.recyconnection_list ≡ s.recyconnection_list)
        × (t.total_recyconnection_n ≡ s.total_recyconnection_n)
  pub settings : settings_of t ≡ settings_of s

recy_lem :
    (now i : ℕ) (s t : Server)
    → Before i s t
    → (t.conn i).fd ≡ none
    → Closed now i s (in_recy_connect_queue now i t)
unfolding in_recy_connect_queue
recy_lem now i s t b e =
    let shuts : t.closed ≡ with_socket (s.conn i).fd s.closed =
      sym (ap (λ (o : Option ℕ). with_socket o t.closed) e) ∙ b.shuts in
    elim (Bool-cases (contains i t.recyconnection_list)) [
      | inl c ↦ rw c (record {
        no_fd = e;
        shuts = shuts;
        first = λ n. absurd (cc (b.queue, c, n));
        again = λ n. (b.sequence, b.time, b.queue, b.count);
        settings = b.settings;
      })
      | inr c ↦ rw c (record {
        no_fd = ground (arith, e);
        shuts = shuts;
        first = λ n. (
          ground (arith, b),
          ground arith,
          ap (λ (q : List ℕ). q ++ i ∷ []) b.queue,
          ap increment b.count,
        );
        again = λ n. absurd (cc (b.queue, c, n));
        settings = b.settings;
      })
    ]

-- When the server gives a connection up, `close` is called for its descriptor, if it has one, and for no
-- other, and it has none afterwards. The first time it goes to the end of
-- the queue of those to be recycled, at the present time and under the next sequence number; when
-- it is there already, its place, its number, its time and the count stay. The time that connections
-- wait stays, and so does the mark that ends the program.
pub zd_closesocket_proc-Closed :
    (now i : ℕ) (s : Server) → Closed now i s (zd_closesocket_proc now i s)
unfolding zd_closesocket_proc
zd_closesocket_proc-Closed now i s = recy_lem now i s (shut i s) (shut_lem i s).0 (shut_lem i s).1
