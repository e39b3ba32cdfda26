-- ===== src/Send/Finishes.antt =====
-- A message that waits for its socket, while the socket becomes writable again and again.
use flydragon.Base.{
  ℕ, zero, suc, ◌≡◌, ◌<◌, ◌≤◌, ◌⊎◌, inl, inr, sym, ap, ◌∙◌, [], ◌++◌, Option, Bool, arith, eq_cases,
  append-nil,
}
use flydragon.Epoll.{oper_event}
use flydragon.State.{Msg, Server}
use flydragon.Send.{
  SendCall, sent, sendproc, put_on_wire, finish_message, write_done, after_write,
  write_request_handler,
}
use flydragon.Send.Stream.{Idle, Busy, Takes, pending, pending_of}
use flydragon.Send.Writable.{write_request_handler-Takes}

-- The first `n` notifications that the socket of connection `j` is writable.
abbrev pub writes : ℕ → (ℕ → SendCall × Bool) → ℕ → Server → Server
writes zero calls j s = s
writes (suc n) calls j s =
    writes n (λ k. calls (suc k)) j (write_request_handler (calls 0).0 (calls 0).1 j s)

-- `send` takes a byte or more, and no more than is left.
abbrev pub IsProgress : SendCall → ℕ → Type 0
IsProgress call left = (k : ℕ) × (sendproc call ≡ sent k) × (0 < k) × (k ≤ left)

-- While connection `j` waits for its socket, each of as many notifications as it has bytes left brings
-- it forward.
abbrev pub Progresses : (ℕ → SendCall × Bool) → ℕ → Server → Type 0
Progresses calls j s =
    (n : ℕ) (m : Msg)
    → n < (s.conn j).isendlen
    → Busy ((writes n calls j s).conn j) m
    → IsProgress (calls n).0 ((writes n calls j s).conn j).isendlen

finishing :
    (i : ℕ) (s : Server) (m : Msg) (ok : Bool) (n : ℕ)
    → Busy (s.conn i) m
    → n ≡ (s.conn i).isendlen
    → Idle ((after_write (sent n) ok i (put_on_wire (sent n) i s)).conn i)
unfolding after_write put_on_wire write_done finish_message oper_event
finishing i s m ok n b same = record { throws = ground (arith, b); nothing = ground (arith, b) }

going_on :
    (i : ℕ) (s : Server) (m : Msg) (ok : Bool) (n : ℕ)
    → Busy (s.conn i) m
    → 0 < n
    → n < (s.conn i).isendlen
    → let t = after_write (sent n) ok i (put_on_wire (sent n) i s) in
      Busy (t.conn i) m × ((t.conn i).isendlen < (s.conn i).isendlen) × (0 < (t.conn i).isendlen)
unfolding after_write put_on_wire
going_on i s m ok n b some_sent less = (
  record { throws = ground (arith, b); holds = ground (arith, b); wants = ground (arith, b) },
  ground (arith, b),
  ground (arith, b),
)

-- One notification ends the message or leaves less of it.
write_step :
    (call : SendCall) (ok : Bool) (i : ℕ) (s : Server) (m : Msg)
    → Busy (s.conn i) m
    → IsProgress call (s.conn i).isendlen
    → let t = write_request_handler call ok i s in
      Idle (t.conn i)
      ⊎ (Busy (t.conn i) m
          × ((t.conn i).isendlen < (s.conn i).isendlen)
          × (0 < (t.conn i).isendlen))
unfolding write_request_handler
write_step call ok i s m b (n, e, some_sent, le) = rw e (elim (eq_cases n (s.conn i).isendlen) [
  | inl same ↦ inl (finishing i s m ok n b same)
  | inr differ ↦ inr (going_on i s m ok n b some_sent (omega arith))
])

-- Connection `j` has sent all that it had, at the notification `n` or before.
pub record Finishes (calls : ℕ → SendCall × Bool) (j bound : ℕ) (s : Server) : Type 0 where
  pub round : ℕ
  pub in_time : round ≤ bound
  pub idle : Idle ((writes round calls j s).conn j)
  pub sent_all : (writes round calls j s).wire j ≡ s.wire j ++ pending_of j s

idle_wire :
    (j : ℕ) (s t : Server)
    → Takes j s t []
    → Idle (t.conn j)
    → t.wire j ≡ s.wire j ++ pending_of j s
idle_wire j s t take idle =
    sym (append-nil (t.wire j))
    ∙ sym (ap (λ (o : Option Msg). t.wire j ++ pending o (t.conn j).psendbuf) idle.nothing)
    ∙ take.stream
    ∙ append-nil _

ends_within :
    (bound : ℕ) (calls : ℕ → SendCall × Bool) (j : ℕ) (s : Server) (m : Msg)
    → Busy (s.conn j) m
    → 0 < (s.conn j).isendlen
    → (s.conn j).isendlen ≤ bound
    → Progresses calls j s
    → Finishes calls j bound s
ends_within zero calls j s m b left fits h = absurd (omega arith)
ends_within (suc bound) calls j s m b left fits h =
    let (k, e, some_sent, le) = h 0 m left b in
    let t = write_request_handler (calls 0).0 (calls 0).1 j s in
    let take = write_request_handler-Takes (calls 0).0 (calls 0).1 j s m b (inr (k, e, le)) in
    elim (write_step (calls 0).0 (calls 0).1 j s m b (k, e, some_sent, le)) [
      | inl idle ↦ record {
        round = 1;
        in_time = omega arith;
        idle = idle;
        sent_all = idle_wire j s t take idle;
      }
      | inr (busy, less, more) ↦
          let r =
            ends_within bound (λ n. calls (suc n)) j t m busy more (omega arith)
              (λ n m l. h (suc n) m (omega arith)) in
          record {
            round = suc r.round;
            in_time = omega (arith, r.in_time);
            idle = r.idle;
            sent_all = r.sent_all ∙ take.stream ∙ append-nil _;
          }
    ]

-- If connection `j` waits for its socket to send the rest of a message, a byte at least, and while it
-- waits each notification that the socket is writable, of as many as there are bytes left, lets `send`
-- take a byte or more and no more than is left, then at the latest after
-- as many notifications as there are bytes left the whole rest is on the wire, behind what was there,
-- and the connection is idle.
pub writes-Finishes :
    (calls : ℕ → SendCall × Bool) (j : ℕ) (s : Server) (m : Msg)
    → Busy (s.conn j) m
    → 0 < (s.conn j).isendlen
    → Progresses calls j s
    → Finishes calls j (s.conn j).isendlen s
writes-Finishes calls j s m b left h =
    ends_within (s.conn j).isendlen calls j s m b left (omega arith) h
