-- ===== src/Send/Writable.antt =====
-- `flyd_write_request_handler`: the socket of a connection is writable again.
use flydragon.Base.{
  ℕ, ◌≡◌, ◌≢◌, ◌<◌, inl, inr, refl, ◌∙◌, [], Bool, arith, eq_cases, ◌==◌, Bool-cases, Option-cases,
}
use flydragon.Epoll.{oper_event}
use flydragon.State.{Msg, Server}
use flydragon.Send.{
  SendCall, SendSize, sent, sent_none, full, broken, sendproc, put_on_wire, finish_message,
  write_done, after_write, write_request_handler,
}
use flydragon.Send.Same.{Same, Same-refl, Same-trans, put_on_wire-Same, set_conn-Same}
use flydragon.Send.Stream.{Busy, IsWilling, Takes, Takes-Busy, Takes-Idle, pending-Busy, Takes-refl}

write_some :
    (i : ℕ) (s : Server) (m : Msg) (ok : Bool) (n : ℕ)
    → Busy (s.conn i) m
    → n < (s.conn i).isendlen
    → Takes i s (after_write (sent n) ok i (put_on_wire (sent n) i s)) []
unfolding after_write put_on_wire
write_some i s m ok n b less =
    Takes-Busy m (s.conn i).psendbuf n []
      (record { throws = ground (arith, b); holds = ground (arith, b); wants = ground (arith, b) })
      (ground (arith, b)) (ground (arith, b)) (ground (arith, b)) (pending-Busy i s m b)

write_all :
    (i : ℕ) (s : Server) (m : Msg) (ok : Bool) (n : ℕ)
    → Busy (s.conn i) m
    → n ≡ (s.conn i).isendlen
    → Takes i s (after_write (sent n) ok i (put_on_wire (sent n) i s)) []
unfolding after_write put_on_wire write_done finish_message oper_event
write_all i s m ok n b same =
    Takes-Idle m (s.conn i).psendbuf n []
      (record { throws = ground (arith, b); nothing = ground (arith, b) }) (ground (arith, b))
      (ground (arith, b)) (omega (arith, b)) (pending-Busy i s m b)

-- If the connection waits for its socket and `send` reports no error, then after the handler it can
-- send, has its number, and its bytes on the wire and in work are the same as before.
pub write_request_handler-Takes :
    (call : SendCall) (ok : Bool) (i : ℕ) (s : Server) (m : Msg)
    → Busy (s.conn i) m
    → IsWilling call (s.conn i).isendlen
    → Takes i s (write_request_handler call ok i s) []
unfolding write_request_handler after_write put_on_wire
write_request_handler-Takes call ok i s m b (inl e) = rw e (Takes-refl i s (inr (m, b)))
write_request_handler-Takes call ok i s m b (inr (n, e, le)) =
    rw e (elim (eq_cases n (s.conn i).isendlen) [
      | inl same ↦ write_all i s m ok n b same
      | inr differ ↦ write_some i s m ok n b (omega arith)
    ])

write_done-Same : (i : ℕ) (s : Server) (j : ℕ) → i ≢ j → Same j s (write_done i s)
unfolding write_done finish_message
write_done-Same i s j d = record { conn = ground (arith, d); wire = refl }

after_write-Same :
    (size : SendSize) (ok : Bool) (i : ℕ) (s : Server) (j : ℕ)
    → i ≢ j
    → Same j s (after_write size ok i s)
unfolding after_write oper_event
after_write-Same (sent n) ok i s j d = elim (Bool-cases (n == (s.conn i).isendlen)) [
  | inl e ↦ rw e (Same-trans (set_conn-Same i _ s j d) (write_done-Same i _ j d))
  | inr e ↦ rw e (set_conn-Same i _ s j d)
]
after_write-Same sent_none ok i s j d = write_done-Same i s j d
after_write-Same full ok i s j d = Same-refl
after_write-Same broken ok i s j d = write_done-Same i s j d

-- The handler of another connection.
pub write_request_handler-Same :
    (call : SendCall) (ok : Bool) (i : ℕ) (s : Server) (j : ℕ)
    → i ≢ j
    → Same j s (write_request_handler call ok i s)
unfolding write_request_handler
write_request_handler-Same call ok i s j d =
    Same-trans (put_on_wire-Same (sendproc call) i s j d)
      (after_write-Same (sendproc call) ok i _ j d)

put_on_wire_queue :
    (size : SendSize) (i : ℕ) (s : Server)
    → (put_on_wire size i s).msg_send_queue ≡ s.msg_send_queue
unfolding put_on_wire
put_on_wire_queue (sent n) i s = elim (Option-cases (s.conn i).psend_mem_pointer) [
  | inl e ↦ rw (e, put_on_wire) refl
  | inr (m, e) ↦ rw (e, put_on_wire) refl
]
put_on_wire_queue sent_none i s = refl
put_on_wire_queue full i s = refl
put_on_wire_queue broken i s = refl

after_write_queue :
    (size : SendSize) (ok : Bool) (i : ℕ) (s : Server)
    → (after_write size ok i s).msg_send_queue ≡ s.msg_send_queue
unfolding after_write oper_event write_done finish_message
after_write_queue (sent n) ok i s = elim (Bool-cases (n == (s.conn i).isendlen)) [
  | inl e ↦ rw e refl
  | inr e ↦ rw e refl
]
after_write_queue sent_none ok i s = refl
after_write_queue full ok i s = refl
after_write_queue broken ok i s = refl

pub write_request_handler_queue :
    (call : SendCall) (ok : Bool) (i : ℕ) (s : Server)
    → (write_request_handler call ok i s).msg_send_queue ≡ s.msg_send_queue
unfolding write_request_handler
write_request_handler_queue call ok i s =
    after_write_queue (sendproc call) ok i _ ∙ put_on_wire_queue (sendproc call) i s
