-- ===== src/Send/Same.antt =====
-- What ServerSendQueueThread does for one connection, seen from another.
use flydragon.Base.{
  ℕ, ◌≡◌, ◌≢◌, inl, inr, refl, ◌∙◌, Bool, arith, ◌==◌, update_ne, Bool-cases, Option-cases,
  is_positive,
}
use flydragon.Epoll.{oper_event}
use flydragon.State.{Msg, Conn, Server, set_conn}
use flydragon.Send.{
  SendCall, SendSize, sent, sent_none, full, broken, sendproc, put_on_wire, after_send,
  start_message, finish_message, leave_to_epoll, send_one,
}

-- Nothing of connection `j` changed.
pub record Same (j : ℕ) (s t : Server) : Type 0 where
  pub conn : t.conn j ≡ s.conn j
  pub wire : t.wire j ≡ s.wire j

pub Same-refl : {j : ℕ} {s : Server} → Same j s s
Same-refl = record { conn = refl; wire = refl }

pub Same-trans : {j : ℕ} {s t u : Server} → Same j s t → Same j t u → Same j s u
Same-trans a b = record { conn = b.conn ∙ a.conn; wire = b.wire ∙ a.wire }

pub set_conn-Same : (i : ℕ) (c : Conn) (s : Server) (j : ℕ) → i ≢ j → Same j s (set_conn s i c)
set_conn-Same i c s j d = record { conn = update_ne s.conn i c j d; wire = refl }

pub put_on_wire-Same :
    (size : SendSize) (i : ℕ) (s : Server) (j : ℕ) → i ≢ j → Same j s (put_on_wire size i s)
unfolding put_on_wire
put_on_wire-Same (sent n) i s j d = elim (Option-cases (s.conn i).psend_mem_pointer) [
  | inl e ↦ rw (e, put_on_wire) Same-refl
  | inr (m, e) ↦ rw (e, put_on_wire) (record { conn = refl; wire = update_ne s.wire i _ j d })
]
put_on_wire-Same sent_none i s j d = Same-refl
put_on_wire-Same full i s j d = Same-refl
put_on_wire-Same broken i s j d = Same-refl

leave_to_epoll-Same :
    (ok : Bool) (i : ℕ) (s : Server) (j : ℕ) → i ≢ j → Same j s (leave_to_epoll ok i s)
unfolding leave_to_epoll oper_event
leave_to_epoll-Same ok i s j d = record { conn = ground (arith, d); wire = refl }

pub finish_message-Same : (i : ℕ) (s : Server) (j : ℕ) → i ≢ j → Same j s (finish_message i s)
unfolding finish_message
finish_message-Same i s j d = record { conn = update_ne s.conn i _ j d; wire = refl }

start_message-Same : (m : Msg) (s : Server) (j : ℕ) → m.conn ≢ j → Same j s (start_message m s)
unfolding start_message
start_message-Same m s j d = record { conn = update_ne s.conn m.conn _ j d; wire = refl }

after_send-Same :
    (size : SendSize) (ok : Bool) (i : ℕ) (s : Server) (j : ℕ)
    → i ≢ j
    → Same j s (after_send size ok i s)
unfolding after_send
after_send-Same (sent n) ok i s j d = elim (Bool-cases (n == (s.conn i).isendlen)) [
  | inl e ↦ rw e (finish_message-Same i s j d)
  | inr e ↦ rw e (Same-trans (set_conn-Same i _ s j d) (leave_to_epoll-Same ok i _ j d))
]
after_send-Same sent_none ok i s j d = finish_message-Same i s j d
after_send-Same full ok i s j d = leave_to_epoll-Same ok i s j d
after_send-Same broken ok i s j d = finish_message-Same i s j d

-- A message of another connection changes nothing of this one.
pub send_one-Same :
    (call : SendCall) (ok : Bool) (m : Msg) (s : Server) (j : ℕ)
    → m.conn ≢ j
    → Same j s (send_one call ok m s).0
unfolding send_one
send_one-Same call ok m s j d = elim (Bool-cases ((s.conn m.conn).sequence == m.sequence)) [
  | inr e ↦ rw e (record { conn = refl; wire = refl })
  | inl e ↦ rw e (elim (Bool-cases (is_positive (s.conn m.conn).throw_send_count)) [
    | inl b ↦ rw b Same-refl
    | inr b ↦ rw b (
        Same-trans (start_message-Same m s j d) (
          Same-trans (put_on_wire-Same (sendproc call) m.conn _ j d)
            (after_send-Same (sendproc call) ok m.conn _ j d)))
  ])
]
