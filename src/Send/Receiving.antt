-- ===== src/Send/Receiving.antt =====
-- What the sending half leaves to the receiving half.
use flydragon.Base.{
  ℕ, ◌+◌, ◌-◌, ◌≡◌, inl, inr, refl, ap, ◌∙◌, List, [], ◌∷◌, Option, Bool, true, false, update,
  update_keeps, ◌==◌, if◌then◌else◌, Bool-cases, Option-cases, is_positive, increment,
}
use flydragon.Comm.{RecvStat}
use flydragon.Epoll.{oper_event}
use flydragon.State.{Msg, Conn, RecvPtr, Server, set_conn}
use flydragon.State.Held.{held_of, pools_of, Keeps, Keeps-refl, Keeps-trans, sets-Keeps}
use flydragon.Send.{
  SendCall, SendSize, sent, sent_none, full, broken, sendproc, put_on_wire, finish_message,
  leave_to_epoll, after_send, start_message, send_one, Kernel, send_each, send_pass, send_round,
  write_done, after_write, write_request_handler, sent_part,
}

-- The fields of a connection that it receives with.
abbrev pub received_of : Conn → RecvStat × List ℕ × RecvPtr × ℕ × Option Msg × ℕ
received_of c =
    (c.cur_stat, c.data_head_info, c.precvbuf, c.irecvlen, c.pnew_mem_pointer, c.sequence)

-- From `s` to `t` nothing changed of what connection `j` receives, and the queue is the same.
pub record ReceivesSame (j : ℕ) (s t : Server) : Type 0 where
  pub fields : received_of (t.conn j) ≡ received_of (s.conn j)
  pub queue : t.msg_recv_queue ≡ s.msg_recv_queue
  pub keeps : Keeps j s t

pub ReceivesSame-refl : {j : ℕ} {s : Server} → ReceivesSame j s s
ReceivesSame-refl = record { fields = refl; queue = refl; keeps = Keeps-refl }

pub ReceivesSame-trans :
    {j : ℕ} {s t u : Server} → ReceivesSame j s t → ReceivesSame j t u → ReceivesSame j s u
ReceivesSame-trans a b = record {
  fields = b.fields ∙ a.fields;
  queue = b.queue ∙ a.queue;
  keeps = Keeps-trans a.keeps b.keeps;
}

-- A change of connection `i` that leaves what it receives.
pub sets-ReceivesSame :
    (i j : ℕ) (c : Conn) {s t : Server}
    → received_of c ≡ received_of (s.conn i)
    → held_of c ≡ held_of (s.conn i)
    → t.conn ≡ update s.conn i c
    → t.msg_recv_queue ≡ s.msg_recv_queue
    → pools_of t ≡ pools_of s
    → ReceivesSame j s t
sets-ReceivesSame i j c {s} {t} kept held conn queue pools = record {
  fields =
      ap (λ (f : ℕ → Conn). received_of (f j)) conn ∙ update_keeps received_of s.conn i c j kept;
  queue = queue;
  keeps = sets-Keeps i j c held conn pools;
}

module _ (j : ℕ) where
  put-ReceivesSame :
      (size : SendSize) (i : ℕ) (s : Server) → ReceivesSame j s (put_on_wire size i s)
  unfolding put_on_wire
  put-ReceivesSame (sent n) i s = elim (Option-cases (s.conn i).psend_mem_pointer) [
    | inl e ↦ rw (e, put_on_wire) ReceivesSame-refl
    | inr (m, e) ↦
        rw (e, put_on_wire)
          (record { fields = refl; queue = refl; keeps = record { held = refl; pools = refl } })
  ]
  put-ReceivesSame sent_none i s = ReceivesSame-refl
  put-ReceivesSame full i s = ReceivesSame-refl
  put-ReceivesSame broken i s = ReceivesSame-refl

  finish-ReceivesSame : (i : ℕ) (s : Server) → ReceivesSame j s (finish_message i s)
  unfolding finish_message
  finish-ReceivesSame i s = sets-ReceivesSame i j _ refl refl refl refl refl

  start-ReceivesSame : (m : Msg) (s : Server) → ReceivesSame j s (start_message m s)
  unfolding start_message
  start-ReceivesSame m s = sets-ReceivesSame m.conn j _ refl refl refl refl refl

  leave-ReceivesSame : (ok : Bool) (i : ℕ) (s : Server) → ReceivesSame j s (leave_to_epoll ok i s)
  unfolding leave_to_epoll oper_event
  leave-ReceivesSame ok i s =
      let t =
        set_conn s i
          (record (s.conn i) { throw_send_count = increment (s.conn i).throw_send_count }) in
      ReceivesSame-trans {t = t} (sets-ReceivesSame i j _ refl refl refl refl refl)
        (sets-ReceivesSame i j _ refl refl refl refl refl)

  after_send-ReceivesSame :
      (size : SendSize) (ok : Bool) (i : ℕ) (s : Server) → ReceivesSame j s (after_send size ok i s)
  unfolding after_send
  after_send-ReceivesSame (sent n) ok i s = elim (Bool-cases (n == (s.conn i).isendlen)) [
    | inl e ↦ rw e (finish-ReceivesSame i s)
    | inr e ↦ rw e (
        ReceivesSame-trans (sets-ReceivesSame i j (sent_part n (s.conn i)) refl refl refl refl refl)
          (leave-ReceivesSame ok i _))
  ]
  after_send-ReceivesSame sent_none ok i s = finish-ReceivesSame i s
  after_send-ReceivesSame full ok i s = leave-ReceivesSame ok i s
  after_send-ReceivesSame broken ok i s = finish-ReceivesSame i s

  send_one-ReceivesSame :
      (call : SendCall) (ok : Bool) (m : Msg) (s : Server)
      → ReceivesSame j s (send_one call ok m s).0
  unfolding send_one
  send_one-ReceivesSame call ok m s = elim (Bool-cases ((s.conn m.conn).sequence == m.sequence)) [
    | inr e ↦
        rw e (record { fields = refl; queue = refl; keeps = record { held = refl; pools = refl } })
    | inl e ↦ rw e (elim (Bool-cases (is_positive (s.conn m.conn).throw_send_count)) [
      | inl b ↦ rw b ReceivesSame-refl
      | inr b ↦ rw b (
          ReceivesSame-trans (start-ReceivesSame m s) (
            ReceivesSame-trans (put-ReceivesSame (sendproc call) m.conn _)
              (after_send-ReceivesSame (sendproc call) ok m.conn _)))
    ])
  ]

  send_each-ReceivesSame :
      (kernel : Kernel) (k : ℕ) (ms : List Msg) (s : Server)
      → ReceivesSame j s (send_each kernel k ms s).0
  unfolding send_each
  send_each-ReceivesSame kernel k [] s = ReceivesSame-refl
  send_each-ReceivesSame kernel k (m ∷ ms) s =
      ReceivesSame-trans (send_one-ReceivesSame (kernel k).0 (kernel k).1 m s)
        (send_each-ReceivesSame kernel (k + 1) ms _)

  pass-ReceivesSame : (kernel : Kernel) (s : Server) → ReceivesSame j s (send_pass kernel s)
  unfolding send_pass
  pass-ReceivesSame kernel s =
      let r = send_each-ReceivesSame kernel 0 s.msg_send_queue s in
      record {
        fields = r.fields;
        queue = r.queue;
        keeps = record { held = r.keeps.held; pools = r.keeps.pools };
      }

  abbrev awake : Kernel → Server → Server × Bool
  awake kernel s =
      if s.stop_event == 0
      then (if is_positive s.send_msg_queue_count then send_pass kernel s else s, false)
      else (s, true)

  awake-ReceivesSame : (kernel : Kernel) (s : Server) → ReceivesSame j s (awake kernel s).0
  awake-ReceivesSame kernel s = elim (Bool-cases (s.stop_event == 0)) [
    | inr e ↦ rw e ReceivesSame-refl
    | inl e ↦ rw e (elim (Bool-cases (is_positive s.send_msg_queue_count)) [
      | inl p ↦ rw p (pass-ReceivesSame kernel s)
      | inr p ↦ rw p ReceivesSame-refl
    ])
  ]

  -- A round of the sending thread changes nothing of what is received.
  pub send_round-ReceivesSame :
      (taken : Bool) (kernel : Kernel) (s : Server) → ReceivesSame j s (send_round taken kernel s).0
  unfolding send_round
  send_round-ReceivesSame true kernel s =
      let r =
        awake-ReceivesSame kernel
          (record s { sem_event_send_queue = s.sem_event_send_queue - 1 }) in
      record {
        fields = r.fields;
        queue = r.queue;
        keeps = record { held = r.keeps.held; pools = r.keeps.pools };
      }
  send_round-ReceivesSame false kernel s = awake-ReceivesSame kernel s

  done-ReceivesSame : (i : ℕ) (s : Server) → ReceivesSame j s (write_done i s)
  unfolding write_done finish_message
  done-ReceivesSame i s =
      ReceivesSame-trans {t = finish_message i s} (finish-ReceivesSame i s)
        (sets-ReceivesSame i j _ refl refl refl refl refl)

  after_write-ReceivesSame :
      (size : SendSize) (ok : Bool) (i : ℕ) (s : Server)
      → ReceivesSame j s (after_write size ok i s)
  unfolding after_write oper_event
  after_write-ReceivesSame (sent n) ok i s = elim (Bool-cases (n == (s.conn i).isendlen)) [
    | inl e ↦ rw e (
        ReceivesSame-trans (sets-ReceivesSame i j _ refl refl refl refl refl)
          (done-ReceivesSame i _))
    | inr e ↦ rw e (sets-ReceivesSame i j (sent_part n (s.conn i)) refl refl refl refl refl)
  ]
  after_write-ReceivesSame sent_none ok i s = done-ReceivesSame i s
  after_write-ReceivesSame full ok i s = ReceivesSame-refl
  after_write-ReceivesSame broken ok i s = done-ReceivesSame i s

  -- The handler of a writable socket changes nothing of what is received.
  pub write_request_handler-ReceivesSame :
      (call : SendCall) (ok : Bool) (i : ℕ) (s : Server)
      → ReceivesSame j s (write_request_handler call ok i s)
  unfolding write_request_handler
  write_request_handler-ReceivesSame call ok i s =
      ReceivesSame-trans (put-ReceivesSame (sendproc call) i s)
        (after_write-ReceivesSame (sendproc call) ok i _)
