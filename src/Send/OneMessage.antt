-- ===== src/Send/OneMessage.antt =====
-- A round of the sending thread whose queue holds one message, which the socket takes as a whole.
use flydragon.Base.{
  ℕ, ◌-◌, ◌≡◌, refl, sym, ap, subst, ◌∙◌, List, [], ◌∷◌, ◌++◌, none, Bool, true, false,
  if◌then◌else◌, arith, take-length, length, eq→==, is_positive, decrement,
}
use flydragon.Comm.Header.{read_header}
use flydragon.State.{Msg, Server}
use flydragon.Send.{
  SendCall, sent, sendproc, Kernel, send_round, send_pass, send_each, send_one, start_message,
  put_on_wire, after_send, finish_message,
}
use flydragon.Send.Stream.{Idle}

after_send_all :
    (n : ℕ) (ok : Bool) (i : ℕ) (s : Server)
    → (s.conn i).isendlen ≡ n
    → after_send (sent n) ok i s ≡ finish_message i s
unfolding after_send
after_send_all n ok i s e = rw (eq→== n (s.conn i).isendlen (sym e)) refl

wants_all :
    (n : ℕ) (m : Msg) (s : Server)
    → ((put_on_wire (sent n) m.conn (start_message m s)).conn m.conn).isendlen
      ≡ (read_header m.bytes).pkg_len
unfolding put_on_wire start_message
wants_all n m s = ground arith

send_one_went :
    (call : SendCall) (ok : Bool) (m : Msg) (s : Server)
    → (s.conn m.conn).sequence ≡ m.sequence
    → Idle (s.conn m.conn)
    → (read_header m.bytes).pkg_len ≡ length m.bytes
    → sendproc call ≡ sent (length m.bytes)
    → send_one call ok m s ≡ (
      finish_message m.conn (put_on_wire (sent (length m.bytes)) m.conn (start_message m s)),
      false,
    )
unfolding send_one
send_one_went call ok m s q idle whole took =
    let n = length m.bytes in
    rw (eq→== _ _ q, ap is_positive idle.throws)
      (rw took (
        ap (λ (t : Server). (t, false))
          (after_send_all n ok m.conn (put_on_wire (sent n) m.conn (start_message m s))
            (wants_all n m s ∙ whole))))

send_each_one :
    (kernel : Kernel) (m : Msg) (s t : Server)
    → send_one (kernel 0).0 (kernel 0).1 m s ≡ (t, false)
    → send_each kernel 0 (m ∷ []) s ≡ (t, [])
unfolding send_each
send_each_one kernel m s t e = rw e refl

-- The end of a pass.
abbrev put_back : Server × List Msg → Server
put_back (t, rest) = record t { msg_send_queue = rest }

send_pass_one :
    (kernel : Kernel) (m : Msg) (s t : Server)
    → s.msg_send_queue ≡ m ∷ []
    → send_one (kernel 0).0 (kernel 0).1 m s ≡ (t, false)
    → send_pass kernel s ≡ record t { msg_send_queue = [] }
unfolding send_pass
send_pass_one kernel m s t q e =
    ap (λ (ms : List Msg). put_back (send_each kernel 0 ms s)) q
    ∙ ap put_back (send_each_one kernel m s t e)

-- What `sem_wait` leaves.
abbrev woken : Bool → Server → Server
woken taken s = if taken then record s { sem_event_send_queue = s.sem_event_send_queue - 1 } else s

send_round_passes :
    (taken : Bool) (kernel : Kernel) (s : Server)
    → s.stop_event ≡ 0
    → is_positive s.send_msg_queue_count ≡ true
    → (send_round taken kernel s).0 ≡ send_pass kernel (woken taken s)
unfolding send_round
send_round_passes true kernel s go some_wait = rw (eq→== s.stop_event 0 go, some_wait) refl
send_round_passes false kernel s go some_wait = rw (eq→== s.stop_event 0 go, some_wait) refl

-- What the thread makes of a state whose only message is `m`, when the socket takes it as a whole.
pub record Went (m : Msg) (s v : Server) : Type 0 where
  pub conn : v.conn m.conn ≡ record (s.conn m.conn) {
    psend_mem_pointer = none;
    psendbuf = 0;
    isendlen = (read_header m.bytes).pkg_len;
  }
  pub wire : v.wire m.conn ≡ s.wire m.conn ++ m.bytes
  pub queue : v.msg_send_queue ≡ []
  pub count : v.send_msg_queue_count ≡ decrement s.send_msg_queue_count
  pub received : v.msg_recv_queue ≡ s.msg_recv_queue
  pub stop : v.stop_event ≡ s.stop_event

one_message-Went :
    (m : Msg) (s : Server)
    → Went m s
        (record (finish_message m.conn
          (put_on_wire (sent (length m.bytes)) m.conn (start_message m s))) { msg_send_queue = [] })
unfolding finish_message put_on_wire start_message
one_message-Went m s = record {
  conn = ground arith;
  wire = ground (arith, take-length m.bytes);
  queue = refl;
  count = ground arith;
  received = ground arith;
  stop = ground arith;
}

-- The only message of the queue is sent in one round.
pub record OneWaits (kernel : Kernel) (m : Msg) (s : Server) : Type 0 where
  pub go : s.stop_event ≡ 0
  pub counted : is_positive s.send_msg_queue_count ≡ true
  pub queue : s.msg_send_queue ≡ m ∷ []
  pub current : (s.conn m.conn).sequence ≡ m.sequence
  pub idle : Idle (s.conn m.conn)
  pub whole : (read_header m.bytes).pkg_len ≡ length m.bytes
  pub took : sendproc (kernel 0).0 ≡ sent (length m.bytes)

pub send_round-Went :
    (taken : Bool) (kernel : Kernel) (m : Msg) (s : Server)
    → OneWaits kernel m s
    → Went m s (send_round taken kernel s).0
send_round-Went true kernel m s h =
    let s₁ = woken true s in
    let w = one_message-Went m s₁ in
    subst (Went m s)
      (sym (
        send_round_passes true kernel s h.go h.counted
        ∙ send_pass_one kernel m s₁ _ h.queue
            (send_one_went (kernel 0).0 (kernel 0).1 m s₁ h.current h.idle h.whole h.took)))
      (record {
        conn = w.conn;
        wire = w.wire;
        queue = w.queue;
        count = w.count;
        received = w.received;
        stop = w.stop;
      })
send_round-Went false kernel m s h =
    subst (Went m s)
      (sym (
        send_round_passes false kernel s h.go h.counted
        ∙ send_pass_one kernel m s _ h.queue
            (send_one_went (kernel 0).0 (kernel 0).1 m s h.current h.idle h.whole h.took)))
      (one_message-Went m s)
