-- ===== src/Send/Drain.antt =====
-- A round of the sending thread while the sockets have room.
use flydragon.Base.{
  ℕ, ◌+◌, ◌-◌, ◌≡◌, inl, inr, refl, sym, ap, subst, ◌∙◌, List, [], ◌∷◌, ◌++◌, Bool, true, Option,
  false, arith, length, append-nil, eq_cases, eq→==, is_positive,
}
use flydragon.Comm.Header.{read_header}
use flydragon.State.{Msg, Conn, Server}
use flydragon.Send.{
  SendCall, sent, sendproc, put_on_wire, after_send, start_message, finish_message, send_one,
  Kernel, send_each, send_pass, send_round,
}
use flydragon.Send.Same.{send_one-Same}
use flydragon.Send.Stream.{Idle, pending}
use flydragon.Send.Queue.{
  waiting, AreWilling, stream, send_one_stale, send_each_skip, after, send_each-Continues,
}

-- The messages of the queue are whole, and the kernel takes each as a whole.
abbrev pub AreTaken : Kernel → ℕ → List Msg → Type 0
AreTaken kernel k [] = Unit {0}
AreTaken kernel k (m ∷ ms) =
    ((read_header m.bytes).pkg_len ≡ length m.bytes)
    × (sendproc (kernel k).0 ≡ sent (length m.bytes))
    × AreTaken kernel (k + 1) ms

AreTaken-AreWilling :
    (kernel : Kernel) (k : ℕ) (ms : List Msg) → AreTaken kernel k ms → AreWilling kernel k ms
AreTaken-AreWilling kernel k [] h = _
AreTaken-AreWilling kernel k (m ∷ ms) (whole, took, h) =
    (whole, inr (length m.bytes, took, omega arith), AreTaken-AreWilling kernel (k + 1) ms h)

-- The message was taken over as a whole.
start_whole :
    (m : Msg) (s : Server) (ok : Bool)
    → Idle (s.conn m.conn)
    → (read_header m.bytes).pkg_len ≡ length m.bytes
    → let t =
        after_send
          (sent (length m.bytes))
          ok
          m.conn
          (put_on_wire (sent (length m.bytes)) m.conn (start_message m s)) in
      Idle (t.conn m.conn) × ((t.conn m.conn).sequence ≡ (s.conn m.conn).sequence)
unfolding after_send put_on_wire start_message finish_message
start_whole m s ok idle whole =
    (record { throws = ground (arith, idle.throws); nothing = ground arith }, ground arith)

send_one_whole :
    (call : SendCall) (ok : Bool) (m : Msg) (s : Server)
    → (s.conn m.conn).sequence ≡ m.sequence
    → Idle (s.conn m.conn)
    → (read_header m.bytes).pkg_len ≡ length m.bytes
    → sendproc call ≡ sent (length m.bytes)
    → Idle ((send_one call ok m s).0.conn m.conn)
      × (((send_one call ok m s).0.conn m.conn).sequence ≡ (s.conn m.conn).sequence)
      × ((send_one call ok m s).1 ≡ false)
unfolding send_one
send_one_whole call ok m s q idle whole took =
    let (i, e) = start_whole m s ok idle whole in
    rw (eq→== _ _ q, ap is_positive idle.throws) (rw took (i, e, refl))

-- Behind the pass connection `j` is idle and nothing waits for it.
record Drains (kernel : Kernel) (k : ℕ) (ms : List Msg) (s : Server) (j : ℕ) : Type 0 where
  idle : Idle ((send_each kernel k ms s).0.conn j)
  nothing : waiting j (s.conn j).sequence (send_each kernel k ms s).1 ≡ []

Drains-skip :
    {kernel : Kernel} {k : ℕ} (m : Msg) {ms : List Msg} {s : Server} {j : ℕ}
    → ((after kernel k m s).conn j).sequence ≡ (s.conn j).sequence
    → waiting j (s.conn j).sequence (send_each kernel k (m ∷ ms) s).1
      ≡ waiting j (s.conn j).sequence (send_each kernel (k + 1) ms (after kernel k m s)).1
    → Drains kernel (k + 1) ms (after kernel k m s) j
    → Drains kernel k (m ∷ ms) s j
unfolding send_each
Drains-skip {kernel} {k} m {ms} {s} {j} q skip d = record {
  idle = d.idle;
  nothing =
      skip
      ∙ subst (λ (n : ℕ). waiting j n (send_each kernel (k + 1) ms (after kernel k m s)).1 ≡ []) q
          d.nothing;
}

gone :
    (kernel : Kernel) (k : ℕ) (m : Msg) (ms : List Msg) (s : Server)
    → (send_one (kernel k).0 (kernel k).1 m s).1 ≡ false
    → (send_each kernel k (m ∷ ms) s).1 ≡ (send_each kernel (k + 1) ms (after kernel k m s)).1
unfolding send_each
gone kernel k m ms s e = rw e refl

send_each-Drains :
    (kernel : Kernel) (k : ℕ) (ms : List Msg) (s : Server) (j : ℕ)
    → Idle (s.conn j)
    → AreTaken kernel k ms
    → Drains kernel k ms s j
send_each-Drains kernel k [] s j h are = unfold send_each in record { idle = h; nothing = refl }
send_each-Drains kernel k (m ∷ ms) s j h are = elim (eq_cases m.conn j) [
  | inr d ↦
      let same = send_one-Same (kernel k).0 (kernel k).1 m s j d in
      Drains-skip m (ap (λ (c : Conn). c.sequence) same.conn)
        (send_each_skip kernel k m ms s j (s.conn j).sequence (inl d))
        (send_each-Drains kernel (k + 1) ms _ j (subst Idle (sym same.conn) h) are.2)
  | inl e ↦
      subst (λ (j : ℕ). Idle (s.conn j) → Drains kernel k (m ∷ ms) s j) e
        (λ h. elim (eq_cases (s.conn m.conn).sequence m.sequence) [
          | inr d ↦
              let (same, left) = send_one_stale (kernel k).0 (kernel k).1 m s d in
              Drains-skip m (ap (λ (c : Conn). c.sequence) same.conn)
                (ap (waiting m.conn (s.conn m.conn).sequence) (gone kernel k m ms s left))
                (send_each-Drains kernel (k + 1) ms _ m.conn (subst Idle (sym same.conn) h) are.2)
          | inl q ↦
              let (idle, same, left) =
                send_one_whole (kernel k).0 (kernel k).1 m s q h are.0 are.1 in
              Drains-skip m same
                (ap (waiting m.conn (s.conn m.conn).sequence) (gone kernel k m ms s left))
                (send_each-Drains kernel (k + 1) ms _ m.conn idle are.2)
        ])
        h
]

-- Connection `j` is idle, nothing waits for it, and its wire has all that waited.
pub record Drained (j : ℕ) (s t : Server) : Type 0 where
  pub idle : Idle (t.conn j)
  pub sequence : (t.conn j).sequence ≡ (s.conn j).sequence
  pub nothing : waiting j (s.conn j).sequence t.msg_send_queue ≡ []
  pub sent_all : t.wire j ≡ s.wire j ++ waiting j (s.conn j).sequence s.msg_send_queue

idle_stream :
    (j : ℕ) (s : Server) (ms : List Msg)
    → Idle (s.conn j)
    → stream j s ms ≡ s.wire j ++ waiting j (s.conn j).sequence ms
idle_stream j s ms h =
    ap (λ (w : List ℕ). w ++ waiting j (s.conn j).sequence ms)
      (ap (λ (o : Option Msg). s.wire j ++ pending o (s.conn j).psendbuf) h.nothing ∙ append-nil _)

send_pass-Drained :
    (kernel : Kernel) (j : ℕ) (s : Server)
    → Idle (s.conn j)
    → AreTaken kernel 0 s.msg_send_queue
    → Drained j s (send_pass kernel s)
unfolding send_pass
send_pass-Drained kernel j s h are =
    let ms = s.msg_send_queue in
    let (t, rest) = send_each kernel 0 ms s in
    let d = send_each-Drains kernel 0 ms s j h are in
    let c = send_each-Continues kernel 0 ms s j (inl h) (AreTaken-AreWilling kernel 0 ms are) in
    record {
      idle = d.idle;
      sequence = c.sequence;
      nothing = d.nothing;
      sent_all =
          sym (append-nil (t.wire j))
          ∙ ap (◌++◌ (t.wire j)) (sym (ap (λ (n : ℕ). waiting j n rest) c.sequence ∙ d.nothing))
          ∙ sym (idle_stream j t rest d.idle)
          ∙ c.same_stream
          ∙ idle_stream j s ms h;
    }

-- A round of the sending thread, while the program is not stopped and its counter says that there is
-- a message: if the messages are whole and the kernel takes each as a whole, then for each connection
-- that is idle, all messages that wait for its client are on its wire afterwards, in order, none waits
-- any more, and it is idle again.
pub send_round-Drained :
    (taken : Bool) (kernel : Kernel) (j : ℕ) (s : Server)
    → s.stop_event ≡ 0
    → is_positive s.send_msg_queue_count ≡ true
    → Idle (s.conn j)
    → AreTaken kernel 0 s.msg_send_queue
    → Drained j s (send_round taken kernel s).0
unfolding send_round
send_round-Drained true kernel j s go some_wait h are =
    let d =
      send_pass-Drained kernel j (record s { sem_event_send_queue = s.sem_event_send_queue - 1 }) h
        are in
    rw (eq→== s.stop_event 0 go, some_wait)
      (record { idle = d.idle; sequence = d.sequence; nothing = d.nothing; sent_all = d.sent_all })
send_round-Drained false kernel j s go some_wait h are =
    rw (eq→== s.stop_event 0 go, some_wait) (send_pass-Drained kernel j s h are)
