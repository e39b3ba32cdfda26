-- ===== src/Send/Run.antt =====
-- The sending half as a whole: any order of messages that are queued, rounds of the sending thread,
-- and notifications that a socket is writable.
use flydragon.Base.{
  ℕ, ◌-◌, ◌≡◌, ◌≢◌, inl, inr, refl, sym, subst, ap, ap₂, ◌∙◌, List, [], ◌∷◌, ◌++◌, Bool, true,
  false, append-nil, append_assoc, ◌==◌, ◌&&◌, Bool-cases, is_positive, if◌then◌else◌,
}
use flydragon.State.{Msg, Conn, Server}
use flydragon.Send.{SendCall, msg_send, Kernel, send_pass, send_round, write_request_handler}
use flydragon.Send.Same.{Same}
use flydragon.Send.Stream.{pending_of, Busy, IsSendable, IsWilling, Takes}
use flydragon.Send.Queue.{waiting, stream, AreWilling, send_each-Continues, stream-Same}

-- The bytes of connection `j`: on the wire, in its message, and in the queue.
abbrev pub bytes_of : ℕ → Server → List ℕ
bytes_of j s = stream j s s.msg_send_queue

pub waiting-append :
    (j q : ℕ) (ms ns : List Msg) → waiting j q (ms ++ ns) ≡ waiting j q ms ++ waiting j q ns
waiting-append j q [] ns = refl
waiting-append j q (m ∷ ms) ns = elim (Bool-cases (m.conn == j && q == m.sequence)) [
  | inl e ↦ rw e (ap (◌++◌ m.bytes) (waiting-append j q ms ns) ∙ sym (append_assoc m.bytes _ _))
  | inr e ↦ rw e (waiting-append j q ms ns)
]

send_pass_bytes :
    (kernel : Kernel) (j : ℕ) (s : Server)
    → IsSendable (s.conn j)
    → AreWilling kernel 0 s.msg_send_queue
    → IsSendable ((send_pass kernel s).conn j)
      × (((send_pass kernel s).conn j).sequence ≡ (s.conn j).sequence)
      × (bytes_of j (send_pass kernel s) ≡ bytes_of j s)
unfolding send_pass
send_pass_bytes kernel j s h are =
    let c = send_each-Continues kernel 0 s.msg_send_queue s j h are in
    (c.sendable, c.sequence, c.same_stream)

-- Connection `j` can send, for the same client, and its bytes are those that it had, and `xs`.
pub record Sends (j : ℕ) (s t : Server) (xs : List ℕ) : Type 0 where
  pub sendable : IsSendable (t.conn j)
  pub sequence : (t.conn j).sequence ≡ (s.conn j).sequence
  pub same_bytes : bytes_of j t ≡ bytes_of j s ++ xs

-- The round, once `sem_wait` returned.
abbrev awake : Kernel → Server → Server × Bool
awake kernel t =
    if t.stop_event == 0
    then (if is_positive t.send_msg_queue_count then send_pass kernel t else t, false)
    else (t, true)

awake_bytes :
    (kernel : Kernel) (j : ℕ) (t : Server)
    → IsSendable (t.conn j)
    → AreWilling kernel 0 t.msg_send_queue
    → Sends j t (awake kernel t).0 []
awake_bytes kernel j t h are = elim (Bool-cases (t.stop_event == 0)) [
  | inr e ↦ rw e (stay t h)
  | inl e ↦ rw e (elim (Bool-cases (is_positive t.send_msg_queue_count)) [
    | inr p ↦ rw p (stay t h)
    | inl p ↦
        let (able, q, same) = send_pass_bytes kernel j t h are in
        rw p (record { sendable = able; sequence = q; same_bytes = same ∙ sym (append-nil _) })
  ])
]
  where
    stay : (t : Server) → IsSendable (t.conn j) → Sends j t t []
    stay t h = record { sendable = h; sequence = refl; same_bytes = sym (append-nil _) }

pub send_round_bytes :
    (taken : Bool) (kernel : Kernel) (j : ℕ) (s : Server)
    → IsSendable (s.conn j)
    → AreWilling kernel 0 s.msg_send_queue
    → Sends j s (send_round taken kernel s).0 []
unfolding send_round
send_round_bytes true kernel j s h are =
    let r =
      awake_bytes kernel j (record s { sem_event_send_queue = s.sem_event_send_queue - 1 }) h are in
    record { sendable = r.sendable; sequence = r.sequence; same_bytes = r.same_bytes }
send_round_bytes false kernel j s h are = awake_bytes kernel j s h are

-- What happens to the sending half, as connection `j` sees it, with the bytes that are queued for
-- it. Its own handler is called once its socket was full, and `send` reports no error.
pub data Step (j : ℕ) : Server → Server → List ℕ → Type 0 where
  queued : (m : Msg) (s : Server) → Step j s (msg_send m s) (waiting j (s.conn j).sequence (m ∷ []))
  round :
      (taken : Bool) (kernel : Kernel) (s : Server)
      → AreWilling kernel 0 s.msg_send_queue
      → Step j s (send_round taken kernel s).0 []
  writable :
      (call : SendCall) (ok : Bool) (s : Server) (m : Msg)
      → Busy (s.conn j) m
      → IsWilling call (s.conn j).isendlen
      → Step j s (write_request_handler call ok j s) []
  other_writable :
      (call : SendCall) (ok : Bool) (i : ℕ) (s : Server)
      → i ≢ j
      → Step j s (write_request_handler call ok i s) []

pub data Run (j : ℕ) : Server → Server → List ℕ → Type 0 where
  start : {s : Server} → Run j s s []
  next : {s t u : Server} {xs ys : List ℕ} → Run j s t xs → Step j t u ys → Run j s u (xs ++ ys)

-- The connection goes on with its message, and the queue stays.
pub Takes-Sends :
    {j : ℕ} {s t : Server} → Takes j s t [] → t.msg_send_queue ≡ s.msg_send_queue → Sends j s t []
Takes-Sends {j} {s} {t} take queue = record {
  sendable = take.sendable;
  sequence = take.sequence;
  same_bytes =
      ap₂ (λ (n : ℕ) (ms : List Msg). (t.wire j ++ pending_of j t) ++ waiting j n ms) take.sequence
        queue
      ∙ ap (λ (w : List ℕ). w ++ waiting j (s.conn j).sequence s.msg_send_queue)
          (take.stream ∙ append-nil _)
      ∙ sym (append-nil _);
}

pub Same-Sends :
    {j : ℕ} {s t : Server}
    → Same j s t
    → t.msg_send_queue ≡ s.msg_send_queue
    → IsSendable (s.conn j)
    → Sends j s t []
Same-Sends {j} {s} {t} same queue h = record {
  sendable = subst IsSendable (sym same.conn) h;
  sequence = ap (λ (c : Conn). c.sequence) same.conn;
  same_bytes = stream-Same t.msg_send_queue same ∙ ap (stream j s) queue ∙ sym (append-nil _);
}

pub Sends-trans :
    {j : ℕ} {s t u : Server} {xs ys : List ℕ}
    → Sends j s t xs
    → Sends j t u ys
    → Sends j s u (xs ++ ys)
Sends-trans {j} {s} {xs = xs} {ys = ys} a b = record {
  sendable = b.sendable;
  sequence = b.sequence ∙ a.sequence;
  same_bytes =
      b.same_bytes ∙ ap (λ (w : List ℕ). w ++ ys) a.same_bytes ∙ append_assoc (bytes_of j s) xs ys;
}
