-- ===== src/Session/Carried.antt =====
-- What is known of a connection is carried over to a state that has the same fields of it.
use flydragon.Base.{
  ℕ, ◌≡◌, ◌≢◌, inl, inr, refl, sym, ap, ap₂, ◌∙◌, subst, List, [], ◌∷◌, ◌++◌, map, Option, ◌==◌,
  filter_by, append_assoc, eq→==, ne→==, Bool-cases,
}
use flydragon.Comm.{RecvStat}
use flydragon.State.{Msg, Conn, Handler, RecvPtr, Server}
use flydragon.Recv.Represents.{Represents, packet}
use flydragon.Recv.Sending.{kept_of}
use flydragon.Send.Receiving.{received_of}
use flydragon.Send.Stream.{IsSendable, pending, pending_of}
use flydragon.Send.Queue.{waiting}
use flydragon.Send.Run.{Sends, waiting-append}

-- The connection `d` with the fields that another one receives with.
abbrev with_received : Conn → RecvStat × List ℕ × RecvPtr × ℕ × Option Msg × ℕ → Conn
with_received d (stat, head, buffer, left, new_msg, sequence) = record d {
  cur_stat = stat;
  data_head_info = head;
  precvbuf = buffer;
  irecvlen = left;
  pnew_mem_pointer = new_msg;
  sequence = sequence;
}

repacked :
    (j : ℕ) (c d : Conn) (p : List ℕ)
    → Represents j c p
    → Represents j (with_received d (received_of c)) p
repacked j c d p (inl h) = inl (record {
  short = h.short;
  points = h.points;
  wants = h.wants;
  filled = h.filled;
  room = h.room;
  stat = h.stat;
})
repacked j c d p (inr h) = inr (record {
  msg = h.msg;
  holds = h.holds;
  owner = h.owner;
  stamp = h.stamp;
  size = h.size;
  header = h.header;
  short = h.short;
  points = h.points;
  wants = h.wants;
  filled = h.filled;
  room = h.room;
  stat = h.stat;
})

pub Represents-same :
    (j : ℕ) (c d : Conn) (p : List ℕ)
    → received_of d ≡ received_of c
    → Represents j c p
    → Represents j d p
Represents-same j c d p e h =
    subst
      (λ (f : RecvStat × List ℕ × RecvPtr × ℕ × Option Msg × ℕ). Represents j (with_received d f) p)
      (sym e) (repacked j c d p h)

-- The connection `d` with the fields that another one sends from.
abbrev with_kept : Conn → ℕ × Option Msg × ℕ × ℕ × ℕ × Handler × Handler → Conn
with_kept d (throws, msg, at, left, sequence, reads, writes) = record d {
  throw_send_count = throws;
  psend_mem_pointer = msg;
  psendbuf = at;
  isendlen = left;
  sequence = sequence;
  rhandler = reads;
  whandler = writes;
}

kept-IsSendable : (c d : Conn) → IsSendable c → IsSendable (with_kept d (kept_of c))
kept-IsSendable c d (inl h) = inl (record { throws = h.throws; nothing = h.nothing })
kept-IsSendable c d (inr (m, h)) =
    inr (m, record { throws = h.throws; holds = h.holds; wants = h.wants })

pub IsSendable-same : (c d : Conn) → kept_of d ≡ kept_of c → IsSendable c → IsSendable d
IsSendable-same c d e h =
    subst (λ (f : ℕ × Option Msg × ℕ × ℕ × ℕ × Handler × Handler). IsSendable (with_kept d f))
      (sym e) (kept-IsSendable c d h)

-- The bytes of a connection, by the fields that it sends from.
abbrev bytes_by : ℕ → List ℕ → List Msg → ℕ × Option Msg × ℕ × ℕ × ℕ × Handler × Handler → List ℕ
bytes_by j wire ms (throws, msg, at, left, sequence, reads, writes) =
    (wire ++ pending msg at) ++ waiting j sequence ms

-- Some messages are queued, and nothing else changes of what a connection sends.
pub queues-Sends :
    (j : ℕ) (ms : List Msg) (s t : Server)
    → kept_of (t.conn j) ≡ kept_of (s.conn j)
    → t.wire j ≡ s.wire j
    → t.msg_send_queue ≡ s.msg_send_queue ++ ms
    → IsSendable (s.conn j)
    → Sends j s t (waiting j (s.conn j).sequence ms)
queues-Sends j ms s t kept wire queue h = record {
  sendable = IsSendable-same (s.conn j) (t.conn j) kept h;
  sequence = ap (λ (f : ℕ × Option Msg × ℕ × ℕ × ℕ × Handler × Handler). f.4) kept;
  same_bytes =
      ap₂ (λ (w : List ℕ) (q : List Msg). bytes_by j w q (kept_of (t.conn j))) wire queue
      ∙ ap (bytes_by j (s.wire j) (s.msg_send_queue ++ ms)) kept
      ∙ ap (◌++◌ (s.wire j ++ pending_of j s))
          (waiting-append j (s.conn j).sequence s.msg_send_queue ms)
      ∙ sym (append_assoc (s.wire j ++ pending_of j s) _ _);
}

-- The messages of a queue that came from connection `j`.
abbrev pub of_conn : ℕ → List Msg → List Msg
of_conn j = filter_by (λ m. m.conn == j)

pub of_conn-append :
    (j : ℕ) (ms ns : List Msg) → of_conn j (ms ++ ns) ≡ of_conn j ms ++ of_conn j ns
of_conn-append j [] ns = refl
of_conn-append j (m ∷ ms) ns = elim (Bool-cases (m.conn == j)) [
  | inl e ↦ rw e (ap (◌∷◌ m) (of_conn-append j ms ns))
  | inr e ↦ rw e (of_conn-append j ms ns)
]

-- The packets of one connection are all its own, and none of another.
pub of_conn-packets :
    (j sequence : ℕ) (ps : List (List ℕ))
    → of_conn j (map (packet j sequence) ps) ≡ map (packet j sequence) ps
of_conn-packets j sequence [] = refl
of_conn-packets j sequence (p ∷ ps) =
    rw (eq→== j j refl) (ap (◌∷◌ (packet j sequence p)) (of_conn-packets j sequence ps))

pub of_conn_others :
    (i j sequence : ℕ) (ps : List (List ℕ)) → i ≢ j → of_conn j (map (packet i sequence) ps) ≡ []
of_conn_others i j sequence [] d = refl
of_conn_others i j sequence (p ∷ ps) d = rw (ne→== i j d) (of_conn_others i j sequence ps d)
