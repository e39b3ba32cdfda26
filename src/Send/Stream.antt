-- ===== src/Send/Stream.antt =====
-- What a connection sends: the bytes on its wire, those of the message that it sends, and those of
-- the messages that wait for it.
use flydragon.Base.{
  ℕ, zero, suc, ◌+◌, ◌≡◌, ◌≤◌, ◌<◌, ◌⊎◌, inl, inr, refl, sym, ap, ap₂, ◌∙◌, List, [], ◌∷◌, ◌++◌,
  Option, none, some, Bool, arith, take, drop, length, take-append-drop, drop-drop, append_assoc,
  append-nil, eq_cases,
}
use flydragon.Comm.Header.{read_header}
use flydragon.Epoll.{oper_event}
use flydragon.State.{Msg, Conn, Server}
use flydragon.Send.{
  SendCall, sent, full, sendproc, put_on_wire, after_send, start_message, finish_message,
  leave_to_epoll,
}

-- The part of the current message that is still to be sent.
abbrev pub pending : Option Msg → ℕ → List ℕ
pending none at = []
pending (some m) at = drop at m.bytes

-- The connection sends nothing.
pub record Idle (c : Conn) : Type 0 where
  pub throws : c.throw_send_count ≡ 0
  pub nothing : c.psend_mem_pointer ≡ none

-- The connection waits until it can send the rest of `m`.
pub record Busy (c : Conn) (m : Msg) : Type 0 where
  pub throws : c.throw_send_count ≡ 1
  pub holds : c.psend_mem_pointer ≡ some m
  pub wants : c.psendbuf + c.isendlen ≡ length m.bytes

abbrev pub IsSendable : Conn → Type 0
IsSendable c = Idle c ⊎ ((m : Msg) × Busy c m)

-- From `s` to `t` connection `j` took `xs` over from the queue, and the bytes that are on the wire
-- or in its message are the earlier ones and then these.
pub record Takes (j : ℕ) (s t : Server) (xs : List ℕ) : Type 0 where
  pub sendable : IsSendable (t.conn j)
  pub sequence : (t.conn j).sequence ≡ (s.conn j).sequence
  pub stream :
      t.wire j ++ pending (t.conn j).psend_mem_pointer (t.conn j).psendbuf
      ≡ (s.wire j ++ pending (s.conn j).psend_mem_pointer (s.conn j).psendbuf) ++ xs

-- `send` gives no error: some bytes are taken, `n` at most, or the socket is full.
abbrev pub IsWilling : SendCall → ℕ → Type 0
IsWilling call n = (sendproc call ≡ full) ⊎ ((k : ℕ) × (sendproc call ≡ sent k) × (k ≤ n))

split_at : (a n : ℕ) (w xs : List ℕ) → (w ++ take n (drop a xs)) ++ drop (a + n) xs ≡ w ++ drop a xs
split_at a n w xs =
    append_assoc w (take n (drop a xs)) (drop (a + n) xs)
    ∙ ap (λ (r : List ℕ). w ++ (take n (drop a xs) ++ r)) (sym (drop-drop n a xs))
    ∙ ap (◌++◌ w) (take-append-drop n (drop a xs))

drop_all : (n : ℕ) (xs : List ℕ) → n ≡ length xs → drop n xs ≡ []
drop_all zero [] h = refl
drop_all zero (x ∷ xs) h = absurd (omega arith)
drop_all (suc n) [] h = refl
drop_all (suc n) (x ∷ xs) h = drop_all n xs (omega (arith, h))

-- The whole rest was sent.
split_all :
    (a n : ℕ) (w xs : List ℕ) → a + n ≡ length xs → (w ++ take n (drop a xs)) ++ [] ≡ w ++ drop a xs
split_all a n w xs h =
    ap (◌++◌ (w ++ take n (drop a xs))) (sym (drop_all (a + n) xs h)) ∙ split_at a n w xs

-- What a connection still has of its message.
abbrev pub pending_of : ℕ → Server → List ℕ
pending_of j s = pending (s.conn j).psend_mem_pointer (s.conn j).psendbuf

pub Takes-Busy :
    {j : ℕ} {s t : Server} (m : Msg) (a n : ℕ) (xs : List ℕ)
    → Busy (t.conn j) m
    → (t.conn j).sequence ≡ (s.conn j).sequence
    → t.wire j ≡ s.wire j ++ take n (drop a m.bytes)
    → (t.conn j).psendbuf ≡ a + n
    → pending_of j s ++ xs ≡ drop a m.bytes
    → Takes j s t xs
Takes-Busy {j} {s} {t} m a n xs b q w k p = record {
  sendable = inr (m, b);
  sequence = q;
  stream =
      ap₂ (λ (o : Option Msg) (at : ℕ). t.wire j ++ pending o at) b.holds k
      ∙ ap (λ (r : List ℕ). r ++ drop (a + n) m.bytes) w
      ∙ split_at a n (s.wire j) m.bytes
      ∙ ap (◌++◌ (s.wire j)) (sym p)
      ∙ sym (append_assoc (s.wire j) _ xs);
}

pub Takes-Idle :
    {j : ℕ} {s t : Server} (m : Msg) (a n : ℕ) (xs : List ℕ)
    → Idle (t.conn j)
    → (t.conn j).sequence ≡ (s.conn j).sequence
    → t.wire j ≡ s.wire j ++ take n (drop a m.bytes)
    → a + n ≡ length m.bytes
    → pending_of j s ++ xs ≡ drop a m.bytes
    → Takes j s t xs
Takes-Idle {j} {s} {t} m a n xs b q w k p = record {
  sendable = inl b;
  sequence = q;
  stream =
      ap (λ (o : Option Msg). t.wire j ++ pending o (t.conn j).psendbuf) b.nothing
      ∙ ap (λ (r : List ℕ). r ++ []) w
      ∙ split_all a n (s.wire j) m.bytes k
      ∙ ap (◌++◌ (s.wire j)) (sym p)
      ∙ sym (append_assoc (s.wire j) _ xs);
}

pending-Idle : (j : ℕ) (s : Server) (xs : List ℕ) → Idle (s.conn j) → pending_of j s ++ xs ≡ xs
pending-Idle j s xs idle = ap (λ (o : Option Msg). pending o (s.conn j).psendbuf ++ xs) idle.nothing

pub pending-Busy :
    (j : ℕ) (s : Server) (m : Msg)
    → Busy (s.conn j) m
    → pending_of j s ++ [] ≡ drop (s.conn j).psendbuf m.bytes
pending-Busy j s m b =
    append-nil (pending_of j s) ∙ ap (λ (o : Option Msg). pending o (s.conn j).psendbuf) b.holds

-- What the thread does with a message of an idle connection, by the result of `sendproc`.
start_full :
    (m : Msg) (s : Server) (ok : Bool)
    → Idle (s.conn m.conn)
    → (read_header m.bytes).pkg_len ≡ length m.bytes
    → Takes m.conn s (after_send full ok m.conn (start_message m s)) m.bytes
unfolding after_send start_message leave_to_epoll oper_event
start_full m s ok idle whole =
    Takes-Busy m 0 0 m.bytes
      (record { throws = ground (arith, idle.throws); holds = ground arith; wants = ground arith })
      (ground arith) (sym (append-nil (s.wire m.conn))) (ground arith)
      (pending-Idle m.conn s m.bytes idle)

start_some :
    (m : Msg) (s : Server) (ok : Bool) (n : ℕ)
    → Idle (s.conn m.conn)
    → (read_header m.bytes).pkg_len ≡ length m.bytes
    → n < length m.bytes
    → Takes m.conn s
        (after_send (sent n) ok m.conn (put_on_wire (sent n) m.conn (start_message m s)))
        m.bytes
unfolding after_send put_on_wire start_message leave_to_epoll oper_event
start_some m s ok n idle whole less =
    Takes-Busy m 0 n m.bytes
      (record { throws = ground (arith, idle.throws); holds = ground arith; wants = ground arith })
      (ground arith) (ground arith) (ground arith) (pending-Idle m.conn s m.bytes idle)

start_all :
    (m : Msg) (s : Server) (ok : Bool) (n : ℕ)
    → Idle (s.conn m.conn)
    → (read_header m.bytes).pkg_len ≡ length m.bytes
    → n ≡ length m.bytes
    → Takes m.conn s
        (after_send (sent n) ok m.conn (put_on_wire (sent n) m.conn (start_message m s)))
        m.bytes
unfolding after_send put_on_wire start_message finish_message
start_all m s ok n idle whole same =
    Takes-Idle m 0 n m.bytes
      (record { throws = ground (arith, idle.throws); nothing = ground arith }) (ground arith)
      (ground arith) (omega (arith, same)) (pending-Idle m.conn s m.bytes idle)

pub Takes-refl : (j : ℕ) (s : Server) → IsSendable (s.conn j) → Takes j s s []
Takes-refl j s h = record { sendable = h; sequence = refl; stream = sym (append-nil _) }

-- A message of an idle connection is taken over.
pub start-Takes :
    (m : Msg) (s : Server) (call : SendCall) (ok : Bool)
    → Idle (s.conn m.conn)
    → (read_header m.bytes).pkg_len ≡ length m.bytes
    → IsWilling call (length m.bytes)
    → Takes m.conn s
        (after_send
          (sendproc call)
          ok
          m.conn
          (put_on_wire (sendproc call) m.conn (start_message m s)))
        m.bytes
unfolding put_on_wire start_message
start-Takes m s call ok idle whole (inl e) = rw e (start_full m s ok idle whole)
start-Takes m s call ok idle whole (inr (n, e, le)) = rw e (elim (eq_cases n (length m.bytes)) [
  | inl same ↦ start_all m s ok n idle whole same
  | inr differ ↦ start_some m s ok n idle whole (omega arith)
])
