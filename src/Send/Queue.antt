-- ===== src/Send/Queue.antt =====
-- One pass of ServerSendQueueThread over its queue, seen from one connection.
use flydragon.Base.{
  ℕ, ◌+◌, ◌≡◌, ◌≢◌, ◌⊎◌, inl, inr, refl, sym, ap, ap₂, subst, ◌∙◌, List, [], ◌∷◌, ◌++◌, Bool, true,
  false, ◌&&◌, arith, ◌==◌, if◌then◌else◌, take, length, append_assoc, eq_cases, eq→==, ne→==,
  is_positive,
}
use flydragon.Comm.Header.{read_header}
use flydragon.State.{Msg, Conn, Server}
use flydragon.Send.{SendCall, send_one}
use flydragon.Send.{Kernel, send_each}
use flydragon.Send.Same.{Same, Same-refl, Same-trans, send_one-Same}
use flydragon.Send.Stream.{
  pending, pending_of, Idle, Busy, IsSendable, IsWilling, Takes, start-Takes,
}

-- The bytes of the messages of a queue that wait for connection `j`.
abbrev pub waiting : ℕ → ℕ → List Msg → List ℕ
waiting j sequence [] = []
waiting j sequence (m ∷ ms) =
    if m.conn == j && sequence == m.sequence
    then m.bytes ++ waiting j sequence ms
    else waiting j sequence ms

-- The messages of the queue are whole, and the kernel reports no error at any of them.
abbrev pub AreWilling : Kernel → ℕ → List Msg → Type 0
AreWilling kernel k [] = Unit {0}
AreWilling kernel k (m ∷ ms) =
    ((read_header m.bytes).pkg_len ≡ length m.bytes)
    × IsWilling (kernel k).0 (length m.bytes)
    × AreWilling kernel (k + 1) ms

-- A message of a connection that has one already stays in the queue.
send_one-Busy :
    (call : SendCall) (ok : Bool) (m n : Msg) (s : Server)
    → (s.conn m.conn).sequence ≡ m.sequence
    → Busy (s.conn m.conn) n
    → send_one call ok m s ≡ (s, true)
unfolding send_one
send_one-Busy call ok m n s q b = rw (eq→== _ _ q, ap is_positive b.throws) refl

-- A message that was meant for an earlier use of the connection is dropped.
pub send_one_stale :
    (call : SendCall) (ok : Bool) (m : Msg) (s : Server)
    → (s.conn m.conn).sequence ≢ m.sequence
    → Same m.conn s (send_one call ok m s).0 × ((send_one call ok m s).1 ≡ false)
unfolding send_one
send_one_stale call ok m s d = rw (ne→== _ _ d) (record { conn = refl; wire = refl }, refl)

send_one-Idle :
    (call : SendCall) (ok : Bool) (m : Msg) (s : Server)
    → (s.conn m.conn).sequence ≡ m.sequence
    → Idle (s.conn m.conn)
    → (read_header m.bytes).pkg_len ≡ length m.bytes
    → IsWilling call (length m.bytes)
    → Takes m.conn s (send_one call ok m s).0 m.bytes × ((send_one call ok m s).1 ≡ false)
unfolding send_one
send_one-Idle call ok m s q idle whole willing =
    rw (eq→== _ _ q, ap is_positive idle.throws) (start-Takes m s call ok idle whole willing, refl)

-- A message that does not wait for connection `j` can stay or leave.
pub waiting_skip :
    (j q : ℕ) (m : Msg) (rest : List Msg) (stays : Bool)
    → (m.conn ≢ j) ⊎ (q ≢ m.sequence)
    → waiting j q (if stays then m ∷ rest else rest) ≡ waiting j q rest
waiting_skip j q m rest false h = refl
waiting_skip j q m rest true h = ground (arith, h)

waiting_take :
    (m : Msg) (ms : List Msg) (q : ℕ)
    → q ≡ m.sequence
    → waiting m.conn q (m ∷ ms) ≡ m.bytes ++ waiting m.conn q ms
waiting_take m ms q h = ground (arith, h)

-- The first message, if it does not wait for connection `j`.
pub send_each_skip :
    (kernel : Kernel) (k : ℕ) (m : Msg) (ms : List Msg) (s : Server) (j q : ℕ)
    → (m.conn ≢ j) ⊎ (q ≢ m.sequence)
    → waiting j q (send_each kernel k (m ∷ ms) s).1
      ≡ waiting j q (send_each kernel (k + 1) ms (send_one (kernel k).0 (kernel k).1 m s).0).1
unfolding send_each
send_each_skip kernel k m ms s j q h =
    waiting_skip j q m (send_each kernel (k + 1) ms (send_one (kernel k).0 (kernel k).1 m s).0).1
      (send_one (kernel k).0 (kernel k).1 m s).1 h

-- All that connection `j` sends, before and after now, if `ms` are the messages that wait.
abbrev pub stream : ℕ → Server → List Msg → List ℕ
stream j s ms = (s.wire j ++ pending_of j s) ++ waiting j (s.conn j).sequence ms

-- A pass that leaves the stream of connection `j` as it was.
pub record Continues (kernel : Kernel) (k : ℕ) (ms : List Msg) (s : Server) (j : ℕ) : Type 0 where
  pub sendable : IsSendable ((send_each kernel k ms s).0.conn j)
  pub sequence : ((send_each kernel k ms s).0.conn j).sequence ≡ (s.conn j).sequence
  pub same_stream : stream j (send_each kernel k ms s).0 (send_each kernel k ms s).1 ≡ stream j s ms

-- A pass that does not touch connection `j`.
record Stays (kernel : Kernel) (k : ℕ) (ms : List Msg) (s : Server) (j : ℕ) : Type 0 where
  same : Same j s (send_each kernel k ms s).0
  wait :
      waiting j (s.conn j).sequence (send_each kernel k ms s).1 ≡ waiting j (s.conn j).sequence ms

-- The state after the first message of the queue.
abbrev pub after : Kernel → ℕ → Msg → Server → Server
after kernel k m s = (send_one (kernel k).0 (kernel k).1 m s).0

Stays-skip :
    {kernel : Kernel} {k : ℕ} (m : Msg) {ms : List Msg} {s : Server} {j : ℕ}
    → Same j s (after kernel k m s)
    → (m.conn ≢ j) ⊎ ((s.conn j).sequence ≢ m.sequence)
    → Stays kernel (k + 1) ms (after kernel k m s) j
    → Stays kernel k (m ∷ ms) s j
unfolding send_each
Stays-skip {kernel} {k} m {ms} {s} {j} same h r =
    let q = ap (λ (c : Conn). c.sequence) same.conn in
    record {
      same = Same-trans same r.same;
      wait =
          send_each_skip kernel k m ms s j (s.conn j).sequence h
          ∙ subst
              (λ (n : ℕ).
                waiting j n (send_each kernel (k + 1) ms (after kernel k m s)).1 ≡ waiting j n ms)
              q r.wait
          ∙ sym (waiting_skip j (s.conn j).sequence m ms true h);
    }

Stays-wait :
    {kernel : Kernel} {k : ℕ} {m : Msg} {ms : List Msg} {s : Server}
    → (s.conn m.conn).sequence ≡ m.sequence
    → send_one (kernel k).0 (kernel k).1 m s ≡ (s, true)
    → Stays kernel (k + 1) ms s m.conn
    → Stays kernel k (m ∷ ms) s m.conn
unfolding send_each
Stays-wait {m = m} q e r = record {
  same = rw e r.same;
  wait = rw e (waiting_take m _ _ q ∙ ap (◌++◌ m.bytes) r.wait ∙ sym (waiting_take m _ _ q));
}

Busy-Same : {j : ℕ} {s t : Server} {n : Msg} → Same j s t → Busy (s.conn j) n → Busy (t.conn j) n
Busy-Same {n = n} same b = subst (λ (c : Conn). Busy c n) (sym same.conn) b

-- A busy connection stays so, and all its messages wait.
send_each-Busy :
    (kernel : Kernel) (k : ℕ) (ms : List Msg) (s : Server) (j : ℕ) (n : Msg)
    → Busy (s.conn j) n
    → Stays kernel k ms s j
send_each-Busy kernel k [] s j n b = unfold send_each in record { same = Same-refl; wait = refl }
send_each-Busy kernel k (m ∷ ms) s j n b = elim (eq_cases m.conn j) [
  | inr d ↦
      let same = send_one-Same (kernel k).0 (kernel k).1 m s j d in
      Stays-skip m same (inl d) (send_each-Busy kernel (k + 1) ms _ j n (Busy-Same same b))
  | inl e ↦
      subst (λ (j : ℕ). Busy (s.conn j) n → Stays kernel k (m ∷ ms) s j) e
        (λ b. elim (eq_cases (s.conn m.conn).sequence m.sequence) [
          | inr d ↦
              let same = (send_one_stale (kernel k).0 (kernel k).1 m s d).0 in
              Stays-skip m same (inr d)
                (send_each-Busy kernel (k + 1) ms _ m.conn n (Busy-Same same b))
          | inl q ↦
              Stays-wait q (send_one-Busy (kernel k).0 (kernel k).1 m n s q b)
                (send_each-Busy kernel (k + 1) ms s m.conn n b)
        ])
        b
]

Stays-Continues :
    {kernel : Kernel} {k : ℕ} {ms : List Msg} {s : Server} {j : ℕ} {n : Msg}
    → Busy (s.conn j) n
    → Stays kernel k ms s j
    → Continues kernel k ms s j
Stays-Continues {kernel} {k} {ms} {s} {j} {n} b r =
    let c = r.same.conn in
    record {
      sendable = inr (n, Busy-Same r.same b);
      sequence = ap (λ (c : Conn). c.sequence) c;
      same_stream =
          ap₂
            (λ (w : List ℕ) (c : Conn).
              (w ++ pending c.psend_mem_pointer c.psendbuf)
              ++ waiting j c.sequence (send_each kernel k ms s).1)
            r.same.wire c
          ∙ ap (◌++◌ (s.wire j ++ pending_of j s)) r.wait;
    }

pub stream-Same :
    {j : ℕ} {s t : Server} (ms : List Msg) → Same j s t → stream j t ms ≡ stream j s ms
stream-Same {j} ms same =
    ap₂
      (λ (w : List ℕ) (c : Conn).
        (w ++ pending c.psend_mem_pointer c.psendbuf) ++ waiting j c.sequence ms)
      same.wire same.conn

Continues-skip :
    {kernel : Kernel} {k : ℕ} (m : Msg) {ms : List Msg} {s : Server} {j : ℕ}
    → Same j s (after kernel k m s)
    → (m.conn ≢ j) ⊎ ((s.conn j).sequence ≢ m.sequence)
    → Continues kernel (k + 1) ms (after kernel k m s) j
    → Continues kernel k (m ∷ ms) s j
unfolding send_each
Continues-skip {kernel} {k} m {ms} {s} {j} same h r =
    let u = (send_each kernel (k + 1) ms (after kernel k m s)).0 in
    let q = r.sequence ∙ ap (λ (c : Conn). c.sequence) same.conn in
    let h₁ = subst (λ (n : ℕ). (m.conn ≢ j) ⊎ (n ≢ m.sequence)) (sym q) h in
    record {
      sendable = r.sendable;
      sequence = q;
      same_stream =
          ap (◌++◌ (u.wire j ++ pending_of j u))
            (send_each_skip kernel k m ms s j (u.conn j).sequence h₁)
          ∙ r.same_stream
          ∙ stream-Same ms same
          ∙ ap (◌++◌ (s.wire j ++ pending_of j s))
              (sym (waiting_skip j (s.conn j).sequence m ms true h));
    }

Continues-take :
    {kernel : Kernel} {k : ℕ} {m : Msg} {ms : List Msg} {s : Server}
    → (s.conn m.conn).sequence ≡ m.sequence
    → Takes m.conn s (after kernel k m s) m.bytes
      × ((send_one (kernel k).0 (kernel k).1 m s).1 ≡ false)
    → Continues kernel (k + 1) ms (after kernel k m s) m.conn
    → Continues kernel k (m ∷ ms) s m.conn
unfolding send_each
Continues-take {kernel} {k} {m} {ms} {s} q (take, gone) r =
    let t = after kernel k m s in
    record {
      sendable = r.sendable;
      sequence = r.sequence ∙ take.sequence;
      same_stream = rw gone (
          r.same_stream
          ∙ ap₂ (λ (a : List ℕ) (n : ℕ). a ++ waiting m.conn n ms) take.stream take.sequence
          ∙ append_assoc (s.wire m.conn ++ pending_of m.conn s) m.bytes _
          ∙ ap (◌++◌ (s.wire m.conn ++ pending_of m.conn s)) (sym (waiting_take m ms _ q)));
    }

-- Whatever the queue holds, ...
pub send_each-Continues :
    (kernel : Kernel) (k : ℕ) (ms : List Msg) (s : Server) (j : ℕ)
    → IsSendable (s.conn j)
    → AreWilling kernel k ms
    → Continues kernel k ms s j
send_each-Continues kernel k ms s j (inr (n, b)) are =
    Stays-Continues b (send_each-Busy kernel k ms s j n b)
send_each-Continues kernel k [] s j (inl h) are =
    unfold send_each in record { sendable = inl h; sequence = refl; same_stream = refl }
send_each-Continues kernel k (m ∷ ms) s j (inl h) are = elim (eq_cases m.conn j) [
  | inr d ↦
      let same = send_one-Same (kernel k).0 (kernel k).1 m s j d in
      Continues-skip m same (inl d)
        (send_each-Continues kernel (k + 1) ms _ j (inl (subst Idle (sym same.conn) h)) are.2)
  | inl e ↦
      subst (λ (j : ℕ). Idle (s.conn j) → Continues kernel k (m ∷ ms) s j) e
        (λ h. elim (eq_cases (s.conn m.conn).sequence m.sequence) [
          | inr d ↦
              let same = (send_one_stale (kernel k).0 (kernel k).1 m s d).0 in
              Continues-skip m same (inr d) (
                send_each-Continues kernel (k + 1) ms _ m.conn (inl (subst Idle (sym same.conn) h))
                  are.2)
          | inl q ↦
              let take = send_one-Idle (kernel k).0 (kernel k).1 m s q h are.0 are.1 in
              Continues-take q take
                (send_each-Continues kernel (k + 1) ms _ m.conn take.0.sendable are.2)
        ])
        h
]
