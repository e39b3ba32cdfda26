-- ===== src/Recv/Stream.antt =====
-- Any sequence of readable events of one connection.
use flydragon.Base.{
  ℕ, ◌+◌, ◌≤◌, ◌<◌, ◌≡◌, inl, inr, ap, subst, ◌∙◌, List, [], ◌∷◌, ◌++◌, map, arith, some, length,
}
use flydragon.State.{Msg, Conn, Server, RecvPtr, head_at, msg_at}
use flydragon.Recv.{got, wait_request_handler}
use flydragon.Recv.Framing.{frame, frame-append_packets, frame-append_rest}
use flydragon.Recv.Packets.{concat, ArePackets, frame-concat}
use flydragon.Recv.Represents.{InHead, Represents, packet, Delivers, Delivers-refl, Delivers-trans}
use flydragon.Recv.Readable.{wait_request_handler-Delivers}

-- The events at which bytes came, each at its time.
abbrev pub handle_reads : (ℕ → ℕ) → ℕ → List (ℕ × List ℕ) → Server → Server
handle_reads lo i [] s = s
handle_reads lo i ((now, xs) ∷ rs) s =
    handle_reads lo i rs (wait_request_handler lo (got xs) now i s)

-- What `read` promises: at least one byte, and no more than was asked for.
abbrev pub AreReads : (ℕ → ℕ) → ℕ → List (ℕ × List ℕ) → Server → Type 0
AreReads lo i [] s = Unit {0}
AreReads lo i ((now, xs) ∷ rs) s =
    (0 < length xs)
    × (length xs ≤ (s.conn i).irecvlen)
    × AreReads lo i rs (wait_request_handler lo (got xs) now i s)

-- All the bytes that came.
abbrev pub all_bytes : List (ℕ × List ℕ) → List ℕ
all_bytes [] = []
all_bytes ((now, xs) ∷ rs) = xs ++ all_bytes rs

Delivers-frame :
    {i : ℕ} {s t u : Server} (p xs ys : List ℕ)
    → Delivers i s t (frame p xs).0 (frame p xs).1
    → Delivers i t u (frame (frame p xs).1 ys).0 (frame (frame p xs).1 ys).1
    → Delivers i s u (frame p (xs ++ ys)).0 (frame p (xs ++ ys)).1
Delivers-frame p xs ys d e =
    rw (frame-append_packets p xs ys, frame-append_rest p xs ys) (Delivers-trans d e)

-- If a connection holds the part `p` of a packet, then at any sequence of readable events at which
-- `read` gives between one byte and what was asked for, the packets that reach the message queue,
-- their tasks, and the part that is held in the end are those of the reference on all the bytes
-- that came; the number of the connection and all other connections stay.
pub handle_reads-Delivers :
    (lo : ℕ → ℕ) (i : ℕ) (rs : List (ℕ × List ℕ)) (s : Server) (p : List ℕ)
    → Represents i (s.conn i) p
    → AreReads lo i rs s
    → Delivers i s (handle_reads lo i rs s) (frame p (all_bytes rs)).0 (frame p (all_bytes rs)).1
handle_reads-Delivers lo i [] s p h ok = unfold frame in Delivers-refl i s p h
handle_reads-Delivers lo i ((now, []) ∷ rs) s p h ok = absurd (omega arith)
handle_reads-Delivers lo i ((now, x ∷ xs) ∷ rs) s p h ok =
    let d = wait_request_handler-Delivers lo i s p x xs now h ok.1 in
    Delivers-frame p (x ∷ xs) (all_bytes rs) d
      (handle_reads-Delivers lo i rs _ (frame p (x ∷ xs)).1 d.left ok.2)

-- If a connection awaits a header and what `read` gives, from one byte to what was asked for at each
-- event, are in all the bytes of some packets, then exactly these packets are queued, in order, one
-- task for each, and the connection holds no part of a packet.
pub handle_reads_packets :
    (lo : ℕ → ℕ) (i : ℕ) (rs : List (ℕ × List ℕ)) (s : Server) (ps : List (List ℕ))
    → InHead (s.conn i) []
    → AreReads lo i rs s
    → ArePackets ps
    → all_bytes rs ≡ concat ps
    → let t = handle_reads lo i rs s in
      (t.msg_recv_queue ≡ s.msg_recv_queue ++ map (packet i (s.conn i).sequence) ps)
      × (t.tasks ≡ s.tasks + length ps)
      × Represents i (t.conn i) []
handle_reads_packets lo i rs s ps h ok are e = (d.queue, d.tasks, d.left)
  where
    framed : frame [] (all_bytes rs) ≡ (ps, [])
    framed = ap (frame []) e ∙ frame-concat ps are

    d : Delivers i s (handle_reads lo i rs s) ps []
    d =
        subst (λ (r : List (List ℕ) × List ℕ). Delivers i s (handle_reads lo i rs s) r.0 r.1) framed
          (handle_reads-Delivers lo i rs s [] (inl h) ok)

-- How far the buffer reaches behind the place that `precvbuf` points to.
abbrev pub RoomAt : RecvPtr → Conn → ℕ → Type 0
RoomAt (head_at k) c n = k + n ≤ length c.data_head_info
RoomAt (msg_at k) c n = (m : Msg) × (c.pnew_mem_pointer ≡ some m) × (k + n ≤ length m.bytes)

Represents-RoomAt :
    (i : ℕ) (c : Conn) (p : List ℕ)
    → Represents i c p
    → (0 < c.irecvlen) × RoomAt c.precvbuf c c.irecvlen
Represents-RoomAt i c p (inl h) = (omega (arith, h), rw h.points (omega (arith, h)))
Represents-RoomAt i c p (inr h) = (omega (arith, h), rw h.points (h.msg, h.holds, omega (arith, h)))

-- If a connection holds a part of a packet, then after any sequence of readable events at which `read`
-- gives between one byte and what was asked for, whatever the bytes are, the next `read` asks for at
-- least one byte, so that 0 can only mean that the peer closed, and for no more than the buffer has
-- room for behind `precvbuf`.
pub read_in_bounds :
    (lo : ℕ → ℕ) (i : ℕ) (rs : List (ℕ × List ℕ)) (s : Server) (p : List ℕ)
    → Represents i (s.conn i) p
    → AreReads lo i rs s
    → let c = (handle_reads lo i rs s).conn i in (0 < c.irecvlen) × RoomAt c.precvbuf c c.irecvlen
read_in_bounds lo i rs s p h ok =
    Represents-RoomAt i _ _ (handle_reads-Delivers lo i rs s p h ok).left
