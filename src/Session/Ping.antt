-- ===== src/Session/Ping.antt =====
-- A ping from the first byte that is read to the last byte of its answer.
use flydragon.Base.{
  ℕ, ◌-◌, ◌≡◌, inl, inr, refl, sym, ap, subst, ◌∙◌, List, [], ◌∷◌, ◌++◌, none, some, Bool, arith,
  is_positive, decrement, increment,
}
use flydragon.Comm.Header.{read_header, write_header}
use flydragon.State.{Msg, Conn, Server, set_conn}
use flydragon.State.Memory.{alloc_memory}
use flydragon.Recv.Framing.{frame}
use flydragon.Recv.Packets.{frame-concat}
use flydragon.Recv.Represents.{InHead, Represents, packet, Delivers}
use flydragon.Recv.Stream.{handle_reads, AreReads, all_bytes, handle_reads-Delivers}
use flydragon.Recv.Sending.{handle_reads-SendsSame, same_throws, same_holds}
use flydragon.Send.{sent, sendproc, Kernel, msg_send, send_round}
use flydragon.Send.Stream.{Idle}
use flydragon.Send.OneMessage.{send_round-Went}
use flydragon.Logic.{
  handle_ping, crc_ok, process, call_handler, on_ping, send_no_body_pkg_to_client, no_body_pkg,
  take_message, thread_recv_proc_func,
}
use flydragon.Logic.Gate.{find_handler-some}
use flydragon.Session.{ping_packet, Quiet}

frame_ping : frame [] ping_packet ≡ (ping_packet ∷ [], [])
unfolding read_header
frame_ping = frame-concat (ping_packet ∷ []) (omega arith)

-- The task for a ping.
abbrev taken_off : List Msg → Server → Server
taken_off q t = record t {
  msg_recv_queue = q;
  recv_msg_queue_count = decrement t.recv_msg_queue_count;
  tasks = t.tasks - 1;
}

abbrev answered : ℕ → Msg → Server → Server
answered now m t =
    msg_send (no_body_pkg m 0)
      (record (set_conn t m.conn (record (t.conn m.conn) { last_ping_time = now })) {
        blocks = alloc_memory t.blocks;
      })

process_ping :
    (lo : ℕ → ℕ) (now i sequence : ℕ) (t : Server)
    → (t.conn i).sequence ≡ sequence
    → process lo now (packet i sequence ping_packet) t
      ≡ answered now (packet i sequence ping_packet) t
unfolding process read_header crc_ok call_handler on_ping send_no_body_pkg_to_client
process_ping lo now i sequence t e =
    let h = (find_handler-some (packet i sequence ping_packet) t handle_ping).1 (refl, e, refl) in
    rw (h, process) refl

task_ping :
    (lo : ℕ → ℕ) (now i sequence : ℕ) (t : Server)
    → t.msg_recv_queue ≡ packet i sequence ping_packet ∷ []
    → (t.conn i).sequence ≡ sequence
    → thread_recv_proc_func lo now t
      ≡ some (answered now (packet i sequence ping_packet) (taken_off [] t))
unfolding thread_recv_proc_func take_message
task_ping lo now i sequence t q e =
    rw (q, thread_recv_proc_func)
      (ap (λ (u : Server). some u) (process_ping lo now i sequence (taken_off [] t) e))

-- The answer, a header alone for the connection of the ping.
pong_of : (i sequence : ℕ) → (no_body_pkg (packet i sequence ping_packet) 0).bytes ≡ ping_packet
unfolding no_body_pkg write_header
pong_of i sequence = refl

-- The state behind the task: its answer waits, alone.
record Answers (i sequence now : ℕ) (s u : Server) : Type 0 where
  conn : u.conn i ≡ record (s.conn i) { last_ping_time = now }
  wire : u.wire i ≡ s.wire i
  queue : u.msg_send_queue ≡ s.msg_send_queue ++ packet i sequence ping_packet ∷ []
  count : u.send_msg_queue_count ≡ increment s.send_msg_queue_count
  received : u.msg_recv_queue ≡ s.msg_recv_queue
  stop : u.stop_event ≡ s.stop_event

answered-Answers :
    (i sequence now : ℕ) (s : Server)
    → Answers i sequence now s (answered now (packet i sequence ping_packet) s)
unfolding msg_send no_body_pkg write_header
answered-Answers i sequence now s = record {
  conn = ground arith;
  wire = refl;
  queue = refl;
  count = refl;
  received = refl;
  stop = refl;
}

-- Only what the connection sends, and when it was last heard of, is different.
InHead-sent :
    (c : Conn) (now : ℕ) (p : List ℕ)
    → InHead c p
    → InHead
        (record c { last_ping_time = now; psend_mem_pointer = none; psendbuf = 0; isendlen = 8 })
        p
InHead-sent c now p h = record {
  short = h.short;
  points = h.points;
  wants = h.wants;
  filled = h.filled;
  room = h.room;
  stat = h.stat;
}

-- A connection that holds no byte of a packet awaits a header.
empty-InHead : (i : ℕ) (c : Conn) → Represents i c [] → InHead c []
empty-InHead i c (inl h) = h
empty-InHead i c (inr h) = absurd (omega (arith, h.header))

-- The fields once the answer is sent.
abbrev all_sent : Conn → Conn
all_sent c = record c { psend_mem_pointer = none; psendbuf = 0; isendlen = 8 }

-- Some client's connection is quiet, the bytes of a ping come in any pieces, from one byte to what
-- was asked for at each event, the task runs, and the thread sends with a socket that takes the whole
-- message. Then the task does not fail, the answer, again a ping, is on the wire of the connection
-- behind what was there, the time of the ping is noted, and the connection is quiet again.
pub ping-answered :
    (lo : ℕ → ℕ) (i now : ℕ) (rs : List (ℕ × List ℕ)) (taken : Bool) (kernel : Kernel) (s : Server)
    → Quiet i s
    → AreReads lo i rs s
    → all_bytes rs ≡ ping_packet
    → sendproc (kernel 0).0 ≡ sent 8
    → (u : Server) × (thread_recv_proc_func lo now (handle_reads lo i rs s) ≡ some u)
      × let v = (send_round taken kernel u).0 in
        Quiet i v × (v.wire i ≡ s.wire i ++ ping_packet) × ((v.conn i).last_ping_time ≡ now)
unfolding read_header
ping-answered lo i now rs taken kernel s h are bytes took =
    let t = handle_reads lo i rs s in
    let d : Delivers i s t (ping_packet ∷ []) [] =
      subst (λ (r : List (List ℕ) × List ℕ). Delivers i s t r.0 r.1)
        (ap (frame []) bytes ∙ frame_ping)
        (handle_reads-Delivers lo i rs s [] (inl h.receives) are) in
    let same = handle_reads-SendsSame lo i rs s are in
    let sequence = (s.conn i).sequence in
    let m = packet i sequence ping_packet in
    let t₁ = taken_off [] t in
    let u = answered now m t₁ in
    let a = answered-Answers i sequence now t₁ in
    let e : (t.conn i).sequence ≡ sequence = d.sequence in
    let queue = d.queue ∙ ap (λ (q : List Msg). q ++ m ∷ []) h.received in
    let idle : Idle (t.conn i) = record {
      throws = same_throws same ∙ h.sends.throws;
      nothing = same_holds same ∙ h.sends.nothing;
    } in
    let w = send_round-Went taken kernel m u (record {
      go = a.stop ∙ same.stop ∙ h.running;
      counted = ap is_positive (a.count ∙ ap increment (same.count ∙ h.count));
      queue = a.queue ∙ ap (λ (q : List Msg). q ++ m ∷ []) (same.queue ∙ h.to_send);
      current = ap (λ (c : Conn). c.sequence) a.conn ∙ e;
      idle = subst Idle (sym a.conn) (record { throws = idle.throws; nothing = idle.nothing });
      whole = refl;
      took = took;
    }) in
    let c = w.conn ∙ ap all_sent a.conn in
    (
      u,
      task_ping lo now i sequence t queue e,
      (
        record {
          receives =
              subst (λ (c : Conn). InHead c []) (sym c)
                (InHead-sent (t.conn i) now [] (empty-InHead i (t.conn i) d.left));
          sends = subst Idle (sym c) (record { throws = idle.throws; nothing = refl });
          received = w.received ∙ a.received;
          to_send = w.queue;
          count = w.count ∙ ap decrement (a.count ∙ ap increment (same.count ∙ h.count));
          running = w.stop ∙ a.stop ∙ same.stop ∙ h.running;
        },
        w.wire ∙ ap (λ (b : List ℕ). b ++ ping_packet) (a.wire ∙ same.wire),
        ap (λ (c : Conn). c.last_ping_time) c,
      ),
    )
