-- ===== src/Recv/Tests.antt =====
-- Tests of Recv, and its theorems at concrete inputs.
use flydragon.Base.{ℕ, ◌≡◌, refl, List, [], ◌∷◌, ◌<◌, inl, arith, map, ◌+◌, ◌++◌}
use flydragon.Comm.Header.{read_header}
use flydragon.State.{Server, new_socket}
use flydragon.Pool.{new_connection, get_one_to_use}
use flydragon.Recv.{wait_request_handler}
use flydragon.Recv.Packets.{ArePackets}
use flydragon.Recv.Framing.{frame}
use flydragon.Recv.Represents.{InHead, Represents, packet, Delivers}
use flydragon.Recv.Stream.{
  handle_reads, AreReads, all_bytes, handle_reads-Delivers, handle_reads_packets, read_in_bounds,
  RoomAt,
}

-- One connection, just taken from the pool.
abbrev ready : Server
ready = record (new_socket (λ _. get_one_to_use 100 new_connection)) { next_conn = 1 }

abbrev left_over : ℕ → ℕ
left_over n = 255

abbrev ping : List ℕ
ping = 0 ∷ 8 ∷ 0 ∷ 0 ∷ 0 ∷ 0 ∷ 0 ∷ 0 ∷ []

abbrev login : List ℕ
login = 0 ∷ 10 ∷ 0 ∷ 6 ∷ 1 ∷ 2 ∷ 3 ∷ 4 ∷ 65 ∷ 66 ∷ []

-- Two packets in five pieces.
abbrev pieces : List (ℕ × List ℕ)
pieces =
    (101, 0 ∷ 8 ∷ 0 ∷ [])
    ∷ (101, 0 ∷ 0 ∷ 0 ∷ 0 ∷ 0 ∷ [])
    ∷ (102, 0 ∷ 10 ∷ 0 ∷ 6 ∷ 1 ∷ 2 ∷ 3 ∷ 4 ∷ [])
    ∷ (103, 65 ∷ [])
    ∷ (104, 66 ∷ [])
    ∷ []

ready-InHead : InHead (ready.conn 0) []
unfolding new_connection get_one_to_use
ready-InHead = record {
  short = omega arith;
  points = refl;
  wants = refl;
  filled = refl;
  room = refl;
  stat = inl (refl, refl);
}

pieces-AreReads : AreReads left_over 0 pieces ready
unfolding wait_request_handler new_connection get_one_to_use
pieces-AreReads = omega arith

packets-ArePackets : ArePackets (ping ∷ login ∷ [])
unfolding read_header
packets-ArePackets = omega arith

queue_after_pieces :
    (handle_reads left_over 0 pieces ready).msg_recv_queue ≡ packet 0 1 ping ∷ packet 0 1 login ∷ []
unfolding wait_request_handler new_connection get_one_to_use
queue_after_pieces = refl

handle_reads-Delivers_example :
    Delivers 0 ready
      (handle_reads left_over 0 pieces ready)
      (frame [] (all_bytes pieces)).0
      (frame [] (all_bytes pieces)).1
handle_reads-Delivers_example =
    handle_reads-Delivers left_over 0 pieces ready [] (inl ready-InHead) pieces-AreReads

handle_reads_packets_example :
    let t = handle_reads left_over 0 pieces ready in
    (t.msg_recv_queue
      ≡ ready.msg_recv_queue ++ map (packet 0 (ready.conn 0).sequence) (ping ∷ login ∷ []))
    × (t.tasks ≡ ready.tasks + 2)
    × Represents 0 (t.conn 0) []
handle_reads_packets_example =
    handle_reads_packets left_over 0 pieces ready (ping ∷ login ∷ []) ready-InHead pieces-AreReads
      packets-ArePackets refl

read_in_bounds_example :
    let c = (handle_reads left_over 0 pieces ready).conn 0 in
    (0 < c.irecvlen) × RoomAt c.precvbuf c c.irecvlen
read_in_bounds_example =
    read_in_bounds left_over 0 pieces ready [] (inl ready-InHead) pieces-AreReads
