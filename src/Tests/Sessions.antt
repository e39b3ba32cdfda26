-- ===== src/Tests/Sessions.antt =====
-- Clients and their messages from end to end at concrete inputs.
use flydragon.Base.{ℕ, zero, suc, ◌≡◌, refl, inl, arith, List, [], ◌∷◌, ◌++◌, some, Bool, true}
use flydragon.Comm.Header.{read_header}
use flydragon.State.{Msg, Server, wait_request}
use flydragon.Pool.{new_connection, get_one_to_use}
use flydragon.Recv.{got, wait_request_handler}
use flydragon.Recv.Framing.{frame}
use flydragon.Recv.Represents.{InHead, Delivers}
use flydragon.Recv.Stream.{handle_reads, AreReads, all_bytes}
use flydragon.Accept.{Answers, other_error}
use flydragon.Events.{Event}
use flydragon.Events.Reads.{waits, join, worker_loop-Delivers}
use flydragon.Process.Worker.{worker_loop}
use flydragon.Send.{
  SendCall, returned, interrupted, again, sendproc, Kernel, send_round, write_request_handler,
}
use flydragon.Send.Stream.{Idle}
use flydragon.Send.Drain.{AreTaken, Drained, send_round-Drained}
use flydragon.Send.Finishes.{Finishes, Progresses, writes-Finishes}
use flydragon.Logic.{thread_recv_proc_func}
use flydragon.Session.{ping_packet, Quiet}
use flydragon.Session.Task.{popped}
use flydragon.Session.Run.{Run}
use flydragon.Session.Serves.{Serves}
use flydragon.Logic.{process}
use flydragon.Session.Ping.{ping-answered}
use flydragon.Tests.{one_use, two_clients, pong}

-- The bytes of a ping in two pieces.
abbrev ping_reads : List (ℕ × List ℕ)
ping_reads = (101, 0 ∷ 8 ∷ 0 ∷ []) ∷ (102, 0 ∷ 0 ∷ 0 ∷ 0 ∷ 0 ∷ []) ∷ []

two_clients-InHead : InHead (two_clients.conn 1) []
unfolding new_connection get_one_to_use one_use
two_clients-InHead = record {
  short = omega arith;
  points = refl;
  wants = refl;
  filled = refl;
  room = refl;
  stat = inl (refl, refl);
}

two_clients-Idle : Idle (two_clients.conn 1)
unfolding new_connection get_one_to_use one_use
two_clients-Idle = record { throws = refl; nothing = refl }

ping_reads-AreReads : AreReads (λ _. 255) 1 ping_reads two_clients
unfolding wait_request_handler new_connection get_one_to_use one_use
ping_reads-AreReads = omega arith

-- The socket takes eight bytes, once `send` was interrupted.
abbrev takes_eight : Kernel
takes_eight k = (interrupted (returned 8), true)

ping-answered_example :
    (u : Server) × (thread_recv_proc_func
        (λ _. 255)
        103
        (handle_reads (λ _. 255) 1 ping_reads two_clients)
      ≡ some u)
    × let v = (send_round true takes_eight u).0 in
      Quiet 1 v × (v.wire 1 ≡ two_clients.wire 1 ++ ping_packet) × ((v.conn 1).last_ping_time ≡ 103)
ping-answered_example =
    ping-answered (λ _. 255) 1 103 ping_reads true takes_eight two_clients
      (record {
        receives = two_clients-InHead;
        sends = two_clients-Idle;
        received = refl;
        to_send = refl;
        count = refl;
        running = refl;
      })
      ping_reads-AreReads refl (unfold sendproc in refl)

-- A message waits for each client.
abbrev two_wait : Server
two_wait = record two_clients { msg_send_queue = pong 1 ∷ pong 0 ∷ []; send_msg_queue_count = 2 }

two_wait-AreTaken : AreTaken takes_eight 0 two_wait.msg_send_queue
unfolding read_header sendproc
two_wait-AreTaken = (refl, refl, (refl, refl, _))

send_round-Drained_example : Drained 1 two_wait (send_round true takes_eight two_wait).0
send_round-Drained_example =
    send_round-Drained true takes_eight 1 two_wait refl refl two_clients-Idle two_wait-AreTaken

-- Connection 1 has three bytes of its message left.
abbrev three_left : Server
three_left = record two_clients {
  conn = λ i. record one_use {
    throw_send_count = 1;
    psend_mem_pointer = some (pong 1);
    psendbuf = 5;
    isendlen = 3;
  };
}

-- A byte at each notification.
abbrev one_byte : ℕ → SendCall × Bool
one_byte n = (returned 1, true)

one_byte-Progresses : Progresses one_byte 1 three_left
unfolding sendproc write_request_handler one_use new_connection get_one_to_use
one_byte-Progresses zero m l b = (1, refl, omega arith, omega arith)
one_byte-Progresses (suc zero) m l b = (1, refl, omega arith, omega arith)
one_byte-Progresses (suc (suc zero)) m l b = (1, refl, omega arith, omega arith)
one_byte-Progresses (suc (suc (suc n))) m l b = absurd (omega arith)

writes-Finishes_example : Finishes one_byte 1 3 three_left
writes-Finishes_example =
    writes-Finishes one_byte 1 three_left (pong 1)
      (record { throws = refl; holds = refl; wants = refl }) (omega arith) one_byte-Progresses

-- The client of connection 1 is handled by `flyd_wait_request_handler`.
abbrev reading : Server
reading = record two_clients { conn = λ i. record one_use { rhandler = wait_request } }

abbrev no_answers : Answers
no_answers = record { accept4 = other_error; accept = other_error; nonblocking = true; ctl = true }

-- An event at which a socket is readable.
abbrev readable_now : Event
readable_now = record {
  conn = 1;
  revents = 1;
  now = 100;
  read = got [];
  write = again;
  ctl = true;
  answers = no_answers;
}

reading-AreReads : AreReads (λ _. 255) 1 (join (ping_reads ∷ [])) reading
unfolding wait_request_handler new_connection get_one_to_use one_use
reading-AreReads = omega arith

worker_loop-Delivers_example :
    let (t, b) =
      worker_loop
        (λ _. 255)
        (waits (λ _. 255) 1 readable_now refl refl (ping_reads ∷ []))
        (reading, true) in
    Delivers 1 reading t
      (frame [] (all_bytes (join (ping_reads ∷ [])))).0
      (frame [] (all_bytes (join (ping_reads ∷ [])))).1
    × (b ≡ true)
worker_loop-Delivers_example =
    worker_loop-Delivers (λ _. 255) 1 readable_now refl refl (ping_reads ∷ []) reading true [] refl
      (inl (record {
        short = two_clients-InHead.short;
        points = two_clients-InHead.points;
        wants = two_clients-InHead.wants;
        filled = two_clients-InHead.filled;
        room = two_clients-InHead.room;
        stat = two_clients-InHead.stat;
      }))
      reading-AreReads

-- A byte arrives at connection 0, a whole ping at connection 1, its task runs, and the answer is sent.
abbrev first_byte : Server
first_byte = wait_request_handler (λ _. 255) (got (0 ∷ [])) 101 0 two_clients

abbrev ping_came : Server
ping_came = wait_request_handler (λ _. 255) (got ping_packet) 102 1 first_byte

abbrev ping_message : Msg
ping_message = record { conn = 1; sequence = 1; bytes = ping_packet }

abbrev ping_done : Server
ping_done = process (λ _. 255) 103 ping_message (popped [] ping_came)
