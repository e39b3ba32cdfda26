-- ===== src/Send.antt =====
-- The sending half of net/flyd_socket.cc and net/flyd_socket_request.cc: the queue of messages, the
-- thread that sends them, and the handler that goes on once the socket is writable.
pub mod Same
pub mod Stream
pub mod Queue
pub mod Writable
pub mod Run
pub mod Drain
pub mod OneMessage
pub mod Finishes
pub mod Receiving
use flydragon.Base.{
  ℕ, zero, suc, ◌+◌, ◌-◌, List, [], ◌∷◌, ◌++◌, none, some, Bool, true, false, ◌==◌, not,
  if◌then◌else◌, take, drop, update, increment, decrement, is_positive,
}
use flydragon.Comm.Header.{read_header}
use flydragon.State.{Msg, Conn, Server, set_conn}
use flydragon.State.Memory.{free_memory}
use flydragon.Epoll.{ctl_mod, epollout, oper_event}

-- What `send` gives when it is called until it is not interrupted: EINTR some times, then a number
-- of bytes, EAGAIN or another error.
pub data SendCall : Type 0 where
  interrupted : SendCall → SendCall
  returned : ℕ → SendCall
  again error : SendCall

-- The results of `sendproc`: a number of bytes, 0, -1 and -2.
pub data SendSize : Type 0 where
  sent : ℕ → SendSize
  sent_none full broken : SendSize

-- `sendproc`: the loop over `send`.
unfoldable pub sendproc : SendCall → SendSize
sendproc (interrupted r) = sendproc r
sendproc (returned zero) = sent_none
sendproc (returned (suc n)) = sent (suc n)
sendproc again = full
sendproc error = broken

-- The bytes that `send` takes over to the kernel.
unfoldable pub put_on_wire : SendSize → ℕ → Server → Server
put_on_wire (sent n) i s = elim (s.conn i).psend_mem_pointer [
  | none ↦ s
  | some m ↦ record s {
    wire = update s.wire i (s.wire i ++ take n (drop (s.conn i).psendbuf m.bytes));
  }
]
put_on_wire _ i s = s

-- `msgSend`
unfoldable pub msg_send : Msg → Server → Server
msg_send m s = record s {
  msg_send_queue = s.msg_send_queue ++ m ∷ [];
  send_msg_queue_count = increment s.send_msg_queue_count;
  sem_event_send_queue = s.sem_event_send_queue + 1;
}

-- The message is done with: `FreeMemory(psendMemPointer)`, and a null pointer.
unfoldable pub finish_message : ℕ → Server → Server
finish_message i s = record (set_conn s i (record (s.conn i) { psend_mem_pointer = none })) {
  blocks = free_memory (s.conn i).psend_mem_pointer s.blocks;
}

-- `psendbuf + n`, `isendlen - n`
abbrev pub sent_part : ℕ → Conn → Conn
sent_part n c = record c { psendbuf = c.psendbuf + n; isendlen = c.isendlen - n }

-- The socket is full: the rest is sent when epoll says that it is writable.
unfoldable pub leave_to_epoll : Bool → ℕ → Server → Server
unfolding oper_event
leave_to_epoll ctl_ok i s =
    (oper_event ctl_mod epollout 0 i ctl_ok (
      set_conn s i
        (record (s.conn i) { throw_send_count = increment (s.conn i).throw_send_count }))).0

-- What ServerSendQueueThread does with the result of `sendproc`.
unfoldable pub after_send : SendSize → Bool → ℕ → Server → Server
unfolding finish_message leave_to_epoll
after_send (sent n) ctl_ok i s =
    if n == (s.conn i).isendlen
    then finish_message i s
    else leave_to_epoll ctl_ok i (set_conn s i (sent_part n (s.conn i)))
after_send sent_none ctl_ok i s = finish_message i s
after_send full ctl_ok i s = leave_to_epoll ctl_ok i s
after_send broken ctl_ok i s = finish_message i s

-- The message becomes the one that the connection sends.
unfoldable pub start_message : Msg → Server → Server
unfolding read_header
start_message m s =
    record (set_conn s m.conn (record (s.conn m.conn) {
      psend_mem_pointer = some m;
      psendbuf = 0;
      isendlen = (read_header m.bytes).pkg_len;
    })) { send_msg_queue_count = decrement s.send_msg_queue_count }

-- One message of the queue; the second result says whether it stays there.
unfoldable pub send_one : SendCall → Bool → Msg → Server → Server × Bool
unfolding start_message put_on_wire after_send sendproc
send_one call ctl_ok m s =
    if not ((s.conn m.conn).sequence == m.sequence)
    then (
      record s {
        send_msg_queue_count = decrement s.send_msg_queue_count;
        blocks = free_memory (some m) s.blocks;
      },
      false,
    )
    else if is_positive (s.conn m.conn).throw_send_count
    then (s, true)
    else let size = sendproc call in
      (after_send size ctl_ok m.conn (put_on_wire size m.conn (start_message m s)), false)

-- What the kernel does at the k-th message of a pass.
abbrev pub Kernel : Type 0
Kernel = ℕ → SendCall × Bool

-- The loop over the queue, under its lock: the new state, and the messages that stay in the queue.
unfoldable pub send_each : Kernel → ℕ → List Msg → Server → Server × List Msg
unfolding send_one
send_each kernel k [] s = (s, [])
send_each kernel k (m ∷ ms) s =
    let (t, stays) = send_one (kernel k).0 (kernel k).1 m s in
    let (u, rest) = send_each kernel (k + 1) ms t in (u, if stays then m ∷ rest else rest)

unfoldable pub send_pass : Kernel → Server → Server
unfolding send_each
send_pass kernel s =
    let (t, rest) = send_each kernel 0 s.msg_send_queue s in record t { msg_send_queue = rest }

-- One round of ServerSendQueueThread, once `sem_wait` returned: by taking one from the semaphore, or
-- interrupted. The second result says that the thread ends.
unfoldable pub send_round : Bool → Kernel → Server → Server × Bool
unfolding send_pass
send_round taken kernel s =
    let t = if taken then record s { sem_event_send_queue = s.sem_event_send_queue - 1 } else s in
    if t.stop_event == 0
    then (if is_positive t.send_msg_queue_count then send_pass kernel t else t, false)
    else (t, true)

-- The end of `flyd_write_request_handler`.
unfoldable pub write_done : ℕ → Server → Server
unfolding finish_message
write_done i s =
    let t = finish_message i (record s { sem_event_send_queue = s.sem_event_send_queue + 1 }) in
    set_conn t i (record (t.conn i) { throw_send_count = decrement (t.conn i).throw_send_count })

after_write : SendSize → Bool → ℕ → Server → Server
unfolding write_done oper_event
after_write (sent n) ctl_ok i s =
    if n == (s.conn i).isendlen
    then write_done i (oper_event ctl_mod epollout 1 i ctl_ok s).0
    else set_conn s i (sent_part n (s.conn i))
after_write full ctl_ok i s = s
after_write _ ctl_ok i s = write_done i s

-- `flyd_write_request_handler`
unfoldable pub write_request_handler : SendCall → Bool → ℕ → Server → Server
unfolding sendproc put_on_wire after_write
write_request_handler call ctl_ok i s =
    let size = sendproc call in after_write size ctl_ok i (put_on_wire size i s)

-- The loop of `clearMsgSendQueue`, over the messages that are left.
clear_messages : List Msg → Server → Server
clear_messages [] s = record s { msg_send_queue = [] }
clear_messages (m ∷ ms) s =
    clear_messages ms (record s { msg_send_queue = ms; blocks = free_memory (some m) s.blocks })

-- `clearMsgSendQueue`
unfoldable pub clear_msg_send_queue : Server → Server
unfolding clear_messages
clear_msg_send_queue s = clear_messages s.msg_send_queue s
