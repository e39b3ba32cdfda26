-- ===== src/Recv.antt =====
-- net/flyd_socket_request.cc, the receiving half: the state machine that cuts the byte stream of a
-- connection into packets. What `read` gives and `time(NULL)` are arguments of a readable event.
pub mod Framing
pub mod Ends
pub mod Packets
pub mod Receive
pub mod Headers
pub mod Readable
pub mod Stream
pub mod Sending
mod Tests
pub mod Represents
use flydragon.Base.{
  ℕ, ◌+◌, ◌-◌, List, [], ◌∷◌, ◌++◌, Option, none, some, Bool, true, false, ltb, ◌==◌, if◌then◌else◌,
  length, take, blit, increment,
}
use flydragon.Comm.{
  RecvStat, hd_init, hd_recving, bd_init, bd_recving, len_pkg_header, pkg_max_length,
}
use flydragon.Comm.Header.{read_header}
use flydragon.State.{Msg, RecvPtr, head_at, msg_at, Conn, Server, set_conn}
use flydragon.State.Memory.{alloc_bytes, alloc_memory}
use flydragon.Close.{zd_closesocket_proc}

-- The `errno` values that `recvproc` tells apart.
pub data Errno : Type 0 where
  eagain ewouldblock eintr econnreset other_errno : Errno

-- What `read` gives: some bytes, of which no byte means that the peer has closed, or -1.
pub data ReadResult : Type 0 where
  got : List ℕ → ReadResult
  failed : Errno → ReadResult

-- `precvbuf + n`
abbrev pub advance : ℕ → RecvPtr → RecvPtr
advance n (head_at k) = head_at (k + n)
advance n (msg_at k) = msg_at (k + n)

-- `read` copies the bytes to where `precvbuf` points.
store_at : RecvPtr → List ℕ → Conn → Conn
store_at (head_at k) xs c = record c { data_head_info = blit c.data_head_info k xs }
store_at (msg_at k) xs c = elim c.pnew_mem_pointer [
  | none ↦ c
  | some m ↦ record c { pnew_mem_pointer = some (record m { bytes = blit m.bytes k xs }) }
]

unfoldable pub deposit : List ℕ → Conn → Conn
unfolding store_at
deposit xs c = store_at c.precvbuf xs c

-- The errors that `recvproc` takes for no error.
abbrev pub is_transient : Errno → Bool
is_transient eagain = true
is_transient ewouldblock = true
is_transient eintr = true
is_transient _ = false

-- `recvproc`: the number of bytes that came, `none` for -1.
unfoldable pub recvproc : ReadResult → ℕ → ℕ → Server → Server × Option ℕ
unfolding deposit
recvproc (got []) now i s = (zd_closesocket_proc now i s, none)
recvproc (got (x ∷ xs)) now i s =
    (set_conn s i (deposit (x ∷ xs) (s.conn i)), some (length (x ∷ xs)))
recvproc (failed e) now i s =
    if is_transient e then (s, none) else (zd_closesocket_proc now i s, none)

-- `inMsgRecvQueue`
unfoldable pub in_msg_recv_queue : Msg → Server → Server
in_msg_recv_queue m s = record s {
  msg_recv_queue = s.msg_recv_queue ++ m ∷ [];
  recv_msg_queue_count = increment s.recv_msg_queue_count;
}

-- The three lines that make a connection wait for a header.
abbrev pub await_header : Conn → Conn
await_header c = record c { cur_stat = hd_init; precvbuf = head_at 0; irecvlen = len_pkg_header }

-- `flyd_wait_request_handler_proc_plast` with the packet that `pnewMemPointer` holds.
unfoldable pub proc_plast : ℕ → Server → Server
unfolding in_msg_recv_queue
proc_plast i s = elim (s.conn i).pnew_mem_pointer [
  | none ↦ s
  | some m ↦
      let t = in_msg_recv_queue m s in
      record t {
        tasks = t.tasks + 1;
        conn =
            (set_conn t i (record (await_header (t.conn i)) {
              ifnewrecv_mem = false;
              pnew_mem_pointer = none;
            })).conn;
      }
]

-- A header with a length out of range is dropped.
unfoldable pub reject_header : ℕ → Server → Server
reject_header i s = set_conn s i (await_header (s.conn i))

-- The buffer for a packet of `len` bytes, with the header copied in.
unfoldable pub new_message : (ℕ → ℕ) → ℕ → ℕ → Conn → Msg
unfolding alloc_bytes
new_message left_over i len c = record {
  conn = i;
  sequence = c.sequence;
  bytes = blit (alloc_bytes left_over len false) 0 (take len_pkg_header c.data_head_info);
}

-- The last branch of `flyd_wait_request_handler_proc_p1`.
unfoldable pub accept_header : (ℕ → ℕ) → ℕ → ℕ → Server → Server
unfolding new_message proc_plast
accept_header left_over len i s =
    let c = record (s.conn i) {
      ifnewrecv_mem = true;
      pnew_mem_pointer = some (new_message left_over i len (s.conn i));
    } in
    let t = record (set_conn s i c) { blocks = alloc_memory s.blocks } in
    if len == len_pkg_header
    then proc_plast i t
    else set_conn t i (record (t.conn i) {
      cur_stat = bd_init;
      precvbuf = msg_at len_pkg_header;
      irecvlen = len - len_pkg_header;
    })

-- `flyd_wait_request_handler_proc_p1`
unfoldable pub proc_p1 : (ℕ → ℕ) → ℕ → Server → Server
unfolding reject_header accept_header read_header
proc_p1 left_over i s =
    let len = (read_header (s.conn i).data_head_info).pkg_len in
    if ltb len len_pkg_header
    then reject_header i s
    else if ltb (pkg_max_length - 1000) len
    then reject_header i s
    else accept_header left_over len i s

-- A part of what was asked for has come: the state, the pointer and the wanted length move on.
abbrev pub moved : RecvStat → ℕ → Conn → Conn
moved stat n c = record c {
  cur_stat = stat;
  precvbuf = advance n c.precvbuf;
  irecvlen = c.irecvlen - n;
}

unfoldable pub move_on : RecvStat → ℕ → ℕ → Server → Server
move_on stat n i s = set_conn s i (moved stat n (s.conn i))

-- The branches of `flyd_wait_request_handler` on the state, once `n` bytes came.
unfoldable pub receive : (ℕ → ℕ) → RecvStat → ℕ → ℕ → Server → Server
receive left_over hd_init n i s =
    if n == len_pkg_header then proc_p1 left_over i s else move_on hd_recving n i s
receive left_over hd_recving n i s =
    if (s.conn i).irecvlen == n then proc_p1 left_over i s else move_on hd_recving n i s
receive left_over bd_init n i s =
    if n == (s.conn i).irecvlen then proc_plast i s else move_on bd_recving n i s
receive left_over bd_recving n i s =
    if (s.conn i).irecvlen == n then proc_plast i s else move_on bd_recving n i s

unfoldable pub after_read : (ℕ → ℕ) → ℕ → Server × Option ℕ → Server
after_read left_over i (s, none) = s
after_read left_over i (s, some n) = receive left_over (s.conn i).cur_stat n i s

-- `flyd_wait_request_handler`
unfoldable pub wait_request_handler : (ℕ → ℕ) → ReadResult → ℕ → ℕ → Server → Server
unfolding recvproc after_read receive proc_p1 proc_plast move_on
wait_request_handler left_over r now i s = after_read left_over i (recvproc r now i s)

-- `tmpoutMsgRecvQueue`: a queue of 1000 messages or more is cut down to the last 500.
unfoldable pub drop_front : ℕ → List Msg → ℕ → List Msg × ℕ
drop_front ℕ.zero q blocks = (q, blocks)
drop_front (ℕ.suc n) [] blocks = ([], blocks)
drop_front (ℕ.suc n) (m ∷ q) blocks = drop_front n q (blocks - 1)

unfoldable pub tmpout_msg_recv_queue : Server → Server
unfolding drop_front
tmpout_msg_recv_queue s =
    let size = length s.msg_recv_queue in
    if ltb size 1000
    then s
    else let (q, left) = drop_front (size - 500) s.msg_recv_queue s.blocks in
      record s { msg_recv_queue = q; blocks = left }
