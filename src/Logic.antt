-- ===== src/Logic.antt =====
-- logic/flyd_logic.cc and logic/flyd_logic_comm.h: what is done with a packet that was received.
pub mod Gate
use flydragon.Base.{
  ℕ, ◌+◌, ◌-◌, ◌*◌, List, [], ◌∷◌, ◌++◌, Option, none, some, Bool, true, false, not, ltb, leb, ◌==◌,
  if◌then◌else◌, take, drop, get_elem?, decrement, u16,
}
use flydragon.Comm.{len_pkg_header}
use flydragon.Comm.Header.{read_header, write_header}
use flydragon.Crc.{get_crc}
use flydragon.State.{Msg, Server, Timer, set_conn}
use flydragon.State.Memory.{alloc_bytes, alloc_memory, free_memory}
use flydragon.Send.{msg_send}
use flydragon.Close.{zd_closesocket_proc}

-- `_CMD_PING`, `_CMD_REGISTER` and `_CMD_LOGIN`
abbrev pub cmd_ping : ℕ
cmd_ping = 0

abbrev pub cmd_register : ℕ
cmd_register = 5

abbrev pub cmd_login : ℕ
cmd_login = 6

-- The member functions in `statusHandler`.
pub data Command : Type 0 where
  handle_ping handle_register handle_log_in : Command

abbrev pub status_handler : List (Option Command)
status_handler =
    some handle_ping ∷ none ∷ none ∷ none ∷ none ∷ some handle_register ∷ some handle_log_in ∷ []

-- AUTH_TOTAL_COMMANDS
abbrev pub auth_total_commands : ℕ
auth_total_commands = 7

-- The size of STRUCT_REGISTER: an int, 56 and 40 characters, packed.
abbrev pub size_struct_register : ℕ
size_struct_register = 100

-- `SendNoBodyPkgToClient`: a header alone, for the connection of the message.
unfoldable pub no_body_pkg : Msg → ℕ → Msg
unfolding write_header
no_body_pkg m code = record m {
  bytes = write_header (record { pkg_len = len_pkg_header; msg_code = code; crc32 = 0 });
}

unfoldable pub send_no_body_pkg_to_client : Msg → ℕ → Server → Server
unfolding no_body_pkg msg_send
send_no_body_pkg_to_client m code s =
    msg_send (no_body_pkg m code) (record s { blocks = alloc_memory s.blocks })

-- `_HandlePing`
unfoldable pub on_ping : ℕ → Msg → ℕ → Server → Server × Bool
unfolding send_no_body_pkg_to_client
on_ping now m body_length s = if not (body_length == 0) then (s, false) else (
  send_no_body_pkg_to_client m cmd_ping
      (set_conn s m.conn (record (s.conn m.conn) { last_ping_time = now })),
  true,
)

-- `iSendLen` of `_HandleRegister`
abbrev pub register_send_len : ℕ
register_send_len = 65000

-- The answer to a registration with a given body.
unfoldable pub register_packet : List ℕ → Msg → Msg
unfolding write_header
register_packet body m = record m {
  bytes =
      write_header (record {
        pkg_len = u16 (len_pkg_header + register_send_len);
        msg_code = cmd_register;
        crc32 = get_crc body;
      })
      ++ body;
}

-- The answer to a registration; its body is what the allocator left there.
unfoldable pub register_reply : (ℕ → ℕ) → Msg → Msg
unfolding register_packet
register_reply left_over m = register_packet (alloc_bytes left_over register_send_len false) m

-- `_HandleRegister`; `has_body` says that the pointer to the body is not null.
unfoldable pub on_register : (ℕ → ℕ) → Msg → Bool → ℕ → Server → Server × Bool
unfolding msg_send
on_register left_over m has_body body_length s =
    if not has_body
    then (s, false)
    else if not (size_struct_register == body_length)
    then (s, false)
    else (msg_send (register_reply left_over m) (record s { blocks = alloc_memory s.blocks }), true)

-- The call through `statusHandler`.
unfoldable pub call_handler : (ℕ → ℕ) → ℕ → Command → Msg → Bool → ℕ → Server → Server
unfolding on_ping on_register
call_handler left_over now handle_ping m has_body body_length s = (on_ping now m body_length s).0
call_handler left_over now handle_register m has_body body_length s =
    (on_register left_over m has_body body_length s).0
call_handler left_over now handle_log_in m has_body body_length s = s

-- The CRC test of `threadRecvProcFunc`.
unfoldable pub crc_ok : Msg → Bool
unfolding read_header
crc_ok m =
    let h = read_header m.bytes in
    if len_pkg_header == h.pkg_len
    then h.crc32 == 0
    else get_crc (take (h.pkg_len - len_pkg_header) (drop len_pkg_header m.bytes)) == h.crc32

-- The handler that `threadRecvProcFunc` comes to, if all its tests pass.
unfoldable pub find_handler : Msg → Server → Option Command
unfolding crc_ok read_header
find_handler m s =
    let code = (read_header m.bytes).msg_code in
    if not (crc_ok m)
    then none
    else if not ((s.conn m.conn).sequence == m.sequence)
    then none
    else if leb auth_total_commands code
    then none
    else elim (get_elem? status_handler code) [ none ↦ none | some c ↦ c ]

unfoldable pub process : (ℕ → ℕ) → ℕ → Msg → Server → Server
unfolding find_handler call_handler read_header
process left_over now m s = elim (find_handler m s) [
  | none ↦ s
  | some c ↦
      let len = (read_header m.bytes).pkg_len in
      call_handler left_over now c m (not (len_pkg_header == len)) (len - len_pkg_header) s
]

-- The part of `threadRecvProcFunc` under its lock: `front` and `pop_front`. `none` is `front()` of an
-- empty queue.
unfoldable pub pop_message : List Msg → Server → Option (Msg × Server)
pop_message [] s = none
pop_message (m ∷ q) s = some (
  m,
  record s {
    msg_recv_queue = q;
    recv_msg_queue_count = decrement s.recv_msg_queue_count;
    tasks = s.tasks - 1;
  },
)

-- `threadRecvProcFunc`, run as a task of the thread pool, when nothing comes between its two parts. The
-- buffer of the message is not freed on any path.
unfoldable pub take_message : (ℕ → ℕ) → ℕ → List Msg → Server → Option Server
unfolding pop_message process
take_message left_over now q s = elim (pop_message q s) [
  | none ↦ none
  | some (m, t) ↦ some (process left_over now m t)
]

unfoldable pub thread_recv_proc_func : (ℕ → ℕ) → ℕ → Server → Option Server
unfolding take_message
thread_recv_proc_func left_over now s = take_message left_over now s.msg_recv_queue s

-- `procPingTimeOutChecking` of CLogicSocket
unfoldable pub proc_ping_time_out_checking : ℕ → Timer → Server → Server
unfolding zd_closesocket_proc
proc_ping_time_out_checking cur_time p s =
    let c = s.conn p.conn in
    let t =
      if p.sequence == c.sequence
      then if ltb (c.last_ping_time + (s.wait_time * 3 + 10)) cur_time
        then zd_closesocket_proc cur_time p.conn s
        else s
      else s in
    record t { blocks = free_memory (some p) t.blocks }
