-- ===== src/State.antt =====
-- The data of net/flyd_socket.h: a connection, a message buffer, and the members of CSocekt.
-- A connection is named by its number, in the order of allocation, for its address.
pub mod Memory
pub mod Held
use flydragon.Base.{ℕ, ◌+◌, ◌≡◌, refl, List, [], Option, none, Bool, update, update_self}
use flydragon.Comm.{RecvStat}

-- A buffer made of STRUC_MSG_HEADER (`conn`, `sequence`), COMM_PKG_HEADER and the body; `bytes` are
-- the last two. Each buffer has one owner at a time, so it is modelled by its contents.
pub record Msg : Type 0 where
  pub conn : ℕ
  pub sequence : ℕ
  pub bytes : List ℕ

-- Where `precvbuf` points: into `dataHeadInfo`, or into the message buffer behind its
-- STRUC_MSG_HEADER.
pub data RecvPtr : Type 0 where
  head_at : ℕ → RecvPtr
  msg_at : ℕ → RecvPtr

-- The member function that `rhandler` or `whandler` points to.
pub data Handler : Type 0 where
  no_handler event_accept wait_request write_request : Handler

-- `flyd_connection_s`. A descriptor of -1 is `none`, and so is a null pointer. `psendbuf` counts
-- from the start of the bytes of the message that `psend_mem_pointer` holds.
pub record Conn : Type 0 where
  pub fd : Option ℕ
  pub listening : Option ℕ
  pub sequence : ℕ  -- iCurrsequence, uint64_t
  pub w_ready : ℕ
  pub rhandler : Handler
  pub whandler : Handler
  pub events : ℕ  -- uint32_t
  pub cur_stat : RecvStat
  pub data_head_info : List ℕ
  pub precvbuf : RecvPtr
  pub irecvlen : ℕ
  pub precv_mem_pointer : Option Msg
  pub ifnewrecv_mem : Bool
  pub pnew_mem_pointer : Option Msg
  pub throw_send_count : ℕ  -- AtomicInt32
  pub psend_mem_pointer : Option Msg
  pub psendbuf : ℕ
  pub isendlen : ℕ
  pub in_recy_time : ℕ
  pub last_ping_time : ℕ

-- The STRUC_MSG_HEADER that the timer queue holds.
pub record Timer : Type 0 where
  pub conn : ℕ
  pub sequence : ℕ

-- An entry of `m_timerQueuemap`.
pub record Entry : Type 0 where
  pub time : ℕ
  pub timer : Timer

-- The members of CSocekt that a worker process changes, the globals, and what the kernel and the
-- allocator hold for it: `blocks` counts the blocks that AllocMemory gave and FreeMemory has not
-- had back, `wire` holds the bytes that `send` accepted on each connection, `closed` the
-- descriptors that were closed, `tasks` the calls of `g_threadpool.run` that no thread took up.
pub record Server : Type 0 where
  pub wait_time : ℕ  -- m_iWaitTime
  pub kick_time_count : ℕ  -- m_ifkickTimeCount
  pub recy_wait_time : ℕ  -- m_RecyConnectionWaitTime
  pub stop_event : ℕ  -- g_stopEvent
  pub conn : ℕ → Conn
  pub next_conn : ℕ
  pub connection_list : List ℕ
  pub freeconnection_list : List ℕ
  pub recyconnection_list : List ℕ
  pub total_connection_n : ℕ  -- AtomicInt32, as the next four
  pub free_connection_n : ℕ
  pub total_recyconnection_n : ℕ
  pub recv_msg_queue_count : ℕ
  pub send_msg_queue_count : ℕ
  pub msg_recv_queue : List Msg
  pub msg_send_queue : List Msg
  pub sem_event_send_queue : ℕ
  pub tasks : ℕ
  pub timer_queue : List Entry  -- m_timerQueuemap, in key order
  pub cur_size : ℕ
  pub timer_value : ℕ
  pub blocks : ℕ
  pub wire : ℕ → List ℕ
  pub closed : List ℕ

-- A change of one connection.
abbrev pub set_conn : Server → ℕ → Conn → Server
set_conn s i c = record s { conn = update s.conn i c }

-- `CSocekt()` for the global `g_socket`, whose other members are zero.
abbrev pub new_socket : (ℕ → Conn) → Server
new_socket unused = record {
  wait_time = 0;
  kick_time_count = 0;
  recy_wait_time = 60;
  stop_event = 0;
  conn = unused;
  next_conn = 0;
  connection_list = [];
  freeconnection_list = [];
  recyconnection_list = [];
  total_connection_n = 0;
  free_connection_n = 0;
  total_recyconnection_n = 0;
  recv_msg_queue_count = 0;
  send_msg_queue_count = 0;
  msg_recv_queue = [];
  msg_send_queue = [];
  sem_event_send_queue = 0;
  tasks = 0;
  timer_queue = [];
  cur_size = 0;
  timer_value = 0;
  blocks = 0;
  wire = λ _. [];
  closed = [];
}
