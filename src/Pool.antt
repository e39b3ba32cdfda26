-- ===== src/Pool.antt =====
-- net/flyd_socket_conn.cc: the pool of connections and the queue of those to be recycled.
-- `time(NULL)` is an argument of each operation.
pub mod Recycle
pub mod Fresh
pub mod Owned
pub mod Rounds
mod Steps
pub mod Start
use flydragon.Base.{
  ℕ, zero, suc, ◌+◌, List, [], ◌∷◌, ◌++◌, Option, none, some, Bool, true, false, ◌&&◌, not, ltb,
  ◌==◌, if◌then◌else◌, length, tabulate, contains, erase, u32, u64, increment, decrement,
  is_positive, update,
}
use flydragon.Comm.{len_pkg_header, data_bufsize, hd_init}
use flydragon.State.{Conn, Server, no_handler, head_at, set_conn}
use flydragon.State.Memory.{alloc_memory, free_memory}

-- `flyd_connection_s()` on zeroed memory.
unfoldable pub new_connection : Conn
new_connection = record {
  fd = some 0;
  listening = none;
  sequence = 0;
  w_ready = 0;
  rhandler = no_handler;
  whandler = no_handler;
  events = 0;
  cur_stat = hd_init;
  data_head_info = tabulate data_bufsize (λ _. 0);
  precvbuf = head_at 0;
  irecvlen = 0;
  precv_mem_pointer = none;
  ifnewrecv_mem = false;
  pnew_mem_pointer = none;
  throw_send_count = 0;
  psend_mem_pointer = none;
  psendbuf = 0;
  isendlen = 0;
  in_recy_time = 0;
  last_ping_time = 0;
}

-- `GetOneToUse`
unfoldable pub get_one_to_use : ℕ → Conn → Conn
get_one_to_use now c = record c {
  sequence = u64 (c.sequence + 1);
  fd = none;
  cur_stat = hd_init;
  precvbuf = head_at 0;
  irecvlen = len_pkg_header;
  precv_mem_pointer = none;
  throw_send_count = 0;
  psend_mem_pointer = none;
  events = 0;
  last_ping_time = now;
}

-- `PutOneToFree`, and the blocks that are left
unfoldable pub put_one_to_free : Conn → ℕ → Conn × ℕ
put_one_to_free c blocks = (
  record c {
    sequence = u64 (c.sequence + 1);
    precv_mem_pointer = none;
    psend_mem_pointer = none;
    throw_send_count = 0;
  },
  free_memory c.psend_mem_pointer (free_memory c.precv_mem_pointer blocks),
)

-- The loop of `initconnection`, with the rounds that are left.
unfoldable pub init_loop : ℕ → ℕ → Server → Server
unfolding new_connection get_one_to_use
init_loop zero now s = s
init_loop (suc rounds) now s = init_loop rounds now (record s {
  conn = update s.conn s.next_conn (get_one_to_use now new_connection);
  next_conn = s.next_conn + 1;
  connection_list = s.connection_list ++ s.next_conn ∷ [];
  freeconnection_list = s.freeconnection_list ++ s.next_conn ∷ [];
  blocks = alloc_memory s.blocks;
})

-- `initconnection`
unfoldable pub init_connection : ℕ → ℕ → Server → Server
unfolding init_loop
init_connection worker_connections now s =
    let t = init_loop worker_connections now s in
    record t {
      free_connection_n = u32 (length t.connection_list);
      total_connection_n = u32 (length t.connection_list);
    }

-- `clearconnection`: every connection is freed.
unfoldable pub clear_loop : List ℕ → ℕ → ℕ
clear_loop [] blocks = blocks
clear_loop (i ∷ is) blocks = clear_loop is (free_memory (some i) blocks)

unfoldable pub clear_connection : Server → Server
unfolding clear_loop
clear_connection s = record s {
  connection_list = [];
  blocks = clear_loop s.connection_list s.blocks;
}

-- `flyd_get_connection`: the first free connection, or one more.
unfoldable pub get_from : List ℕ → ℕ → ℕ → Server → Server × ℕ
unfolding new_connection get_one_to_use
get_from (i ∷ is) isock now s = (
  record s {
    freeconnection_list = is;
    conn = update s.conn i (record (get_one_to_use now (s.conn i)) { fd = some isock });
    free_connection_n = decrement s.free_connection_n;
  },
  i,
)
get_from [] isock now s = (
  record s {
    blocks = alloc_memory s.blocks;
    conn =
        update s.conn s.next_conn (record (get_one_to_use now new_connection) { fd = some isock });
    next_conn = s.next_conn + 1;
    connection_list = s.connection_list ++ s.next_conn ∷ [];
    total_connection_n = increment s.total_connection_n;
  },
  s.next_conn,
)

unfoldable pub get_connection : ℕ → ℕ → Server → Server × ℕ
unfolding get_from
get_connection isock now s = get_from s.freeconnection_list isock now s

-- `flyd_free_connection`
unfoldable pub free_connection : ℕ → Server → Server
unfolding put_one_to_free
free_connection i s =
    let (c, left) = put_one_to_free (s.conn i) s.blocks in
    record s {
      conn = update s.conn i c;
      blocks = left;
      freeconnection_list = s.freeconnection_list ++ i ∷ [];
      free_connection_n = increment s.free_connection_n;
    }

-- `inRecyConnectQueue`
unfoldable pub in_recy_connect_queue : ℕ → ℕ → Server → Server
in_recy_connect_queue now i s = if contains i s.recyconnection_list then s else record s {
  conn =
      update s.conn i
        (record (s.conn i) { in_recy_time = now; sequence = u64 ((s.conn i).sequence + 1) });
  recyconnection_list = s.recyconnection_list ++ i ∷ [];
  total_recyconnection_n = increment s.total_recyconnection_n;
}

-- The `continue` test of ServerRecyConnectionThread, the other way round.
unfoldable pub is_due : ℕ → Server → ℕ → Bool
is_due now s i = not (ltb now ((s.conn i).in_recy_time + s.recy_wait_time) && s.stop_event == 0)

-- The `for` loop up to the first connection that is released.
unfoldable pub first_due : (ℕ → Bool) → List ℕ → Option ℕ
first_due due [] = none
first_due due (i ∷ is) = if due i then some i else first_due due is

-- One connection leaves the queue for the pool.
unfoldable pub recycle : ℕ → Server → Server
unfolding free_connection erase
recycle i s = free_connection i (record s {
  total_recyconnection_n = decrement s.total_recyconnection_n;
  recyconnection_list = erase i s.recyconnection_list;
})

-- The code from a `lblRRTD` on: after each release the scan starts over. The fuel bounds the
-- releases.
unfoldable pub recy_scan : ℕ → (Server → ℕ → Bool) → Server → Server
unfolding first_due recycle
recy_scan zero due s = s
recy_scan (suc fuel) due s = elim (first_due (due s) s.recyconnection_list) [
  | none ↦ s
  | some i ↦ recy_scan fuel due (recycle i s)
]

-- One round of ServerRecyConnectionThread; the second result says that the thread ends.
unfoldable pub recy_round : ℕ → Server → Server × Bool
recy_round now s =
    let s₁ =
      if is_positive s.total_recyconnection_n
      then recy_scan (length s.recyconnection_list) (is_due now) s
      else s in
    let s₂ =
      if is_positive s₁.total_recyconnection_n
      then recy_scan (length s₁.recyconnection_list) (λ _ _. true) s₁
      else s₁ in
    if s.stop_event == 1 then (s₂, true) else (s₁, false)

-- `flyd_close_connection`
unfoldable pub close_connection : ℕ → Server → Server
unfolding free_connection
close_connection i s =
    let t = free_connection i s in
    elim (t.conn i).fd [
      | none ↦ t
      | some fd ↦ record (set_conn t i (record (t.conn i) { fd = none })) { closed = fd ∷ t.closed }
    ]
