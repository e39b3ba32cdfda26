-- ===== src/Close.antt =====
-- `zdClosesocketProc` of net/flyd_socket.cc: the server gives up a connection.
pub mod Shut
pub mod Stale
pub mod Elsewhere
use flydragon.Base.{ℕ, none, some, ◌==◌, if◌then◌else◌, ◌∷◌, decrement, is_positive}
use flydragon.State.{Server, set_conn}
use flydragon.Pool.{in_recy_connect_queue}
use flydragon.Timer.{delete_from_timer_queue}

-- The descriptor is closed, if it is open.
unfoldable pub close_fd : ℕ → Server → Server
close_fd i s = elim (s.conn i).fd [
  | none ↦ s
  | some fd ↦ record (set_conn s i (record (s.conn i) { fd = none })) { closed = fd ∷ s.closed }
]

-- A pending write notification is given up.
unfoldable pub drop_throw_send : ℕ → Server → Server
drop_throw_send i s =
    let c = s.conn i in
    if is_positive c.throw_send_count
    then set_conn s i (record c { throw_send_count = decrement c.throw_send_count })
    else s

unfoldable pub zd_closesocket_proc : ℕ → ℕ → Server → Server
unfolding delete_from_timer_queue close_fd drop_throw_send in_recy_connect_queue
zd_closesocket_proc now i s =
    let t = if s.kick_time_count == 1 then delete_from_timer_queue i s else s in
    in_recy_connect_queue now i (drop_throw_send i (close_fd i t))
