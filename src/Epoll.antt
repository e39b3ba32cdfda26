-- ===== src/Epoll.antt =====
-- `flyd_epoll_oper_event` of net/flyd_socket.cc. Whether `epoll_ctl` succeeds is an argument.
use flydragon.Base.{ℕ, ◌-◌, ◌^◌, Bool, true, ◌==◌, if◌then◌else◌, bit_and, bit_or}
use flydragon.State.{Server, set_conn}

-- EPOLL_CTL_ADD, EPOLL_CTL_MOD and EPOLL_CTL_DEL
pub data CtlOp : Type 0 where
  ctl_add ctl_mod ctl_del : CtlOp

abbrev pub epollin : ℕ
epollin = 0x001

abbrev pub epollout : ℕ
epollout = 0x004

abbrev pub epollerr : ℕ
epollerr = 0x008

abbrev pub epollhup : ℕ
epollhup = 0x010

abbrev pub epollrdhup : ℕ
epollrdhup = 0x2000

-- The flags after EPOLL_CTL_MOD: `bcaction` 0 adds, 1 takes away, any other replaces.
unfoldable pub modify_events : ℕ → ℕ → ℕ → ℕ
modify_events events flag bcaction =
    if bcaction == 0
    then bit_or events flag
    else if bcaction == 1
    then bit_and events (2 ^ 32 - 1 - flag)
    else flag

-- The new state, and whether the call returns 1. The flags are noted also if `epoll_ctl` fails.
unfoldable pub oper_event : CtlOp → ℕ → ℕ → ℕ → Bool → Server → Server × Bool
unfolding modify_events
oper_event ctl_add flag bcaction i ctl_ok s =
    (set_conn s i (record (s.conn i) { events = flag }), ctl_ok)
oper_event ctl_mod flag bcaction i ctl_ok s = (
  set_conn s i (record (s.conn i) { events = modify_events (s.conn i).events flag bcaction }),
  ctl_ok,
)
oper_event ctl_del flag bcaction i ctl_ok s = (s, true)
