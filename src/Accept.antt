-- ===== src/Accept.antt =====
-- net/flyd_socket_accept.cc: a client connects. What the kernel answers is an argument.
pub mod Ready
use flydragon.Base.{ℕ, ◌+◌, Bool, true, false, not, ◌==◌, if◌then◌else◌}
use flydragon.State.{Server, set_conn, wait_request, write_request}
use flydragon.Pool.{get_connection, close_connection}
use flydragon.Epoll.{ctl_add, epollin, epollrdhup, oper_event}
use flydragon.Timer.{add_to_timer_queue}

-- What `accept4` or `accept` gives: a descriptor, ENOSYS, or another error (EAGAIN, ECONNABORTED,
-- EMFILE, ENFILE, ...), which are all left alone.
pub data AcceptResult : Type 0 where
  accepted : ℕ → AcceptResult
  no_accept4 other_error : AcceptResult

-- The answers of the kernel in one call of the handler: to `accept4`, to `accept` after ENOSYS, to
-- the ioctl of `setnonblocking`, and to `epoll_ctl`.
pub record Answers : Type 0 where
  pub accept4 : AcceptResult
  pub accept : AcceptResult
  pub nonblocking : Bool
  pub ctl : Bool

-- The fields of the new connection that are set before it is added to epoll.
unfoldable pub set_handlers : ℕ → ℕ → Server → Server
set_handlers old new s = set_conn s new (record (s.conn new) {
  listening = (s.conn old).listening;
  w_ready = 1;
  rhandler = wait_request;
  whandler = write_request;
})

-- From `newc->listening = ...` on.
unfoldable pub register_connection : Bool → ℕ → ℕ → ℕ → Server → Server
unfolding set_handlers oper_event close_connection add_to_timer_queue
register_connection ctl_ok now old new s =
    let (t, added) =
      oper_event ctl_add (epollin + epollrdhup) 0 new ctl_ok (set_handlers old new s) in
    if not added
    then close_connection new t
    else if t.kick_time_count == 1
    then add_to_timer_queue now new t
    else t

-- A descriptor was accepted; `use_accept4` says by which call. `flyd_get_connection` never fails.
unfoldable pub accept_connection : Bool → Answers → ℕ → ℕ → ℕ → Server → Server
unfolding get_connection register_connection close_connection
accept_connection use_accept4 answers fd now old s =
    let (t, new) = get_connection fd now s in
    if not use_accept4
    then if not answers.nonblocking
      then close_connection new t
      else register_connection answers.ctl now old new t
    else register_connection answers.ctl now old new t

-- The round with `accept`.
unfoldable pub accept_plain : Answers → AcceptResult → ℕ → ℕ → Server → Server
unfolding accept_connection
accept_plain answers (accepted fd) now old s = accept_connection false answers fd now old s
accept_plain answers _ now old s = s

-- The round with `accept4`; ENOSYS leads to the other one.
unfoldable pub accept_four : Answers → AcceptResult → ℕ → ℕ → Server → Server × Bool
unfolding accept_connection accept_plain
accept_four answers (accepted fd) now old s = (accept_connection true answers fd now old s, true)
accept_four answers no_accept4 now old s = (accept_plain answers answers.accept now old s, false)
accept_four answers other_error now old s = (s, true)

-- `flyd_event_accept`, with the static `use_accept4` before and after.
unfoldable pub event_accept : Bool → Answers → ℕ → ℕ → Server → Server × Bool
unfolding accept_four accept_plain
event_accept true answers now old s = accept_four answers answers.accept4 now old s
event_accept false answers now old s = (accept_plain answers answers.accept now old s, false)
