-- ===== src/Events.antt =====
-- `flyd_epoll_process_events` of net/flyd_socket.cc: the events of one `epoll_wait`, in their order.
pub mod Reads
use flydragon.Base.{
  ℕ, ◌+◌, List, [], ◌∷◌, Bool, true, false, not, ◌==◌, if◌then◌else◌, bit_and, decrement,
}
use flydragon.State.{Server, Handler, no_handler, wait_request, write_request, set_conn}
use flydragon.Epoll.{epollin, epollout, epollerr, epollhup, epollrdhup}
use flydragon.Recv.{ReadResult, wait_request_handler}
use flydragon.Send.{SendCall, write_request_handler}
use flydragon.Accept.{Answers}
use flydragon.Accept

-- An entry of `m_events`, with what the kernel will answer to the calls of its handlers.
pub record Event : Type 0 where
  pub conn : ℕ
  pub revents : ℕ
  pub now : ℕ
  pub read : ReadResult
  pub write : SendCall
  pub ctl : Bool
  pub answers : Answers

abbrev pub has_flag : ℕ → ℕ → Bool
has_flag revents flag = not (bit_and revents flag == 0)

-- `(this->*handler)(p_Conn)`, and the static `use_accept4`. A null handler is not called.
unfoldable pub call : (ℕ → ℕ) → Handler → Event → Server × Bool → Server × Bool
unfolding wait_request_handler write_request_handler
call left_over no_handler e (s, use_accept4) = (s, use_accept4)
call left_over Handler.event_accept e (s, use_accept4) =
    Accept.event_accept use_accept4 e.answers e.now e.conn s
call left_over wait_request e (s, use_accept4) =
    (wait_request_handler left_over e.read e.now e.conn s, use_accept4)
call left_over write_request e (s, use_accept4) =
    (write_request_handler e.write e.ctl e.conn s, use_accept4)

-- The EPOLLIN part.
unfoldable pub on_readable : (ℕ → ℕ) → Event → Server × Bool → Server × Bool
unfolding call
on_readable left_over e (s, use_accept4) =
    if has_flag e.revents epollin
    then call left_over (s.conn e.conn).rhandler e (s, use_accept4)
    else (s, use_accept4)

-- The EPOLLOUT part.
unfoldable pub on_writable : (ℕ → ℕ) → Event → Server × Bool → Server × Bool
unfolding call
on_writable left_over e (s, use_accept4) =
    if has_flag e.revents epollout
    then if has_flag e.revents (epollerr + epollhup + epollrdhup)
      then (
        set_conn s e.conn (record (s.conn e.conn) {
          throw_send_count = decrement (s.conn e.conn).throw_send_count;
        }),
        use_accept4,
      )
      else call left_over (s.conn e.conn).whandler e (s, use_accept4)
    else (s, use_accept4)

-- One event.
unfoldable pub process_event : (ℕ → ℕ) → Event → Server × Bool → Server × Bool
unfolding on_readable on_writable
process_event left_over e st = on_writable left_over e (on_readable left_over e st)

-- The loop over the events.
unfoldable pub process_events : (ℕ → ℕ) → List Event → Server × Bool → Server × Bool
unfolding process_event
process_events left_over [] st = st
process_events left_over (e ∷ es) st = process_events left_over es (process_event left_over e st)

-- What `epoll_wait` gives: -1 with EINTR or another error, or its events, of which there may be
-- none when the time is over.
pub data WaitResult : Type 0 where
  wait_interrupted wait_failed : WaitResult
  waited : List Event → WaitResult

-- The events after `epoll_wait`, and whether the result is 1; `forever` says that the timer is -1.
no_or_some : (ℕ → ℕ) → Bool → List Event → Server × Bool → (Server × Bool) × Bool
unfolding process_events
no_or_some left_over forever [] st = (st, not forever)
no_or_some left_over forever (e ∷ es) st = (process_events left_over (e ∷ es) st, true)

-- `flyd_epoll_process_events`
unfoldable pub epoll_process_events :
    (ℕ → ℕ) → Bool → WaitResult → Server × Bool → (Server × Bool) × Bool
unfolding no_or_some
epoll_process_events left_over forever wait_interrupted st = (st, true)
epoll_process_events left_over forever wait_failed st = (st, false)
epoll_process_events left_over forever (waited es) st = no_or_some left_over forever es st

-- `flyd_process_events_and_timers` of net/flyd_events.cc
unfoldable pub process_events_and_timers : (ℕ → ℕ) → WaitResult → Server × Bool → Server × Bool
unfolding epoll_process_events
process_events_and_timers left_over w st = (epoll_process_events left_over true w st).0
