-- ===== src/Startup.antt =====
-- The start and the end of a worker in net/flyd_socket.cc: the configuration, the listening sockets,
-- epoll, and the clean-up; the threads are in Startup.Threads. An int is its sign and its size.
pub mod Threads
pub mod Created
pub mod Sockets
pub mod Ports
pub mod Watched
use flydragon.Base.{
  ℕ, zero, suc, ◌+◌, ◌-◌, ◌/◌, ◌%◌, ◌^◌, List, [], ◌∷◌, ◌++◌, Option, none, some, Bool, true, false,
  not, ltb, ◌&&◌, if◌then◌else◌, length, u16, ◌-◌, not,
}
use flydragon.Config.{ConfigMap, get_int_default}
use flydragon.State.{Server, event_accept, set_conn}
use flydragon.Pool.{init_connection, clear_connection, get_connection}
use flydragon.Timer.{clear_all_from_timer_queue}
use flydragon.Send.{clear_msg_send_queue}
use flydragon.Epoll.{ctl_add, epollin, epollrdhup, oper_event}

-- `flyd_listening_s`
pub record Listening : Type 0 where
  pub port : Bool × ℕ
  pub fd : ℕ
  pub connection : Option ℕ

-- The object with the members that only the start reads.
pub record Setup : Type 0 where
  pub server : Server
  pub worker_connections : Bool × ℕ
  pub listen_port_count : Bool × ℕ
  pub listen_socket_list : List Listening

-- How often a loop up to an int runs.
abbrev pub rounds_of : Bool × ℕ → ℕ
rounds_of (negative, n) = if negative then 0 else n

-- The bits of an int.
abbrev pub word_of : Bool × ℕ → ℕ
word_of (negative, n) = if negative then 2 ^ 32 - n else n

abbrev worker_connections_name : List ℕ
worker_connections_name =
    b'w' ∷ b'o' ∷ b'r' ∷ b'k' ∷ b'e' ∷ b'r' ∷ b'_' ∷ b'c' ∷ b'o' ∷ b'n' ∷ b'n' ∷ b'e' ∷ b'c' ∷ b't'
    ∷ b'i' ∷ b'o' ∷ b'n' ∷ b's' ∷ []

abbrev listen_port_count_name : List ℕ
listen_port_count_name =
    b'L' ∷ b'i' ∷ b's' ∷ b't' ∷ b'e' ∷ b'n' ∷ b'P' ∷ b'o' ∷ b'r' ∷ b't' ∷ b'C' ∷ b'o' ∷ b'u' ∷ b'n'
    ∷ b't' ∷ []

abbrev wait_time_enable_name : List ℕ
wait_time_enable_name =
    b'S' ∷ b'o' ∷ b'c' ∷ b'k' ∷ b'_' ∷ b'W' ∷ b'a' ∷ b'i' ∷ b't' ∷ b'T' ∷ b'i' ∷ b'm' ∷ b'e' ∷ b'E'
    ∷ b'n' ∷ b'a' ∷ b'b' ∷ b'l' ∷ b'e' ∷ []

abbrev max_wait_time_name : List ℕ
max_wait_time_name =
    b'S' ∷ b'o' ∷ b'c' ∷ b'k' ∷ b'_' ∷ b'M' ∷ b'a' ∷ b'x' ∷ b'W' ∷ b'a' ∷ b'i' ∷ b't' ∷ b'T' ∷ b'i'
    ∷ b'm' ∷ b'e' ∷ []

abbrev pub listen_port_name : List ℕ
listen_port_name = b'L' ∷ b'i' ∷ b's' ∷ b't' ∷ b'e' ∷ b'n' ∷ b'P' ∷ b'o' ∷ b'r' ∷ b't' ∷ []

-- `(m_iWaitTime > 5) ? m_iWaitTime : 5`
abbrev pub at_least_five : Bool × ℕ → ℕ
at_least_five (negative, n) = if not negative && ltb 5 n then n else 5

-- `ReadConf`
unfoldable pub read_conf : ConfigMap → Setup → Setup
unfolding get_int_default
read_conf conf s = record s {
  worker_connections = get_int_default conf worker_connections_name (false, 1);
  listen_port_count = get_int_default conf listen_port_count_name (false, 1);
  server = record s.server {
    kick_time_count = word_of (get_int_default conf wait_time_enable_name (false, 0));
    wait_time = at_least_five (get_int_default conf max_wait_time_name (false, s.server.wait_time));
  };
}

-- `%d` of an int that is not negative, with fuel for its digits.
unfoldable pub decimal : ℕ → ℕ → List ℕ
decimal zero n = []
decimal (suc fuel) n =
    let rest = decimal fuel (n / 10) in
    if ltb n 10 then (48 + n) ∷ [] else rest ++ (48 + n % 10) ∷ []

-- The port of the socket with an index; an int has ten digits at most.
unfoldable pub port_of : ConfigMap → ℕ → Bool × ℕ
unfolding get_int_default decimal
port_of conf i = get_int_default conf (listen_port_name ++ decimal 10 i) (false, 10000)

-- `htons((in_port_t)iport)`: the low 16 bits of the int, of which the model keeps sign and amount.
abbrev pub in_port : Bool × ℕ → ℕ
in_port (false, n) = u16 n
in_port (true, n) = u16 (65536 - u16 n)

-- What the kernel answers for one listening socket: to `socket`, `setsockopt`, `ioctl`, to `bind` at a
-- port, and to `listen`.
pub record SocketCalls : Type 0 where
  pub socket : Option ℕ
  pub setsockopt : Bool
  pub nonblocking : Bool
  pub bind : ℕ → Bool
  pub listen : Bool

-- `close`
abbrev pub close_socket : ℕ → Setup → Setup
close_socket fd s = record s { server = record s.server { closed = fd ∷ s.server.closed } }

-- The body of the loop of `flyd_open_listening_sockets`; the second result says that it goes on.
unfoldable pub open_one : ConfigMap → ℕ → SocketCalls → Setup → Setup × Bool
unfolding port_of
open_one conf i c s = elim c.socket [
  | none ↦ (s, false)
  | some fd ↦
      if not c.setsockopt
      then (close_socket fd s, false)
      else if not c.nonblocking
      then (close_socket fd s, false)
      else if not (c.bind (in_port (port_of conf i)))
      then (close_socket fd s, false)
      else if not c.listen
      then (close_socket fd s, false)
      else (
        record s {
          listen_socket_list =
              s.listen_socket_list
              ++ record { port = port_of conf i; fd = fd; connection = none } ∷ [];
        },
        true,
      )
]

-- The loop, with the rounds that are left and the index.
unfoldable pub open_loop : ConfigMap → (ℕ → SocketCalls) → ℕ → ℕ → Setup → Setup × Bool
unfolding open_one
open_loop conf calls zero i s = (s, true)
open_loop conf calls (suc n) i s =
    let (t, ok) = open_one conf i (calls i) s in
    let rest = open_loop conf calls n (i + 1) t in if ok then rest else (t, false)

-- `flyd_open_listening_sockets`
unfoldable pub open_listening_sockets : ConfigMap → (ℕ → SocketCalls) → Setup → Setup × Bool
unfolding open_loop
open_listening_sockets conf calls s =
    let (t, ok) = open_loop conf calls (rounds_of s.listen_port_count) 0 s in
    if ok then (t, ltb 0 (length t.listen_socket_list)) else (t, false)

-- `Initialize`
unfoldable pub initialize : ConfigMap → (ℕ → SocketCalls) → Setup → Setup × Bool
unfolding read_conf open_listening_sockets
initialize conf calls s = open_listening_sockets conf calls (read_conf conf s)

-- The body of the loop of `flyd_epoll_init` for the listening socket with an index; `none` is
-- `exit(2)`.
unfoldable pub add_listening : Bool → ℕ → ℕ → Listening → Server → Option (Server × Listening)
unfolding get_connection oper_event
add_listening ctl_ok now index l s =
    let (t, i) = get_connection l.fd now s in
    let u = set_conn t i (record (t.conn i) { listening = some index; rhandler = event_accept }) in
    let (v, added) = oper_event ctl_add (epollin + epollrdhup) 0 i ctl_ok u in
    if added then some (v, record l { connection = some i }) else none

-- The loop.
unfoldable pub add_all :
    (ℕ → Bool) → ℕ → ℕ → List Listening → Server → Option (Server × List Listening)
add_all ctl_ok now index [] s = some (s, [])
add_all ctl_ok now index (l ∷ ls) s = elim (add_listening (ctl_ok index) now index l s) [
  | none ↦ none
  | some (t, k) ↦ elim (add_all ctl_ok now (index + 1) ls t) [
    | none ↦ none
    | some (u, ks) ↦ some (u, k ∷ ks)
  ]
]

-- `flyd_epoll_init`; `created` says that `epoll_create` succeeds.
unfoldable pub epoll_init : Bool → (ℕ → Bool) → ℕ → Setup → Option Setup
unfolding init_connection add_all
epoll_init created ctl_ok now s =
    if not created
    then none
    else elim (add_all ctl_ok now 0 s.listen_socket_list
        (init_connection (rounds_of s.worker_connections) now s.server)) [
          | none ↦ none
          | some (t, ls) ↦ some (record s { server = t; listen_socket_list = ls })
        ]

-- `Shutdown_subproc`, once the threads that it waits for have ended.
unfoldable shutdown_subproc : Server → Server
unfolding clear_msg_send_queue clear_connection clear_all_from_timer_queue
shutdown_subproc s = clear_all_from_timer_queue (
    clear_connection
      (clear_msg_send_queue (record s { sem_event_send_queue = s.sem_event_send_queue + 1 })))

-- The loop of `flyd_close_listening_sockets`, with the rounds that are left; `none` if it reads behind
-- the end of the list.
unfoldable pub close_listening : ℕ → List Listening → List ℕ → Option (List ℕ)
close_listening zero ls closed = some closed
close_listening (suc n) [] closed = none
close_listening (suc n) (l ∷ ls) closed = close_listening n ls (l.fd ∷ closed)

-- `flyd_close_listening_sockets`
unfoldable pub close_listening_sockets : Setup → Option Setup
unfolding close_listening
close_listening_sockets s =
    elim (close_listening (rounds_of s.listen_port_count) s.listen_socket_list s.server.closed) [
      | none ↦ none
      | some closed ↦ some (record s { server = record s.server { closed = closed } })
    ]

-- `~CSocekt`
unfoldable pub delete_socket : Setup → Setup
delete_socket s = record s { listen_socket_list = [] }
