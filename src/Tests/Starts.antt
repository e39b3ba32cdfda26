-- ===== src/Tests/Starts.antt =====
-- The start and the end of a worker at concrete inputs.
use flydragon.Base.{
  zero, suc, Bool, ◌<◌, ◌++◌, map, none, ◌∷◌, ℕ, ◌+◌, ◌≡◌, ◌==◌, not, refl, arith, [], some, true,
  false,
}
use flydragon.State.{new_socket}
use flydragon.Config.{ConfigMap, get_string, atoi}
use flydragon.Startup.{
  listen_port_name, decimal, Setup, SocketCalls, close_socket, open_listening_sockets, epoll_init,
}
use flydragon.Startup.Sockets.{Opens, bind, with_sockets}
use flydragon.Startup.Ports.{
  HasPort, configured, not_configured, listed, open_listening_sockets-listed,
  open_listening_sockets-closes,
}
use flydragon.Pool.Owned.{IsPooled}
use flydragon.Pool.Start.{new_socket-IsNew}
use flydragon.Startup.Watched.{AllAccept, epoll_init-AllAccept}
use flydragon.Tests.{one_use}

-- Two ports are to be opened.
abbrev two_ports : Setup
two_ports = record {
  server = new_socket (λ _. one_use);
  worker_connections = (false, 4);
  listen_port_count = (false, 2);
  listen_socket_list = [];
}

-- Descriptors from 5 on.
abbrev fds : ℕ → ℕ
fds j = 5 + j

abbrev good_calls : ℕ → SocketCalls
good_calls j = record {
  socket = some (5 + j);
  setsockopt = true;
  nonblocking = true;
  bind = λ port. true;
  listen = true;
}

-- The port of the second socket is in use.
abbrev busy_port : ℕ → SocketCalls
busy_port j = record (good_calls j) { bind = λ port. not (port == 10000) }

-- The configuration has a port for the index 0 and none for the index 1.
abbrev first_port : ConfigMap
first_port = (listen_port_name ++ b'0' ∷ [], b'8' ∷ b'0' ∷ []) ∷ []

abbrev ports : ℕ → Bool × ℕ
ports zero = (false, 80)
ports (suc j) = (false, 10000)

first_port-HasPort : (j : ℕ) → j < 2 → HasPort first_port j (ports j)
unfolding get_string decimal atoi
first_port-HasPort zero h = configured (b'8' ∷ b'0' ∷ []) refl
first_port-HasPort (suc zero) h = not_configured refl
first_port-HasPort (suc (suc j)) h = absurd (omega arith)

open_listening_sockets-listed_example :
    open_listening_sockets first_port good_calls two_ports
    ≡ (record two_ports { listen_socket_list = listed ports fds 2 0 }, true)
open_listening_sockets-listed_example =
    open_listening_sockets-listed first_port good_calls ports fds 1 two_ports refl refl
      first_port-HasPort
      (λ j h. record { made = refl; reuses = refl; waits_not = refl; bound = refl; listens = refl })

open_listening_sockets-closes_example :
    open_listening_sockets first_port busy_port two_ports
    ≡ (close_socket 6 (with_sockets two_ports (listed ports fds 1 0)), false)
open_listening_sockets-closes_example =
    open_listening_sockets-closes first_port busy_port ports fds 1 0 6 two_ports refl
      first_port-HasPort first_opens refl (bind refl)
  where
    first_opens : (j : ℕ) → j < 1 → Opens (busy_port j) (ports j) (fds j)
    first_opens zero h = record {
      made = refl;
      reuses = refl;
      waits_not = refl;
      bound = refl;
      listens = refl;
    }
    first_opens (suc j) h = absurd (omega arith)

-- Two sockets are open.
abbrev listening_setup : Setup
listening_setup = record two_ports {
  listen_socket_list =
      record { port = (false, 80); fd = 5; connection = none }
      ∷ record { port = (false, 81); fd = 6; connection = none }
      ∷ [];
}

epoll_init-AllAccept_example :
    (t : Setup) × (epoll_init true (λ i. true) 100 listening_setup ≡ some t)
    × IsPooled t.server
    × AllAccept t.server t.listen_socket_list
    × (map (λ l. l.fd) t.listen_socket_list ≡ map (λ l. l.fd) listening_setup.listen_socket_list)
epoll_init-AllAccept_example =
    epoll_init-AllAccept (λ i. true) 100 listening_setup (new_socket-IsNew (λ _. one_use))
      (omega arith) (λ i. refl)
