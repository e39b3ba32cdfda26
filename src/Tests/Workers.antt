-- ===== src/Tests/Workers.antt =====
-- A worker from its start, at a concrete input.
use flydragon.Base.{
  ℕ, ◌≡◌, ◌≢◌, ◌⊎◌, refl, arith, contains, [], ◌∷◌, Option, none, some, Bool, true, false,
}
use flydragon.State.{Msg, Server, new_socket}
use flydragon.Recv.{got}
use flydragon.Send.{returned}
use flydragon.Accept.{accepted, other_error, event_accept}
use flydragon.Logic.{process, proc_ping_time_out_checking}
use flydragon.Events.{Event, process_event}
use flydragon.Pool.{get_connection, recy_round, recy_scan, is_due}
use flydragon.Startup.{Setup, add_listening, epoll_init}
use flydragon.Heartbeat.{monitor_round}
use flydragon.Sound.{IsSound}
use flydragon.Sound.Serving.{IsOpen}
use flydragon.Sound.Blank.{IsBlank}
use flydragon.Sound.Start.{epoll_init-IsSound}
use flydragon.Sound.Run.{
  Run-IsSound, Run, here, next, event, recycles, monitors, worker-IsSound, Run-apart,
}
use flydragon.Heartbeat.Checks.{is_silent, IsShut}
use flydragon.Sound.WatchRun.{Run-kicks}
use flydragon.Sound.Returns.{Freed, Run-returns}
use flydragon.Close.{zd_closesocket_proc}
use flydragon.Sound.Stale.{Run-stale}
use flydragon.Send.{SendCall, send_one}
use flydragon.Send.Same.{Same}
use flydragon.Tests.{one_use, pong}

-- One listening socket, two connections in the pool, and a heartbeat.
abbrev fresh_setup : Setup
fresh_setup = record {
  server = record (new_socket (λ _. one_use)) { wait_time = 20; kick_time_count = 1 };
  worker_connections = (false, 2);
  listen_port_count = (false, 1);
  listen_socket_list = record { port = (false, 80); fd = 5; connection = none } ∷ [];
}

fresh_setup-IsBlank : IsBlank fresh_setup.server
fresh_setup-IsBlank = record {
  new = record { none_made = refl; none_free = refl; none_waits = refl; none_counted = refl };
  no_connections = refl;
  no_checks = refl;
  no_size = refl;
  waits = omega arith;
}

abbrev setup_or : Setup → Option Setup → Setup
setup_or s none = s
setup_or s (some t) = t

-- The worker after `flyd_epoll_init` at second 7.
abbrev begun : Setup
begun = setup_or fresh_setup (epoll_init true (λ _. true) 7 fresh_setup)

-- A client connects; `accept4` gives descriptor 9.
abbrev connects : Event
connects = record {
  conn = 0;
  revents = 1;
  now = 8;
  read = got [];
  write = returned 0;
  ctl = true;
  answers = record { accept4 = accepted 9; accept = other_error; nonblocking = true; ctl = true };
}

abbrev with_client : Server
with_client = (process_event (λ _. 0) connects (begun.server, true)).0

-- The client sends nothing, and is given up at second 79.
abbrev kicked : Server
kicked = monitor_round 79 with_client

listening-IsOpen : IsOpen 0 begun.server
unfolding epoll_init add_listening
listening-IsOpen = record { exists = omega arith; fd = 5; socket = refl }

-- The client is accepted and kicked, and its connection goes back to the pool.
kicked-Run : Run begun.server (recy_round 140 kicked).0
unfolding epoll_init add_listening process_event event_accept monitor_round
    proc_ping_time_out_checking contains
kicked-Run =
    next
      (next (next here (omega arith) (event (λ _. 0) connects true begun.server listening-IsOpen))
        (omega arith) (monitors 79 with_client))
      (omega arith) (recycles 140 kicked)

worker-IsSound_example : IsSound (recy_round 140 kicked).0
unfolding epoll_init add_listening
worker-IsSound_example =
    worker-IsSound true (λ _. true) 7 fresh_setup begun (recy_round 140 kicked).0
      fresh_setup-IsBlank (omega arith) refl kicked-Run

begun-IsSound : IsSound begun.server
unfolding epoll_init add_listening
begun-IsSound =
    epoll_init-IsSound true (λ _. true) 7 fresh_setup begun fresh_setup-IsBlank (omega arith) refl

-- The client of the connection 1 is accepted.
abbrev client_run : Run begun.server with_client
unfolding epoll_init add_listening
client_run = next here (omega arith) (event (λ _. 0) connects true begun.server listening-IsOpen)

client-IsOpen : IsOpen 1 with_client
unfolding epoll_init add_listening process_event event_accept
client-IsOpen = record { exists = omega arith; fd = 9; socket = refl }

Run-apart_example :
    ((get_connection 12 9 with_client).1 ≢ 1)
    × ((get_connection 12 9 with_client).0.conn 1 ≡ with_client.conn 1)
Run-apart_example = Run-apart 1 12 9 begun-IsSound client_run client-IsOpen

Run-kicks_example :
    ((is_silent 79 1 with_client ≡ true)
      × IsShut (with_client.conn 1).fd 1 (monitor_round 79 with_client))
    ⊎ ((is_silent 79 1 with_client ≡ false)
        × ((monitor_round 79 with_client).conn 1 ≡ with_client.conn 1))
unfolding epoll_init add_listening process_event event_accept
Run-kicks_example =
    Run-kicks true (λ _. true) 7 8 79 1 fresh_setup begun with_client fresh_setup-IsBlank refl
      (omega arith) refl client_run (tt, omega arith) client-IsOpen refl (omega arith)

-- The client leaves at second 50, and the monitor makes a round.
abbrev left : Server
left = zd_closesocket_proc 50 1 with_client

abbrev left_run : Run left (monitor_round 60 left)
unfolding epoll_init add_listening process_event event_accept zd_closesocket_proc contains
left_run = next here (omega arith) (monitors 60 left)

Run-returns_example : Freed 1 left (recy_round 110 (monitor_round 60 left)).0
unfolding epoll_init add_listening process_event event_accept zd_closesocket_proc contains
    monitor_round proc_ping_time_out_checking
Run-returns_example =
    Run-returns 50 110 1 with_client (monitor_round 60 left) (Run-IsSound client_run begun-IsSound)
      client-IsOpen refl (omega arith) left_run (omega arith) (omega arith)

-- Its connection is recycled, and the next client gets it.
abbrev pooled_again : Server
pooled_again = (recy_round 110 (monitor_round 60 left)).0

abbrev with_next_client : Server
with_next_client = (process_event (λ _. 0) connects (pooled_again, true)).0

pooled_again-IsOpen : IsOpen 0 pooled_again
unfolding epoll_init add_listening process_event event_accept zd_closesocket_proc contains
    monitor_round proc_ping_time_out_checking recy_round recy_scan is_due
pooled_again-IsOpen = record { exists = omega arith; fd = 5; socket = refl }

abbrev next_client_run : Run left with_next_client
unfolding epoll_init add_listening process_event event_accept zd_closesocket_proc contains
    monitor_round proc_ping_time_out_checking recy_round recy_scan is_due
next_client_run =
    next (next left_run (omega arith) (recycles 110 (monitor_round 60 left))) (omega arith)
      (event (λ _. 0) connects true pooled_again pooled_again-IsOpen)

-- A ping of the client that left.
abbrev late_ping : Msg
late_ping = record (pong 1) { sequence = 2 }

Run-stale_example :
    ((lo : ℕ → ℕ) (later : ℕ) → process lo later late_ping with_next_client ≡ with_next_client)
    × ((call : SendCall) (ok : Bool)
        → Same 1 with_next_client (send_one call ok late_ping with_next_client).0
          × ((send_one call ok late_ping with_next_client).1 ≡ false))
unfolding epoll_init add_listening process_event event_accept zd_closesocket_proc next_client_run
    left_run
Run-stale_example =
    Run-stale 50 late_ping with_client with_next_client next_client_run
      (Run-IsSound client_run begun-IsSound) client-IsOpen (omega arith) refl (omega arith)
      (omega arith)
