-- ===== src/Tests.antt =====
-- The theorems at concrete inputs, and the states that they use.
mod Timers
mod Titles
mod Workers
mod Sending
mod Clients
mod Files
mod Starts
mod Signals
mod Processes
mod Sessions
use flydragon.Base.{ℕ, ◌+◌, ◌*◌, List, [], ◌∷◌}
use flydragon.State.{Msg, Timer, Entry, Conn, Server, new_socket}
use flydragon.Pool.{new_connection, get_one_to_use}

-- Each connection, in use since second 100 under number 1.
abbrev one_use : Conn
unfolding new_connection get_one_to_use
one_use = get_one_to_use 100 new_connection

-- A process in which connections 0 and 1 are in use.
abbrev two_clients : Server
two_clients = record (new_socket (λ _. one_use)) {
  next_conn = 2;
  wait_time = 20;
  kick_time_count = 1;
}

-- The checks of connection 1 and of connection 0.
abbrev two_checks : Server
two_checks = record two_clients {
  timer_queue =
      record { time = 120; timer = record { conn = 1; sequence = 1 } }
      ∷ record { time = 130; timer = record { conn = 0; sequence = 1 } }
      ∷ [];
  cur_size = 2;
  timer_value = 120;
  blocks = 2;
}

-- Connections 0 and 1 were given up at 40 and at 100.
abbrev given_up : Server
given_up = record two_clients {
  conn = λ i. record one_use { in_recy_time = 40 + i * 60 };
  recyconnection_list = 0 ∷ 1 ∷ [];
  total_recyconnection_n = 2;
}

-- A packet without a body, for a connection.
abbrev pong : ℕ → Msg
pong i = record { conn = i; sequence = 1; bytes = 0 ∷ 8 ∷ 0 ∷ 0 ∷ 0 ∷ 0 ∷ 0 ∷ 0 ∷ [] }
