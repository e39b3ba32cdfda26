-- ===== src/Pool/Fresh.antt =====
-- The connection that `flyd_get_connection` gives out.
use flydragon.Base.{ℕ, ◌≡◌, List, [], ◌∷◌, none, some, arith, length}
use flydragon.Comm.{hd_init}
use flydragon.State.{Conn, Server, head_at}
use flydragon.Pool.{new_connection, get_one_to_use, get_from, get_connection}

-- A connection for the socket `fd` that has received nothing and sends nothing.
pub record Fresh (fd now : ℕ) (c : Conn) : Type 0 where
  pub socket : c.fd ≡ some fd
  pub stat : c.cur_stat ≡ hd_init
  pub points : c.precvbuf ≡ head_at 0
  pub wants : c.irecvlen ≡ 8
  pub room : length c.data_head_info ≡ 20
  pub throws : c.throw_send_count ≡ 0
  pub nothing : c.psend_mem_pointer ≡ none
  pub no_events : c.events ≡ 0
  pub ping : c.last_ping_time ≡ now

-- Every `dataHeadInfo` has its size.
abbrev pub HaveRoom : Server → Type 0
HaveRoom s = (j : ℕ) → length (s.conn j).data_head_info ≡ 20

get_from-Fresh :
    (free : List ℕ) (fd now : ℕ) (s : Server)
    → HaveRoom s
    → Fresh fd now ((get_from free fd now s).0.conn (get_from free fd now s).1)
unfolding get_from get_one_to_use new_connection
get_from-Fresh [] fd now s h = record {
  socket = ground arith;
  stat = ground arith;
  points = ground arith;
  wants = ground arith;
  room = ground arith;
  throws = ground arith;
  nothing = ground arith;
  no_events = ground arith;
  ping = ground arith;
}
get_from-Fresh (i ∷ is) fd now s h = record {
  socket = ground arith;
  stat = ground arith;
  points = ground arith;
  wants = ground arith;
  room = ground (arith, h i);
  throws = ground arith;
  nothing = ground arith;
  no_events = ground arith;
  ping = ground arith;
}

pub get_connection-Fresh :
    (fd now : ℕ) (s : Server)
    → HaveRoom s
    → Fresh fd now ((get_connection fd now s).0.conn (get_connection fd now s).1)
unfolding get_connection
get_connection-Fresh fd now s h = get_from-Fresh s.freeconnection_list fd now s h

get_from_fd :
    (free : List ℕ) (fd now : ℕ) (s : Server)
    → ((get_from free fd now s).0.conn (get_from free fd now s).1).fd ≡ some fd
unfolding get_from
get_from_fd [] fd now s = ground arith
get_from_fd (i ∷ is) fd now s = ground arith

pub get_connection_fd :
    (fd now : ℕ) (s : Server)
    → ((get_connection fd now s).0.conn (get_connection fd now s).1).fd ≡ some fd
unfolding get_connection
get_connection_fd fd now s = get_from_fd s.freeconnection_list fd now s
