-- ===== src/Session.antt =====
-- The receiving half, the tasks and the sending half of net/ and logic/ together, for one client.
pub mod Ping
pub mod Task
pub mod Carried
pub mod Serves
pub mod Run
use flydragon.Base.{ℕ, ◌≡◌, List, [], ◌∷◌}
use flydragon.State.{Server}
use flydragon.Recv.Represents.{InHead}
use flydragon.Send.Stream.{Idle}

-- A ping: a header alone, with the code 0 and the check 0.
abbrev pub ping_packet : List ℕ
ping_packet = 0 ∷ 8 ∷ 0 ∷ 0 ∷ 0 ∷ 0 ∷ 0 ∷ 0 ∷ []

-- Connection `i` awaits a header and sends nothing, and no message is queued in either direction.
pub record Quiet (i : ℕ) (s : Server) : Type 0 where
  pub receives : InHead (s.conn i) []
  pub sends : Idle (s.conn i)
  pub received : s.msg_recv_queue ≡ []
  pub to_send : s.msg_send_queue ≡ []
  pub count : s.send_msg_queue_count ≡ 0
  pub running : s.stop_event ≡ 0
