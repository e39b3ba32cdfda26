-- ===== src/Tests/Sending.antt =====
-- The sending half at concrete inputs.
use flydragon.Base.{◌≡◌, refl, true}
use flydragon.State.{Server}
use flydragon.Send.{interrupted, returned, Kernel, msg_send, send_round, write_request_handler}
use flydragon.Send.Run.{Run}
use flydragon.Tests.{one_use, two_clients, pong}

-- The socket takes three bytes, after an interruption.
abbrev takes_three : Kernel
takes_three k = (interrupted (returned 3), true)

abbrev with_message : Server
with_message = msg_send (pong 0) two_clients

abbrev after_round : Server
after_round = (send_round true takes_three with_message).0

-- All bytes are on the wire then.
wire_after_steps : (write_request_handler (returned 5) true 0 after_round).wire 0 ≡ (pong 0).bytes
unfolding msg_send send_round write_request_handler one_use
wire_after_steps = refl
