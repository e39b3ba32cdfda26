-- ===== src/Tests/Clients.antt =====
-- Clients that come, are answered and go, at concrete inputs.
use flydragon.Base.{ℕ, ◌≡◌, ◌↔◌, refl, arith, [], ◌∷◌, some, true, false, bit_xor}
use flydragon.Comm.Header.{read_header}
use flydragon.Crc.{get_crc}
use flydragon.Crc.Bitwise.{bitwise_crc, get_crc-bitwise_crc}
use flydragon.Close.{zd_closesocket_proc}
use flydragon.Close.Stale.{Closed, zd_closesocket_proc-Closed}
use flydragon.Pool.{get_connection}
use flydragon.Pool.Fresh.{HaveRoom}
use flydragon.Recv.{got, wait_request_handler}
use flydragon.Recv.Ends.{IsEnd, IsPassing, wait_request_handler-Closed}
use flydragon.Logic.{handle_ping, find_handler}
use flydragon.Logic.Gate.{IsIntact, Handles, find_handler-checked}
use flydragon.Accept.{Answers, accepted, other_error, accept_connection}
use flydragon.Accept.Ready.{all_well, Ready, Refused, accept_connection-Ready}
use flydragon.Tests.{one_use, two_clients, two_checks, pong}

-- The check value of CRC-32, of the digits from 1 to 9.
get_crc_check :
    get_crc (b'1' ∷ b'2' ∷ b'3' ∷ b'4' ∷ b'5' ∷ b'6' ∷ b'7' ∷ b'8' ∷ b'9' ∷ []) ≡ 0xcbf43926
unfolding get_crc
get_crc_check = refl

get_crc-bitwise_crc_example :
    get_crc (b'1' ∷ b'2' ∷ b'3' ∷ [])
    ≡ bit_xor (bitwise_crc 0xffffffff (b'1' ∷ b'2' ∷ b'3' ∷ [])) 0xffffffff
get_crc-bitwise_crc_example = get_crc-bitwise_crc (b'1' ∷ b'2' ∷ b'3' ∷ []) (omega arith)

zd_closesocket_proc-Closed_example : Closed 150 1 two_checks (zd_closesocket_proc 150 1 two_checks)
zd_closesocket_proc-Closed_example = zd_closesocket_proc-Closed 150 1 two_checks

-- What the allocator leaves in a block.
abbrev left_over : ℕ → ℕ
left_over n = 7

wait_request_handler-Closed_example :
    (IsEnd (got [])
      → Closed 150 1 two_checks (wait_request_handler left_over (got []) 150 1 two_checks))
    × (IsPassing (got []) → wait_request_handler left_over (got []) 150 1 two_checks ≡ two_checks)
wait_request_handler-Closed_example =
    wait_request_handler-Closed left_over (got []) 150 1 two_checks

find_handler-checked_example : (find_handler (pong 0) two_clients ≡ some handle_ping) ↔ (
    IsIntact (pong 0)
    × ((two_clients.conn 0).sequence ≡ 1)
    × Handles (read_header (pong 0).bytes).msg_code handle_ping)
find_handler-checked_example = find_handler-checked (pong 0) two_clients handle_ping (ground arith)

-- The message is one that is handled.
ping_is_handled : find_handler (pong 0) two_clients ≡ some handle_ping
unfolding find_handler one_use
ping_is_handled = refl

-- `accept4` gives a descriptor and the other calls succeed.
abbrev answers : Answers
answers = record { accept4 = accepted 9; accept = other_error; nonblocking = true; ctl = true }

two_clients-HaveRoom : HaveRoom two_clients
unfolding one_use
two_clients-HaveRoom j = refl

accept_connection-Ready_example :
    let (u, new) = get_connection 9 150 two_clients in
    let t = accept_connection true answers 9 150 0 two_clients in
    (all_well true answers ≡ true → Ready 9 (t.conn new))
    × (all_well true answers ≡ false → Refused 9 new u t)
accept_connection-Ready_example =
    accept_connection-Ready true answers 9 150 0 two_clients two_clients-HaveRoom
