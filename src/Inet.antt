-- ===== src/Inet.antt =====
-- net/flyd_socket_inet.cc: `flyd_sock_ntop`, which nothing calls.
use flydragon.Base.{ℕ, ◌+◌, ◌-◌, ◌^◌, u64}

-- `sa_family`
pub data Family : Type 0 where
  af_inet other_family : Family

-- `flyd_sock_ntop` of the structure at `sa`: what it returns is the distance of the pointer to the
-- address, four bytes behind `sa`, from the pointer to the text. The text is not written.
unfoldable pub sock_ntop : Family → (sa text : ℕ) → ℕ
sock_ntop af_inet sa text = u64 (sa + 4 + 2 ^ 64 - text)
sock_ntop other_family sa text = 0
