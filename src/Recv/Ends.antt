-- ===== src/Recv/Ends.antt =====
-- Readable events at which no bytes came.
use flydragon.Base.{ℕ, ◌≡◌, refl, []}
use flydragon.State.{Server}
use flydragon.Close.Stale.{Closed, zd_closesocket_proc-Closed}
use flydragon.Recv.{
  eagain, ewouldblock, eintr, econnreset, other_errno, ReadResult, got, failed, recvproc,
  after_read, wait_request_handler,
}

-- The peer closed its side, or `read` reports ECONNRESET or an error that the code does not name.
pub data IsEnd : ReadResult → Type 0 where
  closed : IsEnd (got [])
  reset : IsEnd (failed econnreset)
  other : IsEnd (failed other_errno)

-- `read` was interrupted or found nothing.
pub data IsPassing : ReadResult → Type 0 where
  again : IsPassing (failed eagain)
  would_block : IsPassing (failed ewouldblock)
  interrupted : IsPassing (failed eintr)

-- When `read` finds that the peer closed, or reports ECONNRESET or an error that is not named, the
-- handler gives the connection up; at EAGAIN, EWOULDBLOCK and EINTR it changes nothing.
pub wait_request_handler-Closed :
    (lo : ℕ → ℕ) (r : ReadResult) (now i : ℕ) (s : Server)
    → (IsEnd r → Closed now i s (wait_request_handler lo r now i s))
      × (IsPassing r → wait_request_handler lo r now i s ≡ s)
unfolding wait_request_handler recvproc after_read
wait_request_handler-Closed lo r now i s = (ends r, passes r)
  where
    ends : (r : ReadResult) → IsEnd r → Closed now i s (wait_request_handler lo r now i s)
    ends _ closed = zd_closesocket_proc-Closed now i s
    ends _ reset = zd_closesocket_proc-Closed now i s
    ends _ other = zd_closesocket_proc-Closed now i s

    passes : (r : ReadResult) → IsPassing r → wait_request_handler lo r now i s ≡ s
    passes _ again = refl
    passes _ would_block = refl
    passes _ interrupted = refl
