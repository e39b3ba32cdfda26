-- ===== src/Pool/Steps.antt =====
-- The operations on the pool as a step relation.
use flydragon.Base.{ℕ, ◌<◌, ◌≡◌}
use flydragon.State.{Server}
use flydragon.Pool.{recy_round, free_connection, get_connection, in_recy_connect_queue}
use flydragon.Pool.Owned.{
  occurs, owners, IsPooled, Fits, free_connection-IsPooled, in_recy_connect_queue-IsPooled,
  get_connection-IsPooled,
}
use flydragon.Pool.Rounds.{recy_round-IsPooled}

-- What happens to the pool. A connection that is freed at once is in use; one that is given up is
-- in use, or waits already.
data PoolStep : Server → Server → Type 0 where
  gets : (fd now : ℕ) (s : Server) → PoolStep s (get_connection fd now s).0
  frees : (i : ℕ) (s : Server) → owners i s ≡ 0 → i < s.next_conn → PoolStep s (free_connection i s)
  gives_up :
      (now i : ℕ) (s : Server)
      → occurs i s.freeconnection_list ≡ 0
      → i < s.next_conn
      → PoolStep s (in_recy_connect_queue now i s)
  recycles : (now : ℕ) (s : Server) → PoolStep s (recy_round now s).0

-- Each operation on the pool, while its counters do not wrap, keeps every connection in one of the
-- free list and the queue to be recycled at most, and once, and the counters at the lengths.
PoolStep-IsPooled : {s t : Server} → PoolStep s t → IsPooled s → Fits s → IsPooled t
PoolStep-IsPooled (gets fd now s) h f = (get_connection-IsPooled fd now s h f).0
PoolStep-IsPooled (frees i s o b) h f = free_connection-IsPooled i s h f o b
PoolStep-IsPooled (gives_up now i s o b) h f = in_recy_connect_queue-IsPooled now i s h f o b
PoolStep-IsPooled (recycles now s) h f = recy_round-IsPooled now s h f
