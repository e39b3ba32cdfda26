-- ===== src/Sound.antt =====
-- The pool, the timer queue and the descriptors of a worker together, under all that the functions of
-- net/ and logic/ do with them.
pub mod Room
pub mod Closing
pub mod Taking
pub mod Accepting
pub mod Serving
pub mod Monitoring
pub mod Waiting
pub mod Recycled
pub mod Meanwhile
pub mod Blank
pub mod Start
pub mod Run
pub mod Returns
pub mod Numbers
pub mod Advance
pub mod AdvanceSteps
pub mod Stale
pub mod Watched
pub mod Watching
pub mod WatchRounds
pub mod WatchEvents
pub mod WatchRun
pub mod Recycling
use flydragon.Base.{
  ℕ, ◌+◌, ◌≤◌, ◌<◌, ◌≡◌, ◌⊎◌, refl, sym, ap, ◌∙◌, subst, List, [], ◌∷◌, none, ◌==◌, if◌then◌else◌,
}
use flydragon.State.{Entry, Server, Handler, no_handler, write_request}
use flydragon.State.Held.{Pools, pools_of, held_of, Keeps}
use flydragon.Pool.Owned.{IsPooled-same, owners, IsPooled}
use flydragon.Timer.Order.{IsTimed-same, IsTimed, checks}

-- A connection is free, waits to be recycled, or has a check of its heartbeat, of these one at most,
-- and none before it exists; those that are free or wait have no descriptor; the pool and the timer
-- queue are in order; only a server with a heartbeat checks any; no handler for writing reads.
pub record IsSound (s : Server) : Type 0 where
  pub pooled : IsPooled s
  pub timed : IsTimed s
  pub once : (i : ℕ) → owners i s + checks i s.timer_queue ≤ 1
  pub exists : (i : ℕ) → s.next_conn ≤ i → checks i s.timer_queue ≡ 0
  pub no_fd : (i : ℕ) → 0 < owners i s → (s.conn i).fd ≡ none
  pub armed : (s.kick_time_count ≡ 1) ⊎ (s.timer_queue ≡ [])
  pub waits : 0 < s.wait_time
  pub writes :
      (i : ℕ)
      → i < s.next_conn
      → ((s.conn i).whandler ≡ no_handler) ⊎ ((s.conn i).whandler ≡ write_request)

-- The state `t` is sound, and has the connections of `s` and maybe more.
pub record KeepsSound (s t : Server) : Type 0 where
  pub sound : IsSound t
  pub next : s.next_conn ≤ t.next_conn

-- The state with the lists and the queue of another one.
abbrev with_pools : Server → Pools → Server
with_pools t (next, free, recy, free_n, recy_n, queue, size, value, kicks, wait, delay, stop) =
    record t {
      next_conn = next;
      freeconnection_list = free;
      recyconnection_list = recy;
      free_connection_n = free_n;
      total_recyconnection_n = recy_n;
      timer_queue = queue;
      cur_size = size;
      timer_value = value;
      kick_time_count = kicks;
      wait_time = wait;
      recy_wait_time = delay;
      stop_event = stop;
    }

same_writes :
    (j : ℕ) (s t : Server)
    → Keeps j s t
    → ((s.conn j).whandler ≡ no_handler) ⊎ ((s.conn j).whandler ≡ write_request)
    → ((t.conn j).whandler ≡ no_handler) ⊎ ((t.conn j).whandler ≡ write_request)
same_writes j s t k h =
    subst (λ (w : Handler). (w ≡ no_handler) ⊎ (w ≡ write_request)) (sym (ap (λ p. p.1) k.held)) h

-- What changes none of these keeps the state sound.
pub Keeps-IsSound : (s t : Server) → ((j : ℕ) → Keeps j s t) → IsSound s → IsSound t
Keeps-IsSound s t k h =
    subst (λ (p : Pools). IsSound (with_pools t p)) (sym (k 0).pools)
      (record {
        pooled = IsPooled-same refl h.pooled;
        timed = IsTimed-same refl h.timed;
        once = h.once;
        exists = h.exists;
        no_fd = λ i o. ap (λ p. p.0) (k i).held ∙ h.no_fd i o;
        armed = h.armed;
        waits = h.waits;
        writes = λ i b. same_writes i s t (k i) (h.writes i b);
      })
