-- ===== src/State/Held.antt =====
-- What only accepting, closing, recycling and the timers change of CSocekt.
use flydragon.Base.{ℕ, ◌≡◌, refl, ap, ◌∙◌, List, Option, update, update_keeps}
use flydragon.State.{Entry, Handler, Conn, Server}

-- The descriptor of a connection, its handler for writing, since when it waits, and its number.
abbrev pub Held : Type 0
Held = Option ℕ × Handler × ℕ × ℕ

abbrev pub held_of : Conn → Held
held_of c = (c.fd, c.whandler, c.in_recy_time, c.sequence)

-- The lists of the pool with their counters, the timer queue, the settings of the heartbeat and of the
-- recycling, and whether the program is to end.
abbrev pub Pools : Type 0
Pools = ℕ × List ℕ × List ℕ × ℕ × ℕ × List Entry × ℕ × ℕ × ℕ × ℕ × ℕ × ℕ

abbrev pub pools_of : Server → Pools
pools_of s = (
  s.next_conn, s.freeconnection_list, s.recyconnection_list, s.free_connection_n,
  s.total_recyconnection_n, s.timer_queue, s.cur_size, s.timer_value, s.kick_time_count,
  s.wait_time, s.recy_wait_time, s.stop_event,
)

-- From `s` to `t` these stay, for connection `j`.
pub record Keeps (j : ℕ) (s t : Server) : Type 0 where
  pub held : held_of (t.conn j) ≡ held_of (s.conn j)
  pub pools : pools_of t ≡ pools_of s

pub Keeps-refl : {j : ℕ} {s : Server} → Keeps j s s
Keeps-refl = record { held = refl; pools = refl }

pub Keeps-trans : {j : ℕ} {s t u : Server} → Keeps j s t → Keeps j t u → Keeps j s u
Keeps-trans a b = record { held = b.held ∙ a.held; pools = b.pools ∙ a.pools }

-- A change of connection `i` that leaves its descriptor and its handler.
pub sets-Keeps :
    (i j : ℕ) (c : Conn) {s t : Server}
    → held_of c ≡ held_of (s.conn i)
    → t.conn ≡ update s.conn i c
    → pools_of t ≡ pools_of s
    → Keeps j s t
sets-Keeps i j c {s} {t} kept conn pools = record {
  held = ap (λ (f : ℕ → Conn). held_of (f j)) conn ∙ update_keeps held_of s.conn i c j kept;
  pools = pools;
}
