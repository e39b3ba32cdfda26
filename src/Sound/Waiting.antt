-- ===== src/Sound/Waiting.antt =====
-- A connection that waits to be recycled, under what else a worker does.
use flydragon.Base.{
  ℕ, ◌<◌, ◌≡◌, inl, inr, refl, sym, ap, ◌∙◌, subst, List, [], ◌∷◌, arith, true, contains,
  Bool-cases, Option-cases, eq_cases,
}
use flydragon.State.{Conn, Server}
use flydragon.State.Held.{Held, Pools, Keeps}
use flydragon.Pool.{
  get_from, get_connection, free_connection, put_one_to_free, close_connection, new_connection,
  get_one_to_use,
}
use flydragon.Pool.Owned.{occurs, occurs-append}
use flydragon.Timer.{add_to_timer_queue}
use flydragon.Timer.Order.{set_timer_value_lem}
use flydragon.Sound.Taking.{with_check}
use flydragon.Close.{zd_closesocket_proc}
use flydragon.Close.Shut.{settings_of}
use flydragon.Close.Stale.{zd_closesocket_proc-Closed}
use flydragon.Close.Elsewhere.{zd_closesocket_proc-Untouched}

-- Connection `j` waits in `t`, since when it waited in `s`, and for the same time.
pub record StillWaits (j : ℕ) (s t : Server) : Type 0 where
  pub waits : 0 < occurs j t.recyconnection_list
  pub since : (t.conn j).in_recy_time ≡ (s.conn j).in_recy_time
  pub settings : settings_of t ≡ settings_of s

pub StillWaits-trans :
    {j : ℕ} {s t u : Server} → StillWaits j s t → StillWaits j t u → StillWaits j s u
StillWaits-trans a b = record {
  waits = b.waits;
  since = b.since ∙ a.since;
  settings = b.settings ∙ a.settings;
}

pub Keeps-StillWaits :
    (j : ℕ) (s t : Server) → 0 < occurs j s.recyconnection_list → Keeps j s t → StillWaits j s t
Keeps-StillWaits j s t w k = record {
  waits = omega (arith, w, ap (λ (p : Pools). occurs j p.2) k.pools);
  since = ap (λ (c : Held). c.2) k.held;
  settings = ap (λ (p : Pools). (p.10, p.11)) k.pools;
}

contains-occurs : (i : ℕ) (xs : List ℕ) → 0 < occurs i xs → contains i xs ≡ true
unfolding contains
contains-occurs i [] h = absurd (omega arith)
contains-occurs i (x ∷ xs) h = ground (arith, contains-occurs i xs)

-- Giving up a connection, this one or another, leaves it waiting.
pub zd_closesocket_proc-StillWaits :
    (now i j : ℕ) (s : Server)
    → 0 < occurs j s.recyconnection_list
    → StillWaits j s (zd_closesocket_proc now i s)
zd_closesocket_proc-StillWaits now i j s w =
    let t = zd_closesocket_proc now i s in
    let c = zd_closesocket_proc-Closed now i s in
    let more : 0 < occurs j t.recyconnection_list =
      elim (Bool-cases (contains i s.recyconnection_list)) [
        | inl e ↦ let (_, _, q, _) = c.again e in omega (arith, w, ap (occurs j) q)
        | inr e ↦
            let (_, _, q, _) = c.first e in
            omega (arith, w, ap (occurs j) q, occurs-append j s.recyconnection_list (i ∷ []))
      ] in
    elim (eq_cases i j) [
      | inr d ↦ record {
        waits = more;
        since = ap (λ (c : Conn). c.in_recy_time) (zd_closesocket_proc-Untouched i j d now s).conn;
        settings = c.settings;
      }
      | inl e ↦
          let w₁ : 0 < occurs i s.recyconnection_list =
            omega (arith, w, ap (λ (k : ℕ). occurs k s.recyconnection_list) e) in
          let (_, since, _, _) = c.again (contains-occurs i s.recyconnection_list w₁) in
          record {
            waits = more;
            since = subst (λ (k : ℕ). (t.conn k).in_recy_time ≡ (s.conn k).in_recy_time) e since;
            settings = c.settings;
          }
    ]

get_from-StillWaits :
    (free : List ℕ) (fd now j : ℕ) (s : Server)
    → j < s.next_conn
    → 0 < occurs j s.recyconnection_list
    → StillWaits j s (get_from free fd now s).0
unfolding get_from new_connection get_one_to_use
get_from-StillWaits [] fd now j s b w = record {
  waits = w;
  since = ground (arith, b);
  settings = refl;
}
get_from-StillWaits (i ∷ is) fd now j s b w = record {
  waits = w;
  since = ground arith;
  settings = refl;
}

-- The next client gets another connection.
pub get_connection-StillWaits :
    (fd now j : ℕ) (s : Server)
    → j < s.next_conn
    → 0 < occurs j s.recyconnection_list
    → StillWaits j s (get_connection fd now s).0
unfolding get_connection
get_connection-StillWaits fd now j s b w = get_from-StillWaits s.freeconnection_list fd now j s b w

pub close_connection-StillWaits :
    (i j : ℕ) (s : Server)
    → 0 < occurs j s.recyconnection_list
    → StillWaits j s (close_connection i s)
unfolding close_connection free_connection put_one_to_free
close_connection-StillWaits i j s w = elim (Option-cases ((free_connection i s).conn i).fd) [
  | inl e ↦ rw (e, close_connection) (record { waits = w; since = ground arith; settings = refl })
  | inr (fd, e) ↦
      rw (e, close_connection) (record { waits = w; since = ground arith; settings = refl })
]

pub add_to_timer_queue-StillWaits :
    (now i j : ℕ) (s : Server)
    → 0 < occurs j s.recyconnection_list
    → StillWaits j s (add_to_timer_queue now i s)
unfolding add_to_timer_queue
add_to_timer_queue-StillWaits now i j s w =
    let (v, e, _) = set_timer_value_lem (with_check now i s) in
    subst (StillWaits j s) (sym e) (record { waits = w; since = refl; settings = refl })
