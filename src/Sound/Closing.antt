-- ===== src/Sound/Closing.antt =====
-- `zdClosesocketProc` in a sound state.
use flydragon.Base.{
  ℕ, ◌+◌, ◌^◌, ◌≤◌, ◌<◌, ◌≡◌, inl, inr, refl, sym, ap, ◌∙◌, subst, List, [], ◌∷◌, ◌++◌, none, arith,
  contains, ◌==◌, if◌then◌else◌, Bool-cases, Option-cases, eq→==, ==→eq, is_positive, increment,
  u64, update,
}
use flydragon.State.{Entry, Server}
use flydragon.State.Held.{Held, Pools, Keeps, Keeps-refl, sets-Keeps}
use flydragon.Pool.{in_recy_connect_queue}
use flydragon.Pool.Owned.{
  IsPooled-same, occurs, occurs-append, occurs_none, IsPooled, in_recy_connect_queue-IsPooled,
}
use flydragon.Timer.{delete_from_timer_queue}
use flydragon.Timer.Order.{IsTimed-same, IsTimed, checks}
use flydragon.Timer.Delete.{others, without, delete_from_timer_queue-without}
use flydragon.Close.{close_fd, drop_throw_send, zd_closesocket_proc}
use flydragon.Close.Shut.{close_fd_lem}
use flydragon.Sound.{IsSound, Keeps-IsSound}
use flydragon.Sound.Room.{IsSound-Fits}

checks-others : (i j : ℕ) (es : List Entry) → checks j (others i es) ≤ checks j es
checks-others i j [] = omega arith
checks-others i j (e ∷ es) = ground (arith, checks-others i j es)

checks_of_others : (i : ℕ) (es : List Entry) → checks i (others i es) ≡ 0
checks_of_others i [] = refl
checks_of_others i (e ∷ es) = ground (arith, checks_of_others i es)

-- The connection `i` has no check in `t`, which is as sound as `s` and has the same connections, free
-- and in all.
record Unwatches (i : ℕ) (s t : Server) : Type 0 where
  sound : IsSound t
  none_left : checks i t.timer_queue ≡ 0
  free : t.freeconnection_list ≡ s.freeconnection_list
  next : t.next_conn ≡ s.next_conn

delete_from_timer_queue-Unwatches :
    (i : ℕ) (s : Server)
    → s.kick_time_count ≡ 1
    → IsSound s
    → Unwatches i s (delete_from_timer_queue i s)
delete_from_timer_queue-Unwatches i s k h =
    let (v, e, timed, _) = delete_from_timer_queue-without i s h.timed in
    let q = s.timer_queue in
    let timed₁ : IsTimed (record (without i s) { timer_value = v }) = subst IsTimed e timed in
    subst (Unwatches i s) (sym e) (record {
      sound = record {
        pooled = IsPooled-same refl h.pooled;
        timed = timed₁;
        once = λ j. omega (arith, h.once j, checks-others i j q);
        exists = λ j le. omega (arith, h.exists j le, checks-others i j q);
        no_fd = h.no_fd;
        armed = inl k;
        waits = h.waits;
        writes = h.writes;
      };
      none_left = checks_of_others i q;
      free = refl;
      next = refl;
    })

-- The first step of the closing.
unwatched :
    (i : ℕ) (s : Server)
    → IsSound s
    → Unwatches i s (if s.kick_time_count == 1 then delete_from_timer_queue i s else s)
unwatched i s h = elim (h.armed) [
  | inl k ↦ rw (eq→== s.kick_time_count 1 k) (delete_from_timer_queue-Unwatches i s k h)
  | inr q ↦ elim (Bool-cases (s.kick_time_count == 1)) [
    | inl e ↦ rw e (delete_from_timer_queue-Unwatches i s (==→eq s.kick_time_count 1 e) h)
    | inr e ↦ rw e (record { sound = h; none_left = ap (checks i) q; free = refl; next = refl })
  ]
]

close_fd-IsSound : (i : ℕ) (s : Server) → IsSound s → IsSound (close_fd i s)
unfolding close_fd
close_fd-IsSound i s h = elim (Option-cases (s.conn i).fd) [
  | inl e ↦ rw (e, close_fd) h
  | inr (fd, e) ↦
      rw (e, close_fd)
        (record {
          pooled = IsPooled-same refl h.pooled;
          timed = IsTimed-same refl h.timed;
          once = h.once;
          exists = h.exists;
          no_fd = λ j o. ground (arith, h.no_fd j o);
          armed = h.armed;
          waits = h.waits;
          writes = λ j b. ground (arith, h.writes j b);
        })
]

pub drop_throw_send-Keeps : (i : ℕ) (s : Server) (j : ℕ) → Keeps j s (drop_throw_send i s)
unfolding drop_throw_send
drop_throw_send-Keeps i s j = elim (Bool-cases (is_positive (s.conn i).throw_send_count)) [
  | inl e ↦ rw e (sets-Keeps i j _ refl refl refl)
  | inr e ↦ rw e Keeps-refl
]

pub close_fd_pools :
    (i : ℕ) (s : Server)
    → ((close_fd i s).timer_queue ≡ s.timer_queue)
      × ((close_fd i s).freeconnection_list ≡ s.freeconnection_list)
      × ((close_fd i s).next_conn ≡ s.next_conn)
unfolding close_fd
close_fd_pools i s = elim (Option-cases (s.conn i).fd) [
  | inl e ↦ rw (e, close_fd) (refl, refl, refl)
  | inr (fd, e) ↦ rw (e, close_fd) (refl, refl, refl)
]

-- The state in which the connection waits to be recycled.
abbrev now_waits : ℕ → ℕ → Server → Server
now_waits now i s = record s {
  conn =
      update s.conn i
        (record (s.conn i) { in_recy_time = now; sequence = u64 ((s.conn i).sequence + 1) });
  recyconnection_list = s.recyconnection_list ++ i ∷ [];
  total_recyconnection_n = increment s.total_recyconnection_n;
}

in_recy_connect_queue-IsSound :
    (now i : ℕ) (s : Server)
    → IsSound s
    → s.next_conn + 1 < 2 ^ 31
    → i < s.next_conn
    → occurs i s.freeconnection_list ≡ 0
    → checks i s.timer_queue ≡ 0
    → (s.conn i).fd ≡ none
    → IsSound (in_recy_connect_queue now i s)
unfolding in_recy_connect_queue
in_recy_connect_queue-IsSound now i s h room b o c fd =
    let pooled = in_recy_connect_queue-IsPooled now i s h.pooled (IsSound-Fits s h room) o b in
    elim (Bool-cases (contains i s.recyconnection_list)) [
      | inl e ↦ rw e h
      | inr e ↦
          let step : in_recy_connect_queue now i s ≡ now_waits now i s = rw e refl in
          let z = occurs_none i s.recyconnection_list e in
          let split = λ (j : ℕ). occurs-append j s.recyconnection_list (i ∷ []) in
          let pooled₁ : IsPooled (now_waits now i s) = subst IsPooled step pooled in
          rw e (record {
            pooled = pooled₁;
            timed = IsTimed-same refl h.timed;
            once = λ j. ground (arith, h.once j, split j, o, z, c);
            exists = h.exists;
            no_fd = λ j w. ground (arith, h.no_fd j, split j, fd);
            armed = h.armed;
            waits = h.waits;
            writes = λ j le. ground (arith, h.writes j le);
          })
    ]

in_recy_connect_queue_pools :
    (now i : ℕ) (s : Server)
    → ((in_recy_connect_queue now i s).freeconnection_list ≡ s.freeconnection_list)
      × ((in_recy_connect_queue now i s).next_conn ≡ s.next_conn)
unfolding in_recy_connect_queue
in_recy_connect_queue_pools now i s = elim (Bool-cases (contains i s.recyconnection_list)) [
  | inl e ↦ rw e (refl, refl)
  | inr e ↦ rw e (refl, refl)
]

-- The state `t` is sound, and has the connections of `s`, free and in all.
pub record StaysSound (s t : Server) : Type 0 where
  pub sound : IsSound t
  pub free : t.freeconnection_list ≡ s.freeconnection_list
  pub next : t.next_conn ≡ s.next_conn

-- If the state is sound, there are not too many connections to be counted, and the connection exists
-- and is not free, then giving it up leaves the state sound, with the same connections free and in
-- all.
pub zd_closesocket_proc-StaysSound :
    (now i : ℕ) (s : Server)
    → IsSound s
    → s.next_conn + 1 < 2 ^ 31
    → i < s.next_conn
    → occurs i s.freeconnection_list ≡ 0
    → StaysSound s (zd_closesocket_proc now i s)
unfolding zd_closesocket_proc
zd_closesocket_proc-StaysSound now i s h room b o =
    let t = if s.kick_time_count == 1 then delete_from_timer_queue i s else s in
    let u = drop_throw_send i (close_fd i t) in
    let un = unwatched i s h in
    let (queue, free, next) = close_fd_pools i t in
    let k = drop_throw_send-Keeps i (close_fd i t) in
    let pools = (k i).pools in
    let next₁ = ap (λ (p : Pools). p.0) pools ∙ next ∙ un.next in
    let free₁ = ap (λ (p : Pools). p.1) pools ∙ free ∙ un.free in
    let (free₂, next₂) = in_recy_connect_queue_pools now i u in
    record {
      sound =
          in_recy_connect_queue-IsSound now i u
            (Keeps-IsSound (close_fd i t) _ k (close_fd-IsSound i t un.sound))
            (omega (arith, next₁, room)) (omega (arith, next₁, b)) (ap (occurs i) free₁ ∙ o)
            (ap (λ (p : Pools). checks i p.5) pools ∙ ap (checks i) queue ∙ un.none_left)
            (ap (λ (c : Held). c.0) (k i).held ∙ (close_fd_lem i t).1);
      free = free₂ ∙ free₁;
      next = next₂ ∙ next₁;
    }
