-- ===== src/Sound/Watched.antt =====
-- Every client with an open socket has a check of its heartbeat in the timer queue.
use flydragon.Base.{
  ℕ, ◌<◌, ◌≡◌, ◌≢◌, inl, inr, refl, sym, ap, ◌∙◌, subst, none, some, arith, contains, ◌==◌,
  if◌then◌else◌, Bool-cases, Option-cases,
}
use flydragon.State.{Server, write_request}
use flydragon.State.Held.{Held, Pools, Keeps}
use flydragon.Pool.{in_recy_connect_queue}
use flydragon.Timer.{delete_from_timer_queue}
use flydragon.Timer.Order.{IsTimed}
use flydragon.Timer.Delete.{delete_from_timer_queue-without}
use flydragon.Timer.Current.{current, current-others, late, late-others}
use flydragon.Close.{close_fd, drop_throw_send, zd_closesocket_proc}
use flydragon.Sound.Closing.{close_fd_pools, drop_throw_send-Keeps}

-- Connection `j` is one of a client, and its socket is open.
pub record IsClient (j : ℕ) (s : Server) : Type 0 where
  pub exists : j < s.next_conn
  pub writes : (s.conn j).whandler ≡ write_request
  pub fd : ℕ
  pub socket : (s.conn j).fd ≡ some fd

-- Connection `j` has a check under its number, if it is one of a client.
unfoldable pub HasCheck : ℕ → Server → Type 0
HasCheck j s = IsClient j s → 0 < current j (s.conn j).sequence s.timer_queue

-- The heartbeat is on with the given waiting time, and no check is after `last`.
abbrev pub Beats : ℕ → ℕ → Server → Type 0
Beats period last s =
    (s.kick_time_count ≡ 1) × (s.wait_time ≡ period) × (late last s.timer_queue ≡ 0)

-- The heartbeat is on, and all clients but maybe `x` have their check.
pub record WatchesBut (period last x : ℕ) (s : Server) : Type 0 where
  pub beats : Beats period last s
  pub others : (j : ℕ) → j ≢ x → HasCheck j s

-- The heartbeat is on, and all clients have their check.
pub record Watches (period last : ℕ) (s : Server) : Type 0 where
  pub beats : Beats period last s
  pub all : (j : ℕ) → HasCheck j s

-- What a client's check depends on is the same in `t`.
pub record SameClient (j : ℕ) (s t : Server) : Type 0 where
  pub next : t.next_conn ≡ s.next_conn
  pub writes : (t.conn j).whandler ≡ (s.conn j).whandler
  pub fd : (t.conn j).fd ≡ (s.conn j).fd
  pub number : (t.conn j).sequence ≡ (s.conn j).sequence
  pub checks : (n : ℕ) → current j n t.timer_queue ≡ current j n s.timer_queue

pub SameClient-HasCheck : (j : ℕ) (s t : Server) → SameClient j s t → HasCheck j s → HasCheck j t
unfolding HasCheck
SameClient-HasCheck j s t same h c =
    let before : IsClient j s = record {
      exists = omega (arith, c.exists, same.next);
      writes = sym same.writes ∙ c.writes;
      fd = c.fd;
      socket = sym same.fd ∙ c.socket;
    } in
    omega (
      arith,
      h before,
      same.checks (t.conn j).sequence,
      ap (λ (n : ℕ). current j n s.timer_queue) same.number,
    )

Keeps-SameClient : (j : ℕ) (s t : Server) → Keeps j s t → SameClient j s t
Keeps-SameClient j s t k = record {
  next = ap (λ (p : Pools). p.0) k.pools;
  writes = ap (λ (c : Held). c.1) k.held;
  fd = ap (λ (c : Held). c.0) k.held;
  number = ap (λ (c : Held). c.3) k.held;
  checks = λ n. ap (λ (p : Pools). current j n p.5) k.pools;
}

pub Keeps-Watches :
    {period last : ℕ} (s t : Server)
    → ((j : ℕ) → Keeps j s t)
    → Watches period last s
    → Watches period last t
Keeps-Watches {last = last} s t k h = record {
  beats = (
    ap (λ (p : Pools). p.8) (k 0).pools ∙ h.beats.0,
    ap (λ (p : Pools). p.9) (k 0).pools ∙ h.beats.1,
    ap (λ (p : Pools). late last p.5) (k 0).pools ∙ h.beats.2,
  );
  all = λ j. SameClient-HasCheck j s t (Keeps-SameClient j s t (k j)) (h.all j);
}

-- A connection without a descriptor needs no check.
pub closed-HasCheck : (j : ℕ) (s : Server) → (s.conn j).fd ≡ none → HasCheck j s
unfolding HasCheck
closed-HasCheck j s e c = absurd (cc (e, c.socket))

-- What closing does to the timer queue of the others.
in_recy_connect_queue_queue :
    (now i : ℕ) (s : Server)
    → ((in_recy_connect_queue now i s).timer_queue ≡ s.timer_queue)
      × ((in_recy_connect_queue now i s).kick_time_count ≡ s.kick_time_count)
      × ((in_recy_connect_queue now i s).wait_time ≡ s.wait_time)
unfolding in_recy_connect_queue
in_recy_connect_queue_queue now i s = elim (Bool-cases (contains i s.recyconnection_list)) [
  | inl e ↦ rw e (refl, refl, refl)
  | inr e ↦ rw e (refl, refl, refl)
]

close_fd_on :
    (i : ℕ) (s : Server)
    → ((close_fd i s).kick_time_count ≡ s.kick_time_count)
      × ((close_fd i s).wait_time ≡ s.wait_time)
unfolding close_fd
close_fd_on i s = elim (Option-cases (s.conn i).fd) [
  | inl e ↦ rw (e, close_fd) (refl, refl)
  | inr (fd, e) ↦ rw (e, close_fd) (refl, refl)
]

-- From `s` to `t` the heartbeat is as it was, and connection `j` has as many checks under each number.
pub record SameChecks (j : ℕ) (s t : Server) : Type 0 where
  pub on : t.kick_time_count ≡ s.kick_time_count
  pub wait : t.wait_time ≡ s.wait_time
  pub none_late : (last : ℕ) → late last s.timer_queue ≡ 0 → late last t.timer_queue ≡ 0
  pub checks : (n : ℕ) → current j n t.timer_queue ≡ current j n s.timer_queue

delete_from_timer_queue-SameChecks :
    (i j : ℕ) (s : Server)
    → i ≢ j
    → IsTimed s
    → SameChecks j s (if s.kick_time_count == 1 then delete_from_timer_queue i s else s)
delete_from_timer_queue-SameChecks i j s d h = elim (Bool-cases (s.kick_time_count == 1)) [
  | inr k ↦ rw k (record { on = refl; wait = refl; none_late = λ last l. l; checks = λ n. refl })
  | inl k ↦
      let (v, e, _, _) = delete_from_timer_queue-without i s h in
      rw k (
        subst (SameChecks j s) (sym e) (record {
          on = refl;
          wait = refl;
          none_late = λ last l. omega (arith, l, late-others last i s.timer_queue);
          checks = λ n. current-others i j n s.timer_queue d;
        }))
]

pub zd_closesocket_proc-SameChecks :
    (now i j : ℕ) (s : Server) → i ≢ j → IsTimed s → SameChecks j s (zd_closesocket_proc now i s)
unfolding zd_closesocket_proc
zd_closesocket_proc-SameChecks now i j s d h =
    let t = if s.kick_time_count == 1 then delete_from_timer_queue i s else s in
    let a = delete_from_timer_queue-SameChecks i j s d h in
    let (queue, _, _) = close_fd_pools i t in
    let pools = (drop_throw_send-Keeps i (close_fd i t) j).pools in
    let (queue₁, on₁, wait₁) =
      in_recy_connect_queue_queue now i (drop_throw_send i (close_fd i t)) in
    record {
      on = on₁ ∙ ap (λ (p : Pools). p.8) pools ∙ (close_fd_on i t).0 ∙ a.on;
      wait = wait₁ ∙ ap (λ (p : Pools). p.9) pools ∙ (close_fd_on i t).1 ∙ a.wait;
      none_late = λ last l.
          ap (late last) queue₁
          ∙ ap (λ (p : Pools). late last p.5) pools
          ∙ ap (late last) queue
          ∙ a.none_late last l;
      checks = λ n.
          ap (current j n) queue₁
          ∙ ap (λ (p : Pools). current j n p.5) pools
          ∙ ap (current j n) queue
          ∙ a.checks n;
    }
