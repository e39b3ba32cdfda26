-- ===== src/Close/Elsewhere.antt =====
-- What `zdClosesocketProc` leaves of the other connections.
use flydragon.Base.{
  ℕ, zero, suc, ◌≡◌, ◌≢◌, inl, inr, refl, ◌∙◌, some, ◌==◌, ltb, length, contains, dec64, Bool-cases,
  Option-cases, is_positive, update_ne,
}
use flydragon.State.{Server}
use flydragon.State.Memory.{free_memory}
use flydragon.Pool.{in_recy_connect_queue}
use flydragon.Timer.{
  delete_first, delete_scan, get_earliest_time, set_timer_value, delete_from_timer_queue,
}
use flydragon.Close.{close_fd, drop_throw_send, zd_closesocket_proc}

-- From `s` to `t` connection `j` and the waiting time stay.
pub record Untouched (j : ℕ) (s t : Server) : Type 0 where
  pub conn : t.conn j ≡ s.conn j
  pub wait : t.wait_time ≡ s.wait_time

pub Untouched-refl : {j : ℕ} {s : Server} → Untouched j s s
Untouched-refl = record { conn = refl; wait = refl }

pub Untouched-trans : {j : ℕ} {s t u : Server} → Untouched j s t → Untouched j t u → Untouched j s u
Untouched-trans a b = record { conn = b.conn ∙ a.conn; wait = b.wait ∙ a.wait }

set_timer_value-Untouched : (j : ℕ) (s : Server) → Untouched j s (set_timer_value s)
unfolding set_timer_value
set_timer_value-Untouched j s = elim (Option-cases (get_earliest_time s.timer_queue)) [
  | inl e ↦ rw (e, set_timer_value) Untouched-refl
  | inr (t, e) ↦ rw (e, set_timer_value) (record { conn = refl; wait = refl })
]

delete_scan-Untouched : (fuel i j : ℕ) (s : Server) → Untouched j s (delete_scan fuel i s)
unfolding delete_scan
delete_scan-Untouched zero i j s = Untouched-refl
delete_scan-Untouched (suc fuel) i j s = elim (Option-cases (delete_first i s.timer_queue)) [
  | inl e ↦ rw (e, delete_scan) Untouched-refl
  | inr (rest, e) ↦
      rw (e, delete_scan)
        (let r = delete_scan-Untouched fuel i j (record s {
          blocks = free_memory (some i) s.blocks;
          timer_queue = rest;
          cur_size = dec64 s.cur_size;
        }) in
          record { conn = r.conn; wait = r.wait })
]

delete_from_timer_queue-Untouched :
    (i j : ℕ) (s : Server) → Untouched j s (delete_from_timer_queue i s)
unfolding delete_from_timer_queue
delete_from_timer_queue-Untouched i j s =
    let d = delete_scan-Untouched (length s.timer_queue) i j s in
    elim (Bool-cases (ltb 0 (delete_scan (length s.timer_queue) i s).cur_size)) [
      | inl e ↦ rw e (Untouched-trans d (set_timer_value-Untouched j _))
      | inr e ↦ rw e d
    ]

module _ (i j : ℕ) (differ : i ≢ j) where
  close_fd-Untouched : (s : Server) → Untouched j s (close_fd i s)
  unfolding close_fd
  close_fd-Untouched s = elim (Option-cases (s.conn i).fd) [
    | inl e ↦ rw (e, close_fd) Untouched-refl
    | inr (fd, e) ↦ rw (e, close_fd) (record { conn = update_ne s.conn i _ j differ; wait = refl })
  ]

  drop_throw_send-Untouched : (s : Server) → Untouched j s (drop_throw_send i s)
  unfolding drop_throw_send
  drop_throw_send-Untouched s = elim (Bool-cases (is_positive (s.conn i).throw_send_count)) [
    | inl e ↦ rw e (record { conn = update_ne s.conn i _ j differ; wait = refl })
    | inr e ↦ rw e Untouched-refl
  ]

  recy-Untouched : (now : ℕ) (s : Server) → Untouched j s (in_recy_connect_queue now i s)
  unfolding in_recy_connect_queue
  recy-Untouched now s = elim (Bool-cases (contains i s.recyconnection_list)) [
    | inl e ↦ rw e Untouched-refl
    | inr e ↦ rw e (record { conn = update_ne s.conn i _ j differ; wait = refl })
  ]

  -- Giving up connection `i` leaves another one as it is.
  pub zd_closesocket_proc-Untouched :
      (now : ℕ) (s : Server) → Untouched j s (zd_closesocket_proc now i s)
  unfolding zd_closesocket_proc
  zd_closesocket_proc-Untouched now s = elim (Bool-cases (s.kick_time_count == 1)) [
    | inl e ↦ rw e (Untouched-trans (delete_from_timer_queue-Untouched i j s) (rest now _))
    | inr e ↦ rw e (rest now s)
  ]
    where
      rest :
          (now : ℕ) (s : Server)
          → Untouched j s (in_recy_connect_queue now i (drop_throw_send i (close_fd i s)))
      rest now s =
          Untouched-trans (close_fd-Untouched s)
            (Untouched-trans (drop_throw_send-Untouched _) (recy-Untouched now _))
