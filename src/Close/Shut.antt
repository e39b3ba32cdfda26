-- ===== src/Close/Shut.antt =====
-- What the steps of `zdClosesocketProc` before the last one leave of a connection.
use flydragon.Base.{
  ℕ, ◌≡◌, inl, inr, refl, ◌∙◌, Option, List, ◌∷◌, none, some, arith, length, zero, suc, ltb, dec64,
  if◌then◌else◌, Bool-cases, Option-cases, ◌==◌, is_positive,
}
use flydragon.State.{Server}
use flydragon.State.Memory.{free_memory}
use flydragon.Timer.{
  delete_first, delete_scan, get_earliest_time, set_timer_value, delete_from_timer_queue,
}
use flydragon.Close.{close_fd, drop_throw_send}

-- The settings of the recycling, and whether the program is to end.
abbrev pub settings_of : Server → ℕ × ℕ
settings_of s = (s.recy_wait_time, s.stop_event)

-- The closed descriptors with one more, if there is one.
abbrev pub with_socket : Option ℕ → List ℕ → List ℕ
with_socket none closed = closed
with_socket (some fd) closed = fd ∷ closed

-- The fields that no part of the closing but its last step reads.
pub record Before (i : ℕ) (s t : Server) : Type 0 where
  pub sequence : (t.conn i).sequence ≡ (s.conn i).sequence
  pub time : (t.conn i).in_recy_time ≡ (s.conn i).in_recy_time
  pub queue : t.recyconnection_list ≡ s.recyconnection_list
  pub count : t.total_recyconnection_n ≡ s.total_recyconnection_n
  pub settings : settings_of t ≡ settings_of s
  pub shuts : with_socket (t.conn i).fd t.closed ≡ with_socket (s.conn i).fd s.closed

pub close_fd_lem :
    (i : ℕ) (s : Server) → Before i s (close_fd i s) × (((close_fd i s).conn i).fd ≡ none)
unfolding close_fd
close_fd_lem i s = elim (Option-cases (s.conn i).fd) [
  | inl e ↦
      rw (e, close_fd)
        (
          record {
            sequence = refl;
            time = refl;
            queue = refl;
            count = refl;
            settings = refl;
            shuts = refl;
          },
          e,
        )
  | inr (fd, e) ↦
      rw (e, close_fd)
        (
          record {
            sequence = ground arith;
            time = ground arith;
            queue = refl;
            count = refl;
            settings = refl;
            shuts = ground arith;
          },
          ground arith,
        )
]

drop_throw_send_lem :
    (i : ℕ) (s : Server)
    → Before i s (drop_throw_send i s) × (((drop_throw_send i s).conn i).fd ≡ (s.conn i).fd)
unfolding drop_throw_send
drop_throw_send_lem i s = elim (Bool-cases (is_positive (s.conn i).throw_send_count)) [
  | inl e ↦ rw e (
    record {
      sequence = ground arith;
      time = ground arith;
      queue = refl;
      count = refl;
      settings = refl;
      shuts = ground arith;
    },
    ground arith,
  )
  | inr e ↦ rw e (
    record {
      sequence = refl;
      time = refl;
      queue = refl;
      count = refl;
      settings = refl;
      shuts = refl;
    },
    refl,
  )
]

delete_scan_lem : (fuel : ℕ) (i : ℕ) (s : Server) → Before i s (delete_scan fuel i s)
unfolding delete_scan
delete_scan_lem zero i s = record {
  sequence = refl;
  time = refl;
  queue = refl;
  count = refl;
  settings = refl;
  shuts = refl;
}
delete_scan_lem (suc fuel) i s = elim (Option-cases (delete_first i s.timer_queue)) [
  | inl e ↦
      rw (e, delete_scan)
        (record {
          sequence = refl;
          time = refl;
          queue = refl;
          count = refl;
          settings = refl;
          shuts = refl;
        })
  | inr (rest, e) ↦
      rw (e, delete_scan)
        (let r = delete_scan_lem fuel i (record s {
          blocks = free_memory (some i) s.blocks;
          timer_queue = rest;
          cur_size = dec64 s.cur_size;
        }) in
          record {
            sequence = r.sequence;
            time = r.time;
            queue = r.queue;
            count = r.count;
            settings = r.settings;
            shuts = r.shuts;
          })
]

Before-trans : {i : ℕ} {s t u : Server} → Before i s t → Before i t u → Before i s u
Before-trans a b = record {
  sequence = b.sequence ∙ a.sequence;
  time = b.time ∙ a.time;
  queue = b.queue ∙ a.queue;
  count = b.count ∙ a.count;
  settings = b.settings ∙ a.settings;
  shuts = b.shuts ∙ a.shuts;
}

set_timer_value_lem : (i : ℕ) (s : Server) → Before i s (set_timer_value s)
unfolding set_timer_value
set_timer_value_lem i s = elim (Option-cases (get_earliest_time s.timer_queue)) [
  | inl e ↦
      rw (e, set_timer_value)
        (record {
          sequence = refl;
          time = refl;
          queue = refl;
          count = refl;
          settings = refl;
          shuts = refl;
        })
  | inr (t, e) ↦
      rw (e, set_timer_value)
        (record {
          sequence = refl;
          time = refl;
          queue = refl;
          count = refl;
          settings = refl;
          shuts = refl;
        })
]

delete_from_timer_queue_lem : (i : ℕ) (s : Server) → Before i s (delete_from_timer_queue i s)
unfolding delete_from_timer_queue
delete_from_timer_queue_lem i s =
    let d = delete_scan_lem (length s.timer_queue) i s in
    elim (Bool-cases (ltb 0 (delete_scan (length s.timer_queue) i s).cur_size)) [
      | inl e ↦ rw e (Before-trans d (set_timer_value_lem i _))
      | inr e ↦ rw e d
    ]

-- The steps before the last one.
abbrev pub shut : ℕ → Server → Server
shut i s =
    drop_throw_send i
      (close_fd i (if s.kick_time_count == 1 then delete_from_timer_queue i s else s))

pub shut_lem : (i : ℕ) (s : Server) → Before i s (shut i s) × (((shut i s).conn i).fd ≡ none)
shut_lem i s = (Before-trans (start s) (Before-trans closes.0 drops.0), drops.1 ∙ closes.1)
  where
    start :
        (s : Server)
        → Before i s (if s.kick_time_count == 1 then delete_from_timer_queue i s else s)
    start s = elim (Bool-cases (s.kick_time_count == 1)) [
      | inl e ↦ rw e (delete_from_timer_queue_lem i s)
      | inr e ↦ rw e (record {
        sequence = refl;
        time = refl;
        queue = refl;
        count = refl;
        settings = refl;
        shuts = refl;
      })
    ]

    closes :
        Before i
          (if s.kick_time_count == 1 then delete_from_timer_queue i s else s)
          (close_fd i (if s.kick_time_count == 1 then delete_from_timer_queue i s else s))
        × ((close_fd i (if s.kick_time_count == 1 then delete_from_timer_queue i s else s)).conn
            i).fd
          ≡ none
    closes = close_fd_lem i (if s.kick_time_count == 1 then delete_from_timer_queue i s else s)

    drops :
        Before i
          (close_fd i (if s.kick_time_count == 1 then delete_from_timer_queue i s else s))
          (shut i s)
        × ((shut i s).conn i).fd
          ≡ ((close_fd i (if s.kick_time_count == 1 then delete_from_timer_queue i s else s)).conn
              i).fd
    drops =
        drop_throw_send_lem i
          (close_fd i (if s.kick_time_count == 1 then delete_from_timer_queue i s else s))
