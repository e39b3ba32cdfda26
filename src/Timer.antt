-- ===== src/Timer.antt =====
-- net/flyd_socket_time.cc: the queue of heartbeat checks, a multimap from times to connections.
-- The monitor thread is in Heartbeat.
pub mod Order
pub mod Delete
pub mod Overdue
pub mod Current
use flydragon.Base.{
  ℕ, zero, suc, ◌+◌, List, [], ◌∷◌, Option, none, some, ltb, leb, ◌==◌, if◌then◌else◌, length,
  inc64, dec64,
}
use flydragon.State.{Timer, Entry, Server}
use flydragon.State.Memory.{alloc_memory, free_memory}

-- `multimap::insert`: behind the entries with the same key.
unfoldable pub insert : Entry → List Entry → List Entry
insert e [] = e ∷ []
insert e (x ∷ xs) = if ltb e.time x.time then e ∷ x ∷ xs else x ∷ insert e xs

-- `GetEarliestTime`; its callers see to it that the queue is not empty.
unfoldable pub get_earliest_time : List Entry → Option ℕ
get_earliest_time [] = none
get_earliest_time (e ∷ es) = some e.time

-- `m_timer_value_ = GetEarliestTime()`
unfoldable pub set_timer_value : Server → Server
unfolding get_earliest_time
set_timer_value s = elim (get_earliest_time s.timer_queue) [
  | none ↦ s
  | some t ↦ record s { timer_value = t }
]

-- `AddToTimerQueue`
unfoldable pub add_to_timer_queue : ℕ → ℕ → Server → Server
unfolding insert set_timer_value
add_to_timer_queue now i s =
    let timer : Timer = record { conn = i; sequence = (s.conn i).sequence } in
    set_timer_value (record s {
      blocks = alloc_memory s.blocks;
      timer_queue = insert (record { time = now + s.wait_time; timer = timer }) s.timer_queue;
      cur_size = inc64 s.cur_size;
    })

-- `RemoveFirstTimer`
remove_first : List Entry → Server → Option Timer × Server
remove_first [] s = (none, s)
remove_first (e ∷ es) s = (some e.timer, record s { timer_queue = es; cur_size = dec64 s.cur_size })

unfoldable pub remove_first_timer : Server → Option Timer × Server
unfolding remove_first
remove_first_timer s = if s.cur_size == 0 then (none, s) else remove_first s.timer_queue s

-- The rest of `GetOverTimeTimer` once an overdue entry is taken out: it is queued again.
requeue : ℕ → Option Timer × Server → Option Timer × Server
requeue cur_time (none, s) = (none, s)
requeue cur_time (some p, s) =
    let t = record s {
      blocks = alloc_memory s.blocks;
      timer_queue =
          insert
            (record {
              time = cur_time + s.wait_time;
              timer = record { conn = p.conn; sequence = p.sequence };
            })
            s.timer_queue;
      cur_size = inc64 s.cur_size;
    } in
    (some p, if ltb 0 t.cur_size then set_timer_value t else t)

-- `GetOverTimeTimer`
unfoldable pub get_over_time_timer : ℕ → Server → Option Timer × Server
unfolding get_earliest_time remove_first_timer requeue
get_over_time_timer cur_time s = elim (get_earliest_time s.timer_queue) [
  | none ↦ (none, s)
  | some earliest ↦
      if s.cur_size == 0
      then (none, s)
      else if leb earliest cur_time
      then requeue cur_time (remove_first_timer s)
      else (none, s)
]

-- The `for` loop of `DeleteFromTimerQueue` up to the first entry of the connection: the queue
-- without it.
unfoldable pub delete_first : ℕ → List Entry → Option (List Entry)
delete_first i [] = none
delete_first i (e ∷ es) =
    if e.timer.conn == i
    then some es
    else elim (delete_first i es) [ none ↦ none | some rest ↦ some (e ∷ rest) ]

-- The code from `lblMTQM` on, with fuel for the entries that are deleted.
unfoldable pub delete_scan : ℕ → ℕ → Server → Server
unfolding delete_first
delete_scan zero i s = s
delete_scan (suc fuel) i s = elim (delete_first i s.timer_queue) [
  | none ↦ s
  | some rest ↦ delete_scan fuel i (record s {
    blocks = free_memory (some i) s.blocks;
    timer_queue = rest;
    cur_size = dec64 s.cur_size;
  })
]

-- `DeleteFromTimerQueue`
unfoldable pub delete_from_timer_queue : ℕ → Server → Server
unfolding delete_scan set_timer_value
delete_from_timer_queue i s =
    let t = delete_scan (length s.timer_queue) i s in
    if ltb 0 t.cur_size then set_timer_value t else t

-- The loop of `clearAllFromTimerQueue`: the blocks and the size that are left.
unfoldable pub clear_timers : List Entry → ℕ → ℕ → ℕ × ℕ
clear_timers [] blocks size = (blocks, size)
clear_timers (e ∷ es) blocks size = clear_timers es (free_memory (some e) blocks) (dec64 size)

-- `clearAllFromTimerQueue`
unfoldable pub clear_all_from_timer_queue : Server → Server
unfolding clear_timers
clear_all_from_timer_queue s =
    let (left, size) = clear_timers s.timer_queue s.blocks s.cur_size in
    record s { timer_queue = []; blocks = left; cur_size = size }
