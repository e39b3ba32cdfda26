-- ===== src/Heartbeat.antt =====
-- ServerTimerQueueMonitorThread of net/flyd_socket_time.cc: connections that sent no heartbeat for
-- too long are given up.
pub mod Collect
pub mod Checks
pub mod Kicks
use flydragon.Base.{ℕ, zero, suc, List, [], ◌∷◌, none, some, ltb, if◌then◌else◌, length, ◌+◌}
use flydragon.State.{Timer, Server}
use flydragon.Timer.{get_over_time_timer}
use flydragon.Logic.{proc_ping_time_out_checking}

-- The loop that takes out all that is overdue, with fuel for the entries.
unfoldable pub collect : ℕ → ℕ → Server → List Timer × Server
unfolding get_over_time_timer
collect zero cur_time s = ([], s)
collect (suc fuel) cur_time s =
    let (result, t) = get_over_time_timer cur_time s in
    elim result [ none ↦ ([], t) | some p ↦ let (ps, u) = collect fuel cur_time t in (p ∷ ps, u) ]

-- The loop over the list `m_lsIdleList`.
unfoldable pub check_all : ℕ → List Timer → Server → Server
check_all cur_time [] s = s
check_all cur_time (p ∷ ps) s = check_all cur_time ps (proc_ping_time_out_checking cur_time p s)

-- One round of the thread, while the program is not stopped.
unfoldable pub monitor_round : ℕ → Server → Server
unfolding collect check_all
monitor_round cur_time s =
    if ltb 0 s.cur_size
    then if ltb s.timer_value cur_time
      then (let (idle, t) = collect (length s.timer_queue + 1) cur_time s in
          check_all cur_time idle t)
      else s
    else s
