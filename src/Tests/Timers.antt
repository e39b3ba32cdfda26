-- ===== src/Tests/Timers.antt =====
-- The timer queue, the monitor and the recycling of connections at concrete inputs.
use flydragon.Base.{ℕ, ◌+◌, ◌≡◌, refl, arith, [], ◌∷◌, ◌⊎◌, some, length, true, false}
use flydragon.State.{Entry, Server}
use flydragon.Timer.{insert, get_earliest_time, get_over_time_timer, delete_from_timer_queue}
use flydragon.Timer.Order.{IsTimed}
use flydragon.Timer.Delete.{without, NoneOf, delete_from_timer_queue-without}
use flydragon.Timer.Overdue.{renewed, get_over_time_timer_due}
use flydragon.Heartbeat.{collect, monitor_round}
use flydragon.Heartbeat.Collect.{Collects, collect_due}
use flydragon.Heartbeat.Checks.{is_silent, IsShut}
use flydragon.Heartbeat.Kicks.{monitor_round-kicks}
use flydragon.Pool.{recy_round}
use flydragon.Pool.Recycle.{Partitions, is_over, recy_round_running}
use flydragon.Tests.{one_use, two_checks, given_up}

two_checks-IsTimed : IsTimed two_checks
unfolding get_earliest_time
two_checks-IsTimed = record {
  sorted = omega arith;
  sized = refl;
  fits = omega arith;
  noted = λ t h. grind arith;
}

abbrev first_check : Entry
first_check = record { time = 120; timer = record { conn = 1; sequence = 1 } }

abbrev second_check : Entry
second_check = record { time = 130; timer = record { conn = 0; sequence = 1 } }

delete_from_timer_queue-without_example :
    (v : ℕ) × (delete_from_timer_queue 1 two_checks
      ≡ record (without 1 two_checks) { timer_value = v })
    × IsTimed (delete_from_timer_queue 1 two_checks)
    × NoneOf 1 (delete_from_timer_queue 1 two_checks).timer_queue
delete_from_timer_queue-without_example =
    delete_from_timer_queue-without 1 two_checks two_checks-IsTimed

get_over_time_timer_due_example :
    (v : ℕ) × (get_over_time_timer 125 two_checks ≡ (
      some first_check.timer,
      record two_checks {
        timer_queue = insert (renewed 125 two_checks first_check.timer) (second_check ∷ []);
        blocks = two_checks.blocks + 1;
        timer_value = v;
      },
    ))
    × IsTimed (get_over_time_timer 125 two_checks).1
get_over_time_timer_due_example =
    get_over_time_timer_due 125 two_checks first_check (second_check ∷ []) two_checks-IsTimed refl
      (omega arith)

-- The same with open sockets; connection 1 sent its last heartbeat at second 100.
abbrev open_checks : Server
open_checks = record two_checks { conn = λ i. record one_use { fd = some (10 + i) } }

open_checks-IsTimed : IsTimed open_checks
open_checks-IsTimed = record {
  sorted = two_checks-IsTimed.sorted;
  sized = refl;
  fits = two_checks-IsTimed.fits;
  noted = two_checks-IsTimed.noted;
}

monitor_round-kicks_example :
    ((is_silent 171 1 open_checks ≡ true)
      × IsShut (open_checks.conn 1).fd 1 (monitor_round 171 open_checks))
    ⊎ ((is_silent 171 1 open_checks ≡ false)
        × ((monitor_round 171 open_checks).conn 1 ≡ open_checks.conn 1))
unfolding one_use
monitor_round-kicks_example =
    monitor_round-kicks 171 open_checks [] first_check (second_check ∷ []) open_checks-IsTimed
      (omega arith) refl (omega arith) refl

collect_due_example :
    Collects 135 two_checks (collect (length two_checks.timer_queue + 1) 135 two_checks)
collect_due_example = collect_due 135 two_checks two_checks-IsTimed (omega arith)

recy_round_running_example :
    Partitions (is_over 110 given_up) given_up (recy_round 110 given_up).0
    × ((recy_round 110 given_up).1 ≡ false)
recy_round_running_example = recy_round_running 110 given_up refl refl (omega arith)
