-- ===== src/TimerQueue/Tests.antt =====
-- A queue with one timer for once and one that repeats.
use twnl.Base.{
  ℕ, zero, suc, ◌+◌, ◌≤◌, ◌<◌, ◌^◌, ◌⊎◌, ◌≡◌, refl, arith, Option, none, some, List, [], ◌∷◌,
}
use twnl.Channel.{zeroed, enable_reading}
use twnl.TimerQueue.Alarm.{
  Op, adds, cancels, fires, step, run, AllSensible, InTime, alarm, run-IsArmed, rings, rings_late,
}
use twnl.TimerQueue.Timerfd.{
  new, den, millisecond, nanoseconds, duration_from_now, duration_from_now_lem,
}
use twnl.TimerQueue.{Entry, Timer, Queue, new_timer, cancel_timer, handle_read}
use twnl.TimerQueue.Order.{All, Sorted, due_at}
use twnl.TimerQueue.Adding.{IsValid, self_cancel_deleted}
use twnl.TimerQueue.Firing.{quiet, fired, onto, handle_read-IsValid}

abbrev heap : ℕ → Option Timer
heap zero = some (new_timer 10 0)
heap (suc zero) = some (new_timer 20 5)
heap _ = none

abbrev both : List Entry
both = record { at = 10; timer = 0 } ∷ record { at = 20; timer = 1 } ∷ []

abbrev queue : Queue
queue = record { timers = both; heap = heap; trace = [] }

both-Sorted : Sorted both
unfolding Sorted All
both-Sorted = ((refl, tt), (tt, tt))

queue-IsValid : IsValid queue
unfolding Sorted All
queue-IsValid = record {
  sorted = both-Sorted;
  kept = ((new_timer 10 0, refl, refl, refl), ((new_timer 20 5, refl, refl, refl), tt));
}

handle_read-IsValid_example :
    (q' : Queue) × (handle_read quiet 20 queue ≡ some q')
    × (fired q'.trace ≡ 1 ∷ 0 ∷ [])
    × IsValid q'
unfolding onto fired due_at
handle_read-IsValid_example = handle_read-IsValid 20 queue queue-IsValid

self_cancel_deleted_example : handle_read cancel_timer 15 queue ≡ none
self_cancel_deleted_example =
    self_cancel_deleted 15 (record { at = 10; timer = 0 }) (record { at = 20; timer = 1 } ∷ [])
      queue queue-IsValid refl (omega arith)

duration_from_now_lem_example :
    let d = duration_from_now 2500000000 1000000000 in
    (d.tv_nsec < den)
    × (d.tv_sec < 2 ^ 63)
    × (millisecond ≤ nanoseconds d)
    × (2500000000 ≤ 1000000000 + nanoseconds d)
    × ((1000000000 + nanoseconds d ≡ 2500000000) ⊎ (nanoseconds d ≡ millisecond))
duration_from_now_lem_example = duration_from_now_lem 2500000000 1000000000 (omega arith)

-- Two timers, of which the first is cancelled, and a run of the others.
abbrev ops : List Op
ops = adds 0 10 0 ∷ adds 1 20 5 ∷ cancels 0 ∷ fires 22 ∷ []

abbrev start : Queue
unfolding new
start = (new zeroed 3).0

ops-AllSensible : AllSensible ops start
unfolding step new enable_reading
ops-AllSensible = (refl, (refl, ((new_timer 10 0, refl, refl), (tt, tt))))

run-IsArmed_example :
    (q : Queue) × (run ops start ≡ some q) × IsValid q × InTime q.timers (alarm q.trace)
unfolding new
run-IsArmed_example = run-IsArmed zeroed 3 ops ops-AllSensible

rings_example :
    (q' : Queue) × (handle_read quiet 3000000 queue ≡ some q')
    × (fired q'.trace ≡ 1 ∷ 0 ∷ [])
    × IsValid q'
    × InTime q'.timers (alarm q'.trace)
unfolding fired onto due_at duration_from_now
rings_example =
    rings 5 2000000 3000000 (record { at = 10; timer = 0 }) (record { at = 20; timer = 1 } ∷ [])
      queue queue-IsValid refl (omega arith) (ground arith) (omega arith)

rings_late_example :
    (q1 q2 : Queue) × (handle_read quiet 5 queue ≡ some q1)
    × (q1.timers ≡ both)
    × (fired q1.trace ≡ [])
    × (alarm q1.trace ≡ some 10)
    × (handle_read quiet 3000000 q1 ≡ some q2)
    × (fired q2.trace ≡ 1 ∷ 0 ∷ [])
    × IsValid q2
unfolding fired onto due_at duration_from_now
rings_late_example =
    rings_late 5 2000000 3000000 (record { at = 10; timer = 0 })
      (record { at = 20; timer = 1 } ∷ []) queue queue-IsValid refl (omega arith) (omega arith)
      (ground arith) (omega arith)
