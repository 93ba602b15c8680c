-- ===== src/TimerQueue/Alarm.antt =====
-- The timerfd of twnl/TimerQueue.cc is set for a time that is early enough, whatever is done to the
-- timers.
use twnl.Base.{
  ℕ, ◌+◌, ◌≤◌, ◌<◌, ◌^◌, ◌≡◌, refl, sym, ap, ◌∙◌, subst, false, Option, none, some, List, [], ◌∷◌,
  arith, if◌then◌else◌, ◌>>=◌, returned, Ensures-bind, Ensures-some,
}
use twnl.Channel.{Defaults}
use twnl.TimerQueue.{
  Entry, Timer, Queue, Effect, armed, ran, drained, before, insert, erase, is_first, add_timer,
  cancel_timer, handle_read, run_expired, log, arm_at, arm_first, get_expired, lower_bound,
}
use twnl.TimerQueue.Adding.{IsValid, add_timer-IsValid}
use twnl.TimerQueue.Canceling.{cancel_timer-IsValid}
use twnl.TimerQueue.Firing.{quiet, fired, onto, handle_read-IsValid}
use twnl.TimerQueue.Order.{All, Sorted, due_at}
use twnl.TimerQueue.Timerfd.{new, duration_from_now, duration_from_now_lem, nanoseconds}

-- The time for which the timerfd is set, if it has not run out since.
abbrev pub alarm : List Effect → Option ℕ
alarm [] = none
alarm (armed t ∷ es) = some t
alarm (ran ptr ∷ es) = alarm es
alarm (drained ∷ es) = none

-- If an entry waits, the timerfd is set, and not for later than the first entry.
abbrev pub InTime : List Entry → Option ℕ → Type 0
InTime [] a = Unit {0}
InTime (e ∷ es) none = ⊥
InTime (e ∷ es) (some t) = t ≤ e.at

-- What the functors of the loop and the timerfd do to the timers; callbacks leave them alone.
pub data Op : Type 0 where
  adds : ℕ → ℕ → ℕ → Op
  cancels : ℕ → Op
  fires : ℕ → Op

unfoldable pub step : Op → Queue → Option Queue
unfolding add_timer cancel_timer handle_read
step (adds ptr when interval) q = add_timer ptr when interval q
step (cancels ptr) q = cancel_timer ptr q
step (fires now) q = handle_read quiet now q

unfoldable pub run : List Op → Queue → Option Queue
unfolding step
run [] q = some q
run (op ∷ ops) q = do q' ← step op q; run ops q'

-- A new timer is allocated where none lives; what is cancelled lives and was not cancelled before.
abbrev pub Sensible : Op → Queue → Type 0
Sensible (adds ptr when interval) q = q.heap ptr ≡ none
Sensible (cancels ptr) q = (t : Timer) × (q.heap ptr ≡ some t) × (t.canceled ≡ false)
Sensible (fires now) q = Unit {0}

-- Of the result, if there is one.
abbrev pub After : (Queue → Type 0) → Option Queue → Type 0
After P none = Unit {0}
After P (some q) = P q

abbrev pub AllSensible : List Op → Queue → Type 0
AllSensible [] q = Unit {0}
AllSensible (op ∷ ops) q = Sensible op q × After (AllSensible ops) (step op q)

insert-InTime :
    (e : Entry) (xs : List Entry) (a : Option ℕ)
    → InTime xs a
    → InTime (insert e xs).0 (if is_first e (insert e xs).0 then some e.at else a)
unfolding insert
insert-InTime e [] a h = ground arith
insert-InTime e (x ∷ xs) none h = absurd h
insert-InTime e (x ∷ xs) (some t) h = ground (arith, h)

erase-InTime :
    (e : Entry) (xs : List Entry) (a : Option ℕ) → Sorted xs → InTime xs a → InTime (erase e xs) a
unfolding Sorted All erase
erase-InTime e [] a s h = tt
erase-InTime e (x ∷ xs) none s h = absurd h
erase-InTime e (x ∷ []) (some t) s h = ground (arith, h)
erase-InTime e (x ∷ y ∷ xs) (some t) ((b, _), _) h = ground (arith, h, b)

-- The queue is valid and its timerfd is set in time.
pub record IsArmed (q : Queue) : Type 0 where
  pub valid : IsValid q
  pub in_time : InTime q.timers (alarm q.trace)

add_timer-alarm :
    (ptr when interval : ℕ) (q q' : Queue)
    → let e : Entry = record { at = when; timer = ptr } in
      add_timer ptr when interval q ≡ some q'
      → alarm q'.trace ≡ (if is_first e (insert e q.timers).0 then some when else alarm q.trace)
unfolding add_timer
add_timer-alarm ptr when interval q q' added = ground (arith, added)

cancel_timer-alarm :
    (ptr : ℕ) (q q' : Queue) → cancel_timer ptr q ≡ some q' → alarm q'.trace ≡ alarm q.trace
unfolding cancel_timer
cancel_timer-alarm ptr q q' canceled = ground (arith, canceled)

arm_at-InTime : (xs : List Entry) (q : Queue) → InTime xs (alarm (arm_at xs q).trace)
arm_at-InTime [] q = tt
arm_at-InTime (e ∷ es) q = omega arith

arm_at-timers : (xs : List Entry) (q : Queue) → (arm_at xs q).timers ≡ q.timers
arm_at-timers [] q = refl
arm_at-timers (e ∷ es) q = refl

abbrev SetInTime : Queue → Type 0
SetInTime q = InTime q.timers (alarm q.trace)

arm_first-InTime : (q : Queue) → SetInTime (arm_first q)
arm_first-InTime q =
    subst (λ xs. InTime xs (alarm (arm_first q).trace)) (sym (arm_at-timers q.timers q))
      (arm_at-InTime q.timers q)

-- Whatever the callbacks do, `handleRead` sets the timerfd for the first entry that it leaves.
pub handle_read-InTime :
    (callback : ℕ → Queue → Option Queue) (now : ℕ) (q q' : Queue)
    → handle_read callback now q ≡ some q'
    → InTime q'.timers (alarm q'.trace)
unfolding handle_read
handle_read-InTime callback now q q' e =
    Ensures-some SetInTime
      (Ensures-bind SetInTime
        (run_expired callback now (get_expired now q.timers).0
          (record (log drained q) { timers = (get_expired now q.timers).1 }))
        _ λ q1. returned (arm_first-InTime q1))
      e

step-IsArmed :
    (op : Op) (q : Queue)
    → IsArmed q
    → Sensible op q
    → (q' : Queue) × (step op q ≡ some q') × IsArmed q'
unfolding step
step-IsArmed (adds ptr when interval) q r free =
    let (q', added, _, timers, valid) = add_timer-IsValid ptr when interval q r.valid free in
    let e : Entry = record { at = when; timer = ptr } in
    (
      q',
      added,
      record {
        valid = valid;
        in_time =
            subst (λ xs. InTime xs (alarm q'.trace)) (sym timers)
              (subst (InTime (insert e q.timers).0)
                (sym (add_timer-alarm ptr when interval q q' added))
                (insert-InTime e q.timers (alarm q.trace) r.in_time));
      },
    )
step-IsArmed (cancels ptr) q r (t, live, c) =
    let (q', canceled, timers, _, _, valid) = cancel_timer-IsValid ptr t q r.valid live c in
    let e : Entry = record { at = t.when; timer = ptr } in
    (
      q',
      canceled,
      record {
        valid = valid;
        in_time =
            subst (λ xs. InTime xs (alarm q'.trace)) (sym timers)
              (subst (InTime (erase e q.timers)) (sym (cancel_timer-alarm ptr q q' canceled))
                (erase-InTime e q.timers (alarm q.trace) r.valid.sorted r.in_time));
      },
    )
step-IsArmed (fires now) q r sensible =
    let (q', fired_now, _, valid) = handle_read-IsValid now q r.valid in
    (q', fired_now, record { valid = valid; in_time = handle_read-InTime quiet now q q' fired_now })

run-from :
    (ops : List Op) (q : Queue)
    → IsArmed q
    → AllSensible ops q
    → (q' : Queue) × (run ops q ≡ some q') × IsArmed q'
unfolding run
run-from [] q r s = (q, refl, r)
run-from (op ∷ ops) q r (sensible, s) =
    let (q1, e1, r1) = step-IsArmed op q r sensible in
    let (q2, e2, r2) = run-from ops q1 r1 (subst (After (AllSensible ops)) e1 s) in
    (q2, rw e1 e2, r2)

-- From the constructor on, in any order of new timers, cancellations of live timers and runs of
-- `handleRead` at any times, with callbacks that leave the queue alone: no assertion fails and no
-- deleted timer is used, and at the end the queue is valid, and if an entry waits then the timerfd is
-- set for a time that is not later than that of the first entry.
pub run-IsArmed :
    (d : Defaults) (timerfd : ℕ) (ops : List Op)
    → AllSensible ops (new d timerfd).0
    → (q : Queue) × (run ops (new d timerfd).0 ≡ some q)
      × IsValid q
      × InTime q.timers (alarm q.trace)
unfolding new Sorted All
run-IsArmed d timerfd ops s =
    let (q, e, r) =
      run-from ops (new d timerfd).0
        (record { valid = record { sorted = tt; kept = tt }; in_time = tt }) s in
    (q, e, r.valid, r.in_time)

-- In a set whose first entry's time has come, it is the first of those that are due.
first_due :
    (now : ℕ) (e : Entry) (es : List Entry) → e.at ≤ now → due_at now (e ∷ es) ≡ e ∷ due_at now es
unfolding due_at
first_due now e es h = ground (arith, h)

-- A valid queue whose first entry waits for a time below 2^63, callbacks that leave the queue alone, and
-- the timerfd that `timerfdSet` sets for that time when the system clock reads `now`. When the timerfd
-- has run out, which takes `elapsed` nanoseconds of the monotonic clock, and the system clock has gone on
-- by no less than that to `later`: `handleRead` runs the callback of that entry, before those of the
-- others that are due by then, and leaves a valid queue whose timerfd is set in time.
pub rings :
    (now elapsed later : ℕ) (e : Entry) (es : List Entry) (q : Queue)
    → IsValid q
    → q.timers ≡ e ∷ es
    → e.at < 2 ^ 63
    → nanoseconds (duration_from_now e.at now) ≤ elapsed
    → now + elapsed ≤ later
    → (q' : Queue) × (handle_read quiet later q ≡ some q')
      × (fired q'.trace ≡ onto (e ∷ due_at later es) (fired q.trace))
      × IsValid q'
      × InTime q'.timers (alarm q'.trace)
rings now elapsed later e es q v first small out steady =
    let due = (duration_from_now_lem e.at now small).3 in
    let (q', done, ordered, v') = handle_read-IsValid later q v in
    (
      q',
      done,
      ordered
          ∙ ap (λ xs. onto (due_at later xs) (fired q.trace)) first
          ∙ ap (λ xs. onto xs (fired q.trace))
              (first_due later e es (omega (arith, due, out, steady))),
      v',
      handle_read-InTime quiet later q q' done,
    )

-- What `handleRead` makes of a queue whose first entry is not due.
abbrev set_again : Entry → Queue → Queue
set_again e q = log (armed e.at) (log drained q)

none_due :
    (callback : ℕ → Queue → Option Queue) (now : ℕ) (e : Entry) (es : List Entry) (q : Queue)
    → q.timers ≡ e ∷ es
    → now < e.at
    → handle_read callback now q ≡ some (set_again e q)
unfolding handle_read get_expired lower_bound run_expired
none_due callback now e es q first early =
    let not_due : before e (record { at = now + 1; timer = 0 }) ≡ false = ground (arith, early) in
    rw (first, not_due) refl

-- A valid queue whose first entry waits for a time below 2^63, with callbacks that leave the queue alone,
-- where the timerfd runs out although the system clock, having been set back, still reads an earlier
-- time, `back`: `handleRead` runs no callback, leaves the timers as they are and sets the timerfd for
-- that entry again. When it has run out once more, after `elapsed` nanoseconds, and the system clock has
-- gone on by no less than that to `later`, `handleRead` runs the callback of that entry, before those of
-- the others that are due by then, and leaves a valid queue.
pub rings_late :
    (back elapsed later : ℕ) (e : Entry) (es : List Entry) (q : Queue)
    → IsValid q
    → q.timers ≡ e ∷ es
    → e.at < 2 ^ 63
    → back < e.at
    → nanoseconds (duration_from_now e.at back) ≤ elapsed
    → back + elapsed ≤ later
    → (q1 q2 : Queue) × (handle_read quiet back q ≡ some q1)
      × (q1.timers ≡ q.timers)
      × (fired q1.trace ≡ fired q.trace)
      × (alarm q1.trace ≡ some e.at)
      × (handle_read quiet later q1 ≡ some q2)
      × (fired q2.trace ≡ onto (e ∷ due_at later es) (fired q.trace))
      × IsValid q2
unfolding fired
rings_late back elapsed later e es q v first small early out steady =
    let v1 : IsValid (set_again e q) = record { sorted = v.sorted; kept = v.kept } in
    let (q2, done, ordered, v2, _) =
      rings back elapsed later e es (set_again e q) v1 first small out steady in
    (set_again e q, q2, none_due quiet back e es q first early, refl, refl, refl, done, ordered, v2)
