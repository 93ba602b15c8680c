-- ===== src/TimerQueue.antt =====
-- twnl/TimerQueue.h, twnl/TimerQueue.cc and twnl/Timer.h: the timers of a loop.
-- Timers are named by pointers into a store, times are nanoseconds of the system clock. `none` is a
-- failed assertion, or the use of a deleted timer. What is shown here runs in the loop's thread.
pub mod Order
pub mod Adding
pub mod Firing
pub mod Timerfd
pub mod Canceling
pub mod Alarm
mod Tests
use twnl.Base.{
  ℕ, zero, suc, ◌+◌, ◌==◌, ltb, leb, if◌then◌else◌, Bool, true, false, not, ◌&&◌, ◌||◌, Option,
  none, some, List, [], ◌∷◌, take, drop, put, check, ◌>>=◌, ◌>>◌,
}

-- The callback is not part of the record: `handle_read` takes what the callbacks do.
pub record Timer : Type 0 where
  pub when : ℕ
  pub interval : ℕ
  pub repeat : Bool
  pub canceled : Bool

abbrev pub new_timer : ℕ → ℕ → Timer
new_timer when interval = record {
  when = when;
  interval = interval;
  repeat = ltb 0 interval;
  canceled = false;
}

abbrev pub expired : ℕ → Timer → Bool
expired now t = leb t.when now

abbrev pub restart_timer : Timer → Option Timer
restart_timer t = check t.repeat >> some (record t { when = t.when + t.interval })

abbrev pub cancel : Timer → Option Timer
cancel t = check (not t.canceled) >> some (record t { canceled = true })

pub record Entry : Type 0 where
  pub at : ℕ
  pub timer : ℕ

-- The order of `std::pair`.
abbrev pub before : Entry → Entry → Bool
before x y = ltb x.at y.at || ((x.at == y.at) && ltb x.timer y.timer)

-- `std::set::insert`: the set, and whether the entry is new.
unfoldable pub insert : Entry → List Entry → List Entry × Bool
insert e [] = (e ∷ [], true)
insert e (x ∷ xs) =
    let (rest, is_new) = insert e xs in
    if before e x
    then (e ∷ x ∷ xs, true)
    else (if before x e then (x ∷ rest, is_new) else (x ∷ xs, false))

unfoldable pub erase : Entry → List Entry → List Entry
erase e [] = []
erase e (x ∷ xs) =
    let rest = erase e xs in if before e x then x ∷ xs else (if before x e then x ∷ rest else xs)

-- The place of the first entry that is not before `e`.
unfoldable pub lower_bound : Entry → List Entry → ℕ
lower_bound e [] = 0
lower_bound e (x ∷ xs) = let rest = lower_bound e xs in if before x e then suc rest else 0

pub data Effect : Type 0 where
  -- `timerfdSet` with the time, `timerfdRead`, and a callback that has run
  armed ran : ℕ → Effect
  drained : Effect

pub record Queue : Type 0 where
  pub timers : List Entry
  -- `none` for what is not allocated
  pub heap : ℕ → Option Timer
  pub trace : List Effect

abbrev pub log : Effect → Queue → Queue
log e q = record q { trace = e ∷ q.trace }

-- Whether `e` is the first of the set.
abbrev pub is_first : Entry → List Entry → Bool
is_first e [] = false
is_first e (x ∷ xs) = (e.at == x.at) && (e.timer == x.timer)

-- The functor of `addTimer` with the timer that it has allocated at `ptr`.
unfoldable pub add_timer : ℕ → ℕ → ℕ → Queue → Option Queue
unfolding insert
add_timer ptr when interval q = do
  let e : Entry = record { at = when; timer = ptr }
  let (timers, is_new) = insert e q.timers
  check is_new
  let q1 : Queue = record q {
    timers = timers;
    heap = put q.heap ptr (some (new_timer when interval));
  }
  some (if is_first e timers then log (armed when) q1 else q1)

-- The functor of `cancelTimer`.
unfoldable pub cancel_timer : ℕ → Queue → Option Queue
unfolding erase
cancel_timer ptr q = do
  t ← q.heap ptr
  t1 ← cancel t
  some (record q {
    timers = erase (record { at = t1.when; timer = ptr }) q.timers;
    heap = put q.heap ptr none;
  })

-- The entries that are due, and the rest.
unfoldable pub get_expired : ℕ → List Entry → List Entry × List Entry
unfolding lower_bound
get_expired now timers =
    let end = lower_bound (record { at = now + 1; timer = 0 }) timers in
    (take end timers, drop end timers)

-- What follows the callback of the entry `e`.
unfoldable pub after_run : Entry → Queue → Option Queue
unfolding insert
after_run e q = q.heap e.timer >>= λ t.
    if not t.canceled && t.repeat
    then (restart_timer t >>= λ t1. some (record q {
      timers = (insert (record e { at = t1.when }) q.timers).0;
      heap = put q.heap e.timer (some t1);
    }))
    else some (record q { heap = put q.heap e.timer none })

-- The loop of `handleRead`; `run` is what the callback of a timer does to the queue.
unfoldable pub run_expired : (ℕ → Queue → Option Queue) → ℕ → List Entry → Queue → Option Queue
unfolding after_run
run_expired run now [] q = some q
run_expired run now (e ∷ es) q = do
  t ← q.heap e.timer
  check (expired now t)
  q1 ← if not t.canceled then run e.timer (log (ran e.timer) q) else some q
  q2 ← after_run e q1
  run_expired run now es q2

abbrev pub arm_at : List Entry → Queue → Queue
arm_at [] q = q
arm_at (e ∷ es) q = log (armed e.at) q

abbrev pub arm_first : Queue → Queue
arm_first q = arm_at q.timers q

unfoldable pub handle_read : (ℕ → Queue → Option Queue) → ℕ → Queue → Option Queue
unfolding run_expired get_expired
handle_read run now q = do
  let (due, rest) = get_expired now q.timers
  q1 ← run_expired run now due (record (log drained q) { timers = rest })
  some (arm_first q1)
