-- ===== src/TimerQueue/Timerfd.antt =====
-- The descriptor behind the timers of twnl/TimerQueue.cc, and twnl/Timestamp.h.
-- There are two clocks. Times are readings of the system clock, in nanoseconds: naturals, where the source
-- has signed 64-bit counters, whose overflow is not modelled. The descriptor counts on CLOCK_MONOTONIC,
-- down from the duration that it is set to.
use twnl.Base.{
  ℕ, ◌+◌, ◌-◌, ◌*◌, ◌/◌, ◌%◌, ◌^◌, ◌≤◌, ◌<◌, ◌≡◌, ◌⊎◌, refl, arith, leb, ltb, if◌then◌else◌, ℤ, pos,
  negsuc, Option, none, some, List, [], ◌∷◌, put, put_self,
}
use twnl.Channel
use twnl.Channel.{Defaults, Channel, enable_reading}
use twnl.Sockets.{Call, goes_on, Log, fatal_or, Answer, gave, failed}
use twnl.TimerQueue.{Entry, Timer, Queue}
use twnl.TimerQueue.Order.{All}

abbrev pub millisecond : ℕ
millisecond = 10 ^ 6

-- `std::nano::den`
abbrev pub den : ℕ
den = 10 ^ 9

-- The difference of two times.
abbrev pub minus : ℕ → ℕ → ℤ
minus when now = if leb now when then pos (when - now) else negsuc (now - when - 1)

-- `if (ns < 1ms) ns = 1ms`
abbrev pub at_least_ms : ℤ → ℕ
at_least_ms (pos ns) = if ltb ns millisecond then millisecond else ns
at_least_ms (negsuc ns) = millisecond

pub record TimeSpec : Type 0 where
  pub tv_sec : ℕ
  pub tv_nsec : ℕ

-- `durationFromNow`, with the time that the system clock's `clock::now` gives. The result is how long the
-- monotonic clock is to run.
unfoldable pub duration_from_now : ℕ → ℕ → TimeSpec
duration_from_now when now =
    let ns = at_least_ms (minus when now) in record { tv_sec = ns / den; tv_nsec = ns % den }

-- `nowAfter` and `nowBefore`
abbrev pub now_after : ℕ → ℕ → ℕ
now_after now interval = now + interval

abbrev pub now_before : ℕ → ℕ → ℤ
now_before now interval = minus now interval

-- `timerfdCreate`, with the answer of `timerfd_create`.
unfoldable pub timerfd_create : Log → Answer → Call Answer
timerfd_create lg (gave fd) = goes_on (gave fd)
timerfd_create lg (failed e) = fatal_or lg (failed e)

-- `timerfdSet`, with the answer of `timerfd_settime`: what the descriptor is then set to, if it is.
unfoldable pub timerfd_set : Log → Answer → ℕ → ℕ → Call (Option TimeSpec)
unfolding duration_from_now
timerfd_set lg (gave n) when now = goes_on (some (duration_from_now when now))
timerfd_set lg (failed e) when now = fatal_or lg none

-- The constructor for a descriptor: the queue, and its channel.
unfoldable pub new : Defaults → ℕ → Queue × Channel
unfolding enable_reading
new d timerfd =
    (record { timers = []; heap = λ ptr. none; trace = [] }, enable_reading d (Channel.new timerfd))

unfoldable pub delete_all : List Entry → (ℕ → Option Timer) → ℕ → Option Timer
delete_all [] heap = heap
delete_all (e ∷ es) heap = delete_all es (put heap e.timer none)

-- The destructor, up to the closing of the descriptor.
unfoldable pub destroy : Queue → Queue
unfolding delete_all
destroy q = record q { heap = delete_all q.timers q.heap }

abbrev pub nanoseconds : TimeSpec → ℕ
nanoseconds t = t.tv_sec * den + t.tv_nsec

-- For times below 2^63: the value that `durationFromNow` makes is one that `timerfd_settime` takes, never
-- the one that disarms, and at least a millisecond; it runs out exactly at `when`, or a millisecond from
-- now if that is later.
pub duration_from_now_lem :
    (when now : ℕ)
    → when < 2 ^ 63
    → let d = duration_from_now when now in
      (d.tv_nsec < den)
      × (d.tv_sec < 2 ^ 63)
      × (millisecond ≤ nanoseconds d)
      × (when ≤ now + nanoseconds d)
      × ((now + nanoseconds d ≡ when) ⊎ (nanoseconds d ≡ millisecond))
unfolding duration_from_now
duration_from_now_lem when now h = ground arith

delete_all-none :
    (es : List Entry) (heap : ℕ → Option Timer) (ptr : ℕ)
    → heap ptr ≡ none
    → delete_all es heap ptr ≡ none
unfolding delete_all
delete_all-none [] heap ptr h = h
delete_all-none (e ∷ es) heap ptr h =
    delete_all-none es (put heap e.timer none) ptr (ground (arith, h))

delete_all-deleted :
    (es : List Entry) (heap : ℕ → Option Timer) → All (λ e. delete_all es heap e.timer ≡ none) es
unfolding delete_all All
delete_all-deleted [] heap = tt
delete_all-deleted (e ∷ es) heap = (
  delete_all-none es (put heap e.timer none) e.timer (put_self heap e.timer e.timer none refl),
  delete_all-deleted es (put heap e.timer none),
)

-- The destructor deletes the timer of every entry of the set.
pub destroy-deleted : (q : Queue) → All (λ e. (destroy q).heap e.timer ≡ none) q.timers
unfolding destroy
destroy-deleted q = delete_all-deleted q.timers q.heap
