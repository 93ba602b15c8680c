-- ===== src/EventLoop/Tests.antt =====
-- The loop of twnl/EventLoop.cc on concrete runs.
use twnl.Base.{ℕ, ◌+◌, ◌<◌, ◌≡◌, ◌⊎◌, refl, ap, true, false, none, some, List, [], ◌∷◌, ◌++◌, arith}
use twnl.Channel
use twnl.Channel.{no_events, lt, zeroed, init_default_event}
use twnl.EpollPoller.{EpollPoller, ctl_add}
use twnl.EventLoop.Making.{Parts, epoll, make, make-calls}
use twnl.Logging.{info}
use twnl.Poller.{by_epoll}
use twnl.Sockets.{Log, goes_on}
use twnl.EventLoop.{
  Loop, wake_event, running, outside, polling, new, enter, test, push, round, loop,
}
use twnl.EventLoop.Steps.{Reaches, here, later, enters, goes_on, pushes, quits, calls_out}
use twnl.EventLoop.Order.{quiet, run_in_order, taken}
use twnl.EventLoop.Wakeup.{no_lost_wakeup}
use twnl.EventLoop.Refinement.{loop-Reaches, Calls}
use twnl.EventLoop.Leaving.{loop-returns}
use twnl.TimerQueue.{Queue}

-- The loop waits in `poll`, and another thread has queued functor 7.
abbrev waiting : Loop
waiting = record {
  looping = true;
  quit = false;
  calling = false;
  pending = 7 ∷ [];
  wakeup_fd = 0;
  stage = polling;
  wakers = 1;
  queued = 7 ∷ [];
  ran = [];
  early = [];
}

-- Before `loop`, with functor 9 pending.
abbrev idle : Loop
idle = record {
  looping = false;
  quit = false;
  calling = false;
  pending = 9 ∷ [];
  wakeup_fd = 0;
  stage = outside;
  wakers = 0;
  queued = 9 ∷ [];
  ran = [];
  early = 9 ∷ [];
}

waiting_reached : Reaches new waiting
unfolding new push
waiting_reached = later (later (later here (enters refl refl)) (goes_on refl refl)) (pushes 7)

no_lost_wakeup_example :
    (0 < waiting.wakeup_fd + waiting.wakers) ⊎ (waiting.pending ≡ waiting.early)
no_lost_wakeup_example = no_lost_wakeup waiting_reached refl

run_in_order_example : waiting.ran ++ (taken waiting.stage ++ waiting.pending) ≡ waiting.queued
run_in_order_example = run_in_order waiting_reached

-- Functor 9 calls `quit`.
abbrev nine : ℕ → Loop → Loop
nine f l = record l { quit = true }

nine-Calls : (f : ℕ) (fs : List ℕ) → Calls (nine f) (running fs)
nine-Calls f fs l s = (later here (quits (ap calls_out s)), s)

abbrev ended : Loop
ended = record {
  looping = false;
  quit = true;
  calling = false;
  pending = [];
  wakeup_fd = 0;
  stage = outside;
  wakers = 0;
  queued = 9 ∷ [];
  ran = 9 ∷ [];
  early = [];
}

loop_ended : loop quiet nine ((wake_event ∷ []) ∷ []) idle ≡ some ended
unfolding loop round enter test
loop_ended = refl

loop-Reaches_example : Reaches idle ended × (ended.stage ≡ outside)
loop-Reaches_example =
    loop-Reaches quiet nine (λ es l s. (here, s)) nine-Calls ((wake_event ∷ []) ∷ []) idle ended
      refl loop_ended

loop-returns_example :
    (l' : Loop) × (loop quiet nine ((wake_event ∷ []) ∷ []) idle ≡ some l')
    × (l'.stage ≡ outside)
    × (l'.looping ≡ false)
loop-returns_example =
    loop-returns nine 9 (λ l. refl) (λ f l q. refl) [] [] (wake_event ∷ []) [] idle refl refl

abbrev no_timers : Queue
no_timers = record { timers = []; heap = λ p. none; trace = [] }

abbrev quiet_log : Log
quiet_log = record { level = info; disturb = λ e. e }

abbrev parts : Parts
parts = record { self = 1; timerfd = 4; timer_channel = 10; wakeup_fd = 5; wakeup_channel = 11 }

-- The first loop of a process: the timer's descriptor is watched for nothing.
make-calls_example :
    (p : EpollPoller) × (make quiet_log epoll lt
        (record { defaults = zeroed; loop_in_this_thread = none })
        (λ ptr. Channel.new ptr)
        parts
      ≡ goes_on (
          some (
            record { defaults = init_default_event lt; loop_in_this_thread = some 1 },
            by_epoll p,
          )))
    × (p.calls
        ≡ ctl_add 5 (record no_events { readable = true; urgent = true })
          ∷ ctl_add 4 no_events
          ∷ [])
unfolding init_default_event
make-calls_example = make-calls quiet_log lt zeroed (λ ptr. Channel.new ptr) parts (omega arith)
