-- ===== src/EventLoop/Wakeup.antt =====
-- No wakeup of the loop of twnl/EventLoop.cc is lost.
use twnl.Base.{
  ℕ, some, ◌+◌, ◌<◌, ltb, ◌≡◌, ◌⊎◌, inl, inr, refl, Bool, true, false, not, ◌||◌, [], ◌∷◌, arith,
}
use twnl.EventLoop.{
  Loop, Stage, testing, polling, handling, swapping, running, new, wakeup, handle_read, push,
  queue_in_loop, enter, test, set_quit,
}
use twnl.EventLoop.Steps.{
  Step, enters, goes_on, leaves, polls, reads, handles, calls, swaps, runs, finishes, queues, quits,
  queues_early, quits_early, pushes, asks, wakes, Reaches, here, later,
}

-- The stages in `doPendingFunctors`.
abbrev in_functors : Stage → Bool
in_functors swapping = true
in_functors (running fs) = true
in_functors _ = false

-- The stages that the loop may leave only for another `poll`.
abbrev before_poll : Stage → Bool
before_poll (handling es) = false
before_poll swapping = false
before_poll _ = true

abbrev covered : Loop → Bool
covered l = not (before_poll l.stage) || ltb 0 (l.wakeup_fd + l.wakers)

-- The loop is covered, or all that is pending was queued early.
abbrev Guarded : Loop → Type 0
Guarded l = (covered l ≡ true) ⊎ (l.pending ≡ l.early)

record Awake (l : Loop) : Type 0 where
  flagged : l.calling ≡ in_functors l.stage
  guarded : Guarded l

Step-Awake : {l l' : Loop} → Step l l' → Awake l → Awake l'
unfolding wakeup handle_read push queue_in_loop
Step-Awake (enters s free) a = ground arith
Step-Awake (goes_on s on) a = ground arith
Step-Awake (leaves s off) a = ground arith
Step-Awake (polls es s) a = ground arith
Step-Awake (reads es s) a = ground arith
Step-Awake (handles es s) a = ground arith
Step-Awake (calls s) a = ground arith
Step-Awake (swaps s) a = ground arith
Step-Awake (runs f fs s) a = ground arith
Step-Awake (finishes s) a = ground arith
Step-Awake (queues f s) a = ground arith
Step-Awake (quits s) a = ground arith
Step-Awake (queues_early f s) a = ground arith
Step-Awake (quits_early s) a = ground arith
Step-Awake (pushes f) a = ground arith
Step-Awake asks a = ground arith
Step-Awake (wakes n e) a = ground arith

reached-Awake : {l : Loop} → Reaches new l → Awake l
unfolding new
reached-Awake here = record { flagged = refl; guarded = inr refl }
reached-Awake (later r s) = Step-Awake s (reached-Awake r)

pending-covered :
    (l : Loop)
    → l.stage ≡ polling
    → Guarded l
    → (0 < l.wakeup_fd + l.wakers) ⊎ (l.pending ≡ l.early)
pending-covered l s (inl c) = inl (ground arith)
pending-covered l s (inr e) = inr e

-- In every state that any order of the steps of the loop, of its thread outside of `loop` and of other
-- threads leads to: when the loop waits in `poll`, its wakeup descriptor is readable, or another thread
-- has queued or asked to quit and is about to write to it, or the pending functors (if there are any)
-- are just those that the loop's own thread has queued outside of `loop` since the last exchange.
pub no_lost_wakeup :
    {l : Loop}
    → Reaches new l
    → l.stage ≡ polling
    → (0 < l.wakeup_fd + l.wakers) ⊎ (l.pending ≡ l.early)
no_lost_wakeup {l} r s = pending-covered l s (reached-Awake r).guarded

-- Whatever the loop, if it is not looping: after a `quit` from any thread, `loop` starts all the same,
-- since it resets `quit_`, and goes on to `poll`.
pub quit_before_loop :
    (here_too : Bool) (l : Loop)
    → l.looping ≡ false
    → (l' : Loop) × (enter (set_quit here_too l) ≡ some l')
      × (l'.quit ≡ false)
      × ((test l').stage ≡ polling)
unfolding enter set_quit test wakeup
quit_before_loop true l free =
    (record l { looping = true; quit = false; stage = testing }, rw free refl, refl, refl)
quit_before_loop false l free =
    (record (wakeup l) { looping = true; quit = false; stage = testing }, rw free refl, refl, refl)

-- A functor that `queueInLoop` takes from the loop's own thread before `loop` wakes nobody: with no
-- other thread at work, the loop enters its first `poll` with the functor pending and the wakeup
-- descriptor not readable.
pub queued_before_loop :
    (f : ℕ)
    → (l : Loop) × (enter (queue_in_loop true f new) ≡ some l)
      × ((test l).stage ≡ polling)
      × ((test l).pending ≡ f ∷ [])
      × ((test l).wakeup_fd ≡ 0)
unfolding enter queue_in_loop new test push
queued_before_loop f = (_, refl, refl, refl, refl)
