-- ===== src/EventLoop.antt =====
-- twnl/EventLoop.h and twnl/EventLoop.cc: the loop of a thread, and the functors that are queued for it.
-- A functor is a number. The functions are the code of one thread; `Step` has the steps between
-- which other threads may come. `queued`, `ran` and `early` are not in the source: they record the
-- order in which functors were queued and run, and which of them were queued outside of `loop`.
pub mod Steps
pub mod Wakeup
pub mod Order
pub mod Refinement
pub mod Leaving
pub mod Timers
pub mod Making
mod Tests
use twnl.Base.{
  ℕ, zero, suc, ◌+◌, ◌<◌, ◌≡◌, if◌then◌else◌, Bool, true, false, not, Option, none, some, List, [],
  ◌∷◌, ◌++◌, check, ◌>>=◌, ◌>>◌, ltb,
}

-- An active channel: the wakeup channel, or any other.
pub data Event : Type 0 where
  wake_event other_event : Event

-- Where the loop's thread stands.
pub data Stage : Type 0 where
  -- not in `loop`
  outside : Stage
  -- at the test of `while`
  testing : Stage
  -- in `poll`
  polling : Stage
  -- with the active channels that are left
  handling : List Event → Stage
  -- in `doPendingFunctors`, before the exchange
  swapping : Stage
  -- after it, with the functors that are left
  running : List ℕ → Stage

pub record Loop : Type 0 where
  pub looping : Bool
  pub quit : Bool
  pub calling : Bool
  pub pending : List ℕ
  -- the counter of `wakeupFd_`
  pub wakeup_fd : ℕ
  pub stage : Stage
  -- other threads that have queued a functor or set `quit_`, and have not called `wakeup` yet
  pub wakers : ℕ
  pub queued : List ℕ
  pub ran : List ℕ
  -- functors that the loop's own thread has queued outside of `loop`, since the last exchange
  pub early : List ℕ

unfoldable pub new : Loop
new = record {
  looping = false;
  quit = false;
  calling = false;
  pending = [];
  wakeup_fd = 0;
  stage = outside;
  wakers = 0;
  queued = [];
  ran = [];
  early = [];
}

unfoldable pub wakeup : Loop → Loop
wakeup l = record l { wakeup_fd = l.wakeup_fd + 1 }

-- `read` of the counter sets it to 0.
unfoldable pub handle_read : Loop → Loop
handle_read l = record l { wakeup_fd = 0 }

unfoldable pub push : ℕ → Loop → Loop
push f l = record l { pending = l.pending ++ f ∷ []; queued = l.queued ++ f ∷ [] }

-- `here`: the caller runs in the loop's thread.
unfoldable pub queue_in_loop : Bool → ℕ → Loop → Loop
unfolding push wakeup
queue_in_loop here f l =
    let l1 = push f l in if here then (if l1.calling then wakeup l1 else l1) else wakeup l1

-- `body` is what a functor does.
unfoldable pub run_in_loop : (ℕ → Loop → Loop) → Bool → ℕ → Loop → Loop
unfolding queue_in_loop
run_in_loop body here f l = if here then body f l else queue_in_loop false f l

unfoldable pub set_quit : Bool → Loop → Loop
unfolding wakeup
set_quit here l = let l1 = record l { quit = true } in if here then l1 else wakeup l1

-- The exchange in `doPendingFunctors`, under the lock.
unfoldable pub swap_pending : Loop → Loop
swap_pending l = record l { stage = running l.pending; pending = []; early = [] }

unfoldable pub run_functors : (ℕ → Loop → Loop) → List ℕ → Loop → Loop
run_functors body [] l = record l { stage = running [] }
run_functors body (f ∷ fs) l =
    run_functors body fs (body f (record l { stage = running fs; ran = l.ran ++ f ∷ [] }))

unfoldable pub do_pending_functors : (ℕ → Loop → Loop) → Loop → Loop
unfolding swap_pending run_functors
do_pending_functors body l =
    let l1 = swap_pending (record l { calling = true; stage = swapping }) in
    record (run_functors body l.pending l1) { calling = false; stage = testing }

-- `on_event` is what the callbacks of another channel do.
unfoldable pub handle_events : (Loop → Loop) → List Event → Loop → Loop
unfolding handle_read
handle_events on_event [] l = record l { stage = handling [] }
handle_events on_event (wake_event ∷ es) l =
    handle_events on_event es (handle_read (record l { stage = handling es }))
handle_events on_event (other_event ∷ es) l =
    handle_events on_event es (on_event (record l { stage = handling es }))

-- One round of the loop, with the channels that `poll` has found active.
unfoldable pub round : (Loop → Loop) → (ℕ → Loop → Loop) → List Event → Loop → Loop
unfolding handle_events do_pending_functors
round on_event body active l =
    do_pending_functors body (handle_events on_event active (record l { stage = handling active }))

unfoldable pub enter : Loop → Option Loop
enter l = do
  check (not l.looping)
  some (record l { looping = true; quit = false; stage = testing })

unfoldable pub leave : Loop → Loop
leave l = record l { looping = false; stage = outside }

-- The test of `while`.
unfoldable pub test : Loop → Loop
unfolding leave
test l = if l.quit then leave l else record l { stage = polling }

-- `loop`, with what each call of `poll` finds; it returns when `quit_` is set, and `none` stands for
-- a loop that still waits in `poll`.
unfoldable pub loop_rounds :
    (Loop → Loop) → (ℕ → Loop → Loop) → List (List Event) → Loop → Option Loop
unfolding test round leave
loop_rounds on_event body [] l = if l.quit then some (leave l) else none
loop_rounds on_event body (active ∷ polls) l =
    let rest = loop_rounds on_event body polls (round on_event body active (test l)) in
    if l.quit then some (leave l) else rest

unfoldable pub loop : (Loop → Loop) → (ℕ → Loop → Loop) → List (List Event) → Loop → Option Loop
unfolding enter loop_rounds
loop on_event body polls l = enter l >>= loop_rounds on_event body polls
