-- ===== src/EventLoop/Steps.antt =====
-- The steps of the loop of twnl/EventLoop.cc and of the threads around it, in any order.
use twnl.Base.{ℕ, suc, ◌≡◌, Bool, true, false, List, [], ◌∷◌, ◌++◌}
use twnl.EventLoop.{
  Loop, Stage, Event, wake_event, other_event, outside, testing, polling, handling, swapping,
  running, wakeup, handle_read, push, queue_in_loop,
}

-- Whether callbacks of the user can run at a stage.
abbrev pub calls_out : Stage → Bool
calls_out (handling es) = true
calls_out (running fs) = true
calls_out _ = false

pub data Step (l : Loop) : Loop → Type 0 where
  enters :
      l.stage ≡ outside
      → l.looping ≡ false
      → Step l (record l { looping = true; quit = false; stage = testing })
  goes_on : l.stage ≡ testing → l.quit ≡ false → Step l (record l { stage = polling })
  leaves :
      l.stage ≡ testing → l.quit ≡ true → Step l (record l { looping = false; stage = outside })
  -- `poll` returns, at the latest after its time-out, with any channels
  polls : (es : List Event) → l.stage ≡ polling → Step l (record l { stage = handling es })
  reads :
      (es : List Event)
      → l.stage ≡ handling (wake_event ∷ es)
      → Step l (handle_read (record l { stage = handling es }))
  handles :
      (es : List Event)
      → l.stage ≡ handling (other_event ∷ es)
      → Step l (record l { stage = handling es })
  calls : l.stage ≡ handling [] → Step l (record l { calling = true; stage = swapping })
  swaps :
      l.stage ≡ swapping → Step l (record l { stage = running l.pending; pending = []; early = [] })
  runs :
      (f : ℕ) (fs : List ℕ)
      → l.stage ≡ running (f ∷ fs)
      → Step l (record l { stage = running fs; ran = l.ran ++ f ∷ [] })
  finishes : l.stage ≡ running [] → Step l (record l { calling = false; stage = testing })
  -- a callback or a functor calls `queueInLoop` or `quit` in the loop's thread
  queues : (f : ℕ) → calls_out l.stage ≡ true → Step l (queue_in_loop true f l)
  quits : calls_out l.stage ≡ true → Step l (record l { quit = true })
  -- the loop's own thread does, before `loop` or after it
  queues_early :
      (f : ℕ)
      → l.stage ≡ outside
      → Step l (record (queue_in_loop true f l) { early = l.early ++ f ∷ [] })
  quits_early : l.stage ≡ outside → Step l (record l { quit = true })
  -- another thread does, and calls `wakeup` in a step of its own
  pushes : (f : ℕ) → Step l (record (push f l) { wakers = suc l.wakers })
  asks : Step l (record l { quit = true; wakers = suc l.wakers })
  wakes : (n : ℕ) → l.wakers ≡ suc n → Step l (record (wakeup l) { wakers = n })

pub data Reaches (s : Loop) : Loop → Type 0 where
  here : Reaches s s
  later : {l l' : Loop} → Reaches s l → Step l l' → Reaches s l'

pub Reaches_trans : {s t u : Loop} → Reaches s t → Reaches t u → Reaches s u
Reaches_trans r here = r
Reaches_trans r (later q st) = later (Reaches_trans r q) st
