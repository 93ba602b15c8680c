-- ===== src/LoopThread.antt =====
-- twnl/EventLoopThread.h and twnl/EventLoopThread.cc: a thread with a loop, and the thread that owns
-- the object. `Step` has the steps of both, in any order; what is done under the lock is one step.
pub mod Handshake
pub mod Lost
mod Tests
use twnl.Base.{ℕ, ◌≡◌, Bool, true, false}

-- Where `threadFunc` stands.
pub data Worker : Type 0 where
  absent : Worker
  -- before the lock, with the callback
  preparing : Worker
  -- `loop_` is set, `loop` not called yet
  announced : Worker
  looping : Worker
  -- `loop` has returned, `loop_` is still set
  leaving : Worker
  -- the loop, which is a local variable, is gone
  ended : Worker

-- Where the owner stands.
pub data Owner : Type 0 where
  idle : Owner
  -- in the `while` of `startLoop`, and behind it
  waiting woken : Owner
  -- `startLoop` has returned, with a loop or with a null pointer
  returned : Bool → Owner
  -- in the destructor: before `quit`, in `join`, and behind it
  quitting joining joined : Owner

pub record System : Type 0 where
  pub worker : Worker
  pub owner : Owner
  -- whether `loop_` is set
  pub loop : Bool
  -- `quit_` of the loop
  pub quit : Bool
  -- whether the owner has called `quit` on a loop that is gone
  pub dangling : Bool

abbrev pub start : System
start = record { worker = absent; owner = idle; loop = false; quit = false; dangling = false }

-- `own`: whether what runs in the loop may call its `quit`.
pub data Step (own : Bool) (s : System) : System → Type 0 where
  -- `startLoop` makes the thread
  spawns : s.owner ≡ idle → Step own s (record s { owner = waiting; worker = preparing })
  announces : s.worker ≡ preparing → Step own s (record s { worker = announced; loop = true })
  -- `EventLoop::loop` resets `quit_`
  enters : s.worker ≡ announced → Step own s (record s { worker = looping; quit = false })
  quits_itself : own ≡ true → s.worker ≡ looping → Step own s (record s { quit = true })
  leaves : s.worker ≡ looping → s.quit ≡ true → Step own s (record s { worker = leaving })
  clears : s.worker ≡ leaving → Step own s (record s { worker = ended; loop = false })
  wakes : s.owner ≡ waiting → s.loop ≡ true → Step own s (record s { owner = woken })
  -- `return loop_` is outside the lock
  returns : s.owner ≡ woken → Step own s (record s { owner = returned s.loop })
  -- the destructor: its test, `quit`, and `join`
  finds_loop :
      (b : Bool) → s.owner ≡ returned b → s.loop ≡ true → Step own s (record s { owner = quitting })
  finds_none :
      (b : Bool) → s.owner ≡ returned b → s.loop ≡ false → Step own s (record s { owner = joining })
  quits :
      s.owner ≡ quitting
      → (s.worker ≡ ended → ⊥)
      → Step own s (record s { owner = joining; quit = true })
  quits_gone :
      s.owner ≡ quitting
      → s.worker ≡ ended
      → Step own s (record s { owner = joining; dangling = true })
  joins : s.owner ≡ joining → s.worker ≡ ended → Step own s (record s { owner = joined })

pub data Reaches (own : Bool) : System → Type 0 where
  here : Reaches own start
  later : {s t : System} → Reaches own s → Step own s t → Reaches own t
