-- ===== src/EventLoop/Timers.antt =====
-- `runAt`, `runAfter`, `runEvery` and `cancelTimer` of twnl/EventLoop.cc, called in the loop's thread.
use twnl.Base.{
  ℕ, ◌+◌, ◌≡◌, refl, ap, ◌∙◌, true, Option, none, some, arith, put, put_self, List, [], ◌∷◌,
}
use twnl.TimerQueue.{Queue, Timer, Entry, add_timer, insert, erase}
use twnl.TimerQueue.Adding.{IsValid, add_timer-IsValid}
use twnl.TimerQueue

-- `ptr` is where the timer is allocated, `now` the clock's time.
unfoldable pub run_at : ℕ → ℕ → Queue → Option Queue
unfolding add_timer
run_at ptr when q = add_timer ptr when 0 q

unfoldable pub run_after : ℕ → ℕ → ℕ → Queue → Option Queue
unfolding run_at
run_after ptr now interval q = run_at ptr (now + interval) q

unfoldable pub run_every : ℕ → ℕ → ℕ → Queue → Option Queue
unfolding add_timer
run_every ptr now interval q = add_timer ptr (now + interval) interval q

unfoldable pub cancel_timer : ℕ → Queue → Option Queue
unfolding TimerQueue.cancel_timer
cancel_timer timer q = TimerQueue.cancel_timer timer q

erase-insert : (e : Entry) (xs : List Entry) → (insert e xs).1 ≡ true → erase e (insert e xs).0 ≡ xs
unfolding insert erase
erase-insert e [] n = ground arith
erase-insert e (x ∷ xs) n = ground (arith, erase-insert e xs)

-- What a timer that is added and canceled leaves.
abbrev pub Undone : (Queue → Option Queue) → ℕ → Queue → Type 0
Undone add ptr q =
    (q1 : Queue) × (q2 : Queue) × (add q ≡ some q1)
    × (cancel_timer ptr q1 ≡ some q2)
    × IsValid q1
    × (q2.timers ≡ q.timers)
    × (q2.heap ptr ≡ none)

add_timer-cancel :
    (ptr when interval : ℕ) (q : Queue)
    → IsValid q
    → q.heap ptr ≡ none
    → Undone (add_timer ptr when interval) ptr q
unfolding cancel_timer TimerQueue.cancel_timer add_timer
add_timer-cancel ptr when interval q v free =
    let (q1, added, live, timers, valid) = add_timer-IsValid ptr when interval q v free in
    let e : Entry = record { at = when; timer = ptr } in
    (
      q1,
      record q1 { timers = erase e q1.timers; heap = put q1.heap ptr none },
      added,
      rw live refl,
      valid,
      ap (erase e) timers ∙ erase-insert e q.timers (is_new ptr when interval q q1 added),
      put_self q1.heap ptr ptr none refl,
    )
  where
    is_new :
        (ptr when interval : ℕ) (q q1 : Queue)
        → add_timer ptr when interval q ≡ some q1
        → (insert (record { at = when; timer = ptr }) q.timers).1 ≡ true
    is_new ptr when interval q q1 added = ground (arith, added)

-- In a valid queue, with a pointer that is not allocated: each of `runAt`, `runAfter` and `runEvery`
-- succeeds and keeps the queue valid, and `cancelTimer` on the timer then succeeds, gives back the set
-- of timers as it was, and leaves the timer deleted.
pub run-cancel_timer :
    (ptr now time : ℕ) (q : Queue)
    → IsValid q
    → q.heap ptr ≡ none
    → Undone (run_at ptr time) ptr q
      × Undone (run_after ptr now time) ptr q
      × Undone (run_every ptr now time) ptr q
unfolding run_at run_after run_every
run-cancel_timer ptr now time q v free = (
  add_timer-cancel ptr time 0 q v free,
  add_timer-cancel ptr (now + time) 0 q v free,
  add_timer-cancel ptr (now + time) time q v free,
)
