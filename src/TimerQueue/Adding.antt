-- ===== src/TimerQueue/Adding.antt =====
-- The store and the set of twnl/TimerQueue.cc agree; what a new timer and a cancellation do to them.
use twnl.Base.{
  ℕ, ◌+◌, ◌≤◌, ◌==◌, ◌≡◌, ◌≢◌, refl, sym, ap, ◌∙◌, subst, inl, inr, leb, true, false, Option, none,
  some, List, ◌∷◌, arith, take, drop, put, put_self, put_other, Bool-cases, ◌>>=◌,
}
use twnl.TimerQueue.{
  Entry, Timer, Queue, armed, drained, log, new_timer, before, insert, is_first, add_timer,
  cancel_timer, handle_read, arm_first, run_expired, after_run, get_expired, lower_bound,
}
use twnl.TimerQueue.Order.{All, All-map, All-insert, Sorted, insert-Sorted, insert_fresh}

-- The timer of an entry is live, waits for the entry's time, and is not cancelled.
abbrev pub Kept : (ℕ → Option Timer) → Entry → Type 0
Kept heap e = (t : Timer) × (heap e.timer ≡ some t) × (t.when ≡ e.at) × (t.canceled ≡ false)

pub record IsValid (q : Queue) : Type 0 where
  pub sorted : Sorted q.timers
  pub kept : All (Kept q.heap) q.timers

-- A timer that is not allocated is in no entry.
Kept-fresh :
    (heap : ℕ → Option Timer) (ptr : ℕ) (e : Entry) → heap ptr ≡ none → Kept heap e → e.timer ≢ ptr
Kept-fresh heap ptr e free (t, at, _, _) same = cc (ap heap same, at, free)

pub Kept-put :
    (heap : ℕ → Option Timer) (ptr : ℕ) (v : Option Timer) (e : Entry)
    → e.timer ≢ ptr
    → Kept heap e
    → Kept (put heap ptr v) e
Kept-put heap ptr v e ne (t, at, w, c) =
    (t, put_other heap ptr e.timer v (λ s. ne (sym s)) ∙ at, w, c)

-- In a valid queue, `addTimer` with a pointer that was not allocated fails no assertion and keeps the
-- queue valid: the set gets the entry of the new timer and stays in order, and the timer is live.
pub add_timer-IsValid :
    (ptr when interval : ℕ) (q : Queue)
    → IsValid q
    → q.heap ptr ≡ none
    → (q' : Queue) × (add_timer ptr when interval q ≡ some q')
      × (q'.heap ptr ≡ some (new_timer when interval))
      × (q'.timers ≡ (insert (record { at = when; timer = ptr }) q.timers).0)
      × IsValid q'
unfolding add_timer
add_timer-IsValid ptr when interval q v free =
    let e : Entry = record { at = when; timer = ptr } in
    let heap : (ℕ → Option Timer) = put q.heap ptr (some (new_timer when interval)) in
    let here : heap ptr ≡ some (new_timer when interval) = put_self q.heap ptr ptr _ refl in
    let fresh : All (λ x. x.timer ≢ ptr) q.timers =
      All-map (λ x. Kept-fresh q.heap ptr x free) q.timers v.kept in
    let kept : All (Kept heap) q.timers =
      All-map (λ x k. Kept-put q.heap ptr _ x (Kept-fresh q.heap ptr x free k) k) q.timers v.kept in
    let q1 : Queue = record q { timers = (insert e q.timers).0; heap = heap } in
    let sorted = insert-Sorted e q.timers v.sorted in
    let all = All-insert (Kept heap) e q.timers (new_timer when interval, here, refl, refl) kept in
    elim (Bool-cases (is_first e (insert e q.timers).0)) [
      | inl first ↦ (
        log (armed when) q1,
        rw (insert_fresh e q.timers fresh, first) refl,
        here,
        refl,
        record { sorted = sorted; kept = all },
      )
      | inr other ↦ (
        q1,
        rw (insert_fresh e q.timers fresh, other) refl,
        here,
        refl,
        record { sorted = sorted; kept = all },
      )
    ]

run_expired_self :
    (now : ℕ) (e : Entry) (es : List Entry) (q : Queue)
    → Kept q.heap e
    → e.at ≤ now
    → run_expired cancel_timer now (e ∷ es) q ≡ none
unfolding run_expired cancel_timer after_run
run_expired_self now e es q (t, at, w, c) due =
    let self : e.timer == e.timer ≡ true = ground arith in
    let passed : leb t.when now ≡ true = ground (arith, w, due) in
    rw (run_expired, at, passed, c, at, c, self) refl

-- In a valid queue whose first entry is due: if each callback cancels its own timer, `handleRead` uses a
-- timer that is deleted.
pub self_cancel_deleted :
    (now : ℕ) (e : Entry) (es : List Entry) (q : Queue)
    → IsValid q
    → q.timers ≡ e ∷ es
    → e.at ≤ now
    → handle_read cancel_timer now q ≡ none
unfolding handle_read get_expired lower_bound All
self_cancel_deleted now e es q v first due =
    let is_due : before e (record { at = now + 1; timer = 0 }) ≡ true = ground (arith, due) in
    let kept : All (Kept q.heap) (e ∷ es) = subst (All (Kept q.heap)) first v.kept in
    let end : ℕ = lower_bound (record { at = now + 1; timer = 0 }) es in
    let rest : Queue = record (log drained q) { timers = drop end es } in
    rw (first, is_due)
      (ap (◌>>= λ q1. some (arm_first q1)) (run_expired_self now e (take end es) rest kept.0 due))
