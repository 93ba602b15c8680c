-- ===== src/TimerQueue/Firing.antt =====
-- `handleRead` of twnl/TimerQueue.cc where the callbacks leave the timers alone.
use mathlib.Core.Option.{some_inj}
use twnl.Base.{
  ℕ, zero, suc, ◌+◌, ◌≤◌, ◌≡◌, ◌≢◌, refl, sym, ap, ◌∙◌, inl, inr, leb, true, Option, none, some,
  List, [], ◌∷◌, arith, take, drop, put, put_self, Bool-cases, ◌>>=◌,
}
use twnl.TimerQueue.{
  Entry, Timer, Queue, Effect, drained, ran, log, before, insert, handle_read, arm_at, arm_first,
  run_expired, after_run, get_expired, lower_bound,
}
use twnl.TimerQueue.Order.{
  All-zip, All, All-insert, Above, Sorted, insert-Sorted, get_expired_lem, due_at,
  get_expired-due_at,
}
use twnl.TimerQueue.Adding.{IsValid, Kept, Kept-put}

-- A callback that does not touch the queue.
abbrev pub quiet : ℕ → Queue → Option Queue
quiet ptr q = some q

-- The timers that have run, newest first.
unfoldable pub fired : List Effect → List ℕ
fired [] = []
fired (ran ptr ∷ es) = ptr ∷ fired es
fired (_ ∷ es) = fired es

-- The timers of the entries in their order, put one by one in front of those that ran before.
unfoldable pub onto : List Entry → List ℕ → List ℕ
onto [] acc = acc
onto (e ∷ es) acc = onto es (e.timer ∷ acc)

Other : Entry → Entry → Type 0
Other e x = x.timer ≢ e.timer

Distinct : List Entry → Type 0
unfolding Other
Distinct [] = Unit
Distinct (e ∷ es) = All (Other e) es × Distinct es

module _ {ℓ} (P : Entry → Type ℓ) where
  All-take : (n : ℕ) (xs : List Entry) → All P xs → All P (take n xs)
  unfolding All
  All-take zero xs a = tt
  All-take (suc n) [] a = tt
  All-take (suc n) (x ∷ xs) (p, a) = (p, All-take n xs a)

  All-drop : (n : ℕ) (xs : List Entry) → All P xs → All P (drop n xs)
  unfolding All
  All-drop zero xs a = a
  All-drop (suc n) [] a = tt
  All-drop (suc n) (x ∷ xs) (p, a) = All-drop n xs a

Sorted-drop : (n : ℕ) (xs : List Entry) → Sorted xs → Sorted (drop n xs)
unfolding Sorted
Sorted-drop zero xs s = s
Sorted-drop (suc n) [] s = tt
Sorted-drop (suc n) (x ∷ xs) (a, s) = Sorted-drop n xs s

Distinct-take : (n : ℕ) (xs : List Entry) → Distinct xs → Distinct (take n xs)
unfolding Distinct
Distinct-take zero xs d = tt
Distinct-take (suc n) [] d = tt
Distinct-take (suc n) (x ∷ xs) (a, d) = (All-take (Other x) n xs a, Distinct-take n xs d)

apart : (n : ℕ) (xs : List Entry) → Distinct xs → All (λ e. All (Other e) (drop n xs)) (take n xs)
unfolding Distinct All
apart zero xs d = tt
apart (suc n) [] d = tt
apart (suc n) (x ∷ xs) (a, d) = (All-drop (Other x) n xs a, apart n xs d)

Other-of_above :
    (heap : ℕ → Option Timer) (e x : Entry)
    → Kept heap e
    → Kept heap x
    → before e x ≡ true
    → Other e x
unfolding Other
Other-of_above heap e x (t, at, w, _) (t', at', w', _) h same =
    let eq : t ≡ t' = some_inj.0 (sym at ∙ ap heap (sym same) ∙ at') in
    let when : e.at ≡ x.at = sym w ∙ ap (λ t. t.when) eq ∙ w' in
    absurd (ground (arith, h, when, same))

All-Distinct :
    (heap : ℕ → Option Timer) (xs : List Entry) → Sorted xs → All (Kept heap) xs → Distinct xs
unfolding Sorted Distinct All
All-Distinct heap [] s k = tt
All-Distinct heap (x ∷ xs) (a, s) (k, ks) = (
  All-zip (Kept heap) (Above x) (λ y ky h. Other-of_above heap x y k ky h) xs ks a,
  All-Distinct heap xs s ks,
)

-- Between two callbacks: the entries of `due` are out of the set, and live.
record Ready (now : ℕ) (due : List Entry) (q : Queue) : Type 0 where
  sorted : Sorted q.timers
  kept : All (Kept q.heap) q.timers
  live : All (λ e. Kept q.heap e × (e.at ≤ now)) due
  apart_from : All (λ e. All (Other e) q.timers) due
  distinct : Distinct due

module _ (now : ℕ) (e : Entry) (es : List Entry) (q : Queue) (r : Ready now (e ∷ es) q)
    (v : Option Timer) where
  abbrev heap_with : ℕ → Option Timer
  heap_with = put q.heap e.timer v

  Kept-with : All (Kept heap_with) q.timers
  unfolding Other All
  Kept-with =
      All-zip (Kept q.heap) (Other e) (λ x k ne. Kept-put q.heap e.timer v x ne k) q.timers r.kept
        r.apart_from.0

  Kept-live : All (λ x. Kept heap_with x × (x.at ≤ now)) es
  unfolding Other All Distinct
  Kept-live =
      All-zip (λ x. Kept q.heap x × (x.at ≤ now)) (Other e)
        (λ x (k, h) ne. (Kept-put q.heap e.timer v x ne k, h)) es r.live.1 r.distinct.0

after_run-Ready :
    (now : ℕ) (e : Entry) (es : List Entry) (q : Queue)
    → Ready now (e ∷ es) q
    → (q' : Queue) × (after_run e (log (ran e.timer) q) ≡ some q')
      × Ready now es q'
      × (q'.trace ≡ ran e.timer ∷ q.trace)
unfolding after_run All Distinct Other
after_run-Ready now e es q r =
    let (t, at, w, c) = r.live.0.0 in
    elim (Bool-cases t.repeat) [
      | inl again ↦
          let t1 : Timer = record t { when = t.when + t.interval } in
          let e1 : Entry = record e { at = t1.when } in
          (
            record q {
              timers = (insert e1 q.timers).0;
              heap = put q.heap e.timer (some t1);
              trace = ran e.timer ∷ q.trace;
            },
            rw (after_run, at, c, again) refl,
            record {
              sorted = insert-Sorted e1 q.timers r.sorted;
              kept =
                  All-insert (Kept (put q.heap e.timer (some t1))) e1 q.timers
                    (t1, put_self q.heap e.timer e.timer (some t1) refl, refl, c)
                    (Kept-with now e es q r (some t1));
              live = Kept-live now e es q r (some t1);
              apart_from =
                  All-zip (Other e) (λ x. All (Other x) q.timers)
                    (λ x ne a. All-insert (Other x) e1 q.timers (λ s. ne (sym s)) a) es r.distinct.0
                    r.apart_from.1;
              distinct = r.distinct.1;
            },
            refl,
          )
      | inr once ↦ (
        record q { heap = put q.heap e.timer none; trace = ran e.timer ∷ q.trace },
        rw (after_run, at, c, once) refl,
        record {
          sorted = r.sorted;
          kept = Kept-with now e es q r none;
          live = Kept-live now e es q r none;
          apart_from = r.apart_from.1;
          distinct = r.distinct.1;
        },
        refl,
      )
    ]

run_expired-IsValid :
    (now : ℕ) (due : List Entry) (q : Queue)
    → Ready now due q
    → (q' : Queue) × (run_expired quiet now due q ≡ some q')
      × (fired q'.trace ≡ onto due (fired q.trace))
      × IsValid q'
unfolding run_expired onto fired All
run_expired-IsValid now [] q r = (q, refl, refl, record { sorted = r.sorted; kept = r.kept })
run_expired-IsValid now (e ∷ es) q r =
    let (t, at, w, c) = r.live.0.0 in
    let passed : leb t.when now ≡ true = ground (arith, w, r.live.0.1) in
    let (q1, ran_once, r1, logged) = after_run-Ready now e es q r in
    let (q', rest, more, v) = run_expired-IsValid now es q1 r1 in
    (
      q',
      rw (run_expired, at, passed, c, ran_once) rest,
      more ∙ ap (λ tr. onto es (fired tr)) logged,
      v,
    )

arm_first-same :
    (q : Queue) → IsValid q → IsValid (arm_first q) × (fired (arm_first q).trace ≡ fired q.trace)
unfolding fired
arm_first-same q v = go q.timers
  where
    go : (xs : List Entry) → IsValid (arm_at xs q) × (fired (arm_at xs q).trace ≡ fired q.trace)
    go [] = (v, refl)
    go (e ∷ es) = (record { sorted = v.sorted; kept = v.kept }, refl)

-- In a valid queue, with callbacks that leave the queue alone: `handleRead` uses no deleted timer and
-- fails no assertion; the callbacks that run are those of exactly the entries whose time is not after
-- `now`, each once and in the order of the set; and the queue is valid again.
pub handle_read-IsValid :
    (now : ℕ) (q : Queue)
    → IsValid q
    → (q' : Queue) × (handle_read quiet now q ≡ some q')
      × (fired q'.trace ≡ onto (due_at now q.timers) (fired q.trace))
      × IsValid q'
unfolding handle_read get_expired fired
handle_read-IsValid now q v =
    let end : ℕ = lower_bound (record { at = now + 1; timer = 0 }) q.timers in
    let (_, due, _) = get_expired_lem now q.timers v.sorted in
    let d = All-Distinct q.heap q.timers v.sorted v.kept in
    let q0 : Queue = record (log drained q) { timers = drop end q.timers } in
    let r : Ready now (take end q.timers) q0 = record {
      sorted = Sorted-drop end q.timers v.sorted;
      kept = All-drop (Kept q.heap) end q.timers v.kept;
      live =
          All-zip (Kept q.heap) (λ x. x.at ≤ now) (λ x k h. (k, h)) (take end q.timers)
            (All-take (Kept q.heap) end q.timers v.kept) due;
      apart_from = apart end q.timers d;
      distinct = Distinct-take end q.timers d;
    } in
    let (q1, e, more, v1) = run_expired-IsValid now (take end q.timers) q0 r in
    let (v', same) = arm_first-same q1 v1 in
    (
      arm_first q1,
      ap (◌>>= λ q1. some (arm_first q1)) e,
      same ∙ more ∙ ap (λ xs. onto xs (fired q.trace)) (get_expired-due_at now q.timers v.sorted),
      v',
    )
