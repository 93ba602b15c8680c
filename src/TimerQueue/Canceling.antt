-- ===== src/TimerQueue/Canceling.antt =====
-- What `cancelTimer` of twnl/TimerQueue.cc does to the set and the store.
use twnl.Base.{
  ℕ, ◌≡◌, ◌≢◌, refl, sym, ap, ◌∙◌, inl, inr, false, Option, none, some, List, [], ◌∷◌, arith, put,
  put_self, Bool-cases,
}
use mathlib.Core.Option.{some_inj}
use twnl.TimerQueue.{Entry, Timer, Queue, before, erase, cancel_timer}
use twnl.TimerQueue.Order.{All, All-map, All-zip, Above, Sorted}
use twnl.TimerQueue.Adding.{Kept, Kept-put, IsValid}

pub All-erase {ℓ} :
    (P : Entry → Type ℓ) (e : Entry) (xs : List Entry) → All P xs → All P (erase e xs)
unfolding All erase
All-erase P e [] a = tt
All-erase P e (x ∷ xs) (p, a) = elim (Bool-cases (before e x)) [
  | inl h ↦ rw h (p, a)
  | inr h ↦ elim (Bool-cases (before x e)) [
    | inl k ↦ rw (h, k) (p, All-erase P e xs a)
    | inr k ↦ rw (h, k) a
  ]
]

pub erase-Sorted : (e : Entry) (xs : List Entry) → Sorted xs → Sorted (erase e xs)
unfolding Sorted erase
erase-Sorted e [] s = tt
erase-Sorted e (x ∷ xs) (a, s) = elim (Bool-cases (before e x)) [
  | inl h ↦ rw h (a, s)
  | inr h ↦ elim (Bool-cases (before x e)) [
    | inl k ↦ rw (h, k) (All-erase (Above x) e xs a, erase-Sorted e xs s)
    | inr k ↦ rw (h, k) s
  ]
]

Above-other :
    (e : Entry) (xs : List Entry)
    → All (Above e) xs
    → All (λ x. x.timer ≡ e.timer → x.at ≡ e.at) xs
    → All (λ x. x.timer ≢ e.timer) xs
unfolding All
Above-other e [] a p = tt
Above-other e (x ∷ xs) (b, a) (at, p) = ((λ same. ground (arith, b, at same)), Above-other e xs a p)

-- If the entries of a timer all wait for one time, it is gone from the set after `erase` at that time.
erase_gone :
    (e : Entry) (xs : List Entry)
    → Sorted xs
    → All (λ x. x.timer ≡ e.timer → x.at ≡ e.at) xs
    → All (λ x. x.timer ≢ e.timer) (erase e xs)
unfolding All Sorted erase
erase_gone e [] s a = tt
erase_gone e (x ∷ xs) (above, s) (at, p) = elim (Bool-cases (before e x)) [
  | inl h ↦
      rw h (Above-other e (x ∷ xs) (h, All-map (λ y b. ground (arith, h, b)) xs above) (at, p))
  | inr h ↦ elim (Bool-cases (before x e)) [
    | inl k ↦ rw (h, k) ((λ same. ground (arith, k, at same)), erase_gone e xs s p)
    | inr k ↦ rw (h, k) (Above-other e xs (All-map (λ y b. ground (arith, h, k, b)) xs above) p)
  ]
]

-- In a valid queue, `cancelTimer` of a live timer that is not cancelled fails no assertion and keeps the
-- queue valid: the timer is deleted, and no entry of the set is left for it.
pub cancel_timer-IsValid :
    (ptr : ℕ) (t : Timer) (q : Queue)
    → IsValid q
    → q.heap ptr ≡ some t
    → t.canceled ≡ false
    → (q' : Queue) × (cancel_timer ptr q ≡ some q')
      × (q'.timers ≡ erase (record { at = t.when; timer = ptr }) q.timers)
      × (q'.heap ptr ≡ none)
      × All (λ x. x.timer ≢ ptr) q'.timers
      × IsValid q'
unfolding cancel_timer
cancel_timer-IsValid ptr t q v live c =
    let e : Entry = record { at = t.when; timer = ptr } in
    let same_time = All-map (λ x k. Kept-time q.heap ptr t x live k) q.timers v.kept in
    let gone = erase_gone e q.timers v.sorted same_time in
    (
      record q { timers = erase e q.timers; heap = put q.heap ptr none },
      rw (live, c) refl,
      refl,
      put_self q.heap ptr ptr none refl,
      gone,
      record {
        sorted = erase-Sorted e q.timers v.sorted;
        kept =
            All-zip _ (Kept q.heap) (λ x ne k. Kept-put q.heap ptr none x ne k) (erase e q.timers)
              gone (All-erase (Kept q.heap) e q.timers v.kept);
      },
    )
  where
    Kept-time :
        (heap : ℕ → Option Timer) (ptr : ℕ) (t : Timer) (x : Entry)
        → heap ptr ≡ some t
        → Kept heap x
        → x.timer ≡ ptr
        → x.at ≡ t.when
    Kept-time heap ptr t x live (u, at, w, c) same =
        sym w ∙ ap (λ t. t.when) (some_inj.0 (sym at ∙ ap heap same ∙ live))
