-- ===== src/PollPoller/Polling.antt =====
-- `poll` and `fillActiveChannels` of twnl/Poller/PollPoller.cc, with what `::poll` answers.
use twnl.Base.{
  ℕ, suc, zero, ◌-◌, ◌==◌, ◌≡◌, ◌≢◌, ◌<◌, ltb, refl, sym, ap, ◌∙◌, if◌then◌else◌, pos, true, false,
  Bool-cases, inl, inr, Option, none, some, List, [], ◌∷◌, ◌++◌, arith, put, put_self, put_other,
  append-nil, append_assoc,
}
use mathlib.Core.Option.{some_inj}
use twnl.Channel.{Events, Channel, is_none, set_revents}
use twnl.PollPoller.{PollFd, Poller, owner, same_fd, fill_active_channels}

pub data Wait : Type 0 where
  -- what `::poll` returns, and the `revents` that it writes into the entries
  came : ℕ → List Events → Wait
  failed : ℕ → Wait

-- The entries with what the kernel writes; an entry that it does not reach stays.
abbrev pub answered : List Events → List PollFd → List PollFd
answered [] es = es
answered (r ∷ rs) [] = []
answered (r ∷ rs) (e ∷ es) = record e { revents = r } ∷ answered rs es

-- The active channels, and the poller.
unfoldable pub poll : Wait → Poller → Option (List ℕ × Poller)
unfolding fill_active_channels
poll (came n revents) p =
    let p1 : Poller = record p { pollfds = answered revents p.pollfds } in
    if ltb 0 n then fill_active_channels p1.pollfds n [] p1 else some ([], p1)
poll (failed e) p = some ([], p)

-- How many entries have events.
abbrev pub count : List PollFd → ℕ
count [] = 0
count (e ∷ es) = if is_none e.revents then count es else suc (count es)

abbrev pub listed : Option ℕ → List ℕ → List ℕ
listed none ptrs = ptrs
listed (some ptr) ptrs = ptr ∷ ptrs

-- The channels of the entries that have events.
abbrev pub woken : (ℕ → Option ℕ) → List PollFd → List ℕ
woken channels [] = []
woken channels (e ∷ es) =
    let rest = woken channels es in
    if is_none e.revents then rest else listed (channels (owner e.fd)) rest

-- The entry at place `i` belongs to a channel.
pub record Owned (p : Poller) (i : ℕ) (e : PollFd) : Type 0 where
  pub ptr : ℕ
  pub found : p.channels (owner e.fd) ≡ some ptr
  pub index : (p.heap ptr).index ≡ pos i
  pub fd : (p.heap ptr).fd ≡ owner e.fd

abbrev pub AllOwned : Poller → ℕ → List PollFd → Type 0
AllOwned p i [] = Unit {0}
AllOwned p i (e ∷ es) = Owned p i e × AllOwned p (suc i) es

-- The kernel gives no events to an entry that is switched off by a negative descriptor.
abbrev pub AllEnabled : List PollFd → Type 0
AllEnabled [] = Unit {0}
AllEnabled (e ∷ es) = (is_none e.revents ≡ false → e.fd ≡ pos (owner e.fd)) × AllEnabled es

abbrev pub told : ℕ → Events → Poller → Poller
told ptr r p = record p { heap = put p.heap ptr (set_revents r (p.heap ptr)) }

Owned-told : (p : Poller) (q i : ℕ) (r : Events) (e : PollFd) → Owned p i e → Owned (told q r p) i e
Owned-told p q i r e o = record {
  ptr = o.ptr;
  found = o.found;
  index = ground (arith, o.index);
  fd = ground (arith, o.fd);
}

AllOwned-told :
    (p : Poller) (q i : ℕ) (r : Events) (es : List PollFd)
    → AllOwned p i es
    → AllOwned (told q r p) i es
AllOwned-told p q i r [] o = tt
AllOwned-told p q i r (e ∷ es) (o, os) = (Owned-told p q i r e o, AllOwned-told p q (suc i) r es os)

abbrev pub Absent : ℕ → List ℕ → Type 0
Absent ptr [] = Unit {0}
Absent ptr (q ∷ qs) = (q ≢ ptr) × Absent ptr qs

-- A channel of an earlier place is in none of the later entries.
woken-Absent :
    (p : Poller) (ptr j i : ℕ) (es : List PollFd)
    → (p.heap ptr).index ≡ pos j
    → j < i
    → AllOwned p i es
    → Absent ptr (woken p.channels es)
woken-Absent p ptr j i [] at h o = tt
woken-Absent p ptr j i (e ∷ es) at h (o, os) =
    let later = woken-Absent p ptr j (suc i) es at (omega arith) os in
    elim (Bool-cases (is_none e.revents)) [
      | inl quiet ↦ rw quiet later
      | inr awake ↦ rw (awake, o.found) ((λ same. ground (arith, at, h, o.index, same)), later)
    ]

-- Each channel of an entry with events has those events, and is as it was besides.
abbrev pub AllTold : Poller → Poller → List PollFd → Type 0
AllTold p p' [] = Unit {0}
AllTold p p' (e ∷ es) =
    (is_none e.revents ≡ false
      → (ptr : ℕ) × (p.channels (owner e.fd) ≡ some ptr)
        × (p'.heap ptr ≡ set_revents e.revents (p.heap ptr)))
    × AllTold p p' es

AllTold-told :
    (p p' : Poller) (ptr j i : ℕ) (r : Events) (es : List PollFd)
    → (p.heap ptr).index ≡ pos j
    → j < i
    → AllOwned p i es
    → AllTold (told ptr r p) p' es
    → AllTold p p' es
AllTold-told p p' ptr j i r [] at h o t = tt
AllTold-told p p' ptr j i r (e ∷ es) at h (o, os) (t, ts) = (
  (λ awake.
      let (q, found, now) = t awake in
      let mine : q ≡ o.ptr = some_inj.0 (sym found ∙ o.found) in
      let other : ptr ≢ q = λ same. ground (arith, at, h, o.index, same, mine) in
      (q, found, now ∙ ap (set_revents e.revents) (put_other p.heap ptr q _ other))),
  AllTold-told p p' ptr j (suc i) r es at (omega arith) os ts,
)

pub fill-zero :
    (es : List PollFd) (active : List ℕ) (p : Poller)
    → fill_active_channels es 0 active p ≡ some (active, p)
unfolding fill_active_channels
fill-zero [] active p = refl
fill-zero (e ∷ es) active p = refl

fill_quiet :
    (e : PollFd) (es : List PollFd) (n : ℕ) (active : List ℕ) (p : Poller)
    → is_none e.revents ≡ true
    → fill_active_channels (e ∷ es) n active p ≡ fill_active_channels es n active p
unfolding fill_active_channels
fill_quiet e es zero active p quiet = fill-zero (e ∷ es) active p ∙ sym (fill-zero es active p)
fill_quiet e es (suc n) active p quiet =
    let more : suc n == 0 ≡ false = ground arith in rw (quiet, more) refl

fill_awake :
    (e : PollFd) (es : List PollFd) (n i : ℕ) (active : List ℕ) (p : Poller) (o : Owned p i e)
    → is_none e.revents ≡ false
    → e.fd ≡ pos (owner e.fd)
    → fill_active_channels (e ∷ es) (suc n) active p
      ≡ fill_active_channels es n (active ++ o.ptr ∷ []) (told o.ptr e.revents p)
unfolding fill_active_channels
fill_awake e es n i active p o awake enabled =
    let same : same_fd (pos (p.heap o.ptr).fd) e.fd ≡ true =
      ap (same_fd (pos (p.heap o.ptr).fd)) enabled ∙ ground (arith, o.fd) in
    let more : suc n == 0 ≡ false = ground arith in
    let left : suc n - 1 ≡ n = omega arith in rw (awake, o.found, same, more, left) refl

-- A poll changes neither the descriptor nor the index of a channel.
abbrev pub SameEnds : Channel → Channel → Type 0
SameEnds c c' = (c'.fd ≡ c.fd) × (c'.index ≡ c.index)

told-SameEnds :
    (q ptr : ℕ) (r : Events) (p : Poller) → SameEnds (p.heap ptr) ((told q r p).heap ptr)
told-SameEnds q ptr r p = ground arith

abbrev pub Fills : List PollFd → List ℕ → Poller → Poller → Type 0
Fills es active p p' =
    (fill_active_channels es (count es) active p ≡ some (active ++ woken p.channels es, p'))
    × AllTold p p' es
    × ((ptr : ℕ) → Absent ptr (woken p.channels es) → p'.heap ptr ≡ p.heap ptr)
    × ((ptr : ℕ) → SameEnds (p.heap ptr) (p'.heap ptr))
    × (p'.channels ≡ p.channels)
    × (p'.pollfds ≡ p.pollfds)

pub fill-Fills :
    (es : List PollFd) (i : ℕ) (active : List ℕ) (p : Poller)
    → AllOwned p i es
    → AllEnabled es
    → (p' : Poller) × Fills es active p p'
fill-Fills [] i active p o k = (
  p,
  (
    fill-zero [] active p ∙ ap (λ a. some (a, p)) (sym (append-nil active)),
    tt,
    λ ptr a. refl,
    λ ptr. (refl, refl),
    refl,
    refl,
  ),
)
fill-Fills (e ∷ es) i active p (o, os) (k, ks) = elim (Bool-cases (is_none e.revents)) [
  | inl quiet ↦
      let (p', (done, ts, other, kept, ch, fds)) = fill-Fills es (suc i) active p os ks in
      (
        p',
        (
          rw quiet (fill_quiet e es (count es) active p quiet ∙ done),
          ((λ awake. absurd (cc (quiet, awake))), ts),
          rw quiet other,
          kept,
          ch,
          fds,
        ),
      )
  | inr awake ↦
      let p1 : Poller = told o.ptr e.revents p in
      let (p', (done, ts, other, kept, ch, fds)) =
        fill-Fills es (suc i) (active ++ o.ptr ∷ []) p1
          (AllOwned-told p o.ptr (suc i) e.revents es os) ks in
      let later : Absent o.ptr (woken p.channels es) =
        woken-Absent p o.ptr i (suc i) es o.index (omega arith) os in
      (
        p',
        (
          rw (awake, o.found)
              (fill_awake e es (count es) i active p o awake (k awake)
                ∙ done
                ∙ ap (λ a. some (a, p')) (append_assoc active (o.ptr ∷ []) (woken p.channels es))),
          (
            (λ _. (o.ptr, o.found, other o.ptr later ∙ put_self p.heap o.ptr o.ptr _ refl)),
            AllTold-told p p' o.ptr i (suc i) e.revents es o.index (omega arith) os ts,
          ),
          rw (awake, o.found) (λ ptr a. other ptr a.1 ∙ put_other p.heap o.ptr ptr _ a.0),
          λ ptr.
              let (fd, index) = told-SameEnds o.ptr ptr e.revents p in
              ((kept ptr).0 ∙ fd, (kept ptr).1 ∙ index),
          ch,
          fds,
        ),
      )
]
