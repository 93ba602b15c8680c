-- ===== src/EpollPoller/Polling.antt =====
-- `poll` and `fillActiveChannels` of twnl/Poller/EpollPoller.cc, with what `epoll_wait` answers.
use twnl.Base.{
  ℕ, ◌*◌, ◌==◌, ◌≡◌, ◌≢◌, ◌≤◌, ◌<◌, leb, le→leb, refl, sym, ap, ◌∙◌, if◌then◌else◌, Option, some,
  List, [], ◌∷◌, ◌++◌, arith, length, map, put, put_self, put_other, check, check_passed,
  append_assoc, append-nil, ◌>>◌,
}
use twnl.Channel.{Events, Channel, set_revents}

-- An entry that `epoll_wait` has written: the channel's pointer and the events.
pub record Ready : Type 0 where
  pub ptr : ℕ
  pub events : Events

pub data Wait : Type 0 where
  -- as many entries as `epoll_wait` counts, 0 after a time-out
  came : List Ready → Wait
  failed : ℕ → Wait

-- The channels' store, and the active channels.
unfoldable pub fill_active_channels : List Ready → (ℕ → Channel) → List ℕ → (ℕ → Channel) × List ℕ
fill_active_channels [] heap active = (heap, active)
fill_active_channels (r ∷ rs) heap active =
    fill_active_channels rs (put heap r.ptr (set_revents r.events (heap r.ptr)))
      (active ++ r.ptr ∷ [])

pub record Polled : Type 0 where
  -- the size of `events_`
  pub size : ℕ
  pub heap : ℕ → Channel
  pub active : List ℕ

unfoldable pub poll : Wait → Polled → Option Polled
unfolding fill_active_channels
poll (came []) p = some p
poll (came (r ∷ rs)) p = do
  check (leb (length (r ∷ rs)) p.size)
  let (heap, active) = fill_active_channels (r ∷ rs) p.heap p.active
  some (record {
    size = if length (r ∷ rs) == p.size then p.size * 2 else p.size;
    heap = heap;
    active = active;
  })
poll (failed e) p = some p

-- The pointer is in none of the entries.
abbrev pub Absent : ℕ → List Ready → Type 0
Absent ptr [] = Unit {0}
Absent ptr (r ∷ rs) = (r.ptr ≢ ptr) × Absent ptr rs

-- The kernel names each descriptor once.
abbrev pub Distinct : List Ready → Type 0
Distinct [] = Unit {0}
Distinct (r ∷ rs) = Absent r.ptr rs × Distinct rs

-- Each channel of an entry has the events of the entry, and is as it was besides.
abbrev pub AllTold : (ℕ → Channel) → (ℕ → Channel) → List Ready → Type 0
AllTold old now [] = Unit {0}
AllTold old now (r ∷ rs) = (now r.ptr ≡ set_revents r.events (old r.ptr)) × AllTold old now rs

fill-active :
    (rs : List Ready) (heap : ℕ → Channel) (active : List ℕ)
    → (fill_active_channels rs heap active).1 ≡ active ++ map (λ r. r.ptr) rs
unfolding fill_active_channels
fill-active [] heap active = sym (append-nil active)
fill-active (r ∷ rs) heap active =
    fill-active rs (put heap r.ptr (set_revents r.events (heap r.ptr))) (active ++ r.ptr ∷ [])
    ∙ append_assoc active (r.ptr ∷ []) (map (λ r. r.ptr) rs)

fill-other :
    (rs : List Ready) (heap : ℕ → Channel) (active : List ℕ) (ptr : ℕ)
    → Absent ptr rs
    → (fill_active_channels rs heap active).0 ptr ≡ heap ptr
unfolding fill_active_channels
fill-other [] heap active ptr a = refl
fill-other (r ∷ rs) heap active ptr (ne, a) =
    fill-other rs (put heap r.ptr (set_revents r.events (heap r.ptr))) (active ++ r.ptr ∷ []) ptr a
    ∙ put_other heap r.ptr ptr (set_revents r.events (heap r.ptr)) ne

AllTold-put :
    (heap now : ℕ → Channel) (ptr : ℕ) (v : Channel) (rs : List Ready)
    → Absent ptr rs
    → AllTold (put heap ptr v) now rs
    → AllTold heap now rs
AllTold-put heap now ptr v [] a t = tt
AllTold-put heap now ptr v (r ∷ rs) (ne, a) (e, t) = (
  e ∙ ap (set_revents r.events) (put_other heap ptr r.ptr v (λ same. ne (sym same))),
  AllTold-put heap now ptr v rs a t,
)

fill-AllTold :
    (rs : List Ready) (heap : ℕ → Channel) (active : List ℕ)
    → Distinct rs
    → AllTold heap (fill_active_channels rs heap active).0 rs
unfolding fill_active_channels
fill-AllTold [] heap active d = tt
fill-AllTold (r ∷ rs) heap active (a, d) =
    let v : Channel = set_revents r.events (heap r.ptr) in
    (
      fill-other rs (put heap r.ptr v) (active ++ r.ptr ∷ []) r.ptr a
          ∙ put_self heap r.ptr r.ptr v refl,
      AllTold-put heap (fill_active_channels rs (put heap r.ptr v) (active ++ r.ptr ∷ [])).0 r.ptr v
          rs a (fill-AllTold rs (put heap r.ptr v) (active ++ r.ptr ∷ []) d),
    )

-- When `epoll_wait` writes entries for distinct channels, no more than `events_` holds, which is at
-- least one: `poll` fails no assertion, makes exactly their channels active, in the order of the
-- entries, tells each of them its events, leaves every other channel as it was, and leaves `events_`
-- with room for more entries than came.
pub poll_lem :
    (rs : List Ready) (p : Polled) (other : ℕ)
    → Distinct rs
    → Absent other rs
    → 0 < p.size
    → length rs ≤ p.size
    → (p' : Polled) × (poll (came rs) p ≡ some p')
      × (p'.active ≡ p.active ++ map (λ r. r.ptr) rs)
      × AllTold p.heap p'.heap rs
      × (p'.heap other ≡ p.heap other)
      × (length rs < p'.size)
unfolding poll
poll_lem [] p other d a pos fits = (p, refl, sym (append-nil p.active), tt, refl, pos)
poll_lem (r ∷ rs) p other d a pos fits = (
  record {
    size = if length (r ∷ rs) == p.size then p.size * 2 else p.size;
    heap = (fill_active_channels (r ∷ rs) p.heap p.active).0;
    active = (fill_active_channels (r ∷ rs) p.heap p.active).1;
  },
  check_passed (leb (length (r ∷ rs)) p.size) _ (le→leb (length (r ∷ rs)) p.size fits),
  fill-active (r ∷ rs) p.heap p.active,
  fill-AllTold (r ∷ rs) p.heap p.active d,
  fill-other (r ∷ rs) p.heap p.active other a,
  ground (arith, pos, fits),
)
