-- ===== src/PollPoller.antt =====
-- twnl/Poller/PollPoller.cc over twnl/Poller.h: the channels of a loop, and the array for `::poll`.
-- Channels are named by pointers into a store, since the poller writes their indices.
-- `none` is a failed assertion, or a null pointer that is followed.
pub mod Adding
pub mod Changing
pub mod Dropping
pub mod Removal
pub mod Polling
pub mod Polled
mod Tests
use twnl.Base.{
  ℕ, suc, ◌+◌, ◌-◌, ◌==◌, ltb, if◌then◌else◌, ℤ, pos, negsuc, Bool, true, false, not, ◌&&◌, ◌||◌,
  Option, none, some, List, [], ◌∷◌, ◌++◌, length, get_elem?, set, take, put, check, ◌>>=◌, ◌>>◌,
  ◌≡◌,
}
use twnl.Channel.{
  Events, no_events, without, is_none, Defaults, Channel, set_index, set_revents, is_none_event,
}

pub record PollFd : Type 0 where
  pub fd : ℤ
  pub events : Events
  pub revents : Events

pub record Poller : Type 0 where
  -- `channels_`, from descriptors to pointers
  pub channels : ℕ → Option ℕ
  pub pollfds : List PollFd
  -- the channels themselves
  pub heap : ℕ → Channel

-- `static_cast<short>`: of the bits that the source names, EPOLLET does not fit.
abbrev pub short : Events → Events
short e = record e { edge = false }

abbrev pub same_events : Events → Events → Bool
same_events a b = is_none (without a b) && is_none (without b a)

abbrev pub same_fd : ℤ → ℤ → Bool
same_fd (pos a) (pos b) = a == b
same_fd (negsuc a) (negsuc b) = a == b
same_fd _ _ = false

abbrev pub is_unset : Option ℕ → Bool
is_unset none = true
is_unset (some _) = false

abbrev pub points_to : Option ℕ → ℕ → Bool
points_to none ptr = false
points_to (some q) ptr = q == ptr

-- The descriptor of an entry; a disabled one holds -fd - 1.
abbrev pub owner : ℤ → ℕ
owner (pos fd) = fd
owner (negsuc fd) = fd

-- The branch `index < 0` of `updateChannel`.
unfoldable pub add_channel : ℕ → Poller → Option Poller
add_channel ptr p = do
  let c : Channel = p.heap ptr
  check (is_unset (p.channels c.fd))
  let pfd : PollFd = record { fd = pos c.fd; events = short c.events; revents = no_events }
  some (record p {
    pollfds = p.pollfds ++ pfd ∷ [];
    heap = put p.heap ptr (set_index (pos (length p.pollfds)) c);
    channels = put p.channels c.fd (some ptr);
  })

-- The other branch, for the index `idx`.
unfoldable pub change_channel : Defaults → ℕ → ℕ → Poller → Option Poller
change_channel d ptr idx p = do
  let c : Channel = p.heap ptr
  check (points_to (p.channels c.fd) ptr)
  check (ltb idx (length p.pollfds))
  old ← get_elem? p.pollfds idx
  check (same_fd old.fd (pos c.fd) || same_fd old.fd (negsuc c.fd))
  let fd : ℤ = if is_none_event d c then negsuc c.fd else pos c.fd
  let pfd : PollFd = record { fd = fd; events = short c.events; revents = no_events }
  some (record p { pollfds = set p.pollfds idx pfd })

unfoldable pub update_channel : Defaults → ℕ → Poller → Option Poller
unfolding add_channel change_channel
update_channel d ptr p = elim (p.heap ptr).index [
  | negsuc _ ↦ add_channel ptr p
  | pos idx ↦ change_channel d ptr idx p
]

-- The end of `removeChannel`: the last entry takes the place of the removed one.
unfoldable pub drop_pollfd : ℕ → PollFd → Poller → Option Poller
drop_pollfd idx pfd p =
    let last = length p.pollfds - 1 in
    if idx == last
    then some (record p { pollfds = take last p.pollfds })
    else (get_elem? p.pollfds last >>= λ end. p.channels (owner end.fd) >>= λ q. some (record p {
      pollfds = take last (set (set p.pollfds idx end) last pfd);
      heap = put p.heap q (set_index (pos idx) (p.heap q));
    }))

unfoldable pub remove_channel : Defaults → ℕ → Poller → Option Poller
unfolding drop_pollfd
remove_channel d ptr p = elim (p.heap ptr).index [
  | negsuc _ ↦ none
  | pos idx ↦ do
    let c : Channel = p.heap ptr
    check (points_to (p.channels c.fd) ptr)
    check (is_none_event d c)
    check (ltb idx (length p.pollfds))
    pfd ← get_elem? p.pollfds idx
    check (same_fd pfd.fd (negsuc c.fd) && same_events pfd.events c.events)
    drop_pollfd idx pfd (record p { channels = put p.channels c.fd none })
]

abbrev pub has_channel : ℕ → Poller → Bool
has_channel ptr p = points_to (p.channels (p.heap ptr).fd) ptr

-- `fillActiveChannels`: the entries, the number of events left, the active channels so far.
unfoldable pub fill_active_channels : List PollFd → ℕ → List ℕ → Poller → Option (List ℕ × Poller)
fill_active_channels [] n active p = some (active, p)
fill_active_channels (pfd ∷ pfds) n active p =
    let skip = fill_active_channels pfds n active p in
    if n == 0
    then some (active, p)
    else (if is_none pfd.revents
        then skip
        else (p.channels (owner pfd.fd) >>= λ ptr.
            check (same_fd (pos (p.heap ptr).fd) pfd.fd)
            >> fill_active_channels pfds (n - 1) (active ++ ptr ∷ [])
                (record p { heap = put p.heap ptr (set_revents pfd.revents (p.heap ptr)) })))

-- What a registered pointer has: the descriptor under which it is found, and an entry of its own.
pub record Registered (p : Poller) (fd ptr : ℕ) : Type 0 where
  pub named : (p.heap ptr).fd ≡ fd
  pub slot : ℕ
  pub indexed : (p.heap ptr).index ≡ pos slot
  pub entry : PollFd
  pub held : get_elem? p.pollfds slot ≡ some entry
  pub own : owner entry.fd ≡ fd

-- The channels and the entries name each other.
pub record IsValid (p : Poller) : Type 0 where
  pub registered : (fd ptr : ℕ) → p.channels fd ≡ some ptr → Registered p fd ptr
  pub owned :
      (i : ℕ) (e : PollFd)
      → get_elem? p.pollfds i ≡ some e
      → (ptr : ℕ) × (p.channels (owner e.fd) ≡ some ptr) × ((p.heap ptr).index ≡ pos i)
