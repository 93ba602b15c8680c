-- ===== src/EpollPoller.antt =====
-- twnl/Poller/EpollPoller.cc over twnl/Poller.h: the channels of a loop, and what the kernel is told.
-- Channels are named by pointers into a store, since the poller writes their indices; the calls of
-- `epoll_ctl` are recorded, newest first. `none` is a failed assertion.
pub mod Interest
pub mod Polling
pub mod Kernel
mod Tests
use twnl.Base.{
  ℕ, ◌==◌, if◌then◌else◌, ℤ, pos, negsuc, Bool, true, false, Option, none, some, List, [], ◌∷◌, put,
  check, ◌>>=◌, ◌>>◌,
}
use twnl.Channel.{Events, Defaults, Channel, set_index, is_none_event}
use twnl.PollPoller.{is_unset, points_to}

-- `epoll_ctl` with EPOLL_CTL_ADD, EPOLL_CTL_MOD or EPOLL_CTL_DEL, the descriptor and the events.
pub data Ctl : Type 0 where
  ctl_add ctl_mod ctl_del : ℕ → Events → Ctl

pub record EpollPoller : Type 0 where
  -- `channels_`, from descriptors to pointers
  pub channels : ℕ → Option ℕ
  pub heap : ℕ → Channel
  pub calls : List Ctl

abbrev pub k_added : ℤ
k_added = pos 1

abbrev pub k_deleted : ℤ
k_deleted = pos 2

-- `index == kNew`, that is -1.
abbrev pub is_new : ℤ → Bool
is_new (negsuc n) = n == 0
is_new (pos n) = false

abbrev pub is_pos : ℕ → ℤ → Bool
is_pos k (pos n) = n == k
is_pos k (negsuc n) = false

-- `update`: the operation is a constructor of `Ctl`.
abbrev pub tell : (ℕ → Events → Ctl) → Channel → EpollPoller → EpollPoller
tell operation c p = record p { calls = operation c.fd c.events ∷ p.calls }

abbrev pub mark : ℕ → ℤ → EpollPoller → EpollPoller
mark ptr index p = record p { heap = put p.heap ptr (set_index index (p.heap ptr)) }

unfoldable pub update_channel : Defaults → ℕ → EpollPoller → Option EpollPoller
update_channel d ptr p =
    let c = p.heap ptr in
    if is_new c.index
    then (check (is_unset (p.channels c.fd))
        >> some (
            tell ctl_add c
              (mark ptr k_added (record p { channels = put p.channels c.fd (some ptr) }))))
    else (if is_pos 2 c.index
        then (check (points_to (p.channels c.fd) ptr) >> some (tell ctl_add c (mark ptr k_added p)))
        else (if is_none_event d c
            then some (mark ptr k_deleted (tell ctl_del c p))
            else some (tell ctl_mod c p)))

unfoldable pub remove_channel : ℕ → EpollPoller → EpollPoller
remove_channel ptr p =
    let c = p.heap ptr in
    let p1 = record p { channels = put p.channels c.fd none } in
    mark ptr k_deleted (if is_pos 1 c.index then tell ctl_del c p1 else p1)
