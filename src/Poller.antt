-- ===== src/Poller.antt =====
-- twnl/Poller.h and twnl/Poller.cc: the poller of a loop, of either kind, and the calls that a loop
-- passes on to it.
use twnl.Base.{ℕ, if◌then◌else◌, Bool, Option, none, some, [], put, ◌>>=◌}
use twnl.Channel.{Defaults, Channel}
use twnl.EpollPoller
use twnl.EpollPoller.{EpollPoller}
use twnl.PollPoller
use twnl.PollPoller.{Poller}

-- The virtual functions by the class of the object.
pub data AnyPoller : Type 0 where
  by_poll : Poller → AnyPoller
  by_epoll : EpollPoller → AnyPoller

-- `newDefaultPoller`, over the store of the channels.
unfoldable pub new_default_poller : Bool → (ℕ → Channel) → AnyPoller
new_default_poller epoll heap =
    if epoll
    then by_epoll (record { channels = λ fd. none; heap = heap; calls = [] })
    else by_poll (record { channels = λ fd. none; pollfds = []; heap = heap })

unfoldable pub update_channel : Defaults → ℕ → AnyPoller → Option AnyPoller
unfolding PollPoller.update_channel EpollPoller.update_channel
update_channel d ptr (by_poll p) = do p' ← PollPoller.update_channel d ptr p; some (by_poll p')
update_channel d ptr (by_epoll p) = do p' ← EpollPoller.update_channel d ptr p; some (by_epoll p')

unfoldable pub remove_channel : Defaults → ℕ → AnyPoller → Option AnyPoller
unfolding PollPoller.remove_channel EpollPoller.remove_channel
remove_channel d ptr (by_poll p) = do p' ← PollPoller.remove_channel d ptr p; some (by_poll p')
remove_channel d ptr (by_epoll p) = some (by_epoll (EpollPoller.remove_channel ptr p))

-- What a function of a channel does to the channel itself.
abbrev pub change : ℕ → (Channel → Channel) → AnyPoller → AnyPoller
change ptr f (by_poll p) = by_poll (record p { heap = put p.heap ptr (f (p.heap ptr)) })
change ptr f (by_epoll p) = by_epoll (record p { heap = put p.heap ptr (f (p.heap ptr)) })
