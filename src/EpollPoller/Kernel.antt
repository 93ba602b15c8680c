-- ===== src/EpollPoller/Kernel.antt =====
-- The descriptor of twnl/Poller/EpollPoller.cc, and the calls of `epoll_ctl` that fail.
use twnl.Base.{ℕ, List, [], ◌∷◌}
use twnl.EpollPoller.{Ctl, ctl_add, ctl_mod, ctl_del, EpollPoller}
use twnl.Sockets.{Call, goes_on, Log, fatal_or, Answer, gave, failed}

abbrev pub init_event_list_size : ℕ
init_event_list_size = 16

-- The constructor, with the answer of `epoll_create1`: the descriptor, and the room of `events_`.
unfoldable pub new : Log → Answer → Call (Answer × ℕ)
new lg (gave fd) = goes_on (gave fd, init_event_list_size)
new lg (failed e) = fatal_or lg (failed e, init_event_list_size)

abbrev pub operation_to_string : Ctl → List ℕ
operation_to_string (ctl_add fd ev) = b'A' ∷ b'D' ∷ b'D' ∷ []
operation_to_string (ctl_del fd ev) = b'D' ∷ b'E' ∷ b'L' ∷ []
operation_to_string (ctl_mod fd ev) = b'M' ∷ b'O' ∷ b'D' ∷ []

abbrev after_failure : Log → Ctl → EpollPoller → Call EpollPoller
after_failure lg (ctl_del fd ev) p = goes_on p
after_failure lg (ctl_add fd ev) p = fatal_or lg p
after_failure lg (ctl_mod fd ev) p = fatal_or lg p

-- `update`, with the answer of `epoll_ctl`: only a refused EPOLL_CTL_DEL lets the program go on.
unfoldable pub update : Log → Answer → Ctl → EpollPoller → Call EpollPoller
update lg (gave n) op p = goes_on (record p { calls = op ∷ p.calls })
update lg (failed e) op p = after_failure lg op p
