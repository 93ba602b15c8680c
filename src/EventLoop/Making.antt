-- ===== src/EventLoop/Making.antt =====
-- The constructor and the destructor of twnl/EventLoop.cc: the channels that a loop makes for itself, and
-- the thread's own pointer to its loop.
use twnl.Base.{
  ℕ, ◌≡◌, ◌≢◌, refl, ap, ◌∙◌, Bool, true, false, not, Option, none, some, [], ◌∷◌, put, put_self,
  put_other, check, ◌>>=◌, ◌>>◌,
}
use twnl.Channel
use twnl.Channel.{Defaults, Channel, Events, no_events, init_default_event, enable_reading, zeroed}
use twnl.EpollPoller
use twnl.Logging.{enabled, log_fatal}
use twnl.EpollPoller.{EpollPoller, tell, mark, k_added, Ctl, ctl_add}
use twnl.EventLoop.{Loop}
use twnl.Poller.{AnyPoller, by_epoll, new_default_poller, update_channel, change}
use twnl.Sockets.{Call, died, goes_on, Log, fatal_or, Answer, gave, failed}

pub data Mode : Type 0 where
  poll epoll : Mode

abbrev pub is_epoll : Mode → Bool
is_epoll poll = false
is_epoll epoll = true

-- What the loops of a process and of a thread share.
pub record Shared : Type 0 where
  -- the static members of Channel
  pub defaults : Defaults
  -- `t_loopInThisThread`
  pub loop_in_this_thread : Option ℕ

-- The descriptors and the pointers that the constructor gets, and the loop's own pointer.
pub record Parts : Type 0 where
  pub self : ℕ
  pub timerfd : ℕ
  pub timer_channel : ℕ
  pub wakeup_fd : ℕ
  pub wakeup_channel : ℕ

unfoldable pub create_eventfd : Log → Answer → Call Answer
create_eventfd lg (gave fd) = goes_on (gave fd)
create_eventfd lg (failed e) = fatal_or lg (failed e)

-- A new channel at `ptr` that enables reading.
unfoldable pub watch : Defaults → ℕ → ℕ → AnyPoller → Option AnyPoller
unfolding update_channel enable_reading
watch d ptr fd p = update_channel d ptr (change ptr (λ c. enable_reading d (Channel.new fd)) p)

-- The initializers: `timerQueue_` enables reading on its channel.
unfoldable pub start_timers : Mode → Shared → (ℕ → Channel) → Parts → Option AnyPoller
unfolding watch new_default_poller
start_timers mode sh heap parts =
    watch sh.defaults parts.timer_channel parts.timerfd (new_default_poller (is_epoll mode) heap)

-- The masks that `initDefaultEvent` leaves, if it is called.
abbrev pub masks : Mode → Channel.Mode → Defaults → Defaults
masks epoll emode d = init_default_event emode
masks poll emode d = d

-- The end of the body.
unfoldable pub start_wakeup : Defaults → Parts → Option ℕ → AnyPoller → Option (Shared × AnyPoller)
unfolding watch
start_wakeup d parts current p = do
  p' ← watch d parts.wakeup_channel parts.wakeup_fd p
  some (record { defaults = d; loop_in_this_thread = current }, p')

-- The test of `t_loopInThisThread`, which ends the program where `LOG_FATAL` does.
abbrev pub claim_thread :
    Log
    → ℕ
    → Option ℕ
    → (Option ℕ → Option (Shared × AnyPoller))
    → Call (Option (Shared × AnyPoller))
claim_thread lg self none k = goes_on (k (some self))
claim_thread lg self (some other) k = fatal_or lg (k (some other))

unfoldable pub make :
    Log → Mode → Channel.Mode → Shared → (ℕ → Channel) → Parts → Call (Option (Shared × AnyPoller))
unfolding start_timers start_wakeup init_default_event
make lg mode emode sh heap parts =
    let d = masks mode emode sh.defaults in
    claim_thread lg parts.self sh.loop_in_this_thread
      λ current. start_timers mode sh heap parts >>= start_wakeup d parts current

-- The destructor.
unfoldable pub destroy : Loop → Shared → Option Shared
destroy l sh = do check (not l.looping); some (record sh { loop_in_this_thread = none })

-- A new channel under a descriptor that the poller does not know.
watch_new :
    (d : Defaults) (ptr fd : ℕ) (p : EpollPoller)
    → p.channels fd ≡ none
    → (p' : EpollPoller) × (watch d ptr fd (by_epoll p) ≡ some (by_epoll p'))
      × (p'.channels ≡ put p.channels fd (some ptr))
      × (p'.calls ≡ ctl_add fd (Channel.union no_events d.read_event) ∷ p.calls)
unfolding watch update_channel EpollPoller.update_channel enable_reading
watch_new d ptr fd p free =
    let c : Channel = enable_reading d (Channel.new fd) in
    let here : put p.heap ptr c ptr ≡ c = put_self p.heap ptr ptr c refl in
    let p1 : EpollPoller = record p { heap = put p.heap ptr c } in
    (
      tell ctl_add c (mark ptr k_added (record p1 { channels = put p.channels fd (some ptr) })),
      rw (here, free) refl,
      refl,
      refl,
    )

-- The constructor in a thread without a loop, in the mode EPOLL, with distinct descriptors: it fails no
-- assertion, the loop becomes the thread's, and the kernel is told to watch the timer's descriptor for
-- the read mask that the static members had before, and then the wakeup descriptor for that of the given
-- mode.
pub make-calls :
    (lg : Log) (emode : Channel.Mode) (d : Defaults) (heap : ℕ → Channel) (parts : Parts)
    → parts.timerfd ≢ parts.wakeup_fd
    → let sh : Shared = record { defaults = d; loop_in_this_thread = none } in
      let sh' : Shared = record {
        defaults = init_default_event emode;
        loop_in_this_thread = some parts.self;
      } in
      (p : EpollPoller) × (make lg epoll emode sh heap parts ≡ goes_on (some (sh', by_epoll p)))
      × (p.calls
          ≡ ctl_add parts.wakeup_fd (Channel.union no_events (init_default_event emode).read_event)
            ∷ ctl_add parts.timerfd (Channel.union no_events d.read_event)
            ∷ [])
unfolding make start_timers start_wakeup new_default_poller
make-calls lg emode d heap parts apart =
    let p0 : EpollPoller = record { channels = λ fd. none; heap = heap; calls = [] } in
    let (p1, e1, ch1, calls1) = watch_new d parts.timer_channel parts.timerfd p0 refl in
    let free : p1.channels parts.wakeup_fd ≡ none =
      ap (λ f. f parts.wakeup_fd) ch1
      ∙ put_other p0.channels parts.timerfd parts.wakeup_fd _ apart in
    let (p2, e2, _, calls2) =
      watch_new (init_default_event emode) parts.wakeup_channel parts.wakeup_fd p1 free in
    (
      p2,
      rw (e1, e2) refl,
      calls2
          ∙ ap
              (λ cs.
                ctl_add parts.wakeup_fd
                  (Channel.union no_events (init_default_event emode).read_event)
                ∷ cs)
              calls1,
    )

-- In a thread that has a loop, where `LOG_FATAL` is enabled, the constructor ends the program.
pub make_twice :
    (lg : Log) (mode : Mode) (emode : Channel.Mode) (d : Defaults) (other : ℕ) (heap : ℕ → Channel)
    (parts : Parts)
    → enabled lg.level log_fatal ≡ true
    → make lg mode emode (record { defaults = d; loop_in_this_thread = some other }) heap parts
      ≡ died
unfolding make
make_twice lg mode emode d other heap parts on = rw on refl
