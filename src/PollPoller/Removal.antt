-- ===== src/PollPoller/Removal.antt =====
-- `removeChannel` of twnl/Poller/PollPoller.cc.
use twnl.Base.{
  ℕ, ◌==◌, ◌≡◌, refl, sym, ap, ◌∙◌, ltb, pos, negsuc, true, none, some, arith, length, get_elem?,
  put, get_elem?-lt,
}
use twnl.Channel.{no_events, Mode, lt, et, init_default_event, Defaults, Channel, is_none_event}
use twnl.PollPoller.{
  PollFd, Poller, IsValid, short, same_events, update_channel, drop_pollfd, remove_channel,
}
use twnl.PollPoller.Changing.{entry_for, update_channel_known}
use twnl.PollPoller.Dropping.{forgotten, drop_pollfd-some}

-- The entry of a channel that waits for nothing.
abbrev idle_entry : Channel → PollFd
idle_entry c = record { fd = negsuc c.fd; events = short c.events; revents = no_events }

remove_channel-drop :
    (d : Defaults) (ptr slot : ℕ) (p : Poller)
    → p.channels (p.heap ptr).fd ≡ some ptr
    → (p.heap ptr).index ≡ pos slot
    → get_elem? p.pollfds slot ≡ some (idle_entry (p.heap ptr))
    → is_none_event d (p.heap ptr) ≡ true
    → same_events (short (p.heap ptr).events) (p.heap ptr).events ≡ true
    → remove_channel d ptr p
      ≡ drop_pollfd slot (idle_entry (p.heap ptr)) (forgotten p (idle_entry (p.heap ptr)))
unfolding remove_channel
remove_channel-drop d ptr slot p known indexed held idle same =
    let at : (p.heap ptr).fd == (p.heap ptr).fd ≡ true = ground arith in
    let below : ltb slot (length p.pollfds) ≡ true =
      ground (arith, get_elem?-lt p.pollfds slot held) in
    let self : ptr == ptr ≡ true = ground arith in
    rw (remove_channel, indexed, known, self, idle, below, held, at, same) refl

entry_for-idle :
    (d : Defaults) (c : Channel) → is_none_event d c ≡ true → entry_for d c ≡ idle_entry c
entry_for-idle d c e = rw e refl

is_none_event-no_events :
    (m : Mode) (c : Channel) → c.events ≡ no_events → is_none_event (init_default_event m) c ≡ true
unfolding init_default_event
is_none_event-no_events lt c e = rw e refl
is_none_event-no_events et c e = rw e refl

-- In a valid registry, for a registered channel whose events are none: `updateChannel` followed by
-- `removeChannel` fails no assertion, unregisters exactly that channel's descriptor, and keeps the
-- registry valid.
pub update-remove_channel :
    (m : Mode) (ptr : ℕ) {p : Poller}
    → IsValid p
    → p.channels (p.heap ptr).fd ≡ some ptr
    → (p.heap ptr).events ≡ no_events
    → (p₁ p₂ : Poller) × (update_channel (init_default_event m) ptr p ≡ some p₁)
      × (remove_channel (init_default_event m) ptr p₁ ≡ some p₂)
      × (p₂.channels ≡ put p.channels (p.heap ptr).fd none)
      × IsValid p₂
update-remove_channel m ptr {p} v known idle =
    let d = init_default_event m in
    let (slot, p₁, updated, indexed, held, ch, he, v₁) = update_channel_known d ptr v known in
    let same : p₁.heap ptr ≡ p.heap ptr = ap (λ h. h ptr) he in
    let known₁ : p₁.channels (p₁.heap ptr).fd ≡ some ptr = rw (same, ch) known in
    let idle₁ : (p₁.heap ptr).events ≡ no_events = ap (λ c. c.events) same ∙ idle in
    let none₁ = is_none_event-no_events m (p₁.heap ptr) idle₁ in
    let held₁ : get_elem? p₁.pollfds slot ≡ some (idle_entry (p₁.heap ptr)) =
      held
      ∙ ap some (entry_for-idle d (p.heap ptr) (is_none_event-no_events m (p.heap ptr) idle))
      ∙ ap (λ c. some (idle_entry c)) (sym same) in
    let (p₂, dropped, ch₂, v₂) = drop_pollfd-some p₁ slot (idle_entry (p₁.heap ptr)) v₁ held₁ in
    (
      p₁,
      p₂,
      updated,
      remove_channel-drop d ptr slot p₁ known₁ (ap (λ c. c.index) same ∙ indexed) held₁ none₁
            (rw idle₁ refl)
          ∙ dropped,
      ch₂ ∙ ap (λ f. put f (p₁.heap ptr).fd none) ch ∙ ap (λ c. put p.channels c.fd none) same,
      v₂,
    )
