-- ===== src/PollPoller/Tests.antt =====
-- A poller with two channels.
use twnl.Base.{ℕ, true, List, ◌∷◌, ◌+◌, ◌≡◌, refl, none, some, [], put}
use twnl.Channel.{Events, no_events, new, lt, init_default_event}
use twnl.PollPoller.{Poller, IsValid, update_channel, remove_channel}
use twnl.PollPoller.Adding.{added, added-IsValid}
use twnl.PollPoller.Polling.{came, answered, poll, AllTold, Absent}
use twnl.PollPoller.Polled.{poll_active}
use twnl.PollPoller.Removal.{update-remove_channel}

abbrev empty : Poller
empty = record { channels = λ _. none; pollfds = []; heap = λ ptr. new (ptr + 5) }

empty-IsValid : IsValid empty
empty-IsValid = record { registered = λ fd ptr e. absurd (cc); owned = λ i e h. absurd (cc) }

abbrev two : Poller
two = added 1 (added 0 empty)

two-IsValid : IsValid two
two-IsValid = added-IsValid 1 (added 0 empty) (added-IsValid 0 empty empty-IsValid refl) refl

update-remove_channel_example :
    (p₁ p₂ : Poller) × (update_channel (init_default_event lt) 0 two ≡ some p₁)
    × (remove_channel (init_default_event lt) 0 p₁ ≡ some p₂)
    × (p₂.channels ≡ put two.channels 5 none)
    × IsValid p₂
update-remove_channel_example = update-remove_channel lt 0 two-IsValid refl refl

abbrev readable : Events
readable = record no_events { readable = true }

abbrev revents : List Events
revents = no_events ∷ readable ∷ []

poll_active_example :
    (p' : Poller) × (poll (came 1 revents) two ≡ some (1 ∷ [], p'))
    × AllTold two p' (answered revents two.pollfds)
    × ((ptr : ℕ) → Absent ptr (1 ∷ []) → p'.heap ptr ≡ two.heap ptr)
    × IsValid p'
poll_active_example = poll_active revents two two-IsValid ((λ awake. refl), ((λ awake. refl), tt))
