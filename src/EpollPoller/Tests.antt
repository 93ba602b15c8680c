-- ===== src/EpollPoller/Tests.antt =====
-- A poller with one watched channel.
use twnl.Base.{List, ◌<◌, ℕ, zero, suc, ◌≡◌, refl, false, inl, arith, none, some, [], ◌∷◌}
use twnl.Channel.{new, set_index, no_events, lt, init_default_event}
use twnl.EpollPoller.{EpollPoller, ctl_add, k_added, update_channel}
use twnl.EpollPoller.Polling.{Ready, came, Polled, poll, AllTold, poll_lem}
use twnl.EpollPoller.Interest.{Agrees, watched, Accepted, IsValid, update_channel-IsValid}

abbrev one : EpollPoller
one = record {
  channels = λ fd. elim fd [ zero ↦ some 0 | suc n ↦ none ];
  heap = λ ptr. set_index k_added (new ptr);
  calls = ctl_add 0 no_events ∷ [];
}

one-IsValid : IsValid one
unfolding watched Accepted
one-IsValid = record { accepted = (refl, tt); agrees = agrees; unwatched = unwatched }
  where
    agrees : (fd ptr : ℕ) → one.channels fd ≡ some ptr → Agrees one fd ptr
    agrees zero zero h = (refl, inl (refl, refl))
    agrees zero (suc k) h = absurd (cc)
    agrees (suc n) ptr h = absurd (cc)

    unwatched : (fd : ℕ) → one.channels fd ≡ none → watched one.calls fd ≡ false
    unwatched zero h = absurd (cc)
    unwatched (suc n) h = ground arith

update_channel-IsValid_example :
    (p' : EpollPoller) × (update_channel (init_default_event lt) 0 one ≡ some p')
    × (p'.channels ≡ one.channels)
    × IsValid p'
update_channel-IsValid_example =
    update_channel-IsValid (init_default_event lt) 0 one one-IsValid refl

-- Two channels are ready, as many as the array holds.
abbrev pair : List Ready
pair = record { ptr = 4; events = no_events } ∷ record { ptr = 7; events = no_events } ∷ []

abbrev full : Polled
full = record { size = 2; heap = λ ptr. new ptr; active = [] }

poll_lem_example :
    (p' : Polled) × (poll (came pair) full ≡ some p')
    × (p'.active ≡ 4 ∷ 7 ∷ [])
    × AllTold full.heap p'.heap pair
    × (p'.heap 5 ≡ full.heap 5)
    × (2 < p'.size)
poll_lem_example =
    poll_lem pair full 5 ((ground arith, tt), (tt, tt)) (ground arith, (ground arith, tt))
      (omega arith) (omega arith)
