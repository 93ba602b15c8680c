-- ===== src/Channel/Tests.antt =====
-- The channel at concrete masks.
use twnl.Base.{◌≡◌, refl, true, some, [], ◌∷◌}
use twnl.Channel.{no_events, handle_event}
use twnl.Channel.Dispatch.{recorders, close_called, write_called}
use twnl.Channel.Text.{events_to_string}
use twnl.LogStream.Decimal.{decimal}

-- A peer that hung up while the socket is writable.
closes_first :
    handle_event recorders (record no_events { hup = true; writable = true }) []
    ≡ some (close_called ∷ write_called ∷ [])
unfolding handle_event
closes_first = refl

shown :
    events_to_string 7 (record no_events { hup = true; writable = true })
    ≡ b'7' ∷ b':' ∷ b' ' ∷ b'O' ∷ b'U' ∷ b'T' ∷ b' ' ∷ b'H' ∷ b'U' ∷ b'P' ∷ b' ' ∷ []
unfolding events_to_string decimal
shown = refl
