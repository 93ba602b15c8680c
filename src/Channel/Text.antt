-- ===== src/Channel/Text.antt =====
-- `eventsToString` of twnl/Channel.cc.
use twnl.Base.{ℕ, Bool, true, false, List, [], ◌∷◌, ◌++◌}
use twnl.Channel.{Events, Channel}
use twnl.LogStream.Decimal.{decimal}

abbrev named : Bool → List ℕ → List ℕ
named true name = name ++ b' ' ∷ []
named false name = []

unfoldable pub events_to_string : ℕ → Events → List ℕ
unfolding decimal
events_to_string fd ev =
    decimal fd
    ++ b':'
      ∷ b' '
      ∷ (named ev.readable (b'I' ∷ b'N' ∷ [])
          ++ named ev.urgent (b'P' ∷ b'R' ∷ b'I' ∷ [])
          ++ named ev.writable (b'O' ∷ b'U' ∷ b'T' ∷ [])
          ++ named ev.hup (b'H' ∷ b'U' ∷ b'P' ∷ [])
          ++ named ev.rdhup (b'R' ∷ b'D' ∷ b'H' ∷ b'U' ∷ b'P' ∷ [])
          ++ named ev.error (b'E' ∷ b'R' ∷ b'R' ∷ []))

-- `reventsToString` and the function without arguments.
abbrev pub channel_events : Channel → List ℕ
channel_events c = events_to_string c.fd c.events

abbrev pub channel_revents : Channel → List ℕ
channel_revents c = events_to_string c.fd c.revents
