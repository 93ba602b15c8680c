-- ===== src/Acceptor/Tests.antt =====
-- The acceptor of twnl/Acceptor.cc on concrete answers of the kernel.
use twnl.Base.{◌+◌, ◌≡◌, true, some, List, [], ◌∷◌}
use twnl.Channel.{zeroed}
use twnl.Logging.{info}
use twnl.Sockets.{Log, gave, failed, zero_addr}
use twnl.Acceptor.{Acceptor, Event, made, serve}
use twnl.Acceptor.Books.{given, gone, held, IfAlive, descriptors_balanced}

abbrev quiet_log : Log
quiet_log = record { level = info; disturb = λ e. e }

-- A connection, and one for which no descriptor is left.
abbrev events : List Event
events =
    record {
      callback = true;
      answer = gave 9;
      peer = zero_addr;
      accepts = failed 11;
      opens = failed 24;
    }
    ∷ record {
      callback = true;
      answer = failed 24;
      peer = zero_addr;
      accepts = gave 5;
      opens = gave 5;
    }
    ∷ []

descriptors_balanced_example :
    IfAlive
      (λ a. given 5 a.trace ≡ gone 5 a.trace + held 5 a)
      (serve zeroed quiet_log 3 (gave 0) (gave 5) (gave 0) events)
descriptors_balanced_example =
    descriptors_balanced 5 zeroed quiet_log 3 (gave 0) (gave 5) (gave 0) events

abbrev idling : Acceptor
idling = record (made 3) { idle_fd = some 5 }
