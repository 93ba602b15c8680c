-- ===== src/Connector/Tests.antt =====
-- A connector that is refused, stopped and connected.
use twnl.Base.{◌≡◌, refl, true, none, some, [], ◌∷◌}
use twnl.Channel
use twnl.Channel.{lt, init_default_event, enable_writing}
use twnl.Connector.{
  Connector, opened, ran_after, updated_channel, closed, start_in_loop, ring_op, ring, drop_timer,
  Dial, connecting, disconnected, new, start, made, stepped, start_op, Reaches,
}
use twnl.Connector.Books.{ledger}
use twnl.Connector.Sockets.{reached-ledger}
use twnl.Connector.Delay.{waits, pauses, attempts, Refused, Waiting, attempts-Waiting}

abbrev accepted : Dial
accepted = record { sockfd = 7; errno = 115; timer = 1 }

abbrev refused : Dial
refused = record { sockfd = 7; errno = 111; timer = 1 }

abbrev eager : Connector
eager = record {
  connect = true;
  state = disconnected;
  channel = none;
  retry_delay_ms = 50;
  timer = none;
  waiting = [];
  resets = 0;
  trace = [];
}

attempts-Waiting_example :
    (c' : Connector) × (attempts (init_default_event lt) (refused ∷ refused ∷ []) eager ≡ some c')
    × Waiting 2 c'
unfolding waits pauses Refused
attempts-Waiting_example =
    attempts-Waiting (init_default_event lt) (refused ∷ refused ∷ []) 0 eager
      (record { wanted = refl; idle = refl; next = refl; past = refl })
      (refl, refl, (refl, refl, tt))

-- After a refused attempt, the timer begins a second one.
abbrev second : Connector
second = record {
  connect = true;
  state = connecting;
  channel = some (enable_writing (init_default_event lt) (Channel.new 8));
  retry_delay_ms = 100;
  timer = some 1;
  waiting = [];
  resets = 0;
  trace =
      updated_channel 8 (enable_writing (init_default_event lt) (Channel.new 8)).events
      ∷ opened 8
      ∷ ran_after 50
      ∷ closed 7
      ∷ opened 7
      ∷ [];
}

second-Reaches : Reaches (init_default_event lt) second
unfolding new start start_in_loop ring drop_timer enable_writing
second-Reaches =
    stepped (ring_op 1 (record accepted { sockfd = 8 }))
      (stepped (start_op true refused) made tt refl) tt refl

reached-ledger_example : ledger second.trace ≡ some (some 8)
unfolding enable_writing
reached-ledger_example = reached-ledger second-Reaches
