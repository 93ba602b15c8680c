-- ===== src/Connector/Stopping.antt =====
-- The end of an attempt of twnl/Connector.cc, with and without a `stop` before it.
use twnl.Base.{ℕ, suc, ◌≡◌, refl, true, false, none, some, List, ◌∷◌}
use twnl.Channel
use twnl.Channel.{Defaults, Channel, disable_all, enable_writing}
use twnl.Connector.{
  Connector, Effect, opened, closed, handed, updated_channel, removed_channel, queued_reset,
  cancelled, Dial, connecting, connected, disconnected, in_progress, log, start, start_connecting,
  connect_to, stop, destroy, cancel_retry, is_waiting, drop_timer, handle_write,
}

-- After the removal of the channel `ch` from its loop, with `resetChannel` queued.
abbrev removed : Defaults → Channel → Connector → Connector
removed d ch c = record c {
  channel = some (disable_all d ch);
  resets = suc c.resets;
  trace =
      queued_reset
      ∷ removed_channel ch.fd
      ∷ updated_channel ch.fd (disable_all d ch).events
      ∷ c.trace;
}

-- A connector whose attempt the kernel accepts at once or takes on: `start` in the loop's thread, then
-- a write event without SO_ERROR on a socket that is not connected to itself. For a connector that is
-- disconnected and has no channel, neither fails, and the new socket is handed to the callback.
pub start-handle_write :
    (d : Defaults) (a : Dial) (timer : ℕ) (c : Connector)
    → c.state ≡ disconnected
    → c.channel ≡ none
    → in_progress a.errno ≡ true
    → (c₁ c₂ : Connector) × (start d true a c ≡ some c₁)
      × (c₁.state ≡ connecting)
      × (handle_write d 0 false timer c₁ ≡ some c₂)
      × (c₂.state ≡ connected)
      × ((es : List Effect) × (c₂.trace ≡ handed a.sockfd ∷ es))
unfolding start connect_to start_connecting handle_write enable_writing disable_all
start-handle_write d a timer c idle fresh taken =
    let ch : Channel = enable_writing d (Channel.new a.sockfd) in
    let c₁ : Connector = record c {
      connect = true;
      state = connecting;
      channel = some ch;
      trace = updated_channel a.sockfd ch.events ∷ opened a.sockfd ∷ c.trace;
    } in
    let c₂ : Connector = log (handed a.sockfd) (record (removed d ch c₁) { state = connected }) in
    (c₁, c₂, rw (start, idle, taken, fresh) refl, refl, refl, refl, ((removed d ch c₁).trace, refl))

-- A connector that is stopped while connecting, with the timer of its last retry still waiting (else
-- `stop` uses a pointer that has no value or is deleted): when the attempt then succeeds, its socket is closed, but the connector counts as connected, and
-- `start` in the loop's thread fails an assertion whatever the kernel answers.
pub stop_connecting_stuck :
    (d : Defaults) (timer t : ℕ) (ch : Channel) (c : Connector)
    → c.state ≡ connecting
    → c.channel ≡ some ch
    → c.timer ≡ some t
    → is_waiting t c.waiting ≡ true
    → (c₁ c₂ : Connector) × (stop c ≡ some c₁)
      × (handle_write d 0 false timer c₁ ≡ some c₂)
      × (c₂.state ≡ connected)
      × ((es : List Effect) × (c₂.trace ≡ closed ch.fd ∷ es))
      × ((a : Dial) → start d true a c₂ ≡ none)
unfolding start stop cancel_retry handle_write disable_all
stop_connecting_stuck d timer t ch c busy set armed alive =
    let c₁ : Connector =
      log (cancelled t) (record c { connect = false; waiting = drop_timer t c.waiting }) in
    let c₂ : Connector = log (closed ch.fd) (record (removed d ch c₁) { state = connected }) in
    (
      c₁,
      c₂,
      rw (armed, alive) refl,
      rw (busy, set) refl,
      refl,
      ((removed d ch c₁).trace, refl),
      λ a. refl,
    )

-- A connector whose last retry's timer has run or was cancelled can be neither stopped nor destroyed: both
-- give the loop a pointer to a deleted timer.
pub stop-rung :
    (t : ℕ) (c : Connector)
    → c.timer ≡ some t
    → is_waiting t c.waiting ≡ false
    → (stop c ≡ none) × (destroy c ≡ none)
unfolding stop destroy cancel_retry
stop-rung t c e gone = (rw (e, gone) refl, rw (e, gone) refl)
