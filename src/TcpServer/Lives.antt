-- ===== src/TcpServer/Lives.antt =====
-- What the functors and the calls make of a connection of a server, in level-triggered mode.
use twnl.Base.{
  ℕ, ◌-◌, ◌≡◌, refl, sym, ap, ◌∙◌, Bool, true, false, not, ◌&&◌, some, arith, Ensures-some,
  if◌then◌else◌,
}
use twnl.Buffer.{Buffer}
use twnl.Channel
use twnl.Channel.{is_none, without, is_none_event, init_default_event, enable_reading}
use twnl.TcpConnection
use twnl.TcpConnection.{
  Conn, State, connecting, connected, disconnected, disconnecting, is_connecting, is_disconnected,
  connect_established, connect_destroyed, removed_channel, connection_callback, log, switch,
  is_connected,
}
use twnl.TcpConnection.Calls.{Call}
use twnl.TcpConnection.Calls
use twnl.TcpConnection.Ending.{close_calls, closings, IsEnding}
use twnl.TcpConnection.Ended.{Allowed, step-IsEnding}
use twnl.TcpConnection.Lifecycle.{
  Notified, connect_established-Notified, connect_destroyed-Notified, step-Notified,
}
use twnl.TcpConnection.Sending.{level}

-- What a connection that was established is like, down or not.
pub record Ends (down : Bool) (c : Conn) : Type 0 where
  pub ending : IsEnding true c
  pub notified : Notified c
  pub state : is_disconnected c.state ≡ down

pub record IsFresh (c : Conn) : Type 0 where
  pub state : c.state ≡ connecting
  pub called : close_calls c.trace ≡ 0
  pub notified : Notified c

pub new-IsFresh :
    (sockfd : ℕ) (input output : Buffer) → IsFresh (TcpConnection.new sockfd input output)
unfolding TcpConnection.new
new-IsFresh sockfd input output = record {
  state = refl;
  called = refl;
  notified = record { seen = refl };
}

connect_established-connecting :
    (c : Conn)
    → c.state ≡ connecting
    → (c' : Conn) × (connect_established level c ≡ some c')
      × (c'.state ≡ connected)
      × (close_calls c'.trace ≡ close_calls c.trace)
unfolding connect_established
connect_established-connecting c state = (
  log (connection_callback connected)
      (switch enable_reading level (record c { state = connected })),
  rw state refl,
  refl,
  refl,
)

pub established-Ends :
    {c : Conn} → IsFresh c → (c' : Conn) × (connect_established level c ≡ some c') × Ends false c'
established-Ends {c} f =
    let (c', e, state, calls) = connect_established-connecting c f.state in
    (
      c',
      e,
      record {
        ending = record {
          started = ap is_connecting state;
          called = calls ∙ f.called ∙ ap closings (sym state);
          quiet = λ down. absurd (cc (down, state));
          stays_down = λ h. absurd (cc (h));
        };
        notified = Ensures-some Notified (connect_established-Notified level f.notified) e;
        state = ap is_disconnected state;
      },
    )

connect_destroyed-down :
    (c : Conn)
    → is_disconnected c.state ≡ true
    → is_none_event level c.channel ≡ true
    → (c' : Conn) × (connect_destroyed level c ≡ some c')
      × (c'.state ≡ c.state)
      × (close_calls c'.trace ≡ close_calls c.trace)
      × (c'.channel.events ≡ c.channel.events)
unfolding connect_destroyed Channel.remove
connect_destroyed-down c down quiet =
    let off : is_connected c.state ≡ false = ground (arith, down) in
    (
      log removed_channel (record c { channel = record c.channel { added_to_loop = false } }),
      rw (off, quiet) refl,
      refl,
      refl,
      refl,
    )

pub destroyed-Ends :
    {c : Conn} → Ends true c → (c' : Conn) × (connect_destroyed level c ≡ some c') × Ends true c'
destroyed-Ends {c} s =
    let (c', e, state, calls, events) = connect_destroyed-down c s.state (s.ending.quiet s.state) in
    (
      c',
      e,
      record {
        ending = record {
          started = ap is_connecting state ∙ s.ending.started;
          called = calls ∙ s.ending.called ∙ ap closings (sym state);
          quiet = λ down.
              ap (λ e. is_none (without e level.none_event) && is_none (without level.none_event e))
                events
              ∙ s.ending.quiet s.state;
          stays_down = λ h. absurd (cc (h));
        };
        notified = Ensures-some Notified (connect_destroyed-Notified level s.notified) e;
        state = ap is_disconnected state ∙ s.state;
      },
    )

-- What a call that succeeds makes of a connection, and how often the close callback runs in it.
pub called-Ends :
    (k : Call) (down : Bool) {c c' : Conn}
    → Ends down c
    → Allowed k (not (is_disconnected c.state))
    → Calls.step level k c ≡ some c'
    → (down' : Bool) × Ends down' c'
      × (down ≡ true → down' ≡ true)
      × (close_calls c'.trace - close_calls c.trace ≡ (if not down && down' then 1 else 0))
called-Ends k down {c} {c'} s allowed e =
    let v : IsEnding (not down) c = record {
      started = s.ending.started;
      called = s.ending.called;
      quiet = s.ending.quiet;
      stays_down = λ h. s.state ∙ ground (arith, h);
    } in
    let v' = Ensures-some (IsEnding (not down)) (step-IsEnding (not down) k v allowed) e in
    (
      is_disconnected c'.state,
      record {
        ending = record {
          started = v'.started;
          called = v'.called;
          quiet = v'.quiet;
          stays_down = λ h. absurd (cc (h));
        };
        notified = Ensures-some Notified (step-Notified level k s.notified) e;
        state = refl;
      },
      (λ h. v'.stays_down (ap not h)),
      ap (λ n. n - close_calls c.trace) v'.called
          ∙ ap (λ n. closings c'.state - n) s.ending.called
          ∙ closings_grow c.state c'.state down s.state (λ h. v'.stays_down (ap not h)),
    )
  where
    closings_grow :
        (from to : State) (down : Bool)
        → is_disconnected from ≡ down
        → (down ≡ true → is_disconnected to ≡ true)
        → closings to - closings from ≡ (if not down && is_disconnected to then 1 else 0)
    closings_grow from to down h stays = ground (arith, h, stays)
