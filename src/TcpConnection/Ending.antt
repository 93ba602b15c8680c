-- ===== src/TcpConnection/Ending.antt =====
-- How a connection ends in level-triggered mode: what each call does to its state, to the close callback
-- and to its interest in events.
use twnl.Base.{
  ℕ, suc, zero, ◌≡◌, refl, inl, inr, Bool, true, false, not, ◌&&◌, ◌||◌, Bool-cases, Option, List,
  [], ◌∷◌, arith, pos, negsuc, take, drop, leb, ltb, sub_size, length, sym, ap, ◌∙◌, ◌==◌, Ensures,
  returned, Ensures-bind, Ensures-if, Ensures-check,
}
use twnl.Buffer.{readable_bytes, append}
use twnl.Buffer.Io.{Io, Writing, wrote, write_failed}
use twnl.Channel.{
  Channel, is_none_event, is_writing, init_default_event, enable_writing, disable_writing,
  disable_all,
}
use twnl.TcpConnection.{
  State, Conn, Effect, Task, disconnected, is_connecting, is_connected, is_disconnected,
  is_disconnecting, close_callback, connection_callback, message_callback, write_complete_callback,
  high_water_callback, wrote_socket, shutdown_write, queued, updated_channel, removed_channel, log,
  log_if, output_drained, keep_remaining, note_high_water, start_writing, send_rest, send_now,
  send_in_loop, handle_close, shutdown_in_loop, read_result, write_result, write_complete_task,
}
use twnl.TcpConnection.Sending.{level}
use twnl.TcpConnection.Closing.{quieted}

-- How often the close callback has run.
abbrev pub close_calls : List Effect → ℕ
close_calls [] = 0
close_calls (close_callback ∷ es) = suc (close_calls es)
close_calls (connection_callback _ ∷ es) = close_calls es
close_calls (message_callback _ ∷ es) = close_calls es
close_calls (write_complete_callback ∷ es) = close_calls es
close_calls (high_water_callback _ ∷ es) = close_calls es
close_calls (wrote_socket _ ∷ es) = close_calls es
close_calls (shutdown_write ∷ es) = close_calls es
close_calls (queued _ ∷ es) = close_calls es
close_calls (updated_channel _ ∷ es) = close_calls es
close_calls (removed_channel ∷ es) = close_calls es

-- How often it is to run up to a state.
abbrev pub closings : State → ℕ
closings disconnected = 1
closings _ = 0

-- A connection that is down waits for no event, and its close callback has run as its state says.
pub record IsEnding (up : Bool) (c : Conn) : Type 0 where
  pub started : is_connecting c.state ≡ false
  pub called : close_calls c.trace ≡ closings c.state
  pub quiet : is_disconnected c.state ≡ true → is_none_event level c.channel ≡ true
  pub stays_down : up ≡ false → is_disconnected c.state ≡ true

-- A step that leaves the state and the close callback alone, and wakes no quiet channel.
pub same-IsEnding :
    {up : Bool} {c c' : Conn}
    → IsEnding up c
    → c'.state ≡ c.state
    → close_calls c'.trace ≡ close_calls c.trace
    → (is_none_event level c.channel ≡ true → is_none_event level c'.channel ≡ true)
    → IsEnding up c'
same-IsEnding {c = c} v state calls quiet = record {
  started = ap is_connecting state ∙ v.started;
  called = calls ∙ v.called ∙ ap closings (sym state);
  quiet = λ down. quiet (v.quiet (sym (ap is_disconnected state) ∙ down));
  stays_down = λ down. ap is_disconnected state ∙ v.stays_down down;
}

pub shutdown_in_loop_same :
    (c : Conn)
    → let c' = shutdown_in_loop level c in
      (c'.state ≡ c.state) × (close_calls c'.trace ≡ close_calls c.trace) × (c'.channel ≡ c.channel)
unfolding shutdown_in_loop
shutdown_in_loop_same c = elim (Bool-cases (is_writing level c.channel)) [
  | inl on ↦ rw on (refl, refl, refl)
  | inr off ↦ rw off (refl, refl, refl)
]

quieted_ending :
    (c : Conn)
    → ((quieted c).state ≡ c.state)
      × (close_calls (quieted c).trace ≡ close_calls c.trace)
      × ((quieted c).channel ≡ disable_writing level c.channel)
quieted_ending c = elim (Bool-cases c.has_write_complete) [
  | inl e ↦ rw e (refl, refl, refl)
  | inr e ↦ rw e (refl, refl, refl)
]

output_drained_same :
    (c : Conn)
    → let c' = output_drained level c in
      (c'.state ≡ c.state)
      × (close_calls c'.trace ≡ close_calls c.trace)
      × (c'.channel ≡ disable_writing level c.channel)
output_drained_same c = elim (Bool-cases (is_disconnecting (quieted c).state)) [
  | inl down ↦
      let (state, calls, channel) = quieted_ending c in
      let (state', calls', channel') = shutdown_in_loop_same (quieted c) in
      rw down (state' ∙ state, calls' ∙ calls, channel' ∙ channel)
  | inr alive ↦ rw alive (quieted_ending c)
]

disable_writing_quiet :
    (c : Channel)
    → is_none_event level c ≡ true
    → is_none_event level (disable_writing level c) ≡ true
unfolding disable_writing init_default_event
disable_writing_quiet c quiet = ground (arith, quiet)

module _ (up : Bool) where
  abbrev pub Keeps : Option Conn → Type 0
  Keeps = Ensures (IsEnding up)

  log_if-IsEnding :
      (b : Bool) (t : Task) {c : Conn} → IsEnding up c → IsEnding up (log_if b (queued t) c)
  log_if-IsEnding true t v = same-IsEnding v refl refl (λ q. q)
  log_if-IsEnding false t v = v

  pub handle_close-IsEnding : {c : Conn} → IsEnding up c → Keeps (handle_close level c)
  unfolding handle_close disable_all init_default_event
  handle_close-IsEnding {c} v =
      Ensures-check (IsEnding up) (is_connected c.state || is_disconnecting c.state) _
        λ alive. returned (ground (arith, v.called))

  keep_remaining-IsEnding :
      (rest : List ℕ) {c : Conn}
      → IsEnding up c
      → is_disconnected c.state ≡ false
      → Keeps (keep_remaining level rest c)
  unfolding keep_remaining note_high_water start_writing enable_writing init_default_event
  keep_remaining-IsEnding rest {c} v alive =
      Ensures-bind (IsEnding up) (append rest _) _
        λ out. returned (ground (arith, v.called, v.started, v.stays_down, alive))

  send_rest-IsEnding :
      (bytes : List ℕ) (nwrote : ℕ) (fault : Bool) {c : Conn}
      → IsEnding up c
      → is_disconnected c.state ≡ false
      → Keeps (send_rest level bytes nwrote fault c)
  unfolding send_rest
  send_rest-IsEnding bytes nwrote fault v alive =
      Ensures-check (IsEnding up) (leb (sub_size (length bytes) nwrote) (length bytes)) _ λ _.
        Ensures-if (IsEnding up) (not fault && ltb 0 (sub_size (length bytes) nwrote)) _ _
          (keep_remaining-IsEnding (drop nwrote bytes) v alive) (returned v)

  log_if_state : (b : Bool) (t : Task) (c : Conn) → (log_if b (queued t) c).state ≡ c.state
  log_if_state true t c = refl
  log_if_state false t c = refl

  pub wrote-IsEnding :
      (bytes : List ℕ) {c : Conn} → IsEnding up c → IsEnding up (log (wrote_socket bytes) c)
  wrote-IsEnding bytes v = same-IsEnding v refl refl (λ q. q)

  send_now-IsEnding :
      (answer : Writing) (bytes : List ℕ) {c : Conn}
      → IsEnding up c
      → is_disconnected c.state ≡ false
      → Keeps (send_now level answer bytes c)
  send_now-IsEnding (wrote n) bytes {c} v alive =
      let c1 = log (wrote_socket (take n bytes)) c in
      let all = (sub_size (length bytes) n == 0) && c1.has_write_complete in
      send_rest-IsEnding bytes n false
        (log_if-IsEnding all write_complete_task (wrote-IsEnding (take n bytes) v))
        (ap is_disconnected (log_if_state all write_complete_task c1) ∙ alive)
  send_now-IsEnding (write_failed e) bytes v alive = send_rest-IsEnding bytes 0 _ v alive

  pub send_in_loop-IsEnding :
      (answer : Writing) (bytes : List ℕ) {c : Conn}
      → IsEnding up c
      → Keeps (send_in_loop level answer bytes c)
  unfolding send_in_loop
  send_in_loop-IsEnding answer bytes {c} v = elim (Bool-cases (is_disconnected c.state)) [
    | inl down ↦ rw down (returned v)
    | inr alive ↦
        rw alive
          (Ensures-if (IsEnding up) _ _ _ (send_now-IsEnding answer bytes v alive) (returned v))
  ]

  pub read_result-IsEnding : (r : Io) {c : Conn} → IsEnding up c → Keeps (read_result level c r)
  unfolding read_result
  read_result-IsEnding (b, pos zero, s) v =
      handle_close-IsEnding (same-IsEnding v refl refl (λ q. q))
  read_result-IsEnding (b, pos (suc n), s) v = returned (same-IsEnding v refl refl (λ q. q))
  read_result-IsEnding (b, negsuc n, s) v = returned (same-IsEnding v refl refl (λ q. q))

  pub write_result-IsEnding :
      (r : Io) {c : Conn} → IsEnding up c → IsEnding up (write_result level c r)
  unfolding write_result
  write_result-IsEnding (b, pos zero, s) v = same-IsEnding v refl refl (λ q. q)
  write_result-IsEnding (b, pos (suc n), s) {c} v =
      let c1 : Conn = record c { output_buffer = b } in
      elim (Bool-cases (readable_bytes b == 0)) [
        | inl drained ↦
            let (state, calls, channel) = output_drained_same c1 in
            rw drained (
              same-IsEnding v state calls
                λ q. ap (is_none_event level) channel ∙ disable_writing_quiet c.channel q)
        | inr some_left ↦ rw some_left (same-IsEnding v refl refl (λ q. q))
      ]
  write_result-IsEnding (b, negsuc n, s) v = same-IsEnding v refl refl (λ q. q)
