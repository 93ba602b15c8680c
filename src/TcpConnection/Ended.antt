-- ===== src/TcpConnection/Ended.antt =====
-- How each call of a connection keeps its ending in order, in level-triggered mode.
use twnl.Base.{
  ◌≡◌, refl, inl, inr, Bool, true, false, not, ◌||◌, Bool-cases, none, some, arith, ap, ◌∙◌,
  Ensures, faulted, returned, Ensures-bind, Ensures-if, Ensures-some, Option-cases,
}
use twnl.Buffer.{Buffer, contents}
use twnl.Buffer.Io.{Writing, wrote}
use twnl.Channel
use twnl.Channel.{
  Channel, no_events, is_none_event, is_writing, is_reading, init_default_event, enable_reading,
  disable_reading, enable_writing, disable_writing, disable_all,
}
use twnl.Channel.Edge.{level_interests}
use twnl.TcpConnection.{
  Conn, Task, disconnected, disconnecting, is_connected, is_disconnected, is_disconnecting,
  connect_destroyed, switch, sent, send_in_loop, force_close_in_loop, start_read_in_loop,
  stop_read_in_loop, read_input, write_output, handle_read, handle_write, shutdown_task,
  force_close_task, start_read_task, stop_read_task, write_complete_task, high_water_task,
  send_task,
}
use twnl.TcpConnection.Calls.{
  Call, establishes, destroys, closes, sends, sends_buffer, shuts_down, forces_close, starts_read,
  stops_read, runs, reads, writes, run_task, run_in_loop, send, send_buffer, shutdown, force_close,
  start_read, stop_read, step,
}
use twnl.TcpConnection.Sending.{level}
use twnl.TcpConnection.Ending.{
  same-IsEnding, shutdown_in_loop_same, handle_close-IsEnding, send_in_loop-IsEnding,
  read_result-IsEnding, write_result-IsEnding, wrote-IsEnding, IsEnding,
}

disable_reading_quiet :
    (c : Channel)
    → is_none_event level c ≡ true
    → is_none_event level (disable_reading level c) ≡ true
unfolding disable_reading init_default_event
disable_reading_quiet c quiet = ground (arith, quiet)

-- A call of the user or an event, other than `startRead` on a connection that is down. That a connection
-- is established and destroyed is the owner's work.
abbrev pub TaskAllowed : Task → Bool → Type 0
TaskAllowed start_read_task alive = alive ≡ true
TaskAllowed t alive = Unit {0}

abbrev pub Allowed : Call → Bool → Type 0
Allowed establishes alive = ⊥
Allowed destroys alive = ⊥
Allowed (starts_read here) alive = alive ≡ true
Allowed (runs answer t) alive = TaskAllowed t alive
Allowed k alive = Unit {0}

module _ (up : Bool) where
  start_read_in_loop-IsEnding :
      {c : Conn}
      → IsEnding up c
      → not (is_disconnected c.state) ≡ true
      → IsEnding up (start_read_in_loop level c)
  unfolding start_read_in_loop enable_reading init_default_event
  start_read_in_loop-IsEnding {c} v alive =
      elim (Bool-cases (not c.reading || not (is_reading level c.channel))) [
        | inl off ↦ rw off (record {
          started = v.started;
          called = v.called;
          quiet = λ down. absurd (ground (arith, alive, down));
          stays_down = v.stays_down;
        })
        | inr on ↦ rw on v
      ]

  stop_read_in_loop-IsEnding : {c : Conn} → IsEnding up c → IsEnding up (stop_read_in_loop level c)
  unfolding stop_read_in_loop
  stop_read_in_loop-IsEnding {c} v = elim (Bool-cases (c.reading || is_reading level c.channel)) [
    | inl on ↦ rw on (same-IsEnding v refl refl (disable_reading_quiet c.channel))
    | inr off ↦ rw off v
  ]

  run_task-IsEnding :
      (answer : Writing) (t : Task) {c : Conn}
      → IsEnding up c
      → TaskAllowed t (not (is_disconnected c.state))
      → Ensures (IsEnding up) (run_task level answer t c)
  unfolding run_task force_close_in_loop
  run_task-IsEnding answer shutdown_task {c} v allowed =
      let (state, calls, channel) = shutdown_in_loop_same c in
      returned (same-IsEnding v state calls λ q. ap (is_none_event level) channel ∙ q)
  run_task-IsEnding answer force_close_task v allowed =
      Ensures-if (IsEnding up) _ _ _ (handle_close-IsEnding up v) (returned v)
  run_task-IsEnding answer start_read_task v allowed =
      returned (start_read_in_loop-IsEnding v allowed)
  run_task-IsEnding answer stop_read_task v allowed = returned (stop_read_in_loop-IsEnding v)
  run_task-IsEnding answer write_complete_task v allowed =
      returned (same-IsEnding v refl refl (λ q. q))
  run_task-IsEnding answer (send_task bytes) v allowed = send_in_loop-IsEnding up answer bytes v
  run_task-IsEnding answer (high_water_task n) v allowed =
      returned (same-IsEnding v refl refl (λ q. q))

  run_in_loop-IsEnding :
      (here : Bool) (answer : Writing) (t : Task) {c : Conn}
      → IsEnding up c
      → TaskAllowed t (not (is_disconnected c.state))
      → Ensures (IsEnding up) (run_in_loop here level answer t c)
  run_in_loop-IsEnding true answer t v allowed = run_task-IsEnding answer t v allowed
  run_in_loop-IsEnding false answer t v allowed = returned (same-IsEnding v refl refl (λ q. q))

  -- `shutdown` and `forceClose` leave a connection that is not down not down.
  disconnecting-IsEnding :
      {c : Conn}
      → IsEnding up c
      → is_disconnected c.state ≡ false
      → IsEnding up (record c { state = disconnecting })
  disconnecting-IsEnding {c} v alive = record {
    started = refl;
    called = v.called ∙ ground (arith, alive);
    quiet = λ down. absurd (cc (down));
    stays_down = λ down. absurd (cc (v.stays_down down, alive));
  }

  shutdown-IsEnding :
      (here : Bool) {c : Conn} → IsEnding up c → Ensures (IsEnding up) (shutdown here level c)
  unfolding shutdown
  shutdown-IsEnding here {c} v = elim (Bool-cases (is_connected c.state)) [
    | inl on ↦ rw on (
        run_in_loop-IsEnding here (wrote 0) shutdown_task
          (disconnecting-IsEnding v (ground (arith, on))) tt)
    | inr off ↦ rw off (returned v)
  ]

  force_close-IsEnding : {c : Conn} → IsEnding up c → IsEnding up (force_close c)
  unfolding force_close
  force_close-IsEnding {c} v =
      elim (Bool-cases (is_connected c.state || is_disconnecting c.state)) [
        | inl alive ↦
            rw alive
              (same-IsEnding (disconnecting-IsEnding v (ground (arith, alive))) refl refl (λ q. q))
        | inr down ↦ rw down v
      ]

  send_buffer-IsEnding :
      (answer : Writing) (message : Buffer) {c : Conn}
      → IsEnding up c
      → Ensures (IsEnding up) (step level (sends_buffer answer message) c)
  unfolding step send_buffer
  send_buffer-IsEnding answer message {c} v =
      elim (Option-cases (send_in_loop level answer (contents message) c)) [
        | inl e ↦ rw e faulted
        | inr (c', e) ↦ rw e (
            returned
              (Ensures-some (IsEnding up) (send_in_loop-IsEnding up answer (contents message) v) e))
      ]

  pub step-IsEnding :
      (k : Call) {c : Conn}
      → IsEnding up c
      → Allowed k (not (is_disconnected c.state))
      → Ensures (IsEnding up) (step level k c)
  unfolding step send start_read stop_read handle_read handle_write
  step-IsEnding establishes v allowed = absurd allowed
  step-IsEnding destroys v allowed = absurd allowed
  step-IsEnding closes v allowed = handle_close-IsEnding up v
  step-IsEnding (sends here answer bytes) v allowed =
      Ensures-if (IsEnding up) _ _ _ (run_in_loop-IsEnding here answer (send_task bytes) v tt)
        (returned v)
  step-IsEnding (sends_buffer answer message) v allowed = send_buffer-IsEnding answer message v
  step-IsEnding (shuts_down here) v allowed = shutdown-IsEnding here v
  step-IsEnding forces_close v allowed = returned (force_close-IsEnding v)
  step-IsEnding (starts_read here) v allowed =
      run_in_loop-IsEnding here (wrote 0) start_read_task v allowed
  step-IsEnding (stops_read here) v allowed =
      run_in_loop-IsEnding here (wrote 0) stop_read_task v tt
  step-IsEnding (runs answer t) v allowed = run_task-IsEnding answer t v allowed
  step-IsEnding (reads answers) {c} v allowed =
      Ensures-bind (IsEnding up) (read_input level answers c.input_buffer) _
        λ r. read_result-IsEnding up r v
  step-IsEnding (writes answers) {c} v allowed =
      Ensures-if (IsEnding up) _ _ _
        (Ensures-bind (IsEnding up) (write_output level answers c.output_buffer) _ λ r.
          returned (write_result-IsEnding up r (wrote-IsEnding up (sent c.output_buffer r.0) v)))
        (returned v)

-- In level-triggered mode, for a connection that is down and whose channel waits for no event: the functor
-- of `startRead` makes the channel wait for reading again, and `connectDestroyed` then fails an assertion.
pub start_read-connect_destroyed :
    (answer : Writing) (c : Conn)
    → c.state ≡ disconnected
    → c.channel.events ≡ no_events
    → (c' : Conn) × (run_task level answer start_read_task c ≡ some c')
      × (is_reading level c'.channel ≡ true)
      × (connect_destroyed level c' ≡ none)
unfolding run_task start_read_in_loop connect_destroyed Channel.remove enable_reading
    init_default_event
start_read-connect_destroyed answer c down quiet =
    let off : is_reading level c.channel ≡ false = ground (arith, quiet) in
    let wakes : (not c.reading || not (is_reading level c.channel)) ≡ true = ground (arith, off) in
    let c1 : Conn = record (switch enable_reading level c) { reading = true } in
    let on : is_reading level c1.channel ≡ true = (level_interests c.channel).0 in
    let waits : is_none_event level c1.channel ≡ false = ground (arith, on) in
    let closed : is_connected c1.state ≡ false = ground (arith, down) in
    (c1, rw wakes refl, on, rw (closed, waits) refl)
