-- ===== src/TcpConnection/Closing.antt =====
-- Draining the output buffer, shutting down and closing.
use twnl.Base.{
  ℕ, suc, zero, ◌-◌, ◌<◌, ◌≡◌, refl, ap, ◌∙◌, true, false, none, some, List, [], ◌∷◌, arith, pos,
  length, length-slice, drop_all, Bool-cases, inl, inr, if◌then◌else◌, ◌⊎◌,
}
use twnl.Buffer.{Buffer, IsValid, contents, readable_bytes}
use twnl.Buffer.Io.{Writing, wrote, write_fd, write_fd_et}
use twnl.Buffer.Transmit.{AllPositive, takings, sum, write_fd_lem, write_fd_et_drained}
use twnl.Channel
use twnl.Channel.Edge.{level_interests}
use twnl.Channel.{
  Defaults, Channel, et, lt, init_default_event, is_writing, is_none_event, disable_writing,
  disable_all,
}
use twnl.TcpConnection.{
  Conn, Effect, connected, disconnected, disconnecting, is_disconnecting, queued, shutdown_write,
  force_close_task, write_complete_task, close_callback, connection_callback, updated_channel,
  removed_channel, connect_destroyed, handle_close, force_close_in_loop, handle_write, write_result,
  write_output, shutdown_in_loop, note_sent, sent, wrote_socket, log, log_if, force_close_task,
  output_drained, switch,
}
use twnl.TcpConnection.Calls.{shutdown, force_close, run_task}
use twnl.TcpConnection.Sending.{level, edge}

contents-length : {b : Buffer} → IsValid b → length (contents b) ≡ b.writer_index - b.reader_index
contents-length {b} v = length-slice b.reader_index b.writer_index b.buffer v.inside

readable_of_contents : (b : Buffer) → IsValid b → contents b ≡ [] → readable_bytes b ≡ 0
readable_of_contents b v e = omega (arith, contents-length v, ap length e)

disable_writing_off : (c : Channel) → is_writing level (disable_writing level c) ≡ false
disable_writing_off c = (level_interests c).6

-- The connection before the last two steps of an emptied buffer.
abbrev pub quieted : Conn → Conn
quieted c =
    let c1 = switch disable_writing level c in
    log_if c1.has_write_complete (queued write_complete_task) c1

pub quieted_same :
    (c : Conn)
    → ((quieted c).output_buffer ≡ c.output_buffer)
      × ((quieted c).state ≡ c.state)
      × (is_writing level (quieted c).channel ≡ false)
quieted_same c = elim (Bool-cases c.has_write_complete) [
  | inl e ↦ rw e (refl, refl, disable_writing_off c.channel)
  | inr e ↦ rw e (refl, refl, disable_writing_off c.channel)
]

shutdown_in_loop_quiet :
    (d : Defaults) (c : Conn)
    → is_writing d c.channel ≡ false
    → shutdown_in_loop d c ≡ log shutdown_write c
unfolding shutdown_in_loop
shutdown_in_loop_quiet d c off = rw off

output_drained_lem :
    (c : Conn) → c.state ≡ disconnecting → output_drained level c ≡ log shutdown_write (quieted c)
output_drained_lem c down =
    let (_, state, off) = quieted_same c in
    ap (λ s. if is_disconnecting s then shutdown_in_loop level (quieted c) else quieted c)
      (state ∙ down)
    ∙ shutdown_in_loop_quiet level (quieted c) off

pub write_result_drained :
    (n : ℕ) (b : Buffer) (c : Conn)
    → 0 < n
    → readable_bytes b ≡ 0
    → write_result level c (b, pos n, 0) ≡ output_drained level (record c { output_buffer = b })
unfolding write_result
write_result_drained zero b c some_left empty = absurd (omega arith)
write_result_drained (suc n) b c some_left empty = rw empty

shutdown_pending :
    (c : Conn)
    → c.state ≡ connected
    → is_writing level c.channel ≡ true
    → shutdown true level c ≡ some (record c { state = disconnecting })
unfolding shutdown run_task shutdown_in_loop
shutdown_pending c up on = rw (up, on)

pub handle_write-level :
    (w : Writing) (c : Conn)
    → is_writing level c.channel ≡ true
    → let r = write_fd w c.output_buffer 0 in
      handle_write level (w ∷ []) c ≡ some (write_result level (note_sent r.0 c) r)
unfolding handle_write init_default_event
handle_write-level w c on = rw on

-- In level-triggered mode, for a connected connection whose channel is writing and whose valid
-- output buffer holds bytes: `shutdown` in the loop's thread only changes the state to
-- `disconnecting`. When the kernel then takes all the held bytes, `handleWrite` empties the
-- buffer, leaves the channel not writing, stays in the state `disconnecting`, and last shuts the
-- write side down.
pub shutdown_after_drain :
    (c : Conn)
    → c.state ≡ connected
    → is_writing level c.channel ≡ true
    → IsValid c.output_buffer
    → 0 < readable_bytes c.output_buffer
    → let c1 = record c { state = disconnecting } in
      (shutdown true level c ≡ some c1)
      × ((c2 : Conn) × (handle_write level (wrote (readable_bytes c.output_buffer) ∷ []) c1
            ≡ some c2)
          × (contents c2.output_buffer ≡ [])
          × (is_writing level c2.channel ≡ false)
          × (c2.state ≡ disconnecting)
          × ((rest : List Effect) × (c2.trace ≡ shutdown_write ∷ rest)))
shutdown_after_drain c up on v some_left =
    let n = readable_bytes c.output_buffer in
    let (b, e, rest, v') = write_fd_lem n 0 v (omega arith) in
    let empty : contents b ≡ [] =
      rest ∙ drop_all n (contents c.output_buffer) (omega (arith, contents-length v)) in
    let c1 : Conn = record c { state = disconnecting } in
    let c1' : Conn = note_sent b c1 in
    let c2 : Conn = quieted (record c1' { output_buffer = b }) in
    let (same, state, off) = quieted_same (record c1' { output_buffer = b }) in
    (
      shutdown_pending c up on,
      (
        log shutdown_write c2,
        handle_write-level (wrote n) c1 on
            ∙ ap (λ r. some (write_result level (note_sent r.0 c1) r)) e
            ∙ ap some (
                write_result_drained n b c1' some_left (readable_of_contents b v' empty)
                ∙ output_drained_lem (record c1' { output_buffer = b }) refl),
        ap contents same ∙ empty,
        off,
        state,
        (c2.trace, refl),
      ),
    )

-- For a connected or disconnecting connection whose default none mask is empty: `forceClose`
-- queues its functor; the functor switches all events off, runs `connectionCallback_` as
-- disconnected and then the close callback; a second functor changes nothing; and
-- `connectDestroyed` then succeeds and removes the channel.
pub force_close_sequence :
    (d : Defaults) (c : Conn)
    → (c.state ≡ connected) ⊎ (c.state ≡ disconnecting)
    → d.none_event ≡ Channel.no_events
    → let c1 = force_close c in
      (c1.trace ≡ queued force_close_task ∷ c.trace)
      × ((c2 : Conn) × (run_task d (wrote 0) force_close_task c1 ≡ some c2)
          × (c2.state ≡ disconnected)
          × (c2.trace
              ≡ close_callback
                ∷ connection_callback disconnected
                ∷ updated_channel Channel.no_events
                ∷ c1.trace)
          × (run_task d (wrote 0) force_close_task c2 ≡ some c2)
          × ((c3 : Conn) × (connect_destroyed d c2 ≡ some c3)
              × (c3.trace ≡ removed_channel ∷ c2.trace)))
unfolding force_close run_task connect_destroyed Channel.remove force_close_in_loop handle_close
    disable_all
force_close_sequence d c up quiet =
    (ground arith, (closed, ground arith, refl, ground arith, refl, (removed, ground arith, refl)))
  where
    closed : Conn
    closed = record c {
      state = disconnected;
      channel = disable_all d c.channel;
      trace =
          close_callback
          ∷ connection_callback disconnected
          ∷ updated_channel d.none_event
          ∷ queued force_close_task
          ∷ c.trace;
    }

    removed : Conn
    removed = record closed {
      channel = record closed.channel { added_to_loop = false };
      trace = removed_channel ∷ closed.trace;
    }

-- In the state `disconnecting`, if the channel still waits for some event, `connectDestroyed`
-- fails an assertion.
pub connect_destroyed_disconnecting :
    (d : Defaults) (c : Conn)
    → c.state ≡ disconnecting
    → is_none_event d c.channel ≡ false
    → connect_destroyed d c ≡ none
unfolding connect_destroyed Channel.remove
connect_destroyed_disconnecting d c down waits = rw down (rw waits)

write_output_edge :
    (ns : List ℕ) (w : Writing) (b : Buffer)
    → write_output edge (takings ns w) b ≡ write_fd_et (takings ns w) b 0 0
unfolding init_default_event
write_output_edge [] w b = refl
write_output_edge (n ∷ ns) w b = refl

-- In edge-triggered mode, if `handleWrite` finds the channel writing and sends all the held bytes
-- of a valid output buffer, at least one at a time, and then writes 0 bytes, it returns with the
-- output buffer empty, with channel and state as they were, and with no functor queued.
pub handle_write_edge_stuck :
    (ns : List ℕ) (c : Conn)
    → is_writing edge c.channel ≡ true
    → IsValid c.output_buffer
    → AllPositive ns
    → sum ns ≡ readable_bytes c.output_buffer
    → (c' : Conn) × (handle_write edge (takings ns (wrote 0)) c ≡ some c')
      × (contents c'.output_buffer ≡ [])
      × (c'.channel ≡ c.channel)
      × (c'.state ≡ c.state)
      × ((bytes : List ℕ) × (c'.trace ≡ wrote_socket bytes ∷ c.trace))
unfolding handle_write write_result
handle_write_edge_stuck ns c on v positive all =
    let (b, e, empty, v') = write_fd_et_drained ns 0 v positive all (omega arith) in
    (
      record (note_sent b c) { output_buffer = b },
      rw (on, write_output_edge ns (wrote 0) c.output_buffer, e) refl,
      empty,
      refl,
      refl,
      (sent c.output_buffer b, refl),
    )
