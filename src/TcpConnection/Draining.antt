-- ===== src/TcpConnection/Draining.antt =====
-- `handleWrite` of a connected connection, in detail.
use twnl.Base.{
  ℕ, suc, zero, ◌-◌, ◌≤◌, ◌<◌, ◌≡◌, ◌≢◌, refl, sym, ap, ◌∙◌, true, some, [], ◌∷◌, ◌++◌, arith, pos,
  length, take, drop, ltb, lt→ltb, length-drop, length-slice, drop_all, ℕ_discrete, Bool-cases, inl,
  inr, if◌then◌else◌,
}
use twnl.Buffer.{Buffer, IsValid, contents, readable_bytes}
use twnl.Buffer.Io.{wrote}
use twnl.Buffer.Transmit.{advanced, advanced-Sent, write_fd-advanced}
use twnl.Channel.{is_writing}
use twnl.TcpConnection.{
  Conn, connected, handle_write, write_result, output_drained, note_sent, is_disconnecting,
  shutdown_in_loop,
}
use twnl.TcpConnection.Sending.{level}
use twnl.TcpConnection.Pending.{socket_bytes}
use twnl.TcpConnection.Closing.{quieted, quieted_same, handle_write-level, write_result_drained}

-- What a write makes of the connection, when the kernel takes `n` held bytes.
pub record Drains (c : Conn) (n : ℕ) (c' : Conn) : Type 0 where
  pub state : c'.state ≡ c.state
  pub input : c'.input_buffer ≡ c.input_buffer
  pub taken : socket_bytes c'.trace ≡ socket_bytes c.trace ++ take n (contents c.output_buffer)
  pub valid : IsValid c'.output_buffer
  pub left : contents c'.output_buffer ≡ drop n (contents c.output_buffer)
  pub writing : is_writing level c'.channel ≡ ltb 0 (length (drop n (contents c.output_buffer)))
  pub end : c'.output_buffer.writer_index ≡ c.output_buffer.writer_index

write_result_left :
    (n : ℕ) (b : Buffer) (c : Conn)
    → readable_bytes b ≢ 0
    → write_result level c (b, pos n, 0) ≡ record c { output_buffer = b }
unfolding write_result
write_result_left zero b c h = refl
write_result_left (suc n) b c h = ground arith

output_drained-connected : (c : Conn) → c.state ≡ connected → output_drained level c ≡ quieted c
output_drained-connected c up =
    let (_, state, _) = quieted_same c in
    ap (λ s. if is_disconnecting s then shutdown_in_loop level (quieted c) else quieted c)
      (state ∙ up)

quieted_rest :
    (c : Conn)
    → ((quieted c).input_buffer ≡ c.input_buffer)
      × (socket_bytes (quieted c).trace ≡ socket_bytes c.trace)
quieted_rest c = elim (Bool-cases c.has_write_complete) [
  | inl e ↦ rw e (refl, refl)
  | inr e ↦ rw e (refl, refl)
]

module _ (n : ℕ) (c : Conn) (v : IsValid c.output_buffer)
    (h : n ≤ c.output_buffer.writer_index - c.output_buffer.reader_index) where
  -- The connection when the bytes are gone and the channel has not been looked at.
  off : Conn
  off = record (note_sent (advanced n v h) c) { output_buffer = advanced n v h }

  off_taken : socket_bytes off.trace ≡ socket_bytes c.trace ++ take n (contents c.output_buffer)
  unfolding off advanced
  off_taken = ap (λ k. socket_bytes c.trace ++ take k (contents c.output_buffer)) (omega (arith, v))

  handle_write-off :
      is_writing level c.channel ≡ true
      → handle_write level (wrote n ∷ []) c
        ≡ some (write_result level (note_sent (advanced n v h) c) (advanced n v h, pos n, 0))
  handle_write-off on =
      handle_write-level (wrote n) c on
      ∙ ap (λ r. some (write_result level (note_sent r.0 c) r)) (write_fd-advanced n v h 0)

  held :
      length (contents c.output_buffer)
      ≡ c.output_buffer.writer_index - c.output_buffer.reader_index
  held =
      length-slice c.output_buffer.reader_index c.output_buffer.writer_index c.output_buffer.buffer
        v.inside

  some_left :
      is_writing level c.channel ≡ true
      → n < c.output_buffer.writer_index - c.output_buffer.reader_index
      → (handle_write level (wrote n ∷ []) c ≡ some off) × Drains c n off
  unfolding off advanced
  some_left on more =
      let s = advanced-Sent n v h in
      (
        handle_write-off on
            ∙ ap some (
                write_result_left n (advanced n v h) (note_sent (advanced n v h) c)
                  (omega (arith, v))),
        record {
          state = refl;
          input = refl;
          taken = off_taken;
          valid = s.valid;
          left = s.rest;
          writing =
              on
              ∙ sym (
                  lt→ltb 0 (length (drop n (contents c.output_buffer)))
                    (omega (arith, held, length-drop n (contents c.output_buffer))));
          end = refl;
        },
      )

  none_left :
      is_writing level c.channel ≡ true
      → c.state ≡ connected
      → 0 < n
      → n ≡ c.output_buffer.writer_index - c.output_buffer.reader_index
      → (handle_write level (wrote n ∷ []) c ≡ some (quieted off)) × Drains c n (quieted off)
  unfolding off advanced
  none_left on up some_taken all =
      let s = advanced-Sent n v h in
      let (out, state, quiet) = quieted_same off in
      let (input, bytes) = quieted_rest off in
      let nothing : drop n (contents c.output_buffer) ≡ [] =
        drop_all n (contents c.output_buffer) (omega (arith, held)) in
      (
        handle_write-off on
            ∙ ap some (
                write_result_drained n (advanced n v h) (note_sent (advanced n v h) c) some_taken
                  (omega (arith, v))
                ∙ output_drained-connected off up),
        record {
          state = state;
          input = input;
          taken = bytes ∙ off_taken;
          valid = rw out s.valid;
          left = ap contents out ∙ s.rest;
          writing = quiet ∙ rw nothing refl;
          end = ap (λ b. b.writer_index) out;
        },
      )

-- In level-triggered mode, for a connected connection whose channel is writing and whose valid output
-- buffer holds bytes, of which the kernel takes the first `n`: `handleWrite` returns, those bytes are
-- gone from the front of the buffer and its end stays, and the channel counts as writing exactly when
-- bytes are left.
pub handle_write-Drains :
    (n : ℕ) (c : Conn)
    → is_writing level c.channel ≡ true
    → c.state ≡ connected
    → IsValid c.output_buffer
    → 0 < c.output_buffer.writer_index - c.output_buffer.reader_index
    → n ≤ c.output_buffer.writer_index - c.output_buffer.reader_index
    → (c' : Conn) × (handle_write level (wrote n ∷ []) c ≡ some c') × Drains c n c'
handle_write-Drains n c on up v some_held h =
    elim (ℕ_discrete n (c.output_buffer.writer_index - c.output_buffer.reader_index)) [
      | yes all ↦
          let (e, d) = none_left n c v h on up (omega arith) all in (quieted (off n c v h), e, d)
      | no other ↦ let (e, d) = some_left n c v h on (omega arith) in (off n c v h, e, d)
    ]
