-- ===== src/TcpConnection/Pending.antt =====
-- A send on a connection whose output buffer is empty, in detail.
use twnl.Base.{
  ℕ, ◌+◌, ◌≤◌, ◌<◌, ◌^◌, ◌≡◌, ◌≢◌, refl, sym, ap, ◌∙◌, false, some, List, [], ◌∷◌, ◌++◌, arith,
  length, take, drop, ltb, lt→ltb, length-drop, drop_all, dec_lt,
}
use twnl.Buffer.{IsValid, contents}
use twnl.Buffer.Append.{append_empty, contents_empty}
use twnl.Buffer.Io.{wrote}
use twnl.Channel.{is_writing, enable_writing, init_default_event}
use twnl.TcpConnection.{
  Conn, Effect, disconnected, connection_callback, message_callback, close_callback,
  write_complete_callback, high_water_callback, wrote_socket, shutdown_write, queued,
  updated_channel, removed_channel, keep_remaining, note_high_water, start_writing, send_in_loop,
}
use twnl.TcpConnection.Sending.{
  level, written, written_same, send_in_loop-idle, send_rest-left, send_rest-all, start_writing_lem,
  note_high_water_same,
}

-- The bytes that the kernel has taken from the connection.
abbrev pub socket_bytes : List Effect → List ℕ
socket_bytes [] = []
socket_bytes (wrote_socket bytes ∷ es) = socket_bytes es ++ bytes
socket_bytes (connection_callback _ ∷ es) = socket_bytes es
socket_bytes (message_callback _ ∷ es) = socket_bytes es
socket_bytes (close_callback ∷ es) = socket_bytes es
socket_bytes (write_complete_callback ∷ es) = socket_bytes es
socket_bytes (high_water_callback _ ∷ es) = socket_bytes es
socket_bytes (shutdown_write ∷ es) = socket_bytes es
socket_bytes (queued _ ∷ es) = socket_bytes es
socket_bytes (updated_channel _ ∷ es) = socket_bytes es
socket_bytes (removed_channel ∷ es) = socket_bytes es

note_high_water_rest :
    (n : ℕ) (c : Conn)
    → ((note_high_water n c).input_buffer ≡ c.input_buffer)
      × (socket_bytes (note_high_water n c).trace ≡ socket_bytes c.trace)
unfolding note_high_water
note_high_water_rest n c = ground arith

start_writing_rest :
    (c : Conn)
    → ((start_writing level c).input_buffer ≡ c.input_buffer)
      × (socket_bytes (start_writing level c).trace ≡ socket_bytes c.trace)
unfolding start_writing enable_writing init_default_event
start_writing_rest c = ground arith

written_rest :
    (bytes : List ℕ) (n : ℕ) (c : Conn)
    → ((written bytes n c).input_buffer ≡ c.input_buffer)
      × (socket_bytes (written bytes n c).trace ≡ socket_bytes c.trace ++ take n bytes)
written_rest bytes n c = ground arith

-- What a send makes of a connection with nothing pending, when the kernel takes `n` bytes.
pub record Sends (c : Conn) (bytes : List ℕ) (n : ℕ) (c' : Conn) : Type 0 where
  pub state : c'.state ≡ c.state
  pub input : c'.input_buffer ≡ c.input_buffer
  pub taken : socket_bytes c'.trace ≡ socket_bytes c.trace ++ take n bytes
  pub valid : IsValid c'.output_buffer
  pub left : contents c'.output_buffer ≡ drop n bytes
  pub writing : is_writing level c'.channel ≡ ltb 0 (length (drop n bytes))
  pub end : c'.output_buffer.writer_index ≡ c.output_buffer.writer_index + length (drop n bytes)

keep_remaining-Sends :
    (bytes : List ℕ) (n : ℕ) (c : Conn)
    → IsValid c.output_buffer
    → c.output_buffer.reader_index ≡ c.output_buffer.writer_index
    → c.output_buffer.writer_index + length bytes < 2 ^ 63
    → n < length bytes
    → (c' : Conn) × (keep_remaining level (drop n bytes) (written bytes n c) ≡ some c')
      × Sends c bytes n c'
unfolding keep_remaining
keep_remaining-Sends bytes n c v empty fits h =
    let k = length (drop n bytes) in
    let cw = written bytes n c in
    let (out, e, held, v', end) =
      append_empty (drop n bytes) v empty (omega (arith, length-drop n bytes)) in
    let (out_w, state_w, channel_w) = written_same bytes n c in
    let (input_w, bytes_w) = written_rest bytes n c in
    let (out_h, state_h, _) = note_high_water_same k cw in
    let (input_h, bytes_h) = note_high_water_rest k cw in
    let c1 : Conn = record (note_high_water k cw) { output_buffer = out } in
    let (out_s, state_s, on) = start_writing_lem c1 in
    let (input_s, bytes_s) = start_writing_rest c1 in
    (
      start_writing level c1,
      rw (out_h, out_w, e),
      record {
        state = state_s ∙ state_h ∙ state_w;
        input = input_s ∙ input_h ∙ input_w;
        taken = bytes_s ∙ bytes_h ∙ bytes_w;
        valid = rw out_s v';
        left = ap contents out_s ∙ held;
        writing = on ∙ sym (lt→ltb 0 k (omega (arith, length-drop n bytes)));
        end = ap (λ b. b.writer_index) out_s ∙ end;
      },
    )

written-Sends :
    (bytes : List ℕ) (n : ℕ) (c : Conn)
    → IsValid c.output_buffer
    → c.output_buffer.reader_index ≡ c.output_buffer.writer_index
    → is_writing level c.channel ≡ false
    → n ≡ length bytes
    → Sends c bytes n (written bytes n c)
written-Sends bytes n c v empty quiet all =
    let (out_w, state_w, channel_w) = written_same bytes n c in
    let (input_w, bytes_w) = written_rest bytes n c in
    let nothing : drop n bytes ≡ [] = drop_all n bytes (omega arith) in
    record {
      state = state_w;
      input = input_w;
      taken = bytes_w;
      valid = rw out_w v;
      left = ap contents out_w ∙ contents_empty c.output_buffer empty ∙ sym nothing;
      writing = ap (is_writing level) channel_w ∙ quiet ∙ rw nothing refl;
      end = ap (λ b. b.writer_index) out_w ∙ rw nothing (omega arith);
    }

-- In level-triggered mode, where the connection is not disconnected, its valid output buffer holds
-- nothing and its end stays below 2^63: `sendInLoop` returns; the kernel has taken the first `n`
-- bytes, the output buffer holds the others behind its old end, and the channel counts as writing
-- exactly when there are any.
pub send_in_loop-Sends :
    (bytes : List ℕ) (n : ℕ) (c : Conn)
    → c.state ≢ disconnected
    → is_writing level c.channel ≡ false
    → IsValid c.output_buffer
    → c.output_buffer.reader_index ≡ c.output_buffer.writer_index
    → n ≤ length bytes
    → c.output_buffer.writer_index + length bytes < 2 ^ 63
    → (c' : Conn) × (send_in_loop level (wrote n) bytes c ≡ some c') × Sends c bytes n c'
send_in_loop-Sends bytes n c up quiet v empty h fits =
    let start = send_in_loop-idle level (wrote n) bytes c up quiet (omega arith) in
    elim (dec_lt n (length bytes)) [
      | yes p ↦
          let (c', e, s) = keep_remaining-Sends bytes n c v empty fits p in
          (c', start ∙ send_rest-left level bytes n (written bytes n c) p (omega arith) ∙ e, s)
      | no p ↦ (
        written bytes n c,
        start ∙ send_rest-all level bytes n (written bytes n c) (omega arith) (omega arith),
        written-Sends bytes n c v empty quiet (omega arith),
      )
    ]
