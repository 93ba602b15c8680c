-- ===== src/TcpConnection/Sending.antt =====
-- What becomes of the bytes given to `send`.
use twnl.Base.{
  ℕ, ◌+◌, ◌-◌, ◌≤◌, ◌<◌, ◌^◌, ◌≡◌, ◌≢◌, ◌⊎◌, inl, inr, sym, ap, ◌∙◌, true, false, ◌&&◌, ◌==◌, some,
  List, [], ◌++◌, arith, length, take, drop, ltb, lt→ltb, sub_size, length-drop, take_all,
  take-append-drop, append-nil, dec_lt, Bool-cases,
}
use twnl.Buffer.{Buffer, IsValid, contents, readable_bytes}
use twnl.Buffer.Append.{Accepts, append_lem}
use twnl.Buffer.Io.{wrote, Writing}
use twnl.Channel.Edge.{edge_interests}
use twnl.Channel.{Defaults, lt, et, init_default_event, is_writing, enable_writing}
use twnl.TcpConnection.{
  Conn, disconnected, log, log_if, wrote_socket, queued, write_complete_task, keep_remaining,
  send_rest, send_now, note_high_water, start_writing, send_in_loop, connect_established,
}

-- The level-triggered defaults.
abbrev pub level : Defaults
level = init_default_event lt

pub note_high_water_same :
    (n : ℕ) (c : Conn)
    → ((note_high_water n c).output_buffer ≡ c.output_buffer)
      × ((note_high_water n c).state ≡ c.state)
      × ((note_high_water n c).channel ≡ c.channel)
unfolding note_high_water
note_high_water_same n c = ground arith

pub start_writing_lem :
    (c : Conn)
    → ((start_writing level c).output_buffer ≡ c.output_buffer)
      × ((start_writing level c).state ≡ c.state)
      × (is_writing level (start_writing level c).channel ≡ true)
unfolding start_writing enable_writing init_default_event
start_writing_lem c = ground arith

keep_remaining_lem :
    (rest : List ℕ) (c : Conn)
    → IsValid c.output_buffer
    → c.output_buffer.writer_index + length rest < 2 ^ 63
    → Accepts c.output_buffer (length rest)
    → (c' : Conn) × (keep_remaining level rest c ≡ some c')
      × (contents c'.output_buffer ≡ contents c.output_buffer ++ rest)
      × (is_writing level c'.channel ≡ true)
      × (c'.state ≡ c.state)
unfolding keep_remaining
keep_remaining_lem rest c v fits room =
    let (out, e, more, v') = append_lem rest v fits room in
    let (same, state, _) = note_high_water_same (length rest) c in
    let c1 : Conn = record (note_high_water (length rest) c) { output_buffer = out } in
    let (same', state', on) = start_writing_lem c1 in
    (start_writing level c1, rw (same, e), ap contents same' ∙ more, on, state' ∙ state)

pub send_in_loop-idle :
    (d : Defaults) (answer : Writing) (bytes : List ℕ) (c : Conn)
    → c.state ≢ disconnected
    → is_writing d c.channel ≡ false
    → readable_bytes c.output_buffer ≡ 0
    → send_in_loop d answer bytes c ≡ send_now d answer bytes c
unfolding send_in_loop
send_in_loop-idle d answer bytes c up quiet empty = rw quiet (ground arith)

pub send_rest-left :
    (d : Defaults) (bytes : List ℕ) (n : ℕ) (c : Conn)
    → n < length bytes
    → length bytes < 2 ^ 63
    → send_rest d bytes n false c ≡ keep_remaining d (drop n bytes) c
unfolding send_rest
send_rest-left d bytes n c h small = ground arith

pub send_rest-all :
    (d : Defaults) (bytes : List ℕ) (n : ℕ) (c : Conn)
    → n ≡ length bytes
    → length bytes < 2 ^ 63
    → send_rest d bytes n false c ≡ some c
unfolding send_rest
send_rest-all d bytes n c h small = ground arith

-- The connection between the write and the bytes that are left.
abbrev pub written : List ℕ → ℕ → Conn → Conn
written bytes n c =
    let c1 = log (wrote_socket (take n bytes)) c in
    log_if ((sub_size (length bytes) n == 0) && c1.has_write_complete) (queued write_complete_task)
      c1

pub written_same :
    (bytes : List ℕ) (n : ℕ) (c : Conn)
    → ((written bytes n c).output_buffer ≡ c.output_buffer)
      × ((written bytes n c).state ≡ c.state)
      × ((written bytes n c).channel ≡ c.channel)
written_same bytes n c = ground arith

contents_of_readable : (b : Buffer) → IsValid b → readable_bytes b ≡ 0 → contents b ≡ []
contents_of_readable b v e = ap (λ k. take k (drop b.reader_index b.buffer)) zero_left
  where
    zero_left : b.writer_index - b.reader_index ≡ 0
    zero_left = omega arith

-- The send buffer must be able to take what the kernel leaves.
abbrev pub Takes : Buffer → ℕ → Type 0
Takes b n = IsValid b × (b.writer_index + n < 2 ^ 63) × Accepts b n

-- In level-triggered mode, where the connection is not disconnected, nothing is pending, and the
-- output buffer can take what the kernel leaves of a message shorter than 2^63: `sendInLoop`
-- returns, what the kernel took and what the output buffer then holds make up the message in
-- order, the channel counts as writing exactly when the kernel took less than all, and the state
-- stays.
pub send_in_loop_lem :
    (bytes : List ℕ) (n : ℕ) (c : Conn)
    → c.state ≢ disconnected
    → is_writing level c.channel ≡ false
    → readable_bytes c.output_buffer ≡ 0
    → n ≤ length bytes
    → length bytes < 2 ^ 63
    → Takes c.output_buffer (length bytes - n)
    → (c' : Conn) × (send_in_loop level (wrote n) bytes c ≡ some c')
      × (take n bytes ++ contents c'.output_buffer ≡ bytes)
      × (is_writing level c'.channel ≡ ltb n (length bytes))
      × (c'.state ≡ c.state)
send_in_loop_lem bytes n c up quiet empty h small (v, fits, room) = elim (dec_lt n (length bytes)) [
  | yes p ↦
      let left : length (drop n bytes) ≡ length bytes - n = length-drop n bytes in
      let (c', e, more, on, state') =
        keep_remaining_lem (drop n bytes) (written bytes n c) (rw same v) (rw (same, left) fits)
          (rw (same, left) room) in
      (
        c',
        start ∙ send_rest-left level bytes n (written bytes n c) p small ∙ e,
        ap (take n bytes ++◌)
              (more ∙ ap (λ b. contents b ++ drop n bytes) same ∙ ap (◌++ drop n bytes) none_held)
            ∙ take-append-drop n bytes,
        on ∙ sym (lt→ltb n (length bytes) p),
        state' ∙ state,
      )
  | no p ↦ (
    written bytes n c,
    start ∙ send_rest-all level bytes n (written bytes n c) (omega arith) small,
    ap (take n bytes ++◌) (ap contents same ∙ none_held)
        ∙ append-nil (take n bytes)
        ∙ take_all n bytes (omega arith),
    ap (is_writing level) channel ∙ quiet ∙ ground arith,
    state,
  )
]
  where
    same : (written bytes n c).output_buffer ≡ c.output_buffer
    same = (written_same bytes n c).0

    state : (written bytes n c).state ≡ c.state
    state = (written_same bytes n c).1

    channel : (written bytes n c).channel ≡ c.channel
    channel = (written_same bytes n c).2

    start : send_in_loop level (wrote n) bytes c ≡ send_rest level bytes n false (written bytes n c)
    start = send_in_loop-idle level (wrote n) bytes c up quiet empty

    none_held : contents c.output_buffer ≡ []
    none_held = contents_of_readable c.output_buffer v empty

-- Whatever the defaults, the kernel's answer and the message: if the channel counts as writing or
-- the output buffer holds bytes, `sendInLoop` returns the connection unchanged.
pub send_pending_lost :
    (d : Defaults) (answer : Writing) (bytes : List ℕ) (c : Conn)
    → (is_writing d c.channel ≡ true) ⊎ (readable_bytes c.output_buffer ≢ 0)
    → send_in_loop d answer bytes c ≡ some c
unfolding send_in_loop
send_pending_lost d answer bytes c h = elim (Bool-cases (is_writing d c.channel)) [
  | inl on ↦ rw on (ground arith)
  | inr off ↦ rw off (ground arith)
]

-- The edge-triggered defaults.
abbrev pub edge : Defaults
edge = init_default_event et

established-is_writing :
    (c c' : Conn) → connect_established edge c ≡ some c' → is_writing edge c'.channel ≡ true
unfolding connect_established
established-is_writing c c' e = ground (arith, (edge_interests c.channel).0)

-- In edge-triggered mode, on a connection that `connectEstablished` has just set up, `sendInLoop`
-- returns the connection unchanged, for every message and every answer of the kernel.
pub send_edge_lost :
    (answer : Writing) (bytes : List ℕ) (c c' : Conn)
    → connect_established edge c ≡ some c'
    → send_in_loop edge answer bytes c' ≡ some c'
send_edge_lost answer bytes c c' e =
    send_pending_lost edge answer bytes c' (inl (established-is_writing c c' e))
