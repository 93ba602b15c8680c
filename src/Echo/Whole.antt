-- ===== src/Echo/Whole.antt =====
-- What a peer of the echo server gets back.
use twnl.Base.{
  ℕ, ◌≤◌, ◌<◌, ◌≡◌, refl, sym, ap, ◌∙◌, Option, none, some, List, [], ◌∷◌, ◌++◌, arith, length,
  take, drop, append-nil, append_assoc, take-append-drop, ◌>>=◌, length-replicate, check_passed,
}
use twnl.Buffer
use twnl.Buffer.{Buffer, IsValid, contents, initial_size, append}
use twnl.Buffer.Append.{contents_empty}
use twnl.Buffer.Overflow.{read_fd_overflow}
use twnl.Echo.Message.{IsFresh-IsValid}
use twnl.Buffer.Io.{got, wrote, read_fd}
use twnl.Channel.{init_default_event, enable_reading}
use twnl.TcpConnection
use twnl.TcpConnection.{Conn, connect_established}
use twnl.TcpConnection.Sending.{level}
use twnl.TcpConnection.Pending.{socket_bytes}
use twnl.Echo.{handle_read}
use twnl.Echo.Session.{
  Event, arrives, drains, step, run, View, next, view, AllPossible, IsFresh, Serves,
}
use twnl.Echo.Serving.{run-Serves}

abbrev pub received : List Event → List ℕ
received [] = []
received (arrives bytes n ∷ es) = bytes ++ received es
received (drains n ∷ es) = received es

-- Every message arrives when nothing waits.
abbrev pub OneAtATime : List Event → View → Type 0
OneAtATime [] v = Unit {0}
OneAtATime (arrives bytes n ∷ es) v = (v.pending ≡ []) × OneAtATime es (next (arrives bytes n) v)
OneAtATime (drains n ∷ es) v = OneAtATime es (next (drains n) v)

abbrev pub idle : View
idle = record { sent = []; pending = []; buffered = 0 }

arrives_whole :
    (bytes : List ℕ) (n : ℕ) (v : View)
    → v.pending ≡ []
    → let v' = next (arrives bytes n) v in v'.sent ++ v'.pending ≡ v.sent ++ bytes
arrives_whole bytes n v e =
    rw e (
      append_assoc v.sent (take n bytes) (drop n bytes)
      ∙ ap (v.sent ++◌) (take-append-drop n bytes))

view_whole :
    (es : List Event) (v : View)
    → OneAtATime es v
    → (view es v).sent ++ (view es v).pending ≡ (v.sent ++ v.pending) ++ received es
view_whole [] v h = sym (append-nil (v.sent ++ v.pending))
view_whole (arrives bytes n ∷ es) v (e, h) =
    view_whole es (next (arrives bytes n) v) h
    ∙ ap (◌++ received es) (arrives_whole bytes n v e)
    ∙ append_assoc v.sent bytes (received es)
    ∙ ap (◌++ (bytes ++ received es)) (sym (ap (v.sent ++◌) e ∙ append-nil v.sent))
view_whole (drains n ∷ es) v h =
    view_whole es (next (drains n) v) h
    ∙ ap (◌++ received es) (
        append_assoc v.sent (take n v.pending) (drop n v.pending)
        ∙ ap (v.sent ++◌) (take-append-drop n v.pending))

new-empty :
    (size : ℕ) {b : Buffer}
    → Buffer.new size ≡ some b
    → (b.reader_index ≡ 0) × (b.writer_index ≡ 0) × (length b.buffer ≡ size)
unfolding Buffer.new
new-empty size e = ground (arith, length-replicate {A = ℕ} size 0)

new-IsFresh : {b : Buffer} → Buffer.new initial_size ≡ some b → IsFresh b
new-IsFresh e =
    let (reader, writer, size) = new-empty initial_size e in
    record { reader = reader; writer = writer; size = size }

-- `connectEstablished` makes a new connection one that serves, with nothing sent.
established-Serves :
    (sockfd : ℕ) {input output : Buffer}
    → IsFresh input
    → IsFresh output
    → (c : Conn) × (connect_established level (TcpConnection.new sockfd input output) ≡ some c)
      × (c.input_buffer ≡ input)
      × Serves c idle
unfolding connect_established TcpConnection.new enable_reading init_default_event
established-Serves sockfd {input} {output} fi fo = (
  _,
  refl,
  refl,
  record {
    up = refl;
    input = fi;
    output = ground (arith, fo.reader, fo.writer, fo.size);
    sent = refl;
    pending = contents_empty output (fo.reader ∙ sym fo.writer);
    writing = refl;
    end = fo.writer;
  },
)

-- The whole life of a connection up to the end of a session: made with new buffers, established, run.
abbrev pub session : ℕ → List Event → Option Conn
session sockfd es = do
  input ← Buffer.new initial_size
  output ← Buffer.new initial_size
  c ← connect_established level (TcpConnection.new sockfd input output)
  run es c

-- A new buffer is made without a failed assertion.
new-made : (b : Buffer) × (Buffer.new initial_size ≡ some b)
unfolding Buffer.new
new-made = (_, check_passed _ _ refl)

session-run :
    (sockfd : ℕ) (es : List Event) → (c : Conn) × (session sockfd es ≡ run es c) × Serves c idle
session-run sockfd es =
    let (b, made) = new-made in
    let (c, e, _, s) = established-Serves sockfd (new-IsFresh made) (new-IsFresh made) in
    (c, rw (made, e), s)

-- A possible session in which every message arrives when nothing waits, in level-triggered mode: from
-- the making of the connection to the end no assertion fails, and what the kernel has taken, followed
-- by what the output buffer holds, is all that was received, in order.
pub session_whole :
    (sockfd : ℕ) (es : List Event)
    → OneAtATime es idle
    → AllPossible es idle
    → (c : Conn) × (session sockfd es ≡ some c)
      × (socket_bytes c.trace ++ contents c.output_buffer ≡ received es)
session_whole sockfd es one possible =
    let (c0, e0, s0) = session-run sockfd es in
    let (c, e, s) = run-Serves es s0 possible in
    (c, e0 ∙ e, rw (s.sent, s.pending) (view_whole es idle one))

handle_read_overflow :
    (bytes : List ℕ) (n : ℕ) (c : Conn)
    → read_fd (got bytes) c.input_buffer 0 ≡ none
    → handle_read level (got bytes ∷ []) (wrote n) c ≡ none
unfolding handle_read init_default_event
handle_read_overflow bytes n c e = rw e

-- A connection that serves fails an assertion in `handleRead` whenever one read brings it more than
-- 1024 and at most 2048 bytes.
pub message_overflow :
    (bytes : List ℕ) (n : ℕ) {c : Conn} {v : View}
    → Serves c v
    → 1024 < length bytes
    → length bytes ≤ 2048
    → step (arrives bytes n) c ≡ none
unfolding step
message_overflow bytes n {c} s more less =
    let f = s.input in
    handle_read_overflow bytes n c (
      read_fd_overflow bytes 0 (IsFresh-IsValid f) (omega (arith, f.reader, f.writer, f.size))
        (omega (arith, f.reader, f.writer, f.size)))
