-- ===== src/Echo/Serving.antt =====
-- Every event keeps an echo connection and the view of its session in step.
use twnl.Base.{
  ℕ, suc, zero, ◌+◌, ◌≤◌, ◌<◌, ◌^◌, ◌≡◌, refl, sym, ap, ◌∙◌, pos, some, List, [], ◌∷◌, ◌++◌, arith,
  length, take, drop, ltb, false, true, inl, append-nil, ◌-◌, lt→ltb, length-slice,
}
use twnl.Buffer.{Buffer, IsValid, contents, retrieve_all_as_string}
use twnl.Buffer.Io.{got, wrote, read_fd}
use twnl.Channel.{is_writing, init_default_event}
use twnl.TcpConnection
use twnl.TcpConnection.{
  Conn, connected, disconnected, message_callback, log, read_result, read_input, send_in_loop,
}
use twnl.TcpConnection.Calls.{send, run_task}
use twnl.TcpConnection.Sending.{level, send_pending_lost}
use twnl.TcpConnection.Pending.{send_in_loop-Sends}
use twnl.TcpConnection.Draining.{handle_write-Drains}
use twnl.Echo.{handle_read, on_message}
use twnl.Echo.Message.{message_lem}
use twnl.Echo.Session.{
  Event, arrives, drains, step, run, View, next, view, echo, Possible, AllPossible, IsFresh, Serves,
}

-- The connection when `onMessage` sends: it has seen the message and emptied its input buffer.
abbrev heard : Buffer → Buffer → Conn → Conn
heard b1 b2 c = record c { input_buffer = b2; trace = message_callback (contents b1) ∷ c.trace }

handle_read-send :
    (bytes : List ℕ) (n : ℕ) (c : Conn) (b1 b2 : Buffer)
    → c.state ≡ connected
    → 0 < length bytes
    → read_fd (got bytes) c.input_buffer 0 ≡ some (b1, pos (length bytes), 0)
    → retrieve_all_as_string b1 ≡ some (bytes, b2)
    → handle_read level (got bytes ∷ []) (wrote n) c
      ≡ send_in_loop level (wrote n) bytes (heard b1 b2 c)
unfolding handle_read on_message read_result send run_task init_default_event
handle_read-send [] n c b1 b2 up some_came read taken = absurd (omega arith)
handle_read-send (x ∷ bytes) n c b1 b2 up some_came read taken = rw (read, taken, up)

heard-Serves :
    (b1 b2 : Buffer) {c : Conn} {v : View} → IsFresh b2 → Serves c v → Serves (heard b1 b2 c) v
heard-Serves b1 b2 f s = record {
  up = s.up;
  input = f;
  output = s.output;
  sent = s.sent;
  pending = s.pending;
  writing = s.writing;
  end = s.end;
}

holds_nothing : (b : Buffer) → IsValid b → contents b ≡ [] → b.reader_index ≡ b.writer_index
holds_nothing b v e =
    omega
      (arith, v.ordered, length-slice b.reader_index b.writer_index b.buffer v.inside, ap length e)

waits :
    {x : ℕ} {p : List ℕ} {c : Conn} {v : View}
    → Serves c v
    → v.pending ≡ x ∷ p
    → is_writing level c.channel ≡ true
waits {p = p} s e =
    s.writing ∙ ap (λ p. ltb 0 (length p)) e ∙ lt→ltb 0 (suc (length p)) (omega arith)

-- What `onMessage` sends: nothing waits, or something does.
send_in_loop-Serves :
    (bytes : List ℕ) (n : ℕ) (p : List ℕ) {c : Conn} {v : View}
    → v.pending ≡ p
    → Serves c v
    → n ≤ length bytes
    → v.buffered + length bytes < 2 ^ 63
    → (c' : Conn) × (send_in_loop level (wrote n) bytes c ≡ some c') × Serves c' (echo bytes n p v)
send_in_loop-Serves bytes n [] {c} {v} e s h fits =
    let (c', run, t) =
      send_in_loop-Sends bytes n c (λ down. absurd (cc (s.up, down)))
        (s.writing ∙ ap (λ p. ltb 0 (length p)) e) s.output
        (holds_nothing c.output_buffer s.output (s.pending ∙ e)) h (omega (arith, s.end)) in
    (
      c',
      run,
      record {
        up = t.state ∙ s.up;
        input = rw t.input s.input;
        output = t.valid;
        sent = t.taken ∙ ap (◌++ take n bytes) s.sent;
        pending = t.left;
        writing = t.writing;
        end = t.end ∙ ap (◌+ length (drop n bytes)) s.end;
      },
    )
send_in_loop-Serves bytes n (x ∷ p) {c} e s h fits =
    (c, send_pending_lost level (wrote n) bytes c (inl (waits s e)), s)

arrives-Serves :
    (bytes : List ℕ) (n : ℕ) {c : Conn} {v : View}
    → Serves c v
    → Possible (arrives bytes n) v
    → (c' : Conn) × (step (arrives bytes n) c ≡ some c') × Serves c' (next (arrives bytes n) v)
unfolding step
arrives-Serves bytes n {c} {v} s (some_came, small, h, fits) =
    let (b1, b2, read, taken, fresh) = message_lem bytes s.input small in
    let (c', e, s') =
      send_in_loop-Serves bytes n v.pending refl (heard-Serves b1 b2 fresh s) h fits in
    (c', handle_read-send bytes n c b1 b2 s.up some_came read taken ∙ e, s')

handle_write-idle :
    (n : ℕ) (c : Conn)
    → is_writing level c.channel ≡ false
    → TcpConnection.handle_write level (wrote n ∷ []) c ≡ some c
unfolding TcpConnection.handle_write
handle_write-idle n c off = rw off

drains-Serves :
    (n : ℕ) (p : List ℕ) {c : Conn} {v : View}
    → v.pending ≡ p
    → Serves c v
    → n ≤ length p
    → (c' : Conn) × (step (drains n) c ≡ some c')
      × Serves c' (record v { sent = v.sent ++ take n p; pending = drop n p })
unfolding step
drains-Serves zero [] {c} {v} e s h = (
  c,
  handle_write-idle 0 c (s.writing ∙ ap (λ p. ltb 0 (length p)) e),
  record {
    up = s.up;
    input = s.input;
    output = s.output;
    sent = s.sent ∙ sym (append-nil v.sent);
    pending = s.pending ∙ e;
    writing = s.writing ∙ ap (λ p. ltb 0 (length p)) e;
    end = s.end;
  },
)
drains-Serves (suc n) [] e s h = absurd (omega arith)
drains-Serves n (x ∷ p) {c} {v} e s h =
    let held : contents c.output_buffer ≡ x ∷ p = s.pending ∙ e in
    let long : length (contents c.output_buffer) ≡ suc (length p) = ap length held in
    let size : length (contents c.output_buffer)
        ≡ c.output_buffer.writer_index - c.output_buffer.reader_index =
      length-slice c.output_buffer.reader_index c.output_buffer.writer_index c.output_buffer.buffer
        s.output.inside in
    let (c', run, d) =
      handle_write-Drains n c (waits s e) s.up s.output (omega (arith, long, size))
        (omega (arith, long, size)) in
    (
      c',
      run,
      record {
        up = d.state ∙ s.up;
        input = rw d.input s.input;
        output = d.valid;
        sent =
            d.taken
            ∙ ap (◌++ take n (contents c.output_buffer)) s.sent
            ∙ ap (λ q. v.sent ++ take n q) held;
        pending = d.left ∙ ap (drop n) held;
        writing = d.writing ∙ ap (λ q. ltb 0 (length (drop n q))) held;
        end = d.end ∙ s.end;
      },
    )

pub step-Serves :
    (e : Event) {c : Conn} {v : View}
    → Serves c v
    → Possible e v
    → (c' : Conn) × (step e c ≡ some c') × Serves c' (next e v)
step-Serves (arrives bytes n) s h = arrives-Serves bytes n s h
step-Serves (drains n) {v = v} s h = drains-Serves n v.pending refl s h

-- Every session that is possible by the specification, from a connection and a view that agree, in
-- level-triggered mode, ends without a failed assertion in a connection that agrees with the view at
-- the specification's end: it is connected, the kernel has taken exactly the bytes that the view counts
-- as sent, the output buffer holds those that wait, and its end is the number of bytes that ever waited.
pub run-Serves :
    (es : List Event) {c : Conn} {v : View}
    → Serves c v
    → AllPossible es v
    → (c' : Conn) × (run es c ≡ some c') × Serves c' (view es v)
unfolding run
run-Serves [] {c} s h = (c, refl, s)
run-Serves (e ∷ es) s (possible, h) =
    let (c1, e1, s1) = step-Serves e s possible in
    let (c2, e2, s2) = run-Serves es s1 h in (c2, rw e1 e2, s2)
