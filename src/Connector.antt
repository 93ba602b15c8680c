-- ===== src/Connector.antt =====
-- twnl/Connector.h and twnl/Connector.cc: one outgoing connection, retried with growing delays.
-- What an operation does outside the object is an entry of `trace`, newest first; the answers of the
-- kernel and of the loop are arguments. `none` is a failed assertion, or the use of a pointer that has
-- no value or whose timer is deleted. All but `start` and `stop` run in the loop's thread, as the code asserts.
pub mod Books
pub mod Sockets
pub mod Delay
pub mod Stopping
mod Tests
use twnl.Base.{
  ℕ, zero, suc, ◌+◌, ◌*◌, ◌==◌, min, if◌then◌else◌, Bool, true, false, not, ◌||◌, Option, none,
  some, List, [], ◌∷◌, ◌≡◌, check, ◌>>=◌, ◌>>◌,
}
use twnl.Channel
use twnl.Channel.{Events, Defaults, Channel, enable_writing, disable_all}

pub data State : Type 0 where
  disconnected connecting connected : State

abbrev pub is_disconnected : State → Bool
is_disconnected disconnected = true
is_disconnected _ = false

abbrev pub is_connecting : State → Bool
is_connecting connecting = true
is_connecting _ = false

pub data Effect : Type 0 where
  -- a new socket, `sockets::close`, and `newConnectionCallback_`
  opened closed handed : ℕ → Effect
  -- `runAfter` with its milliseconds, and `cancelTimer`
  ran_after cancelled : ℕ → Effect
  queued_start queued_reset : Effect
  -- what the poller is told of the channel of a socket
  updated_channel : ℕ → Events → Effect
  removed_channel : ℕ → Effect

pub record Connector : Type 0 where
  pub connect : Bool
  pub state : State
  pub channel : Option Channel
  pub retry_delay_ms : ℕ
  -- `timer_`, without a value until the first retry
  pub timer : Option ℕ
  -- the timers of retries that the loop's queue has not run or deleted yet
  pub waiting : List ℕ
  -- how many `resetChannel` functors the loop holds
  pub resets : ℕ
  pub trace : List Effect

-- What the calls of `connect` answer: the socket, 0 or `errno`, and the timer of a retry.
pub record Dial : Type 0 where
  pub sockfd : ℕ
  pub errno : ℕ
  pub timer : ℕ

abbrev pub log : Effect → Connector → Connector
log e c = record c { trace = e ∷ c.trace }

abbrev pub init_retry_delay_ms : ℕ
init_retry_delay_ms = 50

abbrev pub max_retry_delay_ms : ℕ
max_retry_delay_ms = 30 * 1000

unfoldable pub new : Connector
new = record {
  connect = false;
  state = disconnected;
  channel = none;
  retry_delay_ms = init_retry_delay_ms;
  timer = none;
  waiting = [];
  resets = 0;
  trace = [];
}

-- The first group of the `switch`: 0, EINPROGRESS, EINTR, EISCONN.
abbrev pub in_progress : ℕ → Bool
in_progress e = (e == 0) || (e == 115) || (e == 4) || (e == 106)

-- The second: EAGAIN, EADDRINUSE, EADDRNOTAVAIL, ECONNREFUSED, ENETUNREACH.
abbrev pub retryable : ℕ → Bool
retryable e = (e == 11) || (e == 98) || (e == 99) || (e == 111) || (e == 101)

unfoldable pub retry : ℕ → ℕ → Connector → Connector
retry timer sockfd c =
    let c1 = record (log (closed sockfd) c) { state = disconnected } in
    if c1.connect
    then record (log (ran_after c1.retry_delay_ms) c1) {
      timer = some timer;
      waiting = timer ∷ c1.waiting;
      retry_delay_ms = min (c1.retry_delay_ms * 2) max_retry_delay_ms;
    }
    else c1

unfoldable pub start_connecting : Defaults → ℕ → Connector → Option Connector
start_connecting d sockfd c = elim c.channel [
  | some _ ↦ none
  | none ↦
      let ch = enable_writing d (Channel.new sockfd) in
      some
        (log (updated_channel ch.fd ch.events) (record c { state = connecting; channel = some ch }))
]

unfoldable pub connect_to : Defaults → Dial → Connector → Option Connector
unfolding start_connecting retry
connect_to d a c =
    let c1 = log (opened a.sockfd) c in
    if in_progress a.errno
    then start_connecting d a.sockfd c1
    else (if retryable a.errno
        then some (retry a.timer a.sockfd c1)
        else some (log (closed a.sockfd) c1))

unfoldable pub start_in_loop : Defaults → Dial → Connector → Option Connector
unfolding connect_to
start_in_loop d a c = do
  check (is_disconnected c.state)
  if c.connect then connect_to d a c else some c

-- `here`: the caller runs in the loop's thread.
unfoldable pub start : Defaults → Bool → Dial → Connector → Option Connector
unfolding start_in_loop
start d here a c =
    let c1 = record c { connect = true } in
    if here then start_in_loop d a c1 else some (log queued_start c1)

unfoldable pub restart : Defaults → Dial → Connector → Option Connector
unfolding start_in_loop
restart d a c =
    start_in_loop d a
      (record c { state = disconnected; retry_delay_ms = init_retry_delay_ms; connect = true })

abbrev pub is_waiting : ℕ → List ℕ → Bool
is_waiting t [] = false
is_waiting t (x ∷ xs) = (x == t) || is_waiting t xs

unfoldable pub drop_timer : ℕ → List ℕ → List ℕ
drop_timer t [] = []
drop_timer t (x ∷ xs) = let rest = drop_timer t xs in if x == t then rest else x ∷ rest

-- `cancelTimer` of `timer_`, which is deleted with it, and must not be deleted already.
unfoldable pub cancel_retry : Connector → Option Connector
unfolding drop_timer
cancel_retry c = do
  t ← c.timer
  check (is_waiting t c.waiting)
  some (log (cancelled t) (record c { waiting = drop_timer t c.waiting }))

unfoldable pub stop : Connector → Option Connector
unfolding cancel_retry
stop c = cancel_retry (record c { connect = false })

-- The timer `t` of a retry runs; the loop's queue deletes it behind its callback.
unfoldable pub ring : Defaults → ℕ → Dial → Connector → Option Connector
unfolding start_in_loop drop_timer
ring d t a c = do
  check (is_waiting t c.waiting)
  start_in_loop d a (record c { waiting = drop_timer t c.waiting })

unfoldable pub remove_and_reset_channel : Defaults → Connector → Option (ℕ × Connector)
remove_and_reset_channel d c = do
  ch ← c.channel
  let ch1 : Channel = disable_all d ch
  let c1 : Connector = record c { channel = some ch1; resets = suc c.resets }
  some (
    ch1.fd,
    log queued_reset (log (removed_channel ch1.fd) (log (updated_channel ch1.fd ch1.events) c1)),
  )

-- `resetChannel`, one of the functors that the loop holds; without one there is nothing to run.
unfoldable pub reset_channel : Connector → Option Connector
reset_channel c = elim c.resets [
  | zero ↦ none
  | suc n ↦ some (record c { channel = none; resets = n })
]

-- `err` is SO_ERROR, `self` is `isSelfConnect`, `timer` the timer of a retry.
unfoldable pub handle_write : Defaults → ℕ → Bool → ℕ → Connector → Option Connector
unfolding remove_and_reset_channel retry
handle_write d err self timer c =
    if is_connecting c.state
    then (remove_and_reset_channel d c >>= λ (sockfd, c1).
        if not (err == 0) || self
        then some (retry timer sockfd c1)
        else some (
            log (if c1.connect then handed sockfd else closed sockfd)
              (record c1 { state = connected })))
    else (check (is_disconnected c.state) >> some c)

unfoldable pub handle_error : Defaults → ℕ → Connector → Option Connector
unfolding remove_and_reset_channel retry
handle_error d timer c = do
  check (is_connecting c.state)
  (sockfd, c1) ← remove_and_reset_channel d c
  some (retry timer sockfd c1)

abbrev is_null : Option Channel → Bool
is_null none = true
is_null (some ch) = false

-- The destructor.
unfoldable pub destroy : Connector → Option Connector
unfolding cancel_retry
destroy c = do c1 ← cancel_retry c; check (is_null c.channel); some c1

-- What can happen to a connector: its public functions, its functors, timers and events.
pub data Op : Type 0 where
  start_op : Bool → Dial → Op
  start_in_loop_op restart_op : Dial → Op
  ring_op : ℕ → Dial → Op
  stop_op reset_op : Op
  write_op : ℕ → Bool → ℕ → Op
  error_op : ℕ → Op

abbrev pub step : Defaults → Op → Connector → Option Connector
step d (start_op here a) c = start d here a c
step d (start_in_loop_op a) c = start_in_loop d a c
step d (restart_op a) c = restart d a c
step d (ring_op t a) c = ring d t a c
step d stop_op c = stop c
step d reset_op c = reset_channel c
step d (write_op err self timer) c = handle_write d err self timer c
step d (error_op timer) c = handle_error d timer c

-- `restart` is for a connector whose attempt is over.
abbrev pub Proper : Op → Connector → Type 0
Proper (restart_op a) c = is_connecting c.state ≡ false
Proper _ c = Unit

-- The connectors that any order of these steps leads to.
pub data Reaches (d : Defaults) : Connector → Type 0 where
  made : Reaches d new
  stepped :
      {c c' : Connector} (op : Op)
      → Reaches d c
      → Proper op c
      → step d op c ≡ some c'
      → Reaches d c'
