-- ===== src/Acceptor.antt =====
-- twnl/Acceptor.h, twnl/Acceptor.cc and the part of twnl/Socket.cc that they use: the listening socket.
-- What is done with descriptors is in `trace`, newest first; the answers of the kernel are arguments.
-- All operations run in the loop's thread, as the code asserts.
pub mod Books
pub mod Exhausted
mod Tests
use twnl.Base.{ℕ, ◌==◌, Bool, true, false, if◌then◌else◌, Option, none, some, List, [], ◌∷◌}
use twnl.Channel
use twnl.Channel.{Events, Defaults, Channel, enable_reading}
use twnl.Logging.{log_warn}
use twnl.Sockets
use twnl.Sockets.{SockAddr, Log, Call, died, goes_on, Answer, gave, failed, emfile, errno_after}

pub data Effect : Type 0 where
  -- a descriptor that the kernel gave, to `accept` or to `open`
  opened : ℕ → Effect
  closed : ℕ → Effect
  -- `newConnectionCallback_`
  handed : ℕ → SockAddr → Effect
  updated_channel : Events → Effect

pub record Acceptor : Type 0 where
  pub socket : ℕ
  pub channel : Channel
  pub listenning : Bool
  -- `idleFd_`, without a value for -1
  pub idle_fd : Option ℕ
  pub trace : List Effect

abbrev pub log : Effect → Acceptor → Acceptor
log e a = record a { trace = e ∷ a.trace }

-- The answer of `::open` or of `::accept` to a new `idleFd_`.
abbrev pub set_idle : Answer → Acceptor → Acceptor
set_idle (gave fd) a = record (log (opened fd) a) { idle_fd = some fd }
set_idle (failed e) a = record a { idle_fd = none }

-- `::close(idleFd_)`; that of -1 closes nothing.
abbrev pub close_idle : Acceptor → Acceptor
close_idle a = elim a.idle_fd [ none ↦ a | some fd ↦ record (log (closed fd) a) { idle_fd = none } ]

abbrev pub made : ℕ → Acceptor
made fd = record {
  socket = fd;
  channel = Channel.new fd;
  listenning = false;
  idle_fd = none;
  trace = opened fd ∷ [];
}

-- The constructor, on the socket `fd` that `createNonblockingOrDie` gave; `opens` is the answer of
-- `::open`.
unfoldable pub new : Log → ℕ → Answer → Answer → Call Acceptor
unfolding Sockets.bind
new lg fd binds opens = elim (Sockets.bind lg binds) [
  | died ↦ died
  | goes_on _ ↦ goes_on (set_idle opens (made fd))
]

abbrev pub listening : Defaults → Acceptor → Call Acceptor
listening d a =
    let ch = enable_reading d a.channel in
    goes_on (log (updated_channel ch.events) (record a { listenning = true; channel = ch }))

-- `Acceptor::listen`
unfoldable pub listen : Defaults → Log → Answer → Acceptor → Call Acceptor
unfolding Sockets.listen
listen d lg answer a = elim (Sockets.listen lg answer) [ died ↦ died | goes_on _ ↦ listening d a ]

-- What `handleRead` does on EMFILE: `accepts` and `opens` answer the calls that it makes.
unfoldable pub drop_one : Answer → Answer → Acceptor → Acceptor
drop_one accepts opens a = set_idle opens (close_idle (set_idle accepts (close_idle a)))

-- What `handleRead` does with what `accept` gives; `callback`: whether `newConnectionCallback_` is set.
unfoldable pub react :
    Log → Bool → SockAddr → Answer → Answer → Acceptor → Call Answer → Call Acceptor
unfolding drop_one
react lg callback peer accepts opens a died = died
react lg callback peer accepts opens a (goes_on (gave fd)) =
    let a1 = log (opened fd) a in
    goes_on (if callback then log (handed fd peer) a1 else log (closed fd) a1)
react lg callback peer accepts opens a (goes_on (failed e)) =
    goes_on (if errno_after lg log_warn e == emfile then drop_one accepts opens a else a)

unfoldable pub handle_read :
    Log → Bool → Answer → SockAddr → Answer → Answer → Acceptor → Call Acceptor
unfolding Sockets.accept react
handle_read lg callback answer peer accepts opens a =
    react lg callback peer accepts opens a (Sockets.accept lg answer)

abbrev pub and_then : Call Acceptor → (Acceptor → Call Acceptor) → Call Acceptor
and_then died f = died
and_then (goes_on a) f = f a

-- A call of `handleRead`, with what the kernel answers to its calls.
pub record Event : Type 0 where
  pub callback : Bool
  pub answer : Answer
  pub peer : SockAddr
  pub accepts : Answer
  pub opens : Answer

unfoldable pub run : Log → List Event → Acceptor → Call Acceptor
unfolding handle_read
run lg [] a = goes_on a
run lg (e ∷ es) a =
    and_then (handle_read lg e.callback e.answer e.peer e.accepts e.opens a) (run lg es)

-- The life of an acceptor.
unfoldable pub serve : Defaults → Log → ℕ → Answer → Answer → Answer → List Event → Call Acceptor
unfolding new listen run
serve d lg fd binds opens listens es =
    and_then (new lg fd binds opens) (λ a. and_then (listen d lg listens a) (run lg es))
