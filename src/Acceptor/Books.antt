-- ===== src/Acceptor/Books.antt =====
-- The descriptors of twnl/Acceptor.cc: none is lost, and none is closed twice.
use twnl.Base.{
  ℕ, ◌+◌, ◌==◌, ◌≡◌, refl, Bool, true, false, if◌then◌else◌, Option, none, some, List, [], ◌∷◌,
  arith,
}
use twnl.Channel.{Defaults}
use twnl.Logging.{log_warn}
use twnl.Sockets
use twnl.Sockets.{
  SockAddr, Log, Call, died, goes_on, Answer, gave, failed, emfile, errno_after, expected_error,
}
use twnl.Acceptor.{
  Acceptor, Effect, opened, closed, handed, updated_channel, new, listen, drop_one, react,
  handle_read, Event, run, set_idle, close_idle, and_then, serve, made, listening,
}

-- 1 where the numbers are the same.
abbrev one_if : Bool → ℕ
one_if true = 1
one_if false = 0

-- How often the descriptor `fd` came from the kernel, and how often it was closed or handed on.
unfoldable pub given : ℕ → List Effect → ℕ
given fd [] = 0
given fd (opened n ∷ t) = one_if (n == fd) + given fd t
given fd (closed n ∷ t) = given fd t
given fd (handed n peer ∷ t) = given fd t
given fd (updated_channel e ∷ t) = given fd t

unfoldable pub gone : ℕ → List Effect → ℕ
gone fd [] = 0
gone fd (opened n ∷ t) = gone fd t
gone fd (closed n ∷ t) = one_if (n == fd) + gone fd t
gone fd (handed n peer ∷ t) = one_if (n == fd) + gone fd t
gone fd (updated_channel e ∷ t) = gone fd t

-- How often the acceptor holds it.
abbrev pub idle_count : ℕ → Option ℕ → ℕ
idle_count fd none = 0
idle_count fd (some n) = one_if (n == fd)

unfoldable pub held : ℕ → Acceptor → ℕ
held fd a = one_if (a.socket == fd) + idle_count fd a.idle_fd

abbrev Balanced : ℕ → Acceptor → Type 0
Balanced fd a = given fd a.trace ≡ gone fd a.trace + held fd a

set_idle-Balanced :
    (fd : ℕ) (r : Answer) (a : Acceptor)
    → a.idle_fd ≡ none
    → Balanced fd a
    → Balanced fd (set_idle r a)
unfolding given gone held
set_idle-Balanced fd (gave n) a e b = ground (arith, e, b)
set_idle-Balanced fd (failed n) a e b = ground (arith, e, b)

close_idle-Balanced :
    (fd : ℕ) (a : Acceptor)
    → Balanced fd a
    → Balanced fd (close_idle a) × ((close_idle a).idle_fd ≡ none)
unfolding given gone held
close_idle-Balanced fd a b = (ground (arith, b), ground (arith, b))

drop_one-Balanced :
    (fd : ℕ) (accepts opens : Answer) (a : Acceptor)
    → Balanced fd a
    → Balanced fd (drop_one accepts opens a)
unfolding drop_one
drop_one-Balanced fd accepts opens a b =
    let (b1, e1) = close_idle-Balanced fd a b in
    let b2 = set_idle-Balanced fd accepts (close_idle a) e1 b1 in
    let (b3, e3) = close_idle-Balanced fd (set_idle accepts (close_idle a)) b2 in
    set_idle-Balanced fd opens (close_idle (set_idle accepts (close_idle a))) e3 b3

-- What holds of the acceptor, if the program goes on.
abbrev pub IfAlive : (Acceptor → Type 0) → Call Acceptor → Type 0
IfAlive P died = Unit {0}
IfAlive P (goes_on a) = P a

handed_on :
    (fd : ℕ) (callback : Bool) (n : ℕ) (peer : SockAddr) (a : Acceptor)
    → Balanced fd a
    → Balanced fd (
        if callback
        then record a { trace = handed n peer ∷ opened n ∷ a.trace }
        else record a { trace = closed n ∷ opened n ∷ a.trace })
unfolding given gone held
handed_on fd true n peer a b = omega (arith, b)
handed_on fd false n peer a b = omega (arith, b)

kept_or_dropped :
    (fd : ℕ) (t : Bool) (accepts opens : Answer) (a : Acceptor)
    → Balanced fd a
    → Balanced fd (if t then drop_one accepts opens a else a)
kept_or_dropped fd true accepts opens a b = drop_one-Balanced fd accepts opens a b
kept_or_dropped fd false accepts opens a b = b

react-Balanced :
    (fd : ℕ) (lg : Log) (callback : Bool) (peer : SockAddr) (accepts opens : Answer) (a : Acceptor)
    (c : Call Answer)
    → Balanced fd a
    → IfAlive (Balanced fd) (react lg callback peer accepts opens a c)
unfolding react
react-Balanced fd lg callback peer accepts opens a died b = tt
react-Balanced fd lg callback peer accepts opens a (goes_on (gave n)) b =
    handed_on fd callback n peer a b
react-Balanced fd lg callback peer accepts opens a (goes_on (failed e)) b =
    kept_or_dropped fd (errno_after lg log_warn e == emfile) accepts opens a b

and_then-IfAlive :
    (P Q : Acceptor → Type 0) (f : Acceptor → Call Acceptor) (c : Call Acceptor)
    → ((a : Acceptor) → P a → IfAlive Q (f a))
    → IfAlive P c
    → IfAlive Q (and_then c f)
and_then-IfAlive P Q f died k h = tt
and_then-IfAlive P Q f (goes_on a) k h = k a h

run-Balanced :
    (fd : ℕ) (lg : Log) (es : List Event) (a : Acceptor)
    → Balanced fd a
    → IfAlive (Balanced fd) (run lg es a)
unfolding run handle_read
run-Balanced fd lg [] a b = b
run-Balanced fd lg (e ∷ es) a b =
    and_then-IfAlive (Balanced fd) (Balanced fd) (run lg es)
      (handle_read lg e.callback e.answer e.peer e.accepts e.opens a)
      (λ a1 h. run-Balanced fd lg es a1 h)
      (react-Balanced fd lg e.callback e.peer e.accepts e.opens a (Sockets.accept lg e.answer) b)

listen-Balanced :
    (fd : ℕ) (d : Defaults) (lg : Log) (answer : Answer) (a : Acceptor)
    → Balanced fd a
    → IfAlive (Balanced fd) (listen d lg answer a)
unfolding listen held given gone
listen-Balanced fd d lg answer a b =
    elim (Sockets.listen lg answer)
      as (λ c. IfAlive (Balanced fd) (elim c [ died ↦ died | goes_on _ ↦ listening d a ])) [
        | died ↦ tt
        | goes_on _ ↦ b
      ]

new-Balanced :
    (fd : ℕ) (lg : Log) (socket : ℕ) (binds opens : Answer)
    → IfAlive (Balanced fd) (new lg socket binds opens)
unfolding new given gone held
new-Balanced fd lg socket binds opens =
    elim (Sockets.bind lg binds)
      as (λ c.
        IfAlive (Balanced fd)
          (elim c [ died ↦ died | goes_on _ ↦ goes_on (set_idle opens (made socket)) ])) [
            | died ↦ tt
            | goes_on _ ↦ set_idle-Balanced fd opens (made socket) refl (fresh fd socket)
          ]
  where
    fresh : (fd socket : ℕ) → Balanced fd (made socket)
    fresh fd socket = ground arith

-- Whatever the kernel answers to the constructor, to `listen` and to every `handleRead`, unless the
-- program was ended: each descriptor came from the kernel as often as it was closed or handed to the
-- callback, and once more for each of the socket and `idleFd_` that it is.
pub descriptors_balanced :
    (fd : ℕ) (d : Defaults) (lg : Log) (socket : ℕ) (binds opens listens : Answer) (es : List Event)
    → IfAlive
        (λ a. given fd a.trace ≡ gone fd a.trace + held fd a)
        (serve d lg socket binds opens listens es)
unfolding serve
descriptors_balanced fd d lg socket binds opens listens es =
    and_then-IfAlive (Balanced fd) (Balanced fd) (λ a. and_then (listen d lg listens a) (run lg es))
      (new lg socket binds opens)
      (λ a b.
        and_then-IfAlive (Balanced fd) (Balanced fd) (run lg es) (listen d lg listens a)
          (λ a1 b1. run-Balanced fd lg es a1 b1) (listen-Balanced fd d lg listens a b))
      (new-Balanced fd lg socket binds opens)
