-- ===== src/Acceptor/Exhausted.antt =====
-- When twnl/Acceptor.cc goes on, and what becomes of a connection when descriptors run out.
use twnl.Base.{ℕ, ◌==◌, ◌≡◌, refl, ap, ◌∙◌, Bool, true, if◌then◌else◌, if_true, some, List, [], ◌∷◌}
use twnl.Channel.{Defaults}
use twnl.Logging.{log_warn}
use twnl.Sockets
use twnl.Sockets.{
  SockAddr, Log, Call, died, goes_on, Answer, gave, failed, emfile, errno_after, expected_error,
}
use twnl.Acceptor.{
  Acceptor, opened, closed, new, listen, drop_one, react, handle_read, Event, run, and_then, serve,
}

abbrev pub Expected : Answer → Type 0
Expected (gave n) = Unit {0}
Expected (failed e) = expected_error e ≡ true

abbrev pub AllExpected : List Event → Type 0
AllExpected [] = Unit {0}
AllExpected (e ∷ es) = Expected e.answer × AllExpected es

accept-Expected :
    (lg : Log) (answer : Answer) → Expected answer → Sockets.accept lg answer ≡ goes_on answer
unfolding Sockets.accept
accept-Expected lg (gave n) h = refl
accept-Expected lg (failed e) h = if_true (expected_error e) _ _ h

handle_read-goes_on :
    (lg : Log) (e : Event) (a : Acceptor)
    → Expected e.answer
    → (a' : Acceptor) × (handle_read lg e.callback e.answer e.peer e.accepts e.opens a ≡ goes_on a')
unfolding handle_read react
handle_read-goes_on lg e a h =
    let (a', runs) = after e.answer in
    (a', ap (react lg e.callback e.peer e.accepts e.opens a) (accept-Expected lg e.answer h) ∙ runs)
  where
    after :
        (answer : Answer)
        → (a' : Acceptor) × (react lg e.callback e.peer e.accepts e.opens a (goes_on answer)
            ≡ goes_on a')
    after (gave fd) = (_, refl)
    after (failed n) = (_, refl)

run-goes_on :
    (lg : Log) (es : List Event) (a : Acceptor)
    → AllExpected es
    → (a' : Acceptor) × (run lg es a ≡ goes_on a')
unfolding run
run-goes_on lg [] a h = (a, refl)
run-goes_on lg (e ∷ es) a (h, hs) =
    let (a1, first) = handle_read-goes_on lg e a h in
    let (a', rest) = run-goes_on lg es a1 hs in (a', ap (λ c. and_then c (run lg es)) first ∙ rest)

-- If `bind` and `listen` succeed and every `accept` gives a connection or fails with an `errno` of the
-- first group, the acceptor is made, listens and handles every event: the program is never ended.
pub serve-goes_on :
    (d : Defaults) (lg : Log) (fd b l : ℕ) (opens : Answer) (es : List Event)
    → AllExpected es
    → (a : Acceptor) × (serve d lg fd (gave b) opens (gave l) es ≡ goes_on a)
unfolding serve new listen Sockets.bind Sockets.listen
serve-goes_on d lg fd b l opens es h = run-goes_on lg es _ h

-- When `accept` fails with EMFILE, `idleFd_` is open, and the kernel lets the next calls succeed: if the
-- log leaves `errno` as it is, one connection is taken with the freed descriptor and closed, and
-- `idleFd_` is open again. If the log leaves another `errno`, `handleRead` does nothing at all.
pub emfile_lem :
    (lg : Log) (callback : Bool) (peer : SockAddr) (idle n m : ℕ) (a : Acceptor)
    → a.idle_fd ≡ some idle
    → (a' : Acceptor) × (handle_read lg callback (failed emfile) peer (gave n) (gave m) a
        ≡ goes_on (if errno_after lg log_warn emfile == emfile then a' else a))
      × (a'.idle_fd ≡ some m)
      × (a'.trace ≡ opened m ∷ closed n ∷ opened n ∷ closed idle ∷ a.trace)
unfolding handle_read react drop_one Sockets.accept
emfile_lem lg callback peer idle n m a e = (drop_one (gave n) (gave m) a, refl, refl, rw e refl)
