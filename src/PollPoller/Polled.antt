-- ===== src/PollPoller/Polled.antt =====
-- What a poll leaves of the registry of twnl/Poller/PollPoller.cc.
use twnl.Base.{
  ℕ, suc, zero, ◌+◌, ◌≡◌, ltb, refl, sym, ap, ◌∙◌, if◌then◌else◌, true, some, List, [], ◌∷◌, arith,
  get_elem?,
}
use mathlib.Core.Option.{some_inj}
use twnl.Channel.{Events}
use twnl.PollPoller.{PollFd, Poller, IsValid, owner, fill_active_channels}
use twnl.PollPoller.Polling.{
  came, answered, poll, count, woken, Owned, AllOwned, AllEnabled, Absent, AllTold, SameEnds,
  fill-Fills, fill-zero,
}

get_elem?-answered :
    (rs : List Events) (es : List PollFd) (i : ℕ) (e : PollFd)
    → get_elem? (answered rs es) i ≡ some e
    → (old : PollFd) × (get_elem? es i ≡ some old) × (owner e.fd ≡ owner old.fd)
get_elem?-answered [] es i e h = (e, h, refl)
get_elem?-answered (r ∷ rs) [] i e h = absurd (cc h)
get_elem?-answered (r ∷ rs) (x ∷ es) zero e h = (x, refl, ap (λ e. owner e.fd) (sym (some_inj.0 h)))
get_elem?-answered (r ∷ rs) (x ∷ es) (suc i) e h = get_elem?-answered rs es i e h

answered-get_elem? :
    (rs : List Events) (es : List PollFd) (i : ℕ) (old : PollFd)
    → get_elem? es i ≡ some old
    → (e : PollFd) × (get_elem? (answered rs es) i ≡ some e) × (owner e.fd ≡ owner old.fd)
answered-get_elem? [] es i old h = (old, h, refl)
answered-get_elem? (r ∷ rs) [] i old h = absurd (cc h)
answered-get_elem? (r ∷ rs) (x ∷ es) zero old h =
    (record x { revents = r }, refl, ap (λ e. owner e.fd) (some_inj.0 h))
answered-get_elem? (r ∷ rs) (x ∷ es) (suc i) old h = answered-get_elem? rs es i old h

-- What the kernel writes keeps the registry, and so does a poll.
answered-IsValid :
    (rs : List Events) (p p' : Poller)
    → IsValid p
    → ((ptr : ℕ) → SameEnds (p.heap ptr) (p'.heap ptr))
    → p'.channels ≡ p.channels
    → p'.pollfds ≡ answered rs p.pollfds
    → IsValid p'
answered-IsValid rs p p' v kept ch fds = record {
  registered = λ fd ptr at.
      let r = v.registered fd ptr (sym (ap (λ f. f fd) ch) ∙ at) in
      let (e, held, own) = answered-get_elem? rs p.pollfds r.slot r.entry r.held in
      record {
        named = (kept ptr).0 ∙ r.named;
        slot = r.slot;
        indexed = (kept ptr).1 ∙ r.indexed;
        entry = e;
        held = ap (λ es. get_elem? es r.slot) fds ∙ held;
        own = own ∙ r.own;
      };
  owned = λ i e at.
      let (old, held, own) =
        get_elem?-answered rs p.pollfds i e (sym (ap (λ es. get_elem? es i) fds) ∙ at) in
      let (ptr, found, index) = v.owned i old held in
      (ptr, ap (λ f. f (owner e.fd)) ch ∙ ap p.channels own ∙ found, (kept ptr).1 ∙ index);
}

IsValid-Owned :
    (p : Poller) (i : ℕ) (e : PollFd) → IsValid p → get_elem? p.pollfds i ≡ some e → Owned p i e
IsValid-Owned p i e v at =
    let (ptr, found, index) = v.owned i e at in
    record {
      ptr = ptr;
      found = found;
      index = index;
      fd = (v.registered (owner e.fd) ptr found).named;
    }

AllOwned-from :
    (p : Poller) (es : List PollFd) (k : ℕ)
    → ((i j : ℕ) (e : PollFd) → j ≡ k + i → get_elem? es i ≡ some e → Owned p j e)
    → AllOwned p k es
AllOwned-from p [] k f = tt
AllOwned-from p (e ∷ es) k f = (
  f 0 k e (omega arith) refl,
  AllOwned-from p es (suc k) λ i j x same at. f (suc i) j x (omega (arith, same)) at,
)

poll-fill :
    (n : ℕ) (p : Poller)
    → (if ltb 0 n then fill_active_channels p.pollfds n [] p else some ([], p))
      ≡ fill_active_channels p.pollfds n [] p
poll-fill zero p = sym (fill-zero p.pollfds [] p)
poll-fill (suc n) p = let some_came : ltb 0 (suc n) ≡ true = ground arith in rw some_came refl

AllTold-entries :
    (xs : List PollFd) (p p' : Poller) (es : List PollFd)
    → AllTold (record p { pollfds = xs }) p' es
    → AllTold p p' es
AllTold-entries xs p p' [] ts = tt
AllTold-entries xs p p' (e ∷ es) (t, ts) = (t, AllTold-entries xs p p' es ts)

-- In a valid registry, where `::poll` returns the number of the entries to which it gives events, and
-- gives none to an entry with a negative descriptor: `poll` fails no assertion; exactly the channels of
-- the entries with events become active, in the order of the entries; each of them has the events of its
-- entry and is as it was besides; every other channel is as it was; and the registry stays valid.
pub poll_active :
    (revents : List Events) (p : Poller)
    → let es = answered revents p.pollfds in
      IsValid p
      → AllEnabled es
      → (p' : Poller) × (poll (came (count es) revents) p ≡ some (woken p.channels es, p'))
        × AllTold p p' es
        × ((ptr : ℕ) → Absent ptr (woken p.channels es) → p'.heap ptr ≡ p.heap ptr)
        × IsValid p'
unfolding poll
poll_active revents p v enabled =
    let es = answered revents p.pollfds in
    let p1 : Poller = record p { pollfds = es } in
    let v1 = answered-IsValid revents p p1 v (λ ptr. (refl, refl)) refl refl in
    let owned =
      AllOwned-from p1 es 0
        (λ i j e same at. IsValid-Owned p1 j e v1 (ap (get_elem? es) (plain i j same) ∙ at)) in
    let (p', (done, ts, other, kept, ch, fds)) = fill-Fills es 0 [] p1 owned enabled in
    (
      p',
      poll-fill (count es) p1 ∙ done,
      AllTold-entries es p p' es ts,
      other,
      answered-IsValid revents p p' v kept ch fds,
    )
  where
    plain : (i j : ℕ) → j ≡ 0 + i → j ≡ i
    plain i j same = omega (arith, same)
