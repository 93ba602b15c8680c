-- ===== src/PollPoller/Adding.antt =====
-- `updateChannel` of twnl/Poller/PollPoller.cc for a channel that is not registered.
use mathlib.Core.Option.{some_inj}
use twnl.Base.{
  ℕ, ◌≡◌, ◌≢◌, refl, sym, ap, ◌∙◌, subst, pos, negsuc, none, some, [], ◌∷◌, ◌++◌, arith, length,
  get_elem?, put, put_self, put_other, get_elem?-append_left, get_elem?-append_last, get_elem?-lt,
  ℕ_discrete, dec_lt, length-append,
}
use twnl.Channel.{no_events, Defaults, set_index}
use twnl.PollPoller.{PollFd, Poller, Registered, IsValid, short, owner, add_channel, update_channel}

-- A poller after the registration of `ptr`.
module _ (ptr : ℕ) (p : Poller) where
  abbrev pub new_entry : PollFd
  new_entry = record {
    fd = pos (p.heap ptr).fd;
    events = short (p.heap ptr).events;
    revents = no_events;
  }

  abbrev pub added : Poller
  added = record p {
    pollfds = p.pollfds ++ new_entry ∷ [];
    heap = put p.heap ptr (set_index (pos (length p.pollfds)) (p.heap ptr));
    channels = put p.channels (p.heap ptr).fd (some ptr);
  }

module _ (ptr : ℕ) (p : Poller) (v : IsValid p) (free : p.channels (p.heap ptr).fd ≡ none) where
  not_registered : (fd q : ℕ) → p.channels fd ≡ some q → (ptr ≢ q) × ((p.heap ptr).fd ≢ fd)
  not_registered fd q e =
      let r = v.registered fd q e in
      (
        (λ same. cc (ap p.channels (ap (λ k. (p.heap k).fd) same ∙ r.named))),
        λ same. cc (ap p.channels same),
      )

  added_self : (fd : ℕ) → (p.heap ptr).fd ≡ fd → Registered (added ptr p) fd ptr
  added_self fd here =
      let at : put p.heap ptr (set_index (pos (length p.pollfds)) (p.heap ptr)) ptr
          ≡ set_index (pos (length p.pollfds)) (p.heap ptr) =
        put_self p.heap ptr ptr _ refl in
      record {
        named = ap (λ c. c.fd) at ∙ here;
        slot = length p.pollfds;
        indexed = ap (λ c. c.index) at;
        entry = new_entry ptr p;
        held = get_elem?-append_last p.pollfds (new_entry ptr p) (length p.pollfds) refl;
        own = here;
      }

  added-registered : (fd q : ℕ) → (added ptr p).channels fd ≡ some q → Registered (added ptr p) fd q
  added-registered fd q e = elim (ℕ_discrete (p.heap ptr).fd fd) [
    | yes here ↦
        subst (Registered (added ptr p) fd)
          (some_inj.0 (sym (put_self p.channels (p.heap ptr).fd fd (some ptr) here) ∙ e))
          (added_self fd here)
    | no other ↦
        let e' : p.channels fd ≡ some q =
          sym (put_other p.channels (p.heap ptr).fd fd (some ptr) other) ∙ e in
        let (np, nf) = not_registered fd q e' in
        let r = v.registered fd q e' in
        let same : (added ptr p).heap q ≡ p.heap q = put_other p.heap ptr q _ np in
        record {
          named = ap (λ c. c.fd) same ∙ r.named;
          slot = r.slot;
          indexed = ap (λ c. c.index) same ∙ r.indexed;
          entry = r.entry;
          held =
              get_elem?-append_left p.pollfds _ r.slot (get_elem?-lt p.pollfds r.slot r.held)
              ∙ r.held;
          own = r.own;
        }
  ]

  added-owned :
      (i : ℕ) (e : PollFd)
      → get_elem? (added ptr p).pollfds i ≡ some e
      → (q : ℕ) × ((added ptr p).channels (owner e.fd) ≡ some q)
        × (((added ptr p).heap q).index ≡ pos i)
  added-owned i e h = elim (dec_lt i (length p.pollfds)) [
    | yes old ↦
        let (q, eq, ix) = v.owned i e (sym (get_elem?-append_left p.pollfds _ i old) ∙ h) in
        let (np, nf) = not_registered (owner e.fd) q eq in
        (
          q,
          put_other p.channels (p.heap ptr).fd (owner e.fd) (some ptr) nf ∙ eq,
          ap (λ c. c.index) (put_other p.heap ptr q _ np) ∙ ix,
        )
    | no last ↦
        let at_end : i ≡ length p.pollfds = omega (
          arith,
          get_elem?-lt (added ptr p).pollfds i h,
          length-append p.pollfds (new_entry ptr p ∷ []),
        ) in
        let is_new : new_entry ptr p ≡ e =
          some_inj.0 (sym (get_elem?-append_last p.pollfds (new_entry ptr p) i at_end) ∙ h) in
        (
          ptr,
          put_self p.channels (p.heap ptr).fd (owner e.fd) (some ptr) (ap (λ x. owner x.fd) is_new),
          ap (λ c. c.index)
                (put_self p.heap ptr ptr (set_index (pos (length p.pollfds)) (p.heap ptr)) refl)
              ∙ ap pos (sym at_end),
        )
  ]

add_channel-some :
    (ptr : ℕ) (p : Poller)
    → p.channels (p.heap ptr).fd ≡ none
    → add_channel ptr p ≡ some (added ptr p)
unfolding add_channel
add_channel-some ptr p free = rw free

pub added-IsValid :
    (ptr : ℕ) (p : Poller) → IsValid p → p.channels (p.heap ptr).fd ≡ none → IsValid (added ptr p)
added-IsValid ptr p v free = record {
  registered = added-registered ptr p v free;
  owned = added-owned ptr p v free;
}

-- In a valid registry, the first `updateChannel` of a channel whose descriptor is free (its index is
-- negative) fails no assertion, registers the channel under its descriptor, and keeps the registry
-- valid.
pub update_channel_new :
    (d : Defaults) (ptr k : ℕ) {p : Poller}
    → IsValid p
    → (p.heap ptr).index ≡ negsuc k
    → p.channels (p.heap ptr).fd ≡ none
    → (p' : Poller) × (update_channel d ptr p ≡ some p')
      × (p'.channels (p.heap ptr).fd ≡ some ptr)
      × IsValid p'
unfolding update_channel
update_channel_new d ptr k {p} v negative free = (
  added ptr p,
  rw (update_channel, negative) (add_channel-some ptr p free),
  put_self p.channels (p.heap ptr).fd (p.heap ptr).fd (some ptr) refl,
  added-IsValid ptr p v free,
)
