-- ===== src/PollPoller/Changing.antt =====
-- `updateChannel` of twnl/Poller/PollPoller.cc for a channel that is registered.
use mathlib.Core.Option.{some_inj}
use twnl.Base.{
  ℕ, ◌≡◌, refl, sym, ap, ◌∙◌, subst, inl, inr, if◌then◌else◌, pos, negsuc, some, arith, get_elem?,
  set, get_elem?-set_self, get_elem?-set_ne, get_elem?-lt, ℕ_discrete, Bool-cases,
}
use twnl.Channel.{no_events, Defaults, Channel, is_none_event}
use twnl.PollPoller.{
  PollFd, Poller, Registered, IsValid, short, owner, change_channel, update_channel,
}

-- The entry that `updateChannel` writes for the channel `c`.
abbrev pub entry_for : Defaults → Channel → PollFd
entry_for d c = record {
  fd = if is_none_event d c then negsuc c.fd else pos c.fd;
  events = short c.events;
  revents = no_events;
}

pub owner-entry_for : (d : Defaults) (c : Channel) → owner (entry_for d c).fd ≡ c.fd
owner-entry_for d c = elim (Bool-cases (is_none_event d c)) [
  | inl e ↦ rw e refl
  | inr e ↦ rw e refl
]

module _ (d : Defaults) (ptr : ℕ) (p : Poller) (v : IsValid p)
    (known : p.channels (p.heap ptr).fd ≡ some ptr) where
  pub own_slot : Registered p (p.heap ptr).fd ptr
  own_slot = v.registered (p.heap ptr).fd ptr known

  change_channel-some :
      change_channel d ptr own_slot.slot p
      ≡ some (record p { pollfds = set p.pollfds own_slot.slot (entry_for d (p.heap ptr)) })
  unfolding change_channel
  change_channel-some = ground (
    arith,
    known,
    own_slot.held,
    own_slot.own,
    get_elem?-lt p.pollfds own_slot.slot own_slot.held,
  )

  changed : Poller
  changed = record p { pollfds = set p.pollfds own_slot.slot (entry_for d (p.heap ptr)) }

  pub own_index :
      (i : ℕ) (e : PollFd)
      → get_elem? p.pollfds i ≡ some e
      → owner e.fd ≡ (p.heap ptr).fd
      → i ≡ own_slot.slot
  own_index i e h o =
      let (q, eq, ix) = v.owned i e h in
      ground (arith, ix, own_slot.indexed, known, subst (λ fd. p.channels fd ≡ some q) o eq)

  changed-registered : (fd q : ℕ) → p.channels fd ≡ some q → Registered changed fd q
  unfolding changed
  changed-registered fd q e =
      let r = v.registered fd q e in
      elim (ℕ_discrete own_slot.slot r.slot) [
        | yes same ↦ record {
          named = r.named;
          slot = r.slot;
          indexed = r.indexed;
          entry = entry_for d (p.heap ptr);
          held =
              get_elem?-set_self p.pollfds own_slot.slot r.slot _ same
                (get_elem?-lt p.pollfds own_slot.slot own_slot.held);
          own =
              owner-entry_for d (p.heap ptr)
              ∙ sym own_slot.own
              ∙ ap (λ x. owner x.fd)
                  (some_inj.0 (sym own_slot.held ∙ ap (get_elem? p.pollfds) same ∙ r.held))
              ∙ r.own;
        }
        | no other ↦ record {
          named = r.named;
          slot = r.slot;
          indexed = r.indexed;
          entry = r.entry;
          held = get_elem?-set_ne p.pollfds own_slot.slot r.slot _ other ∙ r.held;
          own = r.own;
        }
      ]

  changed-owned :
      (i : ℕ) (e : PollFd)
      → get_elem? (set p.pollfds own_slot.slot (entry_for d (p.heap ptr))) i ≡ some e
      → (q : ℕ) × (p.channels (owner e.fd) ≡ some q) × ((p.heap q).index ≡ pos i)
  changed-owned i e h = elim (ℕ_discrete own_slot.slot i) [
    | yes same ↦
        let mine : entry_for d (p.heap ptr) ≡ e = some_inj.0 (
          sym (
            get_elem?-set_self p.pollfds own_slot.slot i _ same
              (get_elem?-lt p.pollfds own_slot.slot own_slot.held))
          ∙ h) in
        (
          ptr,
          ap p.channels (sym (ap (λ x. owner x.fd) mine) ∙ owner-entry_for d (p.heap ptr)) ∙ known,
          own_slot.indexed ∙ ap pos same,
        )
    | no other ↦ v.owned i e (sym (get_elem?-set_ne p.pollfds own_slot.slot i _ other) ∙ h)
  ]

-- In a valid registry, `updateChannel` of a channel that is registered under its descriptor fails no
-- assertion and keeps the registry valid; it leaves the channels as they were, and the entry at the
-- channel's index becomes the one for its events.
pub update_channel_known :
    (d : Defaults) (ptr : ℕ) {p : Poller}
    → IsValid p
    → p.channels (p.heap ptr).fd ≡ some ptr
    → (slot : ℕ) × (p' : Poller) × (update_channel d ptr p ≡ some p')
      × ((p.heap ptr).index ≡ pos slot)
      × (get_elem? p'.pollfds slot ≡ some (entry_for d (p.heap ptr)))
      × (p'.channels ≡ p.channels)
      × (p'.heap ≡ p.heap)
      × IsValid p'
unfolding update_channel changed
update_channel_known d ptr {p} v known =
    let r = own_slot d ptr p v known in
    (
      r.slot,
      changed d ptr p v known,
      rw (update_channel, r.indexed) (change_channel-some d ptr p v known),
      r.indexed,
      get_elem?-set_self p.pollfds r.slot r.slot _ refl (get_elem?-lt p.pollfds r.slot r.held),
      refl,
      refl,
      record {
        registered = changed-registered d ptr p v known;
        owned = changed-owned d ptr p v known;
      },
    )
