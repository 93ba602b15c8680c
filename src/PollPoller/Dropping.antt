-- ===== src/PollPoller/Dropping.antt =====
-- The entries of twnl/Poller/PollPoller.cc when one is dropped and the last takes its place.
use mathlib.Core.Option.{some_inj}
use twnl.Base.{
  ℕ, ◌-◌, ◌≤◌, ◌<◌, ◌≡◌, ◌≢◌, refl, sym, ap, ◌∙◌, subst, pos, none, some, List, arith, length,
  get_elem?, set, take, put, put_self, put_other, get_elem?-some, get_elem?-set_self,
  get_elem?-set_ne, get_elem?-take, get_elem?-lt, length-take, ℕ_discrete,
}
use twnl.Channel.{set_index}
use twnl.PollPoller.{PollFd, Poller, Registered, IsValid, owner, drop_pollfd}

-- Two entries with one owner are the same entry.
unique :
    {p : Poller} {x y : PollFd} (i j : ℕ)
    → IsValid p
    → get_elem? p.pollfds i ≡ some x
    → get_elem? p.pollfds j ≡ some y
    → owner x.fd ≡ owner y.fd
    → i ≡ j
unique {p} {x} {y} i j v hx hy same =
    let (q, eq, iq) = v.owned i x hx in
    let (r, er, ir) = v.owned j y hy in
    ground (arith, iq, ir, er, subst (λ fd. p.channels fd ≡ some q) same eq)

-- The poller without the descriptor of `e`.
abbrev pub forgotten : Poller → PollFd → Poller
forgotten p e = record p { channels = put p.channels (owner e.fd) none }

module _ (p : Poller) (v : IsValid p) (idx : ℕ) (e : PollFd)
    (held : get_elem? p.pollfds idx ≡ some e) where
  last : ℕ
  last = length p.pollfds - 1

  still :
      (fd q : ℕ)
      → (forgotten p e).channels fd ≡ some q
      → (p.channels fd ≡ some q) × (owner e.fd ≢ fd)
  still fd q h = elim (ℕ_discrete (owner e.fd) fd) [
    | yes same ↦ absurd (cc (put_self p.channels (owner e.fd) fd none same, h))
    | no other ↦ (sym (put_other p.channels (owner e.fd) fd none other) ∙ h, other)
  ]

  other_slot :
      (i : ℕ) (x : PollFd) → get_elem? p.pollfds i ≡ some x → owner e.fd ≢ owner x.fd → idx ≢ i
  other_slot i x h ne same =
      ne (ap (λ y. owner y.fd) (some_inj.0 (sym held ∙ ap (get_elem? p.pollfds) same ∙ h)))

  other_owner :
      (i : ℕ) (x : PollFd) → get_elem? p.pollfds i ≡ some x → idx ≢ i → owner e.fd ≢ owner x.fd
  other_owner i x h ne same = ne (unique idx i v held h same)

  lt_last : (i : ℕ) {x : PollFd} → get_elem? p.pollfds i ≡ some x → i ≢ last → i < last
  unfolding last
  lt_last i h ne = omega (arith, get_elem?-lt p.pollfds i h)

  module _ (at_end : idx ≡ length p.pollfds - 1) where
    popped : Poller
    popped = record (forgotten p e) { pollfds = take (length p.pollfds - 1) p.pollfds }

    popped-IsValid : IsValid popped
    unfolding popped last
    popped-IsValid = record {
      registered = λ fd q h.
          let (h', ne) = still fd q h in
          let r = v.registered fd q h' in
          let ns : idx ≢ r.slot = other_slot r.slot r.entry r.held (λ same. ne (same ∙ r.own)) in
          record {
            named = r.named;
            slot = r.slot;
            indexed = r.indexed;
            entry = r.entry;
            held =
                get_elem?-take p.pollfds last r.slot
                  (lt_last r.slot r.held (λ same. ns (at_end ∙ sym same)))
                ∙ r.held;
            own = r.own;
          };
      owned = λ i x h.
          let below : i < last =
            omega (arith, get_elem?-lt (take last p.pollfds) i h, length-take last p.pollfds) in
          let h' : get_elem? p.pollfds i ≡ some x =
            sym (get_elem?-take p.pollfds last i below) ∙ h in
          let (q, eq, iq) = v.owned i x h' in
          (
            q,
            put_other p.channels (owner e.fd) (owner x.fd) none
                  (other_owner i x h' (λ same. omega (arith, same, at_end, below)))
                ∙ eq,
            iq,
          );
    }

  module _ (before : idx ≢ length p.pollfds - 1) (end : PollFd)
      (end_held : get_elem? p.pollfds (length p.pollfds - 1) ≡ some end) (q : ℕ)
      (end_at : p.channels (owner end.fd) ≡ some q) where
    swapped : List PollFd
    swapped = take (length p.pollfds - 1) (set (set p.pollfds idx end) (length p.pollfds - 1) e)

    moved : Poller
    moved = record (forgotten p e) {
      pollfds = take (length p.pollfds - 1) (set (set p.pollfds idx end) (length p.pollfds - 1) e);
      heap = put p.heap q (set_index (pos idx) (p.heap q));
    }

    idx-lt_last : idx < last
    unfolding last
    idx-lt_last = lt_last idx held before

    swapped_idx : get_elem? swapped idx ≡ some end
    unfolding swapped last
    swapped_idx =
        get_elem?-take _ last idx idx-lt_last
        ∙ get_elem?-set_ne (set p.pollfds idx end) last idx e (λ same. before (sym same))
        ∙ get_elem?-set_self p.pollfds idx idx end refl (get_elem?-lt p.pollfds idx held)

    swapped_other : (i : ℕ) → i < last → idx ≢ i → get_elem? swapped i ≡ get_elem? p.pollfds i
    unfolding swapped last
    swapped_other i below ne =
        get_elem?-take _ last i below
        ∙ get_elem?-set_ne (set p.pollfds idx end) last i e (λ same. omega (arith, same, below))
        ∙ get_elem?-set_ne p.pollfds idx i end ne

    length-swapped : length swapped ≤ last
    unfolding swapped last
    length-swapped = omega (arith, length-take last (set (set p.pollfds idx end) last e))

    moved-registered : (fd r : ℕ) → moved.channels fd ≡ some r → Registered moved fd r
    unfolding moved last swapped
    moved-registered fd r h =
        let (h', ne) = still fd r h in
        let s = v.registered fd r h' in
        let ns : idx ≢ s.slot = other_slot s.slot s.entry s.held (λ same. ne (same ∙ s.own)) in
        elim (ℕ_discrete q r) [
          | yes same ↦
              let at = put_self p.heap q r (set_index (pos idx) (p.heap q)) same in
              record {
                named = ap (λ c. c.fd) at ∙ ap (λ k. (p.heap k).fd) same ∙ s.named;
                slot = idx;
                indexed = ap (λ c. c.index) at;
                entry = end;
                held = swapped_idx;
                own =
                    sym (v.registered (owner end.fd) q end_at).named
                    ∙ ap (λ k. (p.heap k).fd) same
                    ∙ s.named;
              }
          | no other ↦
              let at = put_other p.heap q r (set_index (pos idx) (p.heap q)) other in
              let not_last : s.slot ≢ last = λ at_end. other (
                some_inj.0 (
                  sym end_at
                  ∙ ap (λ x. p.channels (owner x.fd))
                      (some_inj.0 (sym end_held ∙ ap (get_elem? p.pollfds) (sym at_end) ∙ s.held))
                  ∙ ap p.channels s.own
                  ∙ h')) in
              record {
                named = ap (λ c. c.fd) at ∙ s.named;
                slot = s.slot;
                indexed = ap (λ c. c.index) at ∙ s.indexed;
                entry = s.entry;
                held = swapped_other s.slot (lt_last s.slot s.held not_last) ns ∙ s.held;
                own = s.own;
              }
        ]

    moved-owned :
        (i : ℕ) (x : PollFd)
        → get_elem? moved.pollfds i ≡ some x
        → (r : ℕ) × (moved.channels (owner x.fd) ≡ some r) × ((moved.heap r).index ≡ pos i)
    unfolding moved last swapped
    moved-owned i x h =
        let below : i < last = omega (arith, get_elem?-lt swapped i h, length-swapped) in
        elim (ℕ_discrete idx i) [
          | yes same ↦
              let is_end : end ≡ x =
                some_inj.0 (sym swapped_idx ∙ ap (get_elem? swapped) same ∙ h) in
              (
                q,
                put_other p.channels (owner e.fd) (owner x.fd) none (λ o.
                      other_owner last end end_held before (o ∙ ap (λ y. owner y.fd) (sym is_end)))
                    ∙ ap (λ y. p.channels (owner y.fd)) (sym is_end)
                    ∙ end_at,
                ap (λ c. c.index) (put_self p.heap q q (set_index (pos idx) (p.heap q)) refl)
                    ∙ ap pos same,
              )
          | no other ↦
              let h' : get_elem? p.pollfds i ≡ some x = sym (swapped_other i below other) ∙ h in
              let (r, er, ir) = v.owned i x h' in
              let (k, ek, ik) = v.owned last end end_held in
              let nq : q ≢ r = λ same. ground (arith, below, same, ir, ik, ek, end_at) in
              (
                r,
                put_other p.channels (owner e.fd) (owner x.fd) none (other_owner i x h' other) ∙ er,
                ap (λ c. c.index) (put_other p.heap q r (set_index (pos idx) (p.heap q)) nq) ∙ ir,
              )
        ]

    moved-IsValid : IsValid moved
    moved-IsValid = record { registered = moved-registered; owned = moved-owned }

-- The end of the removal, whichever place the entry has.
pub drop_pollfd-some :
    (p : Poller) (idx : ℕ) (e : PollFd)
    → IsValid p
    → get_elem? p.pollfds idx ≡ some e
    → (p' : Poller) × (drop_pollfd idx e (forgotten p e) ≡ some p')
      × (p'.channels ≡ put p.channels (owner e.fd) none)
      × IsValid p'
unfolding drop_pollfd popped moved
drop_pollfd-some p idx e v held = elim (ℕ_discrete idx (length p.pollfds - 1)) [
  | yes at_end ↦ (
    popped p v idx e held at_end,
    ground (arith, at_end),
    refl,
    popped-IsValid p v idx e held at_end,
  )
  | no before ↦
      let (end, end_held) =
        get_elem?-some p.pollfds (length p.pollfds - 1)
          (omega (arith, get_elem?-lt p.pollfds idx held)) in
      let (q, eq, iq) = v.owned (length p.pollfds - 1) end end_held in
      let there : put p.channels (owner e.fd) none (owner end.fd) ≡ some q =
        put_other p.channels (owner e.fd) (owner end.fd) none
          (other_owner p v idx e held (length p.pollfds - 1) end end_held before)
        ∙ eq in
      (
        moved p v idx e held before end end_held q eq,
        ground (arith, before, end_held, there),
        refl,
        moved-IsValid p v idx e held before end end_held q eq,
      )
]
