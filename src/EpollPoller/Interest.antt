-- ===== src/EpollPoller/Interest.antt =====
-- The kernel's interest list agrees with the indices that twnl/Poller/EpollPoller.cc keeps.
use mathlib.Core.Option.{some_inj}
use twnl.Base.{
  ℕ, ◌==◌, ◌≡◌, ◌≢◌, ◌⊎◌, refl, sym, ap, ◌∙◌, inl, inr, ℤ, Bool, true, false, none, some, List, [],
  ◌∷◌, put, put_self, put_other, arith, Bool-cases, ℕ_discrete,
}
use twnl.Channel.{Defaults, Channel, set_index, is_none_event}
use twnl.EpollPoller.{
  Ctl, ctl_add, ctl_mod, ctl_del, EpollPoller, is_pos, k_added, k_deleted, mark, tell,
  update_channel, remove_channel,
}

-- The descriptors that the kernel watches after the calls.
unfoldable pub watched : List Ctl → ℕ → Bool
watched [] = λ _. false
watched (ctl_add fd e ∷ cs) = put (watched cs) fd true
watched (ctl_mod fd e ∷ cs) = watched cs
watched (ctl_del fd e ∷ cs) = put (watched cs) fd false

-- The kernel accepts each call: it refuses to add what it watches, and to change or delete the rest.
unfoldable pub Accepted : List Ctl → Type 0
unfolding watched
Accepted [] = Unit
Accepted (ctl_add fd e ∷ cs) = (watched cs fd ≡ false) × Accepted cs
Accepted (ctl_mod fd e ∷ cs) = (watched cs fd ≡ true) × Accepted cs
Accepted (ctl_del fd e ∷ cs) = (watched cs fd ≡ true) × Accepted cs

-- A registered channel is watched, and counts as added, or neither.
abbrev pub Agrees : EpollPoller → ℕ → ℕ → Type 0
Agrees p fd ptr =
    ((p.heap ptr).fd ≡ fd)
    × ((((p.heap ptr).index ≡ k_added) × (watched p.calls fd ≡ true))
        ⊎ (((p.heap ptr).index ≡ k_deleted) × (watched p.calls fd ≡ false)))

pub record IsValid (p : EpollPoller) : Type 0 where
  pub accepted : Accepted p.calls
  pub agrees : (fd ptr : ℕ) → p.channels fd ≡ some ptr → Agrees p fd ptr
  pub unwatched : (fd : ℕ) → p.channels fd ≡ none → watched p.calls fd ≡ false

-- What a change to one channel keeps: its own index agrees with the new calls, and the calls leave
-- the other descriptors as they were.
module _ (ptr : ℕ) (p : EpollPoller) (v : IsValid p)
    (known : p.channels (p.heap ptr).fd ≡ some ptr) where
  relabel :
      (index : ℤ) (cs : List Ctl)
      → Accepted cs
      → (((index ≡ k_added) × (watched cs (p.heap ptr).fd ≡ true))
          ⊎ ((index ≡ k_deleted) × (watched cs (p.heap ptr).fd ≡ false)))
      → ((fd : ℕ) → (p.heap ptr).fd ≢ fd → watched cs fd ≡ watched p.calls fd)
      → IsValid (mark ptr index (record p { calls = cs }))
  relabel index cs ok mine rest = record {
    accepted = ok;
    agrees = λ fd q h. elim (ℕ_discrete ptr q) [
      | yes same ↦
          let at = put_self p.heap ptr q (set_index index (p.heap ptr)) same in
          let here : (p.heap ptr).fd ≡ fd = ap (λ k. (p.heap k).fd) same ∙ (v.agrees fd q h).0 in
          (
            ap (λ c. c.fd) at ∙ here,
            elim mine [
              | inl (i, w) ↦ inl (ap (λ c. c.index) at ∙ i, ap (watched cs) (sym here) ∙ w)
              | inr (i, w) ↦ inr (ap (λ c. c.index) at ∙ i, ap (watched cs) (sym here) ∙ w)
            ],
          )
      | no ne ↦
          let at = put_other p.heap ptr q (set_index index (p.heap ptr)) ne in
          let (named, agree) = v.agrees fd q h in
          let apart : (p.heap ptr).fd ≢ fd =
            λ same. ne (some_inj.0 (sym known ∙ ap p.channels same ∙ h)) in
          (
            ap (λ c. c.fd) at ∙ named,
            elim agree [
              | inl (i, w) ↦ inl (ap (λ c. c.index) at ∙ i, rest fd apart ∙ w)
              | inr (i, w) ↦ inr (ap (λ c. c.index) at ∙ i, rest fd apart ∙ w)
            ],
          )
    ];
    unwatched =
        λ fd free. rest fd (λ same. cc (known, ap p.channels same, free)) ∙ v.unwatched fd free;
  }

  abbrev dropped : List Ctl → EpollPoller
  dropped cs =
      mark ptr k_deleted (record p { channels = put p.channels (p.heap ptr).fd none; calls = cs })

  dropped-IsValid :
      (cs : List Ctl)
      → Accepted cs
      → watched cs (p.heap ptr).fd ≡ false
      → ((fd : ℕ) → (p.heap ptr).fd ≢ fd → watched cs fd ≡ watched p.calls fd)
      → IsValid (dropped cs)
  dropped-IsValid cs ok off rest = record {
    accepted = ok;
    agrees = λ fd q h. elim (ℕ_discrete (p.heap ptr).fd fd) [
      | yes same ↦ absurd (cc (put_self p.channels (p.heap ptr).fd fd none same, h))
      | no apart ↦
          let h' : p.channels fd ≡ some q =
            sym (put_other p.channels (p.heap ptr).fd fd none apart) ∙ h in
          let (named, agree) = v.agrees fd q h' in
          let at =
            put_other p.heap ptr q (set_index k_deleted (p.heap ptr))
              (λ same. apart (ap (λ k. (p.heap k).fd) same ∙ named)) in
          (
            ap (λ c. c.fd) at ∙ named,
            elim agree [
              | inl (i, w) ↦ inl (ap (λ c. c.index) at ∙ i, rest fd apart ∙ w)
              | inr (i, w) ↦ inr (ap (λ c. c.index) at ∙ i, rest fd apart ∙ w)
            ],
          )
    ];
    unwatched = λ fd free. elim (ℕ_discrete (p.heap ptr).fd fd) [
      | yes same ↦ ap (watched cs) (sym same) ∙ off
      | no apart ↦
          rest fd apart
          ∙ v.unwatched fd (sym (put_other p.channels (p.heap ptr).fd fd none apart) ∙ free)
    ];
  }

-- In a valid state, `updateChannel` of a registered channel fails no assertion, makes only calls that
-- the kernel accepts, leaves the registered channels as they were, and keeps the state valid.
pub update_channel-IsValid :
    (d : Defaults) (ptr : ℕ) (p : EpollPoller)
    → IsValid p
    → p.channels (p.heap ptr).fd ≡ some ptr
    → (p' : EpollPoller) × (update_channel d ptr p ≡ some p')
      × (p'.channels ≡ p.channels)
      × IsValid p'
unfolding update_channel watched Accepted
update_channel-IsValid d ptr p v known =
    let c : Channel = p.heap ptr in
    let self : ptr == ptr ≡ true = ground arith in
    elim (v.agrees c.fd ptr known).1 [
      | inl (i, w) ↦ elim (Bool-cases (is_none_event d c)) [
        | inl idle ↦ (
          mark ptr k_deleted (tell ctl_del c p),
          rw (update_channel, i, idle) refl,
          refl,
          relabel ptr p v known k_deleted (ctl_del c.fd c.events ∷ p.calls) (w, v.accepted)
              (inr (refl, put_self (watched p.calls) c.fd c.fd false refl))
              (λ fd ne. put_other (watched p.calls) c.fd fd false ne),
        )
        | inr busy ↦ (
          tell ctl_mod c p,
          rw (update_channel, i, busy) refl,
          refl,
          record { accepted = (w, v.accepted); agrees = v.agrees; unwatched = v.unwatched },
        )
      ]
      | inr (i, w) ↦ (
        tell ctl_add c (mark ptr k_added p),
        rw (update_channel, i, known, self) refl,
        refl,
        relabel ptr p v known k_added (ctl_add c.fd c.events ∷ p.calls) (w, v.accepted)
            (inl (refl, put_self (watched p.calls) c.fd c.fd true refl))
            (λ fd ne. put_other (watched p.calls) c.fd fd true ne),
      )
    ]

-- `removeChannel` of any channel frees its descriptor, but an `updateChannel` of the channel after it
-- fails an assertion.
pub remove_channel-stays_out :
    (d : Defaults) (ptr : ℕ) (p : EpollPoller)
    → ((remove_channel ptr p).channels (p.heap ptr).fd ≡ none)
      × (update_channel d ptr (remove_channel ptr p) ≡ none)
unfolding remove_channel update_channel
remove_channel-stays_out d ptr p =
    let self : ptr == ptr ≡ true = ground arith in
    let fd : (p.heap ptr).fd == (p.heap ptr).fd ≡ true = ground arith in
    elim (Bool-cases (is_pos 1 (p.heap ptr).index)) [
      | inl e ↦ rw (remove_channel, e) (rw (self, fd) (refl, refl))
      | inr e ↦ rw (remove_channel, e) (rw (self, fd) (refl, refl))
    ]

-- In a valid state, `removeChannel` of a registered channel makes only calls that the kernel accepts,
-- unregisters exactly its descriptor, which the kernel then does not watch, and keeps the state valid.
pub remove_channel-IsValid :
    (ptr : ℕ) (p : EpollPoller)
    → IsValid p
    → p.channels (p.heap ptr).fd ≡ some ptr
    → ((remove_channel ptr p).channels ≡ put p.channels (p.heap ptr).fd none)
      × (watched (remove_channel ptr p).calls (p.heap ptr).fd ≡ false)
      × IsValid (remove_channel ptr p)
unfolding remove_channel watched Accepted
remove_channel-IsValid ptr p v known =
    let c : Channel = p.heap ptr in
    elim (v.agrees c.fd ptr known).1 [
      | inl (i, w) ↦
          let off = put_self (watched p.calls) c.fd c.fd false refl in
          rw (remove_channel, i)
            (
              refl,
              off,
              dropped-IsValid ptr p v known (ctl_del c.fd c.events ∷ p.calls) (w, v.accepted) off
                  (λ fd ne. put_other (watched p.calls) c.fd fd false ne),
            )
      | inr (i, w) ↦
          rw (remove_channel, i)
            (refl, w, dropped-IsValid ptr p v known p.calls v.accepted w (λ fd ne. refl))
    ]
