-- ===== src/EventLoop/Refinement.antt =====
-- The code of `loop` in twnl/EventLoop.cc makes only steps of the step relation.
use mathlib.Core.Option.{some_inj}
use twnl.Base.{
  ℕ, ◌≡◌, refl, sym, ap, ◌∙◌, subst, true, false, not, some, List, [], ◌∷◌, ◌++◌, arith, if_true,
  if_false, Bool-cases, check_passed, ◌>>=◌, inl, inr,
}
use twnl.EventLoop.{
  Loop, Stage, Event, wake_event, other_event, outside, testing, polling, handling, swapping,
  running, handle_read, round, handle_events, do_pending_functors, swap_pending, run_functors, test,
  leave, enter, loop, loop_rounds,
}
use twnl.EventLoop.Steps.{
  enters, goes_on, leaves, polls, reads, handles, calls, swaps, runs, finishes, Reaches,
  Reaches_trans, here, later,
}
use twnl.EventLoop.Order.{quiet, run_functors-quiet}

-- A callback makes steps, and ends at the stage at which it was called.
abbrev pub Calls : (Loop → Loop) → Stage → Type 0
Calls f s = (l : Loop) → l.stage ≡ s → Reaches l (f l) × ((f l).stage ≡ s)

at_stage : (l : Loop) (s : Stage) → l.stage ≡ s → Reaches l (record l { stage = s })
at_stage l s e = subst (Reaches l) (ap (λ t. record l { stage = t }) e) here

module _ (on_event : Loop → Loop) (body : ℕ → Loop → Loop)
    (event_calls : (es : List Event) → Calls on_event (handling es))
    (body_calls : (f : ℕ) (fs : List ℕ) → Calls (body f) (running fs)) where
  handle_events-Reaches :
      (es : List Event) (l : Loop)
      → l.stage ≡ handling es
      → Reaches l (handle_events on_event es l)
        × ((handle_events on_event es l).stage ≡ handling [])
  unfolding handle_events handle_read
  handle_events-Reaches [] l s = (at_stage l (handling []) s, refl)
  handle_events-Reaches (wake_event ∷ es) l s =
      let (r, e) = handle_events-Reaches es (handle_read (record l { stage = handling es })) refl in
      (Reaches_trans (later here (reads es s)) r, e)
  handle_events-Reaches (other_event ∷ es) l s =
      let (q, at) = event_calls es (record l { stage = handling es }) refl in
      let (r, e) = handle_events-Reaches es (on_event (record l { stage = handling es })) at in
      (Reaches_trans (Reaches_trans (later here (handles es s)) q) r, e)

  run_functors-Reaches :
      (fs : List ℕ) (l : Loop)
      → l.stage ≡ running fs
      → Reaches l (run_functors body fs l) × ((run_functors body fs l).stage ≡ running [])
  unfolding run_functors
  run_functors-Reaches [] l s = (at_stage l (running []) s, refl)
  run_functors-Reaches (f ∷ fs) l s =
      let l1 : Loop = record l { stage = running fs; ran = l.ran ++ f ∷ [] } in
      let (q, at) = body_calls f fs l1 refl in
      let (r, e) = run_functors-Reaches fs (body f l1) at in
      (Reaches_trans (Reaches_trans (later here (runs f fs s)) q) r, e)

  do_pending_functors-Reaches :
      (l : Loop) → l.stage ≡ handling [] → Reaches l (do_pending_functors body l)
  unfolding do_pending_functors swap_pending
  do_pending_functors-Reaches l s =
      let l1 : Loop = record l { calling = true; stage = swapping } in
      let (r, e) = run_functors-Reaches l.pending (swap_pending l1) refl in
      later (Reaches_trans (later (later here (calls s)) (swaps refl)) r) (finishes e)

  -- One round, from `poll` with whatever it finds, ends at the test of the loop.
  round-Reaches :
      (active : List Event) (l : Loop)
      → l.stage ≡ polling
      → Reaches l (round on_event body active l)
  unfolding round
  round-Reaches active l s =
      let l1 : Loop = record l { stage = handling active } in
      let (r, e) = handle_events-Reaches active l1 refl in
      Reaches_trans (Reaches_trans (later here (polls active s)) r)
        (do_pending_functors-Reaches (handle_events on_event active l1) e)

  left_by :
      (l l' : Loop)
      → l.stage ≡ testing
      → l.quit ≡ true
      → some (leave l) ≡ some l'
      → Reaches l l' × (l'.stage ≡ outside)
  unfolding leave
  left_by l l' s off e =
      subst (λ x. Reaches l x × (x.stage ≡ outside)) (some_inj.0 e)
        (later here (leaves s off), refl)

  loop_rounds-Reaches :
      (rounds : List (List Event)) (l l' : Loop)
      → l.stage ≡ testing
      → loop_rounds on_event body rounds l ≡ some l'
      → Reaches l l' × (l'.stage ≡ outside)
  unfolding loop_rounds test round do_pending_functors
  loop_rounds-Reaches [] l l' s e = elim (Bool-cases l.quit) [
    | inl off ↦ left_by l l' s off (sym (if_true l.quit _ _ off) ∙ e)
    | inr on ↦ absurd (ground (arith, on, e))
  ]
  loop_rounds-Reaches (active ∷ rounds) l l' s e = elim (Bool-cases l.quit) [
    | inl off ↦ left_by l l' s off (sym (if_true l.quit _ _ off) ∙ e)
    | inr on ↦
        let l1 : Loop = record l { stage = polling } in
        let same : test l ≡ l1 = if_false l.quit (leave l) l1 on in
        let next : loop_rounds on_event body rounds (round on_event body active l1) ≡ some l' =
          ap (λ x. loop_rounds on_event body rounds (round on_event body active x)) (sym same)
          ∙ sym (if_false l.quit _ _ on)
          ∙ e in
        let (r, out) = loop_rounds-Reaches rounds (round on_event body active l1) l' refl next in
        (
          Reaches_trans (Reaches_trans (later here (goes_on s on)) (round-Reaches active l1 refl))
              r,
          out,
        )
  ]

  -- `loop`, with whatever each `poll` finds: if the callbacks and the functors make only steps and end
  -- at the stage at which they were called, and `loop` is called outside of it and returns, then it
  -- has made only steps, and is outside again.
  pub loop-Reaches :
      (polled : List (List Event)) (l l' : Loop)
      → l.stage ≡ outside
      → loop on_event body polled l ≡ some l'
      → Reaches l l' × (l'.stage ≡ outside)
  unfolding loop enter
  loop-Reaches polled l l' s e = elim (Bool-cases l.looping) [
    | inl busy ↦ absurd (ground (arith, busy, e))
    | inr free ↦
        let l1 : Loop = record l { looping = true; quit = false; stage = testing } in
        let entered : enter l ≡ some l1 = check_passed (not l.looping) _ (ap not free) in
        let (r, out) =
          loop_rounds-Reaches polled l1 l' refl
            (ap (◌>>= loop_rounds on_event body polled) (sym entered) ∙ e) in
        (Reaches_trans (later here (enters s free)) r, out)
  ]

-- One round, from `poll` with any active channels, when neither callbacks nor functors queue anything:
-- afterwards all that was pending has run, in its order, and nothing is pending.
pub round-quiet :
    (active : List Event) (l : Loop)
    → ((round quiet (λ f. quiet) active l).ran ≡ l.ran ++ l.pending)
      × ((round quiet (λ f. quiet) active l).pending ≡ [])
unfolding round do_pending_functors swap_pending handle_events handle_read
round-quiet active l =
    let l1 : Loop = handle_events quiet active (record l { stage = handling active }) in
    let (ran, pending) = handle_events-quiet active (record l { stage = handling active }) in
    let done =
      run_functors-quiet l1.pending
        (swap_pending (record l1 { calling = true; stage = swapping })) in
    (
      ap (λ x. x.ran) done ∙ ap (◌++ l1.pending) ran ∙ ap (l.ran ++◌) pending,
      ap (λ x. x.pending) done,
    )
  where
    handle_events-quiet :
        (es : List Event) (l : Loop)
        → ((handle_events quiet es l).ran ≡ l.ran)
          × ((handle_events quiet es l).pending ≡ l.pending)
    handle_events-quiet [] l = (refl, refl)
    handle_events-quiet (wake_event ∷ es) l =
        handle_events-quiet es (handle_read (record l { stage = handling es }))
    handle_events-quiet (other_event ∷ es) l =
        handle_events-quiet es (record l { stage = handling es })
