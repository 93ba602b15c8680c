-- ===== src/EventLoop/Leaving.antt =====
-- `loop` of twnl/EventLoop.cc ends after a functor that calls `quit`.
use twnl.Base.{
  ℕ, ◌≡◌, refl, ap, ◌∙◌, true, false, not, some, List, [], ◌∷◌, ◌++◌, if_true, check_passed, ◌>>=◌,
}
use twnl.EventLoop.{
  Loop, Event, wake_event, other_event, handling, swapping, outside, polling, testing, handle_read,
  swap_pending, round, handle_events, do_pending_functors, run_functors, test, leave, enter, loop,
  loop_rounds,
}
use twnl.EventLoop.Order.{quiet}

-- `stop` is a functor that calls `quit`; the others never take a `quit` back.
module _ (body : ℕ → Loop → Loop) (stop : ℕ) (stops : (l : Loop) → (body stop l).quit ≡ true)
    (keeps : (f : ℕ) (l : Loop) → l.quit ≡ true → (body f l).quit ≡ true) where
  run_functors-quit_kept :
      (fs : List ℕ) (l : Loop) → l.quit ≡ true → (run_functors body fs l).quit ≡ true
  unfolding run_functors
  run_functors-quit_kept [] l q = q
  run_functors-quit_kept (f ∷ fs) l q = run_functors-quit_kept fs _ (keeps f _ q)

  run_functors-quit :
      (before after : List ℕ) (l : Loop)
      → (run_functors body (before ++ stop ∷ after) l).quit ≡ true
  unfolding run_functors
  run_functors-quit [] after l = run_functors-quit_kept after _ (stops _)
  run_functors-quit (f ∷ before) after l = run_functors-quit before after _

  handle_events-pending :
      (es : List Event) (l : Loop) → (handle_events quiet es l).pending ≡ l.pending
  unfolding handle_events handle_read
  handle_events-pending [] l = refl
  handle_events-pending (wake_event ∷ es) l =
      handle_events-pending es (handle_read (record l { stage = handling es }))
  handle_events-pending (other_event ∷ es) l =
      handle_events-pending es (record l { stage = handling es })

  round-quit :
      (before after : List ℕ) (active : List Event) (l : Loop)
      → l.pending ≡ before ++ stop ∷ after
      → (round quiet body active l).quit ≡ true
  unfolding round do_pending_functors
  round-quit before after active l e =
      let l1 : Loop = handle_events quiet active (record l { stage = handling active }) in
      let same : l1.pending ≡ before ++ stop ∷ after =
        handle_events-pending active (record l { stage = handling active }) ∙ e in
      let l2 : Loop = swap_pending (record l1 { calling = true; stage = swapping }) in
      ap (λ fs. (run_functors body fs l2).quit) same ∙ run_functors-quit before after l2

  -- When `loop` is called with a functor pending that calls `quit`, behind any others and before any
  -- others, where no functor takes a `quit` back and no channel's callback does anything to the loop:
  -- `loop` returns after the first `poll`, whatever that and later ones find.
  pub loop-returns :
      (before after : List ℕ) (active : List Event) (polls : List (List Event)) (l : Loop)
      → l.looping ≡ false
      → l.pending ≡ before ++ stop ∷ after
      → (l' : Loop) × (loop quiet body (active ∷ polls) l ≡ some l')
        × (l'.stage ≡ outside)
        × (l'.looping ≡ false)
  unfolding loop enter leave loop_rounds test
  loop-returns before after active polls l free e =
      let l1 : Loop = record l { looping = true; quit = false; stage = polling } in
      (
        leave (round quiet body active l1),
        ap (◌>>= loop_rounds quiet body (active ∷ polls)) (
              check_passed (not l.looping)
                (some (record l { looping = true; quit = false; stage = testing })) (ap not free))
            ∙ first polls (round quiet body active l1) (round-quit before after active l1 e),
        refl,
        refl,
      )
    where
      first :
          (polls : List (List Event)) (l2 : Loop)
          → l2.quit ≡ true
          → loop_rounds quiet body polls l2 ≡ some (leave l2)
      first [] l2 q = if_true l2.quit _ _ q
      first (p ∷ polls) l2 q = if_true l2.quit _ _ q
