-- ===== src/LoopThread/Handshake.antt =====
-- `startLoop` of twnl/EventLoopThread.cc hands out the loop, if the loop does not end by itself.
use twnl.Base.{◌≡◌, ◌⊎◌, inl, inr, refl, sym, ap, ◌∙◌, Bool, true, false, not, ◌&&◌, arith}
use twnl.LoopThread.{
  System, Worker, absent, preparing, announced, looping, leaving, ended, Owner, idle, waiting,
  woken, returned, quitting, joining, joined, Step, spawns, announces, enters, quits_itself, leaves,
  clears, wakes, returns, finds_loop, finds_none, quits, quits_gone, joins, Reaches, here, later,
}

-- Whether `loop_` is set at a place of `threadFunc`.
abbrev is_set : Worker → Bool
is_set announced = true
is_set looping = true
is_set leaving = true
is_set _ = false

-- What the owner's place says of the loop when only the owner calls `quit`.
abbrev agrees : Owner → Worker → Bool → Bool
agrees idle absent quit = not quit
agrees idle _ quit = false
agrees waiting preparing quit = not quit
agrees waiting announced quit = not quit
agrees waiting looping quit = not quit
agrees waiting _ quit = false
agrees woken announced quit = not quit
agrees woken looping quit = not quit
agrees woken _ quit = false
agrees (returned got) announced quit = got && not quit
agrees (returned got) looping quit = got && not quit
agrees (returned got) _ quit = false
agrees quitting announced quit = not quit
agrees quitting looping quit = not quit
agrees quitting _ quit = false
agrees joining absent quit = false
agrees joining preparing quit = false
agrees joining w quit = true
agrees joined ended quit = true
agrees joined _ quit = false

record Held (s : System) : Type 0 where
  pointer : s.loop ≡ is_set s.worker
  places : agrees s.owner s.worker s.quit ≡ true
  alive : s.dangling ≡ false

Step-Held : {s t : System} → Step false s t → Held s → Held t
Step-Held (spawns o) h = ground arith
Step-Held (announces w) h = ground arith
Step-Held (enters w) h = ground arith
Step-Held (quits_itself own w) h = cc
Step-Held (leaves w q) h = ground arith
Step-Held (clears w) h = ground arith
Step-Held (wakes o l) h = ground arith
Step-Held (returns o) h = ground arith
Step-Held (finds_loop b o l) h = ground arith
Step-Held (finds_none b o l) h = ground arith
Step-Held (quits o live) h = ground arith
Step-Held (quits_gone o gone) h = ground arith
Step-Held (joins o gone) h = ground arith

reached-Held : {s : System} → Reaches false s → Held s
reached-Held here = record { pointer = refl; places = refl; alive = refl }
reached-Held (later r st) = Step-Held st (reached-Held r)

-- Where `startLoop` has returned and the destructor has not begun: it returned a loop, and the loop is
-- still there.
abbrev pub handed_out : System → Bool
handed_out s = elim s.owner [ returned got ↦ got && is_set s.worker | _ ↦ true ]

-- If nothing in the loop calls its `quit`: over every order of the steps of both threads, what
-- `startLoop` returned is a loop, which is alive until the destructor, and the destructor calls `quit`
-- on no loop that is gone.
pub started_loop : {s : System} → Reaches false s → (handed_out s ≡ true) × (s.dangling ≡ false)
started_loop r = let h = reached-Held r in (ground (arith, h.places), h.alive)

-- If nothing in the loop calls its `quit`: wherever the owner waits in `startLoop`, the thread can
-- announce its loop, or it has and the owner can go on.
pub waiting-goes_on :
    {s : System}
    → Reaches false s
    → s.owner ≡ waiting
    → ((s.worker ≡ preparing) × Step false s (record s { worker = announced; loop = true }))
      ⊎ ((s.loop ≡ true) × Step false s (record s { owner = woken }))
waiting-goes_on {s} r o =
    next s.worker refl (ap (λ w. agrees w s.worker s.quit) (sym o) ∙ (reached-Held r).places)
  where
    pointer_set : {w : Worker} → s.worker ≡ w → is_set w ≡ true → s.loop ≡ true
    pointer_set e t = (reached-Held r).pointer ∙ ap is_set e ∙ t

    next :
        (w : Worker)
        → s.worker ≡ w
        → agrees waiting s.worker s.quit ≡ true
        → ((s.worker ≡ preparing) × Step false s (record s { worker = announced; loop = true }))
          ⊎ ((s.loop ≡ true) × Step false s (record s { owner = woken }))
    next absent e h = absurd (cc (ap (λ v. agrees waiting v s.quit) e))
    next preparing e h = inl (e, announces e)
    next announced e h = inr (pointer_set e refl, wakes o (pointer_set e refl))
    next looping e h = inr (pointer_set e refl, wakes o (pointer_set e refl))
    next leaving e h = absurd (cc (ap (λ v. agrees waiting v s.quit) e))
    next ended e h = absurd (cc (ap (λ v. agrees waiting v s.quit) e))
