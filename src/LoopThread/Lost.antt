-- ===== src/LoopThread/Lost.antt =====
-- Orders of the steps of twnl/EventLoopThread.cc after which a thread waits for ever.
use twnl.Base.{◌≡◌, refl, true, false}
use twnl.LoopThread.{
  System, announced, looping, ended, waiting, quitting, joining, Step, spawns, announces, enters,
  quits_itself, leaves, clears, wakes, returns, finds_loop, finds_none, quits, quits_gone, joins,
  Reaches, later,
}

join-stuck :
    {s t : System} → s.owner ≡ joining → s.worker ≡ looping → s.quit ≡ false → Step false s t → ⊥
join-stuck o w q (spawns p) = cc
join-stuck o w q (announces p) = cc
join-stuck o w q (enters p) = cc
join-stuck o w q (quits_itself p r) = cc
join-stuck o w q (leaves p r) = cc
join-stuck o w q (clears p) = cc
join-stuck o w q (wakes p r) = cc
join-stuck o w q (returns p) = cc
join-stuck o w q (finds_loop b p r) = cc
join-stuck o w q (finds_none b p r) = cc
join-stuck o w q (quits p r) = cc
join-stuck o w q (quits_gone p r) = cc
join-stuck o w q (joins p r) = cc

wait-stuck :
    {s t : System} → s.owner ≡ waiting → s.worker ≡ ended → s.loop ≡ false → Step true s t → ⊥
wait-stuck o w l (spawns p) = cc
wait-stuck o w l (announces p) = cc
wait-stuck o w l (enters p) = cc
wait-stuck o w l (quits_itself p r) = cc
wait-stuck o w l (leaves p r) = cc
wait-stuck o w l (clears p) = cc
wait-stuck o w l (wakes p r) = cc
wait-stuck o w l (returns p) = cc
wait-stuck o w l (finds_loop b p r) = cc
wait-stuck o w l (finds_none b p r) = cc
wait-stuck o w l (quits p r) = cc
wait-stuck o w l (quits_gone p r) = cc
wait-stuck o w l (joins p r) = cc

-- From every state in which the destructor has found a loop that was announced and has not begun: if it
-- calls `quit` first, then `loop` resets it, and the destructor waits in `join` with no step left,
-- unless something in the loop calls its `quit`.
pub join_for_ever :
    {s : System}
    → Reaches false s
    → s.owner ≡ quitting
    → s.worker ≡ announced
    → (t : System) × Reaches false t
      × (t.owner ≡ joining)
      × (t.worker ≡ looping)
      × ¬ ((u : System) × Step false t u)
join_for_ever {s} r o w =
    let t : System = record s { owner = joining; worker = looping; quit = false } in
    (
      t,
      later (later r (quits o (λ e. absurd (cc e)))) (enters w),
      refl,
      refl,
      λ (u, st). join-stuck refl refl refl st,
    )

-- From every state in which the owner waits in `startLoop` and the loop runs: if something in the loop
-- calls its `quit` before the owner wakes, the thread can end and take back the pointer, and the owner
-- waits with no step left.
pub wait_for_ever :
    {s : System}
    → Reaches true s
    → s.owner ≡ waiting
    → s.worker ≡ looping
    → (t : System) × Reaches true t
      × (t.owner ≡ waiting)
      × (t.worker ≡ ended)
      × ¬ ((u : System) × Step true t u)
wait_for_ever {s} r o w = (
  record s { worker = ended; loop = false; quit = true },
  later (later (later r (quits_itself refl w)) (leaves w refl)) (clears refl),
  o,
  refl,
  λ (u, st). wait-stuck o refl refl st,
)
