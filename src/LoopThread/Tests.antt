-- ===== src/LoopThread/Tests.antt =====
-- The thread of twnl/EventLoopThread.cc on concrete orders of steps.
use twnl.Base.{◌≡◌, refl, true, false}
use twnl.LoopThread.{
  System, announced, looping, returned, quitting, joining, Step, spawns, announces, wakes, returns,
  finds_loop, Reaches, here, later,
}
use twnl.LoopThread.Handshake.{started_loop, handed_out}
use twnl.LoopThread.Lost.{join_for_ever}

-- `startLoop` has returned before the thread calls `loop`.
early : (s : System) × Reaches false s × (s.owner ≡ returned true) × (s.worker ≡ announced)
early = (
  _,
  later (later (later (later here (spawns refl)) (announces refl)) (wakes refl refl))
      (returns refl),
  refl,
  refl,
)

started_loop_example : (handed_out early.0 ≡ true) × (early.0.dangling ≡ false)
started_loop_example = started_loop early.1

abbrev destroyed : System
destroyed = record {
  worker = announced;
  owner = quitting;
  loop = true;
  quit = false;
  dangling = false;
}

destroyed_reached : Reaches false destroyed
destroyed_reached =
    later
      (later (later (later (later here (spawns refl)) (announces refl)) (wakes refl refl))
        (returns refl))
      (finds_loop true refl refl)

join_for_ever_example :
    (t : System) × Reaches false t
    × (t.owner ≡ joining)
    × (t.worker ≡ looping)
    × ¬ ((u : System) × Step false t u)
join_for_ever_example = join_for_ever destroyed_reached refl refl
