-- ===== src/ThreadPool/Tests.antt =====
-- A pool of three loops.
use twnl.Base.{
  ℕ, ◌+◌, ◌<◌, ◌%◌, ◌≡◌, refl, pos, true, some, List, [], ◌∷◌, arith, length, get_elem?,
}
use twnl.ThreadPool.{Pool}
use twnl.ThreadPool.Rounds.{next_loops, next_loops_lem}

abbrev three : Pool
three = record {
  base_loop = 9;
  started = true;
  num_threads = pos 3;
  next = 1;
  threads = 0 ∷ 1 ∷ 2 ∷ [];
  loops = 10 ∷ 11 ∷ 12 ∷ [];
  called = [];
}

next_loops_lem_example :
    (ls : List ℕ) × (p' : Pool) × (next_loops 5 three ≡ some (ls, p'))
    × (length ls ≡ 5)
    × ((i : ℕ) → i < 5 → get_elem? ls i ≡ get_elem? three.loops ((1 + i) % 3))
next_loops_lem_example = next_loops_lem 5 three (record { up = refl; in_range = omega arith })
