-- ===== src/ThreadPool.antt =====
-- twnl/EventLoopThreadPool.h and twnl/EventLoopThreadPool.cc: the loops among which connections are
-- shared. A loop is a number; `none` is a failed assertion, or an access outside `loops_`. All
-- operations run in the thread of the base loop, as the code asserts.
pub mod Rounds
mod Tests
use twnl.Base.{
  ℕ, zero, suc, ◌%◌, ◌==◌, leb, if◌then◌else◌, ℤ, pos, negsuc, Bool, true, false, not, ◌&&◌, Option,
  none, some, List, [], ◌∷◌, ◌++◌, length, get_elem?, check, ◌>>=◌, ◌>>◌,
}

pub record Pool : Type 0 where
  pub base_loop : ℕ
  pub started : Bool
  pub num_threads : ℤ
  pub next : ℕ
  -- each thread by the number in its name
  pub threads : List ℕ
  pub loops : List ℕ
  -- the loops on which the pool itself has run the callback given to `start`
  pub called : List ℕ

unfoldable pub new : ℕ → Pool
new base = record {
  base_loop = base;
  started = false;
  num_threads = pos 0;
  next = 0;
  threads = [];
  loops = [];
  called = [];
}

abbrev pub set_thread_num : ℤ → Pool → Pool
set_thread_num n p = record p { num_threads = n }

-- How often the loop of `start` runs.
abbrev pub rounds : ℤ → ℕ
rounds (pos n) = n
rounds (negsuc n) = 0

abbrev pub is_zero : ℤ → Bool
is_zero (pos zero) = true
is_zero _ = false

-- The loop of `start` from `i` on; `loop_of` has what `startLoop` of each new thread returns.
unfoldable pub spawn : (ℕ → ℕ) → ℕ → ℕ → Pool → Pool
spawn loop_of zero i p = p
spawn loop_of (suc k) i p =
    spawn loop_of k (suc i)
      (record p { threads = p.threads ++ i ∷ []; loops = p.loops ++ loop_of i ∷ [] })

-- `cb`: whether there is a callback.
unfoldable pub start : (ℕ → ℕ) → Bool → Pool → Option Pool
unfolding spawn
start loop_of cb p = do
  check (not p.started)
  let p1 : Pool = spawn loop_of (rounds p.num_threads) 0 (record p { started = true })
  some (
      if is_zero p.num_threads && cb
      then record p1 { called = p1.called ++ p1.base_loop ∷ [] }
      else p1)

unfoldable pub get_next_loop : Pool → Option (ℕ × Pool)
get_next_loop p = do
  check p.started
  elim p.loops [
    | [] ↦ some (p.base_loop, p)
    | l ∷ ls ↦ do
      loop ← get_elem? p.loops p.next
      some (loop, record p { next = if leb (length p.loops) (suc p.next) then 0 else suc p.next })
  ]

unfoldable pub get_loop_for_hash : ℕ → Pool → Option ℕ
get_loop_for_hash hash p = elim p.loops [
  | [] ↦ some p.base_loop
  | l ∷ ls ↦ get_elem? p.loops (hash % length p.loops)
]

unfoldable pub get_all_loops : Pool → Option (List ℕ)
get_all_loops p = do
  check p.started
  some (elim p.loops [ [] ↦ p.base_loop ∷ [] | l ∷ ls ↦ l ∷ ls ])
