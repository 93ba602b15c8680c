-- ===== src/ThreadPool/Rounds.antt =====
-- Which loops twnl/EventLoopThreadPool.cc gives out.
use native.Mathlib.Nat.{mod-lt, mod-one, mod-eq_of_lt, mod_self, mod-add-mod}
use twnl.Base.{
  ℕ, zero, suc, ◌+◌, ◌<◌, ◌%◌, ◌==◌, ◌≡◌, refl, sym, ap, ◌∙◌, leb, if◌then◌else◌, pos, Bool, true,
  false, Option, none, some, List, [], ◌∷◌, ◌++◌, arith, length, get_elem?, get_elem?-some, dec_lt,
  check_passed, ◌>>=◌, append_assoc, map, append-nil,
}
use twnl.ThreadPool.{
  Pool, new, set_thread_num, spawn, start, get_next_loop, get_loop_for_hash, get_all_loops,
}

-- i, i + 1, ... : `n` of them.
unfoldable pub count_from : ℕ → ℕ → List ℕ
count_from i zero = []
count_from i (suc n) = i ∷ count_from (suc i) n

-- `k` calls of `getNextLoop`, with the loops that they return.
unfoldable pub next_loops : ℕ → Pool → Option (List ℕ × Pool)
next_loops zero p = some ([], p)
next_loops (suc k) p = do
  (loop, p1) ← get_next_loop p
  (rest, p2) ← next_loops k p1
  some (loop ∷ rest, p2)

-- A pool that was started with threads.
pub record Running (p : Pool) : Type 0 where
  pub up : p.started ≡ true
  pub in_range : p.next < length p.loops

wrapped : (n i : ℕ) → i < n → (if leb n (suc i) then 0 else suc i) ≡ suc i % n
wrapped n i h = elim (dec_lt (suc i) n) [
  | yes small ↦ ground (arith, small) ∙ sym (mod-eq_of_lt small)
  | no large ↦
      let at_end : suc i ≡ n = omega arith in
      ground (arith, at_end) ∙ sym (mod_self n) ∙ ap (◌% n) (sym at_end)
]

cons_case {ℓ} :
    {B : Type ℓ} (xs : List ℕ) (a b : B) → 0 < length xs → (elim xs [ [] ↦ a | x ∷ rest ↦ b ]) ≡ b
cons_case [] a b h = absurd (omega arith)
cons_case (x ∷ rest) a b h = refl

-- The pool after one call.
abbrev pub turned : Pool → Pool
turned p = record p { next = if leb (length p.loops) (suc p.next) then 0 else suc p.next }

pub get_next_loop-some :
    (p : Pool)
    → Running p
    → (l : ℕ) × (get_elem? p.loops p.next ≡ some l) × (get_next_loop p ≡ some (l, turned p))
unfolding get_next_loop
get_next_loop-some p r =
    let (l, at) = get_elem?-some p.loops p.next r.in_range in
    (
      l,
      at,
      check_passed p.started _ r.up
          ∙ cons_case p.loops _ _ (omega (arith, r.in_range))
          ∙ ap (λ o. o >>= λ loop. some (loop, turned p)) at,
    )

pub turned-Running : (p : Pool) → Running p → Running (turned p)
turned-Running p r = record {
  up = r.up;
  in_range =
      rw (wrapped (length p.loops) p.next r.in_range)
        (mod-lt (suc p.next) (omega (arith, r.in_range)));
}

round_elem :
    (p : Pool)
    → Running p
    → (l : ℕ) (ls : List ℕ) (k : ℕ) → get_elem? p.loops p.next ≡ some l
    → ((i : ℕ)
        → i < k
        → get_elem? ls i ≡ get_elem? p.loops (((turned p).next + i) % length p.loops))
    → (i : ℕ) → i < suc k
    → get_elem? (l ∷ ls) i ≡ get_elem? p.loops ((p.next + i) % length p.loops)
round_elem p r l ls k at all zero h =
    sym at
    ∙ ap (get_elem? p.loops) (sym (ap (◌% length p.loops) (omega arith) ∙ mod-eq_of_lt r.in_range))
round_elem p r l ls k at all (suc i) h =
    all i (omega (arith, h))
    ∙ ap (get_elem? p.loops) (
        ap (λ j. (j + i) % length p.loops) (wrapped (length p.loops) p.next r.in_range)
        ∙ mod-add-mod (suc p.next) (length p.loops) i
        ∙ ap (◌% length p.loops) (omega arith))

-- In a pool that was started with threads, any number `k` of calls of `getNextLoop` succeed and go round
-- the loops: the call number `i`, from 0, returns the loop at `next + i` modulo the number of loops.
pub next_loops_lem :
    (k : ℕ) (p : Pool)
    → Running p
    → (ls : List ℕ) × (p' : Pool) × (next_loops k p ≡ some (ls, p'))
      × (length ls ≡ k)
      × ((i : ℕ) → i < k → get_elem? ls i ≡ get_elem? p.loops ((p.next + i) % length p.loops))
unfolding next_loops
next_loops_lem zero p r = ([], p, refl, refl, λ i h. absurd (omega arith))
next_loops_lem (suc k) p r =
    let (l, at, e) = get_next_loop-some p r in
    let (ls, p', e', len, all) = next_loops_lem k (turned p) (turned-Running p r) in
    (l ∷ ls, p', rw e (rw e' refl), omega (arith, len), round_elem p r l ls k at all)

spawn_lem :
    (loop_of : ℕ → ℕ) (n i : ℕ) (p : Pool)
    → ((spawn loop_of n i p).loops ≡ p.loops ++ map loop_of (count_from i n))
      × ((spawn loop_of n i p).threads ≡ p.threads ++ count_from i n)
      × ((spawn loop_of n i p).next ≡ p.next)
      × ((spawn loop_of n i p).started ≡ p.started)
      × ((spawn loop_of n i p).called ≡ p.called)
      × ((spawn loop_of n i p).base_loop ≡ p.base_loop)
unfolding spawn count_from
spawn_lem loop_of zero i p =
    (sym (append-nil p.loops), sym (append-nil p.threads), refl, refl, refl, refl)
spawn_lem loop_of (suc n) i p =
    let (loops, threads, next, up, called, base) =
      spawn_lem loop_of n (suc i)
        (record p { threads = p.threads ++ i ∷ []; loops = p.loops ++ loop_of i ∷ [] }) in
    (
      loops ∙ append_assoc p.loops (loop_of i ∷ []) (map loop_of (count_from (suc i) n)),
      threads ∙ append_assoc p.threads (i ∷ []) (count_from (suc i) n),
      next,
      up,
      called,
      base,
    )

-- `start` on a new pool with `n` threads: it succeeds, the threads are numbered from 0 and their loops
-- stand in the same order, and the callback runs on the base loop exactly if there is one and no
-- thread; a second `start` fails; with a thread at least, the pool is running.
pub start_lem :
    (loop_of : ℕ → ℕ) (cb : Bool) (base n : ℕ)
    → (p : Pool) × (start loop_of cb (set_thread_num (pos n) (new base)) ≡ some p)
      × (p.threads ≡ count_from 0 n)
      × (p.loops ≡ map loop_of (count_from 0 n))
      × (p.called ≡ (if cb then if n == 0 then base ∷ [] else [] else []))
      × (start loop_of cb p ≡ none)
      × (0 < n → Running p)
unfolding start new count_from
start_lem loop_of true base zero = (_, refl, refl, refl, refl, refl, λ h. absurd (omega arith))
start_lem loop_of false base zero = (_, refl, refl, refl, refl, refl, λ h. absurd (omega arith))
start_lem loop_of cb base (suc n) =
    let p0 : Pool = record (set_thread_num (pos (suc n)) (new base)) { started = true } in
    let (loops, threads, next, up, called, same) = spawn_lem loop_of (suc n) 0 p0 in
    (
      spawn loop_of (suc n) 0 p0,
      refl,
      threads,
      loops,
      called ∙ ground arith,
      rw up refl,
      λ h. record { up = up; in_range = rw (next, loops) (omega arith) },
    )

-- In a started pool, with or without threads, `getLoopForHash` and `getAllLoops` succeed, and the first
-- returns the loop of the second's list at the hash modulo the length of the list.
pub get_loop_for_hash_lem :
    (hash : ℕ) (p : Pool)
    → p.started ≡ true
    → (l : ℕ) × (ls : List ℕ) × (get_loop_for_hash hash p ≡ some l)
      × (get_all_loops p ≡ some ls)
      × (get_elem? ls (hash % length ls) ≡ some l)
unfolding get_loop_for_hash get_all_loops
get_loop_for_hash_lem hash p up = go p.loops refl
  where
    go :
        (xs : List ℕ)
        → p.loops ≡ xs
        → (l : ℕ) × (ls : List ℕ) × (get_loop_for_hash hash p ≡ some l)
          × (get_all_loops p ≡ some ls)
          × (get_elem? ls (hash % length ls) ≡ some l)
    go [] e = (
      p.base_loop,
      p.base_loop ∷ [],
      rw e refl,
      rw (up, e) refl,
      ap (get_elem? (p.base_loop ∷ [])) (mod-one hash),
    )
    go (x ∷ rest) e =
        let (l, at) =
          get_elem?-some (x ∷ rest) (hash % length (x ∷ rest)) (mod-lt hash (omega arith)) in
        (l, x ∷ rest, rw e at, rw (up, e) refl, at)
