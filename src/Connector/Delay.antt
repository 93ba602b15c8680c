-- ===== src/Connector/Delay.antt =====
-- The pauses between the attempts of twnl/Connector.cc.
use twnl.Base.{
  ℕ, zero, suc, ◌+◌, ◌*◌, ◌^◌, min, ◌≡◌, subst, refl, ap, ◌∙◌, true, false, Option, some, List, [],
  ◌∷◌, arith, length, ◌>>=◌,
}
use twnl.Channel.{Defaults}
use twnl.Connector.{
  Connector, Effect, ran_after, closed, Dial, disconnected, in_progress, retryable, start_in_loop,
  opened,
}

-- The pauses of a trace, newest first.
unfoldable pub waits : List Effect → List ℕ
waits [] = []
waits (ran_after ms ∷ es) = ms ∷ waits es
waits (_ ∷ es) = waits es

-- The pause after `k` others.
abbrev pub pause : ℕ → ℕ
pause k = min (50 * 2 ^ k) 30000

unfoldable pub pauses : ℕ → List ℕ
pauses zero = []
pauses (suc k) = pause k ∷ pauses k

-- One attempt after the other, each begun by the timer of the last.
pub attempts : Defaults → List Dial → Connector → Option Connector
unfolding start_in_loop
attempts d [] c = some c
attempts d (a ∷ dials) c = start_in_loop d a c >>= attempts d dials

-- The kernel refuses each attempt with an error that is worth another.
unfoldable pub Refused : List Dial → Type 0
Refused [] = Unit
Refused (a ∷ dials) = (in_progress a.errno ≡ false) × (retryable a.errno ≡ true) × Refused dials

-- A connector that waits for its timer after `k` pauses.
pub record Waiting (k : ℕ) (c : Connector) : Type 0 where
  pub wanted : c.connect ≡ true
  pub idle : c.state ≡ disconnected
  pub next : c.retry_delay_ms ≡ pause k
  pub past : waits c.trace ≡ pauses k

pause-suc : (k : ℕ) → min (pause k * 2) 30000 ≡ pause (suc k)
pause-suc k = omega arith

-- The connector after a refusal.
abbrev retried : Dial → Connector → Connector
retried a c = record c {
  state = disconnected;
  retry_delay_ms = min (c.retry_delay_ms * 2) 30000;
  timer = some a.timer;
  waiting = a.timer ∷ c.waiting;
  trace = ran_after c.retry_delay_ms ∷ closed a.sockfd ∷ opened a.sockfd ∷ c.trace;
}

attempt-Waiting :
    (d : Defaults) (a : Dial) (k : ℕ) (c : Connector)
    → Waiting k c
    → in_progress a.errno ≡ false
    → retryable a.errno ≡ true
    → (c' : Connector) × (start_in_loop d a c ≡ some c') × Waiting (suc k) c'
unfolding start_in_loop waits pauses
attempt-Waiting d a k c w failed again = (
  retried a c,
  rw (start_in_loop, w.idle, w.wanted, failed, again) refl,
  record {
    wanted = w.wanted;
    idle = refl;
    next = ap (λ ms. min (ms * 2) 30000) w.next ∙ pause-suc k;
    past = rw (w.next, w.past) refl;
  },
)

-- From a connector that wants to connect and has paused `k` times, through any number of attempts
-- that are refused: no assertion fails, and it waits again, after pauses of 50 ms times the powers of
-- 2, none above 30 s.
pub attempts-Waiting :
    (d : Defaults) (dials : List Dial) (k : ℕ) (c : Connector)
    → Waiting k c
    → Refused dials
    → (c' : Connector) × (attempts d dials c ≡ some c') × Waiting (k + length dials) c'
unfolding attempts Refused
attempts-Waiting d [] k c w r = (c, refl, subst (λ n. Waiting n c) (omega arith) w)
attempts-Waiting d (a ∷ dials) k c w (failed, again, r) =
    let (c1, e, w1) = attempt-Waiting d a k c w failed again in
    let (c', e', w') = attempts-Waiting d dials (suc k) c1 w1 r in
    (c', rw e e', subst (λ n. Waiting n c') (omega arith) w')
