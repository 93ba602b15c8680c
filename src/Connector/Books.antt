-- ===== src/Connector/Books.antt =====
-- Who owns the sockets of twnl/Connector.cc, operation by operation.
use twnl.Base.{
  ℕ, zero, suc, ◌==◌, ◌≡◌, ◌⊎◌, refl, sym, ap, ◌∙◌, Bool, true, false, not, ◌||◌, if◌then◌else◌,
  Option, none, some, List, [], ◌∷◌, arith, ◌>>=◌, Option-cases, Ensures, returned, faulted,
  Ensures-bind, Ensures-if, Ensures-check, Ensures-then, Bool-cases, inl, inr,
}
use twnl.Channel.{Channel, Defaults, enable_writing, disable_all}
use twnl.Connector.{
  Connector, State, disconnected, connecting, connected, Effect, opened, closed, handed,
  updated_channel, removed_channel, Dial, init_retry_delay_ms, is_connecting, is_disconnected, log,
  retry, start_connecting, connect_to, start_in_loop, start, restart, stop, cancel_retry,
  is_waiting, drop_timer, ring, remove_and_reset_channel, reset_channel, handle_write, handle_error,
  in_progress, retryable,
}

abbrev gives_up : ℕ → Option ℕ → Option (Option ℕ)
gives_up fd none = none
gives_up fd (some fd') = if fd == fd' then some none else none

abbrev takes : ℕ → Option ℕ → Option (Option ℕ)
takes fd none = some (some fd)
takes fd (some _) = none

-- The channel of a socket is shown to the poller, or taken from it.
abbrev uses : ℕ → Option ℕ → Option (Option ℕ)
uses fd none = none
uses fd (some fd') = if fd == fd' then some (some fd') else none

-- The socket that the connector owns after the effects of a trace: a socket is closed, handed over and
-- shown to the poller or taken from it only by its owner, and no socket is opened while another is
-- owned.
unfoldable pub ledger : List Effect → Option (Option ℕ)
ledger [] = some none
ledger (opened fd ∷ es) = ledger es >>= takes fd
ledger (closed fd ∷ es) = ledger es >>= gives_up fd
ledger (handed fd ∷ es) = ledger es >>= gives_up fd
ledger (updated_channel fd ev ∷ es) = ledger es >>= uses fd
ledger (removed_channel fd ∷ es) = ledger es >>= uses fd
ledger (_ ∷ es) = ledger es

-- The socket that the state says it owns.
abbrev pub held_in : State → Option Channel → Option ℕ
held_in connecting (some ch) = some ch.fd
held_in _ _ = none

abbrev due_in : State → Option Channel → ℕ
due_in connecting _ = 0
due_in _ none = 0
due_in _ (some _) = 1

pub record Settled (c : Connector) : Type 0 where
  pub books : ledger c.trace ≡ some (held_in c.state c.channel)
  pub due : c.resets ≡ due_in c.state c.channel

-- A connector that has just opened or taken back the socket `fd`, in no attempt.
record Holds (fd : ℕ) (c : Connector) : Type 0 where
  owned : ledger c.trace ≡ some (some fd)
  left : c.resets ≡ due_in disconnected c.channel

retry-Settled : (timer fd : ℕ) (c : Connector) → Holds fd c → Settled (retry timer fd c)
unfolding retry ledger
retry-Settled timer fd c v = elim (Bool-cases c.connect) [
  | inl on ↦ record { books = rw on (rw v.owned (ground arith)); due = rw on v.left }
  | inr off ↦ record { books = rw off (rw v.owned (ground arith)); due = rw off v.left }
]

closed-Settled :
    (fd : ℕ) (c : Connector) → Holds fd c → c.state ≡ disconnected → Settled (log (closed fd) c)
unfolding ledger
closed-Settled fd c v e = record { books = rw (v.owned, e) (ground arith); due = rw e v.left }

opened-Holds :
    (fd : ℕ) (c : Connector) → Settled c → c.state ≡ disconnected → Holds fd (log (opened fd) c)
unfolding ledger
opened-Holds fd c v e = record {
  owned = rw v.books (rw e refl);
  left = v.due ∙ ap (λ s. due_in s c.channel) e;
}

used : {o : Option (Option ℕ)} (fd : ℕ) → o ≡ some (some fd) → (o >>= uses fd) ≡ some (some fd)
used fd e = rw e (ground arith)

start_connecting-Settled :
    (d : Defaults) (fd : ℕ) (c : Connector) → Holds fd c → Ensures Settled (start_connecting d fd c)
unfolding start_connecting ledger enable_writing
start_connecting-Settled d fd c v = elim (Option-cases c.channel) [
  | inl e ↦
      rw e
        (returned (record { books = used fd v.owned; due = v.left ∙ ap (due_in disconnected) e }))
  | inr (ch, e) ↦ rw e faulted
]

connect_to-Settled :
    (d : Defaults) (a : Dial) (c : Connector)
    → Settled c
    → c.state ≡ disconnected
    → Ensures Settled (connect_to d a c)
unfolding connect_to
connect_to-Settled d a c v e =
    let h = opened-Holds a.sockfd c v e in
    Ensures-if Settled (in_progress a.errno) _ _
      (start_connecting-Settled d a.sockfd (log (opened a.sockfd) c) h)
      (Ensures-if Settled (retryable a.errno) _ _
        (returned (retry-Settled a.timer a.sockfd (log (opened a.sockfd) c) h))
        (returned (closed-Settled a.sockfd (log (opened a.sockfd) c) h e)))

is_disconnected-eq : (s : State) → is_disconnected s ≡ true → s ≡ disconnected
is_disconnected-eq disconnected e = refl
is_disconnected-eq connecting e = absurd (ground arith)
is_disconnected-eq connected e = absurd (ground arith)

is_connecting-eq : (s : State) → is_connecting s ≡ true → s ≡ connecting
is_connecting-eq connecting e = refl
is_connecting-eq disconnected e = absurd (ground arith)
is_connecting-eq connected e = absurd (ground arith)

pub start_in_loop-Settled :
    (d : Defaults) (a : Dial) (c : Connector) → Settled c → Ensures Settled (start_in_loop d a c)
unfolding start_in_loop
start_in_loop-Settled d a c v = Ensures-check Settled (is_disconnected c.state) _ λ e.
    Ensures-if Settled c.connect _ _ (connect_to-Settled d a c v (is_disconnected-eq c.state e))
      (returned v)

pub start-Settled :
    (d : Defaults) (here : Bool) (a : Dial) (c : Connector)
    → Settled c
    → Ensures Settled (start d here a c)
unfolding start ledger
start-Settled d here a c v =
    Ensures-if Settled here _ _
      (start_in_loop-Settled d a (record c { connect = true })
        (record { books = v.books; due = v.due }))
      (returned (record { books = v.books; due = v.due }))

not_held : (s : State) (o : Option Channel) → is_connecting s ≡ false → held_in s o ≡ none
not_held connecting o e = absurd (ground arith)
not_held disconnected o e = refl
not_held connected o e = refl

due_idle : (o : Option Channel) → due_in connected o ≡ due_in disconnected o
due_idle none = refl
due_idle (some ch) = refl

still_due :
    (s : State) (o : Option Channel) → is_connecting s ≡ false → due_in s o ≡ due_in disconnected o
still_due connecting o e = absurd (ground arith)
still_due disconnected o e = refl
still_due connected o e = due_idle o

pub restart-Settled :
    (d : Defaults) (a : Dial) (c : Connector)
    → Settled c
    → is_connecting c.state ≡ false
    → Ensures Settled (restart d a c)
unfolding restart
restart-Settled d a c v ne =
    start_in_loop-Settled d a
      (record c { state = disconnected; retry_delay_ms = init_retry_delay_ms; connect = true })
      (record {
        books = v.books ∙ ap some (not_held c.state c.channel ne);
        due = v.due ∙ still_due c.state c.channel ne;
      })

pub stop-Settled : (c : Connector) → Settled c → Ensures Settled (stop c)
unfolding stop cancel_retry ledger
stop-Settled c v = Ensures-bind Settled c.timer _ λ t.
    Ensures-check Settled (is_waiting t c.waiting) _
      λ _. returned (record { books = v.books; due = v.due })

pub ring-Settled :
    (d : Defaults) (t : ℕ) (a : Dial) (c : Connector) → Settled c → Ensures Settled (ring d t a c)
unfolding ring
ring-Settled d t a c v = Ensures-check Settled (is_waiting t c.waiting) _ λ _.
    start_in_loop-Settled d a (record c { waiting = drop_timer t c.waiting })
      (record { books = v.books; due = v.due })

remove_and_reset_channel-Holds :
    (d : Defaults) (c : Connector)
    → Settled c
    → c.state ≡ connecting
    → Ensures (λ (fd, c1). Holds fd c1) (remove_and_reset_channel d c)
unfolding remove_and_reset_channel ledger disable_all
remove_and_reset_channel-Holds d c v e = elim (Option-cases c.channel) [
  | inl none_set ↦ rw none_set faulted
  | inr (ch, set) ↦ rw set (
      returned (record {
        owned = used ch.fd (
            used ch.fd (
              v.books
              ∙ ap (λ s. some (held_in s c.channel)) e
              ∙ ap (λ o. some (held_in connecting o)) set));
        left = ap suc (v.due ∙ ap (λ s. due_in s c.channel) e);
      }))
]

handed_over-Settled :
    (fd : ℕ) (c : Connector)
    → Holds fd c
    → Settled (log (if c.connect then handed fd else closed fd) (record c { state = connected }))
unfolding ledger
handed_over-Settled fd c v = elim (Bool-cases c.connect) [
  | inl e ↦ record {
    books = rw e (rw v.owned (ground arith));
    due = v.left ∙ sym (due_idle c.channel);
  }
  | inr e ↦ record {
    books = rw e (rw v.owned (ground arith));
    due = v.left ∙ sym (due_idle c.channel);
  }
]

pub handle_write-Settled :
    (d : Defaults) (err : ℕ) (self : Bool) (timer : ℕ) (c : Connector)
    → Settled c
    → Ensures Settled (handle_write d err self timer c)
unfolding handle_write
handle_write-Settled d err self timer c v = elim (Bool-cases (is_connecting c.state)) [
  | inl on ↦ rw on (
      Ensures-then Settled _ (remove_and_reset_channel-Holds d c v (is_connecting-eq c.state on))
        λ (fd, c1) h.
          Ensures-if Settled (not (err == 0) || self) _ _ (returned (retry-Settled timer fd c1 h))
            (returned (handed_over-Settled fd c1 h)))
  | inr off ↦ rw off (Ensures-check Settled (is_disconnected c.state) _ λ _. returned v)
]

pub handle_error-Settled :
    (d : Defaults) (timer : ℕ) (c : Connector)
    → Settled c
    → Ensures Settled (handle_error d timer c)
unfolding handle_error
handle_error-Settled d timer c v = Ensures-check Settled (is_connecting c.state) _ λ on.
    Ensures-then Settled _ (remove_and_reset_channel-Holds d c v (is_connecting-eq c.state on))
      λ (fd, c1) h. returned (retry-Settled timer fd c1 h)

-- A functor that is due has a channel to release, and no attempt is on.
after_reset :
    (s : State) (o : Option Channel) (n : ℕ)
    → suc n ≡ due_in s o
    → (held_in s o ≡ held_in s none) × (n ≡ due_in s none)
after_reset connecting o n e = absurd (omega arith)
after_reset disconnected none n e = absurd (omega arith)
after_reset disconnected (some ch) n e = (refl, omega arith)
after_reset connected none n e = absurd (omega arith)
after_reset connected (some ch) n e = (refl, omega arith)

ℕ-cases : (n : ℕ) → (n ≡ 0) ⊎ ((k : ℕ) × (n ≡ suc k))
ℕ-cases zero = inl refl
ℕ-cases (suc k) = inr (k, refl)

pub reset_channel-Settled : (c : Connector) → Settled c → Ensures Settled (reset_channel c)
unfolding reset_channel
reset_channel-Settled c v = elim (ℕ-cases c.resets) [
  | inl e ↦ rw e faulted
  | inr (n, e) ↦
      let (same, due) = after_reset c.state c.channel n (sym e ∙ v.due) in
      rw e (returned (record { books = v.books ∙ ap some same; due = due }))
]
