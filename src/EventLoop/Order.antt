-- ===== src/EventLoop/Order.antt =====
-- The functors of twnl/EventLoop.cc run in the order in which they were queued.
use twnl.Base.{
  ℕ, ◌≡◌, refl, sym, ap, ◌∙◌, true, List, [], ◌∷◌, ◌++◌, append_assoc, append-nil, Bool-cases, inl,
  inr,
}
use twnl.EventLoop.{
  Loop, Stage, running, new, wakeup, handle_read, push, queue_in_loop, run_functors,
}
use twnl.EventLoop.Steps.{
  Step, enters, goes_on, leaves, polls, reads, handles, calls, swaps, runs, finishes, queues, quits,
  queues_early, quits_early, pushes, asks, wakes, Reaches, here, later,
}

-- The functors that `doPendingFunctors` has taken out and not run yet.
abbrev pub taken : Stage → List ℕ
taken (running fs) = fs
taken _ = []

-- What has run, what is taken out and what is pending, in the order of queuing.
record Fifo (l : Loop) : Type 0 where
  order : l.ran ++ (taken l.stage ++ l.pending) ≡ l.queued

idle_order :
    (l : Loop) {s : Stage} → l.stage ≡ s → taken s ≡ [] → Fifo l → l.ran ++ l.pending ≡ l.queued
idle_order l e none_taken a =
    ap (λ t. l.ran ++ (t ++ l.pending)) (sym (ap taken e ∙ none_taken)) ∙ a.order

push_order :
    (ran fs pending queued : List ℕ) (f : ℕ)
    → ran ++ (fs ++ pending) ≡ queued
    → ran ++ (fs ++ (pending ++ f ∷ [])) ≡ queued ++ f ∷ []
push_order ran fs pending queued f e =
    ap (ran ++◌) (sym (append_assoc fs pending (f ∷ [])))
    ∙ sym (append_assoc ran (fs ++ pending) (f ∷ []))
    ∙ ap (◌++ f ∷ []) e

queue_in_loop-Fifo : (l : Loop) (f : ℕ) → Fifo l → Fifo (queue_in_loop true f l)
unfolding queue_in_loop push wakeup
queue_in_loop-Fifo l f a = elim (Bool-cases l.calling) [
  | inl e ↦ rw e (record { order = push_order l.ran (taken l.stage) l.pending l.queued f a.order })
  | inr e ↦ rw e (record { order = push_order l.ran (taken l.stage) l.pending l.queued f a.order })
]

Step-Fifo : {l l' : Loop} → Step l l' → Fifo l → Fifo l'
unfolding wakeup handle_read push
Step-Fifo {l} (enters s free) a = record { order = idle_order l s refl a }
Step-Fifo {l} (goes_on s on) a = record { order = idle_order l s refl a }
Step-Fifo {l} (leaves s off) a = record { order = idle_order l s refl a }
Step-Fifo {l} (polls es s) a = record { order = idle_order l s refl a }
Step-Fifo {l} (reads es s) a = record { order = idle_order l s refl a }
Step-Fifo {l} (handles es s) a = record { order = idle_order l s refl a }
Step-Fifo {l} (calls s) a = record { order = idle_order l s refl a }
Step-Fifo {l} (swaps s) a = record {
  order = ap (l.ran ++◌) (append-nil l.pending) ∙ idle_order l s refl a;
}
Step-Fifo {l} (runs f fs s) a = record {
  order =
      append_assoc l.ran (f ∷ []) (fs ++ l.pending)
      ∙ ap (λ t. l.ran ++ (taken t ++ l.pending)) (sym s)
      ∙ a.order;
}
Step-Fifo {l} (finishes s) a = record { order = idle_order l s refl a }
Step-Fifo {l} (queues f s) a = queue_in_loop-Fifo l f a
Step-Fifo (quits s) a = record { order = a.order }
Step-Fifo {l} (queues_early f s) a = record { order = (queue_in_loop-Fifo l f a).order }
Step-Fifo (quits_early s) a = record { order = a.order }
Step-Fifo {l} (pushes f) a = record {
  order = push_order l.ran (taken l.stage) l.pending l.queued f a.order;
}
Step-Fifo asks a = record { order = a.order }
Step-Fifo (wakes n e) a = record { order = a.order }

reached-Fifo : {l : Loop} → Reaches new l → Fifo l
unfolding new
reached-Fifo here = record { order = refl }
reached-Fifo (later r s) = Step-Fifo s (reached-Fifo r)

-- In every state that any order of the steps of the loop and of other threads leads to: the functors
-- that have run, those that `doPendingFunctors` has taken out, and those that are pending make up, in
-- this order, all that were queued, in the order of queuing.
pub run_in_order : {l : Loop} → Reaches new l → l.ran ++ (taken l.stage ++ l.pending) ≡ l.queued
run_in_order r = (reached-Fifo r).order

-- A functor or a callback that does nothing to the loop.
abbrev pub quiet : Loop → Loop
quiet l = l

pub run_functors-quiet :
    (fs : List ℕ) (l : Loop)
    → run_functors (λ f. quiet) fs l ≡ record l { stage = running []; ran = l.ran ++ fs }
unfolding run_functors
run_functors-quiet [] l =
    ap (λ r. record l { stage = running []; ran = r }) (sym (append-nil l.ran))
run_functors-quiet (f ∷ fs) l =
    run_functors-quiet fs (record l { stage = running fs; ran = l.ran ++ f ∷ [] })
    ∙ ap (λ r. record l { stage = running []; ran = r }) (append_assoc l.ran (f ∷ []) fs)
