-- ===== src/TcpServer/Sound.antt =====
-- The connections of a server, the functors that its loops hold and its map agree.
use twnl.Base.{
  ℕ, suc, zero, ◌==◌, ◌≡◌, ◌≢◌, refl, sym, ap, ◌∙◌, subst, if◌then◌else◌, Bool, true, false, ◌||◌,
  Option, none, some, List, [], ◌∷◌, ◌++◌, replicate, arith, append-nil, append_assoc,
}
use twnl.TcpServer.{Entry}
use twnl.TcpServer.Lives.{Ends, IsFresh}
use twnl.TcpServer.Live
use twnl.TcpServer.Live.{
  Named, without, erase-without, insert-new, connected_server, connected_server-IsValid,
  remove_connection-IsValid,
}
use twnl.TcpServer.System.{Kind, establishing, removing, destroying, Job, Member, System, job}

-- The functors for one connection.
unfoldable pub jobs_of : ℕ → List Job → List Kind
jobs_of id [] = []
jobs_of id (j ∷ js) = let rest = jobs_of id js in if j.id == id then j.kind ∷ rest else rest

unfoldable pub has_id : ℕ → List Entry → Bool
has_id id [] = false
has_id id (x ∷ xs) = let rest = has_id id xs in (x.id == id) || rest

-- The life of a connection: not made, made, up, closed, taken out of the map, destroyed.
pub data Phase : Type 0 where
  absent fresh alive closed removed gone : Phase

abbrev pub jobs_in : Phase → List Kind
jobs_in fresh = establishing ∷ []
jobs_in closed = removing ∷ []
jobs_in removed = destroying ∷ []
jobs_in _ = []

abbrev pub in_map : Phase → Bool
in_map fresh = true
in_map alive = true
in_map closed = true
in_map _ = false

-- The phase in which a functor waits.
abbrev pub waiting : Kind → Phase
waiting establishing = fresh
waiting removing = closed
waiting destroying = removed

abbrev pub Holds : Phase → Option Member → Type 0
Holds absent o = o ≡ none
Holds p none = ⊥
Holds fresh (some m) = IsFresh m.conn
Holds alive (some m) = Ends false m.conn
Holds p (some m) = Ends true m.conn

pub record Fits (id : ℕ) (s : System) : Type 0 where
  pub phase : Phase
  pub held : Holds phase (s.store id)
  pub mapped : has_id id s.server.connections ≡ in_map phase
  pub waits : jobs_of id s.jobs ≡ jobs_in phase

pub record IsSound (name : List ℕ) (s : System) : Type 0 where
  pub server : Live.IsValid name s.server
  pub entries :
      (id : ℕ) (m : Member)
      → s.store id ≡ some m
      → (m.entry.id ≡ id) × Named name s.server.next_conn_id m.entry
  pub fits : (id : ℕ) → Fits id s

pub jobs_of-append :
    (id : ℕ) (xs ys : List Job) → jobs_of id (xs ++ ys) ≡ jobs_of id xs ++ jobs_of id ys
unfolding jobs_of
jobs_of-append id [] ys = refl
jobs_of-append id (x ∷ xs) ys = ground (arith, jobs_of-append id xs ys)

pub jobs_of_self :
    (id : ℕ) (k : Kind) (js : List Job) → jobs_of id (job k id ∷ js) ≡ k ∷ jobs_of id js
unfolding jobs_of
jobs_of_self id k js = ground arith

pub jobs_of_other :
    (id other : ℕ) (k : Kind) (js : List Job)
    → id ≢ other
    → jobs_of other (job k id ∷ js) ≡ jobs_of other js
unfolding jobs_of
jobs_of_other id other k js ne = ground (arith, ne)

not_empty : (xs ys : List Kind) (k : Kind) → xs ++ k ∷ ys ≡ [] → ⊥
not_empty [] ys k e = cc (e)
not_empty (x ∷ xs) ys k e = cc (e)

one_in : (xs ys : List Kind) (k l : Kind) → xs ++ k ∷ ys ≡ l ∷ [] → (k ≡ l) × (xs ++ ys ≡ [])
one_in [] ys k l e = (cc (e), cc (e))
one_in (x ∷ xs) ys k l e = absurd (not_empty xs ys k (cc (e)))

-- A functor of a list is the only one for its connection, and tells the phase.
one_job :
    (xs ys : List Kind) (k : Kind) (p : Phase)
    → xs ++ k ∷ ys ≡ jobs_in p
    → (p ≡ waiting k) × (xs ++ ys ≡ [])
one_job xs ys k absent e = absurd (not_empty xs ys k e)
one_job xs ys k alive e = absurd (not_empty xs ys k e)
one_job xs ys k gone e = absurd (not_empty xs ys k e)
one_job xs ys k fresh e =
    let (same, others) = one_in xs ys k establishing e in (sym (ap waiting same), others)
one_job xs ys k closed e =
    let (same, others) = one_in xs ys k removing e in (sym (ap waiting same), others)
one_job xs ys k removed e =
    let (same, others) = one_in xs ys k destroying e in (sym (ap waiting same), others)

pub has_id-append :
    (id : ℕ) (xs : List Entry) (e : Entry)
    → has_id id (xs ++ e ∷ []) ≡ (has_id id xs || (e.id == id))
unfolding has_id
has_id-append id [] e = ground arith
has_id-append id (x ∷ xs) e = ground (arith, has_id-append id xs e)

pub has_id-without : (id : ℕ) (xs : List Entry) → has_id id (without id xs) ≡ false
unfolding has_id without
has_id-without id [] = refl
has_id-without id (x ∷ xs) = ground (arith, has_id-without id xs)

pub has_id-without_other :
    (id other : ℕ) (xs : List Entry) → id ≢ other → has_id other (without id xs) ≡ has_id other xs
unfolding has_id without
has_id-without_other id other [] ne = refl
has_id-without_other id other (x ∷ xs) ne = ground (arith, has_id-without_other id other xs ne, ne)

-- A step that is about another connection.
pub Fits-other :
    {id : ℕ} {s t : System}
    → Fits id s
    → t.store id ≡ s.store id
    → has_id id t.server.connections ≡ has_id id s.server.connections
    → jobs_of id t.jobs ≡ jobs_of id s.jobs
    → Fits id t
Fits-other f store map jobs = record {
  phase = f.phase;
  held = subst (Holds f.phase) (sym store) f.held;
  mapped = map ∙ f.mapped;
  waits = jobs ∙ f.waits;
}

-- A functor that is run tells the phase, and leaves no other for its connection.
pub taken :
    {id : ℕ} {s : System} (k : Kind) (before after : List Job)
    → Fits id s
    → s.jobs ≡ before ++ job k id ∷ after
    → Holds (waiting k) (s.store id)
      × (has_id id s.server.connections ≡ in_map (waiting k))
      × (jobs_of id (before ++ after) ≡ [])
taken {id} {s} k before after f e =
    let split : jobs_of id before ++ k ∷ jobs_of id after ≡ jobs_in f.phase =
      ap (jobs_of id before ++◌) (sym (jobs_of_self id k after))
      ∙ sym (jobs_of-append id before (job k id ∷ after))
      ∙ sym (ap (jobs_of id) e)
      ∙ f.waits in
    let (phase, others) = one_job (jobs_of id before) (jobs_of id after) k f.phase split in
    (
      subst (λ p. Holds p (s.store id)) phase f.held,
      f.mapped ∙ ap in_map phase,
      jobs_of-append id before after ∙ others,
    )

pub jobs_of_rest :
    (id other : ℕ) (k : Kind) (before after jobs : List Job)
    → id ≢ other
    → jobs ≡ before ++ job k id ∷ after
    → jobs_of other (before ++ after) ≡ jobs_of other jobs
jobs_of_rest id other k before after jobs ne e =
    jobs_of-append other before after
    ∙ ap (jobs_of other before ++◌) (sym (jobs_of_other id other k after ne))
    ∙ sym (jobs_of-append other before (job k id ∷ after))
    ∙ sym (ap (jobs_of other) e)

pub jobs_of_added :
    (id : ℕ) (k : Kind) (js : List Job)
    → jobs_of id js ≡ []
    → jobs_of id (js ++ job k id ∷ []) ≡ k ∷ []
unfolding jobs_of
jobs_of_added id k js none_left =
    jobs_of-append id js (job k id ∷ [])
    ∙ ap (◌++ jobs_of id (job k id ∷ [])) none_left
    ∙ jobs_of_self id k []

pub jobs_of_added_other :
    (id other : ℕ) (k : Kind) (js : List Job)
    → id ≢ other
    → jobs_of other (js ++ job k id ∷ []) ≡ jobs_of other js
unfolding jobs_of
jobs_of_added_other id other k js ne =
    jobs_of-append other js (job k id ∷ [])
    ∙ ap (jobs_of other js ++◌) (jobs_of_other id other k [] ne)
    ∙ append-nil (jobs_of other js)

pub jobs_of_added_many :
    (n id other : ℕ) (k : Kind) (js : List Job)
    → id ≢ other
    → jobs_of other (js ++ replicate n (job k id)) ≡ jobs_of other js
jobs_of_added_many zero id other k js ne = ap (jobs_of other) (append-nil js)
jobs_of_added_many (suc n) id other k js ne =
    ap (jobs_of other) (sym (append_assoc js (job k id ∷ []) (replicate n (job k id))))
    ∙ jobs_of_added_many n id other k (js ++ job k id ∷ []) ne
    ∙ jobs_of_added_other id other k js ne
