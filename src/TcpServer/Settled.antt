-- ===== src/TcpServer/Settled.antt =====
-- What holds of a server with its connections in any order of their steps, and when no functor is left.
use twnl.Base.{
  ℕ, ◌≡◌, refl, sym, ap, ◌∙◌, subst, Bool, true, false, not, Option, none, some, List, [], ◌∷◌,
  ◌++◌, if◌then◌else◌, arith,
}
use twnl.TcpConnection.{Conn, State, is_disconnected, connect_established, connect_destroyed}
use twnl.TcpConnection.Ending.{close_calls, closings}
use twnl.TcpConnection.Lifecycle.{notices, due}
use twnl.TcpConnection.Sending.{level}
use twnl.TcpServer.{Server}
use twnl.TcpServer.Live
use twnl.TcpServer.Live.{reached-IsValid}
use twnl.TcpServer.Lives.{Ends, established-Ends, destroyed-Ends}
use twnl.TcpServer.Sound.{
  has_id, jobs_of, Phase, absent, fresh, alive, closed, removed, gone, jobs_in, in_map, waiting,
  Holds, IsSound, taken,
}
use twnl.TcpServer.Stepping.{Step-IsSound}
use twnl.TcpServer.System.{
  Kind, establishing, removing, destroying, Job, job, Member, System, start_of, Reaches, here,
  later,
}

start-IsSound :
    {base : ℕ} {name : List ℕ} {server : Server}
    → Live.Reaches base name server
    → server.connections ≡ []
    → IsSound name (start_of server)
unfolding has_id jobs_of
start-IsSound r none_made = record {
  server = reached-IsValid r;
  entries = λ id m at. absurd (cc (at));
  fits =
      λ id. record { phase = absent; held = refl; mapped = ap (has_id id) none_made; waits = refl };
}

reached-IsSound : {name : List ℕ} {s t : System} → IsSound name s → Reaches s t → IsSound name t
reached-IsSound v here = v
reached-IsSound v (later r st) = Step-IsSound (reached-IsSound v r) st

-- What a functor finds when it runs.
abbrev pub Runs : Kind → Conn → Type 0
Runs establishing c = (c' : Conn) × (connect_established level c ≡ some c')
Runs removing c = is_disconnected c.state ≡ true
Runs destroying c = (c' : Conn) × (connect_destroyed level c ≡ some c')

abbrev pub found_in_map : Kind → Bool
found_in_map destroying = false
found_in_map _ = true

Holds-Runs : (k : Kind) (m : Member) → Holds (waiting k) (some m) → Runs k m.conn
Holds-Runs establishing m h = let (c', e, _) = established-Ends h in (c', e)
Holds-Runs removing m h = h.state
Holds-Runs destroying m h = let (c', e, _) = destroyed-Ends h in (c', e)

Holds-some :
    (p : Phase) (o : Option Member) → (p ≡ absent → ⊥) → Holds p o → (m : Member) × (o ≡ some m)
Holds-some p (some m) made h = (m, refl)
Holds-some absent none made h = absurd (made refl)
Holds-some fresh none made h = absurd h
Holds-some alive none made h = absurd h
Holds-some closed none made h = absurd h
Holds-some removed none made h = absurd h
Holds-some gone none made h = absurd h

waiting-made : (k : Kind) → waiting k ≡ absent → ⊥
waiting-made establishing e = cc (e)
waiting-made removing e = cc (e)
waiting-made destroying e = cc (e)

waiting-in_map : (k : Kind) → in_map (waiting k) ≡ found_in_map k
waiting-in_map establishing = refl
waiting-in_map removing = refl
waiting-in_map destroying = refl

-- From a server without connections on, in level-triggered mode and in any order of new connections,
-- functors, and calls and events of established connections (but for `startRead` on a connection that
-- is down, and the destructor of the server): a functor that a loop holds is bound to a connection that was made; `connectEstablished`
-- and `connectDestroyed` fail no assertion; and the map has the connection when `connectEstablished` or
-- `removeConnectionInLoop` runs, and no longer when `connectDestroyed` does.
pub functor-Runs :
    {base : ℕ} {name : List ℕ} {server : Server} {s : System} (k : Kind) (before after : List Job)
    (id : ℕ)
    → Live.Reaches base name server
    → server.connections ≡ []
    → Reaches (start_of server) s
    → s.jobs ≡ before ++ job k id ∷ after
    → (m : Member) × (s.store id ≡ some m)
      × Runs k m.conn
      × (has_id id s.server.connections ≡ found_in_map k)
functor-Runs {s = s} k before after id r none_made reached e =
    let v = reached-IsSound (start-IsSound r none_made) reached in
    let (held, map, _) = taken k before after (v.fits id) e in
    let (m, at) = Holds-some (waiting k) (s.store id) (waiting-made k) held in
    (m, at, Holds-Runs k m (subst (Holds (waiting k)) at held), map ∙ waiting-in_map k)

once : (s : State) → closings s ≡ (if is_disconnected s then 1 else 0)
once s = ground arith

-- A connection when nothing is left to run for it.
pub record IsSettled (mapped : Bool) (c : Conn) : Type 0 where
  pub kept : mapped ≡ not (is_disconnected c.state)
  pub told : notices c.trace ≡ due c.state
  pub closed_once : close_calls c.trace ≡ (if is_disconnected c.state then 1 else 0)

-- From a server without connections on, in level-triggered mode and in any order of new connections,
-- functors, and calls and events of established connections (but for `startRead` on a connection that
-- is down, and the destructor of the server), when no loop holds a functor: of the connections that were made the map holds exactly
-- those that are not down; the connection callback has told each of being up once, and of being down
-- once if it is down; and the close callback has run once for each that is down and for no other.
pub settled :
    {base : ℕ} {name : List ℕ} {server : Server} {s : System} (id : ℕ) (m : Member)
    → Live.Reaches base name server
    → server.connections ≡ []
    → Reaches (start_of server) s
    → s.jobs ≡ []
    → s.store id ≡ some m
    → IsSettled (has_id id s.server.connections) m.conn
unfolding jobs_of
settled {s = s} id m r none_made reached idle at =
    let f = (reached-IsSound (start-IsSound r none_made) reached).fits id in
    go f.phase (subst (Holds f.phase) at f.held) f.mapped (sym f.waits ∙ ap (jobs_of id) idle)
  where
    ended :
        (down : Bool)
        → has_id id s.server.connections ≡ not down
        → Ends down m.conn
        → IsSettled (has_id id s.server.connections) m.conn
    ended down map ends = record {
      kept = map ∙ ap not (sym ends.state);
      told = ends.notified.seen;
      closed_once = ends.ending.called ∙ once m.conn.state;
    }

    go :
        (p : Phase)
        → Holds p (some m)
        → has_id id s.server.connections ≡ in_map p
        → jobs_in p ≡ []
        → IsSettled (has_id id s.server.connections) m.conn
    go absent h map jobs = absurd (cc (h))
    go fresh h map jobs = absurd (cc (jobs))
    go alive h map jobs = ended false map h
    go closed h map jobs = absurd (cc (jobs))
    go removed h map jobs = absurd (cc (jobs))
    go gone h map jobs = ended true map h
