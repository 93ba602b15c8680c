-- ===== src/TcpServer/Calling.antt =====
-- The calls on a connection keep it, its functors and the server's map in agreement.
use twnl.Base.{
  ℕ, ◌-◌, ◌≡◌, refl, sym, ap, ◌∙◌, subst, if◌then◌else◌, Bool, true, false, not, some, List, [],
  ◌++◌, replicate, put_self, put_other, ℕ_discrete, append-nil,
}
use twnl.TcpConnection.{Conn, is_connecting, is_disconnected}
use twnl.TcpConnection.Calls.{Call}
use twnl.TcpConnection.Calls
use twnl.TcpConnection.Ending.{close_calls}
use twnl.TcpConnection.Ended.{Allowed}
use twnl.TcpConnection.Sending.{level}
use twnl.TcpServer.Lives.{Ends, called-Ends}
use twnl.TcpServer.System.{removing, Member, System, job, acted}
use twnl.TcpServer.Sound.{
  jobs_of, has_id, Phase, absent, fresh, alive, closed, removed, gone, jobs_in, in_map, Holds, Fits,
  IsSound, Fits-other, jobs_of_added, jobs_of_added_many,
}
use twnl.TcpServer.Running.{entries_put}

-- A call, after which the connection is in the phase `p`.
acted-IsSound :
    {name : List ℕ} {s : System} (p : Phase) (id : ℕ) (m : Member) (c : Conn)
    → IsSound name s
    → s.store id ≡ some m
    → Holds p (some (record m { conn = c }))
    → has_id id s.server.connections ≡ in_map p
    → jobs_of id (acted id m c s).jobs ≡ jobs_in p
    → IsSound name (acted id m c s)
acted-IsSound {name} {s} p id m c v at holds map jobs = record {
  server = v.server;
  entries = entries_put name s.server.next_conn_id s id m c v.entries at;
  fits = λ i. elim (ℕ_discrete id i) [
    | yes same ↦
        subst (λ i. Fits i (acted id m c s)) same
          (record {
            phase = p;
            held = subst (Holds p) (sym (put_self s.store id id _ refl)) holds;
            mapped = map;
            waits = jobs;
          })
    | no other ↦ Fits-other (v.fits i) (put_other s.store id i _ other) refl (
        jobs_of_added_many (close_calls c.trace - close_calls m.conn.trace) id i removing s.jobs
          other)
  ];
}

-- The functors for the connection after a call in which the close callback ran `n` times.
jobs_acted :
    (n id : ℕ) (m : Member) (c : Conn) (s : System)
    → close_calls c.trace - close_calls m.conn.trace ≡ n
    → jobs_of id (acted id m c s).jobs ≡ jobs_of id (s.jobs ++ replicate n (job removing id))
jobs_acted n id m c s e = ap (λ n. jobs_of id (s.jobs ++ replicate n (job removing id))) e

pub calls-IsSound :
    {name : List ℕ} {s : System} (k : Call) (id : ℕ) (m : Member) (c : Conn)
    → IsSound name s
    → s.store id ≡ some m
    → is_connecting m.conn.state ≡ false
    → Allowed k (not (is_disconnected m.conn.state))
    → Calls.step level k m.conn ≡ some c
    → IsSound name (acted id m c s)
calls-IsSound {name} {s} k id m c v at started allowed e =
    let f = v.fits id in go f.phase (subst (Holds f.phase) at f.held) f.mapped f.waits
  where
    alive_case :
        (down : Bool)
        → Ends down c
        → close_calls c.trace - close_calls m.conn.trace ≡ (if down then 1 else 0)
        → has_id id s.server.connections ≡ true
        → jobs_of id s.jobs ≡ []
        → IsSound name (acted id m c s)
    alive_case false ends n map jobs =
        acted-IsSound alive id m c v at ends map
          (jobs_acted 0 id m c s n ∙ ap (jobs_of id) (append-nil s.jobs) ∙ jobs)
    alive_case true ends n map jobs =
        acted-IsSound closed id m c v at ends map
          (jobs_acted 1 id m c s n ∙ jobs_of_added id removing s.jobs jobs)

    down_case :
        (down : Bool) (p : Phase)
        → Ends down c
        → down ≡ true
        → close_calls c.trace - close_calls m.conn.trace ≡ 0
        → (Ends true c → Holds p (some (record m { conn = c })))
        → has_id id s.server.connections ≡ in_map p
        → jobs_of id s.jobs ≡ jobs_in p
        → IsSound name (acted id m c s)
    down_case down p ends is_down n holds map jobs =
        acted-IsSound p id m c v at (holds (subst (λ d. Ends d c) is_down ends)) map
          (jobs_acted 0 id m c s n ∙ ap (jobs_of id) (append-nil s.jobs) ∙ jobs)

    go :
        (p : Phase)
        → Holds p (some m)
        → has_id id s.server.connections ≡ in_map p
        → jobs_of id s.jobs ≡ jobs_in p
        → IsSound name (acted id m c s)
    go absent held map jobs = absurd (cc (held))
    go fresh held map jobs = absurd (cc (held.state, started))
    go alive held map jobs =
        let (down, ends, _, n) = called-Ends k false held allowed e in
        alive_case down ends n map jobs
    go closed held map jobs =
        let (down, ends, is_down, n) = called-Ends k true held allowed e in
        down_case down closed ends (is_down refl) n (λ x. x) map jobs
    go removed held map jobs =
        let (down, ends, is_down, n) = called-Ends k true held allowed e in
        down_case down removed ends (is_down refl) n (λ x. x) map jobs
    go gone held map jobs =
        let (down, ends, is_down, n) = called-Ends k true held allowed e in
        down_case down gone ends (is_down refl) n (λ x. x) map jobs
