-- ===== src/TcpServer/Accepting.antt =====
-- A new connection of a server, its first functor and the map agree.
use twnl.Base.{
  ℕ, ◌+◌, ◌≡◌, refl, sym, ap, ◌∙◌, Option-cases, subst, inl, inr, none, List, [], ◌∷◌, ◌++◌,
  put_self, put_other, arith, ℕ_discrete, Ensures, returned, Ensures-bind, Ensures-check, ltb,
  ltb→lt,
}
use mathlib.Core.Option.{some_inj}
use twnl.TcpConnection.{Conn}
use twnl.TcpServer.{Entry, Server, conn_name, established, int_max, new_connection}
use twnl.TcpServer.Lives.{IsFresh}
use twnl.TcpServer.Live
use twnl.TcpServer.Live.{
  Named, without, erase-without, insert-new, connected_server, connected_server-IsValid,
  remove_connection-IsValid,
}
use twnl.TcpServer.System.{establishing, System, accepted}
use twnl.ThreadPool.{get_next_loop}
use twnl.TcpServer.Sound.{
  has_id, Phase, absent, fresh, alive, closed, removed, gone, jobs_in, Holds, Fits, IsSound,
  has_id-append, Fits-other, jobs_of_added, jobs_of_added_other,
}

-- What `newConnection` does to a valid server.
abbrev pub Adds : List ℕ → Server → Server → Type 0
Adds name s s' =
    (e : Entry) × (s'.trace ≡ established e ∷ s.trace)
    × (e.id ≡ s.next_conn_id)
    × (s'.next_conn_id ≡ s.next_conn_id + 1)
    × (s'.connections ≡ s.connections ++ e ∷ [])
    × Named name s'.next_conn_id e
    × Live.IsValid name s'

pub new_connection-Adds :
    (name : List ℕ) (s : Server) → Live.IsValid name s → Ensures (Adds name s) (new_connection s)
unfolding new_connection
new_connection-Adds name s v = Ensures-bind (Adds name s) (get_next_loop s.pool) _ λ r.
    Ensures-check (Adds name s) (ltb s.next_conn_id int_max) _ λ h.
      let small = ltb→lt s.next_conn_id int_max h in
      let e : Entry = record {
        id = s.next_conn_id;
        name = conn_name s.name s.ip_port s.next_conn_id;
        loop = r.0;
      } in
      let named : Named name (s.next_conn_id + 1) e = record {
        spelled =
            ap (λ t. conn_name t s.ip_port s.next_conn_id) v.same_name
            ∙ ap (λ t. conn_name name t s.next_conn_id) v.no_ip_port;
        earlier = omega arith;
        in_int = omega (arith, small);
      } in
      returned (
        e,
        refl,
        refl,
        refl,
        insert-new name s.next_conn_id (s.next_conn_id + 1) s.connections e v.named named
            (omega arith),
        named,
        connected_server-IsValid name s r.0 r.1 small v,
      )

store_later : {name : List ℕ} {s : System} → IsSound name s → s.store s.server.next_conn_id ≡ none
store_later {s = s} v = elim (Option-cases (s.store s.server.next_conn_id)) [
  | inl e ↦ e
  | inr (m, e) ↦
      let (id, named) = v.entries s.server.next_conn_id m e in
      absurd (omega (arith, id, named.earlier))
]

Holds-none : (p : Phase) → Holds p none → p ≡ absent
Holds-none absent h = refl
Holds-none fresh h = absurd h
Holds-none alive h = absurd h
Holds-none closed h = absurd h
Holds-none removed h = absurd h
Holds-none gone h = absurd h

Named-later : (name : List ℕ) (next : ℕ) (e : Entry) → Named name next e → Named name (next + 1) e
Named-later name next e n = record {
  spelled = n.spelled;
  earlier = omega (arith, n.earlier);
  in_int = n.in_int;
}

pub accepts-IsSound :
    {name : List ℕ} {s : System} {server : Server} (e : Entry) (c : Conn)
    → IsSound name s
    → IsFresh c
    → server.trace ≡ established e ∷ s.server.trace
    → Adds name s.server server
    → IsSound name (accepted e server c s)
accepts-IsSound {name} {s} {server} e c v fresh_conn logged
      (e', logged', id', next, added, named, valid) =
    record {
      server = valid;
      entries = λ i m' h. elim (ℕ_discrete e.id i) [
        | yes same_id ↦
            let is_new : m'.entry ≡ e =
              ap (λ m. m.entry) (some_inj.0 (sym h ∙ put_self s.store e.id i _ same_id)) in
            (
              ap (λ e. e.id) is_new ∙ same_id,
              subst (Named name server.next_conn_id) (sym (is_new ∙ same)) named,
            )
        | no other ↦
            let (id, old) = v.entries i m' (sym (put_other s.store e.id i _ other) ∙ h) in
            (
              id,
              subst (λ n. Named name n m'.entry) (sym next)
                  (Named-later name s.server.next_conn_id m'.entry old),
            )
      ];
      fits = λ i. elim (ℕ_discrete e.id i) [
        | yes same_id ↦
            let f = v.fits e.id in
            let free : s.store e.id ≡ none = ap s.store id ∙ store_later v in
            let unmade : f.phase ≡ absent =
              Holds-none f.phase (subst (Holds f.phase) free f.held) in
            subst (λ i. Fits i (accepted e server c s)) same_id
              (record {
                phase = fresh;
                held = subst (Holds fresh) (sym (put_self s.store e.id e.id _ refl)) fresh_conn;
                mapped =
                    ap (has_id e.id) added
                    ∙ has_id-append e.id s.server.connections e'
                    ∙ ground (arith, same);
                waits = jobs_of_added e.id establishing s.jobs (f.waits ∙ ap jobs_in unmade);
              })
        | no other ↦
            Fits-other (v.fits i) (put_other s.store e.id i _ other)
              (ap (has_id i) added
                ∙ has_id-append i s.server.connections e'
                ∙ ground (arith, same, other))
              (jobs_of_added_other e.id i establishing s.jobs other)
      ];
    }
  where
    same : e ≡ e'
    same = cc (logged, logged')

    id : e.id ≡ s.server.next_conn_id
    id = ap (λ e. e.id) same ∙ id'
