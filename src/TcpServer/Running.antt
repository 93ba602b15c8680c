-- ===== src/TcpServer/Running.antt =====
-- The functors of a connection keep it, its functors and the server's map in agreement.
use twnl.Base.{
  ℕ, ◌≡◌, refl, sym, ap, ◌∙◌, subst, some, List, [], ◌∷◌, ◌++◌, put, put_self, put_other,
  ℕ_discrete,
}
use mathlib.Core.Option.{some_inj}
use twnl.TcpConnection.{Conn}
use twnl.TcpServer.{erase, remove_connection}
use twnl.TcpServer.Live.{Named, without, erase-without, remove_connection-IsValid}
use twnl.TcpServer.System.{Kind, removing, destroying, Job, Member, System, job, finished}
use twnl.TcpServer.Sound.{
  has_id, Phase, closed, removed, jobs_in, in_map, waiting, Holds, Fits, IsSound, has_id-without,
  has_id-without_other, Fits-other, taken, jobs_of_rest, jobs_of_added, jobs_of_added_other,
}

-- The connections of a store after one of them has changed.
pub entries_put :
    (name : List ℕ) (next : ℕ) (s : System) (id : ℕ) (m : Member) (c : Conn)
    → ((i : ℕ) (m : Member) → s.store i ≡ some m → (m.entry.id ≡ i) × Named name next m.entry)
    → s.store id ≡ some m
    → (i : ℕ) (m' : Member) → put s.store id (some (record m { conn = c })) i ≡ some m'
    → (m'.entry.id ≡ i) × Named name next m'.entry
entries_put name next s id m c entries at i m' e = elim (ℕ_discrete id i) [
  | yes same ↦
      let same_entry : m'.entry ≡ m.entry =
        ap (λ m. m.entry) (some_inj.0 (sym e ∙ put_self s.store id i _ same)) in
      let (named_id, named) = entries id m at in
      (ap (λ e. e.id) same_entry ∙ named_id ∙ same, subst (Named name next) (sym same_entry) named)
  | no other ↦ entries i m' (sym (put_other s.store id i _ other) ∙ e)
]

-- Running `connectEstablished` or `connectDestroyed`.
pub run-IsSound :
    {name : List ℕ} {s : System} (k : Kind) (p : Phase) (before after : List Job) (id : ℕ)
    (m : Member) (c : Conn)
    → IsSound name s
    → s.jobs ≡ before ++ job k id ∷ after
    → s.store id ≡ some m
    → Holds p (some (record m { conn = c }))
    → in_map (waiting k) ≡ in_map p
    → jobs_in p ≡ []
    → IsSound name (finished (before ++ after) id m c s)
run-IsSound {name} {s} k p before after id m c v e at holds map none_left = record {
  server = v.server;
  entries = entries_put name s.server.next_conn_id s id m c v.entries at;
  fits = λ i. elim (ℕ_discrete id i) [
    | yes same ↦
        let (_, mapped, rest) = taken k before after (v.fits id) e in
        subst (λ i. Fits i (finished (before ++ after) id m c s)) same
          (record {
            phase = p;
            held = subst (Holds p) (sym (put_self s.store id id _ refl)) holds;
            mapped = mapped ∙ map;
            waits = rest ∙ sym none_left;
          })
    | no other ↦
        Fits-other (v.fits i) (put_other s.store id i _ other) refl
          (jobs_of_rest id i k before after s.jobs other e)
  ];
}

abbrev pub taken_out : List Job → ℕ → Member → System → System
taken_out jobs id m s = record s {
  server = remove_connection m.entry s.server;
  jobs = jobs ++ job destroying id ∷ [];
}

pub removes-IsSound :
    {name : List ℕ} {s : System} (before after : List Job) (id : ℕ) (m : Member)
    → IsSound name s
    → s.jobs ≡ before ++ job removing id ∷ after
    → s.store id ≡ some m
    → IsSound name (taken_out (before ++ after) id m s)
unfolding remove_connection
removes-IsSound {name} {s} before after id m v e at = record {
  server = remove_connection-IsValid name s.server m.entry v.server named;
  entries = v.entries;
  fits = λ i. elim (ℕ_discrete id i) [
    | yes same ↦
        let (held, _, rest) = taken removing before after (v.fits id) e in
        subst (λ i. Fits i (taken_out (before ++ after) id m s)) same
          (record {
            phase = removed;
            held = subst (Holds removed) (sym at) (subst (Holds closed) at held);
            mapped = ap (has_id id) erased ∙ has_id-without id s.server.connections;
            waits = jobs_of_added id destroying (before ++ after) rest;
          })
    | no other ↦
        Fits-other (v.fits i) refl
          (ap (has_id i) erased ∙ has_id-without_other id i s.server.connections other)
          (jobs_of_added_other id i destroying (before ++ after) other
            ∙ jobs_of_rest id i removing before after s.jobs other e)
  ];
}
  where
    named : Named name s.server.next_conn_id m.entry
    named = (v.entries id m at).1

    erased : erase m.entry.name s.server.connections ≡ without id s.server.connections
    erased =
        erase-without name s.server.next_conn_id s.server.next_conn_id s.server.connections m.entry
          v.server.named named
        ∙ ap (λ id. without id s.server.connections) (v.entries id m at).0
