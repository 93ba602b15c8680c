-- ===== src/TcpServer/Live.antt =====
-- The map of connections of twnl/TcpServer.cc holds exactly the connections that are alive.
use twnl.Base.{
  ℕ, ◌+◌, ◌^◌, ◌<◌, ◌≤◌, ℤ, ◌==◌, ltb, ltb→lt, ◌≡◌, refl, sym, ap, ◌∙◌, subst, Bool, false,
  Bool-cases, inl, inr, if◌then◌else◌, not, some, List, [], ◌∷◌, ◌++◌, arith, Ensures, returned,
  Ensures-bind, Ensures-check, Ensures-if, Ensures-some,
}
use twnl.ThreadPool
use twnl.ThreadPool.{Pool, get_next_loop}
use twnl.TcpServer.{
  Entry, Effect, established, destroyed, listened, Server, new, start, set_thread_num, conn_name,
  name_eq, insert, erase, int_max, new_connection, remove_connection,
}
use twnl.TcpServer.Names.{name_eq-conn_name}

-- The entries but those of a connection.
unfoldable pub without : ℕ → List Entry → List Entry
without id [] = []
without id (x ∷ xs) = let rest = without id xs in if x.id == id then rest else x ∷ rest

-- The connections that were established and not destroyed since, oldest first.
unfoldable pub live : List Effect → List Entry
unfolding without
live [] = []
live (established e ∷ t) = live t ++ e ∷ []
live (destroyed e ∷ t) = without e.id (live t)
live (listened ∷ t) = live t

-- An entry has the name that the server makes of its id.
pub record Named (name : List ℕ) (next : ℕ) (e : Entry) : Type 0 where
  pub spelled : e.name ≡ conn_name name [] e.id
  pub earlier : e.id < next
  pub in_int : e.id < 2 ^ 31

abbrev pub AllNamed : List ℕ → ℕ → List Entry → Type 0
AllNamed name next [] = Unit {0}
AllNamed name next (x ∷ xs) = Named name next x × AllNamed name next xs

pub AllNamed-later :
    (name : List ℕ) (next : ℕ) (xs : List Entry)
    → AllNamed name next xs
    → AllNamed name (next + 1) xs
AllNamed-later name next [] a = tt
AllNamed-later name next (x ∷ xs) (n, a) = (
  record { spelled = n.spelled; earlier = omega (arith, n.earlier); in_int = n.in_int },
  AllNamed-later name next xs a,
)

AllNamed-snoc :
    (name : List ℕ) (next : ℕ) (xs : List Entry) (e : Entry)
    → AllNamed name next xs
    → Named name next e
    → AllNamed name next (xs ++ e ∷ [])
AllNamed-snoc name next [] e a n = (n, tt)
AllNamed-snoc name next (x ∷ xs) e (m, a) n = (m, AllNamed-snoc name next xs e a n)

AllNamed-without :
    (name : List ℕ) (next id : ℕ) (xs : List Entry)
    → AllNamed name next xs
    → AllNamed name next (without id xs)
unfolding without
AllNamed-without name next id [] a = tt
AllNamed-without name next id (x ∷ xs) (n, a) = elim (Bool-cases (x.id == id)) [
  | inl e ↦ rw e (AllNamed-without name next id xs a)
  | inr e ↦ rw e (n, AllNamed-without name next id xs a)
]

Named-eq :
    (name : List ℕ) (n m : ℕ) (x e : Entry)
    → Named name n x
    → Named name m e
    → name_eq x.name e.name ≡ (x.id == e.id)
Named-eq name n m x e nx ne =
    ap (λ t. name_eq t e.name) nx.spelled
    ∙ ap (name_eq (conn_name name [] x.id)) ne.spelled
    ∙ name_eq-conn_name name x.id e.id nx.in_int ne.in_int

pub erase-without :
    (name : List ℕ) (n m : ℕ) (xs : List Entry) (e : Entry)
    → AllNamed name n xs
    → Named name m e
    → erase e.name xs ≡ without e.id xs
unfolding erase without
erase-without name n m [] e a ne = refl
erase-without name n m (x ∷ xs) e (nx, a) ne =
    rw (Named-eq name n m x e nx ne, erase-without name n m xs e a ne) refl

pub insert-new :
    (name : List ℕ) (n m : ℕ) (xs : List Entry) (e : Entry)
    → AllNamed name n xs
    → Named name m e
    → n ≤ e.id
    → insert e xs ≡ xs ++ e ∷ []
unfolding insert
insert-new name n m [] e a ne h = refl
insert-new name n m (x ∷ xs) e (nx, a) ne h =
    let other : name_eq x.name e.name ≡ false =
      Named-eq name n m x e nx ne ∙ ground (arith, nx.earlier, h) in
    rw (other, insert-new name n m xs e a ne h) refl

pub record IsValid (name : List ℕ) (s : Server) : Type 0 where
  pub same_name : s.name ≡ name
  pub no_ip_port : s.ip_port ≡ []
  pub named : AllNamed name s.next_conn_id s.connections
  pub exact : s.connections ≡ live s.trace

-- The servers that any order of starting, new connections and removals leads to. What is removed is a
-- connection that the server has made, whether it is still in the map or not.
pub data Reaches (base : ℕ) (name : List ℕ) : Server → Type 0 where
  made : Reaches base name (new base name)
  configured :
      {s s' : Server} (n : ℤ)
      → Reaches base name s
      → set_thread_num n s ≡ some s'
      → Reaches base name s'
  started :
      {s s' : Server} (loop_of : ℕ → ℕ) (cb : Bool)
      → Reaches base name s
      → start loop_of cb s ≡ some s'
      → Reaches base name s'
  connected :
      {s s' : Server} → Reaches base name s → new_connection s ≡ some s' → Reaches base name s'
  removed :
      {s : Server} (e : Entry)
      → Reaches base name s
      → Named name s.next_conn_id e
      → Reaches base name (remove_connection e s)

pub remove_connection-IsValid :
    (name : List ℕ) (s : Server) (e : Entry)
    → IsValid name s
    → Named name s.next_conn_id e
    → IsValid name (remove_connection e s)
unfolding remove_connection live
remove_connection-IsValid name s e v ne =
    let erased : erase e.name s.connections ≡ without e.id s.connections =
      erase-without name s.next_conn_id s.next_conn_id s.connections e v.named ne in
    record {
      same_name = v.same_name;
      no_ip_port = v.no_ip_port;
      named =
          subst (AllNamed name s.next_conn_id) (sym erased)
            (AllNamed-without name s.next_conn_id e.id s.connections v.named);
      exact = erased ∙ ap (without e.id) v.exact;
    }

abbrev pub connected_server : Entry → Pool → Server → Server
connected_server e pool s = record s {
  pool = pool;
  next_conn_id = s.next_conn_id + 1;
  connections = insert e s.connections;
  trace = established e ∷ s.trace;
}

pub connected_server-IsValid :
    (name : List ℕ) (s : Server) (loop : ℕ) (pool : Pool)
    → s.next_conn_id < int_max
    → IsValid name s
    → IsValid name (
        connected_server
          (record {
            id = s.next_conn_id;
            name = conn_name s.name s.ip_port s.next_conn_id;
            loop = loop;
          })
          pool
          s)
unfolding live
connected_server-IsValid name s loop pool h v =
    let e : Entry = record {
      id = s.next_conn_id;
      name = conn_name s.name s.ip_port s.next_conn_id;
      loop = loop;
    } in
    let ne : Named name (s.next_conn_id + 1) e = record {
      spelled =
          ap (λ t. conn_name t s.ip_port s.next_conn_id) v.same_name
          ∙ ap (λ t. conn_name name t s.next_conn_id) v.no_ip_port;
      earlier = omega arith;
      in_int = omega (arith, h);
    } in
    let added : insert e s.connections ≡ s.connections ++ e ∷ [] =
      insert-new name s.next_conn_id (s.next_conn_id + 1) s.connections e v.named ne
        (omega arith) in
    record {
      same_name = v.same_name;
      no_ip_port = v.no_ip_port;
      named = subst (AllNamed name (s.next_conn_id + 1)) (sym added) (
          AllNamed-snoc name (s.next_conn_id + 1) s.connections e
            (AllNamed-later name s.next_conn_id s.connections v.named) ne);
      exact = added ∙ ap (◌++ e ∷ []) v.exact;
    }

new_connection-IsValid :
    (name : List ℕ) (s : Server) → IsValid name s → Ensures (IsValid name) (new_connection s)
unfolding new_connection
new_connection-IsValid name s v = Ensures-bind (IsValid name) (get_next_loop s.pool) _ λ r.
    Ensures-check (IsValid name) (ltb s.next_conn_id int_max) _
      λ h. returned (connected_server-IsValid name s r.0 r.1 (ltb→lt s.next_conn_id int_max h) v)

start-IsValid :
    (name : List ℕ) (loop_of : ℕ → ℕ) (cb : Bool) (s : Server)
    → IsValid name s
    → Ensures (IsValid name) (start loop_of cb s)
unfolding start live
start-IsValid name loop_of cb s v = Ensures-if (IsValid name) s.started _ _ (returned v) (
    Ensures-bind (IsValid name) (ThreadPool.start loop_of cb s.pool) _ λ pool.
      Ensures-check (IsValid name) (not s.listenning) _ λ h. returned (record {
        same_name = v.same_name;
        no_ip_port = v.no_ip_port;
        named = v.named;
        exact = v.exact;
      }))

set_thread_num-IsValid :
    (name : List ℕ) (n : ℤ) (s : Server)
    → IsValid name s
    → Ensures (IsValid name) (set_thread_num n s)
unfolding set_thread_num
set_thread_num-IsValid name n s v = Ensures-bind (IsValid name) _ _ λ u. returned (record {
  same_name = v.same_name;
  no_ip_port = v.no_ip_port;
  named = v.named;
  exact = v.exact;
})

pub reached-IsValid : {base : ℕ} {name : List ℕ} {s : Server} → Reaches base name s → IsValid name s
unfolding new live
reached-IsValid made = record { same_name = refl; no_ip_port = refl; named = tt; exact = refl }
reached-IsValid {name = name} (configured {s = s} n r e) =
    Ensures-some (IsValid name) (set_thread_num-IsValid name n s (reached-IsValid r)) e
reached-IsValid {name = name} (started {s = s} loop_of cb r e) =
    Ensures-some (IsValid name) (start-IsValid name loop_of cb s (reached-IsValid r)) e
reached-IsValid {name = name} (connected {s = s} r e) =
    Ensures-some (IsValid name) (new_connection-IsValid name s (reached-IsValid r)) e
reached-IsValid {name = name} (removed {s = s} e r n) =
    remove_connection-IsValid name s e (reached-IsValid r) n

-- After any order of starting, new connections and removals: the map holds exactly the connections for
-- which `connectEstablished` was handed to a loop and `connectDestroyed` was not, in the order in which
-- they were made.
pub connections-live :
    {base : ℕ} {name : List ℕ} {s : Server} → Reaches base name s → s.connections ≡ live s.trace
connections-live r = (reached-IsValid r).exact
