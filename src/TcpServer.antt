-- ===== src/TcpServer.antt =====
-- twnl/TcpServer.h and twnl/TcpServer.cc: the connections of a server.
-- A connection object is an `Entry`; `id` is not in the source, and tells apart the connections that
-- were ever made. What is handed to the loops is in `trace`, newest first. `none` is a failed
-- assertion, or the signed overflow of `nextConnId_`. All operations run in the server's loop.
pub mod Names
pub mod Live
pub mod Destroying
pub mod Making
pub mod System
pub mod Lives
pub mod Sound
pub mod Running
pub mod Accepting
pub mod Calling
pub mod Stepping
pub mod Settled
mod Tests
mod SystemTests
use twnl.Base.{
  ℕ, ◌+◌, ◌-◌, ◌^◌, ◌==◌, ltb, leb, if◌then◌else◌, ℤ, pos, negsuc, Bool, true, false, not, ◌&&◌,
  Option, none, some, List, [], ◌∷◌, ◌++◌, take, check, ◌>>=◌, ◌>>◌,
}
use twnl.LogStream.Decimal.{decimal}
use twnl.ThreadPool
use twnl.ThreadPool.{Pool, get_next_loop}

pub record Entry : Type 0 where
  pub id : ℕ
  pub name : List ℕ
  pub loop : ℕ

pub data Effect : Type 0 where
  -- `runInLoop` of `connectEstablished` in the connection's loop
  established : Entry → Effect
  -- `queueInLoop` and `runInLoop` of `connectDestroyed`
  destroyed : Entry → Effect
  listened : Effect

pub record Server : Type 0 where
  pub ip_port : List ℕ
  pub name : List ℕ
  pub pool : Pool
  pub started : Bool
  -- of the acceptor
  pub listenning : Bool
  pub next_conn_id : ℕ
  pub connections : List Entry
  pub trace : List Effect

abbrev pub log : Effect → Server → Server
log e s = record s { trace = e ∷ s.trace }

-- The constructor, with the text of `toIpPort`.
unfoldable pub new : ℕ → List ℕ → Server
unfolding ThreadPool.new
new loop listen_addr = record {
  ip_port = [];
  name = listen_addr;
  pool = ThreadPool.new loop;
  started = false;
  listenning = false;
  next_conn_id = 1;
  connections = [];
  trace = [];
}

abbrev is_natural : ℤ → Bool
is_natural (pos n) = true
is_natural (negsuc n) = false

unfoldable pub set_thread_num : ℤ → Server → Option Server
set_thread_num n s = do
  check (is_natural n)
  some (record s { pool = ThreadPool.set_thread_num n s.pool })

-- `loop_of` and `cb` are those of the pool.
unfoldable pub start : (ℕ → ℕ) → Bool → Server → Option Server
unfolding ThreadPool.start
start loop_of cb s =
    if s.started
    then some s
    else (ThreadPool.start loop_of cb s.pool >>= λ pool.
        check (not s.listenning)
        >> some (log listened (record s { started = true; pool = pool; listenning = true })))

-- What `snprintf` leaves in `buf`, behind the server's name.
unfoldable pub conn_name : List ℕ → List ℕ → ℕ → List ℕ
unfolding decimal
conn_name name ip_port id = name ++ take 63 (b'-' ∷ ip_port ++ b'#' ∷ decimal id)

unfoldable pub name_eq : List ℕ → List ℕ → Bool
name_eq [] [] = true
name_eq [] (y ∷ ys) = false
name_eq (x ∷ xs) [] = false
name_eq (x ∷ xs) (y ∷ ys) = let rest = name_eq xs ys in (x == y) && rest

-- `connections_[e.name] = e`
unfoldable pub insert : Entry → List Entry → List Entry
unfolding name_eq
insert e [] = e ∷ []
insert e (x ∷ xs) = let rest = insert e xs in if name_eq x.name e.name then e ∷ xs else x ∷ rest

-- `connections_.erase`
unfoldable pub erase : List ℕ → List Entry → List Entry
unfolding name_eq
erase name [] = []
erase name (x ∷ xs) = let rest = erase name xs in if name_eq x.name name then rest else x ∷ rest

abbrev pub int_max : ℕ
int_max = 2 ^ 31 - 1

unfoldable pub new_connection : Server → Option Server
unfolding get_next_loop conn_name insert
new_connection s = do
  (loop, pool) ← get_next_loop s.pool
  let id : ℕ = s.next_conn_id
  let e : Entry = record { id = id; name = conn_name s.name s.ip_port id; loop = loop }
  check (ltb id int_max)
  some (record s {
    pool = pool;
    next_conn_id = id + 1;
    connections = insert e s.connections;
    trace = established e ∷ s.trace;
  })

-- `removeConnectionInLoop`; its `assert(n = 1)` assigns, and never fails.
unfoldable pub remove_connection : Entry → Server → Server
unfolding erase
remove_connection e s = record s {
  connections = erase e.name s.connections;
  trace = destroyed e ∷ s.trace;
}

unfoldable pub destroy_all : List Entry → Server → Server
destroy_all [] s = s
destroy_all (e ∷ es) s = destroy_all es (log (destroyed e) s)

-- The destructor.
unfoldable pub destroy : Server → Server
unfolding destroy_all
destroy s = record (destroy_all s.connections s) { connections = [] }
