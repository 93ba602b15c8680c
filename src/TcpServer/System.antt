-- ===== src/TcpServer/System.antt =====
-- A server of twnl/TcpServer.cc with its connections (twnl/TcpConnection.cc) and the functors that their
-- loops hold, in level-triggered mode. The loops' threads may take turns in any order: a step takes any
-- of the functors. Callbacks of the user are calls in steps of their own.
use twnl.Base.{ℕ, ◌-◌, ◌≡◌, false, not, Option, none, some, List, [], ◌∷◌, ◌++◌, replicate, put}
use twnl.Buffer.{Buffer}
use twnl.TcpConnection
use twnl.TcpConnection.{
  Conn, is_connecting, is_disconnected, connect_established, connect_destroyed,
}
use twnl.TcpConnection.Calls.{Call}
use twnl.TcpConnection.Calls
use twnl.TcpConnection.Ending.{close_calls}
use twnl.TcpConnection.Ended.{Allowed}
use twnl.TcpConnection.Sending.{level}
use twnl.TcpServer.{Entry, Server, established, new_connection, remove_connection}

-- `connectEstablished`, `removeConnectionInLoop` and `connectDestroyed`.
pub data Kind : Type 0 where
  establishing removing destroying : Kind

-- A functor that a loop holds, bound to a connection.
pub record Job : Type 0 where
  pub kind : Kind
  pub id : ℕ

-- The entry of a connection and the connection itself.
pub record Member : Type 0 where
  pub entry : Entry
  pub conn : Conn

pub record System : Type 0 where
  pub server : Server
  -- the connections that were ever made, by their ids
  pub store : ℕ → Option Member
  pub jobs : List Job

-- A server before its first connection.
abbrev pub start_of : Server → System
start_of server = record { server = server; store = λ id. none; jobs = [] }

abbrev pub job : Kind → ℕ → Job
job k id = record { kind = k; id = id }

-- `newConnection`, after which the connection's loop holds `connectEstablished`.
abbrev pub accepted : Entry → Server → Conn → System → System
accepted e server c s = record {
  server = server;
  store = put s.store e.id (some (record { entry = e; conn = c }));
  jobs = s.jobs ++ job establishing e.id ∷ [];
}

-- A call on a connection; each run of the close callback, which is `removeConnection`, gives the server's
-- loop a functor.
abbrev pub acted : ℕ → Member → Conn → System → System
acted id m c s = record s {
  store = put s.store id (some (record m { conn = c }));
  jobs = s.jobs ++ replicate (close_calls c.trace - close_calls m.conn.trace) (job removing id);
}

-- A functor of a connection has run, and these are left.
abbrev pub finished : List Job → ℕ → Member → Conn → System → System
finished jobs id m c s = record s {
  store = put s.store id (some (record m { conn = c }));
  jobs = jobs;
}

pub data Step (s : System) : System → Type 0 where
  accepts :
      {server : Server} (e : Entry) (sockfd : ℕ) (input output : Buffer)
      → new_connection s.server ≡ some server
      → server.trace ≡ established e ∷ s.server.trace
      → Step s (accepted e server (TcpConnection.new sockfd input output) s)
  establishes :
      {c : Conn} (before after : List Job) (id : ℕ) (m : Member)
      → s.jobs ≡ before ++ job establishing id ∷ after
      → s.store id ≡ some m
      → connect_established level m.conn ≡ some c
      → Step s (finished (before ++ after) id m c s)
  -- what is called has been established
  calls :
      {c : Conn} (k : Call) (id : ℕ) (m : Member)
      → s.store id ≡ some m
      → is_connecting m.conn.state ≡ false
      → Allowed k (not (is_disconnected m.conn.state))
      → Calls.step level k m.conn ≡ some c
      → Step s (acted id m c s)
  removes :
      (before after : List Job) (id : ℕ) (m : Member)
      → s.jobs ≡ before ++ job removing id ∷ after
      → s.store id ≡ some m
      → Step s (record s {
        server = remove_connection m.entry s.server;
        jobs = (before ++ after) ++ job destroying id ∷ [];
      })
  destroys :
      {c : Conn} (before after : List Job) (id : ℕ) (m : Member)
      → s.jobs ≡ before ++ job destroying id ∷ after
      → s.store id ≡ some m
      → connect_destroyed level m.conn ≡ some c
      → Step s (finished (before ++ after) id m c s)

pub data Reaches (s : System) : System → Type 0 where
  here : Reaches s s
  later : {t u : System} → Reaches s t → Step t u → Reaches s u
