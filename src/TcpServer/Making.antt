-- ===== src/TcpServer/Making.antt =====
-- `newConnection` of twnl/TcpServer.cc succeeds, and what it does.
use twnl.Base.{
  ℕ, ◌+◌, ◌<◌, ltb, lt→ltb, ◌≡◌, ap, ◌∙◌, Option, some, List, [], ◌∷◌, ◌++◌, arith, get_elem?,
  check, check_passed, ◌>>=◌, ◌>>◌,
}
use twnl.ThreadPool.{Pool}
use twnl.ThreadPool.Rounds.{Running, turned, get_next_loop-some, turned-Running}
use twnl.TcpServer.{Entry, established, Server, conn_name, insert, int_max, new_connection}
use twnl.TcpServer.Live.{Reaches, Named, reached-IsValid, insert-new}

abbrev made_by : Server → ℕ → Pool → Option Server
made_by s loop pool =
    let e : Entry = record {
      id = s.next_conn_id;
      name = conn_name s.name s.ip_port s.next_conn_id;
      loop = loop;
    } in
    check (ltb s.next_conn_id int_max)
    >> some (record s {
      pool = pool;
      next_conn_id = s.next_conn_id + 1;
      connections = insert e s.connections;
      trace = established e ∷ s.trace;
    })

-- After any order of starting, new connections and removals, if the pool was started with threads and
-- fewer than 2^31 - 2 connections were made: `newConnection` succeeds. It takes the loop whose turn it
-- is, adds one connection of that loop to the map, under a name of its own, and keeps all others.
pub new_connection-adds :
    {base : ℕ} {name : List ℕ} {s : Server}
    → Reaches base name s
    → Running s.pool
    → s.next_conn_id < int_max
    → (e : Entry) × (s' : Server) × (new_connection s ≡ some s')
      × (s'.connections ≡ s.connections ++ e ∷ [])
      × (get_elem? s.pool.loops s.pool.next ≡ some e.loop)
      × (e.name ≡ conn_name name [] s.next_conn_id)
      × Running s'.pool
unfolding new_connection
new_connection-adds {name = name} {s = s} r up h =
    let v = reached-IsValid r in
    let (loop, at, turn) = get_next_loop-some s.pool up in
    let e : Entry = record {
      id = s.next_conn_id;
      name = conn_name s.name s.ip_port s.next_conn_id;
      loop = loop;
    } in
    let spelled : e.name ≡ conn_name name [] s.next_conn_id =
      ap (λ t. conn_name t s.ip_port s.next_conn_id) v.same_name
      ∙ ap (λ t. conn_name name t s.next_conn_id) v.no_ip_port in
    let named : Named name (s.next_conn_id + 1) e = record {
      spelled = spelled;
      earlier = omega arith;
      in_int = omega (arith, h);
    } in
    (
      e,
      record s {
        pool = turned s.pool;
        next_conn_id = s.next_conn_id + 1;
        connections = insert e s.connections;
        trace = established e ∷ s.trace;
      },
      ap (◌>>= λ p. made_by s p.0 p.1) turn
          ∙ check_passed (ltb s.next_conn_id int_max) _ (lt→ltb s.next_conn_id int_max h),
      insert-new name s.next_conn_id (s.next_conn_id + 1) s.connections e v.named named
          (omega arith),
      at,
      spelled,
      turned-Running s.pool up,
    )
