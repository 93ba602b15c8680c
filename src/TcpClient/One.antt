-- ===== src/TcpClient/One.antt =====
-- A client of twnl/TcpClient.cc has one connection at most, and keeps track of it.
use mathlib.Core.Option.{some_inj}
use twnl.Base.{
  ℕ, ◌==◌, ◌≡◌, refl, sym, ap, ◌∙◌, subst, if◌then◌else◌, if_true, if_false, Bool, true, false,
  Bool-cases, inl, inr, ◌&&◌, Option, none, some, List, [], ◌∷◌, ◌++◌, arith, check, ltb,
  >>=-eq-some, Ensures, Ensures-some, Ensures-check, returned,
}
use twnl.Channel.{Defaults}
use twnl.Connector
use twnl.Connector.{
  Connector, State, disconnected, connecting, connected, Dial, is_connecting, start_in_loop,
  restart, reset_channel, handle_error, handle_write, remove_and_reset_channel, retry, ring,
}
use twnl.TcpClient.{
  destroy, Client, Effect, established, destroyed, new, enable_retry, on_connector, connect,
  disconnect, shutdown_if, stop, new_connection, handed_last, deliver, connector_write, same_conn,
  remove_connection, Op, connect_op, start_op, ring_op, reset_op, disconnect_op, stop_op, retry_op,
  write_op, error_op, remove_op, step, Reaches, made, stepped, log,
}
use twnl.TcpServer.{int_max}
use twnl.TcpClient.Keeping.{
  is_connected, Keeps, start_in_loop-Keeps, ring-Keeps, start-Keeps, stop-Keeps,
  reset_channel-Keeps, handle_error-Keeps, handle_write-Keeps, handle_write-handed,
}

unfoldable pub take_out : ℕ → List ℕ → List ℕ
take_out id [] = []
take_out id (x ∷ xs) = let rest = take_out id xs in if x == id then rest else x ∷ rest

-- The connections that were established and not destroyed since, oldest first.
unfoldable pub live : List Effect → List ℕ
unfolding take_out
live [] = []
live (established id name fd ∷ t) = live t ++ id ∷ []
live (destroyed id ∷ t) = take_out id (live t)
live (_ ∷ t) = live t

abbrev pub to_list : Option ℕ → List ℕ
to_list none = []
to_list (some id) = id ∷ []

-- While there is a connection, the connector has done its work.
abbrev holds : Option ℕ → State → Bool
holds none s = true
holds (some id) s = is_connected s

record IsValid (c : Client) : Type 0 where
  exact : live c.trace ≡ to_list c.connection
  done : holds c.connection c.connector.state ≡ true

holds-kept :
    (o : Option ℕ) (s t : State)
    → (is_connected s ≡ true → is_connected t ≡ true)
    → holds o s ≡ true
    → holds o t ≡ true
holds-kept none s t k h = refl
holds-kept (some id) s t k h = k h

on_connector-IsValid :
    (f : Connector → Option Connector) (c c' : Client)
    → Keeps f
    → IsValid c
    → on_connector f c ≡ some c'
    → IsValid c'
on_connector-IsValid f c c' keeps v e =
    let (k, runs, same) = >>=-eq-some (f c.connector) (λ k. some (record c { connector = k })) e in
    subst IsValid (some_inj.0 same) (record {
      exact = v.exact;
      done =
          holds-kept c.connection c.connector.state k.state (λ h. keeps c.connector k h runs)
            v.done;
    })

disconnect-IsValid : (c : Client) → IsValid c → IsValid (disconnect c)
unfolding disconnect live
disconnect-IsValid c v = elim_shut c.connection v.exact v.done
  where
    elim_shut :
        (o : Option ℕ)
        → live c.trace ≡ to_list c.connection
        → holds c.connection c.connector.state ≡ true
        → IsValid (shutdown_if o (record c { connect = false }))
    elim_shut none e h = record { exact = e; done = h }
    elim_shut (some id) e h = record { exact = e; done = h }

none_yet : (o : Option ℕ) (s : State) → is_connecting s ≡ true → holds o s ≡ true → o ≡ none
none_yet none s h e = refl
none_yet (some id) disconnected h e = absurd (cc h)
none_yet (some id) connecting h e = absurd (cc e)
none_yet (some id) connected h e = absurd (cc h)

delivered-IsValid :
    (peer : List ℕ) (c : Client) (k : Connector) (o : Option ℕ)
    → IsValid c
    → c.connection ≡ none
    → ((fd : ℕ) → o ≡ some fd → is_connected k.state ≡ true)
    → Ensures IsValid (deliver peer o (record c { connector = k }))
unfolding new_connection live
delivered-IsValid peer c k none v e done =
    returned (record { exact = v.exact; done = subst (λ o. holds o k.state ≡ true) (sym e) refl })
delivered-IsValid peer c k (some fd) v e done =
    Ensures-check IsValid (ltb c.next_conn_id int_max) _ λ _. returned (record {
      exact = ap (◌++ c.next_conn_id ∷ []) (v.exact ∙ ap to_list e);
      done = done fd refl;
    })

connector_write-IsValid :
    (d : Defaults) (err : ℕ) (self : Bool) (timer : ℕ) (peer : List ℕ) (c c' : Client)
    → IsValid c
    → connector_write d err self timer peer c ≡ some c'
    → IsValid c'
unfolding connector_write
connector_write-IsValid d err self timer peer c c' v e =
    let after : (Connector → Option Client) = λ k.
      if is_connecting c.connector.state
      then deliver peer (handed_last k.trace) (record c { connector = k })
      else some (record c { connector = k }) in
    let (k, runs, same) = >>=-eq-some (handle_write d err self timer c.connector) after e in
    elim (Bool-cases (is_connecting c.connector.state)) [
      | inl busy ↦
          Ensures-some IsValid
            (delivered-IsValid peer c k (handed_last k.trace) v
              (none_yet c.connection c.connector.state busy v.done)
              (λ fd f. handle_write-handed d err self timer fd c.connector k busy runs f))
            (sym (if_true (is_connecting c.connector.state) _ _ busy) ∙ same)
      | inr idle ↦
          subst IsValid
            (some_inj.0 (sym (if_false (is_connecting c.connector.state) _ _ idle) ∙ same))
            (record {
              exact = v.exact;
              done =
                  holds-kept c.connection c.connector.state k.state
                    (λ h. handle_write-Keeps d err self timer c.connector k h runs) v.done;
            })
    ]

take_out_self : (id : ℕ) → take_out id (id ∷ []) ≡ []
unfolding take_out
take_out_self id = if_true (id == id) _ _ (ground arith)

removed_conn :
    (o : Option ℕ) (id : ℕ) (t : List Effect)
    → same_conn o id ≡ true
    → live t ≡ to_list o
    → take_out id (live t) ≡ []
removed_conn none id t h e = absurd (cc h)
removed_conn (some k) id t h e =
    ap (take_out id) e ∙ ap (λ j. take_out id (j ∷ [])) (same k id h) ∙ take_out_self id
  where
    same : (a b : ℕ) → a == b ≡ true → a ≡ b
    same a b h = ground (arith, h)

remove_connection-IsValid :
    (d : Defaults) (dial : Dial) (id : ℕ) (c c' : Client)
    → IsValid c
    → remove_connection d dial id c ≡ some c'
    → IsValid c'
unfolding remove_connection live
remove_connection-IsValid d dial id c c' v e =
    let c1 : Client = log (destroyed id) (record c { connection = none }) in
    let last : Option Client =
      if c.retry && c.connect then on_connector (restart d dial) c1 else some c1 in
    let (u, passed, same) = >>=-eq-some (check (same_conn c.connection id)) (λ u. last) e in
    let gone : live c1.trace ≡ [] =
      removed_conn c.connection id c.trace (check-passed (same_conn c.connection id) u passed)
        v.exact in
    elim (Bool-cases (c.retry && c.connect)) [
      | inl again ↦
          let (k, runs, after) =
            >>=-eq-some (restart d dial c1.connector) (λ k. some (record c1 { connector = k }))
              (sym (
                  if_true (c.retry && c.connect) (on_connector (restart d dial) c1) (some c1) again)
                ∙ same) in
          subst IsValid (some_inj.0 after) (record { exact = gone; done = refl })
      | inr over ↦
          subst IsValid
            (some_inj.0 (
              sym
                (if_false (c.retry && c.connect) (on_connector (restart d dial) c1) (some c1) over)
              ∙ same))
            (record { exact = gone; done = refl })
    ]
  where
    check-passed : (b : Bool) (u : Unit {0}) → check b ≡ some u → b ≡ true
    check-passed true u h = refl
    check-passed false u h = cc

step-IsValid :
    (d : Defaults) (op : Op) (c c' : Client) → IsValid c → step d op c ≡ some c' → IsValid c'
unfolding connect stop enable_retry
step-IsValid d (connect_op here dial) c c' v e =
    on_connector-IsValid (Connector.start d here dial) (record c { connect = true }) c'
      (start-Keeps d here dial) (record { exact = v.exact; done = v.done }) e
step-IsValid d (start_op dial) c c' v e =
    on_connector-IsValid (start_in_loop d dial) c c' (start_in_loop-Keeps d dial) v e
step-IsValid d (ring_op t dial) c c' v e =
    on_connector-IsValid (ring d t dial) c c' (ring-Keeps d t dial) v e
step-IsValid d reset_op c c' v e = on_connector-IsValid reset_channel c c' reset_channel-Keeps v e
step-IsValid d disconnect_op c c' v e = subst IsValid (some_inj.0 e) (disconnect-IsValid c v)
step-IsValid d stop_op c c' v e =
    on_connector-IsValid Connector.stop (record c { connect = false }) c' stop-Keeps
      (record { exact = v.exact; done = v.done }) e
step-IsValid d retry_op c c' v e =
    subst IsValid (some_inj.0 e) (record { exact = v.exact; done = v.done })
step-IsValid d (write_op err self timer peer) c c' v e =
    connector_write-IsValid d err self timer peer c c' v e
step-IsValid d (error_op timer) c c' v e =
    on_connector-IsValid (handle_error d timer) c c' (handle_error-Keeps d timer) v e
step-IsValid d (remove_op dial id) c c' v e = remove_connection-IsValid d dial id c c' v e

reached-IsValid : {d : Defaults} {c : Client} → Reaches d c → IsValid c
unfolding new live
reached-IsValid made = record { exact = refl; done = refl }
reached-IsValid {d} (stepped {c = c} {c' = c'} op r e) =
    step-IsValid d op c c' (reached-IsValid r) e

-- After any order of the client's functions, of its connector's functors, timers and events, and of
-- closed connections: of the connections that were established, the one in `connection_`, if any, and no
-- other is not destroyed.
pub one-live : {d : Defaults} {c : Client} → Reaches d c → live c.trace ≡ to_list c.connection
one-live r = (reached-IsValid r).exact

-- A client that has no connection and whose connector has never waited for a retry, such as a new one,
-- can be neither stopped nor destroyed: both use the connector's timer, which has no value.
pub stop-unarmed :
    (c : Client)
    → c.connection ≡ none
    → c.connector.timer ≡ none
    → (stop c ≡ none) × (destroy c ≡ none)
unfolding stop destroy Connector.stop Connector.cancel_retry
stop-unarmed c e t = (rw t refl, rw e (rw t refl))
