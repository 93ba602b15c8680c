-- ===== src/TcpServer/Stepping.antt =====
-- Every step of a server with its connections keeps them, the functors and the map in agreement.
use twnl.Base.{ℕ, refl, sym, ◌∙◌, subst, true, false, List, Ensures-some}
use mathlib.Core.Option.{some_inj}
use twnl.TcpConnection
use twnl.TcpConnection.{
  Conn, connecting, is_connecting, is_disconnected, connect_established, connect_destroyed,
}
use twnl.TcpServer.Lives.{Ends, new-IsFresh, established-Ends, destroyed-Ends}
use twnl.TcpServer.System.{
  establishing, destroying, System, Step, accepts, establishes, calls, removes, destroys,
}
use twnl.TcpServer.Sound.{fresh, alive, removed, gone, Holds, IsSound, taken}
use twnl.TcpServer.Running.{run-IsSound, removes-IsSound}
use twnl.TcpServer.Accepting.{Adds, new_connection-Adds, accepts-IsSound}
use twnl.TcpServer.Calling.{calls-IsSound}

pub Step-IsSound : {name : List ℕ} {s t : System} → IsSound name s → Step s t → IsSound name t
Step-IsSound {name} {s} v (accepts e sockfd input output made logged) =
    accepts-IsSound e (TcpConnection.new sockfd input output) v (new-IsFresh sockfd input output)
      logged (Ensures-some (Adds name s.server) (new_connection-Adds name s.server v.server) made)
Step-IsSound {s = s} v (establishes {c = c} before after id m e at run) =
    let (held, _, _) = taken establishing before after (v.fits id) e in
    let (c', run', ends) = established-Ends (subst (Holds fresh) at held) in
    run-IsSound establishing alive before after id m c v e at
      (subst (Ends false) (some_inj.0 (sym run' ∙ run)) ends) refl refl
Step-IsSound v (calls {c = c} k id m at started allowed e) =
    calls-IsSound k id m c v at started allowed e
Step-IsSound v (removes before after id m e at) = removes-IsSound before after id m v e at
Step-IsSound {s = s} v (destroys {c = c} before after id m e at run) =
    let (held, _, _) = taken destroying before after (v.fits id) e in
    let (c', run', ends) = destroyed-Ends (subst (Holds removed) at held) in
    run-IsSound destroying gone before after id m c v e at
      (subst (Ends true) (some_inj.0 (sym run' ∙ run)) ends) refl refl
