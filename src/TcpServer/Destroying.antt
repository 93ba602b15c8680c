-- ===== src/TcpServer/Destroying.antt =====
-- The destructor of twnl/TcpServer.cc.
use twnl.Base.{ℕ, ◌==◌, ◌≡◌, refl, sym, ap, ◌∙◌, if_true, List, [], ◌∷◌, arith}
use twnl.TcpServer.{Entry, destroyed, Server, destroy_all, destroy, log}
use twnl.TcpServer.Live.{without, live, Reaches, connections-live}

without_all : List Entry → List Entry → List Entry
without_all [] ys = ys
without_all (x ∷ xs) ys = without_all xs (without x.id ys)

without_comm : (i j : ℕ) (xs : List Entry) → without i (without j xs) ≡ without j (without i xs)
unfolding without
without_comm i j [] = refl
without_comm i j (x ∷ xs) = ground (arith, without_comm i j xs)

without_all-without :
    (i : ℕ) (xs ys : List Entry) → without_all xs (without i ys) ≡ without i (without_all xs ys)
unfolding without_all
without_all-without i [] ys = refl
without_all-without i (x ∷ xs) ys =
    ap (without_all xs) (without_comm x.id i ys) ∙ without_all-without i xs (without x.id ys)

without_all_self : (xs : List Entry) → without_all xs xs ≡ []
unfolding without_all without
without_all_self [] = refl
without_all_self (x ∷ xs) =
    ap (without_all xs)
      (if_true (x.id == x.id) (without x.id xs) (x ∷ without x.id xs) (ground arith))
    ∙ without_all-without x.id xs xs
    ∙ ap (without x.id) (without_all_self xs)

destroy_all-live :
    (xs : List Entry) (s : Server) → live (destroy_all xs s).trace ≡ without_all xs (live s.trace)
unfolding destroy_all without_all live
destroy_all-live [] s = refl
destroy_all-live (x ∷ xs) s = destroy_all-live xs (log (destroyed x) s)

-- The destructor, after any order of starting, new connections and removals, leaves no connection
-- alive: `connectDestroyed` was handed to a loop for each that was established.
pub destroy-live :
    {base : ℕ} {name : List ℕ} {s : Server} → Reaches base name s → live (destroy s).trace ≡ []
unfolding destroy
destroy-live {s = s} r =
    destroy_all-live s.connections s
    ∙ ap (without_all s.connections) (sym (connections-live r))
    ∙ without_all_self s.connections
