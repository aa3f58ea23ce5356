-- ===== src/Routes/Affinity.antt =====
-- A terminal session stays on its node: what dispatch relies on in reserveTerminalSessionRoute and
-- touchTerminalSessionRoute of terminal_session_routes.go.
use onlyboxes_mcp.Prelude.{
  ℕ, ◌≡◌, ◌≢◌, refl, false, Option, none, some, List, [], ◌∷◌, arith, is_empty, not, is_some,
}
use onlyboxes_mcp.Prelude.Text.{Text, trim_space}
use onlyboxes_mcp.Prelude.Map.{get, get-put}
use onlyboxes_mcp.Routes.Invariant.{Inv}
use onlyboxes_mcp.Routes.Operations.{
  Op, binds, reserves, touches, clears, clears_node, prunes, maybe_prunes, apply, run, apply-Inv,
  run_from-Inv,
}
use onlyboxes_mcp.Routes.Spec.{view, apply-table_after}
use onlyboxes_mcp.Routes.{Route, Routes, reserve, reserve_found, store_route, refresh}

abbrev node_in : Option Route → Option Text
node_in none = none
node_in (some r) = some r.node_id

abbrev pub node_of : Routes → Text → Option Text
node_of st s = node_in (view st s)

-- The operation takes no route away from the session and binds it to no node.
abbrev pub KeepsRoute : Text → Op → Type 0
KeepsRoute s (binds t n now) = trim_space t ≢ s
KeepsRoute s (reserves t n now) = Unit {0}
KeepsRoute s (touches t now) = Unit {0}
KeepsRoute s (clears t n) = trim_space t ≢ s
KeepsRoute s (clears_node n) = ⊥
KeepsRoute s (prunes now) = ⊥
KeepsRoute s (maybe_prunes now) = ⊥

abbrev pub AllKeep : Text → List Op → Type 0
AllKeep s [] = Unit {0}
AllKeep s (op ∷ ops) = KeepsRoute s op × AllKeep s ops

apply-node_of :
    (op : Op) (st : Routes) (s node : Text)
    → Inv st
    → KeepsRoute s op
    → node_of st s ≡ some node
    → node_of (apply op st) s ≡ some node
apply-node_of (binds t n now) st s node v k h =
    ground (arith, apply-table_after (binds t n now) st s v)
apply-node_of (reserves t n now) st s node v k h =
    ground (arith, apply-table_after (reserves t n now) st s v)
apply-node_of (touches t now) st s node v k h =
    ground (arith, apply-table_after (touches t now) st s v)
apply-node_of (clears t n) st s node v k h = ground (arith, apply-table_after (clears t n) st s v)
apply-node_of (clears_node n) st s node v k h = absurd k
apply-node_of (prunes now) st s node v k h = absurd k
apply-node_of (maybe_prunes now) st s node v k h = absurd k

run-node_of :
    (ops : List Op) (st : Routes) (s node : Text)
    → Inv st
    → AllKeep s ops
    → node_of st s ≡ some node
    → node_of (run ops st) s ≡ some node
unfolding run
run-node_of [] st s node v k h = h
run-node_of (op ∷ ops) st s node v k h =
    run-node_of ops (apply op st) s node (apply-Inv op st v) k.1
      (apply-node_of op st s node v k.0 h)

reserve_found_result :
    (s n : Text) (now : ℕ) (st : Routes) (o : Option Route)
    → get s st.session_to_node ≡ o
    → (node_of (reserve_found s n now st o).0 s ≡ some (reserve_found s n now st o).1)
      × ((reserve_found s n now st o).2 ≡ not (is_some o))
unfolding reserve_found store_route refresh
reserve_found_result s n now st (some r) e =
    (ground (arith, get-put s s (record r { last_used = now }) st.session_to_node), refl)
reserve_found_result s n now st none e =
    (ground (arith, get-put s s (record { node_id = n; last_used = now }) st.session_to_node), refl)

-- A reservation with a session and a node reports the node that the session is routed to
-- afterwards, and reports that it was created exactly when the session had no route before.
pub reserve_result :
    (st : Routes) (s n : Text) (now : ℕ)
    → is_empty (trim_space s) ≡ false
    → is_empty (trim_space n) ≡ false
    → (node_of (reserve st s n now).0 (trim_space s) ≡ some (reserve st s n now).1)
      × ((reserve st s n now).2 ≡ not (is_some (view st (trim_space s))))
unfolding reserve
reserve_result st s n now hs hn =
    rw (hs, hn) (reserve_found_result (trim_space s) (trim_space n) now st _ refl)

-- Once a session is routed to a node, then after any calls that neither clear its route nor prune
-- nor bind it anew, every reservation of it reports that node and creates nothing, whichever node
-- the caller offers.
pub reserve-run :
    (ops : List Op) (st : Routes) (s n node : Text) (now : ℕ)
    → Inv st
    → AllKeep (trim_space s) ops
    → node_of st (trim_space s) ≡ some node
    → is_empty (trim_space s) ≡ false
    → is_empty (trim_space n) ≡ false
    → ((reserve (run ops st) s n now).1 ≡ node) × ((reserve (run ops st) s n now).2 ≡ false)
unfolding apply
reserve-run ops st s n node now v k h hs hn =
    let still = run-node_of ops st (trim_space s) node v k h in
    let after =
      apply-node_of (reserves s n now) (run ops st) (trim_space s) node (run_from-Inv ops st v) tt
        still in
    let result = reserve_result (run ops st) s n now hs hn in
    (ground (arith, after, result.0), ground (arith, still, result.1))
