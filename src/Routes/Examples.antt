-- ===== src/Routes/Examples.antt =====
-- The theorems about terminal session routes at concrete inputs.
use onlyboxes_mcp.Prelude.{◌≡◌, refl, List, [], ◌∷◌, some, false}
use onlyboxes_mcp.Prelude.Text.{Text, text, trim_space, text_discrete}
use onlyboxes_mcp.Prelude.Map.{get, put}
use onlyboxes_mcp.Routes.Invariant.{Inv}
use onlyboxes_mcp.Routes.NodeIndex.{add_to_index, drop_from_index}
use onlyboxes_mcp.Routes.Operations.{
  Op, binds, reserves, touches, clears, clears_node, run, apply, run-Inv,
}
use onlyboxes_mcp.Routes.Spec.{view, table_after, apply-table_after}
use onlyboxes_mcp.Routes.Affinity.{node_of, reserve-run}
use onlyboxes_mcp.Routes.{Routes, new_routes, bind, reserve, store_route, refresh}

abbrev shell : Text
shell = text "obx:alice:shell"

abbrev history : List Op
history = reserves shell (text " node-1 ") 1000 ∷ binds (text "obx:bob:s") (text "node-2") 1500 ∷ []

abbrev two_routes : Routes
two_routes = run history new_routes

run-Inv_example : Inv two_routes
run-Inv_example = run-Inv history

apply-table_after_example :
    view (apply (clears_node (text "node-1")) two_routes) shell
    ≡ table_after (clears_node (text "node-1")) two_routes (view two_routes) shell
apply-table_after_example =
    apply-table_after (clears_node (text "node-1")) two_routes shell (run-Inv history)

routed : node_of two_routes shell ≡ some (text "node-1")
unfolding run new_routes reserve bind store_route refresh add_to_index drop_from_index trim_space
    text_discrete get put
routed = refl

abbrev later : List Op
later =
    touches shell 1700
    ∷ reserves (text "obx:bob:t") (text "node-2") 1800
    ∷ clears (text "obx:bob:s") []
    ∷ []

reserve-run_example :
    ((reserve (run later two_routes) shell (text "node-2") 2000).1 ≡ text "node-1")
    × ((reserve (run later two_routes) shell (text "node-2") 2000).2 ≡ false)
unfolding trim_space
reserve-run_example =
    reserve-run later two_routes shell (text "node-2") (text "node-1") 2000 (run-Inv history)
      (tt, (tt, ((λ e. cc), tt))) routed refl refl
