-- ===== src/Registry/OwnWorkers.antt =====
-- Commands for an owner's own worker, over the store of console/internal/registry, on concrete values.
use onlyboxes_mcp.Prelude.{ℕ, ◌-◌, ◌≡◌, refl, true, false, none, some, [], ◌∷◌, inr}
use onlyboxes_mcp.Prelude.Text.{Text, text, text_discrete, trim_space, to_lower}
use onlyboxes_mcp.Prelude.Map.{Map, get, put}
use onlyboxes_mcp.Naming.{normalize_capability}
use onlyboxes_mcp.Scope.Ids.{normalize_task_owner_id}
use onlyboxes_mcp.Session.{
  Session, at_most, has_capability, inflight_snapshot, effective, try_acquire,
}
use onlyboxes_mcp.Dispatch.{
  Console, Pick, picked, refused, pick_session_for_capability, list_online_node_ids,
  worker_type_sys, scan, add_candidate, visited, get_session, acquire_first, acquire,
}
use onlyboxes_mcp.Dispatch.Picking.{undisturbed}
use onlyboxes_mcp.Errors.{no_capability_worker}
use onlyboxes_mcp.Registry.Order.{order_by, text_leb}
use onlyboxes_mcp.Registry.Table.{Node, Db, owner_label, type_label}
use onlyboxes_mcp.Registry.Selects.{
  matching, sql_lower, ids_of, list_online_worker_node_ids_by_owner_type_and_capability,
}
use onlyboxes_mcp.Registry.Lookup.{store_at, list_online_node_ids_by_owner_type_and_capability}
use onlyboxes_mcp.Registry.Assigned.{IsOwn, pick_session-IsOwn}
use onlyboxes_mcp.Registry.{Faults, unix_milli, normalize_capability_name, normalize_worker_type}

abbrev no_faults : Faults
no_faults n = false

abbrev node : Text → Node
node session = record {
  session_id = session;
  provisioned = true;
  node_name = text "laptop";
  executor_kind = text "sys";
  version = text "1";
  registered_at = 4000;
  last_seen_at = 4000;
}

abbrev labels_of : Text → Map Text
labels_of owner = (owner_label, owner) ∷ (type_label, worker_type_sys) ∷ []

-- Two system workers, of two owners.
abbrev db : Db
db = record {
  nodes = (text "n1", node (text "s1")) ∷ (text "n2", node (text "s2")) ∷ [];
  capabilities =
      (text "n1", (text "readImage", at_most 1) ∷ [])
      ∷ (text "n2", (text "readImage", at_most 1) ∷ [])
      ∷ [];
  labels = (text "n1", labels_of (text "alice")) ∷ (text "n2", labels_of (text "bob")) ∷ [];
  credentials = [];
  claims = [];
}

abbrev session : Text → Text → Session
session node id = record {
  node_id = node;
  session_id = id;
  capabilities = (text "readimage", record { max_inflight = 1; inflight = 0 }) ∷ [];
  pending = [];
  channels = [];
  closed = none;
}

abbrev console : Console
console = record {
  objects =
      (text "s1", session (text "n1") (text "s1"))
      ∷ (text "s2", session (text "n2") (text "s2"))
      ∷ [];
  sessions = (text "n1", text "s1") ∷ (text "n2", text "s2") ∷ [];
  routes = record { session_to_node = []; node_index = []; ttl = 5000; last_prune = 900 };
  round_robin = 8;
}

abbrev now : ℕ
now = 4000000000

abbrev pick_for : Text → Pick
pick_for owner =
    (pick_session_for_capability undisturbed console (text "ReadImage")
      (list_online_node_ids (store_at no_faults now 15000000000 db) (text "ReadImage") owner)).1

-- Each gets the own worker, and one who has none gets none.
own_workers :
    (pick_for (text " bob") ≡ picked (text "s2"))
    × (pick_for (text "alice") ≡ picked (text "s1"))
    × (pick_for (text "carol") ≡ refused no_capability_worker)
unfolding pick_session_for_capability scan add_candidate visited get_session acquire_first acquire
    list_online_node_ids normalize_task_owner_id normalize_capability trim_space to_lower get put
    text_discrete list_online_node_ids_by_owner_type_and_capability
    list_online_worker_node_ids_by_owner_type_and_capability ids_of matching sql_lower order_by
    text_leb normalize_capability_name normalize_worker_type has_capability inflight_snapshot
    effective try_acquire
own_workers = (refl, refl, refl)

pick_session-IsOwn_example :
    (id : Text) × (get id console.sessions ≡ some (text "s2"))
    × IsOwn
        (trim_space (text " bob"))
        worker_type_sys
        (normalize_capability (text "ReadImage"))
        (unix_milli (now - 15000000000))
        db
        id
unfolding normalize_capability trim_space to_lower get text_discrete
pick_session-IsOwn_example =
    pick_session-IsOwn undisturbed no_faults now 15000000000 db console (text "ReadImage")
      (text " bob") (text "s2") (refl, (refl, tt)) (inr refl) (own_workers.0)
