-- ===== src/Registry/Lookup.antt =====
-- console/internal/registry/store_query.go, from StatsScoped on, with GetByNodeID. A query that fails
-- gives nothing.
use onlyboxes_mcp.Prelude.{
  ℕ, suc, ◌-◌, Bool, true, false, ◌||◌, Option, none, some, List, [], ◌∷◌, ltb, ◌==◌, if◌then◌else◌,
  is_empty,
}
use onlyboxes_mcp.Prelude.Text.{Text, text, trim_space}
use onlyboxes_mcp.Prelude.Map.{Map}
use onlyboxes_mcp.Errors.{Error, other}
use onlyboxes_mcp.Dispatch.{Store}
use onlyboxes_mcp.Registry.Table.{
  Node, Db, delete_offline_runtime_workers, insert_worker_sys_owner_claim_if_absent,
}
use onlyboxes_mcp.Registry.Selects.{
  get_worker_node_by_id, list_worker_capabilities_by_node, list_worker_labels_by_node,
  list_worker_node_ids_by_owner_and_type, count_worker_nodes_by_owner_and_type,
  list_online_worker_node_ids_by_capability,
  list_online_worker_node_ids_by_owner_type_and_capability,
}
use onlyboxes_mcp.Registry.{
  Faults, db_error, unix_milli, normalize_capability_name, normalize_worker_type,
  resolve_worker_type, merge_labels,
}
use onlyboxes_mcp.Registry.Query.{
  WorkerView, WorkerStatus, WorkerStats, online, list_filtered_views, worker_of, worker_view,
}

abbrev pub is_online : WorkerStatus → Bool
is_online online = true
is_online _ = false

abbrev pub count_view : ℕ → ℕ → WorkerView → WorkerStats → WorkerStats
count_view now stale_after v s = record {
  total = suc s.total;
  online = if is_online v.status then suc s.online else s.online;
  offline = if is_online v.status then s.offline else suc s.offline;
  stale = if ltb stale_after (now - v.worker.last_seen_at) then suc s.stale else s.stale;
}

unfoldable pub count_views : ℕ → ℕ → List WorkerView → WorkerStats → WorkerStats
count_views now stale_after [] s = s
count_views now stale_after (v ∷ vs) s =
    count_views now stale_after vs (count_view now stale_after v s)

unfoldable pub stats_scoped : Faults → ℕ → ℕ → ℕ → Text → Text → Db → WorkerStats
unfolding count_views
stats_scoped fails now ttl stale_after owner worker_type db =
    count_views now stale_after
      (list_filtered_views fails WorkerStatus.all now ttl owner worker_type db)
      (record { total = 0; online = 0; offline = 0; stale = 0 })

abbrev pub view_found : ℕ → ℕ → Text → Db → Option Node → Option WorkerView
view_found now ttl id db none = none
view_found now ttl id db (some n) = some (
    worker_view now ttl (
      worker_of id n (list_worker_capabilities_by_node id db)
        (merge_labels [] (list_worker_labels_by_node id db))))

unfoldable pub get_by_node_id : Faults → Text → ℕ → ℕ → Db → Option WorkerView
unfolding merge_labels
get_by_node_id fails id now ttl db =
    if is_empty (trim_space id) || fails 0 || fails 1 || fails 2
    then none
    else view_found now ttl (trim_space id) db (get_worker_node_by_id (trim_space id) db)

unfoldable pub labels_by_node_id : Faults → Text → Db → Map Text
unfolding merge_labels
labels_by_node_id fails id db =
    if is_empty (trim_space id) || fails 0
    then []
    else merge_labels [] (list_worker_labels_by_node (trim_space id) db)

unfoldable pub worker_type_by_node_id : Faults → Text → Db → Text
unfolding resolve_worker_type labels_by_node_id
worker_type_by_node_id fails id db = resolve_worker_type (labels_by_node_id fails id db)

unfoldable pub list_node_ids_by_owner_and_type : Faults → Text → Text → Db → List Text
list_node_ids_by_owner_and_type fails owner worker_type db =
    if is_empty (trim_space owner) || is_empty (normalize_worker_type worker_type) || fails 0
    then []
    else list_worker_node_ids_by_owner_and_type (trim_space owner)
        (normalize_worker_type worker_type) db

unfoldable pub count_workers_by_owner_and_type : Faults → Text → Text → Db → ℕ
count_workers_by_owner_and_type fails owner worker_type db =
    if is_empty (trim_space owner) || is_empty (normalize_worker_type worker_type) || fails 0
    then 0
    else count_worker_nodes_by_owner_and_type (trim_space owner) (normalize_worker_type worker_type)
        db

-- Whether the owner is claimed for the node, or an error.
pub data Claimed : Type 0 where
  claimed : Bool → Claimed
  not_claimed : Error → Claimed

abbrev pub claim_result : Db → Option (Db × ℕ) → Db × Claimed
claim_result db none = (db, not_claimed db_error)
claim_result db (some (after, n)) = (after, claimed (n == 1))

unfoldable pub claim_worker_sys_owner : Faults → Text → Text → ℕ → Db → Db × Claimed
unfolding insert_worker_sys_owner_claim_if_absent
claim_worker_sys_owner fails owner id now db =
    if is_empty (trim_space owner) || is_empty (trim_space id)
    then (db, not_claimed (other (text "owner_id and node_id are required")))
    else claim_result db (
        if fails 0
        then none
        else insert_worker_sys_owner_claim_if_absent (trim_space owner)
            (record { node_id = trim_space id; claimed_at = unix_milli now }) db)

unfoldable pub list_online_node_ids_by_owner_type_and_capability :
    Faults → Text → Text → Text → ℕ → ℕ → Db → List Text
list_online_node_ids_by_owner_type_and_capability fails owner worker_type capability now ttl db =
    if is_empty (trim_space owner)
      || is_empty (normalize_worker_type worker_type)
      || is_empty (normalize_capability_name capability)
      || fails 0
    then []
    else list_online_worker_node_ids_by_owner_type_and_capability
        (normalize_capability_name capability) (trim_space owner)
        (normalize_worker_type worker_type) (unix_milli (now - ttl)) db

unfoldable pub list_online_node_ids_by_capability : Faults → Text → ℕ → ℕ → Db → List Text
list_online_node_ids_by_capability fails capability now ttl db =
    if is_empty (normalize_capability_name capability) || fails 0
    then []
    else list_online_worker_node_ids_by_capability (normalize_capability_name capability)
        (unix_milli (now - ttl)) db

-- The store as the dispatch uses it, at a time.
abbrev pub store_at : Faults → ℕ → ℕ → Db → Store
store_at fails now ttl db = record {
  list_online_by_capability =
      λ capability. list_online_node_ids_by_capability fails capability now ttl db;
  list_online_by_owner_type_and_capability = λ owner worker_type capability.
      list_online_node_ids_by_owner_type_and_capability fails owner worker_type capability now ttl
        db;
}

unfoldable pub prune_offline : Faults → ℕ → ℕ → Db → Db × ℕ
unfolding delete_offline_runtime_workers
prune_offline fails now ttl db =
    if fails 0 then (db, 0) else delete_offline_runtime_workers (unix_milli (now - ttl)) db
