-- ===== src/Registry/Query.antt =====
-- console/internal/registry/store_query.go. A query that fails gives nothing.
use onlyboxes_mcp.Prelude.{
  ℕ, ◌+◌, ◌-◌, ◌*◌, ◌%◌, ◌^◌, ite, Bool, true, false, ◌||◌, ◌&&◌, not, none, some, List, [], ◌∷◌,
  ◌++◌, ltb, leb, ◌==◌, if◌then◌else◌, is_empty, take, drop, length,
}
use onlyboxes_mcp.Prelude.Text.{Text, text_discrete, trim_space}
use onlyboxes_mcp.Prelude.Map.{Map, get, put}
use onlyboxes_mcp.Session.{Limit}
use onlyboxes_mcp.Registry.Table.{Node, Db, rows_of, owner_label}
use onlyboxes_mcp.Registry.Selects.{
  list_worker_capabilities_all, list_worker_labels_all, list_worker_nodes_ordered,
}
use onlyboxes_mcp.Registry.{Faults, normalize_worker_type, resolve_worker_type}

pub data WorkerStatus : Type 0 where
  all online offline : WorkerStatus

pub record Worker : Type 0 where
  pub node_id : Text
  pub session_id : Text
  pub provisioned : Bool
  pub node_name : Text
  pub executor_kind : Text
  pub capabilities : Map Limit
  pub labels : Map Text
  pub version : Text
  pub registered_at : ℕ
  pub last_seen_at : ℕ

pub record WorkerView : Type 0 where
  pub worker : Worker
  pub status : WorkerStatus

pub record WorkerStats : Type 0 where
  pub total : ℕ
  pub online : ℕ
  pub offline : ℕ
  pub stale : ℕ

-- time.UnixMilli
abbrev pub from_milli : ℕ → ℕ
from_milli t = t * 1000000

unfoldable pub status_of : ℕ → ℕ → ℕ → WorkerStatus
status_of last_seen now ttl = if leb (now - last_seen) ttl then online else offline

abbrev pub worker_of : Text → Node → Map Limit → Map Text → Worker
worker_of id n capabilities labels = record {
  node_id = id;
  session_id = n.session_id;
  provisioned = n.provisioned;
  node_name = n.node_name;
  executor_kind = n.executor_kind;
  capabilities = capabilities;
  labels = labels;
  version = n.version;
  registered_at = from_milli n.registered_at;
  last_seen_at = from_milli n.last_seen_at;
}

abbrev pub worker_view : ℕ → ℕ → Worker → WorkerView
worker_view now ttl w = record { worker = w; status = status_of w.last_seen_at now ttl }

-- The loops that fill capabilityByNode and labelsByNode.
unfoldable pub capability_by_node : List (Text × Text × Limit) → Map (Map Limit) → Map (Map Limit)
capability_by_node [] by_node = by_node
capability_by_node ((id, name, max) ∷ rows) by_node =
    capability_by_node rows (put id (rows_of id by_node ++ (name, max) ∷ []) by_node)

unfoldable pub labels_by_node : List (Text × Text × Text) → Map (Map Text) → Map (Map Text)
labels_by_node [] by_node = by_node
labels_by_node ((id, key, value) ∷ rows) by_node =
    labels_by_node rows (put id (put key value (rows_of id by_node)) by_node)

abbrev pub label : Text → Map Text → Text
label key labels = elim (get key labels) [ none ↦ [] | some v ↦ v ]

abbrev pub same_status : WorkerStatus → WorkerStatus → Bool
same_status all _ = true
same_status online online = true
same_status offline offline = true
same_status _ _ = false

-- The owner and the type are normalised; an empty one asks for nothing.
abbrev pub is_in_scope : Text → Text → Map Text → Bool
is_in_scope owner worker_type labels =
    is_empty owner
    || (ite (text_discrete (trim_space (label owner_label labels)) owner) true false
        && (is_empty worker_type
            || ite (text_discrete (resolve_worker_type labels) worker_type) true false))

abbrev pub is_listed : WorkerStatus → Text → Text → WorkerView → Bool
is_listed status owner worker_type v =
    same_status status v.status && is_in_scope owner worker_type v.worker.labels

unfoldable pub filter_views :
    (WorkerView → Bool) → (Text → Node → WorkerView) → Map Node → List WorkerView
filter_views listed view [] = []
filter_views listed view ((id, n) ∷ nodes) =
    let rest = filter_views listed view nodes in
    if listed (view id n) then view id n ∷ rest else rest

abbrev pub grouped_view : ℕ → ℕ → Map (Map Limit) → Map (Map Text) → Text → Node → WorkerView
grouped_view now ttl capabilities labels id n =
    worker_view now ttl (worker_of id n (rows_of id capabilities) (rows_of id labels))

unfoldable pub list_filtered_views :
    Faults → WorkerStatus → ℕ → ℕ → Text → Text → Db → List WorkerView
unfolding filter_views capability_by_node labels_by_node resolve_worker_type
list_filtered_views fails status now ttl owner worker_type db =
    if fails 0 || fails 1 || fails 2
    then []
    else filter_views (is_listed status (trim_space owner) (normalize_worker_type worker_type))
        (grouped_view now ttl (capability_by_node (list_worker_capabilities_all db) [])
          (labels_by_node (list_worker_labels_all db) []))
        (list_worker_nodes_ordered db)

-- A page and the total, or a slice out of range, at which the code panics.
pub data Page : Type 0 where
  page : List WorkerView → ℕ → Page
  panic : Page

-- An int of 64 bits is not negative.
abbrev pub is_int : ℕ → Bool
is_int n = ltb n (2 ^ 63)

abbrev pub or_one : ℕ → ℕ
or_one n = if n == 0 then 1 else n

abbrev pub or_twenty : ℕ → ℕ
or_twenty n = if n == 0 then 20 else n

abbrev pub slice : ℕ → ℕ → List WorkerView → Page
slice start end filtered =
    if not (is_int end)
    then panic
    else if leb (length filtered) end
    then page (drop start filtered) (length filtered)
    else if leb start end
    then page (take (end - start) (drop start filtered)) (length filtered)
    else panic

-- The page's number and size, where 0 is what is not positive; the product and the sum wrap.
unfoldable pub page_of : ℕ → ℕ → List WorkerView → Page
page_of number size filtered =
    let start = (or_one number - 1) * or_twenty size % 2 ^ 64 in
    if not (is_int start)
    then panic
    else if leb (length filtered) start
    then page [] (length filtered)
    else slice start ((start + or_twenty size) % 2 ^ 64) filtered

unfoldable pub list_scoped : Faults → WorkerStatus → ℕ → ℕ → ℕ → ℕ → Text → Text → Db → Page
unfolding list_filtered_views page_of
list_scoped fails status number size now ttl owner worker_type db =
    page_of number size (list_filtered_views fails status now ttl owner worker_type db)
