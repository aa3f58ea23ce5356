-- ===== src/Registry.antt =====
-- console/internal/registry: the store of workers, on the tables of Registry/Table. Store.go's checks
-- for a store without a database do not occur. A database call may fail: an argument says of each
-- call of an operation, by its number, whether it does. A transaction is one call. Times are in
-- nanoseconds, as time.Time has them, and the tables have milliseconds.
pub mod Order
pub mod Table
pub mod Selects
pub mod Lifecycle
pub mod Query
pub mod Lookup
pub mod Credentials
pub mod Rows
pub mod Upserts
pub mod Sessions
pub mod Listing
pub mod Online
pub mod Pages
pub mod Stats
pub mod Views
pub mod Foreign
pub mod Kept
pub mod Calls
pub mod Pruning
pub mod Assigned
mod Examples
mod OwnWorkers
use onlyboxes_mcp.Prelude.{
  ℕ, ◌+◌, ◌-◌, ◌*◌, ◌/◌, ite, Bool, true, false, ◌&&◌, ◌||◌, Option, none, some, List, [], ◌∷◌,
  ◌++◌, ltb, leb, if◌then◌else◌, is_empty, is_some,
}
use onlyboxes_mcp.Prelude.Text.{Text, text, text_discrete, trim_space, to_lower, byte_len}
use onlyboxes_mcp.Prelude.Map.{Map, get, put}
use onlyboxes_mcp.Errors.{Error, other}
use onlyboxes_mcp.Session.{Limit}
use Table.{
  Node, Db, owner_label, type_label, upsert_worker_node, delete_worker_capabilities_by_node,
  insert_worker_capability, delete_worker_labels_by_node, insert_worker_label,
  insert_provisioned_worker_node_if_absent, delete_worker_node_by_id,
  update_worker_heartbeat_by_session, clear_worker_session_by_node,
  clear_worker_session_by_node_and_session,
}
use Selects.{get_worker_node_by_id, list_worker_labels_by_node}

-- Whether a call of the database fails, by its number in the operation.
abbrev pub Faults : Type 0
Faults = ℕ → Bool

abbrev pub db_error : Error
db_error = other (text "database")

-- UnixMilli of a time after 1970.
abbrev pub unix_milli : ℕ → ℕ
unix_milli t = t / 1000000

abbrev pub second : ℕ
second = 1000000000

-- A ConnectHello frame, with the declarations that are not nil.
abbrev pub Declared : Type 0
Declared = List (Option (Text × Limit))

pub record Hello : Type 0 where
  pub node_id : Text
  pub node_name : Text
  pub executor_kind : Text
  pub version : Text
  pub labels : Map Text
  pub capabilities : Declared

unfoldable pub normalize_capability_name : Text → Text
normalize_capability_name capability = trim_space (to_lower capability)

unfoldable pub normalize_worker_type : Text → Text
normalize_worker_type worker_type = trim_space (to_lower worker_type)

abbrev or_empty : Option Text → Text
or_empty none = []
or_empty (some v) = v

unfoldable pub resolve_worker_type : Map Text → Text
unfolding normalize_worker_type
resolve_worker_type labels = normalize_worker_type (or_empty (get type_label labels))

unfoldable pub clone_proto_capabilities : Declared → Map Limit
clone_proto_capabilities [] = []
clone_proto_capabilities (none ∷ rest) = clone_proto_capabilities rest
clone_proto_capabilities (some (name, max) ∷ rest) =
    let cloned = clone_proto_capabilities rest in
    if is_empty (trim_space name) then cloned else (trim_space name, max) ∷ cloned

unfoldable pub merge_labels : Map Text → Map Text → Map Text
merge_labels base [] = base
merge_labels base ((k, v) ∷ override) = merge_labels (put k v base) override

abbrev pub restore : Text → Option Text → Map Text → Map Text
restore k none merged = merged
restore k (some v) merged = put k v merged

abbrev restore_keys : Map Text → List Text → Map Text → Map Text
restore_keys base [] merged = merged
restore_keys base (key ∷ keys) merged = restore_keys base keys (
    if is_empty (trim_space key)
    then merged
    else restore (trim_space key) (get (trim_space key) base) merged)

unfoldable pub merge_labels_preserve_keys : Map Text → Map Text → List Text → Map Text
unfolding merge_labels
merge_labels_preserve_keys base override protected_keys =
    restore_keys base protected_keys (merge_labels base override)

abbrev and_then : (Db → Option Db) → Option Db → Option Db
and_then f none = none
and_then f (some db) = f db

unfoldable pub insert_capabilities : Text → Map Limit → Db → Option Db
insert_capabilities id [] db = some db
insert_capabilities id ((name, max) ∷ rest) db =
    and_then (insert_capabilities id rest) (insert_worker_capability id name max db)

unfoldable pub insert_labels : Text → Map Text → Db → Option Db
insert_labels id [] db = some db
insert_labels id ((key, value) ∷ rest) db =
    and_then (insert_labels id rest) (insert_worker_label id key value db)

abbrev pub committed : Bool → Db → Option Db → Db × Option Error
committed true db after = (db, some db_error)
committed false db none = (db, some db_error)
committed false db (some after) = (after, none)

-- The transaction of Upsert.
unfoldable pub replace_node : Text → Node → Map Limit → Map Text → Db → Option Db
unfolding insert_capabilities insert_labels
replace_node id n capabilities labels db =
    and_then (λ d. insert_labels id labels (delete_worker_labels_by_node id d))
      (insert_capabilities id capabilities
        (delete_worker_capabilities_by_node id (upsert_worker_node id n db)))

abbrev pub name_of : Text → Option Node → Text
name_of name none = name
name_of name (some n) = if is_empty name then n.node_name else name

abbrev pub is_provisioned : Option Node → Bool
is_provisioned none = false
is_provisioned (some n) = n.provisioned

-- The labels of a node that was provisioned, by its labels so far; or those of the hello.
abbrev pub labels_for : Bool → Map Text → Map Text → Map Text
labels_for false base labels = labels
labels_for true base labels = merge_labels_preserve_keys base labels (owner_label ∷ type_label ∷ [])

abbrev pub node_for : Hello → Text → ℕ → Option Node → Node
node_for req session now existing = record {
  session_id = session;
  provisioned = is_provisioned existing;
  node_name = name_of (trim_space req.node_name) existing;
  executor_kind = req.executor_kind;
  version = req.version;
  registered_at = unix_milli now;
  last_seen_at = unix_milli now;
}

-- Upsert once the node has been read.
unfoldable pub upsert_existing :
    Faults → Hello → Text → Text → ℕ → Option Node → Db → Db × Option Error
unfolding clone_proto_capabilities replace_node
upsert_existing fails req id session now existing db =
    if is_provisioned existing && fails 1
    then (db, some db_error)
    else committed (fails 2) db (
        replace_node id (node_for req session now existing)
          (clone_proto_capabilities req.capabilities)
          (labels_for (is_provisioned existing) (merge_labels [] (list_worker_labels_by_node id db))
            req.labels)
          db)

unfoldable pub upsert : Faults → Hello → Text → ℕ → Db → Db × Option Error
unfolding upsert_existing
upsert fails req session now db =
    if is_empty (trim_space req.node_id)
    then (db, some (other (text "node_id is required")))
    else if is_empty (trim_space session)
    then (db, some (other (text "session_id is required")))
    else if fails 0
    then (db, some db_error)
    else upsert_existing fails req (trim_space req.node_id) (trim_space session) now
        (get_worker_node_by_id (trim_space req.node_id) db) db
