-- ===== src/Registry/Selects.antt =====
-- The SELECT statements of console/internal/persistence/sqlc/workers.sql.go.
use onlyboxes_mcp.Prelude.{
  ℕ, ◌+◌, ite, Bool, true, false, ◌&&◌, ◌||◌, not, Option, none, some, List, [], ◌∷◌, ◌++◌, map,
  zero, suc, ltb, leb, ◌==◌, length, if◌then◌else◌, is_empty,
}
use onlyboxes_mcp.Prelude.Text.{Text, text_discrete}
use onlyboxes_mcp.Prelude.Map.{Map, get}
use onlyboxes_mcp.Session.{Limit}
use onlyboxes_mcp.Registry.Order.{text_leb, order_by}
use onlyboxes_mcp.Registry.Table.{Node, Credential, Db, rows_of, owner_label, type_label}

unfoldable pub get_worker_node_by_id : Text → Db → Option Node
get_worker_node_by_id id db = get id db.nodes

unfoldable pub get_worker_credential_by_node : Text → Db → Option Credential
get_worker_credential_by_node id db = get id db.credentials

-- ORDER BY the first column of the key.
abbrev pub by_key {ℓ} : {V : Type ℓ} → Text × V → Text × V → Bool
by_key (k, v) (j, w) = text_leb k j

unfoldable pub list_worker_capabilities_by_node : Text → Db → Map Limit
list_worker_capabilities_by_node id db = order_by by_key (rows_of id db.capabilities)

unfoldable pub list_worker_labels_by_node : Text → Db → Map Text
list_worker_labels_by_node id db = order_by by_key (rows_of id db.labels)

unfoldable pub list_worker_credentials : Db → Map Credential
list_worker_credentials db = order_by by_key db.credentials

-- ORDER BY registered_at_unix_ms ASC, node_id ASC
abbrev pub by_registration : Text × Node → Text × Node → Bool
by_registration (k, n) (j, p) =
    ltb n.registered_at p.registered_at || (n.registered_at == p.registered_at && text_leb k j)

unfoldable pub list_worker_nodes_ordered : Db → Map Node
list_worker_nodes_ordered db = order_by by_registration db.nodes

-- The rows of a table, with their nodes in front: those of one node stand together.
abbrev pub with_node {ℓ} : {V : Type ℓ} → Text → Map V → List (Text × Text × V)
with_node id [] = []
with_node id ((name, v) ∷ rows) = (id, name, v) ∷ with_node id rows

unfoldable pub all_rows {ℓ} : {V : Type ℓ} → Map (Map V) → List (Text × Text × V)
all_rows [] = []
all_rows ((id, rows) ∷ table) = with_node id (order_by by_key rows) ++ all_rows table

-- ORDER BY node_id ASC, capability_name ASC
unfoldable pub list_worker_capabilities_all : Db → List (Text × Text × Limit)
unfolding all_rows
list_worker_capabilities_all db = all_rows (order_by by_key db.capabilities)

unfoldable pub list_worker_labels_all : Db → List (Text × Text × Text)
unfolding all_rows
list_worker_labels_all db = all_rows (order_by by_key db.labels)

-- LOWER of SQL, which changes the letters of ASCII only.
abbrev pub sql_lower_char : ℕ → ℕ
sql_lower_char c = if leb b'A' c && leb c b'Z' then c + 32 else c

unfoldable pub sql_lower : Text → Text
sql_lower s = map sql_lower_char s

-- The rows of worker_capabilities that a join finds for a node: LOWER(wc.capability_name) = ?
unfoldable pub matching : Text → Map Limit → ℕ
unfolding sql_lower
matching name [] = 0
matching name ((n, max) ∷ rows) =
    let rest = matching name rows in ite (text_discrete (sql_lower n) name) (suc rest) rest

-- The rows of worker_labels that a join finds: label_key and label_value are given.
abbrev pub has_label : Text → Option Text → Bool
has_label value none = false
has_label value (some v) = ite (text_discrete v value) true false

abbrev pub is_owned : Text → Text → Map Text → Bool
is_owned owner worker_type labels =
    has_label owner (get owner_label labels) && has_label worker_type (get type_label labels)

-- wn.last_seen_at_unix_ms >= ? AND wn.session_id <> ''
abbrev pub is_connected : ℕ → Node → Bool
is_connected cutoff n = leb cutoff n.last_seen_at && not (is_empty n.session_id)

abbrev pub repeated : ℕ → Text → List Text → List Text
repeated zero id ids = ids
repeated (suc n) id ids = id ∷ repeated n id ids

-- SELECT wn.node_id, once for each row of the join.
unfoldable pub ids_of : (Text → Node → ℕ) → Map Node → List Text
ids_of joined [] = []
ids_of joined ((id, n) ∷ rest) = repeated (joined id n) id (ids_of joined rest)

abbrev pub joined_capability : Text → ℕ → Db → Text → Node → ℕ
joined_capability name cutoff db id n =
    if is_connected cutoff n then matching name (rows_of id db.capabilities) else 0

unfoldable pub list_online_worker_node_ids_by_capability : Text → ℕ → Db → List Text
unfolding ids_of matching
list_online_worker_node_ids_by_capability name cutoff db =
    ids_of (joined_capability name cutoff db) (order_by by_key db.nodes)

abbrev pub joined_owned_capability : Text → Text → Text → ℕ → Db → Text → Node → ℕ
joined_owned_capability name owner worker_type cutoff db id n =
    if is_owned owner worker_type (rows_of id db.labels)
    then joined_capability name cutoff db id n
    else 0

unfoldable pub list_online_worker_node_ids_by_owner_type_and_capability :
    Text → Text → Text → ℕ → Db → List Text
unfolding ids_of matching
list_online_worker_node_ids_by_owner_type_and_capability name owner worker_type cutoff db =
    ids_of (joined_owned_capability name owner worker_type cutoff db) (order_by by_key db.nodes)

abbrev pub joined_owned : Text → Text → Db → Text → Node → ℕ
joined_owned owner worker_type db id n =
    if is_owned owner worker_type (rows_of id db.labels) then 1 else 0

unfoldable pub list_worker_node_ids_by_owner_and_type : Text → Text → Db → List Text
unfolding ids_of
list_worker_node_ids_by_owner_and_type owner worker_type db =
    ids_of (joined_owned owner worker_type db) (order_by by_key db.nodes)

unfoldable pub count_worker_nodes_by_owner_and_type : Text → Text → Db → ℕ
unfolding ids_of
count_worker_nodes_by_owner_and_type owner worker_type db =
    length (ids_of (joined_owned owner worker_type db) db.nodes)
