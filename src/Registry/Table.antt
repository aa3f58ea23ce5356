-- ===== src/Registry/Table.antt =====
-- The tables of workers and their queries: console/internal/persistence/sqlc/workers.sql.go, whose SQL
-- is run by the database, over the tables that console/db/migrations declares. A primary key of one
-- column is the key of a map. The tables whose key is a node and a name are grouped by node: for each
-- node a map of its rows. Foreign keys are enforced, with ON DELETE CASCADE. What a statement reports
-- is how many rows it changed; none is a violated constraint.
use onlyboxes_mcp.Prelude.{
  ℕ, ◌+◌, ite, Bool, true, false, ◌&&◌, not, Option, none, some, List, [], ◌∷◌, ltb, length,
  if◌then◌else◌, is_empty, is_some,
}
use onlyboxes_mcp.Prelude.Text.{Text, text, text_discrete}
use onlyboxes_mcp.Prelude.Map.{Map, get, put, delete}
use onlyboxes_mcp.Session.{Limit}

-- A row of worker_nodes, less its key; times are in milliseconds.
pub record Node : Type 0 where
  pub session_id : Text
  pub provisioned : Bool
  pub node_name : Text
  pub executor_kind : Text
  pub version : Text
  pub registered_at : ℕ
  pub last_seen_at : ℕ

pub record Credential : Type 0 where
  pub secret_hash : Text
  pub hash_algo : Text
  pub created_at : ℕ
  pub updated_at : ℕ

-- A row of worker_sys_owner_claims, less its key, the owner.
pub record Claim : Type 0 where
  pub node_id : Text
  pub claimed_at : ℕ

pub record Db : Type 0 where
  pub nodes : Map Node
  pub capabilities : Map (Map Limit)
  pub labels : Map (Map Text)
  pub credentials : Map Credential
  pub claims : Map Claim

abbrev pub owner_label : Text
owner_label = text "obx.owner_id"

abbrev pub type_label : Text
type_label = text "obx.worker_type"

abbrev pub or_no_rows {ℓ} : {V : Type ℓ} → Option (Map V) → Map V
or_no_rows none = []
or_no_rows (some rows) = rows

-- The rows of a node.
abbrev pub rows_of {ℓ} : {V : Type ℓ} → Text → Map (Map V) → Map V
rows_of id table = or_no_rows (get id table)

unfoldable pub update_node_found :
    (Node → Bool) → (Node → Node) → Text → Map Node → Option Node → Map Node × ℕ
update_node_found fits f id nodes none = (nodes, 0)
update_node_found fits f id nodes (some n) = if fits n then (put id (f n) nodes, 1) else (nodes, 0)

-- UPDATE worker_nodes SET … WHERE node_id = ? AND …
unfoldable pub update_node : (Node → Bool) → (Node → Node) → Text → Db → Db × ℕ
unfolding update_node_found
update_node fits f id db =
    let (nodes, n) = update_node_found fits f id db.nodes (get id db.nodes) in
    (record db { nodes = nodes }, n)

abbrev pub set_session : Text → Node → Node
set_session session n = record n { session_id = session }

abbrev pub set_last_seen : ℕ → Node → Node
set_last_seen now n = record n { last_seen_at = now }

abbrev pub of_session : Text → Node → Bool
of_session session n = ite (text_discrete n.session_id session) true false

unfoldable pub clear_worker_session_by_node : Text → Db → Db × ℕ
unfolding update_node
clear_worker_session_by_node id = update_node (λ n. true) (set_session []) id

unfoldable pub clear_worker_session_by_node_and_session : Text → Text → Db → Db × ℕ
unfolding update_node
clear_worker_session_by_node_and_session id session =
    update_node (of_session session) (set_session []) id

unfoldable pub update_worker_heartbeat_by_session : ℕ → Text → Text → Db → Db × ℕ
unfolding update_node
update_worker_heartbeat_by_session now id session =
    update_node (of_session session) (set_last_seen now) id

unfoldable pub clear_sessions : Map Node → Map Node × ℕ
clear_sessions [] = ([], 0)
clear_sessions ((id, n) ∷ rest) =
    let (cleared, c) = clear_sessions rest in
    if is_empty n.session_id
    then ((id, n) ∷ cleared, c)
    else ((id, set_session [] n) ∷ cleared, c + 1)

unfoldable pub clear_all_worker_sessions : Db → Db × ℕ
unfolding clear_sessions
clear_all_worker_sessions db =
    let (nodes, c) = clear_sessions db.nodes in (record db { nodes = nodes }, c)

-- The rows that a foreign key takes along with the node.
unfoldable pub drop_claims : Text → Map Claim → Map Claim
drop_claims id [] = []
drop_claims id ((owner, c) ∷ rest) =
    let kept = drop_claims id rest in ite (text_discrete c.node_id id) kept ((owner, c) ∷ kept)

unfoldable pub drop_node : Text → Db → Db
unfolding drop_claims
drop_node id db = record {
  nodes = delete id db.nodes;
  capabilities = delete id db.capabilities;
  labels = delete id db.labels;
  credentials = delete id db.credentials;
  claims = drop_claims id db.claims;
}

unfoldable pub delete_worker_node_by_id : Text → Db → Db × ℕ
unfolding drop_node
delete_worker_node_by_id id db = if is_some (get id db.nodes) then (drop_node id db, 1) else (db, 0)

-- provisioned = 0 AND last_seen_at_unix_ms < ?
abbrev pub is_stale : ℕ → Node → Bool
is_stale cutoff n = not n.provisioned && ltb n.last_seen_at cutoff

unfoldable pub stale_nodes : ℕ → Map Node → List Text
stale_nodes cutoff [] = []
stale_nodes cutoff ((id, n) ∷ rest) =
    let ids = stale_nodes cutoff rest in if is_stale cutoff n then id ∷ ids else ids

unfoldable pub drop_nodes : List Text → Db → Db
unfolding drop_node
drop_nodes [] db = db
drop_nodes (id ∷ ids) db = drop_nodes ids (drop_node id db)

unfoldable pub delete_offline_runtime_workers : ℕ → Db → Db × ℕ
unfolding stale_nodes drop_nodes
delete_offline_runtime_workers cutoff db =
    (drop_nodes (stale_nodes cutoff db.nodes) db, length (stale_nodes cutoff db.nodes))

-- VALUES (?, '', 1, ?, '', '', ?, ?)
abbrev pub provisioned_row : Text → ℕ → ℕ → Node
provisioned_row name registered seen = record {
  session_id = [];
  provisioned = true;
  node_name = name;
  executor_kind = [];
  version = [];
  registered_at = registered;
  last_seen_at = seen;
}

unfoldable pub insert_provisioned_worker_node_if_absent : Text → Text → ℕ → ℕ → Db → Db × ℕ
insert_provisioned_worker_node_if_absent id name registered seen db =
    if is_some (get id db.nodes)
    then (db, 0)
    else (record db { nodes = put id (provisioned_row name registered seen) db.nodes }, 1)

-- Every column is overwritten on conflict.
unfoldable pub upsert_worker_node : Text → Node → Db → Db
upsert_worker_node id n db = record db { nodes = put id n db.nodes }

unfoldable pub delete_worker_capabilities_by_node : Text → Db → Db
delete_worker_capabilities_by_node id db = record db { capabilities = delete id db.capabilities }

unfoldable pub delete_worker_labels_by_node : Text → Db → Db
delete_worker_labels_by_node id db = record db { labels = delete id db.labels }

-- INSERT … ON CONFLICT(node_id, …) DO UPDATE
abbrev pub put_row {ℓ} : {V : Type ℓ} → Text → Text → V → Map (Map V) → Map (Map V)
put_row id name v table = put id (put name v (rows_of id table)) table

-- FOREIGN KEY (node_id) REFERENCES worker_nodes(node_id)
abbrev pub referring : Text → Db → Db → Option Db
referring id db after = if is_some (get id db.nodes) then some after else none

unfoldable pub insert_worker_capability : Text → Text → Limit → Db → Option Db
insert_worker_capability id name max db =
    referring id db (record db { capabilities = put_row id name max db.capabilities })

unfoldable pub insert_worker_label : Text → Text → Text → Db → Option Db
insert_worker_label id key value db =
    referring id db (record db { labels = put_row id key value db.labels })

abbrev counted : Option Db → Option (Db × ℕ)
counted none = none
counted (some db) = some (db, 1)

unfoldable pub insert_worker_credential_if_absent : Text → Credential → Db → Option (Db × ℕ)
insert_worker_credential_if_absent id c db =
    if is_some (get id db.credentials)
    then some (db, 0)
    else counted (referring id db (record db { credentials = put id c db.credentials }))

unfoldable pub delete_worker_credential_by_node : Text → Db → Db × ℕ
delete_worker_credential_by_node id db =
    if is_some (get id db.credentials)
    then (record db { credentials = delete id db.credentials }, 1)
    else (db, 0)

-- Some owner has claimed the node; node_id is UNIQUE.
unfoldable pub is_claimed : Text → Map Claim → Bool
is_claimed id [] = false
is_claimed id ((owner, c) ∷ rest) = ite (text_discrete c.node_id id) true (is_claimed id rest)

unfoldable pub insert_worker_sys_owner_claim_if_absent : Text → Claim → Db → Option (Db × ℕ)
unfolding is_claimed
insert_worker_sys_owner_claim_if_absent owner c db =
    if is_some (get owner db.claims)
    then some (db, 0)
    else if is_claimed c.node_id db.claims
    then none
    else counted (referring c.node_id db (record db { claims = put owner c db.claims }))
