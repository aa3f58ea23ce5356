-- ===== src/Registry/Lifecycle.antt =====
-- console/internal/registry/store_worker_lifecycle.go, but for Upsert.
use onlyboxes_mcp.Prelude.{
  ℕ, suc, ◌+◌, ◌-◌, ite, Bool, true, false, Option, none, some, List, [], ◌∷◌, ◌++◌, ltb, leb, ◌==◌,
  if◌then◌else◌, is_empty, take,
}
use onlyboxes_mcp.Prelude.Text.{Text, text, text_discrete, trim_space, byte_len}
use onlyboxes_mcp.Prelude.Map.{Map}
use onlyboxes_mcp.Registry.Table.{
  Node, Db, insert_provisioned_worker_node_if_absent, delete_worker_node_by_id,
  update_worker_heartbeat_by_session, clear_worker_session_by_node,
  clear_worker_session_by_node_and_session,
}
use onlyboxes_mcp.Registry.Selects.{get_worker_node_by_id}
use onlyboxes_mcp.Registry.{Faults, unix_milli, second, insert_labels}

pub record ProvisionedWorker : Type 0 where
  pub node_id : Text
  pub labels : Map Text

-- The ids of the workers that the console provisions are ASCII.
unfoldable pub short_node_id : Text → Text
short_node_id id = if leb (byte_len id) 8 then id else take 8 id

-- What the transaction of one worker leaves, and how many rows it inserted; a failure rolls it back.
abbrev pub labelled : Db → Option Db → Db × ℕ
labelled before none = (before, 0)
labelled before (some after) = (after, 1)

abbrev seeded : Text → Map Text → Db → Db × ℕ → Db × ℕ
seeded id labels before (db, n) =
    if n == 0 then (db, 0) else labelled before (insert_labels id labels db)

unfoldable pub seed_worker : Bool → ProvisionedWorker → ℕ → ℕ → Db → Db × ℕ
unfolding insert_labels insert_provisioned_worker_node_if_absent short_node_id
seed_worker fails w registered seen db =
    if is_empty (trim_space w.node_id)
    then (db, 0)
    else if fails
    then (db, 0)
    else seeded (trim_space w.node_id) w.labels db (
        insert_provisioned_worker_node_if_absent (trim_space w.node_id)
          (text "worker-" ++ short_node_id (trim_space w.node_id)) registered seen db)

abbrev tally : ℕ → Db × ℕ → Db × ℕ
tally added (db, n) = (db, added + n)

-- The workers of index `i` and on.
unfoldable pub seed_all : Faults → ℕ → List ProvisionedWorker → ℕ → ℕ → Db → Db × ℕ
unfolding seed_worker
seed_all fails i [] registered seen db = (db, 0)
seed_all fails i (w ∷ ws) registered seen db =
    let one = seed_worker (fails i) w registered seen db in
    tally one.1 (seed_all fails (suc i) ws registered seen one.0)

-- The time before which a worker of now is offline; now is later than 1970 by more than the TTL.
abbrev pub offline_since : ℕ → ℕ → ℕ
offline_since now ttl = if ltb 0 ttl then now - (ttl + second) else now - second

unfoldable pub seed_provisioned_workers : Faults → List ProvisionedWorker → ℕ → ℕ → Db → Db × ℕ
unfolding seed_all
seed_provisioned_workers fails workers now ttl db =
    seed_all fails 0 workers (unix_milli now) (unix_milli (offline_since now ttl)) db

abbrev deleted : Db × ℕ → Db × Bool
deleted (db, n) = (db, ltb 0 n)

unfoldable pub delete_node : Faults → Text → Db → Db × Bool
unfolding delete_worker_node_by_id
delete_node fails id db =
    if is_empty (trim_space id)
    then (db, false)
    else if fails 0
    then (db, false)
    else deleted (delete_worker_node_by_id (trim_space id) db)

-- The answers of TouchWithSession.
pub data Touched : Type 0 where
  touched node_not_found session_mismatch touch_failed : Touched

abbrev not_touched : Text → Option Node → Touched
not_touched session none = node_not_found
not_touched session (some n) = ite (text_discrete n.session_id session) touched session_mismatch

abbrev pub touch_result : Bool → Text → Text → Db × ℕ → Db × Touched
touch_result fails id session (db, n) =
    if ltb 0 n
    then (db, touched)
    else if fails
    then (db, touch_failed)
    else (db, not_touched session (get_worker_node_by_id id db))

unfoldable pub touch_with_session : Faults → Text → Text → ℕ → Db → Db × Touched
unfolding update_worker_heartbeat_by_session
touch_with_session fails id session now db =
    if fails 0
    then (db, touch_failed)
    else touch_result (fails 1) (trim_space id) (trim_space session) (
        update_worker_heartbeat_by_session (unix_milli now) (trim_space id) (trim_space session) db)

-- Whether there is an error.
unfoldable pub clear_session : Faults → Text → Text → Db → Db × Bool
unfolding clear_worker_session_by_node_and_session
clear_session fails id session db = if fails 0 then (db, true) else (
  (clear_worker_session_by_node_and_session (trim_space id) (trim_space session) db).0,
  false,
)

unfoldable pub clear_session_by_node : Faults → Text → Db → Db × Bool
unfolding clear_worker_session_by_node
clear_session_by_node fails id db =
    if fails 0 then (db, true) else ((clear_worker_session_by_node (trim_space id) db).0, false)
