-- ===== src/Registry/Credentials.antt =====
-- console/internal/registry/store_credentials.go
use onlyboxes_mcp.Prelude.{
  ℕ, Bool, false, ◌||◌, Option, none, some, [], ◌∷◌, ◌==◌, if◌then◌else◌, is_empty,
}
use onlyboxes_mcp.Prelude.Text.{Text, trim_space}
use onlyboxes_mcp.Prelude.Map.{Map, put}
use onlyboxes_mcp.Registry.Table.{
  Db, Credential, insert_worker_credential_if_absent, delete_worker_credential_by_node,
}
use onlyboxes_mcp.Registry.Selects.{get_worker_credential_by_node, list_worker_credentials}
use onlyboxes_mcp.Registry.{Faults, unix_milli}

abbrev pub hash_of : Option Credential → Option Text
hash_of none = none
hash_of (some c) =
    if is_empty (trim_space c.secret_hash) then none else some (trim_space c.secret_hash)

unfoldable pub get_credential_hash : Faults → Text → Db → Option Text
get_credential_hash fails id db =
    if is_empty (trim_space id) || fails 0
    then none
    else hash_of (get_worker_credential_by_node (trim_space id) db)

abbrev pub put_result : Db → Option (Db × ℕ) → Db × Bool
put_result db none = (db, false)
put_result db (some (after, n)) = (after, n == 1)

unfoldable pub put_credential_hash_if_absent : Faults → Text → Text → Text → ℕ → Db → Db × Bool
unfolding insert_worker_credential_if_absent
put_credential_hash_if_absent fails id hash algo now db =
    if is_empty (trim_space id)
      || is_empty (trim_space hash)
      || is_empty (trim_space algo)
      || fails 0
    then (db, false)
    else put_result db (
        insert_worker_credential_if_absent (trim_space id)
          (record {
            secret_hash = trim_space hash;
            hash_algo = trim_space algo;
            created_at = unix_milli now;
            updated_at = unix_milli now;
          })
          db)

abbrev deleted_one : Db × ℕ → Db × Bool
deleted_one (db, n) = (db, n == 1)

unfoldable pub delete_credential : Faults → Text → Db → Db × Bool
unfolding delete_worker_credential_by_node
delete_credential fails id db =
    if is_empty (trim_space id) || fails 0
    then (db, false)
    else deleted_one (delete_worker_credential_by_node (trim_space id) db)

unfoldable pub hashes : Map Credential → Map Text → Map Text
hashes [] values = values
hashes ((id, c) ∷ rest) values = hashes rest (
    if is_empty (trim_space id) || is_empty (trim_space c.secret_hash)
    then values
    else put (trim_space id) (trim_space c.secret_hash) values)

unfoldable pub list_credential_hashes : Faults → Db → Map Text
unfolding hashes
list_credential_hashes fails db = if fails 0 then [] else hashes (list_worker_credentials db) []
