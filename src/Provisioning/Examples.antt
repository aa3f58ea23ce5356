-- ===== src/Provisioning/Examples.antt =====
-- Provisioned workers of console/internal/grpcserver/service_credentials_runtime.go on a concrete console.
use onlyboxes_mcp.Prelude.{◌≡◌, ◌≢◌, refl, true, false, none, some, List, [], ◌∷◌, ◌++◌, is_some}
use onlyboxes_mcp.Prelude.Text.{Text, text, text_discrete, trim_space, to_lower}
use onlyboxes_mcp.Prelude.Map.{get, put, delete}
use onlyboxes_mcp.Errors.{status, unauthenticated}
use onlyboxes_mcp.Routes.{new_routes}
use onlyboxes_mcp.Dispatch.{worker_type_sys}
use onlyboxes_mcp.Registry.Table.{
  Db, insert_worker_label, delete_worker_credential_by_node, delete_worker_node_by_id, drop_node,
}
use onlyboxes_mcp.Registry.Selects.{get_worker_credential_by_node}
use onlyboxes_mcp.Registry.Lifecycle.{seed_provisioned_workers, delete_node, clear_session_by_node}
use onlyboxes_mcp.Registry.Lookup.{claim_worker_sys_owner}
use onlyboxes_mcp.Registry.Credentials.{
  put_credential_hash_if_absent, delete_credential, get_credential_hash,
}
use onlyboxes_mcp.Registry.Calls.{Call, seeds, claims, calls, empty_db, calls-WellFormed}
use onlyboxes_mcp.Registry.{Faults}
use onlyboxes_mcp.Provisioning.Rollback.{AllOrNothing}
use onlyboxes_mcp.Provisioning.Creating.{is_created, create-AllOrNothing, create-refused}
use onlyboxes_mcp.Provisioning.Revoking.{NotKept, created_authenticates, delete-Revokes}
use onlyboxes_mcp.Provisioning.{
  Service, Hasher, Attempt, created, create_provisioned_worker_for_owner,
  normalize_provisioning_worker_type, delete_provisioned_worker, authenticate, worker_type_normal,
}

abbrev no_faults : Faults
no_faults n = false

abbrev nothing : Service → Service
nothing s = s

abbrev hasher : Hasher
hasher = some λ v. text "hash " ++ v

abbrev attempt : Text → Attempt
attempt id = record {
  worker_id = some id;
  worker_secret = some (text "key");
  seed = no_faults;
  claim = no_faults;
  keep = no_faults;
  undo = no_faults;
}

abbrev service_on : Db → Service
service_on db = record {
  db = db;
  credentials = [];
  console = record { objects = []; sessions = []; routes = new_routes; round_robin = 0 };
}

create-AllOrNothing_example :
    AllOrNothing hasher
      (trim_space (text " bob"))
      (normalize_provisioning_worker_type (text "Worker-Sys"))
      (service_on empty_db)
      (create_provisioned_worker_for_owner hasher no_faults
        (attempt (text "w1") ∷ [])
        (text " bob")
        (text "Worker-Sys")
        9000000000
        5
        (service_on empty_db))
create-AllOrNothing_example =
    create-AllOrNothing hasher no_faults (attempt (text "w1") ∷ []) (text " bob")
      (text "Worker-Sys") 9000000000 5 (service_on empty_db) (refl, tt) (calls-WellFormed [])

-- The owner has the worker w1.
abbrev claiming : List (Faults × Call)
claiming =
    (no_faults, seeds (record { node_id = text "w1"; labels = [] } ∷ []) 9000000000 5)
    ∷ (no_faults, claims (text "bob") (text "w1") 9000000000)
    ∷ []

has_one : is_some (get (trim_space (text "bob")) (calls claiming empty_db).claims) ≡ true
unfolding get claim_worker_sys_owner trim_space seed_provisioned_workers put text_discrete
has_one = refl

sys : normalize_provisioning_worker_type (text "worker-sys") ≡ worker_type_sys
unfolding normalize_provisioning_worker_type text_discrete trim_space to_lower
sys = refl

create-refused_example :
    is_created
      (create_provisioned_worker_for_owner hasher no_faults
        (attempt (text "w2") ∷ [])
        (text "bob")
        (text "worker-sys")
        9000000000
        5
        (service_on (calls claiming empty_db))).1
    ≡ false
create-refused_example =
    create-refused hasher no_faults (attempt (text "w2") ∷ []) (text "bob") (text "worker-sys")
      9000000000 5 (service_on (calls claiming empty_db)) (refl, tt) (calls-WellFormed claiming) sys
      has_one

abbrev bobs : Service
bobs =
    (create_provisioned_worker_for_owner hasher no_faults (attempt (text "w1") ∷ []) (text "bob")
      worker_type_normal 9000000000 5 (service_on empty_db)).0

creates :
    create_provisioned_worker_for_owner hasher no_faults
      (attempt (text "w1") ∷ [])
      (text "bob")
      worker_type_normal
      9000000000
      5
      (service_on empty_db)
    ≡ (bobs, created (text "w1") (text "key"))
unfolding create_provisioned_worker_for_owner trim_space text_discrete to_lower
    seed_provisioned_workers get insert_worker_label put put_credential_hash_if_absent
creates = refl

given : trim_space (text "w1") ≡ text "w1"
unfolding trim_space
given = refl

clean : trim_space (text "key") ≡ text "key"
unfolding trim_space
clean = refl

clean_hash : trim_space (text "hash key") ≡ text "hash key"
unfolding trim_space
clean_hash = refl

other_hash : text "hash " ++ trim_space (text "ke") ≢ text "hash " ++ text "key"
unfolding trim_space
other_hash e = cc

created_authenticates_example :
    ((authenticate nothing nothing hasher no_faults (text "w1") (text "key") bobs).1 ≡ none)
    × (is_some (authenticate nothing nothing hasher no_faults (text "w1") (text "ke") bobs).1
        ≡ true)
unfolding trim_space
created_authenticates_example =
    created_authenticates nothing nothing hasher no_faults (attempt (text "w1") ∷ []) (text "bob")
      worker_type_normal 9000000000 5 (service_on empty_db) bobs (text "w1") (text "key")
      (text "ke") no_faults (refl, tt) (calls-WellFormed []) creates refl (clean, refl, clean_hash)
      other_hash

abbrev bobs_deleted : Service
bobs_deleted = (delete_provisioned_worker no_faults no_faults no_faults (text " w1") bobs).0

delete-Revokes_example :
    ((authenticate nothing nothing hasher no_faults (text " w1") (text "key") bobs_deleted).1
      ≡ some (status unauthenticated (text "unknown worker_id")))
    × NotKept (trim_space (text " w1")) bobs_deleted
    × NotKept
        (trim_space (text " w1"))
        (authenticate nothing nothing hasher no_faults (text " w1") (text "key") bobs_deleted).0
unfolding trim_space
delete-Revokes_example =
    delete-Revokes nothing nothing hasher no_faults no_faults no_faults (text " w1") bobs no_faults
      (text "key") refl refl (λ s n. n)

-- The worker is deleted after a Connect has read its hash and before it writes it to the memory.
abbrev deleting : Service → Service
deleting s = (delete_provisioned_worker no_faults no_faults no_faults (text "w1") s).0

abbrev raced : Service
raced =
    (authenticate nothing deleting hasher no_faults (text "w1") (text "key")
      (record bobs { credentials = [] })).0

-- Its secret is in memory again, and lets it in although the worker is gone.
revoked_and_let_in :
    (get (text "w1") raced.db.nodes ≡ none)
    × ((authenticate nothing nothing hasher no_faults (text "w1") (text "key") raced).1 ≡ none)
unfolding create_provisioned_worker_for_owner trim_space text_discrete to_lower
    seed_provisioned_workers get insert_worker_label put put_credential_hash_if_absent authenticate
    get_credential_hash get_worker_credential_by_node delete_provisioned_worker delete
    delete_credential delete_worker_credential_by_node delete_node delete_worker_node_by_id
    drop_node clear_session_by_node
revoked_and_let_in = (refl, refl)
