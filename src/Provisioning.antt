-- ===== src/Provisioning.antt =====
-- console/internal/grpcserver/service_credentials_runtime.go: the workers that the console provisions,
-- and their credentials. A credential is kept in memory and in the table. The hash of a secret, an HMAC
-- in hex, is a parameter; without a hasher the secret itself is kept. A lock covers one step, and
-- nobody else changes the state between the steps of a method.
pub mod Seeding
pub mod Rollback
pub mod Creating
pub mod Revoking
mod Examples
use onlyboxes_mcp.Prelude.{
  ℕ, ◌≡◌, ite, Bool, true, false, ◌&&◌, ◌||◌, not, Option, none, some, List, [], ◌∷◌, ltb, ◌==◌,
  if◌then◌else◌, is_empty, is_some,
}
use onlyboxes_mcp.Prelude.Text.{Text, text, text_discrete, trim_space, to_lower}
use onlyboxes_mcp.Prelude.Map.{Map, get, put, delete}
use onlyboxes_mcp.Errors.{Error, status, permission_denied, unauthenticated, other}
use onlyboxes_mcp.Session.{Session}
use onlyboxes_mcp.Session.Lifecycle.{close}
use onlyboxes_mcp.Dispatch.{Console, worker_type_sys, set_object}
use onlyboxes_mcp.Registry.Table.{Db, owner_label, type_label}
use onlyboxes_mcp.Registry.Lifecycle.{seed_provisioned_workers, delete_node, clear_session_by_node}
use onlyboxes_mcp.Registry.Lookup.{
  Claimed, claimed, not_claimed, claim_worker_sys_owner, count_workers_by_owner_and_type,
}
use onlyboxes_mcp.Registry.Credentials.{
  get_credential_hash, put_credential_hash_if_absent, delete_credential,
}
use onlyboxes_mcp.Registry.{Faults}

pub record Service : Type 0 where
  pub db : Db
  pub credentials : Map Text
  pub console : Console

-- The hasher, if there is one.
abbrev pub Hasher : Type 0
Hasher = Option (Text → Text)

abbrev pub worker_type_normal : Text
worker_type_normal = text "normal"

unfoldable pub normalize_provisioning_worker_type : Text → Text
normalize_provisioning_worker_type worker_type =
    let name = trim_space (to_lower worker_type) in
    ite (text_discrete name worker_type_normal) worker_type_normal
      (ite (text_discrete name worker_type_sys) worker_type_sys [])

-- The value that is kept of a secret, and the algorithm's name.
abbrev pub credential_value : Hasher → Text → Text
credential_value none secret = secret
credential_value (some hash) secret = hash secret

abbrev pub algo_name : Hasher → Text
algo_name none = text "legacy-plain"
algo_name (some hash) = text "hmac-sha256"

unfoldable pub put_credential_if_absent : Text → Text → Service → Service × Bool
put_credential_if_absent id secret s =
    if is_empty (trim_space id) || is_empty (trim_space secret)
    then (s, false)
    else if is_some (get (trim_space id) s.credentials)
    then (s, false)
    else (record s { credentials = put (trim_space id) (trim_space secret) s.credentials }, true)

-- deleteCredential, of the credentials in memory.
unfoldable pub forget_credential : Text → Service → Service × Bool
forget_credential id s =
    if is_empty (trim_space id)
    then (s, false)
    else if is_some (get (trim_space id) s.credentials)
    then (record s { credentials = delete (trim_space id) s.credentials }, true)
    else (s, false)

abbrev remember : Text → Text → Service → Service
remember id hash s = record s { credentials = put id hash s.credentials }

abbrev remembered : (Service → Service) → Text → Service → Option Text → Service × Option Text
remembered after id s none = (s, none)
remembered after id s (some hash) = (remember id hash (after s), some hash)

abbrev known :
    (Service → Service)
    → (Service → Service)
    → Faults
    → Text
    → Service
    → Option Text
    → Service × Option Text
known before after fails id s (some secret) = (s, some secret)
known before after fails id s none =
    remembered after id (before s) (get_credential_hash fails id (before s).db)

-- The lock is released between the look into the memory, the read of the table and the write to the
-- memory: `before` and `after` are what other requests do before that read and after it.
unfoldable pub get_credential :
    (Service → Service) → (Service → Service) → Faults → Text → Service → Service × Option Text
get_credential before after fails id s =
    if is_empty (trim_space id)
    then (s, none)
    else known before after fails (trim_space id) s (get (trim_space id) s.credentials)

abbrev not_blank : Service × Option Text → Service × Option Text
not_blank (s, none) = (s, none)
not_blank (s, some secret) = (s, if is_empty (trim_space secret) then none else some secret)

unfoldable pub get_worker_secret :
    (Service → Service) → (Service → Service) → Faults → Text → Service → Service × Option Text
unfolding get_credential
get_worker_secret before after fails id s = not_blank (get_credential before after fails id s)

-- What an attempt takes from the generators of ids and secrets, and which of its database calls fail.
pub record Attempt : Type 0 where
  pub worker_id : Option Text
  pub worker_secret : Option Text
  pub seed : Faults
  pub claim : Faults
  pub keep : Faults
  pub undo : Faults

pub data Created : Type 0 where
  created : Text → Text → Created
  failed : Error → Created
  -- `continue`
  again : Created

abbrev pub already_exists : Error
already_exists = other (text "worker-sys already exists for owner")

abbrev pub new_labels : Text → Text → Map Text
new_labels owner worker_type =
    (text "source", text "console-ui") ∷ (owner_label, owner) ∷ (type_label, worker_type) ∷ []

-- The node is deleted again.
abbrev pub take_back : Faults → Text → Service → Service
take_back undo id s = record s { db = (delete_node undo id s.db).0 }

abbrev kept_in_db : Attempt → Text → Text → Service → Db × Bool → Service × Created
kept_in_db a id secret s (db, true) = (record s { db = db }, created id secret)
kept_in_db a id secret s (db, false) =
    (take_back a.undo id (forget_credential id (record s { db = db })).0, again)

abbrev kept_in_memory : Hasher → Attempt → Text → Text → ℕ → Service × Bool → Service × Created
kept_in_memory h a id secret now (s, false) = (take_back a.undo id s, again)
kept_in_memory h a id secret now (s, true) =
    kept_in_db a id secret s
      (put_credential_hash_if_absent a.keep id (credential_value h secret) (algo_name h) now s.db)

-- From the credential on.
unfoldable pub keep_credential : Hasher → Attempt → Text → Text → ℕ → Service → Service × Created
unfolding put_credential_if_absent forget_credential
keep_credential h a id secret now s =
    kept_in_memory h a id secret now (put_credential_if_absent id (credential_value h secret) s)

abbrev claimed_sys : Hasher → Attempt → Text → Text → ℕ → Service → Db × Claimed → Service × Created
claimed_sys h a id secret now s (db, not_claimed e) =
    (take_back a.undo id (record s { db = db }), failed (other (text "claim worker-sys owner")))
claimed_sys h a id secret now s (db, claimed false) =
    (take_back a.undo id (record s { db = db }), failed already_exists)
claimed_sys h a id secret now s (db, claimed true) =
    keep_credential h a id secret now (record s { db = db })

abbrev on_seeded :
    Hasher → Attempt → Text → Text → Text → Text → ℕ → Service → Db × ℕ → Service × Created
on_seeded h a owner worker_type id secret now s (db, n) =
    if not (n == 1)
    then (record s { db = db }, again)
    else ite (text_discrete worker_type worker_type_sys)
        (claimed_sys h a id secret now (record s { db = db })
          (claim_worker_sys_owner a.claim owner id now db))
        (keep_credential h a id secret now (record s { db = db }))

-- One round of the loop.
unfoldable pub create_once : Hasher → Attempt → Text → Text → ℕ → ℕ → Service → Service × Created
unfolding keep_credential
create_once h a owner worker_type now ttl s = with_id a.worker_id a.worker_secret
  where
    with_id : Option Text → Option Text → Service × Created
    with_id none secret = (s, failed (other (text "generate worker_id")))
    with_id (some id) none = (s, failed (other (text "generate worker_secret")))
    with_id (some id) (some secret) = on_seeded h a owner worker_type id secret now s (
        seed_provisioned_workers a.seed
          (record { node_id = id; labels = new_labels owner worker_type } ∷ []) now ttl s.db)

abbrev pub max_provisioning_create_attempts : ℕ
max_provisioning_create_attempts = 8

abbrev pub or_again : (Service → Service × Created) → Service × Created → Service × Created
or_again rest (s, created id secret) = (s, created id secret)
or_again rest (s, failed e) = (s, failed e)
or_again rest (s, again) = rest s

-- The loop, with an attempt for each round.
unfoldable pub create_loop :
    Hasher → List Attempt → Text → Text → ℕ → ℕ → Service → Service × Created
unfolding create_once
create_loop h [] owner worker_type now ttl s =
    (s, failed (other (text "failed to allocate unique worker_id")))
create_loop h (a ∷ attempts) owner worker_type now ttl s =
    or_again (create_loop h attempts owner worker_type now ttl)
      (create_once h a owner worker_type now ttl s)

abbrev pub invalid_worker_type : Error
invalid_worker_type = other (text "invalid worker type")

-- CreateProvisionedWorkerForOwner, with the attempts for its rounds; `count` is for the query before.
unfoldable pub create_provisioned_worker_for_owner :
    Hasher → Faults → List Attempt → Text → Text → ℕ → ℕ → Service → Service × Created
unfolding create_loop normalize_provisioning_worker_type
create_provisioned_worker_for_owner h count attempts owner worker_type now ttl s =
    let kind = normalize_provisioning_worker_type worker_type in
    if is_empty (trim_space owner)
    then (s, failed (other (text "owner_id is required")))
    else if is_empty kind
    then (s, failed invalid_worker_type)
    else if ite (text_discrete kind worker_type_sys)
        (ltb 0 (count_workers_by_owner_and_type count (trim_space owner) kind s.db)) false
    then (s, failed already_exists)
    else create_loop h attempts (trim_space owner) kind now ttl s

-- What a session that is disconnected is closed with.
abbrev pub revoked : Error
revoked = status permission_denied (text "worker credential revoked")

abbrev close_object : Text → Option Session → Console → Console
close_object p none c = c
close_object p (some o) c = set_object p (close o (some revoked)) c

abbrev drop_active : Text → Option Text → Console → Console
drop_active id none c = c
drop_active id (some p) c =
    close_object p (get p c.objects) (record c { sessions = delete id c.sessions })

-- disconnectWorker; the error of the store is logged only.
unfoldable pub disconnect_worker : Faults → Text → Service → Service
disconnect_worker fails id s = if is_empty (trim_space id) then s else record s {
  db = (clear_session_by_node fails (trim_space id) s.db).0;
  console = drop_active (trim_space id) (get (trim_space id) s.console.sessions) s.console;
}

abbrev deleted_all : Faults → Text → Service → Bool → Bool → Db × Bool → Service × Bool
deleted_all fails id s in_memory in_db (db, node) =
    if not in_memory && not in_db && not node
    then (record s { db = db }, false)
    else (disconnect_worker fails id (record s { db = db }), true)

abbrev deleted_credential : Faults → Faults → Text → Service → Bool → Db × Bool → Service × Bool
deleted_credential node fails id s in_memory (db, in_db) =
    deleted_all fails id (record s { db = db }) in_memory in_db (delete_node node id db)

abbrev forgotten : Faults → Faults → Faults → Text → Service × Bool → Service × Bool
forgotten credential node fails id (s, in_memory) =
    deleted_credential node fails id s in_memory (delete_credential credential id s.db)

-- DeleteProvisionedWorker, with the faults of its three calls of the store.
unfoldable pub delete_provisioned_worker :
    Faults → Faults → Faults → Text → Service → Service × Bool
unfolding forget_credential disconnect_worker
delete_provisioned_worker credential node fails id s =
    if is_empty (trim_space id)
    then (s, false)
    else forgotten credential node fails (trim_space id) (forget_credential (trim_space id) s)

abbrev secret_matches : Hasher → Text → Text → Bool
secret_matches none kept secret = ite (text_discrete kept secret) true false
secret_matches (some hash) kept secret =
    ite (text_discrete (trim_space kept) (hash secret)) true false

abbrev verified : Hasher → Text → Service × Option Text → Service × Option Error
verified h secret (s, none) = (s, some (status unauthenticated (text "unknown worker_id")))
verified h secret (s, some kept) =
    if is_empty secret
    then (s, some (status unauthenticated (text "worker_secret is required")))
    else if secret_matches h kept secret
    then (s, none)
    else (s, some (status unauthenticated (text "invalid worker credential")))

-- Connect from the hello to the check of its secret.
unfoldable pub authenticate :
    (Service → Service)
    → (Service → Service)
    → Hasher
    → Faults
    → Text
    → Text
    → Service
    → Service × Option Error
unfolding get_credential
authenticate before after h fails id secret s =
    verified h (trim_space secret) (get_credential before after fails id s)
