-- ===== src/Registry/Assigned.antt =====
-- Where a command of an owner's own worker goes: the choice of sessions of
-- console/internal/grpcserver/service_dispatch.go, over the store of console/internal/registry.
use onlyboxes_mcp.Prelude.{
  ℕ, ◌-◌, ◌≡◌, ◌⊎◌, refl, subst, ◌∙◌, Bool, true, false, Option, none, some, List, [], ◌∷◌, arith,
  ltb, is_empty, inl, inr, ap, if_pos, if◌then◌else◌,
}
use onlyboxes_mcp.Prelude.Text.{Text, text_discrete, trim_space, trim_space_idem, to_lower}
use onlyboxes_mcp.Prelude.Map.{get, Distinct}
use onlyboxes_mcp.Naming.{normalize_capability, computer_use_capability, read_image_capability}
use onlyboxes_mcp.Scope.Ids.{normalize_task_owner_id}
use onlyboxes_mcp.Dispatch.Gathering.{In}
use onlyboxes_mcp.Dispatch.Pointers.{pick_session-In}
use onlyboxes_mcp.Dispatch.{
  Console, picked, list_online_node_ids, worker_type_sys, pick_session_for_capability,
}
use onlyboxes_mcp.Registry.Order.{order_by, get-order_by, order_by-Distinct}
use onlyboxes_mcp.Registry.Table.{Node, Db, rows_of}
use onlyboxes_mcp.Registry.Selects.{
  by_key, matching, is_owned, is_connected, joined_owned_capability,
  list_online_worker_node_ids_by_owner_type_and_capability,
}
use onlyboxes_mcp.Registry.Lookup.{list_online_node_ids_by_owner_type_and_capability, store_at}
use onlyboxes_mcp.Registry.Listing.{occurrences, joined_at, occurrences-ids_of}
use onlyboxes_mcp.Registry.{Faults, unix_milli, normalize_capability_name, normalize_worker_type}

-- A node that is the owner's, of that type, with the capability, and seen since.
abbrev pub IsOwn : Text → Text → Text → ℕ → Db → Text → Type 0
IsOwn owner worker_type name cutoff db id =
    (n : Node) × (get id db.nodes ≡ some n)
    × (is_connected cutoff n ≡ true)
    × (is_owned owner worker_type (rows_of id db.labels) ≡ true)
    × (ltb 0 (matching name (rows_of id db.capabilities)) ≡ true)

In-occurrences : (id : Text) (ids : List Text) → In id ids → ltb 0 (occurrences id ids) ≡ true
unfolding occurrences
In-occurrences id [] h = absurd h
In-occurrences id (j ∷ ids) (inl e) = rw (if_pos (text_discrete id j) e) (ground arith)
In-occurrences id (j ∷ ids) (inr h) = ground (arith, In-occurrences id ids h)

guarded :
    (owned connected : Bool) (rows : ℕ)
    → ltb 0 (if owned then (if connected then rows else 0) else 0) ≡ true
    → (connected ≡ true) × (owned ≡ true) × (ltb 0 rows ≡ true)
guarded true true rows h = (refl, refl, h)
guarded true false rows h = cc
guarded false connected rows h = cc

joined-IsOwn :
    (name owner worker_type id : Text) (cutoff : ℕ) (db : Db) (o : Option Node)
    → get id db.nodes ≡ o
    → ltb 0 (joined_at (joined_owned_capability name owner worker_type cutoff db) id o) ≡ true
    → IsOwn owner worker_type name cutoff db id
joined-IsOwn name owner worker_type id cutoff db none e h = cc
joined-IsOwn name owner worker_type id cutoff db (some n) e h =
    let g =
      guarded (is_owned owner worker_type (rows_of id db.labels)) (is_connected cutoff n)
        (matching name (rows_of id db.capabilities)) h in
    (n, e, g.0, g.1, g.2)

-- What the statement selects.
selected-IsOwn :
    (name owner worker_type id : Text) (cutoff : ℕ) (db : Db)
    → Distinct db.nodes
    → In id
        (list_online_worker_node_ids_by_owner_type_and_capability name owner worker_type cutoff db)
    → IsOwn owner worker_type name cutoff db id
unfolding list_online_worker_node_ids_by_owner_type_and_capability
selected-IsOwn name owner worker_type id cutoff db d h =
    joined-IsOwn name owner worker_type id cutoff db (get id db.nodes) refl (
      subst (λ n. ltb 0 n ≡ true)
        (occurrences-ids_of joined id (order_by by_key db.nodes)
            (order_by-Distinct by_key db.nodes d)
          ∙ ap (joined_at joined id) (get-order_by by_key id db.nodes d))
        (In-occurrences id _ h))
  where
    joined : Text → Node → ℕ
    joined = joined_owned_capability name owner worker_type cutoff db

guarded-In :
    (stop : Bool) (id : Text) (ids : List Text) → In id (if stop then [] else ids) → In id ids
guarded-In true id ids h = absurd h
guarded-In false id ids h = h

listed-IsOwn :
    (fails : Faults) (owner worker_type capability id : Text) (now ttl : ℕ) (db : Db)
    → Distinct db.nodes
    → In id (
        list_online_node_ids_by_owner_type_and_capability fails owner worker_type capability now ttl
          db)
    → IsOwn
        (trim_space owner)
        (normalize_worker_type worker_type)
        (normalize_capability_name capability)
        (unix_milli (now - ttl))
        db
        id
unfolding list_online_node_ids_by_owner_type_and_capability
listed-IsOwn fails owner worker_type capability id now ttl db d h =
    selected-IsOwn _ _ _ id _ db d (guarded-In _ id _ h)

-- Which capabilities are an owner's own.
abbrev pub IsPersonal : Text → Type 0
IsPersonal capability =
    (normalize_capability capability ≡ computer_use_capability)
    ⊎ (normalize_capability capability ≡ read_image_capability)

IsOwn-same :
    (o p w v c e id : Text) (cutoff : ℕ) (db : Db)
    → o ≡ p
    → w ≡ v
    → c ≡ e
    → IsOwn o w c cutoff db id
    → IsOwn p v e cutoff db id
IsOwn-same o p w v c e id cutoff db x y z h =
    subst (λ t. IsOwn t v e cutoff db id) x
      (subst (λ t. IsOwn o t e cutoff db id) y (subst (λ t. IsOwn o w t cutoff db id) z h))

sys_normal : normalize_worker_type worker_type_sys ≡ worker_type_sys
unfolding normalize_worker_type trim_space to_lower
sys_normal = refl

computer_use_normal : normalize_capability_name computer_use_capability ≡ computer_use_capability
unfolding normalize_capability_name trim_space to_lower
computer_use_normal = refl

read_image_normal : normalize_capability_name read_image_capability ≡ read_image_capability
unfolding normalize_capability_name trim_space to_lower
read_image_normal = refl

by_owner-IsOwn :
    (fails : Faults) (owner name id : Text) (now ttl : ℕ) (db : Db)
    → Distinct db.nodes
    → normalize_capability_name name ≡ name
    → In id (
        if is_empty (trim_space owner)
        then []
        else list_online_node_ids_by_owner_type_and_capability fails
            (trim_space owner)
            worker_type_sys
            name
            now
            ttl
            db)
    → IsOwn (trim_space owner) worker_type_sys name (unix_milli (now - ttl)) db id
by_owner-IsOwn fails owner name id now ttl db d e h =
    IsOwn-same _ _ _ _ _ _ id _ db (trim_space_idem owner) sys_normal e (
      listed-IsOwn fails (trim_space owner) worker_type_sys name id now ttl db d
        (guarded-In (is_empty (trim_space owner)) id _ h))

personal-IsOwn :
    (fails : Faults) (owner capability id : Text) (now ttl : ℕ) (db : Db)
    → Distinct db.nodes
    → IsPersonal capability
    → In id (list_online_node_ids (store_at fails now ttl db) capability owner)
    → IsOwn
        (trim_space owner)
        worker_type_sys
        (normalize_capability capability)
        (unix_milli (now - ttl))
        db
        id
unfolding list_online_node_ids normalize_task_owner_id text_discrete
personal-IsOwn fails owner capability id now ttl db d p = elim p [
  | inl e ↦ rw e (by_owner-IsOwn fails owner _ id now ttl db d computer_use_normal)
  | inr e ↦ rw e (by_owner-IsOwn fails owner _ id now ttl db d read_image_normal)
]

-- A command of the capabilities computerUse or readImage goes only to a worker of its owner: the session
-- that pickSessionForCapability picks, of the nodes that listOnlineNodeIDsForCapability gets from the
-- registry, is that of a node whose labels have the owner, trimmed, and the type worker-sys, which has
-- the capability, is connected and was last seen within the TTL; whether or not the query fails, and
-- whatever other requests do before a slot is taken. The keys of the nodes are distinct.
pub pick_session-IsOwn :
    (meanwhile : Console → Console) (fails : Faults) (now ttl : ℕ) (db : Db) (s : Console)
    (capability owner p : Text)
    → Distinct db.nodes
    → IsPersonal capability
    → (pick_session_for_capability meanwhile s capability
        (list_online_node_ids (store_at fails now ttl db) capability owner)).1
      ≡ picked p
    → (node : Text) × (get node s.sessions ≡ some p)
      × IsOwn
          (trim_space owner)
          worker_type_sys
          (normalize_capability capability)
          (unix_milli (now - ttl))
          db
          node
pick_session-IsOwn meanwhile fails now ttl db s capability owner p d c h =
    let at =
      pick_session-In meanwhile s capability p
        (list_online_node_ids (store_at fails now ttl db) capability owner) h in
    (at.0, at.2, personal-IsOwn fails owner capability at.0 now ttl db d c at.1)
