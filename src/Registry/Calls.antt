-- ===== src/Registry/Calls.antt =====
-- Any calls of the store of console/internal/registry that change the tables, in any order, with any
-- database calls failing.
use onlyboxes_mcp.Prelude.{
  ℕ, suc, ◌-◌, ◌≡◌, refl, Bool, true, ◌||◌, List, [], ◌∷◌, ◌++◌, arith, is_some, is_empty, inl, inr,
  Bool-cases,
}
use onlyboxes_mcp.Prelude.Text.{Text, text, trim_space}
use onlyboxes_mcp.Prelude.Map.{get}
use onlyboxes_mcp.Registry.Table.{
  Db, drop_nodes, drop_node, stale_nodes, delete_offline_runtime_workers, delete_worker_node_by_id,
  insert_provisioned_worker_node_if_absent, insert_worker_credential_if_absent,
  delete_worker_credential_by_node, is_claimed, insert_worker_sys_owner_claim_if_absent,
  update_worker_heartbeat_by_session, update_node, clear_worker_session_by_node,
  clear_worker_session_by_node_and_session, of_session, set_session, set_last_seen,
}
use onlyboxes_mcp.Registry.Lifecycle.{
  ProvisionedWorker, seed_worker, seed_all, seed_provisioned_workers, delete_node,
  touch_with_session, touch_result, clear_session, clear_session_by_node, short_node_id,
  offline_since,
}
use onlyboxes_mcp.Registry.Lookup.{claim_worker_sys_owner, prune_offline}
use onlyboxes_mcp.Registry.Credentials.{put_credential_hash_if_absent, delete_credential}
use onlyboxes_mcp.Registry.Upserts.{upsert-Cases}
use onlyboxes_mcp.Registry.Foreign.{WellFormed, drop_node-WellFormed}
use onlyboxes_mcp.Registry.Kept.{
  update_node-WellFormed, upserted-WellFormed, seeded-WellFormed, put_credential-WellFormed,
  delete_credential-WellFormed, put_claim-WellFormed,
}
use onlyboxes_mcp.Registry.{Faults, Hello, upsert, unix_milli}

-- The calls, with their arguments and the time.
pub data Call : Type 0 where
  upserts : Hello → Text → ℕ → Call
  seeds : List ProvisionedWorker → ℕ → ℕ → Call
  deletes : Text → Call
  touches clears : Text → Text → ℕ → Call
  clears_node : Text → Call
  claims : Text → Text → ℕ → Call
  prunes : ℕ → ℕ → Call
  puts_credential : Text → Text → Text → ℕ → Call
  deletes_credential : Text → Call

abbrev pub call : Faults → Call → Db → Db
call fails (upserts req session now) db = (upsert fails req session now db).0
call fails (seeds workers now ttl) db = (seed_provisioned_workers fails workers now ttl db).0
call fails (deletes id) db = (delete_node fails id db).0
call fails (touches id session now) db = (touch_with_session fails id session now db).0
call fails (clears id session now) db = (clear_session fails id session db).0
call fails (clears_node id) db = (clear_session_by_node fails id db).0
call fails (claims owner id now) db = (claim_worker_sys_owner fails owner id now db).0
call fails (prunes now ttl) db = (prune_offline fails now ttl db).0
call fails (puts_credential id hash algo now) db =
    (put_credential_hash_if_absent fails id hash algo now db).0
call fails (deletes_credential id) db = (delete_credential fails id db).0

abbrev pub calls : List (Faults × Call) → Db → Db
calls [] db = db
calls ((fails, c) ∷ cs) db = calls cs (call fails c db)

abbrev pub empty_db : Db
empty_db = record { nodes = []; capabilities = []; labels = []; credentials = []; claims = [] }

upsert-WellFormed :
    (fails : Faults) (req : Hello) (session : Text) (now : ℕ) (db : Db)
    → WellFormed db
    → WellFormed (upsert fails req session now db).0
upsert-WellFormed fails req session now db w = elim (upsert-Cases fails req session now db) [
  | inl c ↦ rw (c.0) w
  | inr c ↦ rw c (upserted-WellFormed req (trim_space req.node_id) (trim_space session) now db w)
]

seed_worker-WellFormed :
    (fails : Bool) (p : ProvisionedWorker) (registered seen : ℕ) (db : Db)
    → WellFormed db
    → WellFormed (seed_worker fails p registered seen db).0
unfolding seed_worker insert_provisioned_worker_node_if_absent
seed_worker-WellFormed fails p registered seen db w =
    elim (Bool-cases (is_empty (trim_space p.node_id))) [
      | inl e ↦ rw e w
      | inr e ↦ rw e (elim (Bool-cases fails) [
        | inl f ↦ rw f w
        | inr f ↦ rw f (elim (Bool-cases (is_some (get (trim_space p.node_id) db.nodes))) [
          | inl g ↦ rw g w
          | inr g ↦ rw g (
              seeded-WellFormed (trim_space p.node_id)
                (text "worker-" ++ short_node_id (trim_space p.node_id)) p.labels registered seen db
                w)
        ])
      ])
    ]

seed_all-WellFormed :
    (fails : Faults) (i : ℕ) (ps : List ProvisionedWorker) (registered seen : ℕ) (db : Db)
    → WellFormed db
    → WellFormed (seed_all fails i ps registered seen db).0
unfolding seed_all
seed_all-WellFormed fails i [] registered seen db w = w
seed_all-WellFormed fails i (p ∷ ps) registered seen db w =
    seed_all-WellFormed fails (suc i) ps registered seen
      (seed_worker (fails i) p registered seen db).0
      (seed_worker-WellFormed (fails i) p registered seen db w)

delete_node-WellFormed :
    (fails : Faults) (id : Text) (db : Db) → WellFormed db → WellFormed (delete_node fails id db).0
unfolding delete_node delete_worker_node_by_id
delete_node-WellFormed fails id db w = elim (Bool-cases (is_empty (trim_space id))) [
  | inl e ↦ rw e w
  | inr e ↦ rw e (elim (Bool-cases (fails 0)) [
    | inl f ↦ rw f w
    | inr f ↦ rw f (elim (Bool-cases (is_some (get (trim_space id) db.nodes))) [
      | inl g ↦ rw g (drop_node-WellFormed (trim_space id) db w)
      | inr g ↦ rw g w
    ])
  ])
]

touch_result-nodes :
    (fails : Bool) (id session : Text) (r : Db × ℕ) → (touch_result fails id session r).0 ≡ r.0
touch_result-nodes fails id session (db, n) = ground arith

touch-WellFormed :
    (fails : Faults) (id session : Text) (now : ℕ) (db : Db)
    → WellFormed db
    → WellFormed (touch_with_session fails id session now db).0
unfolding touch_with_session update_worker_heartbeat_by_session
touch-WellFormed fails id session now db w = elim (Bool-cases (fails 0)) [
  | inl f ↦ rw f w
  | inr f ↦ rw f (
      rw
        (touch_result-nodes (fails 1) (trim_space id) (trim_space session) (
          update_node (of_session (trim_space session)) (set_last_seen (unix_milli now))
            (trim_space id) db))
        (update_node-WellFormed (of_session (trim_space session)) (set_last_seen (unix_milli now))
          (trim_space id) db w))
]

clear-WellFormed :
    (fails : Faults) (id session : Text) (db : Db)
    → WellFormed db
    → WellFormed (clear_session fails id session db).0
unfolding clear_session clear_worker_session_by_node_and_session
clear-WellFormed fails id session db w = elim (Bool-cases (fails 0)) [
  | inl f ↦ rw f w
  | inr f ↦ rw f (
      update_node-WellFormed (of_session (trim_space session)) (set_session []) (trim_space id) db
        w)
]

clear_node-WellFormed :
    (fails : Faults) (id : Text) (db : Db)
    → WellFormed db
    → WellFormed (clear_session_by_node fails id db).0
unfolding clear_session_by_node clear_worker_session_by_node
clear_node-WellFormed fails id db w = elim (Bool-cases (fails 0)) [
  | inl f ↦ rw f w
  | inr f ↦ rw f (update_node-WellFormed (λ n. true) (set_session []) (trim_space id) db w)
]

drop_nodes-WellFormed : (ids : List Text) (db : Db) → WellFormed db → WellFormed (drop_nodes ids db)
unfolding drop_nodes
drop_nodes-WellFormed [] db w = w
drop_nodes-WellFormed (id ∷ ids) db w =
    drop_nodes-WellFormed ids (drop_node id db) (drop_node-WellFormed id db w)

prune-WellFormed :
    (fails : Faults) (now ttl : ℕ) (db : Db)
    → WellFormed db
    → WellFormed (prune_offline fails now ttl db).0
unfolding prune_offline delete_offline_runtime_workers
prune-WellFormed fails now ttl db w = elim (Bool-cases (fails 0)) [
  | inl f ↦ rw f w
  | inr f ↦ rw f (drop_nodes-WellFormed (stale_nodes (unix_milli (now - ttl)) db.nodes) db w)
]

claim-WellFormed :
    (fails : Faults) (owner id : Text) (now : ℕ) (db : Db)
    → WellFormed db
    → WellFormed (claim_worker_sys_owner fails owner id now db).0
unfolding claim_worker_sys_owner insert_worker_sys_owner_claim_if_absent
claim-WellFormed fails owner id now db w =
    elim (Bool-cases (is_empty (trim_space owner) || is_empty (trim_space id))) [
      | inl e ↦ rw e w
      | inr e ↦ rw e (elim (Bool-cases (fails 0)) [
        | inl f ↦ rw f w
        | inr f ↦ rw f (elim (Bool-cases (is_some (get (trim_space owner) db.claims))) [
          | inl g ↦ rw g w
          | inr g ↦ rw g (elim (Bool-cases (is_claimed (trim_space id) db.claims)) [
            | inl h ↦ rw h w
            | inr h ↦ rw h (elim (Bool-cases (is_some (get (trim_space id) db.nodes))) [
              | inl k ↦ rw k (
                  put_claim-WellFormed (trim_space owner)
                    (record { node_id = trim_space id; claimed_at = unix_milli now }) db h k w)
              | inr k ↦ rw k w
            ])
          ])
        ])
      ])
    ]

put_credential_hash-WellFormed :
    (fails : Faults) (id hash algo : Text) (now : ℕ) (db : Db)
    → WellFormed db
    → WellFormed (put_credential_hash_if_absent fails id hash algo now db).0
unfolding put_credential_hash_if_absent insert_worker_credential_if_absent
put_credential_hash-WellFormed fails id hash algo now db w =
    elim (Bool-cases (
      is_empty (trim_space id)
      || is_empty (trim_space hash)
      || is_empty (trim_space algo)
      || fails 0)) [
        | inl e ↦ rw e w
        | inr e ↦ rw e (elim (Bool-cases (is_some (get (trim_space id) db.credentials))) [
          | inl g ↦ rw g w
          | inr g ↦ rw g (elim (Bool-cases (is_some (get (trim_space id) db.nodes))) [
            | inl k ↦ rw k (
                put_credential-WellFormed (trim_space id)
                  (record {
                    secret_hash = trim_space hash;
                    hash_algo = trim_space algo;
                    created_at = unix_milli now;
                    updated_at = unix_milli now;
                  })
                  db k w)
            | inr k ↦ rw k w
          ])
        ])
      ]

delete_credential_call-WellFormed :
    (fails : Faults) (id : Text) (db : Db)
    → WellFormed db
    → WellFormed (delete_credential fails id db).0
unfolding delete_credential delete_worker_credential_by_node
delete_credential_call-WellFormed fails id db w =
    elim (Bool-cases (is_empty (trim_space id) || fails 0)) [
      | inl e ↦ rw e w
      | inr e ↦ rw e (elim (Bool-cases (is_some (get (trim_space id) db.credentials))) [
        | inl g ↦ rw g (delete_credential-WellFormed (trim_space id) db w)
        | inr g ↦ rw g w
      ])
    ]

pub call-WellFormed :
    (fails : Faults) (c : Call) (db : Db) → WellFormed db → WellFormed (call fails c db)
unfolding seed_provisioned_workers
call-WellFormed fails (upserts req session now) db w = upsert-WellFormed fails req session now db w
call-WellFormed fails (seeds workers now ttl) db w =
    seed_all-WellFormed fails 0 workers (unix_milli now) (unix_milli (offline_since now ttl)) db w
call-WellFormed fails (deletes id) db w = delete_node-WellFormed fails id db w
call-WellFormed fails (touches id session now) db w = touch-WellFormed fails id session now db w
call-WellFormed fails (clears id session now) db w = clear-WellFormed fails id session db w
call-WellFormed fails (clears_node id) db w = clear_node-WellFormed fails id db w
call-WellFormed fails (claims owner id now) db w = claim-WellFormed fails owner id now db w
call-WellFormed fails (prunes now ttl) db w = prune-WellFormed fails now ttl db w
call-WellFormed fails (puts_credential id hash algo now) db w =
    put_credential_hash-WellFormed fails id hash algo now db w
call-WellFormed fails (deletes_credential id) db w = delete_credential_call-WellFormed fails id db w

calls_from : (cs : List (Faults × Call)) (db : Db) → WellFormed db → WellFormed (calls cs db)
calls_from [] db w = w
calls_from ((fails, c) ∷ cs) db w = calls_from cs (call fails c db) (call-WellFormed fails c db w)

empty-WellFormed : WellFormed empty_db
unfolding get is_claimed
empty-WellFormed = ((tt, tt, tt, tt, tt), λ id. (tt, tt), tt, λ id. inr (refl, refl, refl, refl))

-- After any calls of the store in any order, from an empty database and with any of the database's
-- calls failing, the tables are well formed: the keys of each are distinct, no row of capabilities,
-- labels, credentials or claims is left over of a node that is gone, and no node is claimed twice.
pub calls-WellFormed : (cs : List (Faults × Call)) → WellFormed (calls cs empty_db)
calls-WellFormed cs = calls_from cs empty_db empty-WellFormed
