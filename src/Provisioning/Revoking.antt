-- ===== src/Provisioning/Revoking.antt =====
-- DeleteProvisionedWorker of console/internal/grpcserver/service_credentials_runtime.go, and the check of
-- a worker's secret in Connect of service_connect.go.
use onlyboxes_mcp.Prelude.{
  ℕ, ◌≡◌, ◌≢◌, refl, ap, sym, subst, ◌∙◌, Bool, true, false, ◌&&◌, ◌||◌, not, none, some, List,
  arith, is_some, is_empty, inl, inr, Bool-cases, Option-cases, if_pos, if_neg,
}
use onlyboxes_mcp.Prelude.Text.{Text, text, text_discrete, trim_space, trim_space_idem}
use onlyboxes_mcp.Prelude.Map.{get, get-delete, get-delete_self}
use onlyboxes_mcp.Errors.{status, unauthenticated}
use onlyboxes_mcp.Registry.Table.{
  Db, delete_worker_credential_by_node, delete_worker_node_by_id, drop_node, update_node,
  clear_worker_session_by_node,
}
use onlyboxes_mcp.Registry.Selects.{get_worker_credential_by_node}
use onlyboxes_mcp.Registry.Lifecycle.{delete_node, clear_session_by_node}
use onlyboxes_mcp.Registry.Credentials.{delete_credential, get_credential_hash}
use onlyboxes_mcp.Registry.Foreign.{WellFormed}
use onlyboxes_mcp.Registry.{Faults}
use onlyboxes_mcp.Provisioning.Rollback.{AllOrNothing}
use onlyboxes_mcp.Provisioning.Creating.{Undone, create-AllOrNothing}
use onlyboxes_mcp.Provisioning.{
  Service, Hasher, Attempt, created, credential_value, forget_credential, get_credential,
  authenticate, verified, delete_provisioned_worker, deleted_all, disconnect_worker,
  create_provisioned_worker_for_owner, normalize_provisioning_worker_type,
}

-- A secret that is kept in memory, against the one that a worker shows.
authenticate_known :
    (before after : Service → Service) (h : Hasher) (fails : Faults) (id shown kept : Text)
    (s : Service)
    → is_empty (trim_space id) ≡ false
    → get (trim_space id) s.credentials ≡ some kept
    → authenticate before after h fails id shown s ≡ verified h (trim_space shown) (s, some kept)
unfolding authenticate get_credential
authenticate_known before after h fails id shown kept s e g = rw e (rw g refl)

-- What is kept of a secret has no space around it, and neither has the secret.
abbrev pub Clean : Hasher → Text → Type 0
Clean h secret =
    (trim_space secret ≡ secret)
    × (is_empty secret ≡ false)
    × (trim_space (credential_value h secret) ≡ credential_value h secret)

accepts :
    (h : Hasher) (secret : Text) (s : Service)
    → Clean h secret
    → (verified h secret (s, some (credential_value h secret))).1 ≡ none
accepts none secret s c = rw (c.1) (rw (if_pos (text_discrete secret secret) refl) refl)
accepts (some hash) secret s c =
    rw (c.1) (rw (if_pos (text_discrete (trim_space (hash secret)) (hash secret)) c.2) refl)

rejects :
    (h : Hasher) (secret shown : Text) (s : Service)
    → Clean h secret
    → credential_value h shown ≢ credential_value h secret
    → is_some (verified h shown (s, some (credential_value h secret))).1 ≡ true
rejects none secret shown s c n = elim (Bool-cases (is_empty shown)) [
  | inl e ↦ rw e refl
  | inr e ↦ rw e (rw (if_neg (text_discrete secret shown) (λ x. n (sym x))) refl)
]
rejects (some hash) secret shown s c n = elim (Bool-cases (is_empty shown)) [
  | inl e ↦ rw e refl
  | inr e ↦ rw e (
      rw
        (if_neg (text_discrete (trim_space (hash secret)) (hash shown))
          (λ x. n (sym (sym c.2 ∙ x))))
        refl)
]

-- Connect lets a worker that was just created in with the secret that it was given, and with no other
-- secret, unless that has the same hash; whether or not the database fails then, and whatever other
-- requests do while the secret is looked up. The id and the secret
-- that were generated are not blank, and neither the secret nor its hash has space around it. The
-- tables are well formed, and the calls that delete the node of an attempt again do not fail.
pub created_authenticates :
    (before between : Service → Service) (h : Hasher) (count : Faults) (attempts : List Attempt)
    (owner worker_type : Text) (now ttl : ℕ) (s : Service) (after : Service)
    (id secret shown : Text) (fails : Faults)
    → Undone attempts
    → WellFormed s.db
    → create_provisioned_worker_for_owner h count attempts owner worker_type now ttl s
      ≡ (after, created id secret)
    → is_empty (trim_space id) ≡ false
    → Clean h secret
    → credential_value h (trim_space shown) ≢ credential_value h secret
    → ((authenticate before between h fails id secret after).1 ≡ none)
      × (is_some (authenticate before between h fails id shown after).1 ≡ true)
created_authenticates before between h count attempts owner worker_type now ttl s after id secret
      shown fails u w e b c n =
    let est =
      subst
        (λ r.
          AllOrNothing h (trim_space owner) (normalize_provisioning_worker_type worker_type) s r)
        e (create-AllOrNothing h count attempts owner worker_type now ttl s u w) in
    let kept = est.2 ∙ ap some c.2 in
    (
      rw
          (authenticate_known before between h fails id secret (credential_value h secret) after b
            kept)
          (rw (c.0) (accepts h secret after c)),
      rw
          (authenticate_known before between h fails id shown (credential_value h secret) after b
            kept)
          (rejects h secret (trim_space shown) after c n),
    )

forget-none :
    (id : Text) (s : Service)
    → is_empty (trim_space id) ≡ false
    → get (trim_space id) (forget_credential id s).0.credentials ≡ none
unfolding forget_credential
forget-none id s e = rw e (elim (Option-cases (get (trim_space id) s.credentials)) [
  | inl g ↦ rw g g
  | inr g ↦ rw (g.1) (get-delete_self (trim_space id) s.credentials)
])

delete_credential-none :
    (fails : Faults) (id : Text) (db : Db)
    → fails 0 ≡ false
    → is_empty (trim_space id) ≡ false
    → get (trim_space id) (delete_credential fails id db).0.credentials ≡ none
unfolding delete_credential delete_worker_credential_by_node
delete_credential-none fails id db f e = rw e (
    rw f (elim (Option-cases (get (trim_space id) db.credentials)) [
      | inl g ↦ rw g g
      | inr g ↦ rw (g.1) (get-delete_self (trim_space id) db.credentials)
    ]))

delete_node-none :
    (fails : Faults) (id k : Text) (db : Db)
    → get k db.credentials ≡ none
    → get k (delete_node fails id db).0.credentials ≡ none
unfolding delete_node delete_worker_node_by_id drop_node
delete_node-none fails id k db n = elim (Bool-cases (is_empty (trim_space id))) [
  | inl e ↦ rw e n
  | inr e ↦ rw e (elim (Bool-cases (fails 0)) [
    | inl f ↦ rw f n
    | inr f ↦ rw f (elim (Bool-cases (is_some (get (trim_space id) db.nodes))) [
      | inl g ↦ rw g (ground (arith, n, get-delete (trim_space id) k db.credentials))
      | inr g ↦ rw g n
    ])
  ])
]

clear-credentials :
    (fails : Faults) (id : Text) (db : Db)
    → (clear_session_by_node fails id db).0.credentials ≡ db.credentials
unfolding clear_session_by_node clear_worker_session_by_node update_node
clear-credentials fails id db = elim (Bool-cases (fails 0)) [
  | inl f ↦ rw f refl
  | inr f ↦ rw f refl
]

-- A secret that is kept neither in memory nor in the table.
abbrev pub NotKept : Text → Service → Type 0
NotKept id s = (get id s.credentials ≡ none) × (get id s.db.credentials ≡ none)

disconnect-NotKept :
    (fails : Faults) (id k : Text) (s : Service)
    → NotKept k s
    → NotKept k (disconnect_worker fails id s)
unfolding disconnect_worker
disconnect-NotKept fails id k s n = elim (Bool-cases (is_empty (trim_space id))) [
  | inl e ↦ rw e n
  | inr e ↦ rw e (n.0, ap (get k) (clear-credentials fails (trim_space id) s.db) ∙ n.1)
]

all-NotKept :
    (fails : Faults) (id k : Text) (s : Service) (in_memory in_db : Bool) (r : Db × Bool)
    → get k s.credentials ≡ none
    → get k r.0.credentials ≡ none
    → NotKept k (deleted_all fails id s in_memory in_db r).0
all-NotKept fails id k s in_memory in_db (db, node) m n =
    elim (Bool-cases (not in_memory && not in_db && not node)) [
      | inl e ↦ rw e (m, n)
      | inr e ↦ rw e (disconnect-NotKept fails id k (record s { db = db }) (m, n))
    ]

delete-NotKept :
    (credential node fails : Faults) (id : Text) (s : Service)
    → is_empty (trim_space id) ≡ false
    → credential 0 ≡ false
    → NotKept (trim_space id) (delete_provisioned_worker credential node fails id s).0
unfolding delete_provisioned_worker
delete-NotKept credential node fails id s e f = rw e (
    all-NotKept fails (trim_space id) (trim_space id)
      (record (forget_credential (trim_space id) s).0 {
        db =
            (delete_credential credential (trim_space id)
              (forget_credential (trim_space id) s).0.db).0;
      })
      (forget_credential (trim_space id) s).1
      (delete_credential credential (trim_space id) (forget_credential (trim_space id) s).0.db).1
      (delete_node node (trim_space id)
        (delete_credential credential (trim_space id) (forget_credential (trim_space id) s).0.db).0)
      (subst (λ k. get k (forget_credential (trim_space id) s).0.credentials ≡ none)
        (trim_space_idem id) (forget-none (trim_space id) s (rw (trim_space_idem id) e)))
      (delete_node-none node (trim_space id) (trim_space id)
        (delete_credential credential (trim_space id) (forget_credential (trim_space id) s).0.db).0
        (subst
          (λ k.
            get k
              (delete_credential credential (trim_space id)
                (forget_credential (trim_space id) s).0.db).0.credentials
            ≡ none)
          (trim_space_idem id)
          (delete_credential-none credential (trim_space id)
            (forget_credential (trim_space id) s).0.db f (rw (trim_space_idem id) e)))))

-- Other requests keep the credential away.
abbrev pub KeepsAway : Text → (Service → Service) → Type 0
KeepsAway id others = (s : Service) → NotKept id s → NotKept id (others s)

unknown :
    (before after : Service → Service) (h : Hasher) (fails : Faults) (id shown : Text) (s : Service)
    → is_empty (trim_space id) ≡ false
    → NotKept (trim_space id) s
    → KeepsAway (trim_space id) before
    → authenticate before after h fails id shown s
      ≡ (before s, some (status unauthenticated (text "unknown worker_id")))
unfolding authenticate get_credential get_credential_hash get_worker_credential_by_node
unknown before after h fails id shown s e n k = rw e (
    rw (n.0) (elim (Bool-cases (is_empty (trim_space (trim_space id)) || fails 0)) [
      | inl f ↦ rw f refl
      | inr f ↦ rw f (rw (trim_space_idem id) (rw ((k s n).1) refl))
    ]))

-- After a worker was deleted, Connect lets no one in under its id, with any secret, whether or not the
-- database fails then, and whatever other requests do while Connect looks the secret up that keep the
-- credential away; and the node's credential stays neither in memory nor in the table. The id is not
-- blank, the call that deletes the credential from the table does not fail, and no other Connect of
-- the node has read the table and not yet written to the memory when the worker is deleted.
pub delete-Revokes :
    (before after : Service → Service) (h : Hasher) (credential node fails : Faults) (id : Text)
    (s : Service) (later : Faults) (shown : Text)
    → is_empty (trim_space id) ≡ false
    → credential 0 ≡ false
    → KeepsAway (trim_space id) before
    → ((authenticate before after h later id shown
          (delete_provisioned_worker credential node fails id s).0).1
        ≡ some (status unauthenticated (text "unknown worker_id")))
      × NotKept (trim_space id) (delete_provisioned_worker credential node fails id s).0
      × NotKept
          (trim_space id)
          (authenticate before after h later id shown
            (delete_provisioned_worker credential node fails id s).0).0
delete-Revokes before after h credential node fails id s later shown e f k =
    let t = (delete_provisioned_worker credential node fails id s).0 in
    let n = delete-NotKept credential node fails id s e f in
    let u = unknown before after h later id shown t e n k in
    (ap (λ r. r.1) u, n, subst (λ r. NotKept (trim_space id) r.0) (sym u) (k t n))
