-- ===== src/Provisioning/Rollback.antt =====
-- CreateProvisionedWorkerForOwner of console/internal/grpcserver/service_credentials_runtime.go: all of a
-- worker is there in the end, or nothing.
use onlyboxes_mcp.Prelude.{
  ℕ, ◌≡◌, ◌≢◌, refl, ap, sym, subst, ◌∙◌, ◌⊎◌, Bool, true, false, ◌||◌, Option, none, some, ◌∷◌,
  is_some, is_empty, inl, inr, Bool-cases, Option-cases, if_pos, if_neg,
}
use onlyboxes_mcp.Prelude.Text.{Text, text_discrete, trim_space}
use onlyboxes_mcp.Prelude.Map.{Map, get, put, delete, get-put_self, get-put_ne, Distinct}
use onlyboxes_mcp.Dispatch.{worker_type_sys}
use onlyboxes_mcp.Registry.Table.{
  Credential, Db, provisioned_row, rows_of, owner_label, type_label, is_claimed,
  insert_worker_sys_owner_claim_if_absent, insert_worker_credential_if_absent,
}
use onlyboxes_mcp.Registry.Lifecycle.{offline_since}
use onlyboxes_mcp.Registry.Lookup.{Claimed, claimed, not_claimed, claim_worker_sys_owner}
use onlyboxes_mcp.Registry.Credentials.{put_credential_hash_if_absent}
use onlyboxes_mcp.Registry.Rows.{put_all, add_rows, rows_of-add_rows}
use onlyboxes_mcp.Registry.Upserts.{get-put_all}
use onlyboxes_mcp.Registry.Foreign.{Refers}
use onlyboxes_mcp.Registry.{Faults, unix_milli, is_provisioned}
use onlyboxes_mcp.Provisioning.Seeding.{
  seeded_db, node_name_of, SeedCases, SameRows, AddedAt, Absent, absent, seeded-AddedAt,
  claimed-AddedAt, delete_node-SameRows, delete-absent,
}
use onlyboxes_mcp.Provisioning.{
  Service, Hasher, Attempt, Created, created, failed, again, new_labels, credential_value,
  algo_name, put_credential_if_absent, forget_credential, take_back, keep_credential,
  kept_in_memory, kept_in_db, on_seeded, claimed_sys,
}

abbrev pub is_claim : Claimed → Bool
is_claim (claimed b) = b
is_claim (not_claimed e) = false

abbrev pub ClaimCases : Text → Text → ℕ → Db → Db × Claimed → Type 0
ClaimCases owner id now db r =
    ((r.0 ≡ db) × (is_claim r.1 ≡ false))
    ⊎ ((get owner db.claims ≡ none)
        × (is_claimed id db.claims ≡ false)
        × (r ≡ (
          record db {
            claims = put owner (record { node_id = id; claimed_at = unix_milli now }) db.claims;
          },
          claimed true,
        )))

pub claim-cases :
    (fails : Faults) (owner id : Text) (now : ℕ) (db : Db)
    → ClaimCases
        (trim_space owner)
        (trim_space id)
        now
        db
        (claim_worker_sys_owner fails owner id now db)
unfolding claim_worker_sys_owner insert_worker_sys_owner_claim_if_absent
claim-cases fails owner id now db =
    elim (Bool-cases (is_empty (trim_space owner) || is_empty (trim_space id))) [
      | inl e ↦ rw e (inl (refl, refl))
      | inr e ↦ rw e (elim (Bool-cases (fails 0)) [
        | inl f ↦ rw f (inl (refl, refl))
        | inr f ↦ rw f (elim (Option-cases (get (trim_space owner) db.claims)) [
          | inr g ↦ rw (g.1) (inl (refl, refl))
          | inl g ↦ rw g (elim (Bool-cases (is_claimed (trim_space id) db.claims)) [
            | inl h ↦ rw h (inl (refl, refl))
            | inr h ↦ rw h (elim (Bool-cases (is_some (get (trim_space id) db.nodes))) [
              | inl k ↦ rw k (inr (refl, refl, refl))
              | inr k ↦ rw k (inl (refl, refl))
            ])
          ])
        ])
      ])
    ]

abbrev credential_row : Text → Text → ℕ → Credential
credential_row hash algo now = record {
  secret_hash = trim_space hash;
  hash_algo = trim_space algo;
  created_at = unix_milli now;
  updated_at = unix_milli now;
}

put_hash-cases :
    (fails : Faults) (id hash algo : Text) (now : ℕ) (db : Db)
    → (put_credential_hash_if_absent fails id hash algo now db ≡ (db, false))
      ⊎ (put_credential_hash_if_absent fails id hash algo now db ≡ (
        record db {
          credentials = put (trim_space id) (credential_row hash algo now) db.credentials;
        },
        true,
      ))
unfolding put_credential_hash_if_absent insert_worker_credential_if_absent
put_hash-cases fails id hash algo now db =
    elim (Bool-cases (
      is_empty (trim_space id)
      || is_empty (trim_space hash)
      || is_empty (trim_space algo)
      || fails 0)) [
        | inl e ↦ rw e (inl refl)
        | inr e ↦ rw e (elim (Bool-cases (is_some (get (trim_space id) db.credentials))) [
          | inl g ↦ rw g (inl refl)
          | inr g ↦ rw g (elim (Bool-cases (is_some (get (trim_space id) db.nodes))) [
            | inl k ↦ rw k (inr refl)
            | inr k ↦ rw k (inl refl)
          ])
        ])
      ]

put_memory-cases :
    (id secret : Text) (s : Service)
    → (put_credential_if_absent id secret s ≡ (s, false))
      ⊎ ((get (trim_space id) s.credentials ≡ none)
          × (is_empty (trim_space id) ≡ false)
          × (put_credential_if_absent id secret s ≡ (
            record s { credentials = put (trim_space id) (trim_space secret) s.credentials },
            true,
          )))
unfolding put_credential_if_absent
put_memory-cases id secret s = elim (Bool-cases (is_empty (trim_space id))) [
  | inl e ↦ rw e (inl refl)
  | inr e ↦ rw e (elim (Bool-cases (is_empty (trim_space secret))) [
    | inl f ↦ rw f (inl refl)
    | inr f ↦ rw f (elim (Option-cases (get (trim_space id) s.credentials)) [
      | inl g ↦ rw g (inr (refl, refl, refl))
      | inr g ↦ rw (g.1) (inl refl)
    ])
  ])
]

-- Every table has the same rows, and the memory the same credentials.
abbrev pub Same : Service → Service → Type 0
Same before after =
    SameRows before.db after.db
    × ((j : Text) → get j after.credentials ≡ get j before.credentials)
    × (after.console ≡ before.console)

-- The node is there, as a provisioned one of the owner and the type.
abbrev pub Registered : Text → Text → Text → Db → Type 0
Registered owner worker_type id db =
    (is_provisioned (get id db.nodes) ≡ true)
    × (get owner_label (rows_of id db.labels) ≡ some owner)
    × (get type_label (rows_of id db.labels) ≡ some worker_type)

abbrev pub stored_hash : Option Credential → Option Text
stored_hash none = none
stored_hash (some c) = some c.secret_hash

-- The worker was not there before, and is there with its credential in memory and in the table; nothing
-- changed at other nodes.
abbrev pub Established : Hasher → Text → Text → Text → Text → Service → Service → Type 0
Established h owner worker_type id secret before after =
    (get id before.db.nodes ≡ none)
    × Registered owner worker_type id after.db
    × (get id after.credentials ≡ some (trim_space (credential_value h secret)))
    × (stored_hash (get id after.db.credentials) ≡ some (trim_space (credential_value h secret)))
    × ((j : Text)
        → j ≢ id
        → (get j after.db.nodes ≡ get j before.db.nodes)
          × (get j after.db.labels ≡ get j before.db.labels)
          × (get j after.db.credentials ≡ get j before.db.credentials)
          × (get j after.credentials ≡ get j before.credentials))

abbrev pub AllOrNothing : Hasher → Text → Text → Service → Service × Created → Type 0
AllOrNothing h owner worker_type before (after, created id secret) =
    Established h owner worker_type (trim_space id) secret before after
AllOrNothing h owner worker_type before (after, failed e) = Same before after
AllOrNothing h owner worker_type before (after, again) = Same before after

rows_of-new :
    (id owner worker_type : Text) (table : Map (Map Text))
    → rows_of id (add_rows id (new_labels owner worker_type) table)
      ≡ put_all (new_labels owner worker_type) (rows_of id table)
rows_of-new id owner worker_type table =
    rows_of-add_rows id id (new_labels owner worker_type) table
    ∙ rw (if_pos (text_discrete id id) refl) refl

new_labels-Distinct : (owner worker_type : Text) → Distinct (new_labels owner worker_type)
unfolding get text_discrete
new_labels-Distinct owner worker_type = (refl, (refl, (refl, tt)))

labels_of_new :
    (owner worker_type id name : Text) (registered seen : ℕ) (db : Db)
    → Registered owner worker_type id
        (seeded_db id name (new_labels owner worker_type) registered seen db)
unfolding get text_discrete
labels_of_new owner worker_type id name registered seen db = (
  rw (get-put_self id (provisioned_row name registered seen) db.nodes) refl,
  rw (rows_of-new id owner worker_type db.labels) (
      get-put_all owner_label (new_labels owner worker_type) (rows_of id db.labels)
        (new_labels-Distinct owner worker_type)),
  rw (rows_of-new id owner worker_type db.labels) (
      get-put_all type_label (new_labels owner worker_type) (rows_of id db.labels)
        (new_labels-Distinct owner worker_type)),
)

delete_head : (k v : Text) (m : Map Text) → delete k ((k, v) ∷ m) ≡ delete k m
unfolding delete
delete_head k v m = rw (if_pos (text_discrete k k) refl) refl

delete-put_absent : (k v : Text) (m : Map Text) → get k m ≡ none → delete k (put k v m) ≡ m
unfolding put
delete-put_absent k v m n = rw (delete-absent k m n) (delete_head k v m ∙ delete-absent k m n)

module _ (h : Hasher) (a : Attempt) (owner worker_type id secret : Text) (now : ℕ) (s : Service)
    (d : Db) (undone : a.undo 0 ≡ false) (given : is_empty (trim_space id) ≡ false)
    (absent_before : Absent (trim_space id) s.db) (added : AddedAt (trim_space id) s.db d)
    (registered : Registered owner worker_type (trim_space id) d) where
  abbrev with_db : Service
  with_db = record s { db = d }

  abbrev remembering : Service
  remembering = record with_db {
    credentials = put (trim_space id) (trim_space (credential_value h secret)) s.credentials;
  }

  taken_back :
      (t : Service)
      → t.db ≡ d
      → ((j : Text) → get j t.credentials ≡ get j s.credentials)
      → t.console ≡ s.console
      → Same s (take_back a.undo id t)
  taken_back t e c k =
      (λ j. rw e (delete_node-SameRows a.undo id s.db d undone given absent_before added j), c, k)

  forget_put :
      get (trim_space id) s.credentials ≡ none
      → (forget_credential id remembering).0 ≡ record with_db { credentials = s.credentials }
  unfolding forget_credential
  forget_put n = rw given (
      rw (get-put_self (trim_space id) (trim_space (credential_value h secret)) s.credentials) (
        ap (λ m. record with_db { credentials = m })
          (delete-put_absent (trim_space id) (trim_space (credential_value h secret)) s.credentials
            n)))

  kept_db :
      get (trim_space id) s.credentials ≡ none
      → (r : Db × Bool)
      → (r ≡ (d, false))
        ⊎ (r ≡ (
          record d {
            credentials =
                put
                  (trim_space id)
                  (credential_row (credential_value h secret) (algo_name h) now)
                  d.credentials;
          },
          true,
        ))
      → AllOrNothing h owner worker_type s (kept_in_db a id secret remembering r)
  kept_db n r (inl e) =
      subst (λ r. AllOrNothing h owner worker_type s (kept_in_db a id secret remembering r)) (sym e)
        (taken_back (forget_credential id remembering).0 (ap (λ t. t.db) (forget_put n))
          (λ j. ap (λ t. get j t.credentials) (forget_put n)) (ap (λ t. t.console) (forget_put n)))
  kept_db n r (inr e) =
      subst (λ r. AllOrNothing h owner worker_type s (kept_in_db a id secret remembering r)) (sym e)
        (
          absent_before.0,
          registered,
          get-put_self (trim_space id) (trim_space (credential_value h secret)) s.credentials,
          ap stored_hash (
              get-put_self (trim_space id)
                (credential_row (credential_value h secret) (algo_name h) now) d.credentials),
          λ j k. (
            (added.1 j k).0,
            (added.1 j k).2,
            get-put_ne (trim_space id) j
                  (credential_row (credential_value h secret) (algo_name h) now) d.credentials k
                ∙ (added.1 j k).3,
            get-put_ne (trim_space id) j (trim_space (credential_value h secret)) s.credentials k,
          ),
        )

  kept_memory :
      (r : Service × Bool)
      → (r ≡ (with_db, false))
        ⊎ ((get (trim_space id) s.credentials ≡ none)
            × (is_empty (trim_space id) ≡ false)
            × (r ≡ (remembering, true)))
      → AllOrNothing h owner worker_type s (kept_in_memory h a id secret now r)
  kept_memory r (inl e) =
      subst (λ r. AllOrNothing h owner worker_type s (kept_in_memory h a id secret now r)) (sym e)
        (taken_back with_db refl (λ j. refl) refl)
  kept_memory r (inr e) =
      subst (λ r. AllOrNothing h owner worker_type s (kept_in_memory h a id secret now r)) (sym e.2)
        (kept_db e.0
          (put_credential_hash_if_absent a.keep id (credential_value h secret) (algo_name h) now d)
          (put_hash-cases a.keep id (credential_value h secret) (algo_name h) now d))

  keep-AllOrNothing : AllOrNothing h owner worker_type s (keep_credential h a id secret now with_db)
  unfolding keep_credential
  keep-AllOrNothing =
      kept_memory (put_credential_if_absent id (credential_value h secret) with_db)
        (put_memory-cases id (credential_value h secret) with_db)

module _ (h : Hasher) (a : Attempt) (owner worker_type id secret : Text) (now : ℕ) (s : Service)
    (d : Db) (undone : a.undo 0 ≡ false) (given : is_empty (trim_space id) ≡ false)
    (absent_before : Absent (trim_space id) s.db) (added : AddedAt (trim_space id) s.db d)
    (same_claims : d.claims ≡ s.db.claims)
    (registered : Registered owner worker_type (trim_space id) d) where
  refused_claim :
      (c : Claimed)
      → is_claim c ≡ false
      → AllOrNothing h owner worker_type s
          (claimed_sys h a id secret now (record s { db = d }) (d, c))
  refused_claim (claimed true) e = cc
  refused_claim (claimed false) e =
      taken_back h a owner worker_type id secret now s d undone given absent_before added registered
        (record s { db = d }) refl (λ j. refl) refl
  refused_claim (not_claimed err) e =
      taken_back h a owner worker_type id secret now s d undone given absent_before added registered
        (record s { db = d }) refl (λ j. refl) refl

  claimed-AllOrNothing :
      (r : Db × Claimed)
      → ClaimCases (trim_space owner) (trim_space id) now d r
      → AllOrNothing h owner worker_type s (claimed_sys h a id secret now (record s { db = d }) r)
  claimed-AllOrNothing (e, c) (inl k) =
      subst
        (λ x.
          AllOrNothing h owner worker_type s
            (claimed_sys h a id secret now (record s { db = d }) (x, c)))
        (sym k.0) (refused_claim c k.1)
  claimed-AllOrNothing r (inr k) =
      subst
        (λ r.
          AllOrNothing h owner worker_type s
            (claimed_sys h a id secret now (record s { db = d }) r))
        (sym k.2)
        (keep-AllOrNothing h a owner worker_type id secret now s
          (record d {
            claims =
                put (trim_space owner)
                  (record { node_id = trim_space id; claimed_at = unix_milli now }) d.claims;
          })
          undone given absent_before
          (claimed-AddedAt (trim_space id) (trim_space owner) (unix_milli now) s.db d same_claims
            (rw (← same_claims) (k.0)) absent_before.4 added)
          registered)

  on_seeded-AllOrNothing :
      AllOrNothing h owner worker_type s (on_seeded h a owner worker_type id secret now s (d, 1))
  on_seeded-AllOrNothing = elim (text_discrete worker_type worker_type_sys) [
    | yes e ↦ rw (if_pos _ e) (
        claimed-AllOrNothing (claim_worker_sys_owner a.claim owner id now d)
          (claim-cases a.claim owner id now d))
    | no e ↦ rw (if_neg _ e) (
        keep-AllOrNothing h a owner worker_type id secret now s d undone given absent_before added
          registered)
  ]

pub Same-refl : (s : Service) → Same s s
Same-refl s = (λ j. (refl, refl, refl, refl, refl, refl), λ j. refl, refl)

pub seeds-AllOrNothing :
    (h : Hasher) (a : Attempt) (owner worker_type id secret : Text) (now ttl : ℕ) (s : Service)
    → a.undo 0 ≡ false
    → ((j : Text) → Refers j s.db)
    → (r : Db × ℕ)
    → SeedCases
        (record { node_id = id; labels = new_labels owner worker_type })
        (unix_milli now)
        (unix_milli (offline_since now ttl))
        s.db
        r
    → AllOrNothing h owner worker_type s (on_seeded h a owner worker_type id secret now s r)
seeds-AllOrNothing h a owner worker_type id secret now ttl s u w r (inl e) =
    subst
      (λ r. AllOrNothing h owner worker_type s (on_seeded h a owner worker_type id secret now s r))
      (sym e) (Same-refl s)
seeds-AllOrNothing h a owner worker_type id secret now ttl s u w r (inr e) =
    let none_before = absent (trim_space id) s.db (w (trim_space id)) e.1 in
    subst
      (λ r. AllOrNothing h owner worker_type s (on_seeded h a owner worker_type id secret now s r))
      (sym e.2)
      (on_seeded-AllOrNothing h a owner worker_type id secret now s
        (seeded_db (trim_space id) (node_name_of (trim_space id)) (new_labels owner worker_type)
          (unix_milli now) (unix_milli (offline_since now ttl)) s.db)
        u e.0 none_before
        (seeded-AddedAt (trim_space id) (node_name_of (trim_space id))
          (new_labels owner worker_type) (unix_milli now) (unix_milli (offline_since now ttl)) s.db
          none_before)
        refl
        (labels_of_new owner worker_type (trim_space id) (node_name_of (trim_space id))
          (unix_milli now) (unix_milli (offline_since now ttl)) s.db))
