-- ===== src/Provisioning/Seeding.antt =====
-- What creating a provisioned worker, in console/internal/grpcserver/service_credentials_runtime.go, adds
-- to the tables, and how deleting the node takes it back.
use onlyboxes_mcp.Prelude.{
  ℕ, ◌+◌, ◌≡◌, ◌≢◌, refl, ap, sym, ◌∙◌, ◌⊎◌, Bool, true, false, none, [], ◌∷◌, ◌++◌, arith, is_some,
  is_empty, inl, inr, Bool-cases, Option-cases, if_pos, if_neg,
}
use onlyboxes_mcp.Prelude.Text.{Text, text, text_discrete, trim_space}
use onlyboxes_mcp.Prelude.Map.{
  Map, get, put, delete, get-put_self, get-put_ne, get-delete_ne, get-delete_self,
}
use onlyboxes_mcp.Registry.Table.{
  Node, Claim, Db, drop_node, drop_claims, is_claimed, delete_worker_node_by_id, provisioned_row,
  insert_provisioned_worker_node_if_absent,
}
use onlyboxes_mcp.Registry.Lifecycle.{
  ProvisionedWorker, seed_worker, seed_all, seed_provisioned_workers, delete_node, short_node_id,
  offline_since,
}
use onlyboxes_mcp.Registry.Rows.{add_rows, insert_labels_lem}
use onlyboxes_mcp.Registry.Foreign.{Refers}
use onlyboxes_mcp.Registry.Kept.{get-add_rows_ne}
use onlyboxes_mcp.Registry.{Faults, unix_milli}

abbrev pub seeded_db : Text → Text → Map Text → ℕ → ℕ → Db → Db
seeded_db id name labels registered seen db = record db {
  nodes = put id (provisioned_row name registered seen) db.nodes;
  labels = add_rows id labels db.labels;
}

abbrev pub node_name_of : Text → Text
node_name_of id = text "worker-" ++ short_node_id id

-- The worker is not seeded, or it was not there and is seeded.
abbrev pub SeedCases : ProvisionedWorker → ℕ → ℕ → Db → Db × ℕ → Type 0
SeedCases p registered seen db r =
    (r ≡ (db, 0))
    ⊎ ((is_empty (trim_space p.node_id) ≡ false)
        × (get (trim_space p.node_id) db.nodes ≡ none)
        × (r ≡ (
          seeded_db (trim_space p.node_id) (node_name_of (trim_space p.node_id)) p.labels registered
              seen db,
          1,
        )))

there : (id : Text) (n : Node) (nodes : Map Node) → is_some (get id (put id n nodes)) ≡ true
there id n nodes = rw (get-put_self id n nodes) refl

seed_worker-cases :
    (fails : Bool) (p : ProvisionedWorker) (registered seen : ℕ) (db : Db)
    → SeedCases p registered seen db (seed_worker fails p registered seen db)
unfolding seed_worker insert_provisioned_worker_node_if_absent
seed_worker-cases fails p registered seen db = elim (Bool-cases (is_empty (trim_space p.node_id))) [
  | inl e ↦ rw e (inl refl)
  | inr e ↦ rw e (elim (Bool-cases fails) [
    | inl f ↦ rw f (inl refl)
    | inr f ↦ rw f (elim (Option-cases (get (trim_space p.node_id) db.nodes)) [
      | inl g ↦ rw g (
          rw
            (insert_labels_lem (trim_space p.node_id) p.labels
              (record db {
                nodes =
                    put (trim_space p.node_id)
                      (provisioned_row (node_name_of (trim_space p.node_id)) registered seen)
                      db.nodes;
              })
              (there (trim_space p.node_id)
                (provisioned_row (node_name_of (trim_space p.node_id)) registered seen) db.nodes))
            (inr (refl, refl, refl)))
      | inr g ↦ rw (g.1) (inl refl)
    ])
  ])
]

abbrev plus_none : Db × ℕ → Db × ℕ
plus_none (db, n) = (db, n + 0)

tallied :
    (p : ProvisionedWorker) (registered seen : ℕ) (db : Db) (r : Db × ℕ)
    → SeedCases p registered seen db r
    → SeedCases p registered seen db (r.0, r.1 + 0)
tallied p registered seen db r (inl e) = inl (ap plus_none e)
tallied p registered seen db r (inr e) = inr (e.0, e.1, ap plus_none e.2)

pub seed_one-cases :
    (fails : Faults) (p : ProvisionedWorker) (now ttl : ℕ) (db : Db)
    → SeedCases p
        (unix_milli now)
        (unix_milli (offline_since now ttl))
        db
        (seed_provisioned_workers fails (p ∷ []) now ttl db)
unfolding seed_provisioned_workers seed_all
seed_one-cases fails p now ttl db =
    tallied p (unix_milli now) (unix_milli (offline_since now ttl)) db
      (seed_worker (fails 0) p (unix_milli now) (unix_milli (offline_since now ttl)) db)
      (seed_worker-cases (fails 0) p (unix_milli now) (unix_milli (offline_since now ttl)) db)

-- Every table has the same rows.
abbrev pub SameRows : Db → Db → Type 0
SameRows before after =
    (j : Text)
    → (get j after.nodes ≡ get j before.nodes)
      × (get j after.capabilities ≡ get j before.capabilities)
      × (get j after.labels ≡ get j before.labels)
      × (get j after.credentials ≡ get j before.credentials)
      × (get j after.claims ≡ get j before.claims)
      × (is_claimed j after.claims ≡ is_claimed j before.claims)

-- A node is there that was not there before, and only its rows are new.
abbrev pub AddedAt : Text → Db → Db → Type 0
AddedAt id before after =
    (is_some (get id after.nodes) ≡ true)
    × ((j : Text)
        → j ≢ id
        → (get j after.nodes ≡ get j before.nodes)
          × (get j after.capabilities ≡ get j before.capabilities)
          × (get j after.labels ≡ get j before.labels)
          × (get j after.credentials ≡ get j before.credentials))
    × ((j : Text) → get j (drop_claims id after.claims) ≡ get j before.claims)
    × ((j : Text) → is_claimed j (drop_claims id after.claims) ≡ is_claimed j before.claims)

-- What there is of a node that is not there.
abbrev pub Absent : Text → Db → Type 0
Absent id db =
    (get id db.nodes ≡ none)
    × (get id db.capabilities ≡ none)
    × (get id db.labels ≡ none)
    × (get id db.credentials ≡ none)
    × (is_claimed id db.claims ≡ false)

pub absent : (id : Text) (db : Db) → Refers id db → get id db.nodes ≡ none → Absent id db
absent id db (inl a) h = ground (arith, a, h)
absent id db (inr a) h = (h, a.0, a.1, a.2, a.3)

-- No claim on the node: none is dropped with it.
drop_claims-none :
    (id : Text) (claims : Map Claim) → is_claimed id claims ≡ false → drop_claims id claims ≡ claims
unfolding is_claimed drop_claims
drop_claims-none id [] h = refl
drop_claims-none id ((o, c) ∷ claims) h = elim (text_discrete c.node_id id) [
  | yes e ↦ ground (arith, e, h)
  | no e ↦ rw (if_neg _ e) (ap (◌∷◌ (o, c)) (drop_claims-none id claims (ground (arith, e, h))))
]

pub delete-absent {ℓ} : {V : Type ℓ} (k : Text) (m : Map V) → get k m ≡ none → delete k m ≡ m
unfolding get delete
delete-absent k [] h = refl
delete-absent k ((j, v) ∷ m) h = elim (text_discrete k j) [
  | yes e ↦ ground (arith, e, h)
  | no e ↦ rw (if_neg _ e) (ap (◌∷◌ (j, v)) (delete-absent k m (ground (arith, e, h))))
]

pub seeded-AddedAt :
    (id name : Text) (labels : Map Text) (registered seen : ℕ) (db : Db)
    → Absent id db
    → AddedAt id db (seeded_db id name labels registered seen db)
seeded-AddedAt id name labels registered seen db a = (
  there id (provisioned_row name registered seen) db.nodes,
  λ j h. (
    get-put_ne id j (provisioned_row name registered seen) db.nodes h,
    refl,
    get-add_rows_ne id j labels db.labels h,
    refl,
  ),
  λ j. ap (get j) (drop_claims-none id db.claims a.4),
  λ j. ap (is_claimed j) (drop_claims-none id db.claims a.4),
)

drop_head :
    (id owner : Text) (c : Claim) (claims : Map Claim)
    → c.node_id ≡ id
    → drop_claims id ((owner, c) ∷ claims) ≡ drop_claims id claims
unfolding drop_claims
drop_head id owner c claims e = rw (if_pos (text_discrete c.node_id id) e) refl

-- The claim of the node goes with it.
claimed_drop :
    (id owner : Text) (t : ℕ) (claims : Map Claim)
    → get owner claims ≡ none
    → is_claimed id claims ≡ false
    → drop_claims id (put owner (record { node_id = id; claimed_at = t }) claims) ≡ claims
unfolding put
claimed_drop id owner t claims h e = rw (delete-absent owner claims h) (
    drop_head id owner (record { node_id = id; claimed_at = t }) claims refl
    ∙ drop_claims-none id claims e)

pub claimed-AddedAt :
    (id owner : Text) (t : ℕ) (before after : Db)
    → after.claims ≡ before.claims
    → get owner before.claims ≡ none
    → is_claimed id before.claims ≡ false
    → AddedAt id before after
    → AddedAt id before
        (record after { claims = put owner (record { node_id = id; claimed_at = t }) after.claims })
claimed-AddedAt id owner t before after s h e (a, b, c, d) = (
  a,
  b,
  λ j. rw s (ap (get j) (claimed_drop id owner t before.claims h e)),
  λ j. rw s (ap (is_claimed j) (claimed_drop id owner t before.claims h e)),
)

-- Deleting the node takes everything back.
pub delete_node-SameRows :
    (undo : Faults) (id : Text) (before after : Db)
    → undo 0 ≡ false
    → is_empty (trim_space id) ≡ false
    → Absent (trim_space id) before
    → AddedAt (trim_space id) before after
    → SameRows before (delete_node undo id after).0
unfolding delete_node delete_worker_node_by_id drop_node
delete_node-SameRows undo id before after u e a (h, b, c, d) j = rw e (
    rw u (
      rw h (elim (text_discrete j (trim_space id)) [
        | yes k ↦ rw k (
          get-delete_self (trim_space id) after.nodes ∙ sym a.0,
          get-delete_self (trim_space id) after.capabilities ∙ sym a.1,
          get-delete_self (trim_space id) after.labels ∙ sym a.2,
          get-delete_self (trim_space id) after.credentials ∙ sym a.3,
          c (trim_space id),
          d (trim_space id),
        )
        | no k ↦ (
          get-delete_ne (trim_space id) j after.nodes k ∙ (b j k).0,
          get-delete_ne (trim_space id) j after.capabilities k ∙ (b j k).1,
          get-delete_ne (trim_space id) j after.labels k ∙ (b j k).2,
          get-delete_ne (trim_space id) j after.credentials k ∙ (b j k).3,
          c j,
          d j,
        )
      ])))
