-- ===== src/Registry/Upserts.antt =====
-- Upsert of console/internal/registry/store_worker_lifecycle.go: what a hello can change.
use onlyboxes_mcp.Prelude.{
  ℕ, ◌≡◌, ◌≢◌, refl, sym, ◌⊎◌, Bool, true, false, ◌&&◌, Option, none, some, [], ◌∷◌, is_some,
  is_empty, inl, inr, Bool-cases, if_pos, if_neg,
}
use onlyboxes_mcp.Prelude.Text.{Text, text_discrete, trim_space}
use onlyboxes_mcp.Prelude.Map.{
  Map, get, get-nil, get-cons, put, delete, get-put, Distinct, put-Distinct,
}
use onlyboxes_mcp.Errors.{Error}
use onlyboxes_mcp.Session.{Limit}
use onlyboxes_mcp.Registry.Order.{order_by, get-order_by, order_by-Distinct}
use onlyboxes_mcp.Registry.Table.{Node, Db, rows_of, owner_label, type_label}
use onlyboxes_mcp.Registry.Selects.{by_key, get_worker_node_by_id, list_worker_labels_by_node}
use onlyboxes_mcp.Registry.Rows.{
  put_all, rows_of-delete, rows_of-add_rows, put_all-Distinct, replaced, replace_node_lem,
}
use onlyboxes_mcp.Registry.{
  Faults, Hello, upsert, upsert_existing, node_for, labels_for, is_provisioned, merge_labels,
  merge_labels_preserve_keys, clone_proto_capabilities, restore,
}

pub merge_labels_lem :
    (base override : Map Text) → merge_labels base override ≡ put_all override base
unfolding merge_labels
merge_labels_lem base [] = refl
merge_labels_lem base ((k, v) ∷ override) = merge_labels_lem (put k v base) override

module _ {ℓ} {V : Type ℓ} where
  abbrev pub or_else : Option V → Option V → Option V
  or_else none o = o
  or_else (some v) o = some v

  pub get-put_all :
      (k : Text) (new rows : Map V)
      → Distinct new
      → get k (put_all new rows) ≡ or_else (get k new) (get k rows)
  get-put_all k [] rows d = rw (get-nil {V = V} k) refl
  get-put_all k ((j, v) ∷ new) rows d = elim (text_discrete k j) [
    | yes e ↦
        rw (get-put_all k new (put j v rows) d.1, get-cons k j v new, get-put j k v rows)
          (rw (if_pos _ e) (rw (if_pos _ e) (rw e (rw (d.0) refl))))
    | no e ↦
        rw (get-put_all k new (put j v rows) d.1, get-cons k j v new, get-put j k v rows)
          (rw (if_neg _ e) (rw (if_neg _ e) refl))
  ]

-- What the transaction of Upsert leaves.
abbrev pub upserted : Hello → Text → Text → ℕ → Db → Db
upserted req id session now db =
    replaced id (node_for req session now (get id db.nodes))
      (clone_proto_capabilities req.capabilities)
      (labels_for (is_provisioned (get id db.nodes))
        (merge_labels [] (list_worker_labels_by_node id db)) req.labels)
      db

abbrev Cases : Hello → Text → ℕ → Db → Db × Option Error → Type 0
Cases req session now db r =
    ((r.0 ≡ db) × (is_some r.1 ≡ true))
    ⊎ (r ≡ (upserted req (trim_space req.node_id) (trim_space session) now db, none))

existing-Cases :
    (fails : Faults) (req : Hello) (session : Text) (now : ℕ) (db : Db)
    → Cases req session now db (
        upsert_existing fails req
          (trim_space req.node_id)
          (trim_space session)
          now
          (get (trim_space req.node_id) db.nodes)
          db)
unfolding upsert_existing
existing-Cases fails req session now db =
    elim (Bool-cases (is_provisioned (get (trim_space req.node_id) db.nodes) && fails 1)) [
      | inl e ↦ rw e (inl (refl, refl))
      | inr e ↦ rw e (
          rw
            (replace_node_lem (trim_space req.node_id)
              (node_for req (trim_space session) now (get (trim_space req.node_id) db.nodes))
              (clone_proto_capabilities req.capabilities)
              (labels_for (is_provisioned (get (trim_space req.node_id) db.nodes))
                (merge_labels [] (list_worker_labels_by_node (trim_space req.node_id) db))
                req.labels)
              db)
            (elim (Bool-cases (fails 2)) [
              | inl f ↦ rw f (inl (refl, refl))
              | inr f ↦ rw f (inr refl)
            ]))
    ]

-- Upsert answers with an error and changes nothing, or commits its transaction.
pub upsert-Cases :
    (fails : Faults) (req : Hello) (session : Text) (now : ℕ) (db : Db)
    → Cases req session now db (upsert fails req session now db)
unfolding upsert get_worker_node_by_id
upsert-Cases fails req session now db = elim (Bool-cases (is_empty (trim_space req.node_id))) [
  | inl e ↦ rw e (inl (refl, refl))
  | inr e ↦ rw e (elim (Bool-cases (is_empty (trim_space session))) [
    | inl f ↦ rw f (inl (refl, refl))
    | inr f ↦ rw f (elim (Bool-cases (fails 0)) [
      | inl g ↦ rw g (inl (refl, refl))
      | inr g ↦ rw g (existing-Cases fails req session now db)
    ])
  ])
]

-- Nothing changes at the other nodes.
abbrev pub SameElsewhere : Text → Db → Db → Type 0
SameElsewhere id before after =
    (j : Text)
    → j ≢ id
    → (get j after.nodes ≡ get j before.nodes)
      × (get j after.credentials ≡ get j before.credentials)
      × (rows_of j after.capabilities ≡ rows_of j before.capabilities)
      × (rows_of j after.labels ≡ rows_of j before.labels)

pub replaced-SameElsewhere :
    (id : Text) (n : Node) (capabilities : Map Limit) (labels : Map Text) (db : Db)
    → SameElsewhere id db (replaced id n capabilities labels db)
replaced-SameElsewhere id n capabilities labels db j h = (
  rw (get-put id j n db.nodes) (rw (if_neg _ h) refl),
  refl,
  rw (rows_of-add_rows id j capabilities (delete id db.capabilities))
      (rw (if_neg _ h) (rw (rows_of-delete id j db.capabilities) (rw (if_neg _ h) refl))),
  rw (rows_of-add_rows id j labels (delete id db.labels))
      (rw (if_neg _ h) (rw (rows_of-delete id j db.labels) (rw (if_neg _ h) refl))),
)

pub upserted-SameElsewhere :
    (req : Hello) (id session : Text) (now : ℕ) (db : Db)
    → SameElsewhere id db (upserted req id session now db)
upserted-SameElsewhere req id session now db =
    replaced-SameElsewhere id (node_for req session now (get id db.nodes))
      (clone_proto_capabilities req.capabilities)
      (labels_for (is_provisioned (get id db.nodes))
        (merge_labels [] (list_worker_labels_by_node id db)) req.labels)
      db

merge_labels-Distinct :
    (base override : Map Text) → Distinct base → Distinct (merge_labels base override)
merge_labels-Distinct base override d =
    rw (merge_labels_lem base override) (put_all-Distinct override base d)

-- The labels of a node, read back.
pub get-base :
    (k id : Text) (db : Db)
    → Distinct (rows_of id db.labels)
    → get k (merge_labels [] (list_worker_labels_by_node id db)) ≡ get k (rows_of id db.labels)
unfolding list_worker_labels_by_node
get-base k id db d =
    rw
      (
        merge_labels_lem [] (order_by by_key (rows_of id db.labels)),
        get-put_all k (order_by by_key (rows_of id db.labels)) []
            (order_by-Distinct by_key (rows_of id db.labels) d),
        get-order_by by_key k (rows_of id db.labels) d,
        get-nil {V = Text} k,
      )
      (or_none (get k (rows_of id db.labels)))
  where
    or_none : (o : Option Text) → or_else o none ≡ o
    or_none none = refl
    or_none (some v) = refl

abbrev pub Protected : Text → Type 0
Protected key = (key ≡ owner_label) ⊎ (key ≡ type_label)

get-restore_self :
    (k v : Text) (base merged : Map Text)
    → get k base ≡ some v
    → get k (restore k (get k base) merged) ≡ some v
get-restore_self k v base merged h =
    rw h (rw (get-put k k v merged) (rw (if_pos (text_discrete k k) refl) refl))

get-restore_ne :
    (k j : Text) (o : Option Text) (merged : Map Text)
    → k ≢ j
    → get k (restore j o merged) ≡ get k merged
get-restore_ne k j none merged h = refl
get-restore_ne k j (some v) merged h = rw (get-put j k v merged) (rw (if_neg _ h) refl)

labels_apart : owner_label ≢ type_label
labels_apart e = cc

-- A protected label that the node has is what it was, whatever the hello's labels are.
get-preserved :
    (key v : Text) (base override : Map Text)
    → Protected key
    → get key base ≡ some v
    → get key (merge_labels_preserve_keys base override (owner_label ∷ type_label ∷ [])) ≡ some v
unfolding merge_labels_preserve_keys trim_space
get-preserved key v base override (inl e) h = rw e (
    rw
      (get-restore_ne owner_label type_label (get type_label base)
        (restore owner_label (get owner_label base) (merge_labels base override)) labels_apart)
      (get-restore_self owner_label v base (merge_labels base override) (rw (sym e) h)))
get-preserved key v base override (inr e) h = rw e (
    get-restore_self type_label v base
      (restore owner_label (get owner_label base) (merge_labels base override)) (rw (sym e) h))

or_else-none {ℓ} : {V : Type ℓ} (o : Option V) → or_else o none ≡ o
or_else-none none = refl
or_else-none (some v) = refl

-- The labels that replace those of the node.
pub get-replaced :
    (k id : Text) (n : Node) (capabilities : Map Limit) (labels : Map Text) (db : Db)
    → Distinct labels
    → get k (rows_of id (replaced id n capabilities labels db).labels) ≡ get k labels
get-replaced k id n capabilities labels db d =
    rw (rows_of-add_rows id id labels (delete id db.labels)) (
      rw (if_pos (text_discrete id id) refl) (
        rw (rows_of-delete id id db.labels) (
          rw (if_pos (text_discrete id id) refl)
            (rw (get-put_all k labels [] d, get-nil {V = Text} k) (or_else-none (get k labels))))))

restore-Distinct :
    (k : Text) (o : Option Text) (merged : Map Text)
    → Distinct merged
    → Distinct (restore k o merged)
restore-Distinct k none merged d = d
restore-Distinct k (some v) merged d = put-Distinct k v merged d

labels_for-Distinct :
    (b : Bool) (base labels : Map Text)
    → Distinct base
    → Distinct labels
    → Distinct (labels_for b base labels)
unfolding merge_labels_preserve_keys trim_space
labels_for-Distinct false base labels d e = e
labels_for-Distinct true base labels d e =
    restore-Distinct type_label (get type_label base)
      (restore owner_label (get owner_label base) (merge_labels base labels))
      (restore-Distinct owner_label (get owner_label base) (merge_labels base labels)
        (merge_labels-Distinct base labels d))

base-Distinct :
    (id : Text) (db : Db) → Distinct (merge_labels [] (list_worker_labels_by_node id db))
base-Distinct id db = merge_labels-Distinct [] (list_worker_labels_by_node id db) tt

-- A node that was provisioned and the key and the value of a label of it stay in the table.
abbrev pub Keeps : Text → Text → Text → Db → Type 0
Keeps id key v db =
    (is_provisioned (get id db.nodes) ≡ true) × (get key (rows_of id db.labels) ≡ some v)

upserted-Keeps :
    (req : Hello) (id session : Text) (now : ℕ) (db : Db) (key v : Text)
    → Distinct (rows_of id db.labels)
    → Distinct req.labels
    → Protected key
    → Keeps id key v db
    → Keeps id key v (upserted req id session now db)
upserted-Keeps req id session now db key v d e p (b, h) = (
  rw (get-put id id (node_for req session now (get id db.nodes)) db.nodes)
      (rw (if_pos (text_discrete id id) refl) b),
  rw
      (get-replaced key id (node_for req session now (get id db.nodes))
        (clone_proto_capabilities req.capabilities)
        (labels_for (is_provisioned (get id db.nodes))
          (merge_labels [] (list_worker_labels_by_node id db)) req.labels)
        db
        (labels_for-Distinct (is_provisioned (get id db.nodes))
          (merge_labels [] (list_worker_labels_by_node id db)) req.labels (base-Distinct id db) e))
      (rw b (
        get-preserved key v (merge_labels [] (list_worker_labels_by_node id db)) req.labels p
          (rw (get-base key id db d) h))),
)

-- A worker that connects cannot change whose it is or of which type: whatever its hello says, and
-- whether or not calls of the database fail, a provisioned node's label of the owner and that of the
-- type, where it has them, are after Upsert what they were, and the node stays provisioned; and the
-- rows of every other node stay as they are. The labels of the node and those of the hello have
-- distinct keys.
pub upsert-Keeps :
    (fails : Faults) (req : Hello) (session : Text) (now : ℕ) (db : Db) (key v : Text)
    → Distinct (rows_of (trim_space req.node_id) db.labels)
    → Distinct req.labels
    → Protected key
    → Keeps (trim_space req.node_id) key v db
    → Keeps (trim_space req.node_id) key v (upsert fails req session now db).0
      × SameElsewhere (trim_space req.node_id) db (upsert fails req session now db).0
upsert-Keeps fails req session now db key v d e p k = elim (upsert-Cases fails req session now db) [
  | inl c ↦ rw (c.0) (k, λ j h. (refl, refl, refl, refl))
  | inr c ↦ rw c (
    upserted-Keeps req (trim_space req.node_id) (trim_space session) now db key v d e p k,
    upserted-SameElsewhere req (trim_space req.node_id) (trim_space session) now db,
  )
]

-- Upsert accepts no blank session id.
pub upsert-session :
    (fails : Faults) (req : Hello) (session : Text) (now : ℕ) (db : Db)
    → (upsert fails req session now db).1 ≡ none
    → is_empty (trim_space session) ≡ false
unfolding upsert
upsert-session fails req session now db ok = elim (Bool-cases (is_empty (trim_space session))) [
  | inr e ↦ e
  | inl e ↦ elim (Bool-cases (is_empty (trim_space req.node_id))) [
    | inl f ↦ cc (ok, e, f)
    | inr f ↦ cc (ok, e, f)
  ]
]
