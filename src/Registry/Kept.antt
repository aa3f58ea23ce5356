-- ===== src/Registry/Kept.antt =====
-- The constraints of the tables, kept by the statements that insert and update.
use onlyboxes_mcp.Prelude.{
  ℕ, ◌≡◌, ◌≢◌, refl, ◌∙◌, Bool, true, false, [], ◌∷◌, arith, is_some, inl, inr, Bool-cases,
  Option-cases, if_pos, if_neg,
}
use onlyboxes_mcp.Prelude.Text.{Text, text_discrete}
use onlyboxes_mcp.Prelude.Map.{
  Map, get, put, delete, get-put_self, get-delete_ne, get-delete_self, get-put_ne, Distinct,
  put-Distinct, delete-Distinct,
}
use onlyboxes_mcp.Session.{Limit}
use onlyboxes_mcp.Registry.Table.{
  Node, Claim, Credential, Db, rows_of, is_claimed, update_node_found, update_node, put_row,
  provisioned_row,
}
use onlyboxes_mcp.Registry.Selects.{list_worker_labels_by_node}
use onlyboxes_mcp.Registry.Lifecycle.{labelled}
use onlyboxes_mcp.Registry.Upserts.{upserted}
use onlyboxes_mcp.Registry.{
  Hello, node_for, labels_for, is_provisioned, merge_labels, clone_proto_capabilities,
  insert_labels,
}
use onlyboxes_mcp.Registry.Rows.{
  insert_labels_lem, add_rows, rows_of-delete, rows_of-add_rows, put_all-Distinct, replaced,
}
use onlyboxes_mcp.Registry.Foreign.{WellFormed, delete-ClaimedOnce, is_claimed-delete}

there : (id : Text) (n : Node) (nodes : Map Node) → is_some (get id (put id n nodes)) ≡ true
there id n nodes = rw (get-put_self id n nodes) refl

abbrev with_nodes : Map Node → Db → Db
with_nodes nodes db = record db { nodes = nodes }

-- A row of a node that is put in leaves the other tables well formed.
pub put_node-WellFormed :
    (id : Text) (n : Node) (db : Db)
    → WellFormed db
    → WellFormed (record db { nodes = put id n db.nodes })
put_node-WellFormed id n db (d, r, c, f) = (
  (put-Distinct id n db.nodes d.0, d.1, d.2, d.3, d.4),
  r,
  c,
  λ j. elim (text_discrete j id) [
    | yes e ↦ inl (rw e (there id n db.nodes))
    | no e ↦ rw (get-put_ne id j n db.nodes e) (f j)
  ],
)

pub update_node-WellFormed :
    (fits : Node → Bool) (g : Node → Node) (id : Text) (db : Db)
    → WellFormed db
    → WellFormed (update_node fits g id db).0
unfolding update_node update_node_found
update_node-WellFormed fits g id db w = elim (Option-cases (get id db.nodes)) [
  | inl e ↦ rw e w
  | inr e ↦ rw (e.1) (elim (Bool-cases (fits e.0)) [
    | inl h ↦ rw h (put_node-WellFormed id (g e.0) db w)
    | inr h ↦ rw h w
  ])
]

module _ {V : Type 0} where
  pub add_rows-Distinct :
      (id : Text) (new : Map V) (table : Map (Map V))
      → Distinct table
      → Distinct (add_rows id new table)
  add_rows-Distinct id [] table d = d
  add_rows-Distinct id ((name, v) ∷ new) table d =
      add_rows-Distinct id new (put_row id name v table)
        (put-Distinct id (put name v (rows_of id table)) table d)

  pub get-add_rows_ne :
      (id j : Text) (new : Map V) (table : Map (Map V))
      → j ≢ id
      → get j (add_rows id new table) ≡ get j table
  get-add_rows_ne id j [] table h = refl
  get-add_rows_ne id j ((name, v) ∷ new) table h =
      get-add_rows_ne id j new (put_row id name v table) h
      ∙ get-put_ne id j (put name v (rows_of id table)) table h

  rows_of-add_rows-Distinct :
      (id j : Text) (new : Map V) (table : Map (Map V))
      → Distinct (rows_of id table)
      → Distinct (rows_of j table)
      → Distinct (rows_of j (add_rows id new table))
  rows_of-add_rows-Distinct id j new table d e =
      rw (rows_of-add_rows id j new table) (elim (text_discrete j id) [
        | yes p ↦ rw (if_pos _ p) (put_all-Distinct new (rows_of id table) d)
        | no p ↦ rw (if_neg _ p) e
      ])

  rows_of-delete-Distinct :
      (id j : Text) (table : Map (Map V))
      → Distinct (rows_of j table)
      → Distinct (rows_of j (delete id table))
  rows_of-delete-Distinct id j table d =
      rw (rows_of-delete id j table)
        (elim (text_discrete j id) [ yes e ↦ rw (if_pos _ e) tt | no e ↦ rw (if_neg _ e) d ])

-- New labels of a node that is there.
pub add_labels-WellFormed :
    (id : Text) (new : Map Text) (db : Db)
    → is_some (get id db.nodes) ≡ true
    → WellFormed db
    → WellFormed (record db { labels = add_rows id new db.labels })
add_labels-WellFormed id new db h (d, r, c, f) = (
  (d.0, d.1, add_rows-Distinct id new db.labels d.2, d.3, d.4),
  λ j. ((r j).0, rows_of-add_rows-Distinct id j new db.labels (r id).1 (r j).1),
  c,
  λ j. elim (text_discrete j id) [
    | yes e ↦ inl (rw e h)
    | no e ↦ rw (get-add_rows_ne id j new db.labels e) (f j)
  ],
)

add_capabilities-WellFormed :
    (id : Text) (new : Map Limit) (db : Db)
    → is_some (get id db.nodes) ≡ true
    → WellFormed db
    → WellFormed (record db { capabilities = add_rows id new db.capabilities })
add_capabilities-WellFormed id new db h (d, r, c, f) = (
  (d.0, add_rows-Distinct id new db.capabilities d.1, d.2, d.3, d.4),
  λ j. (rows_of-add_rows-Distinct id j new db.capabilities (r id).0 (r j).0, (r j).1),
  c,
  λ j. elim (text_discrete j id) [
    | yes e ↦ inl (rw e h)
    | no e ↦ rw (get-add_rows_ne id j new db.capabilities e) (f j)
  ],
)

without_rows-WellFormed :
    (id : Text) (db : Db)
    → is_some (get id db.nodes) ≡ true
    → WellFormed db
    → WellFormed
        (record db { capabilities = delete id db.capabilities; labels = delete id db.labels })
without_rows-WellFormed id db h (d, r, c, f) = (
  (d.0, delete-Distinct id db.capabilities d.1, delete-Distinct id db.labels d.2, d.3, d.4),
  λ j. (
    rows_of-delete-Distinct id j db.capabilities (r j).0,
    rows_of-delete-Distinct id j db.labels (r j).1,
  ),
  c,
  λ j. elim (text_discrete j id) [
    | yes e ↦ inl (rw e h)
    | no e ↦ rw (get-delete_ne id j db.capabilities e, get-delete_ne id j db.labels e) (f j)
  ],
)

-- The transaction of Upsert.
pub replaced-WellFormed :
    (id : Text) (n : Node) (capabilities : Map Limit) (labels : Map Text) (db : Db)
    → WellFormed db
    → WellFormed (replaced id n capabilities labels db)
replaced-WellFormed id n capabilities labels db w =
    add_labels-WellFormed id labels
      (record (with_nodes (put id n db.nodes) db) {
        capabilities = add_rows id capabilities (delete id db.capabilities);
        labels = delete id db.labels;
      })
      (there id n db.nodes)
      (add_capabilities-WellFormed id capabilities
        (record (with_nodes (put id n db.nodes) db) {
          capabilities = delete id db.capabilities;
          labels = delete id db.labels;
        })
        (there id n db.nodes)
        (without_rows-WellFormed id (with_nodes (put id n db.nodes) db) (there id n db.nodes)
          (put_node-WellFormed id n db w)))

pub put_credential-WellFormed :
    (id : Text) (c : Credential) (db : Db)
    → is_some (get id db.nodes) ≡ true
    → WellFormed db
    → WellFormed (record db { credentials = put id c db.credentials })
put_credential-WellFormed id cr db h (d, r, c, f) = (
  (d.0, d.1, d.2, put-Distinct id cr db.credentials d.3, d.4),
  r,
  c,
  λ j. elim (text_discrete j id) [
    | yes e ↦ inl (rw e h)
    | no e ↦ rw (get-put_ne id j cr db.credentials e) (f j)
  ],
)

pub delete_credential-WellFormed :
    (id : Text) (db : Db)
    → WellFormed db
    → WellFormed (record db { credentials = delete id db.credentials })
delete_credential-WellFormed id db (d, r, c, f) = (
  (d.0, d.1, d.2, delete-Distinct id db.credentials d.3, d.4),
  r,
  c,
  λ j. elim (text_discrete j id) [
    | yes e ↦ elim (f j) [
      | inl a ↦ inl a
      | inr a ↦ inr (a.0, a.1, rw e (get-delete_self id db.credentials), a.3)
    ]
    | no e ↦ rw (get-delete_ne id j db.credentials e) (f j)
  ],
)

is_claimed-put :
    (id owner : Text) (c : Claim) (claims : Map Claim)
    → id ≢ c.node_id
    → is_claimed id claims ≡ false
    → is_claimed id (put owner c claims) ≡ false
unfolding is_claimed put
is_claimed-put id owner c claims ne h = ground (arith, ne, is_claimed-delete id owner claims h)

pub put_claim-WellFormed :
    (owner : Text) (c : Claim) (db : Db)
    → is_claimed c.node_id db.claims ≡ false
    → is_some (get c.node_id db.nodes) ≡ true
    → WellFormed db
    → WellFormed (record db { claims = put owner c db.claims })
unfolding put
put_claim-WellFormed owner cl db free h (d, r, c, f) = (
  (d.0, d.1, d.2, d.3, put-Distinct owner cl db.claims d.4),
  r,
  (is_claimed-delete cl.node_id owner db.claims free, delete-ClaimedOnce owner db.claims c),
  λ j. elim (text_discrete j cl.node_id) [
    | yes e ↦ inl (rw e h)
    | no e ↦ elim (f j) [
      | inl a ↦ inl a
      | inr a ↦ inr (a.0, a.1, a.2, is_claimed-put j owner cl db.claims e a.3)
    ]
  ],
)

pub upserted-WellFormed :
    (req : Hello) (id session : Text) (now : ℕ) (db : Db)
    → WellFormed db
    → WellFormed (upserted req id session now db)
upserted-WellFormed req id session now db =
    replaced-WellFormed id (node_for req session now (get id db.nodes))
      (clone_proto_capabilities req.capabilities)
      (labels_for (is_provisioned (get id db.nodes))
        (merge_labels [] (list_worker_labels_by_node id db)) req.labels)
      db

-- The transaction of a worker that is seeded.
pub seeded-WellFormed :
    (id name : Text) (labels : Map Text) (registered seen : ℕ) (db : Db)
    → WellFormed db
    → WellFormed
        (labelled db (
          insert_labels id labels
            (with_nodes (put id (provisioned_row name registered seen) db.nodes) db))).0
seeded-WellFormed id name labels registered seen db w =
    rw
      (insert_labels_lem id labels
        (with_nodes (put id (provisioned_row name registered seen) db.nodes) db)
        (there id (provisioned_row name registered seen) db.nodes))
      (add_labels-WellFormed id labels
        (with_nodes (put id (provisioned_row name registered seen) db.nodes) db)
        (there id (provisioned_row name registered seen) db.nodes)
        (put_node-WellFormed id (provisioned_row name registered seen) db w))
