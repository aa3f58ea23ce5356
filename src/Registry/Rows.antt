-- ===== src/Registry/Rows.antt =====
-- What the statements of Registry/Table do to the rows of a node.
use onlyboxes_mcp.Prelude.{
  ℕ, ◌≡◌, refl, ite, Bool, true, Option, none, some, [], ◌∷◌, arith, is_some, if◌then◌else◌, if_pos,
  if_neg,
}
use onlyboxes_mcp.Prelude.Text.{Text, text_discrete}
use onlyboxes_mcp.Prelude.Map.{Map, get, put, delete, get-put, get-delete, Distinct, put-Distinct}
use onlyboxes_mcp.Session.{Limit}
use onlyboxes_mcp.Registry.Table.{
  Node, Db, rows_of, update_node_found, update_node, put_row, insert_worker_capability,
  insert_worker_label, upsert_worker_node, delete_worker_capabilities_by_node,
  delete_worker_labels_by_node,
}
use onlyboxes_mcp.Registry.{insert_capabilities, insert_labels, replace_node}

abbrev pub node_after : (Node → Bool) → (Node → Node) → Option Node → Option Node
node_after fits f none = none
node_after fits f (some n) = if fits n then some (f n) else some n

abbrev pub changed : (Node → Bool) → Option Node → ℕ
changed fits none = 0
changed fits (some n) = if fits n then 1 else 0

update_node_found_lem :
    (fits : Node → Bool) (f : Node → Node) (id j : Text) (nodes : Map Node) (o : Option Node)
    → get id nodes ≡ o
    → (get j (update_node_found fits f id nodes o).0
        ≡ ite (text_discrete j id) (node_after fits f o) (get j nodes))
      × ((update_node_found fits f id nodes o).1 ≡ changed fits o)
unfolding update_node_found
update_node_found_lem fits f id j nodes none e = (ground arith, refl)
update_node_found_lem fits f id j nodes (some n) e =
    (ground (arith, get-put id j (f n) nodes), ground arith)

-- An update of a node changes its row if it fits, and says how many rows it changed.
pub get-update_node :
    (fits : Node → Bool) (f : Node → Node) (id j : Text) (db : Db)
    → get j (update_node fits f id db).0.nodes
      ≡ ite (text_discrete j id) (node_after fits f (get id db.nodes)) (get j db.nodes)
unfolding update_node
get-update_node fits f id j db = (update_node_found_lem fits f id j db.nodes _ refl).0

pub update_node_count :
    (fits : Node → Bool) (f : Node → Node) (id : Text) (db : Db)
    → (update_node fits f id db).1 ≡ changed fits (get id db.nodes)
unfolding update_node
update_node_count fits f id db = (update_node_found_lem fits f id id db.nodes _ refl).1

module _ {ℓ} {V : Type ℓ} where
  abbrev pub put_all : Map V → Map V → Map V
  put_all [] rows = rows
  put_all ((name, v) ∷ new) rows = put_all new (put name v rows)

  abbrev pub add_rows : Text → Map V → Map (Map V) → Map (Map V)
  add_rows id [] table = table
  add_rows id ((name, v) ∷ new) table = add_rows id new (put_row id name v table)

  pub rows_of-put :
      (id j : Text) (rows : Map V) (table : Map (Map V))
      → rows_of j (put id rows table) ≡ ite (text_discrete j id) rows (rows_of j table)
  rows_of-put id j rows table = elim (text_discrete j id) [
    | yes e ↦ rw (get-put id j rows table) (rw (if_pos _ e) (rw (if_pos _ e) refl))
    | no e ↦ rw (get-put id j rows table) (rw (if_neg _ e) (rw (if_neg _ e) refl))
  ]

  pub rows_of-delete :
      (id j : Text) (table : Map (Map V))
      → rows_of j (delete id table) ≡ ite (text_discrete j id) [] (rows_of j table)
  rows_of-delete id j table = elim (text_discrete j id) [
    | yes e ↦ rw (get-delete id j table) (rw (if_pos _ e) (rw (if_pos _ e) refl))
    | no e ↦ rw (get-delete id j table) (rw (if_neg _ e) (rw (if_neg _ e) refl))
  ]

  pub rows_of-add_rows :
      (id j : Text) (new : Map V) (table : Map (Map V))
      → rows_of j (add_rows id new table)
        ≡ ite (text_discrete j id) (put_all new (rows_of id table)) (rows_of j table)
  rows_of-add_rows id j [] table = elim (text_discrete j id) [
    | yes e ↦ rw (if_pos _ e) (rw e refl)
    | no e ↦ rw (if_neg _ e) refl
  ]
  rows_of-add_rows id j ((name, v) ∷ new) table =
      rw (rows_of-add_rows id j new (put_row id name v table)) (elim (text_discrete j id) [
        | yes e ↦ rw (if_pos _ e) (
            rw (if_pos _ e) (
              rw (rows_of-put id id (put name v (rows_of id table)) table)
                (rw (if_pos (text_discrete id id) refl) refl)))
        | no e ↦ rw (if_neg _ e) (
            rw (if_neg _ e)
              (rw (rows_of-put id j (put name v (rows_of id table)) table) (rw (if_neg _ e) refl)))
      ])

  pub put_all-Distinct : (new rows : Map V) → Distinct rows → Distinct (put_all new rows)
  put_all-Distinct [] rows d = d
  put_all-Distinct ((name, v) ∷ new) rows d =
      put_all-Distinct new (put name v rows) (put-Distinct name v rows d)

-- While the node is there, its new rows go in one after the other.
pub insert_capabilities_lem :
    (id : Text) (rows : Map Limit) (db : Db)
    → is_some (get id db.nodes) ≡ true
    → insert_capabilities id rows db
      ≡ some (record db { capabilities = add_rows id rows db.capabilities })
unfolding insert_capabilities insert_worker_capability
insert_capabilities_lem id [] db h = refl
insert_capabilities_lem id ((name, max) ∷ rows) db h = rw h (
    insert_capabilities_lem id rows
      (record db { capabilities = put_row id name max db.capabilities }) h)

pub insert_labels_lem :
    (id : Text) (rows : Map Text) (db : Db)
    → is_some (get id db.nodes) ≡ true
    → insert_labels id rows db ≡ some (record db { labels = add_rows id rows db.labels })
unfolding insert_labels insert_worker_label
insert_labels_lem id [] db h = refl
insert_labels_lem id ((name, v) ∷ rows) db h =
    rw h (insert_labels_lem id rows (record db { labels = put_row id name v db.labels }) h)

abbrev pub replaced : Text → Node → Map Limit → Map Text → Db → Db
replaced id n capabilities labels db = record db {
  nodes = put id n db.nodes;
  capabilities = add_rows id capabilities (delete id db.capabilities);
  labels = add_rows id labels (delete id db.labels);
}

there : (id : Text) (n : Node) (nodes : Map Node) → is_some (get id (put id n nodes)) ≡ true
there id n nodes = rw (get-put id id n nodes) (rw (if_pos (text_discrete id id) refl) refl)

-- The transaction of Upsert violates no constraint.
pub replace_node_lem :
    (id : Text) (n : Node) (capabilities : Map Limit) (labels : Map Text) (db : Db)
    → replace_node id n capabilities labels db ≡ some (replaced id n capabilities labels db)
unfolding replace_node upsert_worker_node delete_worker_capabilities_by_node
    delete_worker_labels_by_node
replace_node_lem id n capabilities labels db =
    rw
      (insert_capabilities_lem id capabilities
        (delete_worker_capabilities_by_node id (upsert_worker_node id n db)) (there id n db.nodes))
      (insert_labels_lem id labels
        (delete_worker_labels_by_node id
          (record (delete_worker_capabilities_by_node id (upsert_worker_node id n db)) {
            capabilities = add_rows id capabilities (delete id db.capabilities);
          }))
        (there id n db.nodes))
