-- ===== src/Registry/Views.antt =====
-- GetByNodeID against the list of console/internal/registry/store_query.go, which reads all rows at once
-- and groups them by node.
use mathlib.Core.Path.{ap₂}
use onlyboxes_mcp.Prelude.{
  ℕ, ◌≡◌, refl, ap, sym, ◌∙◌, ite, Bool, true, false, ◌||◌, Option, none, some, List, [], ◌∷◌, ◌++◌,
  arith, is_empty,
}
use onlyboxes_mcp.Prelude.Text.{Text, text_discrete, trim_space}
use onlyboxes_mcp.Prelude.Map.{Map, get, get-nil, get-cons, put, Distinct}
use onlyboxes_mcp.Session.{Limit}
use onlyboxes_mcp.Registry.Order.{order_by, get-order_by, order_by-Distinct}
use onlyboxes_mcp.Registry.Table.{Node, Db, or_no_rows, rows_of}
use onlyboxes_mcp.Registry.Selects.{
  by_key, by_registration, with_node, all_rows, list_worker_capabilities_all,
  list_worker_labels_all, list_worker_capabilities_by_node, list_worker_labels_by_node,
  list_worker_nodes_ordered, get_worker_node_by_id,
}
use onlyboxes_mcp.Registry.Query.{
  all, WorkerView, worker_of, worker_view, is_listed, filter_views, grouped_view,
  capability_by_node, labels_by_node, list_filtered_views,
}
use onlyboxes_mcp.Registry.Lookup.{view_found, get_by_node_id}
use onlyboxes_mcp.Registry.Rows.{put_all, rows_of-put}
use onlyboxes_mcp.Registry.Upserts.{merge_labels_lem}
use onlyboxes_mcp.Registry.{Faults, normalize_worker_type, merge_labels}

module _ {ℓ} {V : Type ℓ} where
  -- The rows of a node among all rows.
  abbrev pick : Text → List (Text × Text × V) → Map V
  pick id [] = []
  pick id ((j, name, v) ∷ rows) =
      let rest = pick id rows in ite (text_discrete id j) ((name, v) ∷ rest) rest

  append_assoc : (xs ys zs : List (Text × V)) → (xs ++ ys) ++ zs ≡ xs ++ (ys ++ zs)
  append_assoc [] ys zs = refl
  append_assoc (x ∷ xs) ys zs = ap (◌∷◌ x) (append_assoc xs ys zs)

  append_nil : (xs : List (Text × V)) → xs ++ [] ≡ xs
  append_nil [] = refl
  append_nil (x ∷ xs) = ap (◌∷◌ x) (append_nil xs)

  joined_here :
      (id j : Text) (r : Text × V) (rows rest : Map V) (same : Dec (id ≡ j))
      → ite same (r ∷ ite same (rows ++ rest) rest) (ite same (rows ++ rest) rest)
        ≡ ite same ((r ∷ rows) ++ rest) rest
  joined_here id j r rows rest (yes e) = refl
  joined_here id j r rows rest (no e) = refl

  grown_here :
      (id j : Text) (r : Text × V) (rest : Map V) (table : Map (Map V)) (same : Dec (id ≡ j))
      → ite same (rows_of j table ++ r ∷ []) (rows_of id table) ++ rest
        ≡ rows_of id table ++ ite same (r ∷ rest) rest
  grown_here id j r rest table (yes e) = rw e (append_assoc (rows_of j table) (r ∷ []) rest)
  grown_here id j r rest table (no e) = refl

  put_here :
      (id j key : Text) (v : V) (rest : Map V) (table : Map (Map V)) (same : Dec (id ≡ j))
      → put_all rest (ite same (put key v (rows_of j table)) (rows_of id table))
        ≡ put_all (ite same ((key, v) ∷ rest) rest) (rows_of id table)
  put_here id j key v rest table (yes e) = rw e refl
  put_here id j key v rest table (no e) = refl

  pick-with_node :
      (id j : Text) (rows : Map V) (rest : List (Text × Text × V))
      → pick id (with_node j rows ++ rest)
        ≡ ite (text_discrete id j) (rows ++ pick id rest) (pick id rest)
  pick-with_node id j [] rest = ground arith
  pick-with_node id j ((name, v) ∷ rows) rest =
      rw (pick-with_node id j rows rest)
        (joined_here id j (name, v) rows (pick id rest) (text_discrete id j))

  picked_here :
      (id j : Text) (rows : Map V) (o : Option (Map V)) (same : Dec (id ≡ j))
      → (id ≡ j → o ≡ none)
      → ite same
          (order_by by_key rows ++ order_by by_key (or_no_rows o))
          (order_by by_key (or_no_rows o))
        ≡ order_by by_key (or_no_rows (ite same (some rows) o))
  unfolding order_by
  picked_here id j rows o (yes e) h = rw (h e) (append_nil (order_by by_key rows))
  picked_here id j rows o (no e) h = refl

  pick-all_rows :
      (id : Text) (table : Map (Map V))
      → Distinct table
      → pick id (all_rows table) ≡ order_by by_key (rows_of id table)
  unfolding all_rows order_by
  pick-all_rows id [] d = rw (get-nil {V = Map V} id) refl
  pick-all_rows id ((j, rows) ∷ table) d =
      rw
        (
          pick-with_node id j (order_by by_key rows) (all_rows table),
          pick-all_rows id table d.1,
          get-cons id j rows table,
        )
        (picked_here id j rows (get id table) (text_discrete id j) λ e. rw e (d.0))

rows_of-capability_by_node :
    (id : Text) (rows : List (Text × Text × Limit)) (by_node : Map (Map Limit))
    → rows_of id (capability_by_node rows by_node) ≡ rows_of id by_node ++ pick id rows
unfolding capability_by_node
rows_of-capability_by_node id [] by_node = sym (append_nil (rows_of id by_node))
rows_of-capability_by_node id ((j, name, max) ∷ rows) by_node =
    rw
      (
        rows_of-capability_by_node id rows (put j (rows_of j by_node ++ (name, max) ∷ []) by_node),
        rows_of-put j id (rows_of j by_node ++ (name, max) ∷ []) by_node,
      )
      (grown_here id j (name, max) (pick id rows) by_node (text_discrete id j))

rows_of-labels_by_node :
    (id : Text) (rows : List (Text × Text × Text)) (by_node : Map (Map Text))
    → rows_of id (labels_by_node rows by_node) ≡ put_all (pick id rows) (rows_of id by_node)
unfolding labels_by_node
rows_of-labels_by_node id [] by_node = refl
rows_of-labels_by_node id ((j, key, value) ∷ rows) by_node =
    rw
      (
        rows_of-labels_by_node id rows (put j (put key value (rows_of j by_node)) by_node),
        rows_of-put j id (put key value (rows_of j by_node)) by_node,
      )
      (put_here id j key value (pick id rows) by_node (text_discrete id j))

abbrev pub find_view : Text → List WorkerView → Option WorkerView
find_view id [] = none
find_view id (v ∷ vs) = ite (text_discrete id v.worker.node_id) (some v) (find_view id vs)

abbrev viewed : (Text → Node → WorkerView) → Text → Option Node → Option WorkerView
viewed view id none = none
viewed view id (some n) = some (view id n)

found_here :
    (id j : Text) (view : Text → Node → WorkerView) (n : Node) (o : Option Node)
    (same : Dec (id ≡ j))
    → ite same (some (view j n)) (viewed view id o) ≡ viewed view id (ite same (some n) o)
found_here id j view n o (yes e) = rw e refl
found_here id j view n o (no e) = refl

-- The tables as they are read: their keys are distinct.
abbrev pub TidyTables : Db → Type 0
TidyTables db = Distinct db.nodes × Distinct db.capabilities × Distinct db.labels

abbrev looked_up : ℕ → ℕ → Db → Text → Node → WorkerView
looked_up now ttl db id n = worker_view now ttl (
    worker_of id n (list_worker_capabilities_by_node id db)
      (merge_labels [] (list_worker_labels_by_node id db)))

abbrev read_at_once : ℕ → ℕ → Db → Text → Node → WorkerView
read_at_once now ttl db =
    grouped_view now ttl (capability_by_node (list_worker_capabilities_all db) [])
      (labels_by_node (list_worker_labels_all db) [])

-- Where all workers are listed, a node's view is found by its id.
find_view-filter_views :
    (listed : WorkerView → Bool) (now ttl : ℕ) (db : Db) (id : Text) (nodes : Map Node)
    → ((j : Text) (n : Node) → listed (read_at_once now ttl db j n) ≡ true)
    → find_view id (filter_views listed (read_at_once now ttl db) nodes)
      ≡ viewed (read_at_once now ttl db) id (get id nodes)
unfolding filter_views
find_view-filter_views listed now ttl db id [] l =
    ap (viewed (read_at_once now ttl db) id) (sym (get-nil {V = Node} id))
find_view-filter_views listed now ttl db id ((j, n) ∷ nodes) l = rw (l j n) (
    rw (find_view-filter_views listed now ttl db id nodes l, get-cons id j n nodes)
      (found_here id j (read_at_once now ttl db) n (get id nodes) (text_discrete id j)))

module _ {ℓ} {V : Type ℓ} where
  picked :
      (id : Text) (table : Map (Map V))
      → Distinct table
      → pick id (all_rows (order_by by_key table)) ≡ order_by by_key (rows_of id table)
  picked id table d =
      pick-all_rows id (order_by by_key table) (order_by-Distinct by_key table d)
      ∙ ap (λ o. order_by by_key (or_no_rows o)) (get-order_by by_key id table d)

same_view :
    (now ttl : ℕ) (db : Db) (id : Text) (n : Node)
    → TidyTables db
    → read_at_once now ttl db id n ≡ looked_up now ttl db id n
unfolding list_worker_capabilities_all list_worker_labels_all list_worker_capabilities_by_node
    list_worker_labels_by_node get
same_view now ttl db id n d =
    ap₂ (λ capabilities labels. worker_view now ttl (worker_of id n capabilities labels))
      (rows_of-capability_by_node id (all_rows (order_by by_key db.capabilities)) []
        ∙ picked id db.capabilities d.1)
      (rows_of-labels_by_node id (all_rows (order_by by_key db.labels)) []
        ∙ ap (λ rows. put_all rows []) (picked id db.labels d.2)
        ∙ sym (merge_labels_lem [] (order_by by_key (rows_of id db.labels))))

found_same :
    (now ttl : ℕ) (db : Db) (id : Text) (o : Option Node)
    → TidyTables db
    → viewed (read_at_once now ttl db) id o ≡ view_found now ttl id db o
found_same now ttl db id none d = refl
found_same now ttl db id (some n) d = ap some (same_view now ttl db id n d)

all_listed : (v : WorkerView) → is_listed all (trim_space []) (normalize_worker_type []) v ≡ true
unfolding trim_space normalize_worker_type
all_listed v = refl

-- What GetByNodeID shows of a node is what the list of all workers shows of it, and it finds a node
-- exactly when the list has it; although it reads the rows of the node alone, and the list reads all
-- rows at once and groups them. The id is not blank, the keys of the tables are distinct, and the
-- database calls do not fail.
pub get_by_node_id-listed :
    (fails : Faults) (id : Text) (now ttl : ℕ) (db : Db)
    → is_empty (trim_space id) ≡ false
    → (fails 0 || fails 1 || fails 2) ≡ false
    → TidyTables db
    → get_by_node_id fails id now ttl db
      ≡ find_view (trim_space id) (list_filtered_views fails all now ttl [] [] db)
unfolding get_by_node_id list_filtered_views get_worker_node_by_id list_worker_nodes_ordered
get_by_node_id-listed fails id now ttl db e f d = rw e (
    rw f (
      sym (
        find_view-filter_views (is_listed all (trim_space []) (normalize_worker_type [])) now ttl db
          (trim_space id) (order_by by_registration db.nodes)
          (λ j n. all_listed (read_at_once now ttl db j n))
        ∙ ap (viewed (read_at_once now ttl db) (trim_space id))
            (get-order_by by_registration (trim_space id) db.nodes d.0)
        ∙ found_same now ttl db (trim_space id) (get (trim_space id) db.nodes) d)))
