-- ===== src/Registry/Listing.antt =====
-- The lists of online workers in console/internal/registry/store_query.go, which the dispatch asks for.
use onlyboxes_mcp.Prelude.{
  ℕ, zero, suc, ◌+◌, ◌≡◌, refl, sym, ite, Bool, true, false, ◌||◌, Option, none, some, List, [],
  ◌∷◌, arith, ltb, if_pos, if_neg,
}
use onlyboxes_mcp.Prelude.Text.{Text, text_discrete}
use onlyboxes_mcp.Prelude.Map.{Map, get, get-nil, get-cons, put, delete, Distinct}
use onlyboxes_mcp.Session.{Limit}
use onlyboxes_mcp.Registry.Order.{order_by, get-order_by, order_by-Distinct}
use onlyboxes_mcp.Registry.Table.{Node, Db}
use onlyboxes_mcp.Registry.Selects.{
  by_key, sql_lower, matching, repeated, ids_of, joined_capability,
  list_online_worker_node_ids_by_capability,
}
use onlyboxes_mcp.Registry.Rows.{put_all}

-- How often a list has a node.
unfoldable pub occurrences : Text → List Text → ℕ
occurrences id [] = 0
occurrences id (j ∷ ids) = let rest = occurrences id ids in ite (text_discrete id j) (suc rest) rest

abbrev pub joined_at : (Text → Node → ℕ) → Text → Option Node → ℕ
joined_at joined id none = 0
joined_at joined id (some n) = joined id n

occurrences-repeated :
    (id j : Text) (n : ℕ) (ids : List Text)
    → occurrences id (repeated n j ids)
      ≡ ite (text_discrete id j) (n + occurrences id ids) (occurrences id ids)
unfolding occurrences
occurrences-repeated id j zero ids = ground arith
occurrences-repeated id j (suc n) ids = ground (arith, occurrences-repeated id j n ids)

joined_here :
    (joined : Text → Node → ℕ) (id j : Text) (n : Node) (o : Option Node) (same : Dec (id ≡ j))
    → (id ≡ j → o ≡ none)
    → ite same (joined j n + joined_at joined id o) (joined_at joined id o)
      ≡ joined_at joined id (ite same (some n) o)
joined_here joined id j n o (yes e) h = rw (h e, e) (omega arith)
joined_here joined id j n o (no e) h = refl

-- A node is listed as often as the join has rows for it.
pub occurrences-ids_of :
    (joined : Text → Node → ℕ) (id : Text) (nodes : Map Node)
    → Distinct nodes
    → occurrences id (ids_of joined nodes) ≡ joined_at joined id (get id nodes)
unfolding ids_of occurrences
occurrences-ids_of joined id [] d = rw (get-nil {V = Node} id) refl
occurrences-ids_of joined id ((j, n) ∷ nodes) d =
    rw
      (
        get-cons id j n nodes,
        occurrences-repeated id j (joined j n) (ids_of joined nodes),
        occurrences-ids_of joined id nodes d.1,
      )
      (joined_here joined id j n (get id nodes) (text_discrete id j) λ e. rw e (d.0))

-- How often a node stands among the online ones.
abbrev pub times : Text → ℕ → Db → Text → ℕ
times name cutoff db id = joined_at (joined_capability name cutoff db) id (get id db.nodes)

pub online-occurrences :
    (name id : Text) (cutoff : ℕ) (db : Db)
    → Distinct db.nodes
    → occurrences id (list_online_worker_node_ids_by_capability name cutoff db)
      ≡ times name cutoff db id
unfolding list_online_worker_node_ids_by_capability
online-occurrences name id cutoff db d =
    rw
      (
        occurrences-ids_of (joined_capability name cutoff db) id (order_by by_key db.nodes)
            (order_by-Distinct by_key db.nodes d),
        get-order_by by_key id db.nodes d,
      )
      refl

-- The capability of a declaration, by LOWER of SQL.
abbrev pub names : Text → Text → Bool
names name n = ite (text_discrete (sql_lower n) name) true false

abbrev pub any_names : Text → Map Limit → Bool
any_names name [] = false
any_names name ((n, max) ∷ rows) = names name n || any_names name rows

matching-delete :
    (name k : Text) (rows : Map Limit)
    → names name k ≡ false
    → matching name (delete k rows) ≡ matching name rows
unfolding matching delete
matching-delete name k [] h = refl
matching-delete name k ((j, v) ∷ rows) h = elim (text_discrete k j) [
  | yes e ↦ rw (if_pos _ e) (rw (sym e) (ground (arith, h, matching-delete name k rows h)))
  | no e ↦ rw (if_neg _ e) (rw (matching-delete name k rows h) refl)
]

matching-put :
    (name k : Text) (v : Limit) (rows : Map Limit)
    → ltb 0 (matching name (put k v rows)) ≡ (names name k || ltb 0 (matching name rows))
unfolding matching put
matching-put name k v rows = elim (text_discrete (sql_lower k) name) [
  | yes e ↦ rw (if_pos _ e) (rw (if_pos _ e) (ground arith))
  | no e ↦
      rw (if_neg _ e)
        (rw (if_neg _ e) (rw (matching-delete name k rows (rw (if_neg _ e) refl)) refl))
]

or_swap : (a b c : Bool) → (a || (b || c)) ≡ ((b || a) || c)
or_swap a b c = ground arith

-- After rows were put, some row has the capability exactly when a new or an old one has.
pub matching-put_all :
    (name : Text) (new rows : Map Limit)
    → ltb 0 (matching name (put_all new rows)) ≡ (any_names name new || ltb 0 (matching name rows))
matching-put_all name [] rows = refl
matching-put_all name ((k, v) ∷ new) rows =
    rw (matching-put_all name new (put k v rows), matching-put name k v rows)
      (or_swap (any_names name new) (names name k) (ltb 0 (matching name rows)))

or_false : (b : Bool) → (b || false) ≡ b
or_false true = refl
or_false false = refl

pub matching-put_all_nil :
    (name : Text) (new : Map Limit) → ltb 0 (matching name (put_all new [])) ≡ any_names name new
unfolding matching
matching-put_all_nil name new = rw (matching-put_all name new []) (or_false (any_names name new))
