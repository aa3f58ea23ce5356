-- ===== src/Registry/Pruning.antt =====
-- PruneOffline of console/internal/registry/store_query.go.
use onlyboxes_mcp.Prelude.{
  ℕ, ◌-◌, ◌≡◌, refl, ap, ◌∙◌, ite, Bool, true, false, Option, none, some, List, [], ◌∷◌,
  if◌then◌else◌, inl, inr, Bool-cases, if_pos, if_neg,
}
use onlyboxes_mcp.Prelude.Text.{Text, text_discrete}
use onlyboxes_mcp.Prelude.Map.{Map, get, get-delete, Distinct}
use onlyboxes_mcp.Registry.Table.{
  Node, Db, is_stale, stale_nodes, drop_node, drop_nodes, delete_offline_runtime_workers,
  is_claimed,
}
use onlyboxes_mcp.Registry.Lookup.{prune_offline}
use onlyboxes_mcp.Registry.Foreign.{is_claimed-drop_claims}
use onlyboxes_mcp.Registry.{Faults, unix_milli}

unfoldable pub has : Text → List Text → Bool
has id [] = false
has id (j ∷ ids) = let rest = has id ids in ite (text_discrete id j) true rest

abbrev pub is_gone : ℕ → Option Node → Bool
is_gone cutoff none = false
is_gone cutoff (some n) = is_stale cutoff n

-- What is left of a node's row in a table.
abbrev pub unless {ℓ} : {V : Type ℓ} → Bool → Option V → Option V
unless gone o = if gone then none else o

gone_here :
    (cutoff : ℕ) (id j : Text) (n : Node) (o : Option Node) (same : Dec (id ≡ j))
    → (id ≡ j → o ≡ none)
    → (if is_stale cutoff n then ite same true (is_gone cutoff o) else is_gone cutoff o)
      ≡ is_gone cutoff (ite same (some n) o)
gone_here cutoff id j n o (yes e) h =
    rw (h e) (elim (Bool-cases (is_stale cutoff n)) [ inl f ↦ rw f refl | inr f ↦ rw f refl ])
gone_here cutoff id j n o (no e) h = elim (Bool-cases (is_stale cutoff n)) [
  | inl f ↦ rw f refl
  | inr f ↦ rw f refl
]

has-if :
    (b : Bool) (id j : Text) (ids : List Text)
    → has id (if b then j ∷ ids else ids)
      ≡ (if b then ite (text_discrete id j) true (has id ids) else has id ids)
unfolding has
has-if true id j ids = refl
has-if false id j ids = refl

has-stale_nodes :
    (cutoff : ℕ) (id : Text) (nodes : Map Node)
    → Distinct nodes
    → has id (stale_nodes cutoff nodes) ≡ is_gone cutoff (get id nodes)
unfolding has stale_nodes get
has-stale_nodes cutoff id [] d = refl
has-stale_nodes cutoff id ((j, n) ∷ nodes) d =
    rw
      (
        has-if (is_stale cutoff n) id j (stale_nodes cutoff nodes),
        has-stale_nodes cutoff id nodes d.1,
      )
      (gone_here cutoff id j n (get id nodes) (text_discrete id j) λ e. rw e (d.0))

-- The rows of a node are gone from every table, or all of them are as they were.
abbrev pub Dropped : Bool → Text → Db → Db → Type 0
Dropped gone id before after =
    (get id after.nodes ≡ unless gone (get id before.nodes))
    × (get id after.capabilities ≡ unless gone (get id before.capabilities))
    × (get id after.labels ≡ unless gone (get id before.labels))
    × (get id after.credentials ≡ unless gone (get id before.credentials))
    × (is_claimed id after.claims ≡ (if gone then false else is_claimed id before.claims))

drop_node-Dropped :
    (j : Text) (id : Text) (db : Db) (same : Dec (id ≡ j))
    → Dropped (ite same true false) id db (drop_node j db)
unfolding drop_node
drop_node-Dropped j id db (yes e) = (
  rw (get-delete j id db.nodes) (rw (if_pos _ e) refl),
  rw (get-delete j id db.capabilities) (rw (if_pos _ e) refl),
  rw (get-delete j id db.labels) (rw (if_pos _ e) refl),
  rw (get-delete j id db.credentials) (rw (if_pos _ e) refl),
  rw (is_claimed-drop_claims id j db.claims) (rw (if_pos _ e) refl),
)
drop_node-Dropped j id db (no e) = (
  rw (get-delete j id db.nodes) (rw (if_neg _ e) refl),
  rw (get-delete j id db.capabilities) (rw (if_neg _ e) refl),
  rw (get-delete j id db.labels) (rw (if_neg _ e) refl),
  rw (get-delete j id db.credentials) (rw (if_neg _ e) refl),
  rw (is_claimed-drop_claims id j db.claims) (rw (if_neg _ e) refl),
)

still_none {ℓ} :
    {V : Type ℓ} (gone : Bool) (o p : Option V) → p ≡ unless gone o → o ≡ none → p ≡ none
still_none true o p h e = h
still_none false o p h e = h ∙ e

still_unclaimed : (gone b c : Bool) → c ≡ (if gone then false else b) → b ≡ false → c ≡ false
still_unclaimed true b c h e = h
still_unclaimed false b c h e = h ∙ e

-- One after the other.
both-Dropped :
    (j id : Text) (gone : Bool) (before middle after : Db) (same : Dec (id ≡ j))
    → Dropped (ite same true false) id before middle
    → Dropped gone id middle after
    → Dropped (ite same true gone) id before after
both-Dropped j id gone before middle after (yes e) a b = (
  still_none gone _ _ b.0 a.0,
  still_none gone _ _ b.1 a.1,
  still_none gone _ _ b.2 a.2,
  still_none gone _ _ b.3 a.3,
  still_unclaimed gone _ _ b.4 a.4,
)
both-Dropped j id gone before middle after (no e) a b = (
  b.0 ∙ ap (unless gone) a.0,
  b.1 ∙ ap (unless gone) a.1,
  b.2 ∙ ap (unless gone) a.2,
  b.3 ∙ ap (unless gone) a.3,
  b.4 ∙ ap (λ c. if gone then false else c) a.4,
)

drop_nodes-Dropped :
    (ids : List Text) (id : Text) (db : Db) → Dropped (has id ids) id db (drop_nodes ids db)
unfolding drop_nodes has
drop_nodes-Dropped [] id db = (refl, refl, refl, refl, refl)
drop_nodes-Dropped (j ∷ ids) id db =
    both-Dropped j id (has id ids) db (drop_node j db) (drop_nodes ids (drop_node j db))
      (text_discrete id j) (drop_node-Dropped j id db (text_discrete id j))
      (drop_nodes-Dropped ids id (drop_node j db))

-- PruneOffline removes exactly the nodes that were not provisioned by the console and were last seen
-- longer ago than the TTL, with their capabilities, labels, credentials and claims; every other node
-- keeps all of its rows, and a provisioned worker is never removed. The keys of the nodes are distinct
-- and the database call does not fail.
pub prune_offline-Dropped :
    (fails : Faults) (now ttl : ℕ) (db : Db) (id : Text)
    → fails 0 ≡ false
    → Distinct db.nodes
    → Dropped
        (is_gone (unix_milli (now - ttl)) (get id db.nodes))
        id
        db
        (prune_offline fails now ttl db).0
unfolding prune_offline delete_offline_runtime_workers
prune_offline-Dropped fails now ttl db id f d = rw f (
    rw (← has-stale_nodes (unix_milli (now - ttl)) id db.nodes d)
      (drop_nodes-Dropped (stale_nodes (unix_milli (now - ttl)) db.nodes) id db))
