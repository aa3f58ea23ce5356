-- ===== src/Registry/Stats.antt =====
-- StatsScoped of console/internal/registry/store_query.go against the lists.
use onlyboxes_mcp.Prelude.{
  ℕ, ◌+◌, ◌-◌, ◌≡◌, refl, Bool, true, false, ◌||◌, not, List, [], ◌∷◌, arith, leb, length, inl, inr,
  Bool-cases,
}
use onlyboxes_mcp.Prelude.Text.{Text, trim_space}
use onlyboxes_mcp.Prelude.Map.{Map}
use onlyboxes_mcp.Registry.Table.{Node, Db}
use onlyboxes_mcp.Registry.Selects.{
  list_worker_capabilities_all, list_worker_labels_all, list_worker_nodes_ordered,
}
use onlyboxes_mcp.Registry.Query.{
  WorkerStatus, all, online, offline, WorkerView, WorkerStats, status_of, from_milli, same_status,
  is_in_scope, is_listed, filter_views, grouped_view, capability_by_node, labels_by_node,
  list_filtered_views,
}
use onlyboxes_mcp.Registry.Lookup.{is_online, count_view, count_views, stats_scoped}
use onlyboxes_mcp.Registry.{Faults, normalize_worker_type}

abbrev one_if : Bool → ℕ
one_if true = 1
one_if false = 0

abbrev count_online : List WorkerView → ℕ
count_online [] = 0
count_online (v ∷ vs) = one_if (is_online v.status) + count_online vs

abbrev count_offline : List WorkerView → ℕ
count_offline [] = 0
count_offline (v ∷ vs) = one_if (not (is_online v.status)) + count_offline vs

abbrev Adds : List WorkerView → WorkerStats → WorkerStats → Type 0
Adds vs s r =
    (r.total ≡ s.total + length vs)
    × (r.online ≡ s.online + count_online vs)
    × (r.offline ≡ s.offline + count_offline vs)

count_views_lem :
    (now stale_after : ℕ) (vs : List WorkerView) (s : WorkerStats)
    → Adds vs s (count_views now stale_after vs s)
unfolding count_views
count_views_lem now stale_after [] s = (omega arith, omega arith, omega arith)
count_views_lem now stale_after (v ∷ vs) s =
    let rest = count_views_lem now stale_after vs (count_view now stale_after v s) in
    elim (Bool-cases (is_online v.status)) [
      | inl e ↦ (ground (arith, e, rest.0), ground (arith, e, rest.1), ground (arith, e, rest.2))
      | inr e ↦ (ground (arith, e, rest.0), ground (arith, e, rest.1), ground (arith, e, rest.2))
    ]

same_status-online : (s : WorkerStatus) → same_status online s ≡ is_online s
same_status-online all = refl
same_status-online online = refl
same_status-online offline = refl

same_status-offline :
    (last now ttl : ℕ)
    → same_status offline (status_of last now ttl) ≡ not (is_online (status_of last now ttl))
unfolding status_of
same_status-offline last now ttl = elim (Bool-cases (leb (now - last) ttl)) [
  | inl e ↦ rw e refl
  | inr e ↦ rw e refl
]

module _ (owner worker_type : Text) (view : Text → Node → WorkerView)
    (two : (id : Text) (n : Node)
      → same_status offline (view id n).status ≡ not (is_online (view id n).status)) where
  abbrev listed : WorkerStatus → Map Node → List WorkerView
  listed status = filter_views (is_listed status owner worker_type) view

  length-listed_online :
      (nodes : Map Node) → length (listed online nodes) ≡ count_online (listed all nodes)
  unfolding filter_views
  length-listed_online [] = refl
  length-listed_online ((id, n) ∷ nodes) =
      rw (same_status-online (view id n).status)
        (elim (Bool-cases (is_in_scope owner worker_type (view id n).worker.labels)) [
          | inl e ↦ rw e (elim (Bool-cases (is_online (view id n).status)) [
            | inl f ↦ rw f (ground (arith, length-listed_online nodes))
            | inr f ↦ rw f (ground (arith, length-listed_online nodes))
          ])
          | inr e ↦ rw e (elim (Bool-cases (is_online (view id n).status)) [
            | inl f ↦ rw f (length-listed_online nodes)
            | inr f ↦ rw f (length-listed_online nodes)
          ])
        ])

  length-listed_offline :
      (nodes : Map Node) → length (listed offline nodes) ≡ count_offline (listed all nodes)
  unfolding filter_views
  length-listed_offline [] = refl
  length-listed_offline ((id, n) ∷ nodes) =
      rw (two id n) (elim (Bool-cases (is_in_scope owner worker_type (view id n).worker.labels)) [
        | inl e ↦ rw e (elim (Bool-cases (is_online (view id n).status)) [
          | inl f ↦ rw f (ground (arith, length-listed_offline nodes))
          | inr f ↦ rw f (ground (arith, length-listed_offline nodes))
        ])
        | inr e ↦ rw e (elim (Bool-cases (is_online (view id n).status)) [
          | inl f ↦ rw f (length-listed_offline nodes)
          | inr f ↦ rw f (length-listed_offline nodes)
        ])
      ])

both : (vs : List WorkerView) → length vs ≡ count_online vs + count_offline vs
both [] = refl
both (v ∷ vs) = elim (Bool-cases (is_online v.status)) [
  | inl e ↦ rw e (omega (arith, both vs))
  | inr e ↦ rw e (omega (arith, both vs))
]

abbrev no_stats : WorkerStats
no_stats = record { total = 0; online = 0; offline = 0; stale = 0 }

of_lists :
    (vs : List WorkerView) (r : WorkerStats) {a b : ℕ}
    → Adds vs no_stats r
    → a ≡ count_online vs
    → b ≡ count_offline vs
    → length vs ≡ count_online vs + count_offline vs
    → (r.total ≡ length vs) × (r.online ≡ a) × (r.offline ≡ b) × (r.total ≡ r.online + r.offline)
of_lists vs r h p q t = (
  omega (arith, h.0),
  omega (arith, h.1, p),
  omega (arith, h.2, q),
  omega (arith, h.0, h.1, h.2, t),
)

-- The numbers that the dashboard shows are those of the lists that it shows: the total is how many
-- workers the list of all has, the online and the offline ones are how many the lists by status have,
-- and the two make up the total; for any owner and type, and where calls of the database fail as they
-- fail for the lists.
pub stats_scoped_lem :
    (fails : Faults) (now ttl stale_after : ℕ) (owner worker_type : Text) (db : Db)
    → ((stats_scoped fails now ttl stale_after owner worker_type db).total
        ≡ length (list_filtered_views fails all now ttl owner worker_type db))
      × ((stats_scoped fails now ttl stale_after owner worker_type db).online
          ≡ length (list_filtered_views fails online now ttl owner worker_type db))
      × ((stats_scoped fails now ttl stale_after owner worker_type db).offline
          ≡ length (list_filtered_views fails offline now ttl owner worker_type db))
      × ((stats_scoped fails now ttl stale_after owner worker_type db).total
          ≡ (stats_scoped fails now ttl stale_after owner worker_type db).online
            + (stats_scoped fails now ttl stale_after owner worker_type db).offline)
unfolding stats_scoped list_filtered_views count_views
stats_scoped_lem fails now ttl stale_after owner worker_type db =
    elim (Bool-cases (fails 0 || fails 1 || fails 2)) [
      | inl e ↦ rw e (refl, refl, refl, omega arith)
      | inr e ↦ rw e (
          of_lists (listed o w view two all nodes)
            (count_views now stale_after (listed o w view two all nodes) no_stats)
            (count_views_lem now stale_after (listed o w view two all nodes) no_stats)
            (length-listed_online o w view two nodes) (length-listed_offline o w view two nodes)
            (both (listed o w view two all nodes)))
    ]
  where
    o : Text
    o = trim_space owner

    w : Text
    w = normalize_worker_type worker_type

    view : Text → Node → WorkerView
    view =
        grouped_view now ttl (capability_by_node (list_worker_capabilities_all db) [])
          (labels_by_node (list_worker_labels_all db) [])

    nodes : Map Node
    nodes = list_worker_nodes_ordered db

    two :
        (id : Text) (n : Node)
        → same_status offline (view id n).status ≡ not (is_online (view id n).status)
    two id n = same_status-offline (from_milli n.last_seen_at) now ttl
