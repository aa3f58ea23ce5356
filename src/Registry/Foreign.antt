-- ===== src/Registry/Foreign.antt =====
-- The constraints of the tables of console/db/migrations, kept by the statements of
-- console/internal/persistence/sqlc/workers.sql.go.
use onlyboxes_mcp.Prelude.{
  ◌≡◌, refl, ◌∙◌, ◌⊎◌, ite, true, false, none, [], ◌∷◌, arith, is_some, inr, if_pos, if_neg,
}
use onlyboxes_mcp.Prelude.Text.{Text, text_discrete}
use onlyboxes_mcp.Prelude.Map.{
  Map, get, delete, get-delete_self, get-delete_ne, Distinct, delete-Distinct,
}
use onlyboxes_mcp.Registry.Table.{Claim, Db, rows_of, drop_claims, drop_node, is_claimed}
use onlyboxes_mcp.Registry.Rows.{rows_of-delete}

-- node_id is UNIQUE in worker_sys_owner_claims.
abbrev pub ClaimedOnce : Map Claim → Type 0
ClaimedOnce [] = Unit {0}
ClaimedOnce ((owner, c) ∷ claims) = (is_claimed c.node_id claims ≡ false) × ClaimedOnce claims

-- No row refers to a node that is not there.
abbrev pub Refers : Text → Db → Type 0
Refers id db =
    (is_some (get id db.nodes) ≡ true)
    ⊎ ((get id db.capabilities ≡ none)
        × (get id db.labels ≡ none)
        × (get id db.credentials ≡ none)
        × (is_claimed id db.claims ≡ false))

abbrev pub WellFormed : Db → Type 0
WellFormed db =
    (Distinct db.nodes
      × Distinct db.capabilities
      × Distinct db.labels
      × Distinct db.credentials
      × Distinct db.claims)
    × ((id : Text) → Distinct (rows_of id db.capabilities) × Distinct (rows_of id db.labels))
    × ClaimedOnce db.claims
    × ((id : Text) → Refers id db)

pub is_claimed-delete :
    (id owner : Text) (claims : Map Claim)
    → is_claimed id claims ≡ false
    → is_claimed id (delete owner claims) ≡ false
unfolding is_claimed delete
is_claimed-delete id owner [] h = refl
is_claimed-delete id owner ((o, c) ∷ claims) h =
    ground (arith, h, is_claimed-delete id owner claims)

pub delete-ClaimedOnce :
    (owner : Text) (claims : Map Claim) → ClaimedOnce claims → ClaimedOnce (delete owner claims)
unfolding delete
delete-ClaimedOnce owner [] h = tt
delete-ClaimedOnce owner ((o, c) ∷ claims) h = elim (text_discrete owner o) [
  | yes e ↦ rw (if_pos _ e) (delete-ClaimedOnce owner claims h.1)
  | no e ↦
      rw (if_neg _ e)
        (is_claimed-delete c.node_id owner claims h.0, delete-ClaimedOnce owner claims h.1)
]

pub is_claimed-drop_claims :
    (id gone : Text) (claims : Map Claim)
    → is_claimed id (drop_claims gone claims)
      ≡ ite (text_discrete id gone) false (is_claimed id claims)
unfolding is_claimed drop_claims
is_claimed-drop_claims id gone [] = ground arith
is_claimed-drop_claims id gone ((o, c) ∷ claims) =
    ground (arith, is_claimed-drop_claims id gone claims)

pub get-drop_claims-none :
    (owner gone : Text) (claims : Map Claim)
    → get owner claims ≡ none
    → get owner (drop_claims gone claims) ≡ none
unfolding get drop_claims
get-drop_claims-none owner gone [] h = refl
get-drop_claims-none owner gone ((o, c) ∷ claims) h =
    ground (arith, h, get-drop_claims-none owner gone claims)

drop_claims-Distinct :
    (gone : Text) (claims : Map Claim) → Distinct claims → Distinct (drop_claims gone claims)
unfolding drop_claims
drop_claims-Distinct gone [] d = tt
drop_claims-Distinct gone ((o, c) ∷ claims) d = elim (text_discrete c.node_id gone) [
  | yes e ↦ rw (if_pos _ e) (drop_claims-Distinct gone claims d.1)
  | no e ↦
      rw (if_neg _ e) (get-drop_claims-none o gone claims d.0, drop_claims-Distinct gone claims d.1)
]

drop_claims-ClaimedOnce :
    (gone : Text) (claims : Map Claim) → ClaimedOnce claims → ClaimedOnce (drop_claims gone claims)
unfolding drop_claims
drop_claims-ClaimedOnce gone [] h = tt
drop_claims-ClaimedOnce gone ((o, c) ∷ claims) h = elim (text_discrete c.node_id gone) [
  | yes e ↦ rw (if_pos _ e) (drop_claims-ClaimedOnce gone claims h.1)
  | no e ↦ rw (if_neg _ e) (
    ground (arith, h.0, is_claimed-drop_claims c.node_id gone claims),
    drop_claims-ClaimedOnce gone claims h.1,
  )
]

rows_of-delete-Distinct :
    (id j : Text) {V : Type 0} (table : Map (Map V))
    → Distinct (rows_of j table)
    → Distinct (rows_of j (delete id table))
rows_of-delete-Distinct id j table d =
    rw (rows_of-delete id j table)
      (elim (text_discrete j id) [ yes e ↦ rw (if_pos _ e) tt | no e ↦ rw (if_neg _ e) d ])

-- A deleted node takes the rows that refer to it along, and no others.
pub drop_node-WellFormed : (gone : Text) (db : Db) → WellFormed db → WellFormed (drop_node gone db)
unfolding drop_node
drop_node-WellFormed gone db (d, r, c, f) = (
  (
    delete-Distinct gone db.nodes d.0,
    delete-Distinct gone db.capabilities d.1,
    delete-Distinct gone db.labels d.2,
    delete-Distinct gone db.credentials d.3,
    drop_claims-Distinct gone db.claims d.4,
  ),
  λ id. (
    rows_of-delete-Distinct gone id db.capabilities (r id).0,
    rows_of-delete-Distinct gone id db.labels (r id).1,
  ),
  drop_claims-ClaimedOnce gone db.claims c,
  λ id. elim (text_discrete id gone) [
    | yes e ↦ inr (
        rw e (
          get-delete_self gone db.capabilities,
          get-delete_self gone db.labels,
          get-delete_self gone db.credentials,
          is_claimed-drop_claims gone gone db.claims
              ∙ rw (if_pos (text_discrete gone gone) refl) refl,
        ))
    | no e ↦
        rw
          (
            get-delete_ne gone id db.nodes e,
            get-delete_ne gone id db.capabilities e,
            get-delete_ne gone id db.labels e,
            get-delete_ne gone id db.credentials e,
            is_claimed-drop_claims id gone db.claims,
          )
          (rw (if_neg (text_discrete id gone) e) (f id))
  ],
)
