-- ===== src/Registry/Order.antt =====
-- ORDER BY of the queries of console/internal/persistence/sqlc/workers.sql.go, on the rows of a table
-- that are a map: the order of TEXT is that of its bytes, which is that of its code points.
use onlyboxes_mcp.Prelude.{
  ◌≡◌, refl, ite, Bool, true, false, ◌&&◌, ◌||◌, none, some, [], ◌∷◌, arith, ltb, ◌==◌,
  if◌then◌else◌, inl, inr, Bool-cases,
}
use onlyboxes_mcp.Prelude.Text.{Text, text_discrete}
use onlyboxes_mcp.Prelude.Map.{Map, get, get-cons, Distinct}

unfoldable pub text_leb : Text → Text → Bool
text_leb [] t = true
text_leb (c ∷ s) [] = false
text_leb (c ∷ s) (d ∷ t) = ltb c d || (c == d && text_leb s t)

module _ {ℓ} {V : Type ℓ} (le : Text × V → Text × V → Bool) where
  unfoldable pub insert_row : Text × V → Map V → Map V
  insert_row r [] = r ∷ []
  insert_row r (q ∷ rows) =
      let rest = insert_row r rows in if le r q then r ∷ q ∷ rows else q ∷ rest

  unfoldable pub order_by : Map V → Map V
  unfolding insert_row
  order_by [] = []
  order_by (r ∷ rows) = insert_row r (order_by rows)

  get-insert_row :
      (k : Text) (v : V) (j : Text) (rows : Map V)
      → get k rows ≡ none
      → get j (insert_row (k, v) rows) ≡ ite (text_discrete j k) (some v) (get j rows)
  unfolding insert_row get
  get-insert_row k v j [] h = refl
  get-insert_row k v j ((i, w) ∷ rows) h = elim (Bool-cases (le (k, v) (i, w))) [
    | inl e ↦ rw e refl
    | inr e ↦ rw e (ground (arith, h, get-insert_row k v j rows))
  ]

  -- Ordering the rows of a table keeps each key's row.
  pub get-order_by : (j : Text) (rows : Map V) → Distinct rows → get j (order_by rows) ≡ get j rows
  unfolding order_by get
  get-order_by j [] d = refl
  get-order_by j ((k, v) ∷ rows) d = ground (
    arith,
    d.0,
    get-order_by k rows d.1,
    get-order_by j rows d.1,
    get-insert_row k v j (order_by rows),
  )

  insert_row-Distinct :
      (k : Text) (v : V) (rows : Map V)
      → get k rows ≡ none
      → Distinct rows
      → Distinct (insert_row (k, v) rows)
  unfolding insert_row
  insert_row-Distinct k v [] h d = (h, d)
  insert_row-Distinct k v ((i, w) ∷ rows) h d = elim (Bool-cases (le (k, v) (i, w))) [
    | inl e ↦ rw e (h, d)
    | inr e ↦ rw e (
      ground (arith, h, d.0, get-cons k i w rows, get-insert_row k v i rows),
      insert_row-Distinct k v rows (ground (arith, h, get-cons k i w rows)) d.1,
    )
  ]

  pub order_by-Distinct : (rows : Map V) → Distinct rows → Distinct (order_by rows)
  unfolding order_by
  order_by-Distinct [] d = d
  order_by-Distinct ((k, v) ∷ rows) d =
      insert_row-Distinct k v (order_by rows) (ground (arith, d.0, get-order_by k rows d.1))
        (order_by-Distinct rows d.1)
