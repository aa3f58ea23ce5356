-- ===== src/Prelude/Map.antt =====
-- A Go map with string keys, as an association list whose keys are distinct. The order of the
-- entries stands for the order in which the runtime happens to range over the map.
use mathlib.Core.Path.{◌≡◌, refl}
use mathlib.Core.Logic.{◌≢◌, ite}
use mathlib.Core.Option.{Option, none, some}
use mathlib.Core.List.{List, [], ◌∷◌}
use native.Mathlib.Omega.{arith}
use onlyboxes_mcp.Prelude.Text.{Text, text_discrete}

abbrev pub Map {ℓ} : Type ℓ → Type ℓ
Map V = List (Text × V)

module _ {ℓ} {V : Type ℓ} where
  -- v, ok := m[k]
  unfoldable pub get : Text → Map V → Option V
  get k [] = none
  get k ((j, v) ∷ m) = ite (text_discrete k j) (some v) (get k m)

  -- delete(m, k)
  unfoldable pub delete : Text → Map V → Map V
  delete k [] = []
  delete k ((j, v) ∷ m) = let rest = delete k m in ite (text_discrete k j) rest ((j, v) ∷ rest)

  -- m[k] = v
  unfoldable pub put : Text → V → Map V → Map V
  unfolding delete
  put k v m = (k, v) ∷ delete k m

  pub get-nil : (k : Text) → get k [] ≡ none
  unfolding get
  get-nil k = refl

  pub get-cons :
      (k j : Text) (v : V) (m : Map V)
      → get k ((j, v) ∷ m) ≡ ite (text_discrete k j) (some v) (get k m)
  unfolding get
  get-cons k j v m = refl

  pub get-delete :
      (k j : Text) (m : Map V) → get j (delete k m) ≡ ite (text_discrete j k) none (get j m)
  unfolding get delete
  get-delete k j [] = ground arith
  get-delete k j ((i, v) ∷ m) = ground (arith, get-delete k j m)

  pub get-put :
      (k j : Text) (v : V) (m : Map V)
      → get j (put k v m) ≡ ite (text_discrete j k) (some v) (get j m)
  unfolding get put
  get-put k j v m = ground (arith, get-delete k j m)

  pub get-delete_self : (k : Text) (m : Map V) → get k (delete k m) ≡ none
  get-delete_self k m = ground (arith, get-delete k k m)

  pub get-delete_ne : (k j : Text) (m : Map V) → j ≢ k → get j (delete k m) ≡ get j m
  get-delete_ne k j m h = ground (arith, get-delete k j m)

  pub get-put_self : (k : Text) (v : V) (m : Map V) → get k (put k v m) ≡ some v
  get-put_self k v m = ground (arith, get-put k k v m)

  pub get-put_ne : (k j : Text) (v : V) (m : Map V) → j ≢ k → get j (put k v m) ≡ get j m
  get-put_ne k j v m h = ground (arith, get-put k j v m)

  -- The keys are distinct.
  abbrev pub Distinct : Map V → Type ℓ
  Distinct [] = Unit
  Distinct ((k, v) ∷ m) = (get k m ≡ none) × Distinct m

  pub delete-Distinct : (k : Text) (m : Map V) → Distinct m → Distinct (delete k m)
  unfolding delete
  delete-Distinct k [] d = d
  delete-Distinct k ((j, v) ∷ m) d = ground (arith, delete-Distinct k m d.1, get-delete k j m)

  pub put-Distinct : (k : Text) (v : V) (m : Map V) → Distinct m → Distinct (put k v m)
  unfolding put
  put-Distinct k v m d = (get-delete_self k m, delete-Distinct k m d)

pub ruleset map_laws = (get-delete, get-put)
