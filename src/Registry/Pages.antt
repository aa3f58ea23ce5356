-- ===== src/Registry/Pages.antt =====
-- The pages of ListScoped in console/internal/registry/store_query.go.
use onlyboxes_mcp.Prelude.{
  leb-true, ltb-true, leb-le, ℕ, zero, suc, ◌+◌, ◌-◌, ◌*◌, ◌%◌, ◌^◌, ◌<◌, ◌≤◌, ◌≡◌, refl, ap, sym,
  List, [], ◌∷◌, ◌++◌, arith, leb, length, take, drop, inl, inr, Bool-cases,
}
use native.Mathlib.Nat.{suc-add, suc-mul}
use native.Mathlib.Numerals.{unary_clauses}
use onlyboxes_mcp.Registry.Query.{WorkerView, Page, page, panic, page_of, slice, or_one, or_twenty}

zero_plus : (m : ℕ) → 0 + m ≡ m
zero_plus m = omega arith

module _ {ℓ} {A : Type ℓ} where
  take-all : (n : ℕ) (xs : List A) → length xs ≤ n → take n xs ≡ xs
  take-all zero [] h = refl
  take-all zero (x ∷ xs) h = ground (arith, h)
  take-all (suc n) [] h = refl
  take-all (suc n) (x ∷ xs) h = ap (◌∷◌ x) (take-all n xs (omega (arith, h)))

  drop-all : (n : ℕ) (xs : List A) → length xs ≤ n → drop n xs ≡ []
  drop-all zero [] h = refl
  drop-all zero (x ∷ xs) h = ground (arith, h)
  drop-all (suc n) [] h = refl
  drop-all (suc n) (x ∷ xs) h = drop-all n xs (omega (arith, h))

  length-drop : (n : ℕ) (xs : List A) → length (drop n xs) ≡ length xs - n
  length-drop zero xs = omega arith
  length-drop (suc n) [] = omega arith
  length-drop (suc n) (x ∷ xs) = omega (arith, length-drop n xs)

  take-take-drop : (n m : ℕ) (xs : List A) → take n xs ++ take m (drop n xs) ≡ take (n + m) xs
  take-take-drop zero m xs = rw (zero_plus m) refl
  take-take-drop (suc n) zero [] = simp unary_clauses refl
  take-take-drop (suc n) (suc m) [] = simp unary_clauses refl
  take-take-drop (suc n) m (x ∷ xs) = rw (suc-add n m) (ap (◌∷◌ x) (take-take-drop n m xs))

take-nil : (n : ℕ) → take {A = WorkerView} n [] ≡ []
take-nil zero = refl
take-nil (suc n) = refl

back : (a b : ℕ) → a + b - a ≡ b
back a b = omega arith

or_twenty_lem : (size : ℕ) → 0 < size → or_twenty size ≡ size
or_twenty_lem size h = ground arith

small : (n : ℕ) → n < 2 ^ 63 → n % 2 ^ 64 ≡ n
small n h = omega (arith, h)

start_lem :
    (k size : ℕ)
    → 0 < size
    → k * size < 2 ^ 63
    → (or_one (suc k) - 1) * or_twenty size % 2 ^ 64 ≡ k * size
start_lem k size p h = rw (or_twenty_lem size p, or_one_lem k) (small (k * size) h)
  where
    or_one_lem : (k : ℕ) → or_one (suc k) - 1 ≡ k
    or_one_lem k = ground arith

slice_lem :
    (start size : ℕ) (filtered : List WorkerView)
    → start + size < 2 ^ 63
    → slice start (start + size) filtered ≡ page (take size (drop start filtered)) (length filtered)
slice_lem start size filtered h =
    rw (ltb-true (start + size) (2 ^ 63) h)
      (elim (Bool-cases (leb (length filtered) (start + size))) [
        | inl e ↦ rw e (
            ap (λ l. page l (length filtered))
              (sym (
                take-all size (drop start filtered) (
                  omega (
                    arith,
                    leb-le (length filtered) (start + size) e,
                    length-drop start filtered,
                  )))))
        | inr e ↦ rw e (rw (leb-true start (start + size) (omega arith), back start size) refl)
      ])

-- A page, by its number, when it ends below 2 ^ 63: so many workers from so many on, and how many
-- there are.
page_of_lem :
    (k size : ℕ) (filtered : List WorkerView)
    → 0 < size
    → k * size + size < 2 ^ 63
    → page_of (suc k) size filtered ≡ page (take size (drop (k * size) filtered)) (length filtered)
unfolding page_of
page_of_lem k size filtered p h =
    rw
      (
        start_lem k size p (omega (arith, h)),
        or_twenty_lem size p,
        ltb-true (k * size) (2 ^ 63) (omega (arith, h)),
        small (k * size + size) h,
      )
      (elim (Bool-cases (leb (length filtered) (k * size))) [
        | inl e ↦ rw e (
            rw (drop-all (k * size) filtered (leb-le (length filtered) (k * size) e), take-nil size)
              refl)
        | inr e ↦ rw e (slice_lem (k * size) size filtered h)
      ])

suc_times : (k size : ℕ) → suc k * size ≡ k * size + size
suc_times k size = suc-mul k size

zero_times : (size : ℕ) → 0 * size ≡ 0
zero_times size = omega arith

more : (k size : ℕ) → suc k * size < 2 ^ 63 → k * size + size < 2 ^ 63
more k size h = rw (← suc_times k size) h

less : (k size : ℕ) → suc k * size < 2 ^ 63 → k * size < 2 ^ 63
less k size h = omega (arith, more k size h)

abbrev pub entries : Page → List WorkerView
entries (page views total) = views
entries panic = []

-- The first pages, one after the other.
abbrev pub pages : ℕ → ℕ → List WorkerView → List WorkerView
pages zero size filtered = []
pages (suc k) size filtered = pages k size filtered ++ entries (page_of (suc k) size filtered)

-- The first pages together are the beginning of the list of workers, each worker once and in order, as
-- many as the pages hold; so that all of them are there once the pages reach the end. The size of a
-- page is positive, and the last page ends below 2 ^ 63.
pub pages_lem :
    (k size : ℕ) (filtered : List WorkerView)
    → 0 < size
    → k * size < 2 ^ 63
    → pages k size filtered ≡ take (k * size) filtered
pages_lem zero size filtered p h = rw (zero_times size) refl
pages_lem (suc k) size filtered p h =
    rw
      (
        pages_lem k size filtered p (less k size h),
        page_of_lem k size filtered p (more k size h),
        take-take-drop (k * size) size filtered,
        suc_times k size,
      )
      refl
