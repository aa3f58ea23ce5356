-- ===== src/TokenList/Contents.antt =====
-- What is in a normalised token list of console/internal/tokenlist.
use mathlib.Core.List.{append-nil, append_assoc}
use onlyboxes_mcp.Prelude.{
  ◌≡◌, refl, sym, ap, ◌∙◌, ite, List, [], ◌∷◌, ◌++◌, is_empty, Bool, true, false, is_some, ◌||◌,
  ◌&&◌, not, map, arith, Bool-cases, inl, inr,
}
use onlyboxes_mcp.Prelude.Text.{Text, text_discrete, trim_space, trim_space_idem}
use onlyboxes_mcp.Prelude.Map.{Map, get, get-nil, get-put}
use onlyboxes_mcp.TokenList.{normalize, normalize_loop, add_token}

abbrev pub contains : Text → List Text → Bool
contains t [] = false
contains t (x ∷ xs) = ite (text_discrete t x) true (contains t xs)

-- No token occurs twice.
abbrev pub IsDistinct : List Text → Type 0
IsDistinct [] = Unit {0}
IsDistinct (x ∷ xs) = (contains x xs ≡ false) × IsDistinct xs

-- Every token is trimmed and not empty.
abbrev pub IsClean : List Text → Type 0
IsClean [] = Unit {0}
IsClean (x ∷ xs) = (trim_space x ≡ x) × (is_empty x ≡ false) × IsClean xs

contains-append :
    (t x : Text) (xs : List Text)
    → contains t (xs ++ x ∷ []) ≡ ite (text_discrete t x) true (contains t xs)
contains-append t x [] = refl
contains-append t x (y ∷ ys) = ground (arith, contains-append t x ys)

IsDistinct-append :
    (x : Text) (xs : List Text) → contains x xs ≡ false → IsDistinct xs → IsDistinct (xs ++ x ∷ [])
IsDistinct-append x [] h d = (refl, tt)
IsDistinct-append x (y ∷ ys) h d =
    ground (arith, contains-append y x ys, IsDistinct-append x ys, d.0)

IsClean-append :
    (x : Text) (xs : List Text)
    → trim_space x ≡ x
    → is_empty x ≡ false
    → IsClean xs
    → IsClean (xs ++ x ∷ [])
IsClean-append x [] h e c = (h, e, tt)
IsClean-append x (y ∷ ys) h e c = (c.0, c.1, IsClean-append x ys h e c.2)

-- The set holds what the list does.
record Seen (acc : Map (Unit {0}) × List Text) : Type 0 where
  same : (t : Text) → is_some (get t acc.0) ≡ contains t acc.1
  distinct : IsDistinct acc.1
  clean : IsClean acc.1

add_token-Seen :
    (raw : Text) (acc : Map (Unit {0}) × List Text)
    → Seen acc
    → Seen (add_token (trim_space raw) acc)
add_token-Seen raw acc v =
    elim (Bool-cases (is_empty (trim_space raw) || is_some (get (trim_space raw) acc.0))) [
      | inl e ↦ rw e v
      | inr e ↦ rw e (record {
        same = λ t. ground (
          arith,
          v.same t,
          get-put (trim_space raw) t tt acc.0,
          contains-append t (trim_space raw) acc.1,
        );
        distinct =
            IsDistinct-append (trim_space raw) acc.1 (ground (arith, e, v.same (trim_space raw)))
              v.distinct;
        clean =
            IsClean-append (trim_space raw) acc.1 (trim_space_idem raw) (ground (arith, e)) v.clean;
      })
    ]

contains-add_token :
    (t raw : Text) (acc : Map (Unit {0}) × List Text)
    → Seen acc
    → contains t (add_token (trim_space raw) acc).1 ≡ (
        contains t acc.1 || (not (is_empty t) && ite (text_discrete t (trim_space raw)) true false))
contains-add_token t raw acc v =
    ground (arith, v.same (trim_space raw), v.same t, contains-append t (trim_space raw) acc.1)

normalize_loop-Seen :
    (values : List Text) (acc : Map (Unit {0}) × List Text)
    → Seen acc
    → IsDistinct (normalize_loop values acc) × IsClean (normalize_loop values acc)
unfolding normalize_loop
normalize_loop-Seen [] acc v = (v.distinct, v.clean)
normalize_loop-Seen (raw ∷ rest) acc v =
    normalize_loop-Seen rest (add_token (trim_space raw) acc) (add_token-Seen raw acc v)

contains-normalize_loop :
    (t : Text) (values : List Text) (acc : Map (Unit {0}) × List Text)
    → Seen acc
    → contains t (normalize_loop values acc)
      ≡ (contains t acc.1 || (not (is_empty t) && contains t (map trim_space values)))
unfolding normalize_loop
contains-normalize_loop t [] acc v = ground arith
contains-normalize_loop t (raw ∷ rest) acc v = ground (
  arith,
  contains-add_token t raw acc v,
  contains-normalize_loop t rest (add_token (trim_space raw) acc) (add_token-Seen raw acc v),
)

start-Seen : Seen ([], [])
start-Seen = record { same = λ t. rw (get-nil {V = Unit {0}} t) refl; distinct = tt; clean = tt }

-- A normalised list holds exactly the non-empty trimmed values of the input, each once, and all of
-- its tokens are trimmed and not empty.
pub normalize_contents :
    (values : List Text)
    → ((t : Text)
        → contains t (normalize values) ≡ (not (is_empty t) && contains t (map trim_space values)))
      × IsDistinct (normalize values)
      × IsClean (normalize values)
unfolding normalize
normalize_contents values = (
  (λ t. contains-normalize_loop t values ([], []) start-Seen),
  (normalize_loop-Seen values ([], []) start-Seen).0,
  (normalize_loop-Seen values ([], []) start-Seen).1,
)

-- None of the tokens is in the list.
abbrev Apart : List Text → List Text → Type 0
Apart [] ts = Unit {0}
Apart (x ∷ xs) ts = (contains x ts ≡ false) × Apart xs ts

Apart-append :
    (x : Text) (xs ts : List Text) → contains x xs ≡ false → Apart xs ts → Apart xs (ts ++ x ∷ [])
Apart-append x [] ts h a = tt
Apart-append x (y ∷ ys) ts h a =
    ground (arith, contains-append y x ts, Apart-append x ys ts, h, a.0)

add_new :
    (x : Text) (acc : Map (Unit {0}) × List Text)
    → Seen acc
    → trim_space x ≡ x
    → is_empty x ≡ false
    → contains x acc.1 ≡ false
    → (add_token (trim_space x) acc).1 ≡ acc.1 ++ x ∷ []
add_new x acc v h e n = ground (arith, h, e, n, v.same x)

loop_keeps :
    (xs : List Text) (acc : Map (Unit {0}) × List Text)
    → Seen acc
    → IsDistinct xs
    → IsClean xs
    → Apart xs acc.1
    → normalize_loop xs acc ≡ acc.1 ++ xs
unfolding normalize_loop
loop_keeps [] acc v d c a = sym (append-nil acc.1)
loop_keeps (x ∷ xs) acc v d c a =
    let new = add_new x acc v c.0 c.1 a.0 in
    loop_keeps xs (add_token (trim_space x) acc) (add_token-Seen x acc v) d.1 c.2
      (rw (new) (Apart-append x xs acc.1 d.0 a.1))
    ∙ ap (λ l. l ++ xs) new
    ∙ append_assoc acc.1 (x ∷ []) xs

Apart-nil : (xs : List Text) → Apart xs []
Apart-nil [] = tt
Apart-nil (x ∷ xs) = (refl, Apart-nil xs)

-- Normalising a normalised list changes nothing, its order included.
pub normalize_idem : (values : List Text) → normalize (normalize values) ≡ normalize values
unfolding normalize
normalize_idem values =
    let seen = normalize_loop-Seen values ([], []) start-Seen in
    loop_keeps (normalize_loop values ([], [])) ([], []) start-Seen seen.0 seen.1
      (Apart-nil (normalize_loop values ([], [])))
