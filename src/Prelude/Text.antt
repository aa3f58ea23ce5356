-- ===== src/Prelude/Text.antt =====
-- Go strings as lists of code points, with what the code uses of package strings.
use Prim.Native.Nat.{ℕ, ◌+◌}
use Prim.Native.Char.{code}
use Prim.Native.String.{String}
use mathlib.Core.Path.{◌≡◌, refl, ap, sym, ◌≡⟨◌⟩◌, ◌∎}
use mathlib.Core.Logic.{inl, inr, ite}
use mathlib.Core.Bool.{Bool, false, not, ◌&&◌, ◌||◌}
use mathlib.Core.List.{List, [], ◌∷◌, ◌++◌, map}
use mathlib.Core.Option.{Option, none, some}
use native.Mathlib.Omega.{arith}
use native.Mathlib.Decide.{ℕ_discrete}
use onlyboxes_mcp.Prelude.Tests.{ltb, leb, ◌==◌, if◌then◌else◌, Bool-cases, is_empty}

abbrev pub Text : Type 0
Text = List ℕ

abbrev pub text : String → Text
text String.[] = []
text (String.◌∷◌ c s) = code c ∷ text s

-- Go's `==` on strings.
unfoldable pub text_discrete : Discrete Text
unfolding ℕ_discrete
text_discrete = hlevel ℕ_discrete

-- unicode.IsSpace
unfoldable pub is_space : ℕ → Bool
is_space c =
    (leb 9 c && leb c 13)
    || c == 32
    || c == 0x85
    || c == 0xa0
    || c == 0x1680
    || (leb 0x2000 c && leb c 0x200a)
    || c == 0x2028
    || c == 0x2029
    || c == 0x202f
    || c == 0x205f
    || c == 0x3000

-- strings.TrimSpace
unfoldable pub trim_left : Text → Text
unfolding is_space
trim_left [] = []
trim_left (c ∷ s) = if is_space c then trim_left s else c ∷ s

abbrev cons_trimmed : ℕ → Text → Text
cons_trimmed c [] = if is_space c then [] else c ∷ []
cons_trimmed c (d ∷ s) = c ∷ d ∷ s

unfoldable pub trim_right : Text → Text
unfolding is_space
trim_right [] = []
trim_right (c ∷ s) = cons_trimmed c (trim_right s)

unfoldable pub trim_space : Text → Text
unfolding trim_left trim_right
trim_space s = trim_right (trim_left s)

cons_trimmed_idem :
    (c : ℕ) (s : Text) → trim_right s ≡ s → trim_right (cons_trimmed c s) ≡ cons_trimmed c s
unfolding trim_right
cons_trimmed_idem c [] h = ground arith
cons_trimmed_idem c (d ∷ s) h = rw (h, trim_right) refl

trim_right_idem : (s : Text) → trim_right (trim_right s) ≡ trim_right s
unfolding trim_right
trim_right_idem [] = refl
trim_right_idem (c ∷ s) = cons_trimmed_idem c (trim_right s) (trim_right_idem s)

-- A text that starts with no space.
abbrev StartsClean : Text → Type 0
StartsClean [] = Unit {0}
StartsClean (c ∷ s) = is_space c ≡ false

trim_left-StartsClean : (s : Text) → StartsClean (trim_left s)
unfolding trim_left
trim_left-StartsClean [] = tt
trim_left-StartsClean (c ∷ s) = elim (Bool-cases (is_space c)) [
  | inl e ↦ rw (e) (trim_left-StartsClean s)
  | inr e ↦ rw (e) e
]

trim_right-StartsClean : (s : Text) → StartsClean s → StartsClean (trim_right s)
unfolding trim_right
trim_right-StartsClean [] h = tt
trim_right-StartsClean (c ∷ s) h = go (trim_right s)
  where
    go : (r : Text) → StartsClean (cons_trimmed c r)
    go [] = rw h h
    go (d ∷ r) = h

trim_left_of_StartsClean : (s : Text) → StartsClean s → trim_left s ≡ s
unfolding trim_left
trim_left_of_StartsClean [] h = refl
trim_left_of_StartsClean (c ∷ s) h = rw h

pub trim_space_idem : (s : Text) → trim_space (trim_space s) ≡ trim_space s
unfolding trim_space
trim_space_idem s =
    rw
      (trim_left_of_StartsClean (trim_right (trim_left s))
        (trim_right-StartsClean (trim_left s) (trim_left-StartsClean s)))
      (trim_right_idem (trim_left s))

trimmed_right : (s : Text) → trim_space s ≡ s → trim_right s ≡ s
unfolding trim_space
trimmed_right s h =
    trim_right s
    ≡⟨ ap trim_right (sym h) ⟩ trim_right (trim_right (trim_left s))
    ≡⟨ trim_right_idem (trim_left s) ⟩ trim_right (trim_left s)
    ≡⟨ h ⟩ s ∎

trim_right-append :
    (p : Text) (c : ℕ) (t : Text)
    → trim_right (c ∷ t) ≡ c ∷ t
    → trim_right (p ++ c ∷ t) ≡ p ++ c ∷ t
unfolding trim_right
trim_right-append [] c t h = h
trim_right-append (d ∷ []) c t h = rw (h) refl
trim_right-append (d ∷ e ∷ p) c t h = ap (cons_trimmed d) (trim_right-append (e ∷ p) c t h)

-- A text that starts with a prefix without space at its front, and goes on with a trimmed text.
pub trim_space-append :
    (c : ℕ) (p t : Text)
    → is_space c ≡ false
    → trim_space t ≡ t
    → is_empty t ≡ false
    → trim_space (c ∷ p ++ t) ≡ c ∷ p ++ t
unfolding trim_space trim_left
trim_space-append c p [] hc h e = cc
trim_space-append c p (d ∷ t) hc h e =
    rw (hc) (trim_right-append (c ∷ p) d t (trimmed_right (d ∷ t) h))

-- unicode.ToLower on the letters of ASCII, Latin-1, Greek and Cyrillic.
lower_rune : ℕ → ℕ
lower_rune c =
    if (leb b'A' c && leb c b'Z')
      || (leb 0xc0 c && leb c 0xde && not (c == 0xd7))
      || (leb 0x391 c && leb c 0x3ab && not (c == 0x3a2))
      || (leb 0x410 c && leb c 0x42f)
    then c + 32
    else c

-- strings.ToLower
unfoldable pub to_lower : Text → Text
unfolding lower_rune
to_lower s = map lower_rune s

lower_rune_idem : (c : ℕ) → lower_rune (lower_rune c) ≡ lower_rune c
unfolding lower_rune
lower_rune_idem c = ground arith

is_space-lower_rune : (c : ℕ) → is_space (lower_rune c) ≡ is_space c
unfolding lower_rune is_space
is_space-lower_rune c = ground arith

to_lower_idem : (s : Text) → to_lower (to_lower s) ≡ to_lower s
unfolding to_lower
to_lower_idem [] = refl
to_lower_idem (c ∷ s) = cc (lower_rune_idem c, to_lower_idem s)

trim_left-to_lower : (s : Text) → trim_left (to_lower s) ≡ to_lower (trim_left s)
unfolding trim_left to_lower
trim_left-to_lower [] = refl
trim_left-to_lower (c ∷ s) = ground (arith, is_space-lower_rune c, trim_left-to_lower s)

trim_right-to_lower : (s : Text) → trim_right (to_lower s) ≡ to_lower (trim_right s)
unfolding trim_right to_lower
trim_right-to_lower [] = refl
trim_right-to_lower (c ∷ s) = ground (arith, is_space-lower_rune c, trim_right-to_lower s)

pub trim_space-to_lower_idem :
    (s : Text) → trim_space (to_lower (trim_space (to_lower s))) ≡ trim_space (to_lower s)
unfolding trim_space
trim_space-to_lower_idem s =
    rw
      (
        ← trim_right-to_lower (trim_left (to_lower s)),
        ← trim_left-to_lower (to_lower s),
        to_lower_idem s,
      )
      (trim_space_idem (to_lower s))

-- strings.TrimPrefix, with strings.HasPrefix as whether there is a result.
unfoldable pub strip_prefix : Text → Text → Option Text
strip_prefix [] s = some s
strip_prefix (c ∷ p) [] = none
strip_prefix (c ∷ p) (d ∷ s) = ite (ℕ_discrete c d) (strip_prefix p s) none

pub strip_prefix-append : (p s : Text) → strip_prefix p (p ++ s) ≡ some s
unfolding strip_prefix
strip_prefix-append [] s = refl
strip_prefix-append (c ∷ p) s = ground (arith, strip_prefix-append p s)

-- `len` of a Go string: the bytes of its UTF-8.
unfoldable pub byte_len : Text → ℕ
byte_len [] = 0
byte_len (c ∷ s) =
    (if ltb c 0x80 then 1 else if ltb c 0x800 then 2 else if ltb c 0x10000 then 3 else 4)
    + byte_len s

trimmed : trim_space (text "  a b ") ≡ text "a b"
unfolding trim_space
trimmed = refl

distinct : ite {C = ℕ} (text_discrete (text "ab") (text "ac")) 1 2 ≡ 2
unfolding text_discrete
distinct = refl
