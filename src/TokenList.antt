-- ===== src/TokenList.antt =====
-- console/internal/tokenlist/tokenlist.go: a list of tokens, trimmed, without empty ones and without
-- repetitions, in the order of their first occurrence.
pub mod Contents
mod Examples
use onlyboxes_mcp.Prelude.{
  ite, Option, none, some, List, [], ◌∷◌, ◌++◌, ℕ, if◌then◌else◌, is_empty, Bool, true, false,
  is_some, ◌||◌, ℕ_discrete,
}
use onlyboxes_mcp.Prelude.Text.{Text, text, trim_space}
use onlyboxes_mcp.Prelude.Map.{Map, get, put}

abbrev add_token : Text → Map (Unit {0}) × List Text → Map (Unit {0}) × List Text
add_token token (seen, tokens) =
    if is_empty token || is_some (get token seen)
    then (seen, tokens)
    else (put token tt seen, tokens ++ (token ∷ []))

-- The loop of Normalize, with the set and the list that it fills.
unfoldable pub normalize_loop : List Text → Map (Unit {0}) × List Text → List Text
normalize_loop [] acc = acc.1
normalize_loop (raw ∷ rest) acc = normalize_loop rest (add_token (trim_space raw) acc)

unfoldable pub normalize : List Text → List Text
unfolding normalize_loop
normalize values = normalize_loop values ([], [])

abbrev push : ℕ → List Text → List Text
push c [] = (c ∷ []) ∷ []
push c (t ∷ ts) = (c ∷ t) ∷ ts

-- strings.Split at one rune; it has at least one part.
unfoldable pub split : ℕ → Text → List Text
split sep [] = [] ∷ []
split sep (c ∷ s) = let rest = split sep s in ite (ℕ_discrete c sep) ([] ∷ rest) (push c rest)

unfoldable pub parse_comma_separated : Text → List Text
unfolding normalize split
parse_comma_separated value =
    if is_empty (trim_space value) then [] else normalize (split b',' value)
