-- ===== src/TokenList/Examples.antt =====
-- The theorems about token lists at concrete inputs.
use onlyboxes_mcp.Prelude.{◌≡◌, refl, List, [], ◌∷◌, not, ◌&&◌, is_empty, map, ℕ_discrete}
use onlyboxes_mcp.Prelude.Text.{Text, text, trim_space, text_discrete}
use onlyboxes_mcp.Prelude.Map.{get, put, delete}
use onlyboxes_mcp.TokenList.Contents.{contains, IsDistinct, IsClean, normalize_contents}
use onlyboxes_mcp.TokenList.{normalize, parse_comma_separated}

abbrev raw_tokens : List Text
raw_tokens = text " b " ∷ text "a" ∷ text "b" ∷ text "  " ∷ []

normalize_contents_example :
    ((t : Text)
      → contains t (normalize raw_tokens)
        ≡ (not (is_empty t) && contains t (map trim_space raw_tokens)))
    × IsDistinct (normalize raw_tokens)
    × IsClean (normalize raw_tokens)
normalize_contents_example = normalize_contents raw_tokens

parsed : parse_comma_separated (text "b ,a,, b") ≡ text "b" ∷ text "a" ∷ []
unfolding parse_comma_separated trim_space text_discrete get put delete ℕ_discrete
parsed = refl
