-- ===== src/Scope/Ids.antt =====
-- The scoped ids of console/internal/grpcserver/task_owner_scope.go, as texts.
use onlyboxes_mcp.Prelude.{
  ◌≡◌, ◌≢◌, refl, sym, ap, ◌∙◌, false, ◌||◌, Option, none, some, [], ◌∷◌, ◌++◌, ℕ, arith,
  if◌then◌else◌, is_empty, ℕ_discrete, if_pos, if_neg,
}
use onlyboxes_mcp.Prelude.Text.{
  Text, text, trim_space, trim_space_idem, trim_space-append, strip_prefix, strip_prefix-append,
  is_space,
}

unfoldable pub normalize_task_owner_id : Text → Text
normalize_task_owner_id owner_id = trim_space owner_id

-- strings.Join of the prefix, the owner and the session with the separator.
abbrev pub owner_prefix : Text → Text
owner_prefix owner = text "obx:" ++ (owner ++ text ":")

unfoldable pub scope_terminal_session_id : Text → Text → Text
unfolding normalize_task_owner_id
scope_terminal_session_id owner_id external_session_id =
    let owner = normalize_task_owner_id owner_id in
    let session = trim_space external_session_id in
    if is_empty owner || is_empty session
    then session
    else text "obx:" ++ (owner ++ (text ":" ++ session))

abbrev pub external : Option Text → Option Text
external none = none
external (some rest) = if is_empty (trim_space rest) then none else some (trim_space rest)

unfoldable pub unscope_terminal_session_id : Text → Text → Option Text
unfolding normalize_task_owner_id
unscope_terminal_session_id owner_id scoped_session_id =
    let owner = normalize_task_owner_id owner_id in
    let session = trim_space scoped_session_id in
    if is_empty session
    then none
    else if is_empty owner
    then some session
    else external (strip_prefix (owner_prefix owner) session)

-- The key under which a request id is reserved while it is checked.
unfoldable pub task_request_scope_key : Text → Text → Text
unfolding normalize_task_owner_id
task_request_scope_key owner_id request_id =
    normalize_task_owner_id owner_id ++ (0 ∷ trim_space request_id)

append_assoc : (a b c : Text) → (a ++ b) ++ c ≡ a ++ (b ++ c)
append_assoc [] b c = refl
append_assoc (x ∷ a) b c = ap (◌∷◌ x) (append_assoc a b c)

append-is_empty : (a b : Text) (c : ℕ) → is_empty (a ++ c ∷ b) ≡ false
append-is_empty [] b c = refl
append-is_empty (x ∷ a) b c = refl

scoped_trimmed :
    (owner session : Text)
    → trim_space session ≡ session
    → is_empty session ≡ false
    → trim_space (text "obx:" ++ (owner ++ (text ":" ++ session)))
      ≡ text "obx:" ++ (owner ++ (text ":" ++ session))
scoped_trimmed owner session h e =
    let p : Text = text "bx:" ++ (owner ++ text ":") in
    let shape : (p ++ session) ≡ (text "bx:" ++ (owner ++ (text ":" ++ session))) =
      ap (λ t. text "bx:" ++ t) (append_assoc owner (text ":") session) in
    rw (← shape) (trim_space-append b'o' p session (unfold is_space in refl) h e)

-- What a task's owner scoped comes back as it was given, trimmed.
pub unscope-scope :
    (owner session : Text)
    → is_empty (trim_space owner) ≡ false
    → is_empty (trim_space session) ≡ false
    → unscope_terminal_session_id owner (scope_terminal_session_id owner session)
      ≡ some (trim_space session)
unfolding unscope_terminal_session_id scope_terminal_session_id
unscope-scope owner session ho hs =
    let o = trim_space owner in
    let s = trim_space session in
    let shape : (owner_prefix o ++ s) ≡ (text "obx:" ++ (o ++ (text ":" ++ s))) =
      ap (λ t. text "obx:" ++ t) (append_assoc o (text ":") s) in
    rw (ho, hs)
      (rw (scoped_trimmed o s (trim_space_idem session) hs) (
        rw (← shape)
          (rw (strip_prefix-append (owner_prefix o) s, trim_space_idem session, hs) refl)))

-- No separator stands in the owner.
abbrev pub HasNo : ℕ → Text → Type 0
HasNo c [] = Unit {0}
HasNo c (d ∷ s) = (d ≢ c) × HasNo c s

strip_prefix_apart :
    (c : ℕ) (a b s : Text)
    → HasNo c a
    → HasNo c b
    → a ≢ b
    → strip_prefix (a ++ c ∷ []) (b ++ c ∷ s) ≡ none
unfolding strip_prefix
strip_prefix_apart c [] [] s ha hb ne = absurd (ne refl)
strip_prefix_apart c [] (d ∷ b) s ha hb ne = ground (arith, hb.0)
strip_prefix_apart c (d ∷ a) [] s ha hb ne = ground (arith, ha.0)
strip_prefix_apart c (d ∷ a) (e ∷ b) s ha hb ne = elim (ℕ_discrete d e) [
  | yes p ↦ rw (if_pos _ p) (strip_prefix_apart c a b s ha.1 hb.1 (λ q. ne (cc)))
  | no np ↦ rw (if_neg _ np) refl
]

strip_under_obx :
    (p t : Text) → strip_prefix (text "obx:" ++ p) (text "obx:" ++ t) ≡ strip_prefix p t
unfolding strip_prefix ℕ_discrete
strip_under_obx p t = refl

split_at_zero :
    (a b r q : Text) → HasNo 0 a → HasNo 0 b → (a ++ 0 ∷ r) ≡ (b ++ 0 ∷ q) → (a ≡ b) × (r ≡ q)
split_at_zero [] [] r q ha hb e = (refl, cc)
split_at_zero [] (d ∷ b) r q ha hb e = absurd (hb.0 (cc))
split_at_zero (d ∷ a) [] r q ha hb e = absurd (ha.0 (cc))
split_at_zero (d ∷ a) (f ∷ b) r q ha hb e =
    let rest = split_at_zero a b r q ha.1 hb.1 (cc) in (cc rest.0, rest.1)

-- A scoped id of one owner is not accepted as another owner's, if the separator stands in neither
-- owner.
pub unscope-scope_ne :
    (owner other session : Text)
    → is_empty (trim_space owner) ≡ false
    → is_empty (trim_space other) ≡ false
    → is_empty (trim_space session) ≡ false
    → HasNo b':' (trim_space owner)
    → HasNo b':' (trim_space other)
    → trim_space owner ≢ trim_space other
    → unscope_terminal_session_id other (scope_terminal_session_id owner session) ≡ none
unfolding unscope_terminal_session_id scope_terminal_session_id
unscope-scope_ne owner other session ho hp hs a b ne =
    let o = trim_space owner in
    let s = trim_space session in
    let apart = strip_prefix_apart b':' (trim_space other) o s b a (λ e. ne (sym e)) in
    rw (ho, hs)
      (rw (scoped_trimmed o s (trim_space_idem session) hs) (
        rw hp (
          unfold strip_prefix in
          ap external
            (strip_under_obx (trim_space other ++ text ":") (o ++ (text ":" ++ s)) ∙ apart))))

-- Two requests have the same key only if they have the same owner and the same request id.
pub task_request_scope_key-injective :
    (owner other request request' : Text)
    → HasNo 0 (trim_space owner)
    → HasNo 0 (trim_space other)
    → task_request_scope_key owner request ≡ task_request_scope_key other request'
    → (trim_space owner ≡ trim_space other) × (trim_space request ≡ trim_space request')
unfolding task_request_scope_key
task_request_scope_key-injective owner other request request' a b e =
    split_at_zero (trim_space owner) (trim_space other) (trim_space request) (trim_space request') a
      b e

-- Where the separator may stand in an owner, scoped ids of two owners can be the same text.
pub scope_collision :
    (a b c : Text)
    → trim_space (a ++ 58 ∷ b) ≡ a ++ 58 ∷ b
    → trim_space a ≡ a
    → trim_space c ≡ c
    → trim_space (b ++ 58 ∷ c) ≡ b ++ 58 ∷ c
    → is_empty a ≡ false
    → is_empty c ≡ false
    → scope_terminal_session_id (a ++ 58 ∷ b) c ≡ scope_terminal_session_id a (b ++ 58 ∷ c)
unfolding scope_terminal_session_id
scope_collision a b c hab ha hc hbc ea ec =
    rw (hab, ha, hc, hbc)
      (rw (append-is_empty a b 58, append-is_empty b c 58, ea, ec)
        (ap (λ t. text "obx:" ++ t) (append_assoc a (58 ∷ b) (58 ∷ c))))
