-- ===== src/Routes/Loops.antt =====
-- The two loops of terminal_session_routes.go: over the sessions that a node's set lists, and over
-- all the routes when the old ones are pruned.
use onlyboxes_mcp.Prelude.{
  ℕ, ◌+◌, ◌≡◌, refl, ite, Option, none, some, [], ◌∷◌, arith, if◌then◌else◌, Bool-cases, inl, inr,
  ltb, if_pos, if_neg,
}
use onlyboxes_mcp.Prelude.Text.{Text, text_discrete}
use onlyboxes_mcp.Prelude.Map.{
  Map, get-nil, get-cons, get, delete, get-delete, delete-Distinct, Distinct,
}
use onlyboxes_mcp.Routes.Invariant.{Inv, remove-Inv}
use onlyboxes_mcp.Routes.{
  Route, Routes, clear_one, clear_listed, prune_one, prune_entries, remove_route,
}

-- A route, unless it leads to the node.
abbrev pub unless_node : Text → Option Route → Option Route
unless_node node none = none
unless_node node (some r) = ite (text_discrete r.node_id node) none (some r)

abbrev pub unless_listed : Text → Option (Unit {0}) → Option Route → Option Route
unless_listed node none o = o
unless_listed node (some _) o = unless_node node o

clear_one_found :
    (node s t : Text) (m : Map Route) (o : Option Route)
    → get s m ≡ o
    → get t (clear_one node s o m) ≡ ite (text_discrete t s) (unless_node node (get t m)) (get t m)
unfolding clear_one
clear_one_found node s t m none e = ground arith
clear_one_found node s t m (some r) e = ground (arith, get-delete s t m)

pub get-clear_listed :
    (node t : Text) (sessions : Map (Unit {0})) (m : Map Route)
    → get t (clear_listed node sessions m) ≡ unless_listed node (get t sessions) (get t m)
unfolding clear_listed
get-clear_listed node t [] m = rw get-nil refl
get-clear_listed node t ((s, u) ∷ rest) m = ground (
  arith,
  get-cons t s u rest,
  get-clear_listed node t rest (clear_one node s (get s m) m),
  clear_one_found node s t m (get s m) refl,
)

clear_one-Distinct :
    (node s : Text) (o : Option Route) (m : Map Route)
    → Distinct m
    → Distinct (clear_one node s o m)
unfolding clear_one
clear_one-Distinct node s none m d = d
clear_one-Distinct node s (some r) m d = elim (text_discrete r.node_id node) [
  | yes p ↦ rw (if_pos _ p) (delete-Distinct s m d)
  | no p ↦ rw (if_neg _ p) d
]

pub clear_listed-Distinct :
    (node : Text) (sessions : Map (Unit {0})) (m : Map Route)
    → Distinct m
    → Distinct (clear_listed node sessions m)
unfolding clear_listed
clear_listed-Distinct node [] m d = d
clear_listed-Distinct node ((s, u) ∷ rest) m d =
    clear_listed-Distinct node rest _ (clear_one-Distinct node s (get s m) m d)

-- A route that was used less than the time to live ago.
abbrev pub if_live : ℕ → ℕ → Option Route → Option Route
if_live now ttl_ms none = none
if_live now ttl_ms (some r) = if ltb now (r.last_used + ttl_ms) then some r else none

abbrev pub count_expired : ℕ → ℕ → Map Route → ℕ
count_expired now ttl_ms [] = 0
count_expired now ttl_ms ((s, r) ∷ rest) =
    (if ltb now (r.last_used + ttl_ms) then 0 else 1) + count_expired now ttl_ms rest

-- The entries still to visit are in the map.
abbrev pub Pending : Map Route → Map Route → Type 0
Pending es m = (s : Text) (r : Route) → get s es ≡ some r → get s m ≡ some r

Pending-head :
    (s : Text) (r : Route) (es m : Map Route) → Pending ((s, r) ∷ es) m → get s m ≡ some r
unfolding get
Pending-head s r es m h = h s r (ground arith)

Pending-tail :
    (s : Text) (r : Route) (es m : Map Route)
    → get s es ≡ none
    → Pending ((s, r) ∷ es) m
    → Pending es m
unfolding get
Pending-tail s r es m d h t q e = h t q (ground arith)

Pending-delete :
    (s : Text) (es m : Map Route) → get s es ≡ none → Pending es m → Pending es (delete s m)
Pending-delete s es m d h t q e = ground (arith, h t q e, get-delete s t m)

abbrev after_loop : Option Route → Option Route → ℕ → ℕ → Option Route
after_loop none cur now ttl_ms = cur
after_loop (some r) cur now ttl_ms = if ltb now (r.last_used + ttl_ms) then cur else none

module _ (now ttl_ms : ℕ) where
  prune_one-Pending :
      (s : Text) (r : Route) (es : Map Route) (acc : Routes × ℕ)
      → get s es ≡ none
      → Pending ((s, r) ∷ es) acc.0.session_to_node
      → Pending es (prune_one now ttl_ms s r acc).0.session_to_node
  unfolding prune_one remove_route
  prune_one-Pending s r es acc d h t q e =
      ground (arith, h t q, d, get-cons t s r es, get-delete s t acc.0.session_to_node)

  prune_one-Inv :
      (s : Text) (r : Route) (acc : Routes × ℕ)
      → get s acc.0.session_to_node ≡ some r
      → Inv acc.0
      → Inv (prune_one now ttl_ms s r acc).0
  unfolding prune_one
  prune_one-Inv s r (st, k) e v = elim (Bool-cases (ltb now (r.last_used + ttl_ms))) [
    | inl live ↦ rw live v
    | inr old ↦ rw old (remove-Inv s r st e v)
  ]

  get-prune_entries :
      (t : Text) (es : Map Route) (acc : Routes × ℕ)
      → Distinct es
      → Pending es acc.0.session_to_node
      → get t (prune_entries now ttl_ms es acc).0.session_to_node
        ≡ after_loop (get t es) (get t acc.0.session_to_node) now ttl_ms
  unfolding prune_entries
  get-prune_entries t [] acc d h = rw (get-nil t) refl
  get-prune_entries t ((s, r) ∷ rest) acc d h =
      unfold prune_one remove_route in
      ground (
        arith,
        d.0,
        get-cons t s r rest,
        get-delete s t acc.0.session_to_node,
        get-prune_entries t rest (prune_one now ttl_ms s r acc) d.1
            (prune_one-Pending s r rest acc d.0 h),
      )

  pub prune_entries-Inv :
      (es : Map Route) (acc : Routes × ℕ)
      → Distinct es
      → Pending es acc.0.session_to_node
      → Inv acc.0
      → Inv (prune_entries now ttl_ms es acc).0
  unfolding prune_entries
  prune_entries-Inv [] acc d h v = v
  prune_entries-Inv ((s, r) ∷ rest) acc d h v =
      prune_entries-Inv rest (prune_one now ttl_ms s r acc) d.1
        (prune_one-Pending s r rest acc d.0 h)
        (prune_one-Inv s r acc (Pending-head s r rest acc.0.session_to_node h) v)

  pub count-prune_entries :
      (es : Map Route) (acc : Routes × ℕ)
      → (prune_entries now ttl_ms es acc).1 ≡ acc.1 + count_expired now ttl_ms es
  unfolding prune_entries
  count-prune_entries [] acc = omega arith
  count-prune_entries ((s, r) ∷ rest) acc =
      unfold prune_one remove_route in
      ground (arith, count-prune_entries rest (prune_one now ttl_ms s r acc))

  pub get-prune_all :
      (t : Text) (st : Routes) (k : ℕ)
      → Distinct st.session_to_node
      → get t (prune_entries now ttl_ms st.session_to_node (st, k)).0.session_to_node
        ≡ if_live now ttl_ms (get t st.session_to_node)
  get-prune_all t st k d =
      ground (arith, get-prune_entries t st.session_to_node (st, k) d (λ s r e. e))
