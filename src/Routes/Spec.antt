-- ===== src/Routes/Spec.antt =====
-- What callers of terminal_session_routes.go may rely on: a table from sessions to routes, with no
-- index beside it.
use native.Mathlib.Nat.{zero-add}
use onlyboxes_mcp.Prelude.{
  ℕ, ◌+◌, ◌≡◌, refl, ◌∙◌, ite, ◌||◌, Option, none, some, [], ◌∷◌, arith, is_empty, if◌then◌else◌,
  Bool-cases, inl, inr, ltb, ◌==◌, ◌&&◌, ◌/◌,
}
use onlyboxes_mcp.Prelude.Text.{Text, text_discrete, trim_space}
use onlyboxes_mcp.Prelude.Map.{Map, get, get-delete, get-put}
use onlyboxes_mcp.Routes.Invariant.{Inv, IsNamed}
use onlyboxes_mcp.Routes.Loops.{
  get-clear_listed, get-prune_all, if_live, unless_node, count_expired, count-prune_entries,
}
use onlyboxes_mcp.Routes.Operations.{
  Op, binds, reserves, touches, clears, clears_node, prunes, maybe_prunes, apply,
}
use onlyboxes_mcp.Routes.{
  Route, Routes, store_route, bind, reserve, reserve_found, touch, touch_found, clear, clear_found,
  clear_by_node, clear_indexed, prune_expired, maybe_prune, prune_min_interval, refresh,
  remove_route,
}

abbrev pub Table : Type 0
Table = Text → Option Route

abbrev pub view : Routes → Table
view st t = get t st.session_to_node

abbrev pub update : Text → Option Route → Table → Table
update s o f t = ite (text_discrete t s) o (f t)

abbrev pub with_time : ℕ → Option Route → Option Route
with_time now none = none
with_time now (some r) = some (record r { last_used = now })

-- A reservation keeps the node of a session that has a route, and else takes the one offered.
abbrev pub or_route : Text → ℕ → Option Route → Option Route
or_route node now none = some (record { node_id = node; last_used = now })
or_route node now (some r) = some (record r { last_used = now })

abbrev pub unless_expected : Text → Option Route → Option Route
unless_expected [] o = none
unless_expected (c ∷ n) o = unless_node (c ∷ n) o

abbrev pub pruned : ℕ → ℕ → Table → Table
pruned ttl now f t = if ttl == 0 then f t else if_live now (ttl / 1000000) (f t)

-- The table after a call, from the table before it.
abbrev pub table_after : Op → Routes → Table → Table
table_after (binds s n now) st f =
    if is_empty (trim_space s) || is_empty (trim_space n)
    then f
    else update (trim_space s) (some (record { node_id = trim_space n; last_used = now })) f
table_after (reserves s n now) st f =
    if is_empty (trim_space s) || is_empty (trim_space n)
    then f
    else update (trim_space s) (or_route (trim_space n) now (f (trim_space s))) f
table_after (touches s now) st f =
    if is_empty (trim_space s)
    then f
    else update (trim_space s) (with_time now (f (trim_space s))) f
table_after (clears s n) st f =
    if is_empty (trim_space s)
    then f
    else update (trim_space s) (unless_expected (trim_space n) (f (trim_space s))) f
table_after (clears_node n) st f =
    if is_empty (trim_space n) then f else λ t. unless_node (trim_space n) (f t)
table_after (prunes now) st f = pruned st.ttl now f
table_after (maybe_prunes now) st f =
    if ltb 0 st.last_prune && ltb now (st.last_prune + prune_min_interval)
    then f
    else pruned st.ttl now f

bind-table_after :
    (st : Routes) (s n t : Text) (now : ℕ)
    → view (bind st s n now) t ≡ table_after (binds s n now) st (view st) t
unfolding bind store_route
bind-table_after st s n t now =
    elim (Bool-cases (is_empty (trim_space s) || is_empty (trim_space n))) [
      | inl e ↦ rw e refl
      | inr e ↦ rw e (get-put (trim_space s) t _ st.session_to_node)
    ]

reserve_found-table_after :
    (s n t : Text) (now : ℕ) (st : Routes) (o : Option Route)
    → get s st.session_to_node ≡ o
    → view (reserve_found s n now st o).0 t ≡ update s (or_route n now o) (view st) t
unfolding reserve_found store_route refresh
reserve_found-table_after s n t now st (some r) e = get-put s t _ st.session_to_node
reserve_found-table_after s n t now st none e = get-put s t _ st.session_to_node

reserve-table_after :
    (st : Routes) (s n t : Text) (now : ℕ)
    → view (reserve st s n now).0 t ≡ table_after (reserves s n now) st (view st) t
unfolding reserve
reserve-table_after st s n t now =
    elim (Bool-cases (is_empty (trim_space s) || is_empty (trim_space n))) [
      | inl e ↦ rw e refl
      | inr e ↦ rw e (reserve_found-table_after (trim_space s) (trim_space n) t now st _ refl)
    ]

touch_found-table_after :
    (s t : Text) (now : ℕ) (st : Routes) (o : Option Route)
    → get s st.session_to_node ≡ o
    → IsNamed o
    → view (touch_found s now st o).0 t ≡ update s (with_time now o) (view st) t
unfolding touch_found refresh
touch_found-table_after s t now st none e h = ground arith
touch_found-table_after s t now st (some r) e h =
    rw (h.0, h.1) (get-put s t (record r { last_used = now }) st.session_to_node)

clear_found-table_after :
    (s n t : Text) (st : Routes) (o : Option Route)
    → get s st.session_to_node ≡ o
    → view (clear_found s n st o) t ≡ update s (unless_expected n o) (view st) t
unfolding clear_found remove_route
clear_found-table_after s [] t st none e = ground arith
clear_found-table_after s [] t st (some r) e = ground (arith, get-delete s t st.session_to_node)
clear_found-table_after s (c ∷ n) t st none e = ground arith
clear_found-table_after s (c ∷ n) t st (some r) e =
    ground (arith, get-delete s t st.session_to_node)

-- The loop visits the sessions that the index lists: by the invariant, all that the node has.
clear_indexed-table_after :
    (n t : Text) (st : Routes) (o : Option (Map (Unit {0})))
    → get n st.node_index ≡ o
    → Inv st
    → view (clear_indexed n st o) t ≡ unless_node n (view st t)
unfolding clear_indexed
clear_indexed-table_after n t st none e v = ground (arith, e, v.matches t n)
clear_indexed-table_after n t st (some sessions) e v =
    ground (arith, e, v.matches t n, get-clear_listed n t sessions st.session_to_node)

prune-table_after :
    (st : Routes) (now : ℕ) (t : Text)
    → Inv st
    → view (prune_expired st now).0 t ≡ pruned st.ttl now (view st) t
unfolding prune_expired
prune-table_after st now t v = elim (Bool-cases (st.ttl == 0)) [
  | inl h ↦ rw h refl
  | inr h ↦ rw h (get-prune_all now (st.ttl / 1000000) t st 0 v.distinct)
]

touch-table_after :
    (st : Routes) (s t : Text) (now : ℕ)
    → Inv st
    → view (touch st s now).0 t ≡ table_after (touches s now) st (view st) t
unfolding touch
touch-table_after st s t now v = elim (Bool-cases (is_empty (trim_space s))) [
  | inl e ↦ rw e refl
  | inr e ↦ rw e (touch_found-table_after (trim_space s) t now st _ refl (v.named (trim_space s)))
]

clear-table_after :
    (st : Routes) (s n t : Text) → view (clear st s n) t ≡ table_after (clears s n) st (view st) t
unfolding clear
clear-table_after st s n t = elim (Bool-cases (is_empty (trim_space s))) [
  | inl e ↦ rw e refl
  | inr e ↦ rw e (clear_found-table_after (trim_space s) (trim_space n) t st _ refl)
]

clear_by_node-table_after :
    (st : Routes) (n t : Text)
    → Inv st
    → view (clear_by_node st n) t ≡ table_after (clears_node n) st (view st) t
unfolding clear_by_node
clear_by_node-table_after st n t v = elim (Bool-cases (is_empty (trim_space n))) [
  | inl e ↦ rw e refl
  | inr e ↦ rw e (clear_indexed-table_after (trim_space n) t st _ refl v)
]

maybe_prune-table_after :
    (st : Routes) (now : ℕ) (t : Text)
    → Inv st
    → view (maybe_prune st now) t ≡ table_after (maybe_prunes now) st (view st) t
unfolding maybe_prune
maybe_prune-table_after st now t v =
    elim (Bool-cases (ltb 0 st.last_prune && ltb now (st.last_prune + prune_min_interval))) [
      | inl h ↦ rw h refl
      | inr h ↦ rw h (
          prune-table_after (record st { last_prune = now }) now t
            (record {
              matches = v.matches;
              no_empty = v.no_empty;
              named = v.named;
              distinct = v.distinct;
            }))
    ]

-- On a state in which the index agrees with the routes, each of the seven calls changes the table
-- from sessions to routes as the specification `table_after`, which has no index, says, for every session.
pub apply-table_after :
    (op : Op) (st : Routes) (t : Text)
    → Inv st
    → view (apply op st) t ≡ table_after op st (view st) t
unfolding apply
apply-table_after (binds s n now) st t v = bind-table_after st s n t now
apply-table_after (reserves s n now) st t v = reserve-table_after st s n t now
apply-table_after (touches s now) st t v = touch-table_after st s t now v
apply-table_after (clears s n) st t v = clear-table_after st s n t
apply-table_after (clears_node n) st t v = clear_by_node-table_after st n t v
apply-table_after (prunes now) st t v = prune-table_after st now t v
apply-table_after (maybe_prunes now) st t v = maybe_prune-table_after st now t v

-- pruneExpiredTerminalSessionRoutes returns how many routes were too old, none if the time to live
-- is off.
pub prune_expired_count :
    (st : Routes) (now : ℕ)
    → (prune_expired st now).1
      ≡ (if st.ttl == 0 then 0 else count_expired now (st.ttl / 1000000) st.session_to_node)
unfolding prune_expired
prune_expired_count st now = elim (Bool-cases (st.ttl == 0)) [
  | inl h ↦ rw h refl
  | inr h ↦
      rw h (count-prune_entries now (st.ttl / 1000000) st.session_to_node (st, 0) ∙ zero-add _)
]
