-- ===== src/Routes/Operations.antt =====
-- Every method of terminal_session_routes.go keeps the two maps in agreement, and so does any
-- sequence of calls from a new service.
use onlyboxes_mcp.Prelude.{
  ℕ, ◌+◌, ◌≡◌, refl, subst, Bool, false, ◌||◌, Option, none, some, List, [], ◌∷◌, arith, is_empty,
  Bool-cases, inl, inr, if_pos, if_neg, ltb, ◌==◌, ◌&&◌, ◌/◌,
}
use onlyboxes_mcp.Prelude.Text.{Text, text_discrete, trim_space, trim_space_idem}
use onlyboxes_mcp.Prelude.Map.{Map, get, get-delete}
use onlyboxes_mcp.Routes.Invariant.{Inv, store-Inv, refresh-Inv, remove-Inv}
use onlyboxes_mcp.Routes.Loops.{get-clear_listed, clear_listed-Distinct, prune_entries-Inv}
use onlyboxes_mcp.Routes.{
  Route, Routes, new_routes, store_route, bind, reserve, reserve_found, touch, touch_found, clear,
  clear_found, clear_by_node, clear_indexed, prune_expired, maybe_prune, unlink_previous,
  prune_min_interval,
}

pub data Op : Type 0 where
  binds reserves : Text → Text → ℕ → Op
  touches : Text → ℕ → Op
  clears : Text → Text → Op
  clears_node : Text → Op
  prunes maybe_prunes : ℕ → Op

unfoldable pub apply : Op → Routes → Routes
apply (binds s n now) st = bind st s n now
apply (reserves s n now) st = (reserve st s n now).0
apply (touches s now) st = (touch st s now).0
apply (clears s n) st = clear st s n
apply (clears_node n) st = clear_by_node st n
apply (prunes now) st = (prune_expired st now).0
apply (maybe_prunes now) st = maybe_prune st now

unfoldable pub run : List Op → Routes → Routes
unfolding apply
run [] st = st
run (op ∷ ops) st = run ops (apply op st)

or_false : (a b : Bool) → (a || b) ≡ false → (a ≡ false) × (b ≡ false)
or_false a b h = ground arith

bind-Inv : (st : Routes) (s n : Text) (now : ℕ) → Inv st → Inv (bind st s n now)
unfolding bind
bind-Inv st s n now v = elim (Bool-cases (is_empty (trim_space s) || is_empty (trim_space n))) [
  | inl e ↦ rw e v
  | inr e ↦
      rw e (store-Inv (trim_space s) (trim_space n) now st (trim_space_idem n) (or_false _ _ e).1 v)
]

reserve_found-Inv :
    (s n : Text) (now : ℕ) (st : Routes) (o : Option Route)
    → get s st.session_to_node ≡ o
    → trim_space n ≡ n
    → is_empty n ≡ false
    → Inv st
    → Inv (reserve_found s n now st o).0
unfolding reserve_found unlink_previous
reserve_found-Inv s n now st (some r) e t h v = refresh-Inv s now r st e v
reserve_found-Inv s n now st none e t h v =
    subst
      (λ o.
        Inv (store_route s n now (record st { node_index = unlink_previous s n o st.node_index })))
      e (store-Inv s n now st t h v)

reserve-Inv : (st : Routes) (s n : Text) (now : ℕ) → Inv st → Inv (reserve st s n now).0
unfolding reserve
reserve-Inv st s n now v = elim (Bool-cases (is_empty (trim_space s) || is_empty (trim_space n))) [
  | inl e ↦ rw e v
  | inr e ↦ rw e (
      reserve_found-Inv (trim_space s) (trim_space n) now st _ refl (trim_space_idem n)
        (or_false _ _ e).1 v)
]

touch_found-Inv :
    (s : Text) (now : ℕ) (st : Routes) (o : Option Route)
    → get s st.session_to_node ≡ o
    → Inv st
    → Inv (touch_found s now st o).0
unfolding touch_found
touch_found-Inv s now st none e v = v
touch_found-Inv s now st (some r) e v = elim (Bool-cases (is_empty (trim_space r.node_id))) [
  | inl h ↦ rw h v
  | inr h ↦ rw h (refresh-Inv s now r st e v)
]

touch-Inv : (st : Routes) (s : Text) (now : ℕ) → Inv st → Inv (touch st s now).0
unfolding touch
touch-Inv st s now v = elim (Bool-cases (is_empty (trim_space s))) [
  | inl h ↦ rw h v
  | inr h ↦ rw h (touch_found-Inv (trim_space s) now st _ refl v)
]

clear_found-Inv :
    (s n : Text) (st : Routes) (o : Option Route)
    → get s st.session_to_node ≡ o
    → Inv st
    → Inv (clear_found s n st o)
unfolding clear_found
clear_found-Inv s n st none e v = v
clear_found-Inv s [] st (some r) e v = remove-Inv s r st e v
clear_found-Inv s (c ∷ n) st (some r) e v = elim (text_discrete r.node_id (c ∷ n)) [
  | yes p ↦ rw (if_pos _ p) (remove-Inv s r st e v)
  | no p ↦ rw (if_neg _ p) v
]

clear-Inv : (st : Routes) (s n : Text) → Inv st → Inv (clear st s n)
unfolding clear
clear-Inv st s n v = elim (Bool-cases (is_empty (trim_space s))) [
  | inl h ↦ rw h v
  | inr h ↦ rw h (clear_found-Inv (trim_space s) (trim_space n) st _ refl v)
]

clear_indexed-Inv :
    (n : Text) (st : Routes) (o : Option (Map (Unit {0})))
    → get n st.node_index ≡ o
    → Inv st
    → Inv (clear_indexed n st o)
unfolding clear_indexed
clear_indexed-Inv n st none e v = v
clear_indexed-Inv n st (some sessions) e v = record {
  matches = λ t m. ground (
    arith,
    e,
    v.matches t m,
    v.matches t n,
    get-delete n m st.node_index,
    get-clear_listed n t sessions st.session_to_node,
  );
  no_empty = λ m p. ground (arith, v.no_empty m, get-delete n m st.node_index);
  named = λ t. ground (arith, v.named t, get-clear_listed n t sessions st.session_to_node);
  distinct = clear_listed-Distinct n sessions st.session_to_node v.distinct;
}

clear_by_node-Inv : (st : Routes) (n : Text) → Inv st → Inv (clear_by_node st n)
unfolding clear_by_node
clear_by_node-Inv st n v = elim (Bool-cases (is_empty (trim_space n))) [
  | inl h ↦ rw h v
  | inr h ↦ rw h (clear_indexed-Inv (trim_space n) st _ refl v)
]

prune-Inv : (st : Routes) (now : ℕ) → Inv st → Inv (prune_expired st now).0
unfolding prune_expired
prune-Inv st now v = elim (Bool-cases (st.ttl == 0)) [
  | inl h ↦ rw h v
  | inr h ↦ rw h (
      prune_entries-Inv now (st.ttl / 1000000) st.session_to_node (st, 0) v.distinct (λ s r e. e) v)
]

maybe_prune-Inv : (st : Routes) (now : ℕ) → Inv st → Inv (maybe_prune st now)
unfolding maybe_prune
maybe_prune-Inv st now v =
    elim (Bool-cases (ltb 0 st.last_prune && ltb now (st.last_prune + prune_min_interval))) [
      | inl h ↦ rw h v
      | inr h ↦ rw h (
          prune-Inv (record st { last_prune = now }) now
            (record {
              matches = v.matches;
              no_empty = v.no_empty;
              named = v.named;
              distinct = v.distinct;
            }))
    ]

-- Every method keeps the invariant.
pub apply-Inv : (op : Op) (st : Routes) → Inv st → Inv (apply op st)
unfolding apply
apply-Inv (binds s n now) st v = bind-Inv st s n now v
apply-Inv (reserves s n now) st v = reserve-Inv st s n now v
apply-Inv (touches s now) st v = touch-Inv st s now v
apply-Inv (clears s n) st v = clear-Inv st s n v
apply-Inv (clears_node n) st v = clear_by_node-Inv st n v
apply-Inv (prunes now) st v = prune-Inv st now v
apply-Inv (maybe_prunes now) st v = maybe_prune-Inv st now v

pub new_routes-Inv : Inv new_routes
unfolding new_routes get
new_routes-Inv = record {
  matches = λ s n. refl;
  no_empty = λ n e. cc;
  named = λ s. tt;
  distinct = tt;
}

pub run_from-Inv : (ops : List Op) (st : Routes) → Inv st → Inv (run ops st)
unfolding run
run_from-Inv [] st v = v
run_from-Inv (op ∷ ops) st v = run_from-Inv ops (apply op st) (apply-Inv op st v)

-- After any sequence of calls on a new service, a node's set lists exactly the sessions that are
-- routed to the node, no node has an empty set, and every route leads to a trimmed, non-empty node.
pub run-Inv : (ops : List Op) → Inv (run ops new_routes)
run-Inv ops = run_from-Inv ops new_routes new_routes-Inv
