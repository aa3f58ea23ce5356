-- ===== src/Routes/Invariant.antt =====
-- The two route maps of console/internal/grpcserver agree: a node's set lists exactly the sessions
-- that are routed to the node. Here for the edits that the methods are made of.
use onlyboxes_mcp.Prelude.{
  ℕ, ◌≡◌, refl, ite, Option, none, some, arith, is_empty, false, if_pos, if_neg,
}
use onlyboxes_mcp.Prelude.Text.{Text, text_discrete, trim_space}
use onlyboxes_mcp.Prelude.Map.{
  Map, get, put, get-put, get-delete, put-Distinct, delete-Distinct, Distinct,
}
use onlyboxes_mcp.Routes.NodeIndex.{
  Index, listed, NoEmpty, add_to_index, drop_from_index, listed-add_to_index,
  listed-drop_from_index, add_to_index-NoEmpty, drop_from_index-NoEmpty,
}
use onlyboxes_mcp.Routes.{Route, Routes, store_route, unlink_previous, refresh, remove_route}

abbrev pub held : Option Route → Text → Option (Unit {0})
held none n = none
held (some r) n = ite (text_discrete n r.node_id) (some tt) none

abbrev pub Matches : Map Route → Index → Type 0
Matches m index = (s n : Text) → listed n s index ≡ held (get s m) n

-- A node id that a route holds is trimmed and not empty.
abbrev pub IsNamed : Option Route → Type 0
IsNamed none = Unit {0}
IsNamed (some r) = (trim_space r.node_id ≡ r.node_id) × (is_empty r.node_id ≡ false)

pub record Inv (st : Routes) : Type 0 where
  pub matches : Matches st.session_to_node st.node_index
  pub no_empty : NoEmpty st.node_index
  pub named : (s : Text) → IsNamed (get s st.session_to_node)
  pub distinct : Distinct st.session_to_node

unlink-Matches :
    (s node t n : Text) (now : ℕ) (m : Map Route) (index : Index) (o : Option Route)
    → get s m ≡ o
    → Matches m index
    → listed n t (add_to_index s node (unlink_previous s node o index))
      ≡ held (get t (put s (record { node_id = node; last_used = now }) m)) n
unfolding unlink_previous
unlink-Matches s node t n now m index none e h = ground (
  arith,
  h t n,
  h s n,
  listed-add_to_index s node n t index,
  get-put s t (record { node_id = node; last_used = now }) m,
)
unlink-Matches s node t n now m index (some r) e h = ground (
  arith,
  h t n,
  h s n,
  listed-add_to_index s node n t index,
  listed-add_to_index s node n t (drop_from_index s r.node_id index),
  listed-drop_from_index s r.node_id n t index,
  get-put s t (record { node_id = node; last_used = now }) m,
)

unlink-NoEmpty :
    (s node : Text) (index : Index) (o : Option Route)
    → NoEmpty index
    → NoEmpty (unlink_previous s node o index)
unfolding unlink_previous
unlink-NoEmpty s node index none h = h
unlink-NoEmpty s node index (some r) h = elim (text_discrete r.node_id node) [
  | yes p ↦ rw (if_pos _ p) h
  | no p ↦ rw (if_neg _ p) (drop_from_index-NoEmpty s r.node_id index h)
]

IsNamed-put :
    (s t : Text) (r : Route) (m : Map Route)
    → IsNamed (some r)
    → ((t : Text) → IsNamed (get t m))
    → IsNamed (get t (put s r m))
IsNamed-put s t r m hr h = ground (arith, h t, get-put s t r m)

-- A route is stored under a node after the session's old entry in the index is gone.
pub store-Inv :
    (s node : Text) (now : ℕ) (st : Routes)
    → trim_space node ≡ node
    → is_empty node ≡ false
    → Inv st
    → Inv (
        store_route s node now (record st {
          node_index = unlink_previous s node (get s st.session_to_node) st.node_index;
        }))
unfolding store_route
store-Inv s node now st trimmed named v = record {
  matches = λ t n. unlink-Matches s node t n now st.session_to_node st.node_index _ refl v.matches;
  no_empty =
      add_to_index-NoEmpty s node _
        (unlink-NoEmpty s node st.node_index (get s st.session_to_node) v.no_empty);
  named = λ t. IsNamed-put s t _ st.session_to_node (trimmed, named) v.named;
  distinct = put-Distinct s _ st.session_to_node v.distinct;
}

pub refresh-Inv :
    (s : Text) (now : ℕ) (r : Route) (st : Routes)
    → get s st.session_to_node ≡ some r
    → Inv st
    → Inv (refresh s now r st)
unfolding refresh
refresh-Inv s now r st e v = record {
  matches = λ t n.
      ground (arith, v.matches t n, get-put s t (record r { last_used = now }) st.session_to_node);
  no_empty = v.no_empty;
  named = λ t.
      ground (
        arith,
        v.named t,
        v.named s,
        get-put s t (record r { last_used = now }) st.session_to_node,
      );
  distinct = put-Distinct s _ st.session_to_node v.distinct;
}

pub remove-Inv :
    (s : Text) (r : Route) (st : Routes)
    → get s st.session_to_node ≡ some r
    → Inv st
    → Inv (remove_route s r st)
unfolding remove_route
remove-Inv s r st e v = record {
  matches = λ t n. ground (
    arith,
    v.matches t n,
    get-delete s t st.session_to_node,
    v.matches s n,
    listed-drop_from_index s r.node_id n t st.node_index,
  );
  no_empty = drop_from_index-NoEmpty s r.node_id st.node_index v.no_empty;
  named = λ t. ground (arith, v.named t, get-delete s t st.session_to_node);
  distinct = delete-Distinct s st.session_to_node v.distinct;
}
