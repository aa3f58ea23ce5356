-- ===== src/Connect/Sessions.antt =====
-- swapSession and removeSession of console/internal/grpcserver/service_connect.go: one session for each
-- node, and no route to a session that is gone.
use onlyboxes_mcp.Prelude.{
  ◌≡◌, ◌≢◌, refl, ap, ◌∙◌, true, false, Option, none, some, is_empty, if_neg,
}
use onlyboxes_mcp.Prelude.Text.{Text, trim_space}
use onlyboxes_mcp.Prelude.Map.{get, put, get-put_self, get-put_ne, get-delete_self, get-delete_ne}
use onlyboxes_mcp.Session.{Session}
use onlyboxes_mcp.Routes.Invariant.{Inv}
use onlyboxes_mcp.Routes.Loops.{unless_node}
use onlyboxes_mcp.Routes.Operations.{apply, clears_node}
use onlyboxes_mcp.Routes.Spec.{view, apply-table_after}
use onlyboxes_mcp.Routes.{Routes, clear_by_node}
use onlyboxes_mcp.Dispatch.{Console, get_session, object_of}
use onlyboxes_mcp.Connect.{swap_session, remove_session, is_current, current_object, pointed}

-- The routes to the node are gone, and all others stay.
abbrev pub Cleared : Text → Routes → Routes → Type 0
Cleared node before after = (t : Text) → view after t ≡ unless_node node (view before t)

clear_by_node-Cleared :
    (st : Routes) (node : Text)
    → Inv st
    → trim_space node ≡ node
    → is_empty node ≡ false
    → Cleared node st (clear_by_node st node)
unfolding apply
clear_by_node-Cleared st node v n e =
    λ t. apply-table_after (clears_node node) st t v ∙ rw (n, e) refl

-- After a node has connected anew, the node's session is the new one, every other node has the session
-- that it had, and the terminal session routes to the node are gone, those to other nodes as before.
-- The session of another node is another object, the node's id is not empty and has no white space
-- around it, and the index agrees with the routes.
pub swap_session_lem :
    (s : Console) (p : Text) (o : Session)
    → Inv s.routes
    → trim_space o.node_id ≡ o.node_id
    → is_empty o.node_id ≡ false
    → ((n : Text) → n ≢ o.node_id → get n s.sessions ≢ some p)
    → (get_session (swap_session s p o).0 o.node_id ≡ some (p, o))
      × ((n : Text) → n ≢ o.node_id → get_session (swap_session s p o).0 n ≡ get_session s n)
      × Cleared o.node_id s.routes (swap_session s p o).0.routes
unfolding swap_session get_session
swap_session_lem s p o v t e apart = (
  rw (get-put_self o.node_id p s.sessions) (rw (get-put_self p o s.objects) refl),
  λ n ne. rw (get-put_ne o.node_id n p s.sessions ne) (other (get n s.sessions) (apart n ne)),
  clear_by_node-Cleared s.routes o.node_id v t e,
)
  where
    other : (q : Option Text) → q ≢ some p → object_of (put p o s.objects) q ≡ object_of s.objects q
    other none h = refl
    other (some q) h = rw (get-put_ne p q o s.objects (λ x. h (ap some x))) refl

-- The end of a connection whose session is not the node's session any more, by its session id,
-- changes nothing; and when it is, the node has no session afterwards, every other node has the
-- session that it had, and the routes to the node are gone, those to other nodes as before.
pub remove_session_lem :
    (s : Console) (o : Session)
    → Inv s.routes
    → trim_space o.node_id ≡ o.node_id
    → is_empty o.node_id ≡ false
    → (is_current (current_object s o.node_id) o ≡ false → remove_session s o ≡ (s, false))
      × (is_current (current_object s o.node_id) o ≡ true
          → (get_session (remove_session s o).0 o.node_id ≡ none)
            × ((n : Text) → n ≢ o.node_id → get_session (remove_session s o).0 n ≡ get_session s n)
            × Cleared o.node_id s.routes (remove_session s o).0.routes)
unfolding remove_session get_session
remove_session_lem s o v t e = (
  λ h. rw h refl,
  λ h. rw h (
    rw (get-delete_self o.node_id s.sessions) refl,
    λ n ne. rw (get-delete_ne o.node_id n s.sessions ne) refl,
    clear_by_node-Cleared s.routes o.node_id v t e,
  ),
)

current_object-swap_session :
    (s : Console) (p : Text) (o : Session) (node : Text)
    → node ≡ o.node_id
    → current_object (swap_session s p o).0 node ≡ some o
unfolding swap_session
current_object-swap_session s p o node same = rw same (
    ap (pointed (put p o s.objects)) (get-put_self o.node_id p s.sessions)
    ∙ get-put_self p o s.objects)

-- When the connection that was replaced by a newer one of its node ends, the newer session and its
-- routes stay as they are. The two sessions have different session ids.
pub remove_session-swap_session :
    (s : Console) (p : Text) (o old : Session)
    → old.node_id ≡ o.node_id
    → o.session_id ≢ old.session_id
    → remove_session (swap_session s p o).0 old ≡ ((swap_session s p o).0, false)
unfolding remove_session
remove_session-swap_session s p o old same ne =
    rw (current_object-swap_session s p o old.node_id same) (rw (if_neg _ ne) refl)
