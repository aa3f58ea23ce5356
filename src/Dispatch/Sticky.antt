-- ===== src/Dispatch/Sticky.antt =====
-- pickSessionForDispatch of console/internal/grpcserver/service_dispatch.go: the commands of a
-- terminal session go to the node that it is bound to.
use onlyboxes_mcp.Prelude.{
  ℕ, ◌≡◌, refl, Bool, true, false, Option, none, some, List, ltb, arith, is_empty, inl, inr,
  Bool-cases, if◌then◌else◌,
}
use onlyboxes_mcp.Prelude.Text.{Text, trim_space}
use onlyboxes_mcp.Prelude.Map.{Map, get}
use onlyboxes_mcp.Errors.{no_worker_capacity}
use onlyboxes_mcp.Naming.{normalize_capability}
use onlyboxes_mcp.Session.{
  Session, Capability, has_capability, inflight_snapshot, try_acquire, effective, snapshot_found,
}
use onlyboxes_mcp.Routes.{Routes, touch, maybe_prune}
use onlyboxes_mcp.Dispatch.{
  Console, picked, refused, at_pointer, object_of, get_session, pick_session_for_node,
  pick_acquired, acquire, set_object,
}
use onlyboxes_mcp.Dispatch.Terminal.{pick_session_for_dispatch, pick_on_node}

-- A slot is to be had exactly where fewer are in use than the limit.
found_slot :
    (name : Text) (o : Session) (q : Option Capability) (i m : ℕ)
    → (snapshot_found name o q).1 ≡ some (i, m)
    → (onlyboxes_mcp.Session.acquire_found name o q).1 ≡ ltb i m
unfolding effective
found_slot name o none i m h = cc
found_slot name o (some c) i m h = ground (arith, h)

slot :
    (capability : Text) (o : Session) (i m : ℕ)
    → (inflight_snapshot o capability).1 ≡ some (i, m)
    → (try_acquire o capability).1 ≡ ltb i m
unfolding inflight_snapshot try_acquire
slot capability o i m = elim (Bool-cases (is_empty (normalize_capability capability))) [
  | inl e ↦ rw e (λ h. cc)
  | inr e ↦ rw e (found_slot (normalize_capability capability) o _ i m)
]

object_at :
    (objects : Map Session) (at : Option Text) (p : Text) (o : Session)
    → object_of objects at ≡ some (p, o)
    → get p objects ≡ some o
object_at objects none p o h = cc
object_at objects (some q) p o h = found (get q objects) refl h
  where
    found :
        (r : Option Session)
        → get q objects ≡ r
        → at_pointer q r ≡ some (p, o)
        → get p objects ≡ some o
    found none e h = cc
    found (some r) e h = let same : q ≡ p = cc h in rw (← same) (cc (e, h))

on_node :
    (meanwhile : Console → Console) (capability : Text) (nodes : List Text) (terminal node p : Text)
    (now : ℕ) (t : Console) (b : Bool)
    → (pick_on_node meanwhile capability nodes terminal now node (pick_acquired p (t, b)))
      ≡ (t, (if b then picked p else refused no_worker_capacity), false)
on_node meanwhile capability nodes terminal node p now t true = refl
on_node meanwhile capability nodes terminal node p now t false = refl

acquire_here :
    (s : Console) (p capability : Text) (o : Session)
    → get p s.objects ≡ some o
    → acquire s p capability
      ≡ (set_object p (try_acquire o capability).0 s, (try_acquire o capability).1)
unfolding acquire
acquire_here s p capability o h = rw h refl

-- A command that names a terminal session whose route is there and has not expired gets the session
-- of the node that the route names, whatever nodes are online and however busy they are, where that
-- session has the capability and fewer slots of it in use than its limit; where it has no room the
-- command is refused for want of capacity, and goes to no other node. The session in either case has
-- done tryAcquireCapability, and no other has changed.
pub pick_session_sticks :
    (meanwhile : Console → Console) (s : Console) (capability : Text) (nodes : List Text)
    (terminal node p : Text) (now : ℕ) (o : Session) (routes : Routes) (i m : ℕ)
    → is_empty (trim_space terminal) ≡ false
    → touch (maybe_prune s.routes now) (trim_space terminal) now ≡ (routes, some node)
    → is_empty (trim_space node) ≡ false
    → get_session s (trim_space node) ≡ some (p, o)
    → has_capability o capability ≡ true
    → (inflight_snapshot o capability).1 ≡ some (i, m)
    → pick_session_for_dispatch meanwhile s capability nodes terminal now ≡ (
      record (set_object p (try_acquire o capability).0 s) { routes = routes },
      (if ltb i m then picked p else refused no_worker_capacity),
      false,
    )
unfolding pick_session_for_dispatch pick_session_for_node get_session
pick_session_sticks meanwhile s capability nodes terminal node p now o routes i m n t k g h v =
    rw (n, t, k, g, h)
      (rw
        (acquire_here (record s { routes = routes }) p capability o
          (object_at s.objects (get (trim_space node) s.sessions) p o g))
        (rw (slot capability o i m v)
          (on_node meanwhile capability nodes (trim_space terminal) node p now _ (ltb i m))))
