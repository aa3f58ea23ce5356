-- ===== src/Dispatch/Views.antt =====
-- pickSessionForCapability of console/internal/grpcserver/service_dispatch.go: what its loop reads of
-- a node's session does not change while it runs, so the loop gathers from what the nodes show.
use onlyboxes_mcp.Prelude.{
  ℕ, ◌≡◌, refl, ap, ◌∙◌, true, Option, none, some, List, [], ◌∷◌, map, leb, ◌==◌, if◌then◌else◌,
  is_empty, inl, inr, Bool-cases, Option-cases,
}
use onlyboxes_mcp.Prelude.Text.{Text, text_discrete}
use onlyboxes_mcp.Prelude.Map.{Map, get, put, get-put_self, get-put_ne}
use onlyboxes_mcp.Naming.{normalize_capability}
use onlyboxes_mcp.Session.{Session, Capability, has_capability, inflight_snapshot, effective}
use onlyboxes_mcp.Dispatch.{
  Console, Scan, add_candidate, object_of, get_session, set_object, weigh, consider, scan,
}

-- What the loop reads of a node: no session that has the capability; or where the session is, and the
-- slots in use and the limit.
abbrev pub View : Type 0
View = Option (Text × Option (ℕ × ℕ))

abbrev pub view_of : Text → Option (Text × Session) → View
view_of capability none = none
view_of capability (some (p, o)) =
    if has_capability o capability then some (p, (inflight_snapshot o capability).1) else none

abbrev pub view : Text → Console → Text → View
view capability s node = view_of capability (get_session s node)

abbrev pub add_view : View → Scan → Scan
add_view none c = c
add_view (some (p, none)) c = record c { has_session = true }
add_view (some (p, some (inflight, max_inflight))) c =
    if leb max_inflight inflight
    then record c { has_session = true }
    else add_candidate p inflight c.min_inflight (record c { has_session = true })

abbrev pub gather : List View → Scan → Scan
gather [] c = c
gather (v ∷ vs) c = gather vs (add_view v c)

effective_twice :
    (c : Capability)
    → (effective (effective c) ≡ effective c) × ((effective c).inflight ≡ c.inflight)
unfolding effective
effective_twice c = elim (Bool-cases (c.max_inflight == 0)) [
  | inl e ↦ rw e (refl, refl)
  | inr e ↦ rw e (rw e refl, refl)
]

-- Reading the snapshot changes neither whether the session has the capability nor the snapshot.
snapshot_same :
    (capability : Text) (o : Session)
    → (has_capability (inflight_snapshot o capability).0 capability ≡ has_capability o capability)
      × ((inflight_snapshot (inflight_snapshot o capability).0 capability).1
          ≡ (inflight_snapshot o capability).1)
unfolding has_capability inflight_snapshot
snapshot_same capability o = elim (Bool-cases (is_empty (normalize_capability capability))) [
  | inl e ↦ rw e (refl, refl)
  | inr e ↦ rw e (elim (Option-cases (get (normalize_capability capability) o.capabilities)) [
    | inl f ↦ rw f (rw f (refl, refl))
    | inr f ↦ rw (f.1) (
        rw (get-put_self (normalize_capability capability) (effective f.0) o.capabilities)
          (refl, rw ((effective_twice f.0).0, (effective_twice f.0).1) refl))
  ])
]

object_view :
    (capability p q : Text) (o : Session) (objects : Map Session)
    → get p objects ≡ some o
    → view_of capability (object_of (put p (inflight_snapshot o capability).0 objects) (some q))
      ≡ view_of capability (object_of objects (some q))
object_view capability p q o objects h = elim (text_discrete q p) [
  | yes e ↦ rw e (
      rw (get-put_self p (inflight_snapshot o capability).0 objects, h)
        (rw ((snapshot_same capability o).0, (snapshot_same capability o).1) refl))
  | no e ↦ rw (get-put_ne p q (inflight_snapshot o capability).0 objects e) refl
]

routed_view :
    (capability p : Text) (o : Session) (objects : Map Session) (at : Option Text)
    → get p objects ≡ some o
    → view_of capability (object_of (put p (inflight_snapshot o capability).0 objects) at)
      ≡ view_of capability (object_of objects at)
routed_view capability p o objects none h = refl
routed_view capability p o objects (some q) h = object_view capability p q o objects h

weigh_state :
    (p : Text) (r : Session × Option (ℕ × ℕ)) (s : Console) (c : Scan)
    → (weigh p r s c).0 ≡ set_object p r.0 s
weigh_state p (o, none) s c = refl
weigh_state p (o, some (i, m)) s c = elim (Bool-cases (leb m i)) [
  | inl e ↦ rw e refl
  | inr e ↦ rw e refl
]

weigh_scan :
    (p : Text) (r : Session × Option (ℕ × ℕ)) (s : Console) (c : Scan)
    → (weigh p r s c).1 ≡ add_view (some (p, r.1)) c
weigh_scan p (o, none) s c = refl
weigh_scan p (o, some (i, m)) s c = elim (Bool-cases (leb m i)) [
  | inl e ↦ rw e refl
  | inr e ↦ rw e refl
]

-- One round of the loop: what each node shows stays, and what is gathered is what the node shows.
consider_lem :
    (capability n : Text) (s : Console) (c : Scan) (at : Option Text)
    → (view capability (consider capability (object_of s.objects at) s c).0 n ≡ view capability s n)
      × ((consider capability (object_of s.objects at) s c).1
          ≡ add_view (view_of capability (object_of s.objects at)) c)
unfolding get_session
consider_lem capability n s c none = (refl, refl)
consider_lem capability n s c (some p) = elim (Option-cases (get p s.objects)) [
  | inl e ↦ rw e (refl, refl)
  | inr e ↦ elim (Bool-cases (has_capability e.0 capability)) [
    | inl h ↦ rw (e.1) (
        rw h (
          ap (λ t. view capability t n) (weigh_state p (inflight_snapshot e.0 capability) s c)
              ∙ routed_view capability p e.0 s.objects (get n s.sessions) e.1,
          weigh_scan p (inflight_snapshot e.0 capability) s c,
        ))
    | inr h ↦ rw (e.1) (rw h (refl, refl))
  ]
]

map_same :
    (capability : Text) (s t : Console) (nodes : List Text)
    → ((n : Text) → view capability s n ≡ view capability t n)
    → map (view capability s) nodes ≡ map (view capability t) nodes
map_same capability s t [] h = refl
map_same capability s t (n ∷ ns) h = rw (h n, map_same capability s t ns h) refl

-- The loop gathers from what the nodes show at its start.
pub scan-gather :
    (capability : Text) (nodes : List Text) (s : Console) (c : Scan)
    → (scan capability nodes s c).1 ≡ gather (map (view capability s) nodes) c
unfolding scan get_session
scan-gather capability [] s c = refl
scan-gather capability (node ∷ nodes) s c =
    let step = consider capability (object_of s.objects (get node s.sessions)) s c in
    scan-gather capability nodes step.0 step.1
    ∙ (ap (λ vs. gather vs step.1)
          (map_same capability step.0 s nodes
            (λ n. (consider_lem capability n s c (get node s.sessions)).0))
        ∙ ap (gather (map (view capability s) nodes))
            (consider_lem capability node s c (get node s.sessions)).1)

pub scan-view :
    (capability : Text) (nodes : List Text) (s : Console) (c : Scan) (n : Text)
    → view capability (scan capability nodes s c).0 n ≡ view capability s n
unfolding scan get_session
scan-view capability [] s c n = refl
scan-view capability (node ∷ nodes) s c n =
    let step = consider capability (object_of s.objects (get node s.sessions)) s c in
    scan-view capability nodes step.0 step.1 n
    ∙ (consider_lem capability n s c (get node s.sessions)).0
