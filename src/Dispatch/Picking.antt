-- ===== src/Dispatch/Picking.antt =====
-- pickSessionForCapability of console/internal/grpcserver/service_dispatch.go: which session it picks,
-- and when it refuses.
use onlyboxes_mcp.Prelude.{
  ℕ, ◌<◌, ◌≡◌, refl, sym, subst, ◌∙◌, true, Option, none, some, List, [], ◌∷◌, arith, is_empty,
  is_some, inl, inr, ◌⊎◌, Bool-cases, Option-cases, length,
}
use onlyboxes_mcp.Prelude.Text.{Text}
use onlyboxes_mcp.Prelude.Map.{Map, get}
use onlyboxes_mcp.Errors.{no_capability_worker, no_worker_capacity}
use onlyboxes_mcp.Naming.{normalize_capability}
use onlyboxes_mcp.Session.{
  Session, Capability, has_capability, inflight_snapshot, try_acquire, effective, snapshot_found,
  acquire_found,
}
use onlyboxes_mcp.Dispatch.Views.{view, view_of, scan-gather, scan-view}
use onlyboxes_mcp.Dispatch.RoundRobin.{visited_iff}
use onlyboxes_mcp.Dispatch.Gathering.{In, NoneBelow, Candidates, Gathered, gather-all}
use onlyboxes_mcp.Dispatch.{
  Console, Scan, empty_scan, scan, visited, acquire, acquire_first, choose, next_round, Pick,
  picked, refused, pick_session_for_capability, object_of, get_session, set_object,
}

found_room :
    (name : Text) (o : Session) (q : Option Capability) (i m : ℕ)
    → (snapshot_found name o q).1 ≡ some (i, m)
    → i < m
    → (acquire_found name o q).1 ≡ true
unfolding effective
found_room name o none i m h r = cc
found_room name o (some c) i m h r = ground (arith, h, r)

-- A session that shows room gives a slot.
snapshot_room :
    (capability : Text) (o : Session) (i m : ℕ)
    → (inflight_snapshot o capability).1 ≡ some (i, m)
    → i < m
    → (try_acquire o capability).1 ≡ true
unfolding inflight_snapshot try_acquire
snapshot_room capability o i m = elim (Bool-cases (is_empty (normalize_capability capability))) [
  | inl e ↦ rw e (λ h r. cc)
  | inr e ↦ rw e (found_room (normalize_capability capability) o _ i m)
]

-- The pointer of a view, and what is there.
view_object :
    (capability p : Text) (i m : ℕ) (objects : Map Session) (at : Option Text)
    → view_of capability (object_of objects at) ≡ some (p, some (i, m))
    → (o : Session) × (get p objects ≡ some o)
      × (has_capability o capability ≡ true)
      × ((inflight_snapshot o capability).1 ≡ some (i, m))
view_object capability p i m objects none = λ h. cc
view_object capability p i m objects (some q) = elim (Option-cases (get q objects)) [
  | inl e ↦ rw e (λ h. cc)
  | inr e ↦ elim (Bool-cases (has_capability e.0 capability)) [
    | inl f ↦ rw (e.1) (rw f (λ h. let same : q ≡ p = cc in (e.0, rw (← same) (e.1), f, cc)))
    | inr f ↦ rw (e.1) (rw f (λ h. cc))
  ]
]

-- The first candidate gives a slot.
acquire_room :
    (capability p : Text) (s : Console) (o : Session)
    → get p s.objects ≡ some o
    → (try_acquire o capability).1 ≡ true
    → acquire s p capability ≡ (set_object p (try_acquire o capability).0 s, true)
unfolding acquire
acquire_room capability p s o h t = rw h (rw t refl)

-- What pickSessionForCapability may answer from what the nodes show.
pub data Answers (capability : Text) (s : Console) (nodes : List Text) : Pick → Type 0 where
  -- A session at a listed node that has the capability and room, with no more slots in use than any
  -- listed session that has room.
  fewest :
      (n p : Text) (i m : ℕ)
      → In n nodes
      → view capability s n ≡ some (p, some (i, m))
      → i < m
      → ((k : Text) → In k nodes → NoneBelow (some i) (view capability s k))
      → Answers capability s nodes (picked p)
  -- A listed session has the capability, and none has room.
  full :
      (n : Text)
      → In n nodes
      → is_some (view capability s n) ≡ true
      → ((k : Text) → In k nodes → NoneBelow none (view capability s k))
      → Answers capability s nodes (refused no_worker_capacity)
  missing :
      ((k : Text) → In k nodes → view capability s k ≡ none)
      → Answers capability s nodes (refused no_capability_worker)

abbrev pub undisturbed : Console → Console
undisturbed s = s

module _ (capability : Text) (s t : Console) (nodes : List Text) (seen : Text → Type 0)
    (all : (n : Text) → In n nodes → seen n)
    (same : (n : Text) → view capability t n ≡ view capability s n) where
  none_room :
      (c : Scan)
      → Gathered (λ n. In n nodes) (view capability s) seen c
      → c.min_inflight ≡ none
      → Answers capability s nodes (choose undisturbed capability (t, c)).1
  none_room c g e =
      rw (subst (Candidates (λ n. In n nodes) (view capability s) c.preferred) e g.candidates)
        (elim (Bool-cases c.has_session) [
          | inl h ↦ rw h (
              full (g.found h).0 (g.found h).1 (g.found h).2
                (λ k l. subst (λ x. NoneBelow x (view capability s k)) e (g.least k (all k l))))
          | inr h ↦ rw h (missing (λ k l. g.missing h k (all k l)))
        ])

  first_room :
      (c : Scan) (k : ℕ) (preferred : List Text)
      → Gathered (λ n. In n nodes) (view capability s) seen c
      → c.min_inflight ≡ some k
      → c.preferred ≡ preferred
      → Candidates (λ n. In n nodes) (view capability s) preferred (some k)
      → Answers capability s nodes (choose undisturbed capability (t, c)).1
  unfolding acquire_first get_session
  first_room c k [] g e l h = cc (h.1)
  first_room c k (p ∷ ps) g e l h =
      let shows = h.0.0 in
      let o =
        view_object capability p k shows.1 t.objects (get shows.0 t.sessions)
          (same shows.0 ∙ shows.3) in
      rw l (
        rw
          (acquire_room capability p t o.0 o.1 (snapshot_room capability o.0 k shows.1 o.3 shows.4))
          (fewest shows.0 p k shows.1 shows.2 shows.3 shows.4
            (λ n i. subst (λ x. NoneBelow x (view capability s n)) e (g.least n (all n i)))))

  choose_lem :
      (c : Scan) (least : Option ℕ)
      → Gathered (λ n. In n nodes) (view capability s) seen c
      → c.min_inflight ≡ least
      → Answers capability s nodes (choose undisturbed capability (t, c)).1
  choose_lem c none g e = none_room c g e
  choose_lem c (some k) g e =
      first_room c k c.preferred g e refl
        (subst (Candidates (λ n. In n nodes) (view capability s) c.preferred) e g.candidates)

-- pickSessionForCapability, when no other request comes in between, picks a session at a listed node
-- that has the capability and room, and no listed session with room has fewer slots in use; it
-- answers ErrNoWorkerCapacity only where a listed session has the capability and none has room, and
-- ErrNoCapabilityWorker only where none has the capability. So it is wherever the round robin starts.
pub pick_session-Answers :
    (s : Console) (capability : Text) (nodes : List Text)
    → Answers capability s nodes (pick_session_for_capability undisturbed s capability nodes).1
unfolding pick_session_for_capability
pick_session-Answers s capability [] = missing (λ k h. absurd h)
pick_session-Answers s capability (m ∷ ms) =
    let vis = visited (m ∷ ms) s.round_robin (length (m ∷ ms)) 0 in
    let r = scan capability vis (next_round s) empty_scan in
    let g =
      gather-all (λ n. In n (m ∷ ms)) (view capability s) vis
        (λ n. (visited_iff (m ∷ ms) s.round_robin n).0) in
    let e = scan-gather capability vis (next_round s) empty_scan in
    choose_lem capability s r.0 (m ∷ ms) (λ n. In n vis ⊎ ⊥)
      (λ n h. inl ((visited_iff (m ∷ ms) s.round_robin n).1 h))
      (scan-view capability vis (next_round s) empty_scan) r.1 r.1.min_inflight
      (subst (Gathered (λ n. In n (m ∷ ms)) (view capability s) (λ n. In n vis ⊎ ⊥)) (sym e) g) refl
