-- ===== src/Dispatch/Pointers.antt =====
-- pickSessionForCapability of console/internal/grpcserver/service_dispatch.go, whatever other requests
-- do between its loops: it picks no session but those of the nodes that it was given.
use onlyboxes_mcp.Prelude.{
  ℕ, ◌≡◌, refl, sym, subst, ap, ◌∙◌, Bool, true, false, Option, none, some, List, [], ◌∷◌, ◌++◌,
  leb, ltb, ◌==◌, length, is_empty, inl, inr, Bool-cases,
}
use onlyboxes_mcp.Prelude.Text.{Text}
use onlyboxes_mcp.Prelude.Map.{Map, get}
use onlyboxes_mcp.Session.{Session, has_capability, inflight_snapshot}
use onlyboxes_mcp.Dispatch.Gathering.{All, In}
use onlyboxes_mcp.Dispatch.RoundRobin.{visited_iff}
use onlyboxes_mcp.Dispatch.{
  Console, Scan, empty_scan, scan, visited, acquire, acquire_or, acquire_first, then_fallback,
  last_try, choose, next_round, picked, pick_session_for_capability, at_pointer, object_of,
  get_session, add_candidate, weigh, consider,
}

some-injective : (p q : Text) → some p ≡ some q → p ≡ q
some-injective p q e = cc

module _ (P : Text → Type 0) where
  -- The candidates are as they should be.
  abbrev Fine : Scan → Type 0
  Fine c = All P c.preferred × All P c.fallback

  All-snoc : (ps : List Text) (p : Text) → All P ps → P p → All P (ps ++ (p ∷ []))
  All-snoc [] p h x = (x, tt)
  All-snoc (q ∷ ps) p h x = (h.0, All-snoc ps p h.1 x)

  add_candidate-Fine :
      (p : Text) (i : ℕ) (least : Option ℕ) (c : Scan)
      → P p
      → Fine c
      → Fine (add_candidate p i least c)
  unfolding add_candidate
  add_candidate-Fine p i none c x h = ((x, tt), h.1)
  add_candidate-Fine p i (some k) c x h = elim (Bool-cases (ltb i k)) [
    | inl e ↦ rw e ((x, tt), h.1)
    | inr e ↦ rw e (elim (Bool-cases (i == k)) [
      | inl f ↦ rw f (All-snoc c.preferred p h.0 x, h.1)
      | inr f ↦ rw f (h.0, All-snoc c.fallback p h.1 x)
    ])
  ]

  weigh-Fine :
      (p : Text) (r : Session × Option (ℕ × ℕ)) (s : Console) (c : Scan)
      → P p
      → Fine c
      → ((weigh p r s c).0.sessions ≡ s.sessions) × Fine (weigh p r s c).1
  weigh-Fine p (o, none) s c x h = (refl, h)
  weigh-Fine p (o, some (i, m)) s c x h = elim (Bool-cases (leb m i)) [
    | inl e ↦ rw e (refl, h)
    | inr e ↦
        rw e (refl, add_candidate-Fine p i c.min_inflight (record c { has_session = true }) x h)
  ]

  consider-Fine :
      (capability : Text) (r : Option (Text × Session)) (s : Console) (c : Scan)
      → ((p : Text) (o : Session) → r ≡ some (p, o) → P p)
      → Fine c
      → ((consider capability r s c).0.sessions ≡ s.sessions) × Fine (consider capability r s c).1
  consider-Fine capability none s c x h = (refl, h)
  consider-Fine capability (some (p, o)) s c x h = elim (Bool-cases (has_capability o capability)) [
    | inl e ↦ rw e (weigh-Fine p (inflight_snapshot o capability) s c (x p o refl) h)
    | inr e ↦ rw e (refl, h)
  ]

  object_of_pointer :
      (objects : Map Session) (at : Option Text) (p : Text) (o : Session)
      → object_of objects at ≡ some (p, o)
      → at ≡ some p
  object_of_pointer objects none p o h = cc
  object_of_pointer objects (some q) p o h = found (get q objects) h
    where
      found : (r : Option Session) → at_pointer q r ≡ some (p, o) → some q ≡ some p
      found none h = cc
      found (some r) h = cc

  scan-Fine :
      (capability : Text) (nodes : List Text) (s : Console) (c : Scan)
      → ((n p : Text) → In n nodes → get n s.sessions ≡ some p → P p)
      → Fine c
      → Fine (scan capability nodes s c).1
  unfolding scan get_session
  scan-Fine capability [] s c x h = h
  scan-Fine capability (n ∷ ns) s c x h =
      let r =
        consider-Fine capability (get_session s n) s c
          (λ p o e. x n p (inl refl) (object_of_pointer s.objects (get n s.sessions) p o e)) h in
      scan-Fine capability ns (consider capability (get_session s n) s c).0
        (consider capability (get_session s n) s c).1
        (λ k p i e. x k p (inr i) (sym (ap (get k) r.0) ∙ e)) r.1

  acquire_or_lem :
      (p q : Text) (rest : Console → Console × Option Text) (r : Console × Bool)
      → P p
      → ((t : Console) → (rest t).1 ≡ some q → P q)
      → (acquire_or p rest r).1 ≡ some q
      → P q
  acquire_or_lem p q rest (t, true) x h e = subst P (some-injective p q e) x
  acquire_or_lem p q rest (t, false) x h e = h t e

  acquire_first_lem :
      (capability q : Text) (ps : List Text) (s : Console)
      → All P ps
      → (acquire_first capability ps s).1 ≡ some q
      → P q
  unfolding acquire_first
  acquire_first_lem capability q [] s h e = cc
  acquire_first_lem capability q (p ∷ ps) s h e =
      acquire_or_lem p q (acquire_first capability ps) (acquire s p capability) h.0
        (λ t. acquire_first_lem capability q ps t h.1) e

  last_try_lem :
      (q : Text) (r : Console × Option Text)
      → (r.1 ≡ some q → P q)
      → (last_try r).1 ≡ picked q
      → P q
  last_try_lem q (s, some p) h e = h (cc e)
  last_try_lem q (s, none) h e = cc

  then_fallback_lem :
      (capability q : Text) (ps : List Text) (r : Console × Option Text)
      → (r.1 ≡ some q → P q)
      → All P ps
      → (then_fallback capability ps r).1 ≡ picked q
      → P q
  then_fallback_lem capability q ps (s, some p) h x e = h (cc e)
  then_fallback_lem capability q ps (s, none) h x e =
      last_try_lem q (acquire_first capability ps s) (acquire_first_lem capability q ps s x) e

  choose_lem :
      (meanwhile : Console → Console) (capability q : Text) (r : Console × Scan)
      → Fine r.1
      → (choose meanwhile capability r).1 ≡ picked q
      → P q
  choose_lem meanwhile capability q (s, c) h = elim (Bool-cases (is_empty c.preferred)) [
    | inl e ↦ rw e (λ x. cc)
    | inr e ↦ rw e (
        then_fallback_lem capability q c.fallback
          (acquire_first capability c.preferred (meanwhile s))
          (acquire_first_lem capability q c.preferred (meanwhile s) h.0) h.1)
  ]

-- The session that is picked is that of a node of the list.
pub pick_session-In :
    (meanwhile : Console → Console) (s : Console) (capability p : Text) (nodes : List Text)
    → (pick_session_for_capability meanwhile s capability nodes).1 ≡ picked p
    → (n : Text) × In n nodes × (get n s.sessions ≡ some p)
unfolding pick_session_for_capability
pick_session-In meanwhile s capability p [] e = cc
pick_session-In meanwhile s capability p (m ∷ ms) e =
    let vis = visited (m ∷ ms) s.round_robin (length (m ∷ ms)) 0 in
    let At : Text → Type 0 = λ q. (n : Text) × In n (m ∷ ms) × (get n s.sessions ≡ some q) in
    choose_lem At meanwhile capability p (scan capability vis (next_round s) empty_scan)
      (scan-Fine At capability vis (next_round s) empty_scan
        (λ n q i h. (n, (visited_iff (m ∷ ms) s.round_robin n).0 i, h)) (tt, tt))
      e
