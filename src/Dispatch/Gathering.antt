-- ===== src/Dispatch/Gathering.antt =====
-- pickSessionForCapability of console/internal/grpcserver/service_dispatch.go: what the loop has
-- gathered of the nodes that it has visited.
use onlyboxes_mcp.Prelude.{
  ℕ, ◌≤◌, ◌<◌, ◌≡◌, refl, subst, true, false, Option, none, some, List, [], ◌∷◌, ◌++◌, map, arith,
  ltb, leb, ◌==◌, is_empty, is_some, inl, inr, ◌⊎◌, Bool-cases,
}
use onlyboxes_mcp.Prelude.Text.{Text}
use onlyboxes_mcp.Dispatch.Views.{View, add_view, gather}
use onlyboxes_mcp.Dispatch.{Scan, restart, add_candidate, empty_scan}

-- No node that was visited shows room with fewer slots in use than `least`; where that is `none`, no
-- node shows room.
abbrev pub NoneBelow : Option ℕ → View → Type 0
NoneBelow least none = Unit {0}
NoneBelow least (some (p, none)) = Unit {0}
NoneBelow none (some (p, some (i, m))) = m ≤ i
NoneBelow (some k) (some (p, some (i, m))) = (m ≤ i) ⊎ (k ≤ i)

abbrev pub All {ℓ} : {A : Type ℓ} → (A → Type 0) → List A → Type 0
All P [] = Unit {0}
All P (a ∷ l) = P a × All P l

abbrev pub In : Text → List Text → Type 0
In n [] = ⊥
In n (m ∷ ms) = (n ≡ m) ⊎ In n ms

-- The session shows room, with that many slots in use, at one of the nodes.
abbrev pub Shows : (Text → Type 0) → (Text → View) → ℕ → Text → Type 0
Shows listed v i p = (n : Text) × (m : ℕ) × listed n × (v n ≡ some (p, some (i, m))) × (i < m)

abbrev pub Candidates : (Text → Type 0) → (Text → View) → List Text → Option ℕ → Type 0
Candidates listed v preferred none = preferred ≡ []
Candidates listed v preferred (some k) =
    All (Shows listed v k) preferred × (is_empty preferred ≡ false)

All-snoc :
    {A : Type 0} (P : A → Type 0) (l : List A) (a : A) → All P l → P a → All P (l ++ (a ∷ []))
All-snoc P [] a h p = (p, tt)
All-snoc P (b ∷ l) a h p = (h.0, All-snoc P l a h.1 p)

snoc_filled : {A : Type 0} (l : List A) (a : A) → is_empty (l ++ (a ∷ [])) ≡ false
snoc_filled [] a = refl
snoc_filled (b ∷ l) a = refl

lower : (k i : ℕ) (w : View) → i ≤ k → NoneBelow (some k) w → NoneBelow (some i) w
lower k i none h b = tt
lower k i (some (p, none)) h b = tt
lower k i (some (p, some (j, m))) h (inl x) = inl x
lower k i (some (p, some (j, m))) h (inr x) = inr (omega (arith, h, x))

lower_none : (i : ℕ) (w : View) → NoneBelow none w → NoneBelow (some i) w
lower_none i none b = tt
lower_none i (some (p, none)) b = tt
lower_none i (some (p, some (j, m))) b = inl b

full_below :
    (least : Option ℕ) (p : Text) (i m : ℕ) → m ≤ i → NoneBelow least (some (p, some (i, m)))
full_below none p i m h = h
full_below (some k) p i m h = inl h

-- What holds of the loop after it has seen some nodes.
pub record Gathered (listed : Text → Type 0) (v : Text → View) (seen : Text → Type 0) (c : Scan)
    : Type 0 where
  pub candidates : Candidates listed v c.preferred c.min_inflight
  pub least : (n : Text) → seen n → NoneBelow c.min_inflight (v n)
  pub missing : c.has_session ≡ false → (n : Text) → seen n → v n ≡ none
  pub found : c.has_session ≡ true → (n : Text) × listed n × (is_some (v n) ≡ true)

module _ (listed : Text → Type 0) (v : Text → View) where
  NextSeen : (Text → Type 0) → Text → Text → Type 0
  NextSeen seen node n = (n ≡ node) ⊎ seen n

  -- One more node, when what it shows leaves the candidates as they are.
  see :
      (seen : Text → Type 0) (node : Text) (c d : Scan)
      → listed node
      → Gathered listed v seen c
      → d.preferred ≡ c.preferred
      → d.min_inflight ≡ c.min_inflight
      → d.has_session ≡ true
      → is_some (v node) ≡ true
      → NoneBelow c.min_inflight (v node)
      → Gathered listed v (NextSeen seen node) d
  unfolding NextSeen
  see seen node c d l g e1 e2 e3 e4 b = record {
    candidates = rw (e1, e2) g.candidates;
    least = λ n h. elim h [ inl e ↦ rw (e2, e) b | inr h ↦ rw e2 (g.least n h) ];
    missing = λ e n h. cc (e, e3);
    found = λ e. (node, l, e4);
  }

  module _ (seen : Text → Type 0) (node p : Text) (i m : ℕ) (c : Scan) (l : listed node)
      (shown : v node ≡ some (p, some (i, m))) (room : i < m) (g : Gathered listed v seen c) where
    there : is_some (v node) ≡ true
    there = rw shown refl

    restarted :
        ((w : View) → NoneBelow c.min_inflight w → NoneBelow (some i) w)
        → Gathered listed v (NextSeen seen node) (restart p i (record c { has_session = true }))
    unfolding NextSeen
    restarted low = record {
      candidates = (((node, m, l, shown, room), tt), refl);
      least = λ n h. elim h [
        | inl e ↦ rw (e, shown) (inr (omega arith))
        | inr h ↦ low (v n) (g.least n h)
      ];
      missing = λ e n h. cc;
      found = λ e. (node, l, there);
    }

    appended :
        (k : ℕ)
        → c.min_inflight ≡ some k
        → i ≡ k
        → Gathered listed v
            (NextSeen seen node)
            (record c { preferred = c.preferred ++ (p ∷ []); has_session = true })
    unfolding NextSeen
    appended k e same =
        let old = subst (Candidates listed v c.preferred) e g.candidates in
        record {
          candidates = rw e (
            All-snoc (Shows listed v k) c.preferred p old.0
                (node, m, l, rw (← same) shown, omega (arith, room, same)),
            snoc_filled c.preferred p,
          );
          least = λ n h. elim h [
            | inl x ↦ rw (e, x, shown) (inr (omega (arith, same)))
            | inr h ↦ g.least n h
          ];
          missing = λ e n h. cc;
          found = λ e. (node, l, there);
        }

    counted :
        (least : Option ℕ)
        → c.min_inflight ≡ least
        → Gathered listed v
            (NextSeen seen node)
            (add_candidate p i least (record c { has_session = true }))
    unfolding add_candidate
    counted none e = restarted (λ w h. lower_none i w (subst (λ x. NoneBelow x w) e h))
    counted (some k) e = elim (Bool-cases (ltb i k)) [
      | inl x ↦
          rw x (restarted (λ w h. lower k i w (ground (arith, x)) (subst (λ y. NoneBelow y w) e h)))
      | inr x ↦ rw x (elim (Bool-cases (i == k)) [
        | inl y ↦ rw y (appended k e (ground (arith, y)))
        | inr y ↦ rw y (
            see seen node c _ l g refl refl refl there (rw (e, shown) (inr (ground (arith, x, y)))))
      ])
    ]

  add_view-Gathered :
      (seen : Text → Type 0) (node : Text) (c : Scan) (w : View)
      → listed node
      → v node ≡ w
      → Gathered listed v seen c
      → Gathered listed v (NextSeen seen node) (add_view w c)
  unfolding NextSeen
  add_view-Gathered seen node c none l e g = record {
    candidates = g.candidates;
    least = λ n h. elim h [ inl x ↦ rw (x, e) tt | inr h ↦ g.least n h ];
    missing = λ x n h. elim h [ inl y ↦ rw (y, e) refl | inr h ↦ g.missing x n h ];
    found = g.found;
  }
  add_view-Gathered seen node c (some (p, none)) l e g =
      see seen node c _ l g refl refl refl (rw e refl) (rw e tt)
  add_view-Gathered seen node c (some (p, some (i, m))) l e g = elim (Bool-cases (leb m i)) [
    | inl x ↦ rw x (
        see seen node c _ l g refl refl refl (rw e refl)
          (rw e (full_below c.min_inflight p i m (ground (arith, x)))))
    | inr x ↦ rw x (counted seen node p i m c l e (ground (arith, x)) g c.min_inflight refl)
  ]

  gather-Gathered :
      (nodes : List Text) (seen : Text → Type 0) (c : Scan)
      → ((n : Text) → In n nodes → listed n)
      → Gathered listed v seen c
      → Gathered listed v (λ n. In n nodes ⊎ seen n) (gather (map v nodes) c)
  unfolding NextSeen
  gather-Gathered [] seen c l g = record {
    candidates = g.candidates;
    least = λ n h. elim h [ inl x ↦ absurd x | inr h ↦ g.least n h ];
    missing = λ e n h. elim h [ inl x ↦ absurd x | inr h ↦ g.missing e n h ];
    found = g.found;
  }
  gather-Gathered (node ∷ nodes) seen c l g =
      let r =
        gather-Gathered nodes (NextSeen seen node) (add_view (v node) c) (λ n h. l n (inr h))
          (add_view-Gathered seen node c (v node) (l node (inl refl)) refl g) in
      record {
        candidates = r.candidates;
        least = λ n h. r.least n (reorder node nodes seen n h);
        missing = λ e n h. r.missing e n (reorder node nodes seen n h);
        found = r.found;
      }
    where
      reorder :
          (node : Text) (nodes : List Text) (seen : Text → Type 0) (n : Text)
          → In n (node ∷ nodes) ⊎ seen n
          → In n nodes ⊎ NextSeen seen node n
      reorder node nodes seen n (inl (inl x)) = inr (inl x)
      reorder node nodes seen n (inl (inr x)) = inl x
      reorder node nodes seen n (inr x) = inr (inr x)

  -- The loop over all nodes, from its start.
  pub gather-all :
      (nodes : List Text)
      → ((n : Text) → In n nodes → listed n)
      → Gathered listed v (λ n. In n nodes ⊎ ⊥) (gather (map v nodes) empty_scan)
  gather-all nodes l =
      gather-Gathered nodes (λ n. ⊥) empty_scan l
        (record {
          candidates = refl;
          least = λ n h. absurd h;
          missing = λ e n h. absurd h;
          found = λ e. cc;
        })
