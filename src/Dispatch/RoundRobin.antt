-- ===== src/Dispatch/RoundRobin.antt =====
-- The order in which pickSessionForCapability of console/internal/grpcserver/service_dispatch.go visits
-- the nodes: from a start that is counted up, modulo their number, each of them once.
use native.Mathlib.Nat.{mod-lt, mod-eq_of_lt, mod-add-mod, add-mod_right}
use onlyboxes_mcp.Prelude.{
  ℕ, zero, suc, ◌+◌, ◌-◌, ◌%◌, ◌<◌, ◌≡◌, refl, sym, ap, subst, ◌∙◌, List, [], ◌∷◌, arith, leb, inl,
  inr, Bool-cases, length,
}
use onlyboxes_mcp.Prelude.Text.{Text}
use onlyboxes_mcp.Dispatch.Gathering.{In}
use onlyboxes_mcp.Dispatch.{get_node, visited}

get_node-In : (nodes : List Text) (i : ℕ) → i < length nodes → In (get_node nodes i) nodes
get_node-In [] i h = ground (arith, h)
get_node-In (n ∷ ns) zero h = inl refl
get_node-In (n ∷ ns) (suc i) h = inr (get_node-In ns i (omega (arith, h)))

In-index :
    (n : Text) (nodes : List Text)
    → In n nodes
    → (i : ℕ) × (i < length nodes) × (get_node nodes i ≡ n)
In-index n [] h = absurd h
In-index n (m ∷ ms) (inl e) = (zero, omega arith, sym e)
In-index n (m ∷ ms) (inr h) = let r = In-index n ms h in (suc r.0, omega (arith, r.1), r.2)

visited-In :
    (nodes : List Text) (start todo i : ℕ) (n : Text)
    → 0 < length nodes
    → In n (visited nodes start todo i)
    → In n nodes
unfolding visited
visited-In nodes start zero i n pos h = absurd h
visited-In nodes start (suc todo) i n pos (inl e) =
    subst (λ x. In x nodes) (sym e)
      (get_node-In nodes ((start + i) % length nodes) (mod-lt (start + i) pos))
visited-In nodes start (suc todo) i n pos (inr h) = visited-In nodes start todo (i + 1) n pos h

In-visited :
    (nodes : List Text) (start todo i t : ℕ)
    → t < todo
    → In (get_node nodes ((start + (i + t)) % length nodes)) (visited nodes start todo i)
unfolding visited
In-visited nodes start zero i t h = absurd (omega (arith, h))
In-visited nodes start (suc todo) i zero h =
    inl (ap (λ k. get_node nodes ((start + k) % length nodes)) (omega arith))
In-visited nodes start (suc todo) i (suc t) h = inr (
    subst (λ k. In (get_node nodes ((start + k) % length nodes)) (visited nodes start todo (i + 1)))
      (omega arith) (In-visited nodes start todo (i + 1) t (omega (arith, h))))

-- Every index is reached in as many steps as there are nodes.
reached : (start len i : ℕ) → i < len → (t : ℕ) × (t < len) × ((start + t) % len ≡ i)
reached start len i h =
    let pos : 0 < len = omega (arith, h) in
    let small : start % len < len = mod-lt start pos in
    elim (Bool-cases (leb (start % len) i)) [
      | inl e ↦
          let sum : start % len + (i - start % len) ≡ i = ground (arith, e) in
          (
            i - start % len,
            ground (arith, h),
            sym (mod-add-mod start len (i - start % len))
                ∙ (ap (λ k. k % len) sum ∙ mod-eq_of_lt h),
          )
      | inr e ↦
          let sum : start % len + (len - start % len + i) ≡ i + len = ground (arith, e, small) in
          (
            len - start % len + i,
            ground (arith, e, small),
            sym (mod-add-mod start len (len - start % len + i))
                ∙ (ap (λ k. k % len) sum ∙ (add-mod_right i len ∙ mod-eq_of_lt h)),
          )
    ]

from_start :
    (nodes : List Text) (start todo t : ℕ)
    → t < todo
    → In (get_node nodes ((start + t) % length nodes)) (visited nodes start todo 0)
from_start nodes start todo t h =
    subst (λ k. In (get_node nodes ((start + k) % length nodes)) (visited nodes start todo 0))
      (omega arith) (In-visited nodes start todo 0 t h)

-- The loop visits the nodes that are listed and no others, wherever it starts.
pub visited_iff :
    (nodes : List Text) (start : ℕ) (n : Text)
    → (In n (visited nodes start (length nodes) 0) → In n nodes)
      × (In n nodes → In n (visited nodes start (length nodes) 0))
unfolding visited
visited_iff [] start n = (λ h. h, λ h. absurd h)
visited_iff (m ∷ ms) start n = (
  λ h. visited-In (m ∷ ms) start (length (m ∷ ms)) 0 n (omega arith) h,
  λ h.
      let i = In-index n (m ∷ ms) h in
      let t = reached start (length (m ∷ ms)) i.0 i.1 in
      subst (λ k. In k (visited (m ∷ ms) start (length (m ∷ ms)) 0))
        (ap (get_node (m ∷ ms)) t.2 ∙ i.2) (from_start (m ∷ ms) start (length (m ∷ ms)) t.0 t.1),
)
