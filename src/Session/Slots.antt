-- ===== src/Session/Slots.antt =====
-- Slots of a capability in session_runtime.go: what acquiring and releasing does to the numbers in
-- flight, and how many slots a pending table holds.
use onlyboxes_mcp.Prelude.{
  ℕ, ◌+◌, ◌-◌, ◌≤◌, ◌≡◌, refl, ite, Bool, true, false, Option, none, some, [], ◌∷◌, arith, is_empty,
  if◌then◌else◌, Bool-cases, inl, inr,
}
use onlyboxes_mcp.Prelude.Text.{Text, text_discrete}
use onlyboxes_mcp.Prelude.Map.{Map, get-nil, get-cons, get, delete, get-put, Distinct}
use onlyboxes_mcp.Naming.{normalize_capability}
use onlyboxes_mcp.Session.{
  Capability, Pending, Session, try_acquire, release_in, effective, acquire_found, release_found,
}

abbrev pub inflight_of : Option Capability → ℕ
inflight_of none = 0
inflight_of (some c) = c.inflight

abbrev pub AtLimit : Option Capability → Type 0
AtLimit none = Unit {0}
AtLimit (some c) = c.inflight ≤ (effective c).max_inflight

-- No capability has more commands in flight than its limit.
abbrev pub Limited : Map Capability → Type 0
Limited m = (n : Text) → AtLimit (get n m)

-- A name that normalising leaves alone, and not the empty one.
abbrev pub IsName : Text → Type 0
IsName n = (normalize_capability n ≡ n) × (is_empty n ≡ false)

abbrev pub one_if : Text → Text → ℕ
one_if m n = ite (text_discrete m n) 1 0

release_found_inflight :
    (n m : Text) (caps : Map Capability) (o : Option Capability)
    → get n caps ≡ o
    → inflight_of (get m (release_found n caps o)) ≡ inflight_of (get m caps) - one_if m n
release_found_inflight n m caps none e = ground arith
release_found_inflight n m caps (some c) e =
    ground (arith, get-put n m (record c { inflight = c.inflight - 1 }) caps)

release_found-Limited :
    (n : Text) (caps : Map Capability) (o : Option Capability)
    → get n caps ≡ o
    → Limited caps
    → Limited (release_found n caps o)
unfolding effective
release_found-Limited n caps none e h m = h m
release_found-Limited n caps (some c) e h m =
    ground (arith, h m, h n, get-put n m (record c { inflight = c.inflight - 1 }) caps)

-- Releasing gives one slot of the capability back, if one is in use, and no other.
pub inflight-release_in :
    (n m : Text) (caps : Map Capability)
    → IsName n
    → inflight_of (get m (release_in caps n)) ≡ inflight_of (get m caps) - one_if m n
unfolding release_in
inflight-release_in n m caps h = rw (h.0) (rw (h.1) (release_found_inflight n m caps _ refl))

pub release_in-Limited :
    (n : Text) (caps : Map Capability) → IsName n → Limited caps → Limited (release_in caps n)
unfolding release_in
release_in-Limited n caps h l = rw (h.0) (rw (h.1) (release_found-Limited n caps _ refl l))

abbrev one_when : Bool → ℕ
one_when true = 1
one_when false = 0

acquire_found_inflight :
    (n m : Text) (s : Session) (o : Option Capability)
    → get n s.capabilities ≡ o
    → inflight_of (get m (acquire_found n s o).0.capabilities)
      ≡ inflight_of (get m s.capabilities) + (if (acquire_found n s o).1 then one_if m n else 0)
unfolding effective
acquire_found_inflight n m s none e = ground arith
acquire_found_inflight n m s (some c) e = ground (
  arith,
  get-put n m (effective c) s.capabilities,
  get-put n m (record c { max_inflight = 4 }) s.capabilities,
  get-put n m (record c { max_inflight = 4; inflight = c.inflight + 1 }) s.capabilities,
  get-put n m (record c { inflight = c.inflight + 1 }) s.capabilities,
)

acquire_found-Limited :
    (n : Text) (s : Session) (o : Option Capability)
    → get n s.capabilities ≡ o
    → Limited s.capabilities
    → Limited (acquire_found n s o).0.capabilities
unfolding effective
acquire_found-Limited n s none e h m = h m
acquire_found-Limited n s (some c) e h m = ground (
  arith,
  h m,
  h n,
  get-put n m (effective c) s.capabilities,
  get-put n m (record c { max_inflight = 4 }) s.capabilities,
  get-put n m (record c { max_inflight = 4; inflight = c.inflight + 1 }) s.capabilities,
  get-put n m (record c { inflight = c.inflight + 1 }) s.capabilities,
)

acquire_found_rest :
    (n : Text) (s : Session) (o : Option Capability)
    → ((acquire_found n s o).0.pending ≡ s.pending)
      × ((acquire_found n s o).0.channels ≡ s.channels)
      × ((acquire_found n s o).0.closed ≡ s.closed)
acquire_found_rest n s none = (refl, refl, refl)
acquire_found_rest n s (some c) = ground arith

-- A successful acquisition takes one slot of the capability; a refused one takes none.
pub inflight-try_acquire :
    (s : Session) (c m : Text)
    → inflight_of (get m (try_acquire s c).0.capabilities)
      ≡ inflight_of (get m s.capabilities)
        + (if (try_acquire s c).1 then one_if m (normalize_capability c) else 0)
unfolding try_acquire
inflight-try_acquire s c m = elim (Bool-cases (is_empty (normalize_capability c))) [
  | inl e ↦ rw e (omega arith)
  | inr e ↦ rw e (acquire_found_inflight (normalize_capability c) m s _ refl)
]

pub try_acquire-Limited :
    (s : Session) (c : Text) → Limited s.capabilities → Limited (try_acquire s c).0.capabilities
unfolding try_acquire
try_acquire-Limited s c h = elim (Bool-cases (is_empty (normalize_capability c))) [
  | inl e ↦ rw e h
  | inr e ↦ rw e (acquire_found-Limited (normalize_capability c) s _ refl h)
]

pub try_acquire_rest :
    (s : Session) (c : Text)
    → ((try_acquire s c).0.pending ≡ s.pending)
      × ((try_acquire s c).0.channels ≡ s.channels)
      × ((try_acquire s c).0.closed ≡ s.closed)
unfolding try_acquire
try_acquire_rest s c = elim (Bool-cases (is_empty (normalize_capability c))) [
  | inl e ↦ rw e (refl, refl, refl)
  | inr e ↦
      rw e (
        acquire_found_rest (normalize_capability c) s (get (normalize_capability c) s.capabilities))
]

pub try_acquire-name :
    (s : Session) (c : Text)
    → (try_acquire s c).1 ≡ true
    → is_empty (normalize_capability c) ≡ false
unfolding try_acquire
try_acquire-name s c h = ground arith

-- The slots of a capability that the entries of a pending table hold.
abbrev pub held : Text → Map Pending → ℕ
held n [] = 0
held n ((id, p) ∷ rest) = one_if n p.capability + held n rest

abbrev pub held_by : Text → Option Pending → ℕ
held_by n none = 0
held_by n (some p) = one_if n p.capability

pub held-delete :
    (n id : Text) (m : Map Pending)
    → Distinct m
    → held n m ≡ held n (delete id m) + held_by n (get id m)
unfolding delete
held-delete n id [] d = rw (get-nil id) refl
held-delete n id ((j, p) ∷ rest) d =
    ground (arith, d.0, get-cons id j p rest, held-delete n id rest d.1)
