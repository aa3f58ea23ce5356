-- ===== src/Terminal/Results.antt =====
-- worker/worker-docker/internal/runner/terminal_exec.go: leases, the janitor and the limit on output.
use onlyboxes_mcp.Prelude.{
  ℤ, pos, negsuc, ◌^◌, Bool, is_some, ℕ_discrete, ◌∙◌, ◌&&◌, false, ltb-true, if◌then◌else◌, ℕ,
  zero, suc, ◌+◌, ◌*◌, ◌≤◌, ◌<◌, ◌≡◌, refl, ap, subst, true, Option, none, some, List, [], ◌∷◌,
  arith, ltb, leb, is_empty, inl, inr, ◌⊎◌, Bool-cases, length, take, min, length-take,
}
use onlyboxes_mcp.Prelude.Text.{Text, text, trim_space, strip_prefix}
use onlyboxes_mcp.Prelude.Map.{get, get-put_self}
use onlyboxes_mcp.Terminal.Execute.{
  Request, Names, Begun, refused, begun, new_session, create_session, take_lease, take_found,
  take_session, begin,
}
use onlyboxes_mcp.Terminal.Busy.{Refuses}
use onlyboxes_mcp.Terminal.{
  Config, Manager, TerminalSession, new_manager, or_default, at_least, at_most, ExecError,
  terminal_error, context_done, failed, bounded, add_duration, resolve_lease_duration,
  truncate_by_bytes,
}

-- The bounds of leases are in order, and nothing is 0.
pub record Valid (c : Config) : Type 0 where
  pub positive : 0 < c.lease_min_sec
  pub low : c.lease_min_sec ≤ c.lease_default_sec
  pub high : c.lease_default_sec ≤ c.lease_max_sec
  pub output : 0 < c.output_limit_bytes
  pub pids : 0 < c.pids_limit

or_default_pos : (n d : ℕ) → 0 < d → 0 < or_default n d
or_default_pos n d h = ground (arith, h)

between :
    (low high n : ℕ)
    → low ≤ high
    → (low ≤ at_most high (at_least low n)) × (at_most high (at_least low n) ≤ high)
between low high n h = ground (arith, h)

-- Whatever the settings, a new manager's shortest lease is positive, its default lease is between its
-- shortest and its longest one, and its limits on output and on processes are positive.
pub new_manager-Valid : (cfg : Config) → Valid (new_manager cfg).config
unfolding new_manager
new_manager-Valid cfg =
    let low = or_default cfg.lease_min_sec 60 in
    let high = at_least low (or_default cfg.lease_max_sec 1800) in
    let ordered : low ≤ high = ground arith in
    record {
      positive = or_default_pos cfg.lease_min_sec 60 (omega arith);
      low = (between low high (or_default cfg.lease_default_sec 60) ordered).0;
      high = (between low high (or_default cfg.lease_default_sec 60) ordered).1;
      output = or_default_pos cfg.output_limit_bytes (1024 * 1024) (omega arith);
      pids = or_default_pos cfg.pids_limit 128 (omega arith);
    }

take_all : (limit : ℕ) (value : List ℕ) → length value ≤ limit → take limit value ≡ value
take_all zero [] h = refl
take_all (suc n) [] h = refl
take_all zero (x ∷ xs) h = absurd (omega (arith, h))
take_all (suc n) (x ∷ xs) h = ap (λ l. x ∷ l) (take_all n xs (omega (arith, h)))

-- truncateByBytes gives a beginning of the bytes, of the limit's length at most, and says that it
-- cut exactly where the bytes are more than the limit. The limit is positive.
pub truncate_by_bytes_lem :
    (value : List ℕ) (limit : ℕ)
    → 0 < limit
    → ((truncate_by_bytes value limit).0 ≡ take limit value)
      × (length (truncate_by_bytes value limit).0 ≡ min limit (length value))
      × ((truncate_by_bytes value limit).1 ≡ ltb limit (length value))
unfolding truncate_by_bytes
truncate_by_bytes_lem value limit h = elim (Bool-cases (leb (length value) limit)) [
  | inl e ↦ ground (arith, e, h, take_all limit value (ground (arith, e)))
  | inr e ↦ ground (arith, e, h, length-take limit value)
]

-- The error is that of a lease that is out of bounds.
abbrev pub for_lease : ExecError → Bool
for_lease (terminal_error code message) = is_some (strip_prefix (text "lease_ttl_sec") message)
for_lease context_done = false
for_lease (failed message) = false

-- The lease of a taken session: it runs for as long as that, and is not cut. A refusal is for another
-- reason than the lease.
abbrev pub Leased : Manager → ℕ → ℕ → Manager × Begun → Type 0
Leased m now duration (m', refused e) = for_lease e ≡ false
Leased m now duration (m', begun id container created) =
    (t : TerminalSession) × (get id m'.sessions ≡ some t)
    × (t.busy ≡ true)
    × (t.container_name ≡ container)
    × (now + duration ≤ t.lease_expires_at)
    × ((u : TerminalSession)
        → get id m.sessions ≡ some u
        → (u.lease_expires_at ≤ t.lease_expires_at)
          × ((t.lease_expires_at ≡ u.lease_expires_at) ⊎ (t.lease_expires_at ≡ now + duration)))

create-Leased :
    (m : Manager) (id : Text) (now d : ℕ) (container : Option Text)
    → get id m.sessions ≡ none
    → Leased m now d (create_session m id (now + d) container)
unfolding strip_prefix ℕ_discrete
create-Leased m id now d none h = refl
create-Leased m id now d (some c) h = (
  new_session c (now + d),
  get-put_self id (new_session c (now + d)) m.sessions,
  refl,
  refl,
  omega arith,
  λ u e. cc (h, e),
)

take_lease_lem :
    (lease : ℕ) (t : TerminalSession)
    → (lease ≤ (take_lease lease t).lease_expires_at)
      × (t.lease_expires_at ≤ (take_lease lease t).lease_expires_at)
      × (((take_lease lease t).lease_expires_at ≡ t.lease_expires_at)
          ⊎ ((take_lease lease t).lease_expires_at ≡ lease))
take_lease_lem lease t = elim (Bool-cases (ltb t.lease_expires_at lease)) [
  | inl e ↦ rw e (omega arith, ground (arith, e), inr refl)
  | inr e ↦ rw e (ground (arith, e), omega arith, inl refl)
]

take_found-Leased :
    (m : Manager) (r : Request) (id : Text) (now d : ℕ) (container : Option Text)
    (o : Option TerminalSession)
    → get id m.sessions ≡ o
    → Leased m now d (take_found m r id (now + d) container o)
unfolding strip_prefix ℕ_discrete
take_found-Leased m r id now d container none h = elim (Bool-cases r.create_if_missing) [
  | inl x ↦ rw x (create-Leased m id now d container h)
  | inr x ↦ rw x refl
]
take_found-Leased m r id now d container (some t) h = elim (Bool-cases t.busy) [
  | inl x ↦ rw x refl
  | inr x ↦ rw x (
      let l = take_lease_lem (now + d) t in
      (
        take_lease (now + d) t,
        get-put_self id (take_lease (now + d) t) m.sessions,
        refl,
        refl,
        l.0,
        λ u e.
            let same : t ≡ u = cc (h, e) in
            subst
              (λ v.
                (v.lease_expires_at ≤ (take_lease (now + d) t).lease_expires_at)
                × (((take_lease (now + d) t).lease_expires_at ≡ v.lease_expires_at)
                    ⊎ ((take_lease (now + d) t).lease_expires_at ≡ now + d)))
              same (l.1, l.2),
      ))
]

take_session-Leased :
    (m : Manager) (r : Request) (names : Names) (now d : ℕ)
    → get names.uuid m.sessions ≡ none
    → Leased m now d (take_session m r names (now + d))
take_session-Leased m r names now d h = elim (Bool-cases (is_empty (trim_space r.session_id))) [
  | inl e ↦ rw e (create-Leased m names.uuid now d names.container h)
  | inr e ↦ rw e (take_found-Leased m r (trim_space r.session_id) now d names.container _ refl)
]

begin-Leased :
    (m : Manager) (r : Request) (names : Names) (now d : ℕ)
    → resolve_lease_duration m.config r.lease_ttl_sec ≡ some d
    → add_duration now d ≡ now + d
    → get names.uuid m.sessions ≡ none
    → Leased m now d (begin m r names now)
unfolding begin strip_prefix ℕ_discrete
begin-Leased m r names now d h e n = elim (Bool-cases (is_empty (trim_space r.command))) [
  | inl x ↦ rw x refl
  | inr x ↦ rw x (rw h (rw e (take_session-Leased m r names now d n)))
]

begin-Refuses :
    (m : Manager) (r : Request) (names : Names) (now : ℕ)
    → resolve_lease_duration m.config r.lease_ttl_sec ≡ none
    → Refuses m (begin m r names now)
unfolding begin
begin-Refuses m r names now h = elim (Bool-cases (is_empty (trim_space r.command))) [
  | inl x ↦ rw x refl
  | inr x ↦ rw x (rw h refl)
]

-- What a call gets that wants a lease of so many seconds.
abbrev pub Granted : Manager → ℕ → ℤ → Manager × Begun → Type 0
Granted m now (negsuc k) r = Refuses m r
Granted m now (pos sec) r =
    if leb m.config.lease_min_sec sec && leb sec m.config.lease_max_sec
    then Leased m now (sec * 1000000000) r
    else Refuses m r

-- What a request wants: the lease that it names, or else the default.
abbrev pub Wants : Config → Option ℤ → ℤ → Type 0
Wants c none z = z ≡ pos c.lease_default_sec
Wants c (some y) z = z ≡ y

wanted-bounded :
    (c : Config) (o : Option ℤ) (z : ℤ) → Wants c o z → resolve_lease_duration c o ≡ bounded c z
unfolding resolve_lease_duration
wanted-bounded c none z w = rw w refl
wanted-bounded c (some y) z w = rw w refl

in_bounds :
    (c : Config) (sec : ℕ)
    → c.lease_max_sec * 1000000000 < 2 ^ 63
    → (leb c.lease_min_sec sec && leb sec c.lease_max_sec) ≡ true
    → (bounded c (pos sec) ≡ some (sec * 1000000000)) × (sec * 1000000000 < 2 ^ 63)
in_bounds c sec h b = (ground (arith, h, b), ground (arith, h, b))

out_of_bounds :
    (c : Config) (sec : ℕ)
    → (leb c.lease_min_sec sec && leb sec c.lease_max_sec) ≡ false
    → bounded c (pos sec) ≡ none
out_of_bounds c sec b = ground (arith, b)

-- A call of Execute gets the lease that its request names, or else the default one, exactly where that
-- is between the bounds: then a session that it takes is busy, in the container that the call goes on
-- to use, with a lease that runs for so many seconds from now, or longer; a session that was there
-- before keeps its lease, or gets that one if it ends later; and no refusal is for the lease. Where it
-- is out of bounds, or negative, the call is refused and changes nothing. The random id of a new
-- session is not in use, and the longest lease is less than 2 ^ 63 nanoseconds.
pub begin_lease :
    (m : Manager) (r : Request) (names : Names) (now : ℕ) (z : ℤ)
    → Wants m.config r.lease_ttl_sec z
    → m.config.lease_max_sec * 1000000000 < 2 ^ 63
    → get names.uuid m.sessions ≡ none
    → Granted m now z (begin m r names now)
begin_lease m r names now (negsuc k) w h n =
    begin-Refuses m r names now (wanted-bounded m.config r.lease_ttl_sec (negsuc k) w)
begin_lease m r names now (pos sec) w h n =
    let e = wanted-bounded m.config r.lease_ttl_sec (pos sec) w in
    elim (Bool-cases (leb m.config.lease_min_sec sec && leb sec m.config.lease_max_sec)) [
      | inl x ↦
          let b = in_bounds m.config sec h x in
          rw x (
            begin-Leased m r names now (sec * 1000000000) (e ∙ b.0)
              (rw (ltb-true (sec * 1000000000) (2 ^ 63) b.1) refl) n)
      | inr x ↦ rw x (begin-Refuses m r names now (e ∙ out_of_bounds m.config sec x))
    ]
