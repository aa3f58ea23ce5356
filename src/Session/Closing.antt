-- ===== src/Session/Closing.antt =====
-- Closing a session in session_runtime.go: the loop over what was pending, and what holds after it.
use onlyboxes_mcp.Prelude.{
  ℕ, ◌+◌, ◌≡◌, refl, sym, subst, Option, none, some, List, [], ◌∷◌, arith, is_empty, if◌then◌else◌,
}
use onlyboxes_mcp.Prelude.Text.{Text}
use onlyboxes_mcp.Prelude.Map.{Map, get-nil, get-cons, get, put, get-put, Distinct}
use onlyboxes_mcp.Errors.{Error}
use onlyboxes_mcp.Session.Channels.{Outcome}
use onlyboxes_mcp.Session.Lifecycle.{close, close_open, or_default}
use onlyboxes_mcp.Session.Slots.{
  inflight_of, AtLimit, Limited, IsName, inflight-release_in, release_in-Limited, held,
}
use onlyboxes_mcp.Session.Steps.{
  System, Step, Reach, acquire, give_back, register, unregister, resolve, take_off, shut_channel,
  inspect, close_session, here, next, count,
}
use onlyboxes_mcp.Session.Conservation.{
  Inv, IsNamed, slots, acquire-Inv, take_off-Inv, close_channel-Inv, give_back-Inv, register-Inv,
  unregister-Inv, resolve-Inv, inspect-Inv,
}
use onlyboxes_mcp.Naming.{normalize_capability}
use onlyboxes_mcp.Session.{
  Session, Capability, limit_of, Pending, settle, settle_all, new_session, capabilities_from_hello,
  Limit,
}

abbrev AllNamed : Map Pending → Type 0
AllNamed [] = Unit {0}
AllNamed ((id, p) ∷ rest) = IsName p.capability × AllNamed rest

named_list : (m : Map Pending) → Distinct m → ((id : Text) → IsNamed (get id m)) → AllNamed m
named_list [] d h = tt
named_list ((j, p) ∷ rest) d h = (
  ground (arith, h j, get-cons j j p rest),
  named_list rest d.1 (λ id. ground (arith, h id, get-cons id j p rest, d.0)),
)

slots-settle_all :
    (n : Text) (x : ℕ) (es : Map Pending) (o : Option Outcome) (s : Session)
    → AllNamed es
    → slots s n ≡ held n es + x
    → slots (settle_all es o s) n ≡ x
unfolding settle_all settle
slots-settle_all n x [] o s a h = omega (arith, h)
slots-settle_all n x ((id, p) ∷ rest) o s a h =
    slots-settle_all n x rest o (settle p o s) a.1
      (omega (arith, h, inflight-release_in p.capability n s.capabilities a.0))

settle_all-Limited :
    (es : Map Pending) (o : Option Outcome) (s : Session)
    → AllNamed es
    → Limited s.capabilities
    → Limited (settle_all es o s).capabilities
unfolding settle_all settle
settle_all-Limited [] o s a h = h
settle_all-Limited ((id, p) ∷ rest) o s a h =
    settle_all-Limited rest o (settle p o s) a.1
      (release_in-Limited p.capability s.capabilities a.0 h)

pub settle_all_rest :
    (es : Map Pending) (o : Option Outcome) (s : Session)
    → ((settle_all es o s).pending ≡ s.pending) × ((settle_all es o s).closed ≡ s.closed)
unfolding settle_all settle
settle_all_rest [] o s = (refl, refl)
settle_all_rest ((id, p) ∷ rest) o s = settle_all_rest rest o (settle p o s)

close_open-Inv :
    (e : Error) (q : Option Error) (y : System)
    → Inv y
    → Inv (record y { session = close_open e q y.session })
unfolding close_open
close_open-Inv e (some x) y v = v
close_open-Inv e none y v =
    let o : Option Outcome =
      some (record { payload = []; message = []; err = some e; completed_at = 0 }) in
    let s = record y.session { closed = some e; pending = [] } in
    let names = named_list y.session.pending v.distinct v.named in
    let rest = settle_all_rest y.session.pending o s in
    record {
      balanced = λ n. rw (rest.0) (
          omega (
            arith,
            slots-settle_all n (count n y.acquired) y.session.pending o s names (v.balanced n),
          ));
      limited = settle_all-Limited y.session.pending o s names v.limited;
      distinct = subst Distinct (sym rest.0) tt;
      named = λ id. rw (rest.0) (rw (get-nil {V = Pending} id) tt);
      acquired_named = v.acquired_named;
    }

close-Inv : (e : Option Error) (y : System) → Inv y → Inv (record y { session = close y.session e })
unfolding close
close-Inv e y v = close_open-Inv (or_default e) y.session.closed y v

Step-Inv : {y z : System} → Step y z → Inv y → Inv z
Step-Inv {y} (acquire c) v = acquire-Inv c y v
Step-Inv {y} (give_back n h) v = give_back-Inv n y h v
Step-Inv {y} (register id n h f ok) v = register-Inv id n y h f ok v
Step-Inv {y} (unregister id) v = unregister-Inv id y v
Step-Inv {y} (resolve echo now r) v = resolve-Inv echo now r y v
Step-Inv {y} (take_off id p e) v = take_off-Inv id p y e v
Step-Inv {y} (shut_channel k o h) v = close_channel-Inv k o y v
Step-Inv {y} (inspect c) v = inspect-Inv c y v
Step-Inv {y} (close_session e) v = close-Inv e y v

pub Reach-Inv : {y z : System} → Inv y → Reach y z → Inv z
Reach-Inv v here = v
Reach-Inv v (next r st) = Step-Inv st (Reach-Inv v r)

declare_idle :
    (j name : Text) (limit : Limit) (m : Map Capability)
    → ((n : Text) → inflight_of (get n m) ≡ 0)
    → inflight_of (
        get j (
          if is_empty (normalize_capability name)
          then m
          else put
              (normalize_capability name)
              (record { max_inflight = limit_of limit; inflight = 0 })
              m))
      ≡ 0
declare_idle j name limit m h = ground (
  arith,
  h j,
  get-put (normalize_capability name) j (record { max_inflight = limit_of limit; inflight = 0 }) m,
)

idle-AtLimit : (o : Option Capability) → inflight_of o ≡ 0 → AtLimit o
idle-AtLimit none h = tt
idle-AtLimit (some c) h = omega arith

-- A hello frame gives each capability a limit of at least one, and nothing is in flight.
capabilities_from_hello_idle :
    (n : Text) (declared : List (Option (Text × Limit))) (m : Map Capability)
    → ((n : Text) → inflight_of (get n m) ≡ 0)
    → inflight_of (get n (capabilities_from_hello declared m)) ≡ 0
unfolding capabilities_from_hello
capabilities_from_hello_idle n [] m h = h n
capabilities_from_hello_idle n (none ∷ rest) m h = capabilities_from_hello_idle n rest m h
capabilities_from_hello_idle n (some (name, limit) ∷ rest) m h =
    capabilities_from_hello_idle n rest _ (λ j. declare_idle j name limit m h)

pub new_session-Inv :
    (node_id session_id : Text) (declared : List (Option (Text × Limit)))
    → Inv (record { session = new_session node_id session_id declared; acquired = [] })
unfolding new_session
new_session-Inv node_id session_id declared = record {
  balanced = λ n. omega (
    arith,
    capabilities_from_hello_idle n declared [] (λ j. rw (get-nil {V = Capability} j) refl),
  );
  limited = λ n.
      idle-AtLimit _
        (capabilities_from_hello_idle n declared [] (λ j. rw (get-nil {V = Capability} j) refl));
  distinct = tt;
  named = λ id. rw (get-nil {V = Pending} id) tt;
  acquired_named = tt;
}
