-- ===== src/Session/Conservation.antt =====
-- No slot of a capability is lost, and none is used twice, in any order of the calls that
-- session_runtime.go and service_dispatch.go make on a session.
use onlyboxes_mcp.Prelude.{
  ℕ, ◌+◌, ◌<◌, ◌≡◌, refl, sym, subst, Bool, true, false, Option, none, some, List, [], ◌∷◌, arith,
  is_empty, Bool-cases, inl, inr, if_pos, if_neg, length,
}
use onlyboxes_mcp.Prelude.Text.{Text, text_discrete, trim_space}
use onlyboxes_mcp.Prelude.Map.{
  Map, get-cons, get, put, delete, get-put, get-delete, Distinct, put-Distinct, delete-Distinct,
}
use onlyboxes_mcp.Errors.{Error}
use onlyboxes_mcp.Naming.{normalize_capability, normalize_capability_idem}
use onlyboxes_mcp.Session.Channels.{Outcome, close_result}
use onlyboxes_mcp.Session.Slots.{
  inflight_of, Limited, IsName, one_if, inflight-release_in, release_in-Limited,
  inflight-try_acquire, try_acquire-Limited, try_acquire_rest, try_acquire-name, held, held-delete,
}
use onlyboxes_mcp.Session.Steps.{System, count, remove_one, count-remove_one, acquired_after}
use onlyboxes_mcp.Session.{
  Session, Result, Capability, Pending, try_acquire, release, register_pending, unregister_pending,
  resolve_pending, inflight_snapshot, settle, settle_found, effective, snapshot_found,
  register_open,
}

abbrev pub IsNamed : Option Pending → Type 0
IsNamed none = Unit {0}
IsNamed (some p) = IsName p.capability

abbrev pub AllNames : List Text → Type 0
AllNames [] = Unit {0}
AllNames (n ∷ ns) = IsName n × AllNames ns

abbrev pub slots : Session → Text → ℕ
slots s n = inflight_of (get n s.capabilities)

pub record Inv (y : System) : Type 0 where
  pub balanced : (n : Text) → slots y.session n ≡ held n y.session.pending + count n y.acquired
  pub limited : Limited y.session.capabilities
  pub distinct : Distinct y.session.pending
  pub named : (id : Text) → IsNamed (get id y.session.pending)
  pub acquired_named : AllNames y.acquired

IsName-of_count : (n : Text) (cs : List Text) → 0 < count n cs → AllNames cs → IsName n
IsName-of_count n [] h a = absurd (omega arith)
IsName-of_count n (c ∷ cs) h a = elim (text_discrete n c) [
  | yes e ↦ subst IsName (sym e) a.0
  | no ne ↦ IsName-of_count n cs (ground arith) a.1
]

acquired_after-AllNames :
    (b : Bool) (c : Text) (cs : List Text)
    → (b ≡ true → is_empty (normalize_capability c) ≡ false)
    → AllNames cs
    → AllNames (acquired_after b (normalize_capability c) cs)
acquired_after-AllNames true c cs h a = ((normalize_capability_idem c, h refl), a)
acquired_after-AllNames false c cs h a = a

remove_one-AllNames : (n : Text) (cs : List Text) → AllNames cs → AllNames (remove_one n cs)
unfolding remove_one
remove_one-AllNames n [] a = a
remove_one-AllNames n (c ∷ cs) a = elim (text_discrete n c) [
  | yes e ↦ rw (if_pos _ e) a.1
  | no ne ↦ rw (if_neg _ ne) (a.0, remove_one-AllNames n cs a.1)
]

held-delete-none :
    (n id : Text) (m : Map Pending) → get id m ≡ none → held n (delete id m) ≡ held n m
unfolding delete
held-delete-none n id [] h = refl
held-delete-none n id ((j, p) ∷ rest) h =
    ground (arith, get-cons id j p rest, held-delete-none n id rest)

held-put :
    (n id : Text) (p : Pending) (m : Map Pending)
    → get id m ≡ none
    → held n (put id p m) ≡ one_if n p.capability + held n m
unfolding put
held-put n id p m h = omega (arith, held-delete-none n id m h)

IsNamed-put :
    (id j : Text) (p : Pending) (m : Map Pending)
    → IsName p.capability
    → ((j : Text) → IsNamed (get j m))
    → IsNamed (get j (put id p m))
IsNamed-put id j p m hp h = ground (arith, h j, hp, get-put id j p m)

IsName-normal : (n : Text) → IsName n → IsName (normalize_capability n)
IsName-normal n h = (normalize_capability_idem n, rw (h.0) h.1)

-- Settling an entry that was taken off the table gives its slot back.
settle_found-Inv :
    (id : Text) (o : Option Outcome) (y : System) (q : Option Pending)
    → get id y.session.pending ≡ q
    → Inv y
    → Inv (record y { session = settle_found id o y.session q })
unfolding settle_found settle
settle_found-Inv id o y none e v = v
settle_found-Inv id o y (some p) e v =
    let name : IsName p.capability = subst IsNamed e (v.named id) in
    record {
      balanced = λ n. ground (
        arith,
        e,
        v.balanced n,
        held-delete n id y.session.pending v.distinct,
        inflight-release_in p.capability n y.session.capabilities name,
      );
      limited = release_in-Limited p.capability y.session.capabilities name v.limited;
      distinct = delete-Distinct id y.session.pending v.distinct;
      named = λ j. ground (arith, v.named j, get-delete id j y.session.pending);
      acquired_named = v.acquired_named;
    }

pub unregister-Inv :
    (id : Text) (y : System) → Inv y → Inv (record y { session = unregister_pending y.session id })
unfolding unregister_pending
unregister-Inv id y v = elim (Bool-cases (is_empty (trim_space id))) [
  | inl e ↦ rw e v
  | inr e ↦ rw e (settle_found-Inv (trim_space id) none y _ refl v)
]

pub resolve-Inv :
    (echo : List ℕ → Option Text) (now : ℕ) (r : Result) (y : System)
    → Inv y
    → Inv (record y { session = resolve_pending echo now y.session r })
unfolding resolve_pending
resolve-Inv echo now r y v = elim (Bool-cases (is_empty (trim_space r.command_id))) [
  | inl e ↦ rw e v
  | inr e ↦ rw e (settle_found-Inv (trim_space r.command_id) _ y _ refl v)
]

pub take_off-Inv :
    (id : Text) (p : Pending) (y : System)
    → get id y.session.pending ≡ some p
    → Inv y
    → Inv (record {
      session = record y.session { pending = delete id y.session.pending };
      acquired = p.capability ∷ y.acquired;
    })
take_off-Inv id p y e v = record {
  balanced = λ n. ground (arith, e, v.balanced n, held-delete n id y.session.pending v.distinct);
  limited = v.limited;
  distinct = delete-Distinct id y.session.pending v.distinct;
  named = λ j. ground (arith, v.named j, get-delete id j y.session.pending);
  acquired_named = (subst IsNamed e (v.named id), v.acquired_named);
}

pub close_channel-Inv :
    (k : ℕ) (o : Option Outcome) (y : System)
    → Inv y
    → Inv
        (record y { session = record y.session { channels = close_result k o y.session.channels } })
close_channel-Inv k o y v = record {
  balanced = v.balanced;
  limited = v.limited;
  distinct = v.distinct;
  named = v.named;
  acquired_named = v.acquired_named;
}

pub give_back-Inv :
    (n : Text) (y : System)
    → 0 < count n y.acquired
    → Inv y
    → Inv (record { session = release y.session n; acquired = remove_one n y.acquired })
unfolding release
give_back-Inv n y h v =
    let name = IsName-of_count n y.acquired h v.acquired_named in
    record {
      balanced = λ m. omega (
        arith,
        v.balanced m,
        count-remove_one n m y.acquired h,
        inflight-release_in n m y.session.capabilities name,
      );
      limited = release_in-Limited n y.session.capabilities name v.limited;
      distinct = v.distinct;
      named = v.named;
      acquired_named = remove_one-AllNames n y.acquired v.acquired_named;
    }

register_open-Inv :
    (id n : Text) (y : System) (closed : Option Error)
    → 0 < count n y.acquired
    → get id y.session.pending ≡ none
    → (register_open y.session id n closed).1 ≡ none
    → Inv y
    → Inv (record {
      session = (register_open y.session id n closed).0;
      acquired = remove_one n y.acquired;
    })
unfolding register_open
register_open-Inv id n y (some e) h f ok v = cc
register_open-Inv id n y none h f ok v =
    let name = IsName-of_count n y.acquired h v.acquired_named in
    let p : Pending = record {
      channel = length y.session.channels;
      capability = normalize_capability n;
    } in
    record {
      balanced = λ m. ground (
        arith,
        name.0,
        f,
        v.balanced m,
        count-remove_one n m y.acquired h,
        held-put m id p y.session.pending f,
      );
      limited = v.limited;
      distinct = put-Distinct id p y.session.pending v.distinct;
      named = λ j. IsNamed-put id j p y.session.pending (IsName-normal n name) v.named;
      acquired_named = remove_one-AllNames n y.acquired v.acquired_named;
    }

pub register-Inv :
    (id n : Text) (y : System)
    → 0 < count n y.acquired
    → get (trim_space id) y.session.pending ≡ none
    → (register_pending y.session id n).1 ≡ none
    → Inv y
    → Inv (record {
      session = (register_pending y.session id n).0;
      acquired = remove_one n y.acquired;
    })
unfolding register_pending
register-Inv id n y h f ok v = elim (Bool-cases (is_empty (trim_space id))) [
  | inl e ↦ absurd (ground (arith, e, ok))
  | inr e ↦
      rw e (register_open-Inv (trim_space id) n y y.session.closed h f (ground (arith, e, ok)) v)
]

pub acquire-Inv :
    (c : Text) (y : System)
    → Inv y
    → Inv (record {
      session = (try_acquire y.session c).0;
      acquired = acquired_after (try_acquire y.session c).1 (normalize_capability c) y.acquired;
    })
acquire-Inv c y v =
    let rest = try_acquire_rest y.session c in
    record {
      balanced = λ n. ground (arith, v.balanced n, inflight-try_acquire y.session c n, rest.0);
      limited = try_acquire-Limited y.session c v.limited;
      distinct = subst Distinct (sym rest.0) v.distinct;
      named = subst (λ m. (id : Text) → IsNamed (get id m)) (sym rest.0) v.named;
      acquired_named =
          acquired_after-AllNames (try_acquire y.session c).1 c y.acquired
            (try_acquire-name y.session c) v.acquired_named;
    }

snapshot_found-Inv :
    (n : Text) (y : System) (o : Option Capability)
    → get n y.session.capabilities ≡ o
    → Inv y
    → Inv (record y { session = (snapshot_found n y.session o).0 })
snapshot_found-Inv n y none e v = v
snapshot_found-Inv n y (some c) e v = record {
  balanced = λ m.
      unfold effective in
      ground (
        arith,
        v.balanced m,
        get-put n m c y.session.capabilities,
        get-put n m (record c { max_inflight = 4 }) y.session.capabilities,
      );
  limited = λ m.
      unfold effective in
      ground (
        arith,
        v.limited m,
        v.limited n,
        get-put n m c y.session.capabilities,
        get-put n m (record c { max_inflight = 4 }) y.session.capabilities,
      );
  distinct = v.distinct;
  named = v.named;
  acquired_named = v.acquired_named;
}

pub inspect-Inv :
    (c : Text) (y : System) → Inv y → Inv (record y { session = (inflight_snapshot y.session c).0 })
unfolding inflight_snapshot
inspect-Inv c y v = elim (Bool-cases (is_empty (normalize_capability c))) [
  | inl e ↦ rw e v
  | inr e ↦ rw e (snapshot_found-Inv (normalize_capability c) y _ refl v)
]
