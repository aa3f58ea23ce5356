-- ===== src/Provisioning/Creating.antt =====
-- The loop of CreateProvisionedWorkerForOwner in
-- console/internal/grpcserver/service_credentials_runtime.go.
use onlyboxes_mcp.Prelude.{
  ℕ, ◌≡◌, refl, ap, sym, subst, ◌∙◌, ite, Bool, true, false, List, [], ◌∷◌, arith, is_some,
  is_empty, ltb, if◌then◌else◌, inl, inr, Option-cases, if_pos,
}
use onlyboxes_mcp.Prelude.Text.{Text, text, text_discrete, trim_space, trim_space_idem}
use onlyboxes_mcp.Prelude.Map.{get}
use onlyboxes_mcp.Errors.{Error, other}
use onlyboxes_mcp.Dispatch.{worker_type_sys}
use onlyboxes_mcp.Registry.Table.{Db}
use onlyboxes_mcp.Registry.Lifecycle.{seed_provisioned_workers, offline_since}
use onlyboxes_mcp.Registry.Lookup.{
  Claimed, claimed, not_claimed, claim_worker_sys_owner, count_workers_by_owner_and_type,
}
use onlyboxes_mcp.Registry.Foreign.{Refers, WellFormed}
use onlyboxes_mcp.Registry.{Faults, unix_milli}
use onlyboxes_mcp.Provisioning.Seeding.{
  SameRows, SeedCases, seed_one-cases, seeded_db, node_name_of,
}
use onlyboxes_mcp.Provisioning.Rollback.{
  Same, Same-refl, AllOrNothing, Established, seeds-AllOrNothing, is_claim, claim-cases,
}
use onlyboxes_mcp.Provisioning.{
  Service, Hasher, Attempt, Created, created, failed, again, new_labels, create_once, create_loop,
  on_seeded, claimed_sys, keep_credential, or_again, create_provisioned_worker_for_owner,
  normalize_provisioning_worker_type, invalid_worker_type, already_exists,
}

create_once-AllOrNothing :
    (h : Hasher) (a : Attempt) (owner worker_type : Text) (now ttl : ℕ) (s : Service)
    → a.undo 0 ≡ false
    → ((j : Text) → Refers j s.db)
    → AllOrNothing h owner worker_type s (create_once h a owner worker_type now ttl s)
unfolding create_once
create_once-AllOrNothing h a owner worker_type now ttl s u w = elim (Option-cases a.worker_id) [
  | inl e ↦ rw e (Same-refl s)
  | inr (id, e) ↦ rw e (elim (Option-cases a.worker_secret) [
    | inl f ↦ rw f (Same-refl s)
    | inr (secret, f) ↦ rw f (
        seeds-AllOrNothing h a owner worker_type id secret now ttl s u w
          (seed_provisioned_workers a.seed
            (record { node_id = id; labels = new_labels owner worker_type } ∷ []) now ttl s.db)
          (seed_one-cases a.seed (record { node_id = id; labels = new_labels owner worker_type })
            now ttl s.db))
  ])
]

Refers-same :
    (before after : Db) → SameRows before after → (j : Text) → Refers j before → Refers j after
Refers-same before after r j f = rw ((r j).0, (r j).1, (r j).2, (r j).3, (r j).5) f

Same-trans : (a b c : Service) → Same a b → Same b c → Same a c
Same-trans a b c p q = (
  λ j. (
    (q.0 j).0 ∙ (p.0 j).0,
    (q.0 j).1 ∙ (p.0 j).1,
    (q.0 j).2 ∙ (p.0 j).2,
    (q.0 j).3 ∙ (p.0 j).3,
    (q.0 j).4 ∙ (p.0 j).4,
    (q.0 j).5 ∙ (p.0 j).5,
  ),
  λ j. q.1 j ∙ p.1 j,
  q.2 ∙ p.2,
)

Established-after :
    (h : Hasher) (owner worker_type id secret : Text) (a b c : Service)
    → Same a b
    → Established h owner worker_type id secret b c
    → Established h owner worker_type id secret a c
Established-after h owner worker_type id secret a b c p e = (
  sym (p.0 id).0 ∙ e.0,
  e.1,
  e.2,
  e.3,
  λ j k. (
    (e.4 j k).0 ∙ (p.0 j).0,
    (e.4 j k).1 ∙ (p.0 j).2,
    (e.4 j k).2 ∙ (p.0 j).3,
    (e.4 j k).3 ∙ p.1 j,
  ),
)

after-Same :
    (h : Hasher) (owner worker_type : Text) (a b : Service) (r : Service × Created)
    → Same a b
    → AllOrNothing h owner worker_type b r
    → AllOrNothing h owner worker_type a r
after-Same h owner worker_type a b (c, created id secret) p e =
    Established-after h owner worker_type (trim_space id) secret a b c p e
after-Same h owner worker_type a b (c, failed err) p e = Same-trans a b c p e
after-Same h owner worker_type a b (c, again) p e = Same-trans a b c p e

-- The calls of Delete that undo an attempt do not fail.
abbrev pub Undone : List Attempt → Type 0
Undone [] = Unit {0}
Undone (a ∷ attempts) = (a.undo 0 ≡ false) × Undone attempts

continued :
    (h : Hasher) (owner worker_type : Text) (s : Service) (rest : Service → Service × Created)
    → ((t : Service) → ((j : Text) → Refers j t.db) → AllOrNothing h owner worker_type t (rest t))
    → ((j : Text) → Refers j s.db)
    → (r : Service × Created) → AllOrNothing h owner worker_type s r
    → AllOrNothing h owner worker_type s (or_again rest r)
continued h owner worker_type s rest ih w (t, created id secret) p = p
continued h owner worker_type s rest ih w (t, failed e) p = p
continued h owner worker_type s rest ih w (t, again) p =
    after-Same h owner worker_type s t (rest t) p (ih t λ j. Refers-same s.db t.db p.0 j (w j))

create_loop-AllOrNothing :
    (h : Hasher) (attempts : List Attempt) (owner worker_type : Text) (now ttl : ℕ)
    → Undone attempts
    → (s : Service) → ((j : Text) → Refers j s.db)
    → AllOrNothing h owner worker_type s (create_loop h attempts owner worker_type now ttl s)
unfolding create_loop
create_loop-AllOrNothing h [] owner worker_type now ttl u s w = Same-refl s
create_loop-AllOrNothing h (a ∷ attempts) owner worker_type now ttl u s w =
    continued h owner worker_type s (create_loop h attempts owner worker_type now ttl)
      (create_loop-AllOrNothing h attempts owner worker_type now ttl u.1) w
      (create_once h a owner worker_type now ttl s)
      (create_once-AllOrNothing h a owner worker_type now ttl s u.0 w)

-- The early returns of CreateProvisionedWorkerForOwner.
guarded :
    (P : Service × Created → Type 0) (s : Service) (a b c : Bool) (r : Service × Created)
    → ((e : Error) → P (s, failed e))
    → P r
    → P (
        if a
        then (s, failed (other (text "owner_id is required")))
        else if b
        then (s, failed invalid_worker_type)
        else if c
        then (s, failed already_exists)
        else r)
guarded P s true b c r f p = f (other (text "owner_id is required"))
guarded P s false true c r f p = f invalid_worker_type
guarded P s false false true r f p = f already_exists
guarded P s false false false r f p = p

-- Creating a provisioned worker is all or nothing. When it succeeds, the worker was not there before,
-- and is there now as a provisioned one, with the owner, trimmed, and the type that were asked for as
-- its labels, and with the value of its secret as its credential in memory and in the table; and the
-- node, the labels and the credentials of every other worker are as they were. When it fails, or one
-- worker too many of the system type is asked for, every table and the credentials in memory have the
-- rows that they had; whatever ids and secrets are generated, and whichever database calls fail, but
-- for those that delete the node again. The tables are well formed.
pub create-AllOrNothing :
    (h : Hasher) (count : Faults) (attempts : List Attempt) (owner worker_type : Text) (now ttl : ℕ)
    (s : Service)
    → Undone attempts
    → WellFormed s.db
    → AllOrNothing h
        (trim_space owner)
        (normalize_provisioning_worker_type worker_type)
        s
        (create_provisioned_worker_for_owner h count attempts owner worker_type now ttl s)
unfolding create_provisioned_worker_for_owner
create-AllOrNothing h count attempts owner worker_type now ttl s u w =
    guarded (AllOrNothing h (trim_space owner) kind s) s (is_empty (trim_space owner))
      (is_empty kind)
      (ite (text_discrete kind worker_type_sys)
        (ltb 0 (count_workers_by_owner_and_type count (trim_space owner) kind s.db)) false)
      (create_loop h attempts (trim_space owner) kind now ttl s) (λ e. Same-refl s)
      (create_loop-AllOrNothing h attempts (trim_space owner) kind now ttl u s w.3)
  where
    kind : Text
    kind = normalize_provisioning_worker_type worker_type

abbrev pub is_created : Created → Bool
is_created (created id secret) = true
is_created _ = false

refused_sys :
    (h : Hasher) (a : Attempt) (id secret : Text) (now : ℕ) (s : Service) (r : Db × Claimed)
    → is_claim r.1 ≡ false
    → is_created (claimed_sys h a id secret now s r).1 ≡ false
refused_sys h a id secret now s (d, claimed true) e = cc
refused_sys h a id secret now s (d, claimed false) e = refl
refused_sys h a id secret now s (d, not_claimed err) e = refl

not_claim :
    (fails : Faults) (owner id : Text) (now : ℕ) (db : Db)
    → is_some (get (trim_space owner) db.claims) ≡ true
    → is_claim (claim_worker_sys_owner fails owner id now db).1 ≡ false
not_claim fails owner id now db c = elim (claim-cases fails owner id now db) [
  | inl k ↦ k.1
  | inr k ↦ ground (arith, c, k.0)
]

-- The rounds for a system worker.
module _ (h : Hasher) (owner worker_type : Text) (now ttl : ℕ)
    (is_sys : worker_type ≡ worker_type_sys) where
  seeds_refused :
      (a : Attempt) (id secret : Text) (s : Service) (r : Db × ℕ)
      → SeedCases
          (record { node_id = id; labels = new_labels owner worker_type })
          (unix_milli now)
          (unix_milli (offline_since now ttl))
          s.db
          r
      → is_some (get (trim_space owner) s.db.claims) ≡ true
      → is_created (on_seeded h a owner worker_type id secret now s r).1 ≡ false
  seeds_refused a id secret s r (inl e) c =
      subst (λ r. is_created (on_seeded h a owner worker_type id secret now s r).1 ≡ false) (sym e)
        refl
  seeds_refused a id secret s r (inr e) c =
      subst (λ r. is_created (on_seeded h a owner worker_type id secret now s r).1 ≡ false)
        (sym e.2)
        (ap (λ r. is_created r.1)
            (if_pos (text_discrete worker_type worker_type_sys) is_sys
              (claimed_sys h a id secret now (record s { db = seeded })
                (claim_worker_sys_owner a.claim owner id now seeded))
              (keep_credential h a id secret now (record s { db = seeded })))
          ∙ refused_sys h a id secret now (record s { db = seeded })
              (claim_worker_sys_owner a.claim owner id now seeded)
              (not_claim a.claim owner id now seeded c))
    where
      seeded : Db
      seeded =
          seeded_db (trim_space id) (node_name_of (trim_space id)) (new_labels owner worker_type)
            (unix_milli now) (unix_milli (offline_since now ttl)) s.db

  once_refused :
      (a : Attempt) (s : Service)
      → is_some (get (trim_space owner) s.db.claims) ≡ true
      → is_created (create_once h a owner worker_type now ttl s).1 ≡ false
  unfolding create_once
  once_refused a s c = elim (Option-cases a.worker_id) [
    | inl e ↦ rw e refl
    | inr (id, e) ↦ rw e (elim (Option-cases a.worker_secret) [
      | inl f ↦ rw f refl
      | inr (secret, f) ↦ rw f (
          seeds_refused a id secret s
            (seed_provisioned_workers a.seed
              (record { node_id = id; labels = new_labels owner worker_type } ∷ []) now ttl s.db)
            (seed_one-cases a.seed (record { node_id = id; labels = new_labels owner worker_type })
              now ttl s.db)
            c)
    ])
  ]

  again_refused :
      (s : Service) (rest : Service → Service × Created)
      → ((t : Service)
          → ((j : Text) → Refers j t.db)
          → is_some (get (trim_space owner) t.db.claims) ≡ true
          → is_created (rest t).1 ≡ false)
      → ((j : Text) → Refers j s.db)
      → is_some (get (trim_space owner) s.db.claims) ≡ true
      → (r : Service × Created) → AllOrNothing h owner worker_type s r
      → is_created r.1 ≡ false
      → is_created (or_again rest r).1 ≡ false
  again_refused s rest ih w c (t, created id secret) p e = e
  again_refused s rest ih w c (t, failed err) p e = refl
  again_refused s rest ih w c (t, again) p e =
      ih t (λ j. Refers-same s.db t.db p.0 j (w j)) (rw ((p.0 (trim_space owner)).4) c)

  loop_refused :
      (attempts : List Attempt)
      → Undone attempts
      → (s : Service) → ((j : Text) → Refers j s.db)
      → is_some (get (trim_space owner) s.db.claims) ≡ true
      → is_created (create_loop h attempts owner worker_type now ttl s).1 ≡ false
  unfolding create_loop
  loop_refused [] u s w c = refl
  loop_refused (a ∷ attempts) u s w c =
      again_refused s (create_loop h attempts owner worker_type now ttl) (loop_refused attempts u.1)
        w c (create_once h a owner worker_type now ttl s)
        (create_once-AllOrNothing h a owner worker_type now ttl s u.0 w) (once_refused a s c)

-- While an owner has a system worker, as the table of claims says, no other is created for it; whatever
-- ids and secrets are generated, and whichever database calls fail, but for those that delete the node
-- of an attempt again. The tables are well formed.
pub create-refused :
    (h : Hasher) (count : Faults) (attempts : List Attempt) (owner worker_type : Text) (now ttl : ℕ)
    (s : Service)
    → Undone attempts
    → WellFormed s.db
    → normalize_provisioning_worker_type worker_type ≡ worker_type_sys
    → is_some (get (trim_space owner) s.db.claims) ≡ true
    → is_created
        (create_provisioned_worker_for_owner h count attempts owner worker_type now ttl s).1
      ≡ false
unfolding create_provisioned_worker_for_owner
create-refused h count attempts owner worker_type now ttl s u w k c =
    guarded (λ r. is_created r.1 ≡ false) s (is_empty (trim_space owner)) (is_empty kind)
      (ite (text_discrete kind worker_type_sys)
        (ltb 0 (count_workers_by_owner_and_type count (trim_space owner) kind s.db)) false)
      (create_loop h attempts (trim_space owner) kind now ttl s) (λ e. refl)
      (loop_refused h (trim_space owner) kind now ttl k attempts u s w.3
        (rw (trim_space_idem owner) c))
  where
    kind : Text
    kind = normalize_provisioning_worker_type worker_type
