-- ===== src/Connect/Hello.antt =====
-- resolveHelloByWorkerType of console/internal/grpcserver/service_connect.go: the capabilities that a
-- system worker may declare.
use onlyboxes_mcp.Prelude.{
  ◌≡◌, ◌≢◌, refl, sym, ◌∙◌, ite, Bool, true, false, ◌&&◌, ◌||◌, Option, none, some, [], ◌∷◌,
  if◌then◌else◌, ap, not, Bool-cases, inl, inr, if_pos, if_neg,
}
use onlyboxes_mcp.Prelude.Text.{Text, text, text_discrete, trim_space, to_lower}
use onlyboxes_mcp.Prelude.Map.{put, delete}
use onlyboxes_mcp.Session.{Session, new_session, capabilities_from_hello}
use onlyboxes_mcp.Errors.{Error, status, permission_denied}
use onlyboxes_mcp.Naming.{normalize_capability, computer_use_capability, read_image_capability}
use onlyboxes_mcp.Dispatch.{worker_type_sys}
use onlyboxes_mcp.Connect.{
  Declared, Resolved, resolved, denied, seen_capabilities, resolve_sys, resolve_hello,
  sys_capabilities,
}

-- Some declaration has the name.
abbrev pub declares : Text → Declared → Bool
declares name [] = false
declares name (none ∷ rest) = declares name rest
declares name (some (n, limit) ∷ rest) =
    ite (text_discrete (normalize_capability n) name) true false || declares name rest

-- Every declaration has one of the two names.
abbrev pub only_known : Declared → Bool
only_known [] = true
only_known (none ∷ rest) = only_known rest
only_known (some (n, limit) ∷ rest) =
    (ite (text_discrete (normalize_capability n) computer_use_capability) true false
      || ite (text_discrete (normalize_capability n) read_image_capability) true false)
    && only_known rest

apart : computer_use_capability ≢ read_image_capability
apart e = cc

or_true : (a : Bool) → (a || true) ≡ true
or_true true = refl
or_true false = refl

seen_capabilities_lem :
    (d : Declared) (a b : Bool)
    → seen_capabilities d (a, b) ≡ (
        if only_known d
        then some (a || declares computer_use_capability d, b || declares read_image_capability d)
        else none)
unfolding seen_capabilities
seen_capabilities_lem [] true true = refl
seen_capabilities_lem [] true false = refl
seen_capabilities_lem [] false true = refl
seen_capabilities_lem [] false false = refl
seen_capabilities_lem (none ∷ rest) a b = seen_capabilities_lem rest a b
seen_capabilities_lem (some (n, limit) ∷ rest) a b =
    elim (text_discrete (normalize_capability n) computer_use_capability) [
      | yes e ↦ rw (if_pos _ e) (
          rw (if_pos _ e) (
            rw (seen_capabilities_lem rest true b)
              (rw (if_neg _ (λ x. apart (sym e ∙ x)), or_true a) refl)))
      | no e ↦ rw (if_neg _ e) (
          rw (if_neg _ e) (elim (text_discrete (normalize_capability n) read_image_capability) [
            | yes f ↦
                rw (if_pos _ f)
                  (rw (if_pos _ f) (rw (seen_capabilities_lem rest a true, or_true b) refl))
            | no f ↦ rw (if_neg _ f) (rw (if_neg _ f) refl)
          ]))
    ]

-- The session that Connect makes of what was resolved.
abbrev pub session_of : Text → Text → Resolved → Option Session
session_of node_id session_id (resolved d) = some (new_session node_id session_id d)
session_of node_id session_id (denied e) = none

-- A session with one slot of each of the two capabilities.
abbrev pub sys_session : Text → Text → Session
sys_session node_id session_id = record {
  node_id = node_id;
  session_id = session_id;
  capabilities =
      (text "readimage", record { max_inflight = 1; inflight = 0 })
      ∷ (text "computeruse", record { max_inflight = 1; inflight = 0 })
      ∷ [];
  pending = [];
  channels = [];
  closed = none;
}

sys_session_lem :
    (node_id session_id : Text)
    → new_session node_id session_id sys_capabilities ≡ sys_session node_id session_id
unfolding new_session capabilities_from_hello normalize_capability trim_space to_lower put delete
    text_discrete
sys_session_lem node_id session_id = refl

-- What is accepted, and the error of what is not.
abbrev pub verdict : Declared → Option Error
verdict d =
    if not (only_known d)
    then some (
        status permission_denied
          (text "worker-sys supports only computerUse and readImage capabilities"))
    else if declares computer_use_capability d && declares read_image_capability d
    then none
    else some (
        status permission_denied
          (text "worker-sys requires computerUse and readImage capabilities"))

abbrev pub refusal : Resolved → Option Error
refusal (resolved d) = none
refusal (denied e) = some e

resolved-session :
    (node_id session_id : Text) (known a b : Bool)
    → session_of node_id session_id (resolve_sys (if known then some (a, b) else none))
      ≡ (if known && (a && b) then some (sys_session node_id session_id) else none)
resolved-session node_id session_id true true true = ap some (sys_session_lem node_id session_id)
resolved-session node_id session_id true true false = refl
resolved-session node_id session_id true false b = refl
resolved-session node_id session_id false a b = refl

resolved-refusal :
    (d : Declared)
    → refusal (
        resolve_sys (
          if only_known d
          then some (declares computer_use_capability d, declares read_image_capability d)
          else none))
      ≡ verdict d
resolved-refusal d = elim (Bool-cases (only_known d)) [
  | inl e ↦ rw e (elim (Bool-cases (declares computer_use_capability d)) [
    | inl f ↦ rw f (elim (Bool-cases (declares read_image_capability d)) [
      | inl g ↦ rw g refl
      | inr g ↦ rw g refl
    ])
    | inr f ↦ rw f refl
  ])
  | inr e ↦ rw e refl
]

-- A system worker is accepted exactly when all of the capabilities that it declares are computerUse
-- and readImage, up to case and surrounding space, and both are among them; whatever limits it
-- declares, its new session has the two, with one slot each, and no other. One that is refused is told
-- which of the two was not so, and gets no session.
pub resolve_hello_sys :
    (node_id session_id : Text) (d : Declared)
    → (refusal (resolve_hello worker_type_sys d) ≡ verdict d)
      × (session_of node_id session_id (resolve_hello worker_type_sys d) ≡ (
          if only_known d
            && (declares computer_use_capability d && declares read_image_capability d)
          then some (sys_session node_id session_id)
          else none))
unfolding resolve_hello
resolve_hello_sys node_id session_id d =
    rw (if_pos (text_discrete worker_type_sys worker_type_sys) refl) (
      rw (seen_capabilities_lem d false false)
        (resolved-refusal d, resolved-session node_id session_id (only_known d) _ _))
