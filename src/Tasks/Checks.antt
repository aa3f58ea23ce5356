-- ===== src/Tasks/Checks.antt =====
-- The checks of SubmitTask in console/internal/grpcserver/task.go: what holds of a request that passes.
use onlyboxes_mcp.Prelude.{
  ℕ, ◌≤◌, ◌<◌, ◌≡◌, false, Option, none, some, arith, is_empty, ltb, if◌then◌else◌, inl, inr,
  Bool-cases,
}
use onlyboxes_mcp.Prelude.Text.{Text, text, trim_space}
use onlyboxes_mcp.Naming.{normalize_capability}
use onlyboxes_mcp.Scope.{Result, ok, err, scope_task_input}
use onlyboxes_mcp.Tasks.Execute.{Env}
use onlyboxes_mcp.Tasks.Submit.{
  Mode, sync, async, auto, Request, Checked, Verdict, accepted, rejected, or_default, cut,
  default_task_timeout, default_task_wait, max_task_timeout, max_task_wait, check_durations,
  check_scoped, check_mode, check_request, parse_task_mode,
}

-- The durations are positive and within their limits, and in automatic mode the wait is no longer
-- than the timeout.
pub record Bounded (c : Checked) : Type 0 where
  pub timeout_pos : 0 < c.timeout
  pub timeout_max : c.timeout ≤ max_task_timeout
  pub wait_pos : 0 < c.wait
  pub wait_max : c.wait ≤ max_task_wait
  pub auto_cut : c.mode ≡ auto → c.wait ≤ c.timeout
  pub named : is_empty c.capability ≡ false
  pub owned : is_empty c.owner ≡ false

abbrev pub IsBounded : Verdict → Type 0
IsBounded (rejected e) = Unit {0}
IsBounded (accepted c) = Bounded c

or_default_pos : (n d : ℕ) → 0 < d → 0 < or_default n d
or_default_pos n d h = ground (arith, h)

cut_pos : (mode : Mode) (wait timeout : ℕ) → 0 < wait → 0 < timeout → 0 < cut mode wait timeout
cut_pos auto wait timeout h k = ground (arith, h, k)
cut_pos sync wait timeout h k = h
cut_pos async wait timeout h k = h

cut_le : (mode : Mode) (wait timeout : ℕ) → cut mode wait timeout ≤ wait
cut_le auto wait timeout = ground arith
cut_le sync wait timeout = omega arith
cut_le async wait timeout = omega arith

cut_auto : (mode : Mode) (wait timeout : ℕ) → mode ≡ auto → cut mode wait timeout ≤ timeout
cut_auto auto wait timeout h = ground arith
cut_auto sync wait timeout h = cc
cut_auto async wait timeout h = cc

module _ (r : Request) (capability owner : Text) (mode : Mode) (named : is_empty capability ≡ false)
    (owned : is_empty owner ≡ false) where
  durations-IsBounded : (input : Text) → IsBounded (check_durations r capability owner mode input)
  durations-IsBounded input =
      let timeout = or_default r.timeout default_task_timeout in
      let wait = or_default r.wait default_task_wait in
      let tp : 0 < timeout = or_default_pos r.timeout default_task_timeout (omega arith) in
      let wp : 0 < wait = or_default_pos r.wait default_task_wait (omega arith) in
      elim (Bool-cases (ltb max_task_timeout timeout)) [
        | inl e ↦ rw e tt
        | inr e ↦ rw e (elim (Bool-cases (ltb max_task_wait wait)) [
          | inl f ↦ rw f tt
          | inr f ↦ rw f (record {
            timeout_pos = tp;
            timeout_max = ground (arith, e);
            wait_pos = cut_pos mode wait timeout wp tp;
            wait_max = ground (arith, f, cut_le mode wait timeout);
            auto_cut = λ h. cut_auto mode wait timeout h;
            named = named;
            owned = owned;
          })
        ])
      ]

  scoped-IsBounded : (input : Result) → IsBounded (check_scoped r capability owner mode input)
  scoped-IsBounded (ok input) = durations-IsBounded input
  scoped-IsBounded (err e) = tt

mode-IsBounded :
    (env : Env) (new_session : Option Text) (r : Request) (capability owner : Text)
    (mode : Option Mode)
    → is_empty capability ≡ false
    → is_empty owner ≡ false
    → IsBounded (check_mode env new_session r capability owner mode)
mode-IsBounded env new_session r capability owner none n o = tt
mode-IsBounded env new_session r capability owner (some mode) n o =
    let input : Text = if is_empty r.input_json then text "{}" else r.input_json in
    elim (Bool-cases (env.json_valid input)) [
      | inl e ↦ rw e (
          scoped-IsBounded r capability owner mode n o
            (scope_task_input env.codec capability owner new_session input))
      | inr e ↦ rw e tt
    ]

-- A request that passes SubmitTask's checks has a capability and an owner, a timeout of more than
-- nothing and at most ten minutes, and a wait of more than nothing and at most a minute, which in
-- automatic mode is no longer than the timeout; whatever durations the request asks for, and whatever
-- the JSON codec and the session id generator do.
pub check_request-IsBounded :
    (env : Env) (new_session : Option Text) (r : Request)
    → IsBounded (check_request env new_session r)
unfolding check_request
check_request-IsBounded env new_session r =
    elim (Bool-cases (is_empty (normalize_capability r.capability))) [
      | inl e ↦ rw e tt
      | inr e ↦ rw e (elim (Bool-cases (is_empty (trim_space r.owner_id))) [
        | inl f ↦ rw f tt
        | inr f ↦ rw f (
            mode-IsBounded env new_session r (normalize_capability r.capability)
              (trim_space r.owner_id) (parse_task_mode r.mode) e f)
      ])
    ]
