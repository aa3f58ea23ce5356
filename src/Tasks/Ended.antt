-- ===== src/Tasks/Ended.antt =====
-- finishTask and its callers in console/internal/grpcserver/task.go: what is finished is at rest
-- afterwards, or its failure is reported through criticalPersistenceFailureFn.
use onlyboxes_mcp.Prelude.{
  ℕ, ◌≤◌, ◌<◌, ◌≡◌, refl, ap, ◌∙◌, true, false, Option, none, some, arith, is_empty, inl, inr, ◌⊎◌,
  Bool-cases, ◌==◌, if_pos,
}
use onlyboxes_mcp.Prelude.Text.{Text, trim_space}
use onlyboxes_mcp.Prelude.Map.{get}
use onlyboxes_mcp.Errors.{Error, Code, transition_not_applied}
use onlyboxes_mcp.Scope.{restore_task_result}
use onlyboxes_mcp.Tasks.Table.{
  Row, Status, Terminal, is_active, is_terminal_status, update_active, mark_task_terminal,
  set_terminal,
}
use onlyboxes_mcp.Tasks.Rows.{row_after, changed, get-update_active, update_active_count}
use onlyboxes_mcp.Tasks.Settled.{Follows, Later, finish_task-Later, finish_task_with_error-Later}
use onlyboxes_mcp.Tasks.Execute.{
  Env, Dispatched, outcome, error, or_fallback, finish_scoped, finish_error, finish_dispatched,
  completion, result_payload,
}
use onlyboxes_mcp.Tasks.{
  Tasks, fails, updated, completed, noted, complete_task_runtime, finish_task,
  finish_task_with_error, failure_of, fail_task_on_persistence_error,
}

-- There is no such task, or its status is a terminal one.
abbrev pub AtRest : Option Row → Type 0
AtRest none = Unit
AtRest (some r) = is_terminal_status r.status ≡ true

-- The task is at rest, or a failure was reported since.
abbrev pub Ended : Text → Tasks → Tasks → Type 0
Ended id s t = AtRest (get id t.rows) ⊎ (s.critical < t.critical)

AtRest-after : (p q : Option Row) → Follows p q → AtRest p → AtRest q
AtRest-after none q h r = rw h tt
AtRest-after (some p) none h r = tt
AtRest-after (some p) (some q) h r = ap (λ x. is_terminal_status x.status) (h.1 r) ∙ r

-- What was ended stays so.
pub Ended-after : (id : Text) (s t u : Tasks) → Ended id s t → Later id t u → Ended id s u
Ended-after id s t u (inl a) h = inl (AtRest-after (get id t.rows) (get id u.rows) h.row a)
Ended-after id s t u (inr c) h = inr (omega (arith, c, h.counted))

pub Ended-before : (id : Text) (s t u : Tasks) → Later id s t → Ended id t u → Ended id s u
Ended-before id s t u h (inl a) = inl a
Ended-before id s t u h (inr c) = inr (omega (arith, c, h.counted))

-- What an update of the row reports: it failed, or the row is at rest.
Reported : Text → Tasks × Option Error → Type 0
Reported id (t, none) = AtRest (get id t.rows)
Reported id (t, some transition_not_applied) = AtRest (get id t.rows)
Reported id (t, some e) = Unit {0}

pub inactive_terminal : (s : Status) → is_active s ≡ false → is_terminal_status s ≡ true
inactive_terminal Status.queued h = cc
inactive_terminal Status.dispatched h = cc
inactive_terminal Status.running h = cc
inactive_terminal Status.succeeded h = refl
inactive_terminal Status.failed h = refl
inactive_terminal Status.timeout h = refl
inactive_terminal Status.canceled h = refl

row_after-AtRest :
    (t : Terminal) (q : Option Row)
    → is_terminal_status t.status ≡ true
    → AtRest (row_after (set_terminal t) q)
row_after-AtRest t none h = tt
row_after-AtRest t (some r) h = elim (Bool-cases (is_active r.status)) [
  | inl e ↦ rw e h
  | inr e ↦ rw e (inactive_terminal r.status e)
]

pub changed-AtRest : (q : Option Row) → changed q ≡ 0 → AtRest q
changed-AtRest none h = tt
changed-AtRest (some r) h = elim (Bool-cases (is_active r.status)) [
  | inl e ↦ ground (arith, h, e)
  | inr e ↦ inactive_terminal r.status e
]

-- The table's rows by id after an UPDATE that sets a terminal status.
updated-Reported :
    (id : Text) (s : Tasks) (t : Terminal)
    → is_terminal_status t.status ≡ true
    → Reported id (updated s (update_active (set_terminal t) id s.rows))
unfolding Reported
updated-Reported id s t h = elim (Bool-cases (fails s.faults)) [
  | inl e ↦ rw e tt
  | inr e ↦ rw e (elim (Bool-cases ((update_active (set_terminal t) id s.rows).1 == 0)) [
    | inl z ↦ rw z (
        changed-AtRest (get id s.rows)
          (ground (arith, z, update_active_count (set_terminal t) id s.rows)))
    | inr z ↦ rw z (
        rw (get-update_active (set_terminal t) id id s.rows)
          (rw (if_pos _ refl) (row_after-AtRest t (get id s.rows) h)))
  ])
]

complete-rows : (s : Tasks) (id : Text) → (complete_task_runtime s id).rows ≡ s.rows
unfolding complete_task_runtime
complete-rows s id = ground arith

completed-Reported :
    (id : Text) (u : Tasks × Option Error) → Reported id u → Reported id (completed id u)
unfolding Reported
completed-Reported id (t, none) h = rw (complete-rows t id) h
completed-Reported id (t, some transition_not_applied) h = rw (complete-rows t id) h
completed-Reported id (t, some _) h = h

finish_at-Reported :
    (id : Text) (s : Tasks) (t : Terminal)
    → is_terminal_status t.status ≡ true
    → Reported id (completed id (updated s (mark_task_terminal id t s.rows)))
unfolding mark_task_terminal
finish_at-Reported id s t h =
    completed-Reported id (updated s (update_active (set_terminal t) id s.rows))
      (updated-Reported id s t h)

-- An id that has no white space around it and is not empty.
abbrev pub IsId : Text → Type 0
IsId id = (trim_space id ≡ id) × (is_empty id ≡ false)

finish_task-Reported :
    (id : Text) (s : Tasks) (st : Status) (result code message : Text) (at : ℕ)
    → IsId id
    → is_terminal_status st ≡ true
    → Reported id (finish_task s id st result code message at)
unfolding finish_task
finish_task-Reported id s st result code message at n h =
    rw (n.0, n.1) (finish_at-Reported id s _ h)

-- What failure_of records is a terminal status.
pub failure_of_terminal :
    (shown : Error → Text) (e : Error) → is_terminal_status (failure_of shown e).0 ≡ true
unfolding failure_of
failure_of_terminal shown (Error.status Code.status_deadline_exceeded m) = refl
failure_of_terminal shown _ = refl

noted-Ended :
    (id : Text) (s : Tasks) (u : Tasks × Option Error)
    → s.critical ≤ u.0.critical
    → Reported id u
    → Ended id s (noted u).0
unfolding Reported
noted-Ended id s (t, none) h r = inl r
noted-Ended id s (t, some e) h r = inr (omega (arith, h))

pub fail_task-Ended :
    (shown : Error → Text) (id stage : Text) (e : Error) (now : ℕ) (s : Tasks)
    → IsId id
    → Ended id s (fail_task_on_persistence_error shown s id stage e now).0
unfolding fail_task_on_persistence_error
fail_task-Ended shown id stage e now s n =
    noted-Ended id s _ (finish_task-Later id s id Status.failed _ _ _ now).counted
      (finish_task-Reported id s Status.failed _ _ _ now n refl)

or_fallback-Ended :
    (env : Env) (id stage : Text) (now : ℕ) (s : Tasks) (u : Tasks × Option Error)
    → IsId id
    → Later id s u.0
    → Reported id u
    → Ended id s (or_fallback env id stage now u)
unfolding Reported
or_fallback-Ended env id stage now s (t, none) n h r = inl r
or_fallback-Ended env id stage now s (t, some transition_not_applied) n h r = inl r
or_fallback-Ended env id stage now s (t, some e) n h r =
    Ended-before id s t (fail_task_on_persistence_error env.shown t id stage e now).0 h
      (fail_task-Ended env.shown id stage e now t n)

module _ (env : Env) (id owner capability : Text) (now : ℕ) (n : IsId id) where
  finish_scoped-Ended :
      (at : ℕ) (s : Tasks) (q : Option Text) → Ended id s (finish_scoped env s id now at q)
  finish_scoped-Ended at s none =
      or_fallback-Ended env id _ now s _ n (finish_task-Later id s id Status.failed _ _ _ at)
        (finish_task-Reported id s Status.failed _ _ _ at n refl)
  finish_scoped-Ended at s (some payload) =
      or_fallback-Ended env id _ now s _ n (finish_task-Later id s id Status.succeeded _ _ _ at)
        (finish_task-Reported id s Status.succeeded _ _ _ at n refl)

  finish_error-Ended : (e : Error) (s : Tasks) → Ended id s (finish_error env s id e now)
  unfolding finish_task_with_error
  finish_error-Ended e s =
      or_fallback-Ended env id _ now s _ n (finish_task_with_error-Later env.shown id s id e now) (
        finish_task-Reported id s (failure_of env.shown e).0 _ _ _ now n
          (failure_of_terminal env.shown e))

  finish_outcome-Ended :
      (at : ℕ) (s : Tasks) (payload : Text) (err : Option Error)
      → Ended id s (elim err [
        | some e ↦ finish_error env s id e now
        | none ↦
            finish_scoped env s id now at (restore_task_result env.codec owner capability payload)
      ])
  finish_outcome-Ended at s payload none = finish_scoped-Ended at s _
  finish_outcome-Ended at s payload (some e) = finish_error-Ended e s

  pub finish_dispatched-Ended :
      (d : Dispatched) (s : Tasks) → Ended id s (finish_dispatched env s id owner capability d now)
  unfolding finish_dispatched
  finish_dispatched-Ended (error e) s = finish_error-Ended e s
  finish_dispatched-Ended (outcome o) s =
      finish_outcome-Ended (completion now o) s (result_payload env o) o.err
