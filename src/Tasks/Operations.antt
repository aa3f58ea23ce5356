-- ===== src/Tasks/Operations.antt =====
-- console/internal/grpcserver/task.go: CancelTask, executeTask and SubmitTask keep what the tasks of
-- other requests, and those that have ended, rely on. `meanwhile` is any change that does so too.
use onlyboxes_mcp.Prelude.{
  ◌&&◌, ltb, ℕ, ◌+◌, refl, Option, none, some, arith, is_empty, inl, inr, Bool-cases,
}
use onlyboxes_mcp.Prelude.Text.{Text, trim_space}
use onlyboxes_mcp.Prelude.Map.{get, Distinct}
use onlyboxes_mcp.Errors.{Error, transition_not_applied}
use onlyboxes_mcp.Scope.{restore_task_result}
use onlyboxes_mcp.Tasks.Table.{Row, Status}
use onlyboxes_mcp.Tasks.Rows.{get-delete_expired, delete_expired-Distinct}
use onlyboxes_mcp.Tasks.Settled.{
  Later, Later-of_same, Later-trans, kept-Follows, finish_task-Later, fail_task-Later,
  finish_task_with_error-Later, mark_dispatched-Later, mark_running-Later,
}
use onlyboxes_mcp.Tasks.Execute.{
  Env, Dispatched, outcome, error, cancel_task, cancel_found, cancel_finished, cancel_lost,
  cancel_done, or_fallback, finish_scoped, finish_error, finish_dispatched, cancel_run,
  after_running, run_command, after_dispatched, execute_task, completion, result_payload,
}
use onlyboxes_mcp.Tasks.{
  inline_prune_interval, Tasks, fails, called, get_task_by_id, is_task_terminal, mark_dispatched,
  mark_running, prune_expired_tasks, maybe_prune_expired_tasks,
}

-- A change that other requests may make to the state while one waits.
abbrev pub Respects : Text → (Tasks → Tasks) → Type 0
Respects j meanwhile = (s : Tasks) → Later j s (meanwhile s)

pub prune_expired_tasks-Later :
    (j : Text) (s : Tasks) (now : ℕ) → Distinct s.rows → Later j s (prune_expired_tasks s now)
unfolding prune_expired_tasks
prune_expired_tasks-Later j s now d = elim (Bool-cases (fails s.faults)) [
  | inl e ↦ rw e (Later-of_same j s _ refl (omega arith))
  | inr e ↦ rw e (record {
    row = rw (get-delete_expired now j s.rows d) (kept-Follows now (get j s.rows));
    distinct = delete_expired-Distinct now s.rows;
    counted = omega arith;
  })
]

Later-refl : (j : Text) (s : Tasks) → Later j s s
Later-refl j s = Later-of_same j s s refl (omega arith)

read-Later : (j : Text) (s : Tasks) → Later j s (called s)
read-Later j s = Later-of_same j s (called s) refl (omega arith)

cancel_lost-Later :
    (j id : Text) (s t : Tasks) (q : Option Row) → Later j s t → Later j s (cancel_lost id t q).0
cancel_lost-Later j id s t none h = h
cancel_lost-Later j id s t (some r) h =
    unfold is_task_terminal in
    elim (Bool-cases (is_task_terminal r.status)) [ inl e ↦ rw e h | inr e ↦ rw e h ]

cancel_done-Later :
    (j id : Text) (s t : Tasks) (q : Option Row) → Later j s t → Later j s (cancel_done id t q).0
cancel_done-Later j id s t none h = h
cancel_done-Later j id s t (some r) h = h

cancel_finished-Later :
    (j id owner : Text) (s : Tasks) (u : Tasks × Option Error)
    → Later j s u.0
    → Later j s (cancel_finished id owner u).0
unfolding get_task_by_id
cancel_finished-Later j id owner s (t, none) h =
    cancel_done-Later j id s (called t) _ (Later-trans j s t (called t) h (read-Later j t))
cancel_finished-Later j id owner s (t, some transition_not_applied) h =
    cancel_lost-Later j id s (called t) _ (Later-trans j s t (called t) h (read-Later j t))
cancel_finished-Later j id owner s (t, some _) h = h

cancel_found-Later :
    (meanwhile : Tasks → Tasks) (j id owner : Text) (now : ℕ) (s : Tasks) (q : Option Row)
    → Respects j meanwhile
    → Later j s (cancel_found meanwhile id owner now s q).0
cancel_found-Later meanwhile j id owner now s none m = Later-refl j s
cancel_found-Later meanwhile j id owner now s (some r) m =
    elim (Bool-cases (is_task_terminal r.status)) [
      | inl e ↦ rw e (Later-refl j s)
      | inr e ↦ rw e (
          cancel_finished-Later j id owner s _ (
            Later-trans j s (meanwhile s) _ (m s)
              (finish_task-Later j (meanwhile s) id Status.canceled _ _ _ now)))
    ]

pub cancel_task-Later :
    (meanwhile : Tasks → Tasks) (j : Text) (s : Tasks) (task_id owner_id : Text) (now : ℕ)
    → Respects j meanwhile
    → Later j s (cancel_task meanwhile s task_id owner_id now).0
unfolding cancel_task get_task_by_id
cancel_task-Later meanwhile j s task_id owner_id now m =
    elim (Bool-cases (is_empty (trim_space task_id))) [
      | inl e ↦ rw e (Later-refl j s)
      | inr e ↦ rw e (
          Later-trans j s (called s) _ (read-Later j s) (
            cancel_found-Later meanwhile j (trim_space task_id) (trim_space owner_id) now (called s)
              _ m))
    ]

or_fallback-Later :
    (env : Env) (j id stage : Text) (now : ℕ) (s : Tasks) (u : Tasks × Option Error)
    → Later j s u.0
    → Later j s (or_fallback env id stage now u)
or_fallback-Later env j id stage now s (t, none) h = h
or_fallback-Later env j id stage now s (t, some transition_not_applied) h = h
or_fallback-Later env j id stage now s (t, some e) h =
    Later-trans j s t _ h (fail_task-Later env.shown j t id stage e now)

finish_scoped-Later :
    (env : Env) (j id : Text) (now at : ℕ) (s : Tasks) (q : Option Text)
    → Later j s (finish_scoped env s id now at q)
finish_scoped-Later env j id now at s none =
    or_fallback-Later env j id _ now s _ (finish_task-Later j s id Status.failed _ _ _ at)
finish_scoped-Later env j id now at s (some payload) =
    or_fallback-Later env j id _ now s _ (finish_task-Later j s id Status.succeeded _ _ _ at)

finish_error-Later :
    (env : Env) (j id : Text) (e : Error) (now : ℕ) (s : Tasks)
    → Later j s (finish_error env s id e now)
finish_error-Later env j id e now s =
    or_fallback-Later env j id _ now s _ (finish_task_with_error-Later env.shown j s id e now)

finish_outcome-Later :
    (env : Env) (j id owner capability : Text) (now at : ℕ) (s : Tasks) (payload : Text)
    (err : Option Error)
    → Later j s (elim err [
      | some e ↦ finish_error env s id e now
      | none ↦
          finish_scoped env s id now at (restore_task_result env.codec owner capability payload)
    ])
finish_outcome-Later env j id owner capability now at s payload none =
    finish_scoped-Later env j id now at s _
finish_outcome-Later env j id owner capability now at s payload (some e) =
    finish_error-Later env j id e now s

finish_dispatched-Later :
    (env : Env) (j id owner capability : Text) (d : Dispatched) (now : ℕ) (s : Tasks)
    → Later j s (finish_dispatched env s id owner capability d now)
unfolding finish_dispatched
finish_dispatched-Later env j id owner capability (error e) now s =
    finish_error-Later env j id e now s
finish_dispatched-Later env j id owner capability (outcome o) now s =
    finish_outcome-Later env j id owner capability now (completion now o) s (result_payload env o)
      o.err

cancel_run-Later : (j id : Text) (s : Tasks) → Later j s (cancel_run id s)
cancel_run-Later j id s = Later-of_same j s (cancel_run id s) (ground arith) (ground arith)

module _ (env : Env) (picking meanwhile : Tasks → Tasks) (j id owner capability : Text)
    (d : Dispatched) (now : ℕ) (s : Tasks) (k : Respects j picking) (m : Respects j meanwhile) where
  finish-Later :
      (before : Tasks → Tasks) (t : Tasks)
      → Respects j before
      → Later j s t
      → Later j s (finish_dispatched env (before t) id owner capability d now)
  finish-Later before t m h =
      Later-trans j s (before t) _ (Later-trans j s t (before t) h (m t))
        (finish_dispatched-Later env j id owner capability d now (before t))

  canceled-Later : (t : Tasks) → Later j s t → Later j s (meanwhile (cancel_run id t))
  canceled-Later t h = Later-trans j s t (meanwhile (cancel_run id t)) h (
      Later-trans j t (cancel_run id t) (meanwhile (cancel_run id t)) (cancel_run-Later j id t)
        (m _))

  after_running-Later :
      (u : Tasks × Option Error)
      → Later j s u.0
      → Later j s (after_running env meanwhile id owner capability d now u)
  after_running-Later (t, none) h = finish-Later meanwhile t m h
  after_running-Later (t, some transition_not_applied) h = canceled-Later t h
  after_running-Later (t, some e) h =
      Later-trans j s (meanwhile (cancel_run id t)) _ (canceled-Later t h)
        (fail_task-Later env.shown j _ id _ e now)

  run_command-Later :
      (command : Option Text) (t : Tasks)
      → Later j s t
      → Later j s (run_command env picking meanwhile t id owner capability command d now)
  run_command-Later none t h = finish-Later picking t k h
  run_command-Later (some c) t h = after_running-Later (mark_running (picking t) id c now) (
      Later-trans j s (picking t) _ (Later-trans j s t (picking t) h (k t))
        (mark_running-Later j (picking t) id c now))

  after_dispatched-Later :
      (command : Option Text) (u : Tasks × Option Error)
      → Later j s u.0
      → Later j s (after_dispatched env picking meanwhile id owner capability command d now u)
  after_dispatched-Later command (t, none) h = run_command-Later command t h
  after_dispatched-Later command (t, some transition_not_applied) h = h
  after_dispatched-Later command (t, some e) h =
      Later-trans j s t _ h (fail_task-Later env.shown j t id _ e now)

  pub execute_task-Later :
      (command : Option Text)
      → Later j s (execute_task env picking meanwhile s id owner capability command d now)
  unfolding execute_task
  execute_task-Later command =
      after_dispatched-Later command (mark_dispatched s id now) (mark_dispatched-Later j s id now)

pub maybe_prune_expired_tasks-Later :
    (j : Text) (s : Tasks) (now : ℕ) → Distinct s.rows → Later j s (maybe_prune_expired_tasks s now)
unfolding maybe_prune_expired_tasks
maybe_prune_expired_tasks-Later j s now d =
    elim (Bool-cases (ltb 0 s.last_prune && ltb now (s.last_prune + inline_prune_interval))) [
      | inl e ↦ rw e (Later-refl j s)
      | inr e ↦ rw e (
          Later-trans j s (record s { last_prune = now }) _
            (Later-of_same j s (record s { last_prune = now }) refl (omega arith))
            (prune_expired_tasks-Later j (record s { last_prune = now }) now d))
    ]
