-- ===== src/Tasks/Execution.antt =====
-- executeTask of console/internal/grpcserver/task.go, from the queued task to its end.
use onlyboxes_mcp.Prelude.{ℕ, Option, none, some, arith, is_empty, inl, inr, Bool-cases, ◌==◌}
use onlyboxes_mcp.Prelude.Text.{Text, text, trim_space}
use onlyboxes_mcp.Prelude.Map.{get}
use onlyboxes_mcp.Errors.{Error, transition_not_applied}
use onlyboxes_mcp.Tasks.Table.{
  Row, set_dispatched, set_running, update_active, mark_task_dispatched, mark_task_running,
}
use onlyboxes_mcp.Tasks.Rows.{update_active_count}
use onlyboxes_mcp.Tasks.Settled.{
  Later, Later-of_same, Later-trans, mark_dispatched-Later, mark_running-Later,
}
use onlyboxes_mcp.Tasks.Operations.{Respects}
use onlyboxes_mcp.Tasks.Execute.{
  Env, Dispatched, finish_dispatched, cancel_run, after_running, run_command, after_dispatched,
  execute_task,
}
use onlyboxes_mcp.Tasks.{
  Tasks, fails, updated, fail_task_on_persistence_error, mark_dispatched, mark_running,
}
use onlyboxes_mcp.Tasks.Ended.{
  AtRest, Ended, IsId, Ended-after, Ended-before, changed-AtRest, fail_task-Ended,
  finish_dispatched-Ended,
}

-- What an update that was not applied says of the row.
Refused : Text → Tasks × Option Error → Type 0
Refused id (t, some transition_not_applied) = AtRest (get id t.rows)
Refused id (t, _) = Unit {0}

updated-Refused :
    (f : Row → Row) (id : Text) (s : Tasks) → Refused id (updated s (update_active f id s.rows))
unfolding Refused
updated-Refused f id s = elim (Bool-cases (fails s.faults)) [
  | inl e ↦ rw e tt
  | inr e ↦ rw e (elim (Bool-cases ((update_active f id s.rows).1 == 0)) [
    | inl z ↦
        rw z (changed-AtRest (get id s.rows) (ground (arith, z, update_active_count f id s.rows)))
    | inr z ↦ rw z tt
  ])
]

mark_dispatched-Refused : (s : Tasks) (id : Text) (now : ℕ) → Refused id (mark_dispatched s id now)
unfolding mark_dispatched mark_task_dispatched Refused
mark_dispatched-Refused s id now = elim (Bool-cases (is_empty (trim_space id))) [
  | inl e ↦ rw e tt
  | inr e ↦ rw e (updated-Refused (set_dispatched now) id s)
]

mark_running-Refused :
    (s : Tasks) (id command : Text) (now : ℕ) → Refused id (mark_running s id command now)
unfolding mark_running mark_task_running Refused
mark_running-Refused s id command now = elim (Bool-cases (is_empty (trim_space id))) [
  | inl e ↦ rw e tt
  | inr e ↦ rw e (updated-Refused (set_running (trim_space command) now) id s)
]

cancel_run-Later : (id : Text) (s : Tasks) → Later id s (cancel_run id s)
cancel_run-Later id s = Later-of_same id s (cancel_run id s) (ground arith) (ground arith)

module _ (env : Env) (picking meanwhile : Tasks → Tasks) (id owner capability : Text)
    (d : Dispatched) (now : ℕ) (n : IsId id) (k : Respects id picking)
    (m : Respects id meanwhile) where
  finish-Ended :
      (before : Tasks → Tasks) (s t : Tasks)
      → Respects id before
      → Later id s t
      → Ended id s (finish_dispatched env (before t) id owner capability d now)
  finish-Ended before s t m h =
      Ended-before id s (before t) (finish_dispatched env (before t) id owner capability d now)
        (Later-trans id s t (before t) h (m t))
        (finish_dispatched-Ended env id owner capability now n d (before t))

  after_running-Ended :
      (s : Tasks) (u : Tasks × Option Error)
      → Later id s u.0
      → Refused id u
      → Ended id s (after_running env meanwhile id owner capability d now u)
  unfolding Refused
  after_running-Ended s (t, none) h r = finish-Ended meanwhile s t m h
  after_running-Ended s (t, some transition_not_applied) h r =
      Ended-after id s t (meanwhile (cancel_run id t)) (inl r)
        (Later-trans id t (cancel_run id t) _ (cancel_run-Later id t) (m (cancel_run id t)))
  after_running-Ended s (t, some e) h r =
      let u = meanwhile (cancel_run id t) in
      Ended-before id s u
        (fail_task_on_persistence_error env.shown u id (text "mark_running") e now).0
        (Later-trans id s t u h
          (Later-trans id t (cancel_run id t) u (cancel_run-Later id t) (m (cancel_run id t))))
        (fail_task-Ended env.shown id (text "mark_running") e now u n)

  run_command-Ended :
      (command : Option Text) (s t : Tasks)
      → Later id s t
      → Ended id s (run_command env picking meanwhile t id owner capability command d now)
  run_command-Ended none s t h = finish-Ended picking s t k h
  run_command-Ended (some c) s t h =
      after_running-Ended s (mark_running (picking t) id c now)
        (Later-trans id s (picking t) (mark_running (picking t) id c now).0
          (Later-trans id s t (picking t) h (k t)) (mark_running-Later id (picking t) id c now))
        (mark_running-Refused (picking t) id c now)

  after_dispatched-Ended :
      (command : Option Text) (s : Tasks) (u : Tasks × Option Error)
      → Later id s u.0
      → Refused id u
      → Ended id s (after_dispatched env picking meanwhile id owner capability command d now u)
  unfolding Refused
  after_dispatched-Ended command s (t, none) h r = run_command-Ended command s t h
  after_dispatched-Ended command s (t, some transition_not_applied) h r = inl r
  after_dispatched-Ended command s (t, some e) h r =
      Ended-before id s t
        (fail_task_on_persistence_error env.shown t id (text "mark_dispatched") e now).0 h
        (fail_task-Ended env.shown id (text "mark_dispatched") e now t n)

  -- When executeTask returns, whatever the database calls and the dispatch gave, and whatever other
  -- requests did, before the task was marked as running and after it, that keeps ended tasks as they
  -- are and takes back no report, the task has a terminal status or is gone, or a failure was reported
  -- through criticalPersistenceFailureFn. The task's id is not empty and has no white space around it.
  pub execute_task_ends :
      (command : Option Text) (s : Tasks)
      → Ended id s (execute_task env picking meanwhile s id owner capability command d now)
  unfolding execute_task
  execute_task_ends command s =
      after_dispatched-Ended command s (mark_dispatched s id now)
        (mark_dispatched-Later id s id now) (mark_dispatched-Refused s id now)
