-- ===== src/Tasks/Results.antt =====
-- What console/internal/grpcserver/task.go promises to its callers.
use onlyboxes_mcp.Prelude.{ℕ, ◌≡◌, ◌≢◌, refl, sym, subst, Option, none, some, arith}
use onlyboxes_mcp.Prelude.Text.{Text}
use onlyboxes_mcp.Prelude.Map.{Distinct}
use onlyboxes_mcp.Errors.{Error}
use onlyboxes_mcp.Tasks.Settled.{Later, Later-of_same, Later-trans}
use onlyboxes_mcp.Tasks.Operations.{
  Respects, maybe_prune_expired_tasks-Later, cancel_task-Later, execute_task-Later,
}
use onlyboxes_mcp.Tasks.Creation.{Unique, Unique-Later}
use onlyboxes_mcp.Tasks.Submission.{
  Grown-Later, Grown-Unique, create_task-Grown, reserve_request_rows, release_request_rows,
}
use onlyboxes_mcp.Tasks.Execute.{Env, Dispatched, cancel_task, execute_task}
use onlyboxes_mcp.Tasks.Submit.{
  Request, Checked, Verdict, accepted, rejected, check_request, reserve_request, release_request,
  create_task, submit_task, submit_reserved, submit_checked,
}
use onlyboxes_mcp.Tasks.{Tasks, maybe_prune_expired_tasks}

module _ (meanwhile : Tasks → Tasks) (unavailable : Option Error) (new_id : Option Text)
    (now : ℕ) where
  submit_reserved-Later :
      (j : Text) (c : Checked) (s : Tasks) (o : Option Tasks)
      → new_id ≢ some j
      → Respects j meanwhile
      → reserve_request s c ≡ o
      → Later j s (submit_reserved meanwhile c unavailable new_id now s o).0
  submit_reserved-Later j c s none apart m e = Later-of_same j s s refl (omega arith)
  submit_reserved-Later j c s (some t) apart m e =
      let made = (create_task (meanwhile t) c unavailable new_id now).0 in
      let same = reserve_request_rows s t c e in
      let kept = release_request_rows made c in
      Later-trans j s t _ (Later-of_same j s t same.0 (omega (arith, same.1))) (
        Later-trans j t (meanwhile t) _ (m t) (
          Later-trans j (meanwhile t) made _
            (Grown-Later c new_id now j (meanwhile t) made apart
              (create_task-Grown c now (meanwhile t) unavailable new_id))
            (Later-of_same j made (release_request c made) kept.0 (omega (arith, kept.1)))))

  submit_checked-Later :
      (j : Text) (s : Tasks) (v : Verdict)
      → new_id ≢ some j
      → Respects j meanwhile
      → Distinct s.rows
      → Later j s (submit_checked meanwhile s unavailable new_id now v).0
  submit_checked-Later j s (rejected e) apart m d = Later-of_same j s s refl (omega arith)
  submit_checked-Later j s (accepted c) apart m d =
      let pruned = maybe_prune_expired_tasks s now in
      Later-trans j s pruned _ (maybe_prune_expired_tasks-Later j s now d)
        (submit_reserved-Later j c pruned (reserve_request pruned c) apart m refl)

  submit_reserved-Unique :
      (c : Checked) (s : Tasks) (o : Option Tasks)
      → ((t : Tasks) → Unique t.rows → Unique (meanwhile t).rows)
      → reserve_request s c ≡ o
      → Unique s.rows
      → Unique (submit_reserved meanwhile c unavailable new_id now s o).0.rows
  submit_reserved-Unique c s none m e u = u
  submit_reserved-Unique c s (some t) m e u =
      let made = (create_task (meanwhile t) c unavailable new_id now).0 in
      subst Unique (sym (release_request_rows made c).0) (
        Grown-Unique c new_id now (meanwhile t) made
          (create_task-Grown c now (meanwhile t) unavailable new_id)
          (m t (subst Unique (sym (reserve_request_rows s t c e).0) u)))

  submit_checked-Unique :
      (s : Tasks) (v : Verdict)
      → ((t : Tasks) → Unique t.rows → Unique (meanwhile t).rows)
      → Distinct s.rows
      → Unique s.rows
      → Unique (submit_checked meanwhile s unavailable new_id now v).0.rows
  submit_checked-Unique s (rejected e) m d u = u
  submit_checked-Unique s (accepted c) m d u =
      let pruned = maybe_prune_expired_tasks s now in
      submit_reserved-Unique c pruned (reserve_request pruned c) m refl
        (Unique-Later s pruned (λ j. maybe_prune_expired_tasks-Later j s now d) u)

-- Neither CancelTask, nor executeTask, nor SubmitTask changes what identifies another task or an
-- ended one: from the state before to that after, a task keeps its owner, request id, capability,
-- input, creation time and deadline; a task that has a terminal status keeps its row as it is or is
-- removed; a task that is not there does not appear, but for the one that SubmitTask creates; and
-- the keys of the table stay distinct. Database calls may fail. What other requests do in the
-- meantime is any change of which the same holds; SubmitTask starts from distinct keys, and its new
-- task has another id.
pub tasks_kept :
    (env : Env) (picking meanwhile : Tasks → Tasks) (j : Text) (s : Tasks) (now : ℕ)
    → Respects j picking
    → Respects j meanwhile
    → ((id owner : Text) → Later j s (cancel_task meanwhile s id owner now).0)
      × ((id owner capability : Text) (command : Option Text) (d : Dispatched)
          → Later j s (execute_task env picking meanwhile s id owner capability command d now))
      × ((r : Request) (new_session new_id : Option Text) (unavailable : Option Error)
          → new_id ≢ some j
          → Distinct s.rows
          → Later j s (submit_task env meanwhile s r new_session unavailable new_id now).0)
unfolding submit_task
tasks_kept env picking meanwhile j s now k m = (
  λ id owner. cancel_task-Later meanwhile j s id owner now m,
  λ id owner capability command d.
      execute_task-Later env picking meanwhile j id owner capability d now s k m command,
  λ r new_session new_id unavailable apart d.
      submit_checked-Later meanwhile unavailable new_id now j s (check_request env new_session r)
        apart m d,
)

-- An owner has at most one task with a given request id, unless the request id is empty, before
-- SubmitTask and after it, with any answers of the database, the registry and the id generators, and
-- where other requests keep this in the meantime; and so it is with CancelTask and executeTask,
-- where other requests create no task in the meantime. The keys of the table are distinct.
pub request_ids-Unique :
    (env : Env) (picking meanwhile : Tasks → Tasks) (s : Tasks) (now : ℕ)
    → Distinct s.rows
    → Unique s.rows
    → ((r : Request) (new_session new_id : Option Text) (unavailable : Option Error)
        → ((t : Tasks) → Unique t.rows → Unique (meanwhile t).rows)
        → Unique (submit_task env meanwhile s r new_session unavailable new_id now).0.rows)
      × ((id owner capability : Text) (command : Option Text) (d : Dispatched)
          → ((j : Text) → Respects j picking)
          → ((j : Text) → Respects j meanwhile)
          → Unique (cancel_task meanwhile s id owner now).0.rows
            × Unique (execute_task env picking meanwhile s id owner capability command d now).rows)
unfolding submit_task
request_ids-Unique env picking meanwhile s now d u = (
  λ r new_session new_id unavailable m.
      submit_checked-Unique meanwhile unavailable new_id now s (check_request env new_session r) m d
        u,
  λ id owner capability command e k m. (
    Unique-Later s _ (λ j. cancel_task-Later meanwhile j s id owner now (m j)) u,
    Unique-Later s _
        (λ j.
          execute_task-Later env picking meanwhile j id owner capability e now s (k j) (m j)
            command)
        u,
  ),
)
