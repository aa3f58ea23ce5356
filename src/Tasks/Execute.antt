-- ===== src/Tasks/Execute.antt =====
-- CancelTask and executeTask of console/internal/grpcserver/task.go. Both wait, for the database or
-- for a worker, while other requests go on: `meanwhile` is what those do to the state. In executeTask
-- `picking` is what they do from the mark as dispatched until the worker's command is queued, and
-- `meanwhile` what they do from then until the dispatch returns.
use onlyboxes_mcp.Prelude.{
  ℕ, ite, Bool, ◌&&◌, not, Option, none, some, [], ◌==◌, if◌then◌else◌, is_empty,
}
use onlyboxes_mcp.Prelude.Text.{Text, text, text_discrete, trim_space}
use onlyboxes_mcp.Prelude.Map.{get, put}
use onlyboxes_mcp.Errors.{Error, task_not_found, task_terminal, transition_not_applied}
use onlyboxes_mcp.Session.Channels.{Outcome}
use onlyboxes_mcp.Scope.{Codec, restore_task_result}
use onlyboxes_mcp.Tasks.Table.{Status, Row}
use onlyboxes_mcp.Tasks.{
  Tasks, Snapshot, is_task_terminal, snapshot_task, get_task_by_id, finish_task,
  finish_task_with_error, fail_task_on_persistence_error, mark_dispatched, mark_running,
}

-- A snapshot, or none, and an error, or none.
abbrev pub Reply : Type 0
Reply = Tasks × Option Snapshot × Option Error

-- The row, if it is the owner's.
abbrev pub owned : Text → Option Row → Option Row
owned owner none = none
owned owner (some r) = ite (text_discrete r.owner_id owner) (some r) none

-- After the update was not applied: the task is gone, or was completed by another request.
abbrev pub cancel_lost : Text → Tasks → Option Row → Reply
cancel_lost id s none = (s, none, some task_not_found)
cancel_lost id s (some r) =
    if is_task_terminal r.status
    then (s, some (snapshot_task id r), some task_terminal)
    else (s, none, some transition_not_applied)

abbrev pub cancel_done : Text → Tasks → Option Row → Reply
cancel_done id s none = (s, none, some task_not_found)
cancel_done id s (some r) = (s, some (snapshot_task id r), none)

abbrev pub reread : (Tasks → Option Row → Reply) → Tasks × Option Row → Reply
reread k (s, r) = k s r

abbrev pub cancel_finished : Text → Text → Tasks × Option Error → Reply
cancel_finished id owner (s, none) = reread (cancel_done id) (get_task_by_id s id)
cancel_finished id owner (s, some transition_not_applied) =
    reread (λ t r. cancel_lost id t (owned owner r)) (get_task_by_id s id)
cancel_finished id owner (s, some e) = (s, none, some e)

abbrev pub cancel_found : (Tasks → Tasks) → Text → Text → ℕ → Tasks → Option Row → Reply
cancel_found meanwhile id owner now s none = (s, none, some task_not_found)
cancel_found meanwhile id owner now s (some r) =
    if is_task_terminal r.status
    then (s, some (snapshot_task id r), some task_terminal)
    else cancel_finished id owner (
        finish_task (meanwhile s) id Status.canceled [] (text "canceled") (text "task canceled")
          now)

unfoldable pub cancel_task : (Tasks → Tasks) → Tasks → Text → Text → ℕ → Reply
unfolding is_task_terminal
cancel_task meanwhile s task_id owner_id now =
    let id = trim_space task_id in
    if is_empty id
    then (s, none, some task_not_found)
    else reread
        (λ t r.
          cancel_found meanwhile id (trim_space owner_id) now t (owned (trim_space owner_id) r))
        (get_task_by_id s id)

-- What a task runs with: how errors print, json.Valid, buildEchoPayload, and the codec of scopes.
pub record Env : Type 0 where
  pub shown : Error → Text
  pub json_valid : Text → Bool
  pub echo_payload : Text → Text
  pub codec : Codec

-- What dispatchCommand did: the command id that it handed to onDispatched, if it got so far, and its
-- outcome or error.
pub data Dispatched : Type 0 where
  outcome : Outcome → Dispatched
  error : Error → Dispatched

-- A failed update is recorded as a failure of the task, unless another request completed the task.
abbrev pub or_fallback : Env → Text → Text → ℕ → Tasks × Option Error → Tasks
or_fallback env id stage now (s, none) = s
or_fallback env id stage now (s, some transition_not_applied) = s
or_fallback env id stage now (s, some e) =
    (fail_task_on_persistence_error env.shown s id stage e now).0

-- The payload that is recorded for a successful outcome, before its scope is restored.
unfoldable pub result_payload : Env → Outcome → Text
result_payload env o =
    let payload =
      if is_empty o.payload && not (is_empty (trim_space o.message))
      then env.echo_payload o.message
      else o.payload in
    if env.json_valid payload then payload else env.echo_payload payload

-- completedAt of the outcome; 0 is the zero time.
unfoldable pub completion : ℕ → Outcome → ℕ
completion now o = if o.completed_at == 0 then now else o.completed_at

abbrev pub finish_scoped : Env → Tasks → Text → ℕ → ℕ → Option Text → Tasks
finish_scoped env s id now at none = or_fallback env id (text "finish_invalid_payload") now (
    finish_task s id Status.failed [] (text "invalid_payload") (text "session_id owner mismatch")
      at)
finish_scoped env s id now at (some payload) =
    or_fallback env id (text "finish_succeeded") now
      (finish_task s id Status.succeeded payload [] [] at)

abbrev pub finish_error : Env → Tasks → Text → Error → ℕ → Tasks
finish_error env s id e now =
    or_fallback env id (text "finish_error") now (finish_task_with_error env.shown s id e now)

-- From the return of dispatchCommand on.
unfoldable pub finish_dispatched : Env → Tasks → Text → Text → Text → Dispatched → ℕ → Tasks
unfolding result_payload completion
finish_dispatched env s id owner capability (error e) now = finish_error env s id e now
finish_dispatched env s id owner capability (outcome o) now = elim o.err [
  | some e ↦ finish_error env s id e now
  | none ↦
      finish_scoped env s id now (completion now o)
        (restore_task_result env.codec owner capability (result_payload env o))
]

-- The callback of the dispatch marked the task as running, or failed to; then it canceled the run.
abbrev pub cancel_run : Text → Tasks → Tasks
cancel_run id s = elim (get id s.active) [
  | none ↦ s
  | some _ ↦ record s { canceled_runs = put id tt s.canceled_runs }
]

abbrev pub after_running :
    Env → (Tasks → Tasks) → Text → Text → Text → Dispatched → ℕ → Tasks × Option Error → Tasks
after_running env meanwhile id owner capability d now (s, none) =
    finish_dispatched env (meanwhile s) id owner capability d now
after_running env meanwhile id owner capability d now (s, some transition_not_applied) =
    meanwhile (cancel_run id s)
after_running env meanwhile id owner capability d now (s, some e) =
    (fail_task_on_persistence_error env.shown (meanwhile (cancel_run id s)) id (text "mark_running")
      e now).0

abbrev pub run_command :
    Env
    → (Tasks → Tasks)
    → (Tasks → Tasks)
    → Tasks
    → Text
    → Text
    → Text
    → Option Text
    → Dispatched
    → ℕ
    → Tasks
run_command env picking meanwhile s id owner capability none d now =
    finish_dispatched env (picking s) id owner capability d now
run_command env picking meanwhile s id owner capability (some command) d now =
    after_running env meanwhile id owner capability d now (mark_running (picking s) id command now)

abbrev pub after_dispatched :
    Env
    → (Tasks → Tasks)
    → (Tasks → Tasks)
    → Text
    → Text
    → Text
    → Option Text
    → Dispatched
    → ℕ
    → Tasks × Option Error
    → Tasks
after_dispatched env picking meanwhile id owner capability command d now (s, none) =
    run_command env picking meanwhile s id owner capability command d now
after_dispatched env picking meanwhile id owner capability command d now
      (s, some transition_not_applied) =
    s
after_dispatched env picking meanwhile id owner capability command d now (s, some e) =
    (fail_task_on_persistence_error env.shown s id (text "mark_dispatched") e now).0

unfoldable pub execute_task :
    Env
    → (Tasks → Tasks)
    → (Tasks → Tasks)
    → Tasks
    → Text
    → Text
    → Text
    → Option Text
    → Dispatched
    → ℕ
    → Tasks
unfolding finish_dispatched
execute_task env picking meanwhile s id owner capability command d now =
    after_dispatched env picking meanwhile id owner capability command d now
      (mark_dispatched s id now)
