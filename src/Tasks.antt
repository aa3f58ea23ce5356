-- ===== src/Tasks.antt =====
-- console/internal/grpcserver/task.go: the tasks of the console, in the table and in the index of
-- those in flight. A read of the clock is an argument, in milliseconds. The database may fail at any
-- call: the state carries, for the calls to come, whether each fails.
pub mod Table
pub mod Execute
pub mod Submit
pub mod Rows
pub mod Settled
pub mod Operations
pub mod Ended
pub mod Execution
pub mod Checks
pub mod Creation
pub mod Submission
pub mod Results
pub mod Requests
pub mod Owners
mod Examples
use onlyboxes_mcp.Prelude.{
  ℕ, ◌+◌, ◌*◌, ◌≡◌, ite, Bool, true, false, ◌&&◌, ◌||◌, Option, none, some, List, [], ◌∷◌, ◌++◌,
  ltb, leb, ◌==◌, if◌then◌else◌, is_empty, is_some,
}
use onlyboxes_mcp.Prelude.Text.{Text, text, text_discrete, trim_space, to_lower}
use onlyboxes_mcp.Prelude.Map.{Map, get, put, delete}
use onlyboxes_mcp.Errors.{
  Error, status, no_capability_worker, no_worker_capacity, deadline_exceeded, canceled,
  task_not_found, task_terminal, transition_not_applied, command_error, other,
  status_deadline_exceeded, Code, task_request_in_progress,
}
use Table.{
  Status, Row, Terminal, is_terminal_status, mark_task_dispatched, mark_task_running,
  mark_task_terminal, delete_expired, find_request,
}

-- The fields of RegistryService that tasks use. `active` are the keys of `tasks`; the channel and
-- the context of a taskRecord that was closed or canceled are in `finished` and `canceled_runs`.
-- `critical` counts the calls of criticalPersistenceFailureFn.
pub record Tasks : Type 0 where
  pub rows : Map Row
  pub faults : List Bool
  pub active : Map (Unit {0})
  pub finished : Map (Unit {0})
  pub canceled_runs : Map (Unit {0})
  pub reservations : Map (Unit {0})
  pub retention_ms : ℕ
  pub last_prune : ℕ
  pub critical : ℕ

abbrev pub fails : List Bool → Bool
fails [] = false
fails (b ∷ bs) = b

abbrev pub spent : List Bool → List Bool
spent [] = []
spent (b ∷ bs) = bs

-- The state after one more call of the database.
abbrev pub called : Tasks → Tasks
called s = record s { faults = spent s.faults }

abbrev pub database_error : Error
database_error = other (text "database error")

-- isTaskTerminal
unfoldable pub is_task_terminal : Status → Bool
is_task_terminal s = is_terminal_status s

-- TaskSnapshot, and whether CompletedAt is there.
pub record Snapshot : Type 0 where
  pub task_id : Text
  pub request_id : Text
  pub command_id : Text
  pub capability : Text
  pub status : Status
  pub result_json : Text
  pub error_code : Text
  pub error_message : Text
  pub created_at : ℕ
  pub updated_at : ℕ
  pub deadline_at : ℕ
  pub completed_at : Option ℕ

-- snapshotTask after convertDBTask
unfoldable pub snapshot_task : Text → Row → Snapshot
snapshot_task id r = record {
  task_id = id;
  request_id = r.request_id;
  command_id = r.command_id;
  capability = r.capability;
  status = r.status;
  result_json = r.result_json;
  error_code = r.error_code;
  error_message = r.error_message;
  created_at = r.created_at;
  updated_at = r.updated_at;
  deadline_at = r.deadline_at;
  completed_at = if ltb 0 r.completed_at then some r.completed_at else none;
}

-- getTaskByID: a failed read is no task.
unfoldable pub get_task_by_id : Tasks → Text → Tasks × Option Row
get_task_by_id s id = (called s, if fails s.faults then none else get id s.rows)

unfoldable pub get_task_by_owner_and_request : Tasks → Text → Text → Tasks × Option (Text × Row)
get_task_by_owner_and_request s owner request =
    (called s, if fails s.faults then none else find_request owner request s.rows)

-- closeTaskRuntimeRecord after the record was found: cancel once, close `done` once.
unfoldable pub complete_task_runtime : Tasks → Text → Tasks
complete_task_runtime s id = elim (get id s.active) [
  | none ↦ s
  | some _ ↦ record s {
    active = delete id s.active;
    canceled_runs = put id tt s.canceled_runs;
    finished = put id tt s.finished;
  }
]

-- The rows and the error after an UPDATE by id.
abbrev pub updated : Tasks → Map Row × ℕ → Tasks × Option Error
updated s (rows, n) =
    if fails s.faults
    then (called s, some database_error)
    else if n == 0
    then (called s, some transition_not_applied)
    else (record (called s) { rows = rows }, none)

unfoldable pub mark_dispatched : Tasks → Text → ℕ → Tasks × Option Error
mark_dispatched s id now =
    if is_empty (trim_space id)
    then (s, some (other (text "task_id is required")))
    else updated s (mark_task_dispatched id now s.rows)

unfoldable pub mark_running : Tasks → Text → Text → ℕ → Tasks × Option Error
mark_running s id command_id now =
    if is_empty (trim_space id)
    then (s, some (other (text "task_id is required")))
    else updated s (mark_task_running id (trim_space command_id) now s.rows)

-- The runtime record is completed whether or not the update succeeds.
abbrev pub completed : Text → Tasks × Option Error → Tasks × Option Error
completed id (s, e) = (complete_task_runtime s id, e)

-- finishTask
unfoldable pub finish_task : Tasks → Text → Status → Text → Text → Text → ℕ → Tasks × Option Error
finish_task s task_id new_status result code message completed_at =
    let id = trim_space task_id in
    if is_empty id
    then (s, some (other (text "task_id is required")))
    else completed id (
        updated s (
          mark_task_terminal id
            (record {
              status = new_status;
              result_json = result;
              error_code = trim_space code;
              error_message = trim_space message;
              completed_at = completed_at;
              expires_at = completed_at + s.retention_ms;
            })
            s.rows))

-- The status, the code and the message by which finishTaskWithError records an error; `shown` is the
-- text that Error() gives.
unfoldable pub failure_of : (Error → Text) → Error → Status × Text × Text
failure_of shown no_capability_worker =
    (Status.failed, text "no_worker", text "no online worker supports capability")
failure_of shown no_worker_capacity =
    (Status.failed, text "no_capacity", text "no online worker capacity for capability")
failure_of shown deadline_exceeded = (Status.timeout, text "timeout", text "task timed out")
failure_of shown canceled = (Status.canceled, text "canceled", text "task canceled")
failure_of shown (command_error code message) = (
  Status.failed,
  (if is_empty (trim_space code) then text "dispatch_failed" else trim_space code),
  message,
)
failure_of shown (status status_deadline_exceeded message) =
    (Status.timeout, text "timeout", text "task timed out")
failure_of shown e = (Status.failed, text "dispatch_failed", shown e)

unfoldable pub finish_task_with_error :
    (Error → Text) → Tasks → Text → Error → ℕ → Tasks × Option Error
unfolding finish_task failure_of
finish_task_with_error shown s id e now =
    let (new_status, code, message) = failure_of shown e in
    finish_task s id new_status [] code message now

abbrev pub noted : Tasks × Option Error → Tasks × Option Error
noted (s, none) = (s, none)
noted (s, some e) = (record s { critical = s.critical + 1 }, some e)

-- failTaskOnPersistenceError; the error that it returns wraps the second one.
unfoldable pub fail_task_on_persistence_error :
    (Error → Text) → Tasks → Text → Text → Error → ℕ → Tasks × Option Error
unfolding finish_task
fail_task_on_persistence_error shown s id stage cause now = noted (
    finish_task s id Status.failed [] (text "persistence_error")
      (text "failed to persist task state at "
        ++ (stage_or (trim_space stage) ++ (text ": " ++ shown cause)))
      now)
  where
    stage_or : Text → Text
    stage_or [] = text "unknown_stage"
    stage_or (c ∷ t) = c ∷ t

-- The snapshot of the row, if it is the owner's.
abbrev pub owned_snapshot : Text → Text → Option Row → Option Snapshot
owned_snapshot id owner none = none
owned_snapshot id owner (some r) =
    ite (text_discrete r.owner_id owner) (some (snapshot_task id r)) none

-- GetTask
unfoldable pub get_task : Tasks → Text → Text → Tasks × Option Snapshot
unfolding get_task_by_id
get_task s task_id owner_id =
    let id = trim_space task_id in
    if is_empty id
    then (s, none)
    else (called s, owned_snapshot id (trim_space owner_id) (get_task_by_id s id).1)

-- pruneExpiredTasks, by the query's own error.
unfoldable pub prune_expired_tasks : Tasks → ℕ → Tasks
prune_expired_tasks s now =
    if fails s.faults then called s else record (called s) { rows = (delete_expired now s.rows).0 }

abbrev pub inline_prune_interval : ℕ
inline_prune_interval = 15000

unfoldable pub maybe_prune_expired_tasks : Tasks → ℕ → Tasks
unfolding prune_expired_tasks
maybe_prune_expired_tasks s now =
    if ltb 0 s.last_prune && ltb now (s.last_prune + inline_prune_interval)
    then s
    else prune_expired_tasks (record s { last_prune = now }) now
