-- ===== src/Tasks/Submit.antt =====
-- SubmitTask of console/internal/grpcserver/task.go: the checks, the reservation of the request id,
-- and the creation of the task. Durations are nanoseconds, and one that is 0 or less is 0.
use onlyboxes_mcp.Prelude.{
  ℕ, ◌+◌, ◌*◌, ◌/◌, ite, not, Option, none, some, [], ltb, ◌==◌, if◌then◌else◌, is_empty,
}
use onlyboxes_mcp.Prelude.Text.{Text, text, text_discrete, trim_space, to_lower}
use onlyboxes_mcp.Prelude.Map.{get, put, delete}
use onlyboxes_mcp.Errors.{Error, status, invalid_argument, internal, task_request_in_progress}
use onlyboxes_mcp.Naming.{normalize_capability}
use onlyboxes_mcp.Scope.Ids.{task_request_scope_key}
use onlyboxes_mcp.Scope.{scope_task_input, Result, ok, err}
use onlyboxes_mcp.Tasks.Table.{
  Status, Row, insert_task, Inserted, inserted, request_conflict, id_conflict,
}
use onlyboxes_mcp.Tasks.Execute.{Env}
use onlyboxes_mcp.Tasks.{
  Tasks, fails, called, get_task_by_owner_and_request, maybe_prune_expired_tasks,
}

pub data Mode : Type 0 where
  sync async auto : Mode

-- ParseTaskMode
unfoldable pub parse_task_mode : Text → Option Mode
parse_task_mode raw =
    let mode = trim_space (to_lower raw) in
    if is_empty mode
    then some auto
    else ite (text_discrete mode (text "sync")) (some sync) (
        ite (text_discrete mode (text "async")) (some async)
          (ite (text_discrete mode (text "auto")) (some auto) none))

abbrev pub default_task_wait : ℕ
default_task_wait = 1500 * 1000000

abbrev pub default_task_timeout : ℕ
default_task_timeout = 60 * 1000000000

abbrev pub max_task_wait : ℕ
max_task_wait = 60 * 1000000000

abbrev pub max_task_timeout : ℕ
max_task_timeout = 600 * 1000000000

-- SubmitTaskRequest
pub record Request : Type 0 where
  pub capability : Text
  pub input_json : Text
  pub mode : Text
  pub wait : ℕ
  pub timeout : ℕ
  pub request_id : Text
  pub owner_id : Text

-- A request that passed the checks.
pub record Checked : Type 0 where
  pub capability : Text
  pub owner : Text
  pub input : Text
  pub mode : Mode
  pub wait : ℕ
  pub timeout : ℕ
  pub request_id : Text

pub data Verdict : Type 0 where
  accepted : Checked → Verdict
  rejected : Error → Verdict

abbrev pub or_default : ℕ → ℕ → ℕ
or_default n d = if n == 0 then d else n

-- In automatic mode the wait is cut to the timeout.
abbrev pub cut : Mode → ℕ → ℕ → ℕ
cut auto wait timeout = if ltb timeout wait then timeout else wait
cut sync wait timeout = wait
cut async wait timeout = wait

abbrev pub bad : Text → Verdict
bad message = rejected (status invalid_argument message)

abbrev pub check_durations : Request → Text → Text → Mode → Text → Verdict
check_durations r capability owner mode input =
    let timeout = or_default r.timeout default_task_timeout in
    let wait = or_default r.wait default_task_wait in
    if ltb max_task_timeout timeout
    then bad (text "timeout exceeds maximum allowed value")
    else if ltb max_task_wait wait
    then bad (text "wait exceeds maximum allowed value")
    else accepted (record {
      capability = capability;
      owner = owner;
      input = input;
      mode = mode;
      wait = cut mode wait timeout;
      timeout = timeout;
      request_id = trim_space r.request_id;
    })

abbrev pub check_scoped : Request → Text → Text → Mode → Result → Verdict
check_scoped r capability owner mode (err e) = rejected e
check_scoped r capability owner mode (ok input) = check_durations r capability owner mode input

abbrev pub check_mode : Env → Option Text → Request → Text → Text → Option Mode → Verdict
check_mode env new_session r capability owner none =
    bad (text "mode must be one of sync|async|auto")
check_mode env new_session r capability owner (some mode) =
    let input = if is_empty r.input_json then text "{}" else r.input_json in
    if not (env.json_valid input)
    then bad (text "input must be valid JSON")
    else check_scoped r capability owner mode
        (scope_task_input env.codec capability owner new_session input)

-- The checks of SubmitTask, in its order; `new_session` is what the session id generator returns.
unfoldable pub check_request : Env → Option Text → Request → Verdict
unfolding parse_task_mode
check_request env new_session r =
    let capability = normalize_capability r.capability in
    let owner = trim_space r.owner_id in
    if is_empty capability
    then bad (text "capability is required")
    else if is_empty owner
    then bad (text "owner_id is required")
    else check_mode env new_session r capability owner (parse_task_mode r.mode)

-- What SubmitTask goes on to: an error, the waiting for an existing task, or that for a new task,
-- whose execution it starts.
pub data Submitted : Type 0 where
  refused : Error → Submitted
  existing : Text → Submitted
  created : Text → Submitted

abbrev pub reserve_key : Text → Tasks → Option (Unit {0}) → Option Tasks
reserve_key key s (some _) = none
reserve_key key s none = some (record s { reservations = put key tt s.reservations })

-- The reservation of the request id; `none` where another request holds it.
unfoldable pub reserve_request : Tasks → Checked → Option Tasks
reserve_request s c =
    if is_empty c.request_id
    then some s
    else (let key = task_request_scope_key c.owner c.request_id in
        reserve_key key s (get key s.reservations))

-- The deferred release, and that before the execution starts.
unfoldable pub release_request : Checked → Tasks → Tasks
release_request c s = if is_empty c.request_id then s else record s {
  reservations = delete (task_request_scope_key c.owner c.request_id) s.reservations;
}

abbrev pub failed_to : Text → Submitted
failed_to message = refused (status internal message)

abbrev pub new_row : Checked → ℕ → Row
new_row c now = record {
  owner_id = c.owner;
  request_id = c.request_id;
  capability = c.capability;
  input_json = c.input;
  status = Status.queued;
  command_id = [];
  result_json = [];
  error_code = [];
  error_message = [];
  created_at = now;
  updated_at = now;
  deadline_at = now + c.timeout / 1000000;
  completed_at = 0;
  expires_at = 0;
}

abbrev pub found_or : Tasks → Option (Text × Row) → Submitted → Tasks × Submitted
found_or s none other = (s, other)
found_or s (some (id, r)) other = (s, existing id)

-- The insert and what follows it.
abbrev pub insert_result : Tasks → Checked → Text → Inserted → Tasks × Submitted
insert_result s c id (inserted rows) =
    (record s { rows = rows; active = put id tt s.active }, created id)
insert_result s c id id_conflict = (s, failed_to (text "failed to create task"))
insert_result s c id request_conflict =
    if is_empty c.request_id
    then (s, failed_to (text "failed to create task"))
    else let (t, found) = get_task_by_owner_and_request s c.owner c.request_id in
      found_or t found (failed_to (text "failed to create task"))

abbrev pub insert_new : Tasks → Checked → Option Text → ℕ → Tasks × Submitted
insert_new s c none now = (s, failed_to (text "failed to create task_id"))
insert_new s c (some id) now =
    if fails s.faults
    then (called s, failed_to (text "failed to create task"))
    else insert_result (called s) c id (insert_task id (new_row c now) s.rows)

abbrev pub create_available : Tasks → Checked → Option Error → Option Text → ℕ → Tasks × Submitted
create_available s c (some e) new_id now = (s, refused e)
create_available s c none new_id now = insert_new s c new_id now

abbrev pub existing_or :
    Checked → Option Error → Option Text → ℕ → Tasks × Option (Text × Row) → Tasks × Submitted
existing_or c unavailable new_id now (t, none) = create_available t c unavailable new_id now
existing_or c unavailable new_id now (t, some (id, r)) = (t, existing id)

-- The request id's task, where it has one, and else a new task, if a worker is available.
unfoldable pub create_task : Tasks → Checked → Option Error → Option Text → ℕ → Tasks × Submitted
unfolding insert_task get_task_by_owner_and_request
create_task s c unavailable new_id now =
    if is_empty c.request_id
    then create_available s c unavailable new_id now
    else existing_or c unavailable new_id now (get_task_by_owner_and_request s c.owner c.request_id)

abbrev pub released : Checked → Tasks × Submitted → Tasks × Submitted
released c (s, answer) = (release_request c s, answer)

abbrev pub submit_reserved :
    (Tasks → Tasks)
    → Checked
    → Option Error
    → Option Text
    → ℕ
    → Tasks
    → Option Tasks
    → Tasks × Submitted
submit_reserved meanwhile c unavailable new_id now s none = (s, refused task_request_in_progress)
submit_reserved meanwhile c unavailable new_id now s (some t) =
    released c (create_task (meanwhile t) c unavailable new_id now)

abbrev pub submit_checked :
    (Tasks → Tasks) → Tasks → Option Error → Option Text → ℕ → Verdict → Tasks × Submitted
submit_checked meanwhile s unavailable new_id now (rejected e) = (s, refused e)
submit_checked meanwhile s unavailable new_id now (accepted c) =
    let pruned = maybe_prune_expired_tasks s now in
    submit_reserved meanwhile c unavailable new_id now pruned (reserve_request pruned c)

-- SubmitTask up to its waiting, with what other requests do between the reservation and the rest.
-- Where the task exists already, the code holds the reservation until its waiting is over.
unfoldable pub submit_task :
    Env
    → (Tasks → Tasks)
    → Tasks
    → Request
    → Option Text
    → Option Error
    → Option Text
    → ℕ
    → Tasks × Submitted
unfolding check_request create_task reserve_request release_request
submit_task env meanwhile s r new_session unavailable new_id now =
    submit_checked meanwhile s unavailable new_id now (check_request env new_session r)
