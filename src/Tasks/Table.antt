-- ===== src/Tasks/Table.antt =====
-- The tasks table and its queries: console/internal/persistence/sqlc/tasks.sql.go, whose SQL is run
-- by the database, over the table that console/db/migrations declares. The primary key is the key of
-- a map. What an UPDATE or a DELETE reports is how many rows it changed.
use onlyboxes_mcp.Prelude.{
  ℕ, ◌+◌, ite, Bool, true, false, ◌&&◌, Option, none, some, [], ◌∷◌, leb, ltb, if◌then◌else◌,
  is_empty, is_some, not,
}
use onlyboxes_mcp.Prelude.Text.{Text, text_discrete}
use onlyboxes_mcp.Prelude.Map.{Map, get, put}

-- TaskStatus; the table's CHECK admits no other value.
pub data Status : Type 0 where
  queued dispatched running succeeded failed timeout canceled : Status

pub record Row : Type 0 where
  pub owner_id : Text
  pub request_id : Text
  pub capability : Text
  pub input_json : Text
  pub status : Status
  pub command_id : Text
  pub result_json : Text
  pub error_code : Text
  pub error_message : Text
  pub created_at : ℕ
  pub updated_at : ℕ
  pub deadline_at : ℕ
  pub completed_at : ℕ
  pub expires_at : ℕ

-- status IN ('queued', 'dispatched', 'running')
abbrev pub is_active : Status → Bool
is_active queued = true
is_active dispatched = true
is_active running = true
is_active _ = false

-- status IN ('succeeded', 'failed', 'timeout', 'canceled')
abbrev pub is_terminal_status : Status → Bool
is_terminal_status succeeded = true
is_terminal_status failed = true
is_terminal_status timeout = true
is_terminal_status canceled = true
is_terminal_status _ = false

unfoldable pub update_found : (Row → Row) → Text → Map Row → Option Row → Map Row × ℕ
update_found f id rows none = (rows, 0)
update_found f id rows (some r) = if is_active r.status then (put id (f r) rows, 1) else (rows, 0)

-- UPDATE tasks SET … WHERE task_id = ? AND status IN ('queued', 'dispatched', 'running')
unfoldable pub update_active : (Row → Row) → Text → Map Row → Map Row × ℕ
unfolding update_found
update_active f id rows = update_found f id rows (get id rows)

abbrev pub set_dispatched : ℕ → Row → Row
set_dispatched now r = record r { status = dispatched; updated_at = now }

unfoldable pub mark_task_dispatched : Text → ℕ → Map Row → Map Row × ℕ
unfolding update_active
mark_task_dispatched id now = update_active (set_dispatched now) id

abbrev pub set_running : Text → ℕ → Row → Row
set_running command now r = record r { status = running; command_id = command; updated_at = now }

unfoldable pub mark_task_running : Text → Text → ℕ → Map Row → Map Row × ℕ
unfolding update_active
mark_task_running id command now = update_active (set_running command now) id

-- MarkTaskTerminalParams
pub record Terminal : Type 0 where
  pub status : Status
  pub result_json : Text
  pub error_code : Text
  pub error_message : Text
  pub completed_at : ℕ
  pub expires_at : ℕ

abbrev pub set_terminal : Terminal → Row → Row
set_terminal t r = record r {
  status = t.status;
  result_json = t.result_json;
  error_code = t.error_code;
  error_message = t.error_message;
  updated_at = t.completed_at;
  completed_at = t.completed_at;
  expires_at = t.expires_at;
}

unfoldable pub mark_task_terminal : Text → Terminal → Map Row → Map Row × ℕ
unfolding update_active
mark_task_terminal id t = update_active (set_terminal t) id

-- The WHERE clause of DeleteExpiredTerminalTasks.
abbrev pub is_expired : ℕ → Row → Bool
is_expired now r = is_terminal_status r.status && (ltb 0 r.expires_at && leb r.expires_at now)

unfoldable pub delete_expired : ℕ → Map Row → Map Row × ℕ
delete_expired now [] = ([], 0)
delete_expired now ((id, r) ∷ rest) =
    let (kept, n) = delete_expired now rest in
    if is_expired now r then (kept, n + 1) else ((id, r) ∷ kept, n)

-- GetTaskByOwnerAndRequest: the first row that fits, with its key.
unfoldable pub find_request : Text → Text → Map Row → Option (Text × Row)
find_request owner request [] = none
find_request owner request ((id, r) ∷ rest) =
    ite (text_discrete r.owner_id owner)
      (ite (text_discrete r.request_id request) (some (id, r)) (find_request owner request rest))
      (find_request owner request rest)

-- What an INSERT may say: the row is in, or a constraint is violated, that on the owner and the
-- request or that on the key.
pub data Inserted : Type 0 where
  inserted : Map Row → Inserted
  request_conflict id_conflict : Inserted

abbrev pub insert_checked : Text → Row → Map Row → Bool → Bool → Inserted
insert_checked id r rows true request_taken = id_conflict
insert_checked id r rows false true = request_conflict
insert_checked id r rows false false = inserted (put id r rows)

-- INSERT, under the primary key and the unique index on (owner_id, request_id) where the request is
-- not empty.
unfoldable pub insert_task : Text → Row → Map Row → Inserted
insert_task id r rows =
    insert_checked id r rows (is_some (get id rows))
      (not (is_empty r.request_id) && is_some (find_request r.owner_id r.request_id rows))
