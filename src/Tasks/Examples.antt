-- ===== src/Tasks/Examples.antt =====
-- Runs of console/internal/grpcserver/task.go on concrete tasks.
use onlyboxes_mcp.Prelude.{
  ◌∙◌, sym, ◌≡◌, ◌≢◌, refl, true, false, Option, none, some, [], ◌∷◌, arith,
}
use onlyboxes_mcp.Prelude.Text.{Text, text, text_discrete, trim_space, to_lower}
use onlyboxes_mcp.Prelude.Map.{Map, get, put, delete, Distinct}
use onlyboxes_mcp.Errors.{Error, task_terminal}
use onlyboxes_mcp.Tasks.Table.{Row, Status, find_request, insert_task, delete_expired}
use onlyboxes_mcp.Tasks.Settled.{Later, Later-of_same}
use onlyboxes_mcp.Tasks.Operations.{Respects, cancel_task-Later}
use onlyboxes_mcp.Tasks.Ended.{Ended}
use onlyboxes_mcp.Tasks.Execution.{execute_task_ends}
use onlyboxes_mcp.Tasks.Checks.{IsBounded, check_request-IsBounded}
use onlyboxes_mcp.Tasks.Creation.{Unique}
use onlyboxes_mcp.Tasks.Results.{tasks_kept, request_ids-Unique}
use onlyboxes_mcp.Tasks.Requests.{Repeated, reserving, is_reserved, resubmit_same_task}
use onlyboxes_mcp.Naming.{normalize_capability}
use onlyboxes_mcp.Scope.{scope_task_input}
use onlyboxes_mcp.Scope.Ids.{normalize_task_owner_id}
use onlyboxes_mcp.Tasks.Owners.{unowned-hidden, cancel_task_race, answer, canceled_row}
use onlyboxes_mcp.Tasks.Execute.{Env, Dispatched, outcome, execute_task, cancel_task}
use onlyboxes_mcp.Tasks.Submit.{
  accepted, parse_task_mode, reserve_request, release_request, check_request, Checked, Request,
  Mode, new_row, create_task, submit_task,
}
use onlyboxes_mcp.Tasks.{
  maybe_prune_expired_tasks, prune_expired_tasks, get_task, Snapshot, Tasks, called,
  get_task_by_owner_and_request, snapshot_task, is_task_terminal,
}

abbrev env : Env
env = record {
  shown = λ e. text "error";
  json_valid = λ t. true;
  echo_payload = λ t. t;
  codec = record {
    decode_exec = λ t. none;
    encode_exec = λ p. [];
    decode_resource = λ t. none;
    encode_resource = λ p. [];
    decode_object = λ t. none;
    encode_object = λ m. [];
  };
}

abbrev checked : Checked
checked = record {
  capability = text "echo";
  owner = text "alice";
  input = text "{}";
  mode = Mode.sync;
  wait = 1000000;
  timeout = 2000000000;
  request_id = text "r1";
}

abbrev idle : Tasks
idle = record {
  rows = [];
  faults = [];
  active = [];
  finished = [];
  canceled_runs = [];
  reservations = [];
  retention_ms = 600000;
  last_prune = 0;
  critical = 0;
}

-- One queued task, of Alice.
abbrev queued : Tasks
queued = record idle { rows = (text "t1", new_row checked 100) ∷ []; active = (text "t1", tt) ∷ [] }

-- The next three calls of the database: the first works, the others fail.
abbrev failing : Tasks
failing = record queued { faults = false ∷ true ∷ true ∷ [] }

nothing : Tasks → Tasks
nothing s = s

nothing-Respects : (j : Text) → Respects j nothing
unfolding nothing
nothing-Respects j = λ s. Later-of_same j s s refl (omega arith)

-- Alice cancels the task while it runs.
canceling : Tasks → Tasks
canceling s = (cancel_task nothing s (text "t1") (text "alice") 150).0

canceling-Respects : (j : Text) → Respects j canceling
unfolding canceling
canceling-Respects j =
    λ s. cancel_task-Later nothing j s (text "t1") (text "alice") 150 (nothing-Respects j)

abbrev done : Dispatched
done = outcome (record { payload = text "hi"; message = []; err = none; completed_at = 200 })

execute_task_ends_example : Ended (text "t1") failing (
    execute_task env canceling canceling failing
      (text "t1")
      (text "alice")
      (text "echo")
      (some (text "c1"))
      done
      120)
unfolding trim_space
execute_task_ends_example =
    execute_task_ends env canceling canceling (text "t1") (text "alice") (text "echo") done 120
      (refl, refl) (canceling-Respects (text "t1")) (canceling-Respects (text "t1"))
      (some (text "c1")) failing

request : Request
request = record {
  capability = text "echo";
  input_json = [];
  mode = [];
  wait = 0;
  timeout = 0;
  request_id = text "r2";
  owner_id = text "alice";
}

tasks_kept_example :
    ((id owner : Text) → Later (text "t1") failing (cancel_task canceling failing id owner 130).0)
    × ((id owner capability : Text) (command : Option Text) (d : Dispatched)
        → Later
            (text "t1")
            failing
            (execute_task env canceling canceling failing id owner capability command d 130))
    × ((r : Request) (new_session new_id : Option Text) (unavailable : Option Error)
        → new_id ≢ some (text "t1")
        → Distinct failing.rows
        → Later
            (text "t1")
            failing
            (submit_task env canceling failing r new_session unavailable new_id 130).0)
tasks_kept_example =
    tasks_kept env canceling canceling (text "t1") failing 130 (canceling-Respects (text "t1"))
      (canceling-Respects (text "t1"))

only_one : (i : Text) (r : Row) → get i queued.rows ≡ some r → i ≡ text "t1"
unfolding get
only_one i r h = elim (text_discrete i (text "t1")) [ yes e ↦ e | no e ↦ ground (arith, h, e) ]

queued-Unique : Unique queued.rows
queued-Unique i j r q hi hj o e n = only_one i r hi ∙ sym (only_one j q hj)

request_ids-Unique_example :
    ((r : Request) (new_session new_id : Option Text) (unavailable : Option Error)
      → ((t : Tasks) → Unique t.rows → Unique (canceling t).rows)
      → Unique (submit_task env canceling queued r new_session unavailable new_id 130).0.rows)
    × ((id owner capability : Text) (command : Option Text) (d : Dispatched)
        → ((j : Text) → Respects j canceling)
        → ((j : Text) → Respects j canceling)
        → Unique (cancel_task canceling queued id owner 130).0.rows
          × Unique
              (execute_task env canceling canceling queued id owner capability command d 130).rows)
unfolding get
request_ids-Unique_example =
    request_ids-Unique env canceling canceling queued 130 (refl, tt) queued-Unique

-- What the request is when it has been checked.
abbrev checked_request : Checked
checked_request = record {
  capability = text "echo";
  owner = text "alice";
  input = text "{}";
  mode = Mode.auto;
  wait = 1500000000;
  timeout = 60000000000;
  request_id = text "r2";
}

request_checks : check_request env none request ≡ accepted checked_request
unfolding check_request parse_task_mode trim_space to_lower normalize_capability text_discrete
    scope_task_input request normalize_task_owner_id
request_checks = refl

abbrev submitted : Tasks
submitted = (submit_task env nothing idle request none none (some (text "t1")) 100).0

only_t1 : (i : Text) (r : Row) → get i submitted.rows ≡ some r → i ≡ text "t1"
unfolding check_request parse_task_mode trim_space to_lower normalize_capability text_discrete
    scope_task_input request normalize_task_owner_id submit_task create_task
    get_task_by_owner_and_request find_request insert_task get put delete nothing
    maybe_prune_expired_tasks prune_expired_tasks delete_expired reserve_request release_request
only_t1 i r h = elim (text_discrete i (text "t1")) [ yes e ↦ e | no e ↦ ground (arith, h, e) ]

resubmit_same_task_example :
    Repeated
      (text "t1")
      (is_reserved checked_request (maybe_prune_expired_tasks submitted 900))
      (maybe_prune_expired_tasks submitted 900)
      (nothing (reserving checked_request (maybe_prune_expired_tasks submitted 900)))
      (submit_task env nothing submitted request none none (some (text "t2")) 900)
unfolding check_request parse_task_mode trim_space to_lower normalize_capability text_discrete
    scope_task_input request normalize_task_owner_id submit_task create_task
    get_task_by_owner_and_request find_request insert_task get put delete nothing
    maybe_prune_expired_tasks prune_expired_tasks delete_expired reserve_request release_request
resubmit_same_task_example =
    resubmit_same_task env nothing nothing idle submitted request request none none none none
      (some (text "t1")) (some (text "t2")) 100 900 checked_request checked_request (text "t1")
      request_checks request_checks (refl, refl, refl) refl
      (Later-of_same (text "t1") _ _ refl (omega arith)) (refl, tt) (nothing-Respects (text "t1"))
      refl (λ i j r q hi hj o e n. only_t1 i r hi ∙ sym (only_t1 j q hj)) refl

abbrev first_snapshot : Snapshot
first_snapshot = snapshot_task (text "t1") (new_row checked 100)

not_bobs : text "alice" ≢ trim_space (text "bob")
unfolding trim_space
not_bobs e = cc

unowned-hidden_example :
    ((get_task queued (text "t1") (text "bob")).1
      ≡ (get_task
          (record queued { rows = delete (trim_space (text "t1")) queued.rows })
          (text "t1")
          (text "bob")).1)
    × ((cancel_task canceling queued (text "t1") (text "bob") 130).1
        ≡ (cancel_task canceling
            (record queued { rows = delete (trim_space (text "t1")) queued.rows })
            (text "t1")
            (text "bob")
            130).1)
    × ((cancel_task canceling queued (text "t1") (text "bob") 130).0.rows ≡ queued.rows)
unfolding trim_space get text_discrete
unowned-hidden_example =
    unowned-hidden canceling queued (text "t1") (text "bob") 130 (new_row checked 100) refl refl
      not_bobs

cancel_task_race_example :
    (true ≡ true
      → (answer (cancel_task nothing queued (text "t1") (text "alice") 130) ≡ (
        some (
            snapshot_task
              (text "t1")
              (canceled_row (nothing (called queued)) 130 (new_row checked 100))),
        none,
      ))
        × (get (text "t1") (cancel_task nothing queued (text "t1") (text "alice") 130).0.rows
            ≡ some (canceled_row (nothing (called queued)) 130 (new_row checked 100)))
        × (get (text "t1") (cancel_task nothing queued (text "t1") (text "alice") 130).0.active
            ≡ none))
    × (true ≡ false
        → (answer (cancel_task nothing queued (text "t1") (text "alice") 130)
            ≡ (some (snapshot_task (text "t1") (new_row checked 100)), some task_terminal))
          × (get (text "t1") (cancel_task nothing queued (text "t1") (text "alice") 130).0.rows
              ≡ some (new_row checked 100)))
unfolding trim_space get nothing is_task_terminal text_discrete
cancel_task_race_example =
    cancel_task_race nothing queued (text "t1") (text "alice") 130 (new_row checked 100)
      (new_row checked 100) (refl, refl) refl refl refl refl refl

check_request-IsBounded_example : IsBounded (check_request env none request)
check_request-IsBounded_example = check_request-IsBounded env none request

abbrev queued_later : Map Row
queued_later = (text "t2", new_row checked 600) ∷ []

-- The first task has failed, and its row expires at 700.
abbrev old_rows : Map Row
old_rows =
    (text "t1", record (new_row checked 100) { status = Status.failed; expires_at = 700 })
    ∷ queued_later
