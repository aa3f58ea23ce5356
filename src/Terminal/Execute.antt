-- ===== src/Terminal/Execute.antt =====
-- terminalSessionManager.Execute and createAndStartContainer of
-- worker/worker-docker/internal/runner/terminal_exec.go. The lock is held while a session is looked up
-- or made; then docker runs, while other calls go on: `meanwhile` is what those do.
use onlyboxes_mcp.Prelude.{
  ℤ, ℕ, ◌/◌, Bool, true, false, not, Option, none, some, List, ltb, ◌==◌, if◌then◌else◌, is_empty,
}
use onlyboxes_mcp.Prelude.Text.{Text, text, trim_space}
use onlyboxes_mcp.Prelude.Map.{get, put}
use onlyboxes_mcp.Terminal.{
  Manager, TerminalSession, ExecError, terminal_error, context_done, failed, add_duration,
  resolve_lease_duration, force_remove_container, mark_session_idle, drop_session, destroy_session,
  truncate_by_bytes, is_no_such_container,
}

-- terminalExecRequest
pub record Request : Type 0 where
  pub command : Text
  pub session_id : Text
  pub create_if_missing : Bool
  pub lease_ttl_sec : Option ℤ

-- The random names: a new session id, and a container's name or none.
pub record Names : Type 0 where
  pub uuid : Text
  pub container : Option Text

-- A session that was taken: its id and container, and whether it was created.
pub data Begun : Type 0 where
  refused : ExecError → Begun
  begun : Text → Text → Bool → Begun

abbrev pub no_session : ExecError
no_session = terminal_error (text "session_not_found") (text "session not found")

abbrev pub bad_lease : ExecError
bad_lease =
    terminal_error (text "invalid_payload") (text "lease_ttl_sec must be between the bounds")

abbrev pub no_name : ExecError
no_name = failed (text "allocate terminal container name")

abbrev pub new_session : Text → ℕ → TerminalSession
new_session container lease = record {
  container_name = container;
  lease_expires_at = lease;
  busy = true;
}

abbrev pub create_session : Manager → Text → ℕ → Option Text → Manager × Begun
create_session m id lease none = (m, refused no_name)
create_session m id lease (some container) = (
  record m { sessions = put id (new_session container lease) m.sessions },
  begun id container true,
)

-- The lease of a session that is taken is never cut.
abbrev pub take_lease : ℕ → TerminalSession → TerminalSession
take_lease lease t = record t {
  busy = true;
  lease_expires_at = if ltb t.lease_expires_at lease then lease else t.lease_expires_at;
}

abbrev pub take_found :
    Manager → Request → Text → ℕ → Option Text → Option TerminalSession → Manager × Begun
take_found m r id lease container none =
    if r.create_if_missing then create_session m id lease container else (m, refused no_session)
take_found m r id lease container (some t) =
    if t.busy
    then (m, refused (terminal_error (text "session_busy") (text "session is busy")))
    else (
      record m { sessions = put id (take_lease lease t) m.sessions },
      begun id t.container_name false,
    )

abbrev pub take_session : Manager → Request → Names → ℕ → Manager × Begun
take_session m r names lease =
    let id = trim_space r.session_id in
    if is_empty id
    then create_session m names.uuid lease names.container
    else take_found m r id lease names.container (get id m.sessions)

abbrev pub take_leased : Manager → Request → Names → ℕ → Option ℕ → Manager × Begun
take_leased m r names now none = (m, refused bad_lease)
take_leased m r names now (some duration) = take_session m r names (add_duration now duration)

-- Execute up to the release of the lock.
unfoldable pub begin : Manager → Request → Names → ℕ → Manager × Begun
unfolding resolve_lease_duration
begin m r names now =
    if is_empty (trim_space r.command)
    then (m, refused (terminal_error (text "invalid_payload") (text "command is required")))
    else take_leased m r names now (resolve_lease_duration m.config r.lease_ttl_sec)

-- dockerCommandResult: the error, if docker could not be run or the context was done; the exit code.
pub record CommandResult : Type 0 where
  pub stdout : List ℕ
  pub stderr : List ℕ
  pub exit_code : ℕ
  pub err : Option ExecError

-- createAndStartContainer: whether it succeeded, with the removal of a container that did not start.
unfoldable pub create_and_start_container :
    Text → CommandResult → CommandResult → Manager → Manager × Option ExecError
create_and_start_container container create start m = elim create.err [
  | some e ↦ (m, some e)
  | none ↦
      if not (create.exit_code == 0)
      then (m, some (failed (text "docker create failed")))
      else elim start.err [
        | some e ↦ (force_remove_container container m, some e)
        | none ↦
            if not (start.exit_code == 0)
            then (force_remove_container container m, some (failed (text "docker start failed")))
            else (m, none)
      ]
]

-- terminalExecRunResult
pub record RunResult : Type 0 where
  pub session_id : Text
  pub created : Bool
  pub stdout : List ℕ
  pub stderr : List ℕ
  pub exit_code : ℕ
  pub stdout_truncated : Bool
  pub stderr_truncated : Bool
  pub lease_expires_unix_ms : ℕ

pub data Answer : Type 0 where
  ran : RunResult → Answer
  error : ExecError → Answer

abbrev pub report : Text → Bool → CommandResult → Manager × Option ℕ → Manager × Answer
report id created x (m, none) = (m, error no_session)
report id created x (m, some lease) =
    let out = truncate_by_bytes x.stdout m.config.output_limit_bytes in
    let errors = truncate_by_bytes x.stderr m.config.output_limit_bytes in
    (
      m,
      ran (record {
        session_id = id;
        created = created;
        stdout = out.0;
        stderr = errors.0;
        exit_code = x.exit_code;
        stdout_truncated = out.1;
        stderr_truncated = errors.1;
        lease_expires_unix_ms = lease / 1000000;
      }),
    )

-- After docker exec.
unfoldable pub finish : Text → Bool → CommandResult → Option ExecError → Manager → Manager × Answer
unfolding mark_session_idle destroy_session is_no_such_container truncate_by_bytes
finish id created x (some context_done) m = (destroy_session id m, error context_done)
finish id created x (some e) m =
    ((mark_session_idle id m).0, error (failed (text "docker exec failed")))
finish id created x none m =
    if is_no_such_container x.stderr
    then (destroy_session id m, error no_session)
    else report id created x (mark_session_idle id m)

-- What docker answers to create, start and exec.
pub record Docker : Type 0 where
  pub create : CommandResult
  pub start : CommandResult
  pub exec : CommandResult

abbrev pub run :
    (Manager → Manager) → Docker → Text → Bool → Manager × Option ExecError → Manager × Answer
run meanwhile d id created (m, some e) = (drop_session id (meanwhile m), error e)
run meanwhile d id created (m, none) = finish id created d.exec d.exec.err (meanwhile m)

abbrev pub go_on : (Manager → Manager) → Docker → Manager × Begun → Manager × Answer
go_on meanwhile d (m, refused e) = (m, error e)
go_on meanwhile d (m, begun id container true) =
    run meanwhile d id true (create_and_start_container container d.create d.start m)
go_on meanwhile d (m, begun id container false) = run meanwhile d id false (m, none)

unfoldable pub execute :
    (Manager → Manager) → Docker → Manager → Request → Names → ℕ → Manager × Answer
unfolding begin create_and_start_container finish drop_session force_remove_container
execute meanwhile d m r names now = go_on meanwhile d (begin m r names now)
