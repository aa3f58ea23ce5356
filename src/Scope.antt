-- ===== src/Scope.antt =====
-- console/internal/grpcserver/task_owner_scope.go: a terminal session id that a task carries is
-- prefixed with its owner on the way to the worker, and the prefix is checked and taken off on the
-- way back. The texts that encoding/json reads and writes are a parameter, `Codec`.
pub mod Ids
pub mod Results
mod Examples
use onlyboxes_mcp.Prelude.{
  ℤ, ◌≡◌, ite, Bool, true, false, ◌||◌, not, Option, none, some, List, [], ◌∷◌, ◌++◌, ℕ,
  if◌then◌else◌, is_empty,
}
use onlyboxes_mcp.Prelude.Text.{Text, text, text_discrete, trim_space}
use onlyboxes_mcp.Prelude.Map.{Map, get, put}
use onlyboxes_mcp.Errors.{Error, status, internal}
use onlyboxes_mcp.Naming.{terminal_exec_capability, terminal_resource_capability}
use Ids.{normalize_task_owner_id, scope_terminal_session_id, unscope_terminal_session_id}

-- terminalExecScopedPayload; the lease is a JSON integer that may be absent.
pub record ExecPayload : Type 0 where
  pub command : Text
  pub session_id : Text
  pub create_if_missing : Bool
  pub lease_ttl_sec : Option ℤ

-- terminalResourceScopedPayload
pub record ResourcePayload : Type 0 where
  pub session_id : Text
  pub file_path : Text
  pub action : Text

-- A value of a decoded JSON object: a string, or any other value by its text.
pub data Value : Type 0 where
  str raw : Text → Value

-- json.Unmarshal and json.Marshal at the three types that the file uses; `none` is a decoding error.
pub record Codec : Type 0 where
  pub decode_exec : Text → Option ExecPayload
  pub encode_exec : ExecPayload → Text
  pub decode_resource : Text → Option ResourcePayload
  pub encode_resource : ResourcePayload → Text
  pub decode_object : Text → Option (Map Value)
  pub encode_object : Map Value → Text

-- A result, or the error that the call returns.
pub data Result : Type 0 where
  ok : Text → Result
  err : Error → Result

abbrev pub no_session_id : Error
no_session_id = status internal (text "failed to create session_id")

module _ (codec : Codec) where
  abbrev with_session : Text → ExecPayload → Bool → Text → Result
  with_session owner payload create session = ok (
      codec.encode_exec (record payload {
        session_id = scope_terminal_session_id owner session;
        create_if_missing = create;
      }))

  -- newTerminalSessionIDFn returned `created`, or failed.
  abbrev pub with_created : Text → ExecPayload → Option Text → Result
  with_created owner payload none = err no_session_id
  with_created owner payload (some created) =
      if is_empty (trim_space created)
      then err no_session_id
      else with_session owner payload true (trim_space created)

  abbrev pub scope_exec : Text → Option Text → Text → Option ExecPayload → Result
  scope_exec owner new_id input none = ok input
  scope_exec owner new_id input (some payload) =
      if is_empty (trim_space payload.session_id)
      then with_created owner payload new_id
      else with_session owner payload payload.create_if_missing (trim_space payload.session_id)

  abbrev scope_resource : Text → Text → Option ResourcePayload → Result
  scope_resource owner input none = ok input
  scope_resource owner input (some payload) =
      if is_empty (trim_space payload.session_id)
      then ok input
      else ok (
          codec.encode_resource (record payload {
            session_id = scope_terminal_session_id owner (trim_space payload.session_id);
          }))

  -- scopeTaskInputByOwner, with what the session id generator returns.
  unfoldable pub scope_task_input : Text → Text → Option Text → Text → Result
  scope_task_input capability owner_id new_id input =
      let owner = normalize_task_owner_id owner_id in
      if is_empty owner || is_empty input
      then ok input
      else ite (text_discrete capability terminal_exec_capability)
          (scope_exec owner new_id input (codec.decode_exec input))
          (ite (text_discrete capability terminal_resource_capability)
            (scope_resource owner input (codec.decode_resource input)) (ok input))

  abbrev pub restored : Map Value → Option Text → Option Text
  restored object none = none
  restored object (some external) =
      some (codec.encode_object (put (text "session_id") (str external) object))

  abbrev restore_session : Text → Text → Map Value → Option Value → Option Text
  restore_session owner result object none = some result
  restore_session owner result object (some (raw t)) = some result
  restore_session owner result object (some (str session)) =
      restored object (unscope_terminal_session_id owner session)

  abbrev restore_object : Text → Text → Option (Map Value) → Option Text
  restore_object owner result none = some result
  restore_object owner result (some object) =
      restore_session owner result object (get (text "session_id") object)

  -- restoreTaskResultOwnerScope; `none` is the result that must not be surfaced.
  unfoldable pub restore_task_result : Text → Text → Text → Option Text
  restore_task_result owner_id capability result =
      let owner = normalize_task_owner_id owner_id in
      if is_empty owner || is_empty result
      then some result
      else ite (text_discrete capability terminal_exec_capability)
          (restore_object owner result (codec.decode_object result))
          (ite (text_discrete capability terminal_resource_capability)
            (restore_object owner result (codec.decode_object result)) (some result))
