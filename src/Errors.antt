-- ===== src/Errors.antt =====
-- The errors that console/internal/grpcserver returns: those of google.golang.org/grpc/status by
-- code and message, the sentinels of service.go and task.go, and CommandExecutionError of
-- service_dispatch.go.
use onlyboxes_mcp.Prelude.Text.{Text}

pub data Code : Type 0 where
  invalid_argument not_found failed_precondition permission_denied unauthenticated : Code
  internal unavailable status_deadline_exceeded status_canceled : Code

pub data Error : Type 0 where
  status : Code → Text → Error
  no_capability_worker no_worker_capacity task_request_in_progress : Error
  deadline_exceeded canceled : Error
  task_not_found task_terminal transition_not_applied : Error
  command_error : Text → Text → Error
  -- errors.New and fmt.Errorf with a message.
  other : Text → Error
