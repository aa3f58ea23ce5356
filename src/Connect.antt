-- ===== src/Connect.antt =====
-- console/internal/grpcserver/service_connect.go: the worker connections. A new connection of a node
-- replaces the one before; a connection that ends removes its session, unless it was replaced.
pub mod Sessions
pub mod Hello
mod Examples
use onlyboxes_mcp.Prelude.{
  ℕ, ◌≡◌, ite, Bool, true, false, ◌&&◌, ◌||◌, not, Option, none, some, List, [], ◌∷◌, ltb,
  if◌then◌else◌, is_empty,
}
use onlyboxes_mcp.Prelude.Text.{Text, text, text_discrete, trim_space, byte_len}
use onlyboxes_mcp.Prelude.Map.{Map, get, put, delete}
use onlyboxes_mcp.Errors.{
  Error, Code, status, invalid_argument, not_found, failed_precondition, internal,
  permission_denied,
}
use onlyboxes_mcp.Naming.{normalize_capability, computer_use_capability, read_image_capability}
use onlyboxes_mcp.Session.{Session, Limit, at_most, Result, resolve_pending}
use onlyboxes_mcp.Session.Lifecycle.{close}
use onlyboxes_mcp.Routes.{clear_by_node}
use onlyboxes_mcp.Dispatch.{Console, worker_type_sys, set_object}
use onlyboxes_mcp.Registry.Lifecycle.{
  Touched, touched, node_not_found, session_mismatch, touch_failed,
}

abbrev pub max_node_id_length : ℕ
max_node_id_length = 128

-- validateHello of a hello frame, by its node id.
unfoldable pub validate_node_id : Text → Option Error
validate_node_id node_id =
    if is_empty (trim_space node_id)
    then some (status invalid_argument (text "node_id is required"))
    else if ltb max_node_id_length (byte_len node_id)
    then some (status invalid_argument (text "node_id is too long"))
    else none

-- The capabilities that a hello frame declares.
abbrev pub Declared : Type 0
Declared = List (Option (Text × Limit))

-- What the loop of resolveHelloByWorkerType finds: that a capability is neither, or which it has seen.
unfoldable pub seen_capabilities : Declared → Bool × Bool → Option (Bool × Bool)
seen_capabilities [] seen = some seen
seen_capabilities (none ∷ rest) seen = seen_capabilities rest seen
seen_capabilities (some (name, limit) ∷ rest) (computer_use, read_image) =
    ite (text_discrete (normalize_capability name) computer_use_capability)
      (seen_capabilities rest (true, read_image))
      (ite (text_discrete (normalize_capability name) read_image_capability)
        (seen_capabilities rest (computer_use, true)) none)

abbrev pub sys_capabilities : Declared
sys_capabilities = some (text "computerUse", at_most 1) ∷ some (text "readImage", at_most 1) ∷ []

-- The capabilities of the session, or the error.
pub data Resolved : Type 0 where
  resolved : Declared → Resolved
  denied : Error → Resolved

abbrev pub resolve_sys : Option (Bool × Bool) → Resolved
resolve_sys none = denied (
    status permission_denied
      (text "worker-sys supports only computerUse and readImage capabilities"))
resolve_sys (some (computer_use, read_image)) =
    if not computer_use || not read_image
    then denied (
        status permission_denied
          (text "worker-sys requires computerUse and readImage capabilities"))
    else resolved sys_capabilities

-- resolveHelloByWorkerType, with the type that the store has for the node.
unfoldable pub resolve_hello : Text → Declared → Resolved
unfolding seen_capabilities
resolve_hello worker_type declared =
    ite (text_discrete worker_type worker_type_sys)
      (resolve_sys (seen_capabilities declared (false, false))) (resolved declared)

-- swapSession of a new session object at `p`; the place of the one that it replaces.
unfoldable pub swap_session : Console → Text → Session → Console × Option Text
swap_session s p o = (
  record s {
    objects = put p o s.objects;
    sessions = put o.node_id p s.sessions;
    routes = clear_by_node s.routes o.node_id;
  },
  get o.node_id s.sessions,
)

-- The session ids of the session that ends and of the one that the map has now.
abbrev pub is_current : Option Session → Session → Bool
is_current none o = false
is_current (some current) o = ite (text_discrete current.session_id o.session_id) true false

abbrev pub pointed : Map Session → Option Text → Option Session
pointed objects none = none
pointed objects (some q) = get q objects

abbrev pub current_object : Console → Text → Option Session
current_object s node = pointed s.objects (get node s.sessions)

-- removeSession; whether the store's session is cleared too.
unfoldable pub remove_session : Console → Session → Console × Bool
remove_session s o =
    if is_current (current_object s o.node_id) o
    then (
      record s {
        sessions = delete o.node_id s.sessions;
        routes = clear_by_node s.routes o.node_id;
      },
      true,
    )
    else (s, false)

abbrev pub close_replaced : Console → Option Text → Console
close_replaced s none = s
close_replaced s (some q) = elim (get q s.objects) [
  | none ↦ s
  | some old ↦
      set_object q
        (close old
          (some (status failed_precondition (text "session replaced by a newer connection"))))
        s
]

-- Connect from the new session on: the swap, and the closing of the session that it replaces.
unfoldable pub connect : Console → Text → Session → Console
unfolding swap_session
connect s p o = close_replaced (swap_session s p o).0 (swap_session s p o).1

-- handleHeartbeat up to the acknowledgement.
unfoldable pub handle_heartbeat : Session → Text → Text → Touched → Option Error
handle_heartbeat o session_id node_id t =
    if is_empty (trim_space session_id)
    then some (status invalid_argument (text "session_id is required"))
    else ite (text_discrete node_id o.node_id) (touch_error t)
        (some (status invalid_argument (text "node_id mismatch")))
  where
    touch_error : Touched → Option Error
    touch_error touched = none
    touch_error node_not_found = some (status not_found (text "node not found"))
    touch_error session_mismatch = some (status failed_precondition (text "session is outdated"))
    touch_error touch_failed = some (status internal (text "failed to update heartbeat"))

-- handleCommandResult
unfoldable pub handle_command_result :
    (List ℕ → Option Text) → ℕ → Session → Result → Session × Option Error
handle_command_result parse now s r =
    if is_empty (trim_space r.command_id)
    then (s, some (status invalid_argument (text "command_id is required")))
    else (resolve_pending parse now s r, none)
