-- ===== src/Session.antt =====
-- console/internal/grpcserver/session_runtime.go: the state of one connected worker. Each method
-- holds a mutex while it works, and is a function on the record here. The result channels, which a
-- waiting dispatch shares with the pending table, are a store of their own: a pending entry holds
-- the place of its channel.
pub mod Channels
pub mod Lifecycle
pub mod Slots
pub mod Steps
pub mod Conservation
pub mod Closing
pub mod Delivery
pub mod Promises
pub mod Results
pub mod Outcomes
mod Examples
use onlyboxes_mcp.Prelude.{
  ℕ, suc, ◌+◌, ◌-◌, ◌≡◌, ite, Bool, true, false, ◌||◌, Option, none, some, List, [], ◌∷◌, ◌++◌,
  length, leb, ltb, ◌==◌, if◌then◌else◌, is_empty,
}
use onlyboxes_mcp.Prelude.Text.{Text, text, trim_space}
use onlyboxes_mcp.Prelude.Map.{Map, get, put, delete}
use onlyboxes_mcp.Errors.{Error, command_error, other}
use onlyboxes_mcp.Naming.{normalize_capability}
use Channels.{Outcome, Channel, open_channel, close_result}

-- sessionCapability; a limit that the code would replace, being at most 0, is 0.
pub record Capability : Type 0 where
  pub max_inflight : ℕ
  pub inflight : ℕ

-- pendingCommand, with the place of its result channel.
pub record Pending : Type 0 where
  pub channel : ℕ
  pub capability : Text

pub record Session : Type 0 where
  pub node_id : Text
  pub session_id : Text
  pub capabilities : Map Capability
  pub pending : Map Pending
  pub channels : List Channel
  -- closedErr, which is set when `done` is closed.
  pub closed : Option Error

abbrev pub default_max_inflight : ℕ
default_max_inflight = 4

-- CapabilityDeclaration of the hello frame: an int32 that may be 0 or less.
pub data Limit : Type 0 where
  not_positive : Limit
  at_most : ℕ → Limit

abbrev pub limit_of : Limit → ℕ
limit_of not_positive = default_max_inflight
limit_of (at_most n) = if n == 0 then default_max_inflight else n

unfoldable pub capabilities_from_hello :
    List (Option (Text × Limit)) → Map Capability → Map Capability
capabilities_from_hello [] set = set
capabilities_from_hello (none ∷ rest) set = capabilities_from_hello rest set
capabilities_from_hello (some (name, limit) ∷ rest) set = capabilities_from_hello rest (
    if is_empty (normalize_capability name)
    then set
    else put (normalize_capability name) (record { max_inflight = limit_of limit; inflight = 0 })
        set)

unfoldable pub new_session : Text → Text → List (Option (Text × Limit)) → Session
unfolding capabilities_from_hello
new_session node_id session_id declared = record {
  node_id = node_id;
  session_id = session_id;
  capabilities = capabilities_from_hello declared [];
  pending = [];
  channels = [];
  closed = none;
}

unfoldable pub has_capability : Session → Text → Bool
has_capability s capability =
    let name = normalize_capability capability in
    if is_empty name then false else elim (get name s.capabilities) [ none ↦ false | some c ↦ true ]

-- A limit of 0 or less is replaced by the default wherever it is read.
unfoldable pub effective : Capability → Capability
effective c = if c.max_inflight == 0 then record c { max_inflight = default_max_inflight } else c

abbrev pub snapshot_found : Text → Session → Option Capability → Session × Option (ℕ × ℕ)
snapshot_found name s none = (s, none)
snapshot_found name s (some c) = (
  record s { capabilities = put name (effective c) s.capabilities },
  some (c.inflight, (effective c).max_inflight),
)

-- inflightSnapshot: the slots in use and the limit, which it writes back when it was not positive.
unfoldable pub inflight_snapshot : Session → Text → Session × Option (ℕ × ℕ)
unfolding effective
inflight_snapshot s capability =
    let name = normalize_capability capability in
    if is_empty name then (s, none) else snapshot_found name s (get name s.capabilities)

abbrev pub acquire_found : Text → Session → Option Capability → Session × Bool
acquire_found name s none = (s, false)
acquire_found name s (some c) =
    let e = effective c in
    if leb e.max_inflight e.inflight
    then (record s { capabilities = put name e s.capabilities }, false)
    else (
      record s { capabilities = put name (record e { inflight = e.inflight + 1 }) s.capabilities },
      true,
    )

unfoldable pub try_acquire : Session → Text → Session × Bool
unfolding effective
try_acquire s capability =
    let name = normalize_capability capability in
    if is_empty name then (s, false) else acquire_found name s (get name s.capabilities)

abbrev release_found : Text → Map Capability → Option Capability → Map Capability
release_found name capabilities none = capabilities
release_found name capabilities (some c) =
    if ltb 0 c.inflight
    then put name (record c { inflight = c.inflight - 1 }) capabilities
    else capabilities

-- releaseCapability, on the table of capabilities.
unfoldable pub release_in : Map Capability → Text → Map Capability
release_in capabilities capability =
    let name = normalize_capability capability in
    if is_empty name then capabilities else release_found name capabilities (get name capabilities)

unfoldable pub release : Session → Text → Session
unfolding release_in
release s capability = record s { capabilities = release_in s.capabilities capability }

-- registerPending: the session's error if it is closed, else a new channel and a pending entry. The
-- place of the channel is what the caller keeps.
unfoldable pub register_open : Session → Text → Text → Option Error → Session × (Option Error)
register_open s id capability (some e) = (s, some e)
register_open s id capability none = (
  record s {
    pending =
        put id
          (record { channel = length s.channels; capability = normalize_capability capability })
          s.pending;
    channels = s.channels ++ (open_channel ∷ []);
  },
  none,
)

unfoldable pub register_pending : Session → Text → Text → Session × Option Error
unfolding register_open
register_pending s command_id capability =
    let id = trim_space command_id in
    if is_empty id
    then (s, some (other (text "command_id is required")))
    else register_open s id capability s.closed

-- What unregister, resolve and close do with an entry that they took off the table, after they have
-- released its lock; for the first two, Session/Steps lets others call in meanwhile.
unfoldable pub settle : Pending → Option Outcome → Session → Session
unfolding release_in
settle p outcome s = record s {
  capabilities = release_in s.capabilities p.capability;
  channels = close_result p.channel outcome s.channels;
}

unfoldable pub settle_found : Text → Option Outcome → Session → Option Pending → Session
unfolding settle
settle_found id outcome s none = s
settle_found id outcome s (some p) = settle p outcome (record s { pending = delete id s.pending })

unfoldable pub unregister_pending : Session → Text → Session
unfolding settle_found
unregister_pending s command_id =
    let id = trim_space command_id in
    if is_empty id then s else settle_found id none s (get id s.pending)

-- CommandResult of the worker's frame: an error, or a payload, or neither.
pub record Result : Type 0 where
  pub command_id : Text
  pub error : Option (Text × Text)
  pub payload : List ℕ
  pub completed_unix_ms : ℕ

-- The outcome of a result frame; `echo` stands for parseEchoPayload and `now` for the clock.
unfoldable pub outcome_of : (List ℕ → Option Text) → ℕ → Result → Outcome
outcome_of echo now r = record {
  payload = if failed r.error || is_empty r.payload then [] else r.payload;
  message = if failed r.error || is_empty r.payload then [] else or_empty (echo r.payload);
  err = error_of r.error;
  completed_at = if ltb 0 r.completed_unix_ms then r.completed_unix_ms else now;
}
  where
    failed : Option (Text × Text) → Bool
    failed none = false
    failed (some e) = true

    or_empty : Option Text → Text
    or_empty none = []
    or_empty (some t) = t

    error_of : Option (Text × Text) → Option Error
    error_of (some (code, message)) = some (command_error code message)
    error_of none =
        if is_empty r.payload
        then some
            (command_error (text "empty_result") (text "worker returned empty command result"))
        else none

unfoldable pub resolve_pending : (List ℕ → Option Text) → ℕ → Session → Result → Session
unfolding settle_found outcome_of
resolve_pending echo now s r =
    let id = trim_space r.command_id in
    if is_empty id then s else settle_found id (some (outcome_of echo now r)) s (get id s.pending)

-- The loop of close over the entries that were pending.
unfoldable pub settle_all : Map Pending → Option Outcome → Session → Session
unfolding settle
settle_all [] outcome s = s
settle_all ((id, p) ∷ rest) outcome s = settle_all rest outcome (settle p outcome s)
