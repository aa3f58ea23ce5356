-- ===== src/Dispatch/Command.antt =====
-- dispatchCommand, DispatchEcho and CommandExecutionError of
-- console/internal/grpcserver/service_dispatch.go. What other requests and the worker do while
-- dispatchCommand is at work is `meanwhile` before a slot is taken, and `between` after the command was
-- registered and before its channel is read.
use onlyboxes_mcp.Prelude.{
  ℕ, length, ite, Bool, true, false, ◌&&◌, not, Option, none, some, List, ◌++◌, if◌then◌else◌,
  is_empty,
}
use onlyboxes_mcp.Prelude.Text.{Text, text, text_discrete, trim_space, to_lower}
use onlyboxes_mcp.Prelude.Map.{get}
use onlyboxes_mcp.Errors.{
  Error, status, invalid_argument, internal, unavailable, deadline_exceeded, canceled,
  command_error, no_capability_worker,
}
use onlyboxes_mcp.Naming.{normalize_capability}
use onlyboxes_mcp.Session.Channels.{Outcome, Channel, get_elem?}
use onlyboxes_mcp.Session.{Session, register_pending, unregister_pending}
use onlyboxes_mcp.Routes.{bind}
use onlyboxes_mcp.Tasks.Execute.{Dispatched, outcome, error}
use onlyboxes_mcp.Dispatch.Terminal.{
  pick_session_for_dispatch, node_of, clear_route, set_routes, Routed,
}
use onlyboxes_mcp.Dispatch.{Console, picked, refused, set_object, release_object}

-- CommandExecutionError.Error
unfoldable pub command_error_text : Text → Text → Text
command_error_text code message =
    if is_empty (trim_space code)
    then (if is_empty (trim_space message)
        then text "command execution failed"
        else trim_space message)
    else if is_empty (trim_space message)
    then trim_space code
    else trim_space code ++ (text ": " ++ trim_space message)

-- isSessionNotFoundCommandError
unfoldable pub is_session_not_found : Error → Bool
is_session_not_found (command_error code message) =
    ite (text_discrete (to_lower (trim_space code)) (text "session_not_found")) true false
is_session_not_found _ = false

-- What the select at the end takes: the context is done, by its deadline or not, or the channel gives
-- an outcome or is closed.
pub data Waited : Type 0 where
  timed_out was_canceled closed : Waited
  result : Outcome → Waited

-- What the surroundings of the dispatch give it: the id generator, what enqueueCommand returns,
-- whether the select takes the channel if that is ready, and whether the context, if it is the one
-- that is done, is so by its deadline.
pub record World : Type 0 where
  pub new_command_id : Option Text
  pub enqueued : Option Error
  pub takes_channel : Bool
  pub by_deadline : Bool

abbrev context_done : World → Waited
context_done w = if w.by_deadline then timed_out else was_canceled

abbrev received : World → Option Outcome → Bool → Waited
received w (some o) is_closed = result o
received w none true = closed
received w none false = context_done w

-- The select on the context and the command's channel; while that is not ready, it waits until the
-- context is done.
abbrev pub select_on : World → Option Channel → Waited
select_on w none = context_done w
select_on w (some c) = if w.takes_channel then received w c.buffer c.is_closed else context_done w

abbrev pub channel_at : ℕ → Option Session → Option Channel
channel_at k none = none
channel_at k (some o) = get_elem? o.channels k

-- The error that dispatchCommand returns for one of enqueueCommand; those that
-- status.FromContextError or status.Code know stay as they are.
unfoldable pub enqueue_error : Error → Error
enqueue_error deadline_exceeded = deadline_exceeded
enqueue_error canceled = canceled
enqueue_error (status code message) = status code message
enqueue_error _ = status unavailable (text "worker session unavailable")

-- A route that was created for this command is cleared again.
abbrev pub undo_route : Bool → Text → Text → Console → Console
undo_route created terminal node s =
    if created && not (is_empty terminal) then clear_route s terminal node else s

abbrev pub unregister_found : Text → Text → Console → Option Session → Console
unregister_found p command s none = s
unregister_found p command s (some o) = set_object p (unregister_pending o command) s

abbrev pub unregister : Text → Text → Console → Console
unregister p command s = unregister_found p command s (get p s.objects)

-- The routes after a result.
abbrev pub note_result : Text → Text → ℕ → Option Error → Console → Console
note_result terminal node now none s =
    if is_empty terminal then s else set_routes s (bind s.routes terminal node now)
note_result terminal node now (some e) s =
    if not (is_empty terminal) && is_session_not_found e then clear_route s terminal node else s

unfoldable pub wait_result : Bool → Text → Text → ℕ → Waited → Console → Console × Dispatched
unfolding is_session_not_found
wait_result created terminal node now timed_out s = (s, error deadline_exceeded)
wait_result created terminal node now was_canceled s = (s, error canceled)
wait_result created terminal node now closed s = (
  undo_route created terminal node s,
  error (status unavailable (text "worker session closed before command result")),
)
wait_result created terminal node now (result o) s =
    (note_result terminal node now o.err s, outcome o)

-- The deferred unregisterPending.
abbrev pub unregistered : Text → Text → Console × Dispatched → Console × Dispatched
unregistered p command (s, d) = (unregister p command s, d)

-- After enqueueCommand; `k` is the place of the command's channel among those of the session at `p`.
abbrev pub enqueued :
    (Console → Console)
    → World
    → Bool
    → Text
    → ℕ
    → Text
    → ℕ
    → Text
    → Console
    → Option Error
    → Console × Dispatched
enqueued between w created terminal now p k node s none =
    wait_result created terminal node now (select_on w (channel_at k (get p (between s).objects)))
      (between s)
enqueued between w created terminal now p k node s (some e) =
    (undo_route created terminal node (between s), error (enqueue_error e))

-- After registerPending.
abbrev pub send :
    (Console → Console)
    → World
    → Bool
    → Text
    → ℕ
    → Text
    → ℕ
    → Text
    → Text
    → Console
    → Console × Dispatched
send between w created terminal now p k node command s =
    unregistered p command (enqueued between w created terminal now p k node s w.enqueued)

-- A slot that was taken is given back where the command was not registered.
abbrev pub back_out : Bool → Text → Text → Text → Text → Error → Console → Console × Dispatched
back_out created terminal capability p node e s =
    (undo_route created terminal node (release_object s p capability), error e)

abbrev pub registered :
    (Console → Console)
    → World
    → Bool
    → Text
    → ℕ
    → Text
    → Text
    → ℕ
    → Text
    → Text
    → Console
    → Session × Option Error
    → Console × Dispatched
registered between w created terminal now capability p k node command s (o, none) =
    send between w created terminal now p k node command (set_object p o s)
registered between w created terminal now capability p k node command s (o, some e) =
    back_out created terminal capability p node e (set_object p o s)

abbrev pub registered_found :
    (Console → Console)
    → World
    → Bool
    → Text
    → ℕ
    → Text
    → Text
    → Text
    → Console
    → Option Session
    → Console × Dispatched
registered_found between w created terminal now capability p command s none =
    (s, error no_capability_worker)
registered_found between w created terminal now capability p command s (some o) =
    registered between w created terminal now capability p (length o.channels) o.node_id command s
      (register_pending o command capability)

abbrev pub dispatch_picked :
    (Console → Console) → World → Text → ℕ → Text → Option Text → Routed → Console × Dispatched
dispatch_picked between w terminal now capability id (s, refused e, created) = (s, error e)
dispatch_picked between w terminal now capability none (s, picked p, created) =
    back_out created terminal capability p (node_of s p)
      (status internal (text "failed to create command_id")) s
dispatch_picked between w terminal now capability (some command) (s, picked p, created) =
    registered_found between w created terminal now capability p command s (get p s.objects)

-- dispatchCommand; `terminal` is the terminal session id in its payload, trimmed.
unfoldable pub dispatch_command :
    (Console → Console)
    → (Console → Console)
    → World
    → Console
    → Text
    → List Text
    → Text
    → ℕ
    → Console × Dispatched
unfolding wait_result enqueue_error pick_session_for_dispatch
dispatch_command meanwhile between w s capability nodes terminal now =
    let name = normalize_capability capability in
    if is_empty name
    then (s, error (status invalid_argument (text "capability is required")))
    else dispatch_picked between w terminal now name w.new_command_id
        (pick_session_for_dispatch meanwhile s name nodes terminal now)
