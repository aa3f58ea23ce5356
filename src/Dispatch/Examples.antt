-- ===== src/Dispatch/Examples.antt =====
-- The choice of sessions of console/internal/grpcserver/service_dispatch.go on concrete nodes.
use onlyboxes_mcp.Prelude.{
  some, false, true, none, Option, ℕ, ltb, if◌then◌else◌, ◌≡◌, refl, List, [], ◌∷◌,
}
use onlyboxes_mcp.Prelude.Text.{Text, text, text_discrete, trim_space, to_lower}
use onlyboxes_mcp.Prelude.Map.{get, put, delete}
use onlyboxes_mcp.Errors.{no_worker_capacity, command_error}
use onlyboxes_mcp.Naming.{normalize_capability}
use onlyboxes_mcp.Session.{
  Session, Limit, at_most, Result, has_capability, inflight_snapshot, effective, try_acquire,
  new_session, capabilities_from_hello, register_pending, resolve_pending,
}
use onlyboxes_mcp.Routes.{touch, maybe_prune, refresh}
use onlyboxes_mcp.Dispatch.Terminal.{pick_session_for_dispatch}
use onlyboxes_mcp.Dispatch.Picking.{Answers, undisturbed, pick_session-Answers}
use onlyboxes_mcp.Dispatch.Command.{World, wait_result, dispatch_picked}
use onlyboxes_mcp.Tasks.Execute.{outcome}
use onlyboxes_mcp.Session.Channels.{close_result}
use onlyboxes_mcp.Session.Promises.{start}
use onlyboxes_mcp.Session.Steps.{System, acquire, acquired_after}
use onlyboxes_mcp.Dispatch.Sticky.{pick_session_sticks}
use onlyboxes_mcp.Dispatch.{
  Console, picked, refused, set_object, pick_session_for_capability, scan, add_candidate, visited,
  get_session, acquire_first,
}

-- A session with slots for `echo`, of which some are in use.
abbrev session : Text → Text → ℕ → Session
session node id inflight = record {
  node_id = node;
  session_id = id;
  capabilities = (text "echo", record { max_inflight = 4; inflight = inflight }) ∷ [];
  pending = [];
  channels = [];
  closed = none;
}

abbrev console : Console
console = record {
  objects =
      (text "s1", session (text "n1") (text "s1") 2)
      ∷ (text "s2", session (text "n2") (text "s2") 1)
      ∷ [];
  sessions = (text "n1", text "s1") ∷ (text "n2", text "s2") ∷ [];
  routes = record {
    session_to_node = (text "t", record { node_id = text "n1"; last_used = 900 }) ∷ [];
    node_index = (text "n1", (text "t", tt) ∷ []) ∷ [];
    ttl = 5000;
    last_prune = 900;
  };
  round_robin = 8;
}

abbrev nodes : List Text
nodes = text "n1" ∷ text "n2" ∷ []

pick_session-Answers_example :
    Answers
      (text "echo")
      console
      nodes
      (pick_session_for_capability undisturbed console (text "echo") nodes).1
pick_session-Answers_example = pick_session-Answers console (text "echo") nodes

pick_session_sticks_example :
    pick_session_for_dispatch undisturbed console (text "echo") nodes (text "t") 1000 ≡ (
      record (set_object
          (text "s1")
          (try_acquire (session (text "n1") (text "s1") 2) (text "echo")).0
          console) { routes = (touch console.routes (text "t") 1000).0 },
      (if ltb 2 4 then picked (text "s1") else refused no_worker_capacity),
      false,
    )
unfolding trim_space touch maybe_prune get_session has_capability normalize_capability to_lower get
    text_discrete refresh inflight_snapshot effective
pick_session_sticks_example =
    pick_session_sticks undisturbed console (text "echo") nodes (text "t") (text "n1") (text "s1")
      1000 (session (text "n1") (text "s1") 2) _ 2 4 refl refl refl refl refl refl

-- A session of which a dispatch holds one slot.
abbrev declared : List (Option (Text × Limit))
declared = some (text "echo", at_most 4) ∷ []

abbrev fresh : System
fresh = start (text "n1") (text "s1") declared

abbrev holding : System
holding = record {
  session = (try_acquire fresh.session (text "echo")).0;
  acquired =
      acquired_after (try_acquire fresh.session (text "echo")).1
        (normalize_capability (text "echo")) fresh.acquired;
}

abbrev with_slot : Console
with_slot = record console { objects = (text "s1", holding.session) ∷ [] }

-- The worker answers the command with an error while the dispatch waits.
abbrev answer : Result
answer = record {
  command_id = text "c1";
  error = some (text "session_not_found", []);
  payload = [];
  completed_unix_ms = 0;
}

abbrev no_echo : List ℕ → Option Text
no_echo payload = none

abbrev answered : Console → Option Session → Console
answered t none = t
answered t (some o) = set_object (text "s1") (resolve_pending no_echo 0 o answer) t

abbrev answering : Console → Console
answering t = answered t (get (text "s1") t.objects)

abbrev world : World
world = record {
  new_command_id = some (text "c1");
  enqueued = none;
  takes_channel = true;
  by_deadline = true;
}

-- What the dispatch reads then is the worker's answer.
reads_answer :
    (dispatch_picked answering world
      (text "t")
      1000
      (text "echo")
      (some (text "c1"))
      (with_slot, picked (text "s1"), false)).1
    ≡ outcome (record {
      payload = [];
      message = [];
      err = some (command_error (text "session_not_found") []);
      completed_at = 0;
    })
unfolding get text_discrete trim_space to_lower try_acquire new_session capabilities_from_hello
    normalize_capability effective put delete wait_result register_pending resolve_pending
    close_result
reads_answer = refl

-- Another request takes the last slots of the second node after the loop.
abbrev filling : Console → Console
filling s = record s { objects = put (text "s2") (session (text "n2") (text "s2") 4) s.objects }

-- The first node, which has room, was a candidate until the second one, with fewer slots in use, was
-- found, and is not a candidate afterwards: the loop drops it and does not move it to the fallbacks.
dropped_candidate :
    (pick_session_for_capability filling console (text "echo") nodes).1 ≡ refused no_worker_capacity
unfolding pick_session_for_capability scan add_candidate visited get_session acquire_first
    onlyboxes_mcp.Dispatch.acquire has_capability inflight_snapshot effective try_acquire
    normalize_capability to_lower trim_space get put delete text_discrete
dropped_candidate = refl
