-- ===== src/Session/Examples.antt =====
-- The theorems about sessions at concrete inputs.
use onlyboxes_mcp.Prelude.{◌≡◌, ◌≢◌, ◌+◌, refl, List, [], ◌∷◌, some, none, Option, arith, ltb, ℕ}
use onlyboxes_mcp.Prelude.Text.{Text, text, trim_space, text_discrete, to_lower}
use onlyboxes_mcp.Prelude.Map.{get, put, delete}
use onlyboxes_mcp.Naming.{normalize_capability}
use onlyboxes_mcp.Session.Channels.{get_elem?}
use onlyboxes_mcp.Session.Lifecycle.{close, or_default}
use onlyboxes_mcp.Session.Slots.{AtLimit, held}
use onlyboxes_mcp.Session.Conservation.{slots}
use onlyboxes_mcp.Session.Steps.{System, Reach, acquire, register, here, next, count, remove_one}
use onlyboxes_mcp.Session.Promises.{start, slots_conserved, try_acquire_iff_room}
use onlyboxes_mcp.Session.Results.{delivered}
use onlyboxes_mcp.Session.Outcomes.{resolve_delivers, close_delivers, closing}
use onlyboxes_mcp.Session.{
  Capability, Pending, Result, Limit, at_most, not_positive, new_session, capabilities_from_hello,
  try_acquire, register_pending, register_open, effective, resolve_pending, outcome_of,
}

abbrev node : Text
node = text "node-1"

abbrev declared : List (Option (Text × Limit))
declared = some (text " Echo ", at_most 2) ∷ none ∷ some (text "readImage", not_positive) ∷ []

abbrev fresh : System
fresh = start node (text "s-1") declared

abbrev taken : System
taken = record {
  session = (try_acquire fresh.session (text "ECHO")).0;
  acquired = text "echo" ∷ [];
}

abbrev busy : System
busy = record {
  session = (register_pending taken.session (text "cmd-1") (text "echo")).0;
  acquired = remove_one (text "echo") (text "echo" ∷ []);
}

busy_reached : Reach fresh busy
unfolding new_session capabilities_from_hello try_acquire effective normalize_capability to_lower
    trim_space text_discrete get put delete register_pending register_open remove_one
busy_reached =
    next (next here (acquire (text "ECHO")))
      (register (text "cmd-1") (text "echo") (omega arith) refl refl)

slots_conserved_example :
    (slots busy.session (text "echo")
      ≡ held (text "echo") busy.session.pending + count (text "echo") busy.acquired)
    × AtLimit (get (text "echo") busy.session.capabilities)
slots_conserved_example = slots_conserved node (text "s-1") declared busy (text "echo") busy_reached

abbrev echo_in_use : Capability
echo_in_use = record { max_inflight = 2; inflight = 1 }

try_acquire_iff_room_example :
    (try_acquire busy.session (text "echo")).1
    ≡ ltb
        (held (normalize_capability (text "echo")) busy.session.pending
          + count (normalize_capability (text "echo")) busy.acquired)
        (effective echo_in_use).max_inflight
unfolding new_session capabilities_from_hello try_acquire effective normalize_capability to_lower
    trim_space text_discrete get put delete register_pending register_open remove_one
try_acquire_iff_room_example =
    try_acquire_iff_room node (text "s-1") declared busy (text "echo") echo_in_use busy_reached refl
      refl

abbrev no_echo : List ℕ → Option Text
no_echo payload = none

abbrev answer : Result
answer = record {
  command_id = text " cmd-1";
  error = none;
  payload = text "{}";
  completed_unix_ms = 7;
}

abbrev waiting : Pending
waiting = record { channel = 0; capability = text "echo" }

resolve_delivers_example :
    (get_elem? (resolve_pending no_echo 5 busy.session answer).channels 0
      ≡ some (delivered (outcome_of no_echo 5 answer)))
    × (get (trim_space answer.command_id) (resolve_pending no_echo 5 busy.session answer).pending
        ≡ none)
    × ((j : Text)
        → j ≢ trim_space answer.command_id
        → get j (resolve_pending no_echo 5 busy.session answer).pending
          ≡ get j busy.session.pending)
unfolding new_session capabilities_from_hello try_acquire effective normalize_capability to_lower
    trim_space text_discrete get put delete register_pending register_open remove_one
resolve_delivers_example =
    resolve_delivers node (text "s-1") declared busy no_echo 5 answer waiting busy_reached refl refl

close_delivers_example :
    (get_elem? (close busy.session none).channels 0 ≡ some (delivered (closing (or_default none))))
    × ((close busy.session none).pending ≡ [])
    × (register_pending (close busy.session none) (text "cmd-2") (text "echo")
        ≡ (close busy.session none, some (or_default none)))
unfolding new_session capabilities_from_hello try_acquire effective normalize_capability to_lower
    trim_space text_discrete get put delete register_pending register_open remove_one
close_delivers_example =
    close_delivers node (text "s-1") declared busy none (text "cmd-1") (text "cmd-2") (text "echo")
      waiting busy_reached refl refl refl
