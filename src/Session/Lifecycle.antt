-- ===== src/Session/Lifecycle.antt =====
-- session_runtime.go: closing a session, and putting a frame on an outbound queue.
use onlyboxes_mcp.Prelude.{Bool, Option, none, some, [], ◌∷◌, List, ℕ, if◌then◌else◌}
use onlyboxes_mcp.Prelude.Text.{Text, text}
use onlyboxes_mcp.Errors.{Error, other}
use onlyboxes_mcp.Prelude.Map.{Map}
use onlyboxes_mcp.Session.{Session, Capability, settle_all, effective}

abbrev pub or_default : Option Error → Error
or_default none = other (text "session closed")
or_default (some e) = e

unfoldable pub close_open : Error → Option Error → Session → Session
close_open e (some already) s = s
close_open e none s =
    settle_all s.pending
      (some (record { payload = []; message = []; err = some e; completed_at = 0 }))
      (record s { closed = some e; pending = [] })

-- close: the first call sets the error and settles all that is pending; later calls do nothing.
unfoldable pub close : Session → Option Error → Session
unfolding close_open
close s err = close_open (or_default err) s.closed s

-- What enqueue does, where it does not wait: the error it returns, or that the frame is queued.
pub data Enqueued : Type 0 where
  waits queued : Enqueued
  refused : Error → Enqueued

-- `ctx` is the error of the caller's context once that is done, `room` whether the queue has room,
-- and `first` which of two ready cases the select takes.
unfoldable pub enqueue : Session → Option Error → Bool → Bool → Enqueued
enqueue s ctx room first = elim s.closed [
  | some e ↦ refused e
  | none ↦ elim ctx [
    | some e ↦ if room then (if first then queued else refused e) else refused e
    | none ↦ if room then queued else waits
  ]
]

-- capabilitySnapshot
pub record Snapshot : Type 0 where
  pub name : Text
  pub inflight : ℕ
  pub max_inflight : ℕ

unfoldable pub snapshots : Map Capability → List Snapshot
snapshots [] = []
snapshots ((name, c) ∷ rest) =
    record { name = name; inflight = c.inflight; max_inflight = (effective c).max_inflight }
    ∷ snapshots rest

unfoldable pub all_capabilities_snapshot : Session → List Snapshot
unfolding snapshots
all_capabilities_snapshot s = snapshots s.capabilities
