-- ===== src/Dispatch/GivesBack.antt =====
-- dispatchCommand of console/internal/grpcserver/service_dispatch.go: the slot that was taken for a
-- command is given back, and the command does not stay pending.
use onlyboxes_mcp.Prelude.{◌+◌, ◌≡◌, Option, none, some}
use onlyboxes_mcp.Prelude.Text.{Text, trim_space}
use onlyboxes_mcp.Prelude.Map.{get}
use onlyboxes_mcp.Session.Slots.{held}
use onlyboxes_mcp.Session.Conservation.{slots}
use onlyboxes_mcp.Session.Steps.{System, Step, Reach, count, remove_one}
use onlyboxes_mcp.Session.{Session}
use onlyboxes_mcp.Dispatch.{Console}

-- The slot was handed over, to the pending command or back to the session, and what came after that
-- were other calls.
abbrev pub Handed : System → Text → System → Type 0
Handed y n z = (x : System) × (x.acquired ≡ remove_one n y.acquired) × Step y x × Reach x z

-- The session is there, does not have the command pending, and has as many slots in use as its pending
-- commands and those dispatches that hold one need.
abbrev pub GaveBack : System → Text → Text → Option Session → Type 0
GaveBack y n command o =
    (z : System) × (o ≡ some z.session)
    × (get (trim_space command) z.session.pending ≡ none)
    × Handed y n z
    × ((m : Text) → slots z.session m ≡ held m z.session.pending + count m z.acquired)

-- What others do to the session at `p` are calls of the session.
abbrev pub Calls : Text → (Console → Console) → Type 0
Calls p between =
    (z : System) (t : Console)
    → get p t.objects ≡ some z.session
    → (x : System) × Reach z x × (get p (between t).objects ≡ some x.session)
