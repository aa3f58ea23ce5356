-- ===== src/Connect/Examples.antt =====
-- Worker connections of console/internal/grpcserver/service_connect.go on concrete nodes.
use onlyboxes_mcp.Prelude.{◌≡◌, ◌≢◌, refl, false, ◌&&◌, if◌then◌else◌, none, some, [], ◌∷◌, arith}
use onlyboxes_mcp.Prelude.Text.{Text, text, trim_space}
use onlyboxes_mcp.Prelude.Map.{get}
use onlyboxes_mcp.Naming.{computer_use_capability, read_image_capability}
use onlyboxes_mcp.Session.{Session, at_most, not_positive}
use onlyboxes_mcp.Routes.Operations.{binds, run, run-Inv}
use onlyboxes_mcp.Routes.{new_routes}
use onlyboxes_mcp.Dispatch.{Console, get_session, worker_type_sys}
use onlyboxes_mcp.Connect.Sessions.{Cleared, swap_session_lem, remove_session-swap_session}
use onlyboxes_mcp.Connect.Hello.{
  declares, only_known, refusal, verdict, session_of, sys_session, resolve_hello_sys,
}
use onlyboxes_mcp.Connect.{Declared, resolve_hello, swap_session, remove_session}

abbrev session : Text → Text → Session
session node id = record {
  node_id = node;
  session_id = id;
  capabilities = [];
  pending = [];
  channels = [];
  closed = none;
}

-- One node, to which a terminal session is bound.
abbrev console : Console
console = record {
  objects = (text "s1", session (text "n1") (text "s1")) ∷ [];
  sessions = (text "n1", text "s1") ∷ [];
  routes = run (binds (text "t") (text "n1") 900 ∷ []) new_routes;
  round_robin = 0;
}

abbrev newer : Session
newer = session (text "n1") (text "s2")

no_other : (n : Text) → n ≢ text "n1" → get n console.sessions ≢ some (text "s2")
unfolding get
no_other n ne h = ground (arith, h, ne)

swap_session_lem_example :
    (get_session (swap_session console (text "s2") newer).0 (text "n1") ≡ some (text "s2", newer))
    × ((n : Text)
        → n ≢ text "n1"
        → get_session (swap_session console (text "s2") newer).0 n ≡ get_session console n)
    × Cleared (text "n1") console.routes (swap_session console (text "s2") newer).0.routes
unfolding trim_space
swap_session_lem_example =
    swap_session_lem console (text "s2") newer (run-Inv (binds (text "t") (text "n1") 900 ∷ []))
      refl refl no_other

remove_session-swap_session_example :
    remove_session (swap_session console (text "s2") newer).0 (session (text "n1") (text "s1"))
    ≡ ((swap_session console (text "s2") newer).0, false)
remove_session-swap_session_example =
    remove_session-swap_session console (text "s2") newer (session (text "n1") (text "s1")) refl
      (λ e. ground (arith, e))

abbrev declared : Declared
declared = some (text " ReadImage", at_most 9) ∷ none ∷ some (text "computerUse", not_positive) ∷ []

resolve_hello_sys_example :
    (refusal (resolve_hello worker_type_sys declared) ≡ verdict declared)
    × (session_of (text "n1") (text "s1") (resolve_hello worker_type_sys declared) ≡ (
        if only_known declared
          && (declares computer_use_capability declared && declares read_image_capability declared)
        then some (sys_session (text "n1") (text "s1"))
        else none))
resolve_hello_sys_example = resolve_hello_sys (text "n1") (text "s1") declared
