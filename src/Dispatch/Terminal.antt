-- ===== src/Dispatch/Terminal.antt =====
-- pickSessionForDispatch and tryReserveAndPickTerminalSession of
-- console/internal/grpcserver/service_dispatch.go: the session of a command that names a terminal
-- session is that of the node to which the terminal session is bound.
use onlyboxes_mcp.Prelude.{
  ℕ, ite, Bool, false, Option, none, some, List, [], if◌then◌else◌, is_empty,
}
use onlyboxes_mcp.Prelude.Text.{Text, text_discrete, trim_space}
use onlyboxes_mcp.Prelude.Map.{get}
use onlyboxes_mcp.Errors.{no_capability_worker}
use onlyboxes_mcp.Naming.{terminal_exec_capability, terminal_resource_capability}
use onlyboxes_mcp.Scope.{Codec}
use onlyboxes_mcp.Routes.{Routes, touch, reserve, clear, maybe_prune}
use onlyboxes_mcp.Dispatch.{
  Console, Pick, picked, refused, pick_session_for_capability, pick_session_for_node,
  release_object,
}

-- terminalSessionIDFromPayload
unfoldable pub terminal_session_id : Codec → Text → Text → Text
terminal_session_id codec capability payload =
    if is_empty payload
    then []
    else ite (text_discrete capability terminal_exec_capability)
        (elim (codec.decode_exec payload) [ none ↦ [] | some p ↦ trim_space p.session_id ])
        (ite (text_discrete capability terminal_resource_capability)
          (elim (codec.decode_resource payload) [ none ↦ [] | some p ↦ trim_space p.session_id ])
          [])

-- The node of the session object.
abbrev pub node_of : Console → Text → Text
node_of s p = elim (get p s.objects) [ none ↦ [] | some o ↦ o.node_id ]

-- The picked session, and whether its route was created for it.
abbrev pub Routed : Type 0
Routed = Console × Pick × Bool

abbrev pub unrouted : Console × Pick → Routed
unrouted (s, p) = (s, p, false)

abbrev pub set_routes : Console → Routes → Console
set_routes s r = record s { routes = r }

abbrev pub clear_route : Console → Text → Text → Console
clear_route s terminal node = set_routes s (clear s.routes terminal node)

module _ (meanwhile : Console → Console) (capability : Text) (nodes : List Text) (terminal : Text)
    (now : ℕ) where
  -- The route says another node than that of the session in hand, `p`: `otherwise` goes on where the
  -- node has no session for the capability.
  abbrev pub on_route : (Console → Text → Routed) → Text → Text → Console × Pick → Routed
  on_route otherwise node p (s, refused no_capability_worker) = otherwise s node
  on_route otherwise node p (s, answer) = (s, answer, false)

  abbrev pub settle_route :
      (Console → Text → Routed) → Console → Text → Routes × Text × Bool → Routed
  settle_route otherwise s p (routes, node, created) =
      let t = set_routes s routes in
      ite (text_discrete node (node_of t p)) (t, picked p, created)
        (on_route otherwise node p
          (pick_session_for_node (release_object t p capability) node capability))

  abbrev pub reserve_picked : (Console → Text → Routed) → Console × Pick → Routed
  reserve_picked otherwise (s, refused e) = (s, refused e, false)
  reserve_picked otherwise (s, picked p) =
      settle_route otherwise s p (reserve s.routes terminal (node_of s p) now)

  abbrev pub give_up : Console → Text → Routed
  give_up s node = (s, refused no_capability_worker, false)

  -- The second and last round, after the stale route was cleared.
  abbrev pub retry : Console → Text → Routed
  retry s node =
      reserve_picked give_up
        (pick_session_for_capability meanwhile (clear_route s terminal node) capability nodes)

  unfoldable pub try_reserve_and_pick : Console → Routed
  unfolding pick_session_for_capability pick_session_for_node
  try_reserve_and_pick s =
      reserve_picked retry (pick_session_for_capability meanwhile s capability nodes)

  abbrev pub pick_on_node : Text → Console × Pick → Routed
  pick_on_node node (s, refused no_capability_worker) =
      try_reserve_and_pick (clear_route s terminal node)
  pick_on_node node (s, answer) = (s, answer, false)

  abbrev pub pick_touched : Console → Routes × Option Text → Routed
  pick_touched s (routes, none) = try_reserve_and_pick (set_routes s routes)
  pick_touched s (routes, some node) =
      pick_on_node node (pick_session_for_node (set_routes s routes) node capability)

-- The nodes are those that are listed as the code asks the store.
unfoldable pub pick_session_for_dispatch :
    (Console → Console) → Console → Text → List Text → Text → ℕ → Routed
unfolding try_reserve_and_pick
pick_session_for_dispatch meanwhile s capability nodes terminal_session now =
    let terminal = trim_space terminal_session in
    if is_empty terminal
    then unrouted (pick_session_for_capability meanwhile s capability nodes)
    else (let t = set_routes s (maybe_prune s.routes now) in
        pick_touched meanwhile capability nodes terminal now t (touch t.routes terminal now))
