-- ===== src/Routes.antt =====
-- console/internal/grpcserver/terminal_session_routes.go: which worker node serves a terminal
-- session. The two maps of RegistryService that hold the routes are a record, and each method, which
-- holds terminalRoutesMu while it works, is a function on it. Times are Unix milliseconds after the
-- epoch. `now - x < y` on signed numbers is written `now < x + y`.
pub mod NodeIndex
pub mod Invariant
pub mod Loops
pub mod Operations
pub mod Spec
pub mod Affinity
mod Examples
use onlyboxes_mcp.Prelude.{
  ℕ, ◌+◌, ◌-◌, ◌*◌, ◌/◌, ◌≡◌, ite, Bool, true, false, ◌&&◌, ◌||◌, Option, none, some, List, [], ◌∷◌,
  ltb, leb, ◌==◌, if◌then◌else◌, is_empty, dec_lt,
}
use onlyboxes_mcp.Prelude.Text.{Text, text_discrete, trim_space}
use onlyboxes_mcp.Prelude.Map.{Map, get, put, delete}
use NodeIndex.{Index, add_to_index, drop_from_index}

pub record Route : Type 0 where
  pub node_id : Text
  pub last_used : ℕ

-- `ttl` is in nanoseconds, as time.Duration is.
pub record Routes : Type 0 where
  pub session_to_node : Map Route
  pub node_index : Index
  pub ttl : ℕ
  pub last_prune : ℕ

-- terminalRoutePruneMinInterval and the default of terminalRouteTTL, in the units of their use.
abbrev pub prune_min_interval : ℕ
prune_min_interval = 60000

abbrev pub default_route_ttl : ℕ
default_route_ttl = 30 * 60 * 1000000000

unfoldable pub new_routes : Routes
new_routes = record {
  session_to_node = [];
  node_index = [];
  ttl = default_route_ttl;
  last_prune = 0;
}

-- The write that bind and reserve share: the route, and its entry in the index.
unfoldable pub store_route : Text → Text → ℕ → Routes → Routes
store_route session node now st = record st {
  session_to_node = put session (record { node_id = node; last_used = now }) st.session_to_node;
  node_index = add_to_index session node st.node_index;
}

-- The previous route's index entry goes when the session moves to another node.
unfoldable pub unlink_previous : Text → Text → Option Route → Index → Index
unlink_previous session node none index = index
unlink_previous session node (some r) index =
    ite (text_discrete r.node_id node) index (drop_from_index session r.node_id index)

unfoldable pub bind : Routes → Text → Text → ℕ → Routes
unfolding store_route unlink_previous
bind st session_id node_id now =
    let session = trim_space session_id in
    let node = trim_space node_id in
    if is_empty session || is_empty node
    then st
    else store_route session node now (record st {
      node_index = unlink_previous session node (get session st.session_to_node) st.node_index;
    })

unfoldable pub refresh : Text → ℕ → Route → Routes → Routes
refresh session now r st = record st {
  session_to_node = put session (record r { last_used = now }) st.session_to_node;
}

reserve_found : Text → Text → ℕ → Routes → Option Route → Routes × Text × Bool
unfolding refresh store_route
reserve_found session node now st (some r) = (refresh session now r st, r.node_id, false)
reserve_found session node now st none = (store_route session node now st, node, true)

unfoldable pub reserve : Routes → Text → Text → ℕ → Routes × Text × Bool
unfolding reserve_found
reserve st session_id preferred_node_id now =
    let session = trim_space session_id in
    let node = trim_space preferred_node_id in
    if is_empty session || is_empty node
    then (st, [], false)
    else reserve_found session node now st (get session st.session_to_node)

touch_found : Text → ℕ → Routes → Option Route → Routes × Option Text
unfolding refresh
touch_found session now st none = (st, none)
touch_found session now st (some r) =
    if is_empty (trim_space r.node_id)
    then (st, none)
    else (refresh session now r st, some r.node_id)

unfoldable pub touch : Routes → Text → ℕ → Routes × Option Text
unfolding touch_found
touch st session_id now =
    let session = trim_space session_id in
    if is_empty session
    then (st, none)
    else touch_found session now st (get session st.session_to_node)

-- What clear and prune do with one route.
unfoldable pub remove_route : Text → Route → Routes → Routes
remove_route session r st = record st {
  session_to_node = delete session st.session_to_node;
  node_index = drop_from_index session r.node_id st.node_index;
}

clear_found : Text → Text → Routes → Option Route → Routes
unfolding remove_route
clear_found session expected st none = st
clear_found session expected st (some r) =
    if is_empty expected
    then remove_route session r st
    else ite (text_discrete r.node_id expected) (remove_route session r st) st

unfoldable pub clear : Routes → Text → Text → Routes
unfolding clear_found
clear st session_id expected_node_id =
    let session = trim_space session_id in
    if is_empty session
    then st
    else clear_found session (trim_space expected_node_id) st (get session st.session_to_node)

-- The loop of clearTerminalSessionRoutesByNode over the sessions that the index lists.
clear_one : Text → Text → Option Route → Map Route → Map Route
clear_one node session none routes = routes
clear_one node session (some r) routes =
    ite (text_discrete r.node_id node) (delete session routes) routes

unfoldable pub clear_listed : Text → Map (Unit {0}) → Map Route → Map Route
unfolding clear_one
clear_listed node [] routes = routes
clear_listed node ((session, _) ∷ rest) routes =
    clear_listed node rest (clear_one node session (get session routes) routes)

clear_indexed : Text → Routes → Option (Map (Unit {0})) → Routes
unfolding clear_listed
clear_indexed node st none = st
clear_indexed node st (some sessions) = record st {
  session_to_node = clear_listed node sessions st.session_to_node;
  node_index = delete node st.node_index;
}

unfoldable pub clear_by_node : Routes → Text → Routes
unfolding clear_indexed
clear_by_node st node_id =
    let node = trim_space node_id in
    if is_empty node then st else clear_indexed node st (get node st.node_index)

-- The loop of pruneExpiredTerminalSessionRoutes; the count is of the routes removed.
prune_one : ℕ → ℕ → Text → Route → Routes × ℕ → Routes × ℕ
unfolding remove_route
prune_one now ttl_ms session r (st, removed) =
    if ltb now (r.last_used + ttl_ms)
    then (st, removed)
    else (remove_route session r st, removed + 1)

unfoldable pub prune_entries : ℕ → ℕ → Map Route → Routes × ℕ → Routes × ℕ
unfolding prune_one
prune_entries now ttl_ms [] acc = acc
prune_entries now ttl_ms ((session, r) ∷ rest) acc =
    prune_entries now ttl_ms rest (prune_one now ttl_ms session r acc)

unfoldable pub prune_expired : Routes → ℕ → Routes × ℕ
unfolding prune_entries
prune_expired st now =
    if st.ttl == 0 then (st, 0) else prune_entries now (st.ttl / 1000000) st.session_to_node (st, 0)

unfoldable pub maybe_prune : Routes → ℕ → Routes
unfolding prune_expired
maybe_prune st now =
    if ltb 0 st.last_prune && ltb now (st.last_prune + prune_min_interval)
    then st
    else (prune_expired (record st { last_prune = now }) now).0
