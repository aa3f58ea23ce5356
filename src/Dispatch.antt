-- ===== src/Dispatch.antt =====
-- console/internal/grpcserver/service_dispatch.go: the choice of a worker's session for a command. A
-- session is an object that the map of sessions and the requests at work point to: `objects` holds
-- the objects by session id, `sessions` the map from nodes to them. The nodes that are online are
-- what the store answers.
pub mod Terminal
pub mod Command
pub mod Views
pub mod Gathering
pub mod RoundRobin
pub mod Pointers
pub mod Picking
pub mod Sticky
pub mod GivesBack
mod Examples
use onlyboxes_mcp.Prelude.{
  ℕ, zero, suc, ◌+◌, ◌%◌, ◌^◌, ◌≡◌, ite, Bool, true, false, ◌&&◌, ◌||◌, not, Option, none, some,
  List, [], ◌∷◌, ◌++◌, ltb, leb, ◌==◌, if◌then◌else◌, is_empty, is_some, length,
}
use onlyboxes_mcp.Prelude.Text.{Text, text, text_discrete, trim_space}
use onlyboxes_mcp.Prelude.Map.{Map, get, put}
use onlyboxes_mcp.Errors.{Error, no_capability_worker, no_worker_capacity}
use onlyboxes_mcp.Naming.{normalize_capability, computer_use_capability, read_image_capability}
use onlyboxes_mcp.Scope.Ids.{normalize_task_owner_id}
use onlyboxes_mcp.Session.{Session, has_capability, inflight_snapshot, try_acquire, release}
use onlyboxes_mcp.Routes.{Routes}

pub record Console : Type 0 where
  pub objects : Map Session
  pub sessions : Map Text
  pub routes : Routes
  pub round_robin : ℕ

-- The two queries of the store.
pub record Store : Type 0 where
  pub list_online_by_capability : Text → List Text
  pub list_online_by_owner_type_and_capability : Text → Text → Text → List Text

abbrev pub worker_type_sys : Text
worker_type_sys = text "worker-sys"

unfoldable pub list_online_node_ids : Store → Text → Text → List Text
list_online_node_ids store capability owner_id =
    let name = normalize_capability capability in
    ite (text_discrete name computer_use_capability) (by_owner name) (
      ite (text_discrete name read_image_capability) (by_owner name)
        (store.list_online_by_capability name))
  where
    by_owner : Text → List Text
    by_owner name =
        if is_empty (normalize_task_owner_id owner_id)
        then []
        else store.list_online_by_owner_type_and_capability (normalize_task_owner_id owner_id)
            worker_type_sys name

abbrev pub at_pointer : Text → Option Session → Option (Text × Session)
at_pointer p none = none
at_pointer p (some o) = some (p, o)

abbrev pub object_of : Map Session → Option Text → Option (Text × Session)
object_of objects none = none
object_of objects (some p) = at_pointer p (get p objects)

-- getSession: the object and where it is.
unfoldable pub get_session : Console → Text → Option (Text × Session)
get_session s node_id = object_of s.objects (get node_id s.sessions)

abbrev pub set_object : Text → Session → Console → Console
set_object p o s = record s { objects = put p o s.objects }

abbrev acquired : Console → Text → Session × Bool → Console × Bool
acquired s p (o, b) = (set_object p o s, b)

abbrev acquire_found : Console → Text → Text → Option Session → Console × Bool
acquire_found s p capability none = (s, false)
acquire_found s p capability (some o) = acquired s p (try_acquire o capability)

-- tryAcquireCapability of the session that a candidate points to.
unfoldable pub acquire : Console → Text → Text → Console × Bool
acquire s p capability = acquire_found s p capability (get p s.objects)

abbrev release_found : Console → Text → Text → Option Session → Console
release_found s p capability none = s
release_found s p capability (some o) = set_object p (release o capability) s

unfoldable pub release_object : Console → Text → Text → Console
release_object s p capability = release_found s p capability (get p s.objects)

-- What the loop over the nodes has gathered: the candidates with the fewest slots in use so far, those
-- with more, that fewest number (`none` is MaxInt), and whether a session was seen.
pub record Scan : Type 0 where
  pub preferred : List Text
  pub fallback : List Text
  pub min_inflight : Option ℕ
  pub has_session : Bool

abbrev pub empty_scan : Scan
empty_scan = record { preferred = []; fallback = []; min_inflight = none; has_session = false }

abbrev pub restart : Text → ℕ → Scan → Scan
restart p inflight c = record c { preferred = p ∷ []; min_inflight = some inflight }

-- One candidate with room.
unfoldable pub add_candidate : Text → ℕ → Option ℕ → Scan → Scan
add_candidate p inflight none c = restart p inflight c
add_candidate p inflight (some least) c =
    if ltb inflight least
    then restart p inflight c
    else if inflight == least
    then record c { preferred = c.preferred ++ (p ∷ []) }
    else record c { fallback = c.fallback ++ (p ∷ []) }

abbrev pub weigh : Text → Session × Option (ℕ × ℕ) → Console → Scan → Console × Scan
weigh p (o, none) s c = (set_object p o s, record c { has_session = true })
weigh p (o, some (inflight, max_inflight)) s c =
    if leb max_inflight inflight then (set_object p o s, record c { has_session = true }) else (
      set_object p o s,
      add_candidate p inflight c.min_inflight (record c { has_session = true }),
    )

abbrev pub consider : Text → Option (Text × Session) → Console → Scan → Console × Scan
consider capability none s c = (s, c)
consider capability (some (p, o)) s c =
    if has_capability o capability then weigh p (inflight_snapshot o capability) s c else (s, c)

unfoldable pub scan : Text → List Text → Console → Scan → Console × Scan
unfolding add_candidate get_session
scan capability [] s c = (s, c)
scan capability (node ∷ nodes) s c =
    let (t, d) = consider capability (get_session s node) s c in scan capability nodes t d

abbrev pub get_node : List Text → ℕ → Text
get_node [] i = []
get_node (n ∷ ns) zero = n
get_node (n ∷ ns) (suc i) = get_node ns i

-- The nodes in the order of the loop, (start + i) % len(nodeIDs) for `todo` indices i.
unfoldable pub visited : List Text → ℕ → ℕ → ℕ → List Text
visited nodes start zero i = []
visited nodes start (suc todo) i =
    get_node nodes ((start + i) % length nodes) ∷ visited nodes start todo (i + 1)

abbrev pub acquire_or :
    Text → (Console → Console × Option Text) → Console × Bool → Console × Option Text
acquire_or p rest (t, true) = (t, some p)
acquire_or p rest (t, false) = rest t

-- The loops over the candidates: the first of which a slot can be had.
unfoldable pub acquire_first : Text → List Text → Console → Console × Option Text
unfolding acquire
acquire_first capability [] s = (s, none)
acquire_first capability (p ∷ ps) s =
    acquire_or p (acquire_first capability ps) (acquire s p capability)

-- The session that was picked, or the error.
pub data Pick : Type 0 where
  picked : Text → Pick
  refused : Error → Pick

abbrev pub last_try : Console × Option Text → Console × Pick
last_try (s, some p) = (s, picked p)
last_try (s, none) = (s, refused no_worker_capacity)

abbrev pub then_fallback : Text → List Text → Console × Option Text → Console × Pick
then_fallback capability fallback (s, some p) = (s, picked p)
then_fallback capability fallback (s, none) = last_try (acquire_first capability fallback s)

-- After the loop over the nodes; `meanwhile` is what others do before a slot is taken.
abbrev pub choose : (Console → Console) → Text → Console × Scan → Console × Pick
choose meanwhile capability (s, c) =
    if is_empty c.preferred
    then (s, refused (if c.has_session then no_worker_capacity else no_capability_worker))
    else then_fallback capability c.fallback (acquire_first capability c.preferred (meanwhile s))

-- AddUint64 wraps around. The code takes the counter as an int, which it is below 2 ^ 63.
abbrev pub next_round : Console → Console
next_round s = record s { round_robin = (s.round_robin + 1) % 2 ^ 64 }

-- pickSessionForCapability, over the nodes that the store lists.
unfoldable pub pick_session_for_capability :
    (Console → Console) → Console → Text → List Text → Console × Pick
unfolding scan visited acquire_first
pick_session_for_capability meanwhile s capability [] = (s, refused no_capability_worker)
pick_session_for_capability meanwhile s capability (n ∷ ns) =
    choose meanwhile capability (
      scan capability (visited (n ∷ ns) s.round_robin (length (n ∷ ns)) 0) (next_round s)
        empty_scan)

abbrev pub pick_acquired : Text → Console × Bool → Console × Pick
pick_acquired p (s, true) = (s, picked p)
pick_acquired p (s, false) = (s, refused no_worker_capacity)

abbrev pub pick_found : Console → Text → Option (Text × Session) → Console × Pick
pick_found s capability none = (s, refused no_capability_worker)
pick_found s capability (some (p, o)) =
    if has_capability o capability
    then pick_acquired p (acquire s p capability)
    else (s, refused no_capability_worker)

unfoldable pub pick_session_for_node : Console → Text → Text → Console × Pick
unfolding get_session acquire
pick_session_for_node s node_id capability =
    if is_empty (trim_space node_id)
    then (s, refused no_capability_worker)
    else pick_found s capability (get_session s (trim_space node_id))
