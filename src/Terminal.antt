-- ===== src/Terminal.antt =====
-- worker/worker-docker/internal/runner/terminal_exec.go: the terminal sessions of a Docker worker. What
-- the docker command answers, the clock, in nanoseconds, and the random names are arguments; the
-- containers that are force-removed are recorded. A setting of 0 or less is 0. What a command prints is
-- bytes.
pub mod Execute
pub mod Busy
pub mod Results
mod Examples
use onlyboxes_mcp.Prelude.{
  ℤ, pos, negsuc, ℕ, ◌+◌, ◌-◌, ◌*◌, ◌/◌, ◌%◌, ◌^◌, ◌≡◌, ite, Bool, true, false, ◌&&◌, ◌||◌, not,
  Option, none, some, List, [], ◌∷◌, ◌++◌, ltb, leb, ◌==◌, if◌then◌else◌, is_empty, is_some, length,
  take,
}
use onlyboxes_mcp.Prelude.Text.{Text, text, trim_space, to_lower, strip_prefix}
use onlyboxes_mcp.Prelude.Map.{Map, get, put, delete}

-- terminalSession, less its id, which is its key.
pub record TerminalSession : Type 0 where
  pub container_name : Text
  pub lease_expires_at : ℕ
  pub busy : Bool

-- terminalSessionManagerConfig
pub record Config : Type 0 where
  pub lease_min_sec : ℕ
  pub lease_max_sec : ℕ
  pub lease_default_sec : ℕ
  pub output_limit_bytes : ℕ
  pub docker_image : Text
  pub memory_limit : Text
  pub cpu_limit : Text
  pub pids_limit : ℕ

pub record Manager : Type 0 where
  pub sessions : Map TerminalSession
  pub config : Config
  pub removed : List Text

-- terminalExecError, and the errors that wrap one of docker's or of the context.
pub data ExecError : Type 0 where
  terminal_error : Text → Text → ExecError
  context_done : ExecError
  failed : Text → ExecError

abbrev pub or_default : ℕ → ℕ → ℕ
or_default n d = if n == 0 then d else n

abbrev pub or_text : Text → Text → Text
or_text t d = if is_empty (trim_space t) then d else trim_space t

abbrev pub at_least : ℕ → ℕ → ℕ
at_least low n = if ltb n low then low else n

abbrev pub at_most : ℕ → ℕ → ℕ
at_most high n = if ltb high n then high else n

-- newTerminalSessionManager
unfoldable pub new_manager : Config → Manager
new_manager cfg =
    let low = or_default cfg.lease_min_sec 60 in
    let high = at_least low (or_default cfg.lease_max_sec 1800) in
    record {
      sessions = [];
      config = record {
        lease_min_sec = low;
        lease_max_sec = high;
        lease_default_sec = at_most high (at_least low (or_default cfg.lease_default_sec 60));
        output_limit_bytes = or_default cfg.output_limit_bytes (1024 * 1024);
        docker_image = or_text cfg.docker_image (text "coolfan1024/onlyboxes-default-worker:0.0.3");
        memory_limit = or_text cfg.memory_limit (text "256m");
        cpu_limit = or_text cfg.cpu_limit (text "1.0");
        pids_limit = or_default cfg.pids_limit 128;
      };
      removed = [];
    }

-- A time.Duration of so many seconds, as its 64 bits: those from 2 ^ 63 on are negative.
abbrev pub duration_of : ℕ → ℕ
duration_of sec = (sec * 1000000000) % 2 ^ 64

abbrev pub bounded : Config → ℤ → Option ℕ
bounded c (negsuc n) = none
bounded c (pos sec) =
    if ltb sec c.lease_min_sec || ltb c.lease_max_sec sec then none else some (duration_of sec)

-- resolveLeaseDuration, with bounds that are not negative; `none` where the lease is out of them.
unfoldable pub resolve_lease_duration : Config → Option ℤ → Option ℕ
resolve_lease_duration c none = bounded c (pos c.lease_default_sec)
resolve_lease_duration c (some sec) = bounded c sec

-- Add of a time with a duration; a time before 1970 is 0.
abbrev pub add_duration : ℕ → ℕ → ℕ
add_duration now d = if ltb d (2 ^ 63) then now + d else (now + d) - 2 ^ 64

unfoldable pub force_remove_container : Text → Manager → Manager
force_remove_container name m =
    if is_empty (trim_space name)
    then m
    else record m { removed = m.removed ++ (trim_space name ∷ []) }

-- What the janitor does with one session: those that are busy or whose lease runs are kept.
abbrev pub is_kept : ℕ → TerminalSession → Bool
is_kept now t = t.busy || ltb now t.lease_expires_at

unfoldable pub split_expired : ℕ → Map TerminalSession → Map TerminalSession × List Text
split_expired now [] = ([], [])
split_expired now ((id, t) ∷ rest) =
    let (kept, expired) = split_expired now rest in
    if is_kept now t then ((id, t) ∷ kept, expired) else (kept, t.container_name ∷ expired)

unfoldable pub remove_all : List Text → Manager → Manager
unfolding force_remove_container
remove_all [] m = m
remove_all (name ∷ names) m = remove_all names (force_remove_container name m)

unfoldable pub cleanup_expired_sessions : ℕ → Manager → Manager
unfolding split_expired remove_all
cleanup_expired_sessions now m =
    remove_all (split_expired now m.sessions).1
      (record m { sessions = (split_expired now m.sessions).0 })

abbrev pub idle_found : Text → Manager → Option TerminalSession → Manager × Option ℕ
idle_found id m none = (m, none)
idle_found id m (some t) =
    (record m { sessions = put id (record t { busy = false }) m.sessions }, some t.lease_expires_at)

-- markSessionIdle: the expiry of the lease, if the session is there.
unfoldable pub mark_session_idle : Text → Manager → Manager × Option ℕ
mark_session_idle session_id m =
    let id = trim_space session_id in
    if is_empty id then (m, none) else idle_found id m (get id m.sessions)

unfoldable pub drop_session : Text → Manager → Manager
drop_session session_id m =
    let id = trim_space session_id in
    if is_empty id then m else record m { sessions = delete id m.sessions }

abbrev pub destroy_found : Text → Manager → Option TerminalSession → Manager
destroy_found id m none = m
destroy_found id m (some t) =
    force_remove_container t.container_name (record m { sessions = delete id m.sessions })

unfoldable pub destroy_session : Text → Manager → Manager
unfolding force_remove_container
destroy_session session_id m =
    let id = trim_space session_id in
    if is_empty id then m else destroy_found id m (get id m.sessions)

abbrev pub containers : Map TerminalSession → List Text
containers [] = []
containers ((id, t) ∷ rest) = t.container_name ∷ containers rest

-- Close, the first time.
unfoldable pub close : Manager → Manager
unfolding remove_all
close m = remove_all (containers m.sessions) (record m { sessions = [] })

-- truncateByBytes
unfoldable pub truncate_by_bytes : List ℕ → ℕ → List ℕ × Bool
truncate_by_bytes value max_bytes =
    if max_bytes == 0
    then (value, false)
    else if leb (length value) max_bytes
    then (value, false)
    else (take max_bytes value, true)

-- strings.Contains
unfoldable pub contains : Text → Text → Bool
contains part [] = is_empty part
contains part (c ∷ s) = is_some (strip_prefix part (c ∷ s)) || contains part s

-- isNoSuchContainerMessage
unfoldable pub is_no_such_container : Text → Bool
unfolding contains
is_no_such_container stderr = contains (text "no such container") (to_lower stderr)
