-- ===== src/Terminal/Examples.antt =====
-- Runs of worker/worker-docker/internal/runner/terminal_exec.go on concrete sessions.
use onlyboxes_mcp.Prelude.{pos, negsuc, arith, ℕ, ◌≡◌, ◌≢◌, refl, true, none, some, List, [], ◌∷◌}
use onlyboxes_mcp.Prelude.Text.{text, text_discrete, trim_space}
use onlyboxes_mcp.Prelude.Map.{get, put}
use onlyboxes_mcp.Terminal.Execute.{
  Request, Names, begun, refused, bad_lease, begin, CommandResult, Docker, execute, new_session,
}
use onlyboxes_mcp.Terminal.Busy.{NotBusy, Declines, execute-NotBusy, busy_excludes}
use onlyboxes_mcp.Terminal.Results.{Granted, begin_lease}
use onlyboxes_mcp.Terminal.{
  Config, Manager, TerminalSession, context_done, new_manager, resolve_lease_duration,
  cleanup_expired_sessions,
}

abbrev settings : Config
settings = record {
  lease_min_sec = 120;
  lease_max_sec = 90;
  lease_default_sec = 10;
  output_limit_bytes = 0;
  docker_image = [];
  memory_limit = [];
  cpu_limit = [];
  pids_limit = 0;
}

abbrev manager : Manager
manager = new_manager settings

abbrev request : Request
request = record {
  command = text "ls";
  session_id = text " shell ";
  create_if_missing = true;
  lease_ttl_sec = none;
}

abbrev names : Names
names = record { uuid = text "u1"; container = some (text "c1") }

abbrev quiet : CommandResult
quiet = record { stdout = []; stderr = []; exit_code = 0; err = none }

-- The command is cut off by its deadline.
abbrev docker : Docker
docker = record { create = quiet; start = quiet; exec = record quiet { err = some context_done } }

nothing : Manager → Manager
nothing m = m

execute-NotBusy_example :
    NotBusy (get (text "shell") (execute nothing docker manager request names 500).0.sessions)
unfolding begin trim_space resolve_lease_duration new_manager get
execute-NotBusy_example =
    execute-NotBusy nothing docker manager _ request names 500 (text "shell") (text "c1") true refl
      (refl, refl)

abbrev taken : TerminalSession
taken = new_session (text "c1") 1000

abbrev busy : Manager
busy = record manager { sessions = (text "shell", taken) ∷ [] }

busy_excludes_example :
    ((d : Docker) (r : Request) (n : Names) (now : ℕ)
      → trim_space r.session_id ≡ text "shell"
      → Declines busy (execute nothing d busy r n now))
    × ((d : Docker) (r : Request) (n : Names) (now : ℕ)
        → text "shell" ≢ trim_space r.session_id
        → text "shell" ≢ n.uuid
        → text "shell" ≢ trim_space n.uuid
        → get (text "shell") (execute nothing d busy r n now).0.sessions ≡ some taken)
    × ((now : ℕ) → get (text "shell") (cleanup_expired_sessions now busy).sessions ≡ some taken)
unfolding get text_discrete nothing
busy_excludes_example = busy_excludes busy (text "shell") taken nothing refl refl refl (λ m h. h)

begin_lease_example : Granted manager 500 (pos 120) (begin manager request names 500)
unfolding new_manager get
begin_lease_example = begin_lease manager request names 500 (pos 120) refl (omega arith) refl

-- A lease that is asked for, and one that is negative.
begun_for :
    (begin manager (record request { lease_ttl_sec = some (pos 120) }) names 500).1
    ≡ begun (text "shell") (text "c1") true
unfolding begin trim_space resolve_lease_duration new_manager get put text_discrete
begun_for = refl

negative :
    (begin manager (record request { lease_ttl_sec = some (negsuc 0) }) names 500).1
    ≡ refused bad_lease
unfolding begin trim_space resolve_lease_duration new_manager
negative = refl

abbrev bytes : List ℕ
bytes = 1 ∷ 2 ∷ 3 ∷ []
