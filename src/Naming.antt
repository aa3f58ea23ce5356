-- ===== src/Naming.antt =====
-- Names of capabilities: normalizeCapability of console/internal/grpcserver/service_dispatch.go and
-- the constants of service.go and task_owner_scope.go.
use onlyboxes_mcp.Prelude.{◌≡◌}
use onlyboxes_mcp.Prelude.Text.{Text, text, trim_space, to_lower, trim_space-to_lower_idem}

unfoldable pub normalize_capability : Text → Text
normalize_capability capability = trim_space (to_lower capability)

pub normalize_capability_idem :
    (c : Text) → normalize_capability (normalize_capability c) ≡ normalize_capability c
unfolding normalize_capability
normalize_capability_idem c = trim_space-to_lower_idem c

abbrev pub computer_use_capability : Text
computer_use_capability = text "computeruse"

abbrev pub read_image_capability : Text
read_image_capability = text "readimage"

abbrev pub terminal_exec_capability : Text
terminal_exec_capability = text "terminalexec"

abbrev pub terminal_resource_capability : Text
terminal_resource_capability = text "terminalresource"
