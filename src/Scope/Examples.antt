-- ===== src/Scope/Examples.antt =====
-- The theorems about scoped session ids at concrete inputs.
use onlyboxes_mcp.Prelude.{
  ℤ, pos, negsuc, ◌≡◌, refl, ap, Bool, true, false, Option, none, some, [], ◌∷◌, ◌++◌, ℕ, zero, suc,
  arith, inl, length, take, drop,
}
use onlyboxes_mcp.Prelude.Text.{Text, text, trim_space, text_discrete}
use onlyboxes_mcp.Prelude.Map.{Map, get, put}
use onlyboxes_mcp.Naming.{terminal_exec_capability}
use onlyboxes_mcp.Scope.Ids.{normalize_task_owner_id, scope_terminal_session_id}
use onlyboxes_mcp.Scope.Results.{restore-scope, scope_task_input_owned, owned_session, asked}
use onlyboxes_mcp.Scope.{ExecPayload, Value, str, raw, Codec, scope_task_input, restore_task_result}

abbrev alice : Text
alice = text "acc_01"

abbrev bob : Text
bob = text "acc_012"

-- A codec that writes the lengths of the fields before them.
abbrev bit : Bool → ℕ
bit true = 1
bit false = 0

abbrev unbit : ℕ → Bool
unbit zero = false
unbit (suc n) = true

abbrev lease_code : Option ℤ → ℕ × ℕ
lease_code none = (0, 0)
lease_code (some (pos n)) = (1, n)
lease_code (some (negsuc n)) = (2, n)

abbrev lease_of : ℕ × ℕ → Option ℤ
lease_of (zero, n) = none
lease_of (suc zero, n) = some (pos n)
lease_of (suc (suc k), n) = some (negsuc n)

abbrev read_exec : Text → Option ExecPayload
read_exec (b ∷ k ∷ l ∷ n ∷ rest) = some (record {
  command = take n rest;
  session_id = drop n rest;
  create_if_missing = unbit b;
  lease_ttl_sec = lease_of (k, l);
})
read_exec other = none

abbrev write_exec : ExecPayload → Text
write_exec p =
    bit p.create_if_missing
    ∷ (lease_code p.lease_ttl_sec).0
    ∷ (lease_code p.lease_ttl_sec).1
    ∷ length p.command
    ∷ (p.command ++ p.session_id)

abbrev read_object : Text → Option (Map Value)
read_object t = some ((text "session_id", str t) ∷ [])

abbrev sized : Codec
sized = record {
  decode_exec = read_exec;
  encode_exec = write_exec;
  decode_resource = λ t. none;
  encode_resource = λ p. [];
  decode_object = read_object;
  encode_object = λ m. elim (get (text "session_id") m) [
    | none ↦ []
    | some v ↦ elim v [ str t ↦ t | raw t ↦ t ]
  ];
}

take-length : (a b : Text) → take (length a) (a ++ b) ≡ a
take-length [] b = refl
take-length (x ∷ a) b = ap (◌∷◌ x) (take-length a b)

drop-length : (a b : Text) → drop (length a) (a ++ b) ≡ b
drop-length [] b = refl
drop-length (x ∷ a) b = drop-length a b

unbit-bit : (b : Bool) → unbit (bit b) ≡ b
unbit-bit true = refl
unbit-bit false = refl

lease_of_code : (l : Option ℤ) → lease_of (lease_code l) ≡ l
lease_of_code none = refl
lease_of_code (some (pos n)) = refl
lease_of_code (some (negsuc n)) = refl

read-write_exec : (p : ExecPayload) → read_exec (write_exec p) ≡ some p
read-write_exec p = cc (
  take-length p.command p.session_id,
  drop-length p.command p.session_id,
  unbit-bit p.create_if_missing,
  lease_of_code p.lease_ttl_sec,
)

abbrev command_only : ExecPayload
command_only = record {
  command = text "ls";
  session_id = [];
  create_if_missing = false;
  lease_ttl_sec = none;
}

abbrev sent_text : Text
sent_text = write_exec (record command_only {
  session_id = scope_terminal_session_id alice (text "new");
  create_if_missing = true;
})

scope_task_input_owned_example :
    owned_session alice (sized.decode_exec sent_text)
    ≡ some (asked (some (text "new")) command_only)
unfolding trim_space text_discrete scope_task_input normalize_task_owner_id
    scope_terminal_session_id
scope_task_input_owned_example =
    scope_task_input_owned sized read-write_exec alice (write_exec command_only) sent_text
      (some (text "new")) command_only refl refl refl refl

restore-scope_example :
    (restore_task_result sized alice terminal_exec_capability
        (scope_terminal_session_id alice (text "s"))
      ≡ some (
          sized.encode_object (
            put
              (text "session_id")
              (str (trim_space (text "s")))
              ((text "session_id", str (scope_terminal_session_id alice (text "s"))) ∷ []))))
    × (restore_task_result sized bob terminal_exec_capability
          (scope_terminal_session_id alice (text "s"))
        ≡ none)
unfolding trim_space text_discrete get scope_terminal_session_id
restore-scope_example =
    restore-scope sized alice bob terminal_exec_capability
      (scope_terminal_session_id alice (text "s"))
      ((text "session_id", str (scope_terminal_session_id alice (text "s"))) ∷ []) (text "s")
      (inl refl) refl refl refl refl (omega arith) (omega arith) (λ e. cc) refl refl
