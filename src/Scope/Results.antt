-- ===== src/Scope/Results.antt =====
-- Terminal tasks in task_owner_scope.go on the way to the worker and back.
use onlyboxes_mcp.Prelude.{
  ◌≡◌, ◌≢◌, refl, sym, ap, ◌∙◌, Bool, true, false, ◌⊎◌, Option, none, some, arith, if◌then◌else◌,
  is_empty, Bool-cases, inl, inr,
}
use onlyboxes_mcp.Prelude.Text.{Text, text, text_discrete, trim_space, trim_space_idem}
use onlyboxes_mcp.Prelude.Map.{Map, get, put}
use onlyboxes_mcp.Naming.{terminal_exec_capability, terminal_resource_capability}
use onlyboxes_mcp.Scope.Ids.{
  normalize_task_owner_id, scope_terminal_session_id, unscope_terminal_session_id, unscope-scope,
  unscope-scope_ne, HasNo,
}
use onlyboxes_mcp.Scope.{
  ExecPayload, Value, str, Codec, ok, scope_task_input, restore_task_result, scope_exec,
  with_created, restored,
}

abbrev pub IsTerminal : Text → Type 0
IsTerminal capability =
    (capability ≡ terminal_exec_capability) ⊎ (capability ≡ terminal_resource_capability)

-- The owner's id in the payload, if the text decodes to one.
abbrev pub owned_session : Text → Option ExecPayload → Option Text
owned_session owner none = none
owned_session owner (some p) = unscope_terminal_session_id owner p.session_id

-- The session that a terminalExec task asks for: the one in its payload, or a new one.
abbrev pub asked : Option Text → ExecPayload → Text
asked none p = trim_space p.session_id
asked (some created) p =
    if is_empty (trim_space p.session_id) then trim_space created else trim_space p.session_id

unscope_trim :
    (owner s : Text)
    → unscope_terminal_session_id (trim_space owner) s ≡ unscope_terminal_session_id owner s
unfolding unscope_terminal_session_id
unscope_trim owner s = rw (trim_space_idem owner) refl

owned_normalize :
    (owner : Text) (q : Option ExecPayload)
    → owned_session (trim_space owner) q ≡ owned_session owner q
owned_normalize owner none = refl
owned_normalize owner (some p) = unscope_trim owner p.session_id

module _ (codec : Codec)
    (decode-encode_exec : (p : ExecPayload)
      → codec.decode_exec (codec.encode_exec p) ≡ some p) where
  sent :
      (o s out : Text) (create : Bool) (p : ExecPayload)
      → is_empty (trim_space o) ≡ false
      → is_empty (trim_space s) ≡ false
      → ok (
          codec.encode_exec
            (record p { session_id = scope_terminal_session_id o s; create_if_missing = create }))
        ≡ ok out
      → owned_session o (codec.decode_exec out) ≡ some (trim_space s)
  sent o s out create p ho hs e =
      let same : codec.encode_exec
            (record p { session_id = scope_terminal_session_id o s; create_if_missing = create })
          ≡ out =
        cc e in
      rw (← same) (rw (decode-encode_exec _) (unscope-scope o s ho hs))

  with_created_owned :
      (o out : Text) (new_id : Option Text) (p : ExecPayload)
      → is_empty (trim_space o) ≡ false
      → is_empty (trim_space p.session_id) ≡ true
      → with_created codec o p new_id ≡ ok out
      → owned_session o (codec.decode_exec out) ≡ some (asked new_id p)
  with_created_owned o out none p ho hp h = cc
  with_created_owned o out (some created) p ho hp h =
      elim (Bool-cases (is_empty (trim_space created))) [
        | inl e ↦ absurd (ground (arith, e, h))
        | inr e ↦ rw (hp) (
            sent o (trim_space created) out true p ho (rw (trim_space_idem created) e) (rw e at h)
            ∙ ap some (trim_space_idem created))
      ]

  asked_given :
      (new_id : Option Text) (p : ExecPayload)
      → is_empty (trim_space p.session_id) ≡ false
      → asked new_id p ≡ trim_space p.session_id
  asked_given none p h = refl
  asked_given (some created) p h = rw h refl

  scope_exec_owned :
      (o input out : Text) (new_id : Option Text) (p : ExecPayload)
      → is_empty (trim_space o) ≡ false
      → scope_exec codec o new_id input (some p) ≡ ok out
      → owned_session o (codec.decode_exec out) ≡ some (asked new_id p)
  scope_exec_owned o input out new_id p ho h =
      elim (Bool-cases (is_empty (trim_space p.session_id))) [
        | inl e ↦ with_created_owned o out new_id p ho e (rw e at h)
        | inr e ↦
            sent o (trim_space p.session_id) out p.create_if_missing p ho
              (rw (trim_space_idem p.session_id) e) (rw e at h)
            ∙ ap some (trim_space_idem p.session_id ∙ sym (asked_given new_id p e))
      ]

  -- What a terminalExec task of an owner sends to the worker, if it is accepted and its input
  -- decodes, carries a session id that is the owner's, and stands for the session that the input
  -- names, or else for the session that was just created.
  pub scope_task_input_owned :
      (owner input out : Text) (new_id : Option Text) (p : ExecPayload)
      → is_empty (trim_space owner) ≡ false
      → is_empty input ≡ false
      → codec.decode_exec input ≡ some p
      → scope_task_input codec terminal_exec_capability owner new_id input ≡ ok out
      → owned_session owner (codec.decode_exec out) ≡ some (asked new_id p)
  unfolding scope_task_input normalize_task_owner_id text_discrete
  scope_task_input_owned owner input out new_id p ho hi hd h =
      sym (owned_normalize owner (codec.decode_exec out))
      ∙ scope_exec_owned (trim_space owner) input out new_id p (rw (trim_space_idem owner) ho)
          (rw (ho, hi, hd) at h)

restore_found :
    (codec : Codec) (owner capability result : Text) (object : Map Value) (session : Text)
    → IsTerminal capability
    → is_empty (trim_space owner) ≡ false
    → is_empty result ≡ false
    → codec.decode_object result ≡ some object
    → get (text "session_id") object ≡ some (str session)
    → restore_task_result codec owner capability result
      ≡ restored codec object (unscope_terminal_session_id (trim_space owner) session)
unfolding restore_task_result normalize_task_owner_id text_discrete
restore_found codec owner capability result object session (inl c) ho hr hd hg =
    rw (c) (rw (ho, hr, hd, hg) refl)
restore_found codec owner capability result object session (inr c) ho hr hd hg =
    rw (c) (rw (ho, hr, hd, hg) refl)

-- A terminal result whose session id is the scoped id of its owner is surfaced with the id that the
-- owner gave, and with the rest of the object unchanged; the same result is withheld from any other
-- owner, where the separator stands in neither owner.
pub restore-scope :
    (codec : Codec) (owner other capability result : Text) (object : Map Value) (session : Text)
    → IsTerminal capability
    → is_empty (trim_space owner) ≡ false
    → is_empty (trim_space other) ≡ false
    → is_empty (trim_space session) ≡ false
    → is_empty result ≡ false
    → HasNo b':' (trim_space owner)
    → HasNo b':' (trim_space other)
    → trim_space owner ≢ trim_space other
    → codec.decode_object result ≡ some object
    → get (text "session_id") object ≡ some (str (scope_terminal_session_id owner session))
    → (restore_task_result codec owner capability result
        ≡ some (codec.encode_object (put (text "session_id") (str (trim_space session)) object)))
      × (restore_task_result codec other capability result ≡ none)
restore-scope codec owner other capability result object session t ho hp hs hr a b ne hd hg = (
  restore_found codec owner capability result object _ t ho hr hd hg
      ∙ ap (restored codec object) (unscope_trim owner _ ∙ unscope-scope owner session ho hs),
  restore_found codec other capability result object _ t hp hr hd hg
      ∙ ap (restored codec object)
          (unscope_trim other _ ∙ unscope-scope_ne owner other session ho hp hs a b ne),
)
