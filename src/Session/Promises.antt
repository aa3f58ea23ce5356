-- ===== src/Session/Promises.antt =====
-- What dispatches may rely on in session_runtime.go: slots are neither lost nor used twice, a result
-- or the closing of the session reaches the waiting dispatch, and a command is settled once.
use onlyboxes_mcp.Prelude.{
  ℕ, ◌+◌, ◌≡◌, refl, false, Option, none, some, List, [], arith, is_empty, Bool-cases, inl, inr,
  ltb,
}
use onlyboxes_mcp.Prelude.Text.{Text, trim_space}
use onlyboxes_mcp.Prelude.Map.{get, get-delete_self}
use onlyboxes_mcp.Naming.{normalize_capability}
use onlyboxes_mcp.Session.Channels.{Outcome}
use onlyboxes_mcp.Session.Slots.{AtLimit, held}
use onlyboxes_mcp.Session.Closing.{Reach-Inv, new_session-Inv}
use onlyboxes_mcp.Session.Conservation.{slots}
use onlyboxes_mcp.Session.Steps.{System, Reach, count}
use onlyboxes_mcp.Session.{
  Session, Capability, Pending, Result, effective, try_acquire, unregister_pending, resolve_pending,
  settle_found, settle, new_session, Limit, outcome_of,
}

abbrev pub start : Text → Text → List (Option (Text × Limit)) → System
start node_id session_id declared = record {
  session = new_session node_id session_id declared;
  acquired = [];
}

-- From a new session, after any calls in any order, the slots in use of each capability are as many
-- as the pending commands of that capability and the dispatches that hold a slot and have not
-- registered or are giving one back, together; and they are at most the capability's limit.
pub slots_conserved :
    (node_id session_id : Text) (declared : List (Option (Text × Limit))) (y : System) (n : Text)
    → Reach (start node_id session_id declared) y
    → (slots y.session n ≡ held n y.session.pending + count n y.acquired)
      × AtLimit (get n y.session.capabilities)
slots_conserved node_id session_id declared y n r =
    let v = Reach-Inv (new_session-Inv node_id session_id declared) r in (v.balanced n, v.limited n)

-- In such a state, a capability that the session has can be acquired exactly when its pending
-- commands and the dispatches that hold a slot are fewer than its limit.
pub try_acquire_iff_room :
    (node_id session_id : Text) (declared : List (Option (Text × Limit))) (y : System) (n : Text)
    (c : Capability)
    → Reach (start node_id session_id declared) y
    → is_empty (normalize_capability n) ≡ false
    → get (normalize_capability n) y.session.capabilities ≡ some c
    → (try_acquire y.session n).1
      ≡ ltb
          (held (normalize_capability n) y.session.pending
            + count (normalize_capability n) y.acquired)
          (effective c).max_inflight
unfolding try_acquire
try_acquire_iff_room node_id session_id declared y n c r named known =
    let v = slots_conserved node_id session_id declared y (normalize_capability n) r in
    unfold effective in ground (arith, named, known, v.0)

settle_found_twice :
    (id : Text) (o o' : Option Outcome) (s : Session) (q : Option Pending)
    → get id s.pending ≡ q
    → get id (settle_found id o s q).pending ≡ none
unfolding settle_found settle
settle_found_twice id o o' s none e = e
settle_found_twice id o o' s (some p) e = get-delete_self id s.pending

settle_found-none :
    (id : Text) (o : Option Outcome) (s : Session) (q : Option Pending)
    → q ≡ none
    → settle_found id o s q ≡ s
unfolding settle_found
settle_found-none id o s none e = refl
settle_found-none id o s (some p) e = cc

-- When a result has been handled, neither a second result for the command nor the dispatch's
-- unregistering changes the session: the slot is given back once and the channel is closed once.
pub settled_once :
    (echo : List ℕ → Option Text) (now later : ℕ) (s : Session) (r r' : Result)
    → trim_space r'.command_id ≡ trim_space r.command_id
    → (unregister_pending (resolve_pending echo now s r) r.command_id
        ≡ resolve_pending echo now s r)
      × (resolve_pending echo later (resolve_pending echo now s r) r'
          ≡ resolve_pending echo now s r)
unfolding resolve_pending unregister_pending
settled_once echo now later s r r' same =
    rw same (elim (Bool-cases (is_empty (trim_space r.command_id))) [
      | inl e ↦ rw e (refl, refl)
      | inr e ↦ rw e (
        settle_found-none (trim_space r.command_id) none _ _ (
            settle_found_twice (trim_space r.command_id) (some (outcome_of echo now r)) none s _
              refl),
        settle_found-none (trim_space r.command_id) _ _ _ (
            settle_found_twice (trim_space r.command_id) (some (outcome_of echo now r)) none s _
              refl),
      )
    ])
