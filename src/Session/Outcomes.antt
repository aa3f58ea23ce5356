-- ===== src/Session/Outcomes.antt =====
-- What a dispatch that waits in service_dispatch.go receives from session_runtime.go.
use onlyboxes_mcp.Prelude.{
  ℕ, ◌≡◌, ◌≢◌, refl, subst, false, Option, none, some, List, [], arith, is_empty,
}
use onlyboxes_mcp.Prelude.Text.{Text, trim_space}
use onlyboxes_mcp.Prelude.Map.{get, get-delete_self, get-delete_ne}
use onlyboxes_mcp.Errors.{Error}
use onlyboxes_mcp.Session.Channels.{Outcome, open_channel, get_elem?}
use onlyboxes_mcp.Session.Lifecycle.{close, close_open, or_default}
use onlyboxes_mcp.Session.Closing.{settle_all_rest}
use onlyboxes_mcp.Session.Delivery.{Open, IsOpen}
use onlyboxes_mcp.Session.Promises.{start}
use onlyboxes_mcp.Session.Results.{
  delivered, settle_all_open, open_delivered, Reach-Open, new_session-Open,
}
use onlyboxes_mcp.Session.Steps.{System, Reach}
use onlyboxes_mcp.Session.{
  Session, Pending, Result, register_pending, register_open, resolve_pending, settle_found, settle,
  Limit, outcome_of,
}

Open-of_found :
    (s : Session) (id : Text) (p : Pending)
    → Open s
    → get id s.pending ≡ some p
    → get_elem? s.channels p.channel ≡ some open_channel
Open-of_found s id p v e = subst (IsOpen s.channels) e (v.opened id)

settle_found_outcome :
    (id : Text) (x : Outcome) (s : Session) (p : Pending) (q : Option Pending)
    → q ≡ some p
    → get_elem? s.channels p.channel ≡ some open_channel
    → (get_elem? (settle_found id (some x) s q).channels p.channel ≡ some (delivered x))
      × (get id (settle_found id (some x) s q).pending ≡ none)
      × ((j : Text) → j ≢ id → get j (settle_found id (some x) s q).pending ≡ get j s.pending)
unfolding settle_found settle
settle_found_outcome id x s p none e h = cc
settle_found_outcome id x s p (some q) e h = (
  ground (arith, e, open_delivered p.channel x s.channels h),
  get-delete_self id s.pending,
  λ j ne. get-delete_ne id j s.pending ne,
)

-- In any state that a new session reaches, a result frame for a pending command puts the frame's
-- outcome into that command's channel and closes it, takes the command off the pending table, and
-- leaves every other entry of the table.
pub resolve_delivers :
    (node_id session_id : Text) (declared : List (Option (Text × Limit))) (y : System)
    (echo : List ℕ → Option Text) (now : ℕ) (r : Result) (p : Pending)
    → Reach (start node_id session_id declared) y
    → is_empty (trim_space r.command_id) ≡ false
    → get (trim_space r.command_id) y.session.pending ≡ some p
    → (get_elem? (resolve_pending echo now y.session r).channels p.channel
        ≡ some (delivered (outcome_of echo now r)))
      × (get (trim_space r.command_id) (resolve_pending echo now y.session r).pending ≡ none)
      × ((j : Text)
          → j ≢ trim_space r.command_id
          → get j (resolve_pending echo now y.session r).pending ≡ get j y.session.pending)
unfolding resolve_pending
resolve_delivers node_id session_id declared y echo now r p reach named found =
    let v = Reach-Open (new_session-Open node_id session_id declared) reach in
    rw named (
      settle_found_outcome (trim_space r.command_id) (outcome_of echo now r) y.session p _ found
        (Open-of_found y.session (trim_space r.command_id) p v found))

abbrev pub closing : Error → Outcome
closing e = record { payload = []; message = []; err = some e; completed_at = 0 }

close_open_outcome :
    (e : Error) (s : Session) (id : Text) (p : Pending)
    → get id s.pending ≡ some p
    → get_elem? s.channels p.channel ≡ some open_channel
    → (get_elem? (close_open e none s).channels p.channel ≡ some (delivered (closing e)))
      × ((close_open e none s).pending ≡ [])
      × ((close_open e none s).closed ≡ some e)
unfolding close_open
close_open_outcome e s id p found h =
    let rest =
      settle_all_rest s.pending (some (closing e)) (record s { closed = some e; pending = [] }) in
    (
      settle_all_open s.pending id p (closing e) (record s { closed = some e; pending = [] }) found
          h,
      rest.0,
      rest.1,
    )

register_closed :
    (s : Session) (id n : Text) (e : Error)
    → s.closed ≡ some e
    → is_empty (trim_space id) ≡ false
    → register_pending s id n ≡ (s, some e)
unfolding register_pending register_open
register_closed s id n e h named = rw (named, h) refl

-- In any state that a new session reaches and in which it is not closed, closing it puts an outcome
-- with the closing error into the channel of every pending command and closes the channel, empties
-- the pending table, and from then on refuses to register a command, with that error and no change.
pub close_delivers :
    (node_id session_id : Text) (declared : List (Option (Text × Limit))) (y : System)
    (err : Option Error) (id new_id capability : Text) (p : Pending)
    → Reach (start node_id session_id declared) y
    → y.session.closed ≡ none
    → get id y.session.pending ≡ some p
    → is_empty (trim_space new_id) ≡ false
    → (get_elem? (close y.session err).channels p.channel
        ≡ some (delivered (closing (or_default err))))
      × ((close y.session err).pending ≡ [])
      × (register_pending (close y.session err) new_id capability
          ≡ (close y.session err, some (or_default err)))
unfolding close
close_delivers node_id session_id declared y err id new_id capability p reach live found named =
    let v = Reach-Open (new_session-Open node_id session_id declared) reach in
    let parts =
      close_open_outcome (or_default err) y.session id p found
        (Open-of_found y.session id p v found) in
    rw live (
      parts.0,
      parts.1,
      register_closed (close_open (or_default err) none y.session) new_id capability
          (or_default err) parts.2 named,
    )
