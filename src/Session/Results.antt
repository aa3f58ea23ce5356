-- ===== src/Session/Results.antt =====
-- How outcomes reach the waiting dispatches in session_runtime.go.
use onlyboxes_mcp.Prelude.{
  ℕ, ◌≡◌, refl, ◌∙◌, ap, true, Option, none, some, List, [], ◌∷◌, arith, is_empty, Bool-cases, inl,
  inr, ℕ_discrete,
}
use onlyboxes_mcp.Prelude.Text.{Text}
use onlyboxes_mcp.Prelude.Map.{Map, get-nil, get-cons, get}
use onlyboxes_mcp.Errors.{Error}
use onlyboxes_mcp.Naming.{normalize_capability}
use onlyboxes_mcp.Session.Channels.{
  Outcome, Channel, open_channel, get_elem?, close_result, map_channel, get_elem?-close_result_self,
  get_elem?-close_result_ne,
}
use onlyboxes_mcp.Session.Lifecycle.{close, close_open, or_default}
use onlyboxes_mcp.Session.Slots.{try_acquire_rest}
use onlyboxes_mcp.Session.Closing.{settle_all_rest}
use onlyboxes_mcp.Session.Delivery.{
  take_off-Open, close_channel-Open, Open, Open-of_same, register-Open, resolve-Open,
  unregister-Open,
}
use onlyboxes_mcp.Session.Steps.{
  System, Step, Reach, acquire, give_back, register, unregister, resolve, take_off, shut_channel,
  inspect, close_session, here, next,
}
use onlyboxes_mcp.Session.{
  Session, Capability, Pending, release, settle, settle_all, new_session, inflight_snapshot,
  snapshot_found, Limit,
}

abbrev pub delivered : Outcome → Channel
delivered x = record { buffer = some x; is_closed = true }

delivered_stays :
    (i j : ℕ) (x : Outcome) (cs : List Channel)
    → get_elem? cs i ≡ some (delivered x)
    → get_elem? (close_result j (some x) cs) i ≡ some (delivered x)
delivered_stays i j x cs h = elim (ℕ_discrete j i) [
  | yes e ↦ rw (e) (get_elem?-close_result_self i (some x) cs ∙ ap (map_channel (some x)) h)
  | no ne ↦ get_elem?-close_result_ne j i (some x) cs ne ∙ h
]

settle_all-delivered :
    (es : Map Pending) (i : ℕ) (x : Outcome) (s : Session)
    → get_elem? s.channels i ≡ some (delivered x)
    → get_elem? (settle_all es (some x) s).channels i ≡ some (delivered x)
unfolding settle_all settle
settle_all-delivered [] i x s h = h
settle_all-delivered ((id, p) ∷ rest) i x s h =
    settle_all-delivered rest i x (settle p (some x) s) (delivered_stays i p.channel x s.channels h)

pub open_delivered :
    (i : ℕ) (x : Outcome) (cs : List Channel)
    → get_elem? cs i ≡ some open_channel
    → get_elem? (close_result i (some x) cs) i ≡ some (delivered x)
open_delivered i x cs h = get_elem?-close_result_self i (some x) cs ∙ ap (map_channel (some x)) h

pub settle_all_open :
    (es : Map Pending) (id : Text) (p : Pending) (x : Outcome) (s : Session)
    → get id es ≡ some p
    → get_elem? s.channels p.channel ≡ some open_channel
    → get_elem? (settle_all es (some x) s).channels p.channel ≡ some (delivered x)
unfolding settle_all settle
settle_all_open [] id p x s e h = absurd (ground (arith, e, get-nil {V = Pending} id))
settle_all_open ((j, q) ∷ rest) id p x s e h = elim (ℕ_discrete q.channel p.channel) [
  | yes same ↦
      settle_all-delivered rest p.channel x (settle q (some x) s)
        (rw (same) (open_delivered p.channel x s.channels h))
  | no ne ↦
      settle_all_open rest id p x (settle q (some x) s)
        (ground (arith, e, ne, get-cons id j q rest))
        (get_elem?-close_result_ne q.channel p.channel (some x) s.channels ne ∙ h)
]

snapshot_found_rest :
    (n : Text) (s : Session) (o : Option Capability)
    → ((snapshot_found n s o).0.pending ≡ s.pending)
      × ((snapshot_found n s o).0.channels ≡ s.channels)
snapshot_found_rest n s none = (refl, refl)
snapshot_found_rest n s (some c) = (refl, refl)

inspect-Open : (s : Session) (c : Text) → Open s → Open (inflight_snapshot s c).0
unfolding inflight_snapshot
inspect-Open s c v = elim (Bool-cases (is_empty (normalize_capability c))) [
  | inl e ↦ rw e v
  | inr e ↦
      let r =
        snapshot_found_rest (normalize_capability c) s
          (get (normalize_capability c) s.capabilities) in
      rw e (Open-of_same s _ r.0 r.1 v)
]

close_open-Open : (s : Session) (e : Error) (q : Option Error) → Open s → Open (close_open e q s)
unfolding close_open
close_open-Open s e (some x) v = v
close_open-Open s e none v =
    let gone =
      (settle_all_rest s.pending
        (some (record { payload = []; message = []; err = some e; completed_at = 0 }))
        (record s { closed = some e; pending = [] })).0 in
    record {
      opened = λ id. rw (gone) (rw (get-nil {V = Pending} id) tt);
      apart =
          λ id j p q hp hq same. absurd (ground (arith, rw gone at hp, get-nil {V = Pending} id));
    }

Step-Open : {y z : System} → Step y z → Open y.session → Open z.session
unfolding close release
Step-Open {y} (acquire c) v =
    let r = try_acquire_rest y.session c in Open-of_same y.session _ r.0 r.1 v
Step-Open {y} (give_back n h) v = Open-of_same y.session _ refl refl v
Step-Open {y} (register id n h f ok) v = register-Open y.session id n f v
Step-Open {y} (unregister id) v = unregister-Open y.session id v
Step-Open {y} (resolve echo now r) v = resolve-Open echo now y.session r v
Step-Open {y} (take_off id p e) v = take_off-Open id y.session v
Step-Open {y} (shut_channel k o h) v = close_channel-Open k o y.session h v
Step-Open {y} (inspect c) v = inspect-Open y.session c v
Step-Open {y} (close_session e) v = close_open-Open y.session (or_default e) y.session.closed v

pub Reach-Open : {y z : System} → Open y.session → Reach y z → Open z.session
Reach-Open v here = v
Reach-Open v (next r st) = Step-Open st (Reach-Open v r)

pub new_session-Open :
    (node_id session_id : Text) (declared : List (Option (Text × Limit)))
    → Open (new_session node_id session_id declared)
unfolding new_session
new_session-Open node_id session_id declared = record {
  opened = λ id. rw (get-nil {V = Pending} id) tt;
  apart = λ id j p q hp hq same. absurd (ground (arith, hp, get-nil {V = Pending} id));
}
