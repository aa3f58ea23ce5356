-- ===== src/Session/Delivery.antt =====
-- The result channels of session_runtime.go: a pending command's channel is open and its own, so
-- that what resolves the command, or the closing session, reaches the dispatch that waits for it.
use onlyboxes_mcp.Prelude.{
  ℕ, ◌<◌, ◌≡◌, ◌≢◌, refl, sym, subst, ◌∙◌, Option, none, some, List, [], ◌∷◌, ◌++◌, arith, is_empty,
  Bool-cases, inl, inr, if_pos, if_neg, length,
}
use onlyboxes_mcp.Prelude.Text.{Text, text_discrete, trim_space}
use onlyboxes_mcp.Prelude.Map.{Map, get, delete, get-put, get-delete, get-delete_ne}
use onlyboxes_mcp.Errors.{Error}
use onlyboxes_mcp.Naming.{normalize_capability}
use onlyboxes_mcp.Session.Channels.{
  Outcome, Channel, open_channel, get_elem?, close_result, get_elem?-close_result_ne,
  get_elem?-append, get_elem?-append_last, lt_of_get_elem?,
}
use onlyboxes_mcp.Session.{
  Session, Pending, Result, register_pending, register_open, unregister_pending, resolve_pending,
  settle_found, settle,
}

abbrev pub IsOpen : List Channel → Option Pending → Type 0
IsOpen cs none = Unit {0}
IsOpen cs (some p) = get_elem? cs p.channel ≡ some open_channel

pub record Open (s : Session) : Type 0 where
  pub opened : (id : Text) → IsOpen s.channels (get id s.pending)
  pub apart :
      (id j : Text) (p q : Pending)
      → get id s.pending ≡ some p
      → get j s.pending ≡ some q
      → p.channel ≡ q.channel
      → id ≡ j

-- A session with the same pending table and channels.
pub Open-of_same :
    (s t : Session) → t.pending ≡ s.pending → t.channels ≡ s.channels → Open s → Open t
Open-of_same s t e f v = record {
  opened = λ id. rw (e, f) (v.opened id);
  apart = λ id j p q hp hq. v.apart id j p q (rw (← e) hp) (rw (← e) hq);
}

still-Open :
    (id j : Text) (p : Pending) (o : Option Outcome) (s : Session) (r : Option Pending)
    → get id s.pending ≡ some p
    → get j s.pending ≡ r
    → j ≢ id
    → Open s
    → IsOpen (close_result p.channel o s.channels) r
still-Open id j p o s none e f h v = tt
still-Open id j p o s (some q) e f h v =
    get_elem?-close_result_ne p.channel q.channel o s.channels
      (λ x. h (sym (v.apart id j p q e f x)))
    ∙ subst (IsOpen s.channels) f (v.opened j)

opened_after :
    (id j : Text) (p : Pending) (o : Option Outcome) (s : Session)
    → get id s.pending ≡ some p
    → Open s
    → IsOpen (close_result p.channel o s.channels) (get j (delete id s.pending))
opened_after id j p o s e v = elim (text_discrete j id) [
  | yes h ↦ rw (get-delete id j s.pending) (rw (if_pos _ h) tt)
  | no h ↦ rw (get-delete_ne id j s.pending h) (still-Open id j p o s _ e refl h v)
]

found_before :
    (id j : Text) (p : Pending) (m : Map Pending) → get j (delete id m) ≡ some p → get j m ≡ some p
found_before id j p m h = ground (arith, h, get-delete id j m)

-- An entry is taken off the table, and a channel that no entry has is closed.
pub take_off-Open :
    (id : Text) (s : Session) → Open s → Open (record s { pending = delete id s.pending })
take_off-Open id s v = record {
  opened = λ j. elim (text_discrete j id) [
    | yes h ↦ rw (get-delete id j s.pending) (rw (if_pos _ h) tt)
    | no h ↦ rw (get-delete_ne id j s.pending h) (v.opened j)
  ];
  apart = λ i j a b ha hb.
      v.apart i j a b (found_before id i a s.pending ha) (found_before id j b s.pending hb);
}

other-IsOpen :
    (k : ℕ) (o : Option Outcome) (cs : List Channel) (r : Option Pending)
    → ((q : Pending) → r ≡ some q → q.channel ≢ k)
    → IsOpen cs r
    → IsOpen (close_result k o cs) r
other-IsOpen k o cs none h v = tt
other-IsOpen k o cs (some q) h v =
    get_elem?-close_result_ne k q.channel o cs (λ x. h q refl (sym x)) ∙ v

pub close_channel-Open :
    (k : ℕ) (o : Option Outcome) (s : Session)
    → ((j : Text) (q : Pending) → get j s.pending ≡ some q → q.channel ≢ k)
    → Open s
    → Open (record s { channels = close_result k o s.channels })
close_channel-Open k o s h v = record {
  opened = λ j. other-IsOpen k o s.channels (get j s.pending) (h j) (v.opened j);
  apart = v.apart;
}

settle_found-Open :
    (id : Text) (o : Option Outcome) (s : Session) (q : Option Pending)
    → get id s.pending ≡ q
    → Open s
    → Open (settle_found id o s q)
unfolding settle_found settle
settle_found-Open id o s none e v = v
settle_found-Open id o s (some p) e v = record {
  opened = λ j. opened_after id j p o s e v;
  apart = λ i j a b ha hb.
      v.apart i j a b (found_before id i a s.pending ha) (found_before id j b s.pending hb);
}

pub unregister-Open : (s : Session) (id : Text) → Open s → Open (unregister_pending s id)
unfolding unregister_pending
unregister-Open s id v = elim (Bool-cases (is_empty (trim_space id))) [
  | inl e ↦ rw e v
  | inr e ↦ rw e (settle_found-Open (trim_space id) none s _ refl v)
]

pub resolve-Open :
    (echo : List ℕ → Option Text) (now : ℕ) (s : Session) (r : Result)
    → Open s
    → Open (resolve_pending echo now s r)
unfolding resolve_pending
resolve-Open echo now s r v = elim (Bool-cases (is_empty (trim_space r.command_id))) [
  | inl e ↦ rw e v
  | inr e ↦ rw e (settle_found-Open (trim_space r.command_id) _ s _ refl v)
]

place_below :
    (s : Session) (j : Text) (q : Pending)
    → Open s
    → get j s.pending ≡ some q
    → q.channel < length s.channels
place_below s j q v h =
    lt_of_get_elem? s.channels q.channel (subst (IsOpen s.channels) h (v.opened j))

old-Open :
    (s : Session) (j : Text) (r : Option Pending)
    → get j s.pending ≡ r
    → Open s
    → IsOpen (s.channels ++ open_channel ∷ []) r
old-Open s j none h v = tt
old-Open s j (some q) h v =
    get_elem?-append s.channels q.channel open_channel (place_below s j q v h)
    ∙ subst (IsOpen s.channels) h (v.opened j)

register_open-Open :
    (s : Session) (id n : Text) (closed : Option Error)
    → get id s.pending ≡ none
    → Open s
    → Open (register_open s id n closed).0
unfolding register_open
register_open-Open s id n (some e) f v = v
register_open-Open s id n none f v =
    let p : Pending = record { channel = length s.channels; capability = normalize_capability n } in
    record {
      opened = λ j. elim (text_discrete j id) [
        | yes h ↦
            rw (get-put id j p s.pending)
              (rw (if_pos _ h) (get_elem?-append_last s.channels open_channel))
        | no h ↦ rw (get-put id j p s.pending) (rw (if_neg _ h) (old-Open s j _ refl v))
      ];
      apart = λ i j a b ha hb same. ground (
        arith,
        ha,
        hb,
        same,
        get-put id i p s.pending,
        get-put id j p s.pending,
        v.apart i j a b,
        place_below s i a v,
        place_below s j b v,
      );
    }

pub register-Open :
    (s : Session) (id n : Text)
    → get (trim_space id) s.pending ≡ none
    → Open s
    → Open (register_pending s id n).0
unfolding register_pending
register-Open s id n f v = elim (Bool-cases (is_empty (trim_space id))) [
  | inl e ↦ rw e v
  | inr e ↦ rw e (register_open-Open s (trim_space id) n s.closed f v)
]
