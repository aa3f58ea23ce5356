-- ===== src/Registry/Sessions.antt =====
-- The sessions of nodes in console/internal/registry/store_worker_lifecycle.go: heartbeats, and the end
-- of a connection.
use onlyboxes_mcp.Prelude.{
  ℕ, ◌≡◌, ◌≢◌, refl, ap, ◌∙◌, ite, Bool, true, false, Option, none, some, [], arith, if◌then◌else◌,
  inl, inr, Bool-cases, Option-cases, if_neg,
}
use onlyboxes_mcp.Prelude.Text.{Text, text_discrete, trim_space}
use onlyboxes_mcp.Prelude.Map.{get, put, get-put, get-put_self}
use onlyboxes_mcp.Registry.Table.{
  Node, Db, update_node, update_node_found, of_session, set_last_seen, set_session,
  update_worker_heartbeat_by_session, clear_worker_session_by_node_and_session,
}
use onlyboxes_mcp.Registry.Selects.{get_worker_node_by_id}
use onlyboxes_mcp.Registry.Lifecycle.{
  Touched, touched, node_not_found, session_mismatch, touch_with_session, touch_result,
  clear_session,
}
use onlyboxes_mcp.Registry.Rows.{node_after, changed}
use onlyboxes_mcp.Registry.Upserts.{upsert-Cases, upserted}
use onlyboxes_mcp.Registry.{Faults, Hello, upsert, unix_milli, node_for}

-- What an update of a row that is not there, or does not fit, leaves.
pub update_node-same :
    (fits : Node → Bool) (f : Node → Node) (id : Text) (db : Db)
    → changed fits (get id db.nodes) ≡ 0
    → update_node fits f id db ≡ (db, 0)
unfolding update_node update_node_found
update_node-same fits f id db h = elim (Option-cases (get id db.nodes)) [
  | inl e ↦ rw e refl
  | inr e ↦ rw (e.1) (elim (Bool-cases (fits e.0)) [ inl g ↦ cc (h, e.1, g) | inr g ↦ rw g refl ])
]

pub update_node-fits :
    (fits : Node → Bool) (f : Node → Node) (id : Text) (db : Db) (n : Node)
    → get id db.nodes ≡ some n
    → fits n ≡ true
    → update_node fits f id db ≡ (record db { nodes = put id (f n) db.nodes }, 1)
unfolding update_node update_node_found
update_node-fits fits f id db n e h = rw e (rw h refl)

-- The answer of TouchWithSession by the row of the node.
abbrev pub answer : Text → Option Node → Touched
answer session none = node_not_found
answer session (some n) = if of_session session n then touched else session_mismatch

-- The row that a heartbeat leaves.
abbrev pub seen : ℕ → Text → Option Node → Option Node
seen now session = node_after (of_session session) (set_last_seen (unix_milli now))

abbrev pub TouchedAs : Text → Text → ℕ → Db → Db × Touched → Type 0
TouchedAs id session now db r =
    (r.1 ≡ answer session (get id db.nodes))
    × ((j : Text)
        → get j r.0.nodes
          ≡ ite (text_discrete j id) (seen now session (get id db.nodes)) (get j db.nodes))
    × (r.0.capabilities ≡ db.capabilities)
    × (r.0.labels ≡ db.labels)

abbrev beat : Bool → Text → Text → ℕ → Db → Db × Touched
beat fails id session now db =
    touch_result fails id session
      (update_node (of_session session) (set_last_seen (unix_milli now)) id db)

touched_as :
    (fails : Bool) (id session : Text) (now : ℕ) (db : Db)
    → fails ≡ false
    → (o : Option Node) → get id db.nodes ≡ o
    → TouchedAs id session now db (beat fails id session now db)
unfolding get_worker_node_by_id
touched_as fails id session now db g none e =
    rw (update_node-same (of_session session) (set_last_seen (unix_milli now)) id db (rw e refl))
      (rw g (rw e (refl, λ j. ground arith, refl, refl)))
touched_as fails id session now db g (some n) e = elim (Bool-cases (of_session session n)) [
  | inl h ↦
      rw (update_node-fits (of_session session) (set_last_seen (unix_milli now)) id db n e h) (
        rw e
          (rw h (refl, λ j. get-put id j (set_last_seen (unix_milli now) n) db.nodes, refl, refl)))
  | inr h ↦
      rw
        (update_node-same (of_session session) (set_last_seen (unix_milli now)) id db
          (rw e (rw h refl)))
        (rw g (rw e (rw h (ground (arith, h), λ j. ground arith, refl, refl))))
]

-- A heartbeat sets the time of its node exactly when the node has the session that it names, and
-- answers so; it says where there is no node, and where the node has another session, and then it
-- changes nothing, as it changes nothing but the one time in any case. The two database calls of
-- TouchWithSession do not fail.
pub touch_with_session_lem :
    (fails : Faults) (id session : Text) (now : ℕ) (db : Db)
    → fails 0 ≡ false
    → fails 1 ≡ false
    → TouchedAs
        (trim_space id)
        (trim_space session)
        now
        db
        (touch_with_session fails id session now db)
unfolding touch_with_session update_worker_heartbeat_by_session get_worker_node_by_id
touch_with_session_lem fails id session now db f g = rw f (
    touched_as (fails 1) (trim_space id) (trim_space session) now db g
      (get (trim_space id) db.nodes) refl)

-- The node has another session than the one that a connection speaks of.
abbrev pub HasOther : Text → Text → Db → Type 0
HasOther id old db = (n : Node) × (get id db.nodes ≡ some n) × (n.session_id ≢ old)

not_of : (old : Text) (n : Node) → n.session_id ≢ old → of_session old n ≡ false
not_of old n h = rw (if_neg (text_discrete n.session_id old) h) refl

other-same :
    (f : Node → Node) (id old : Text) (db : Db)
    → HasOther id old db
    → update_node (of_session old) f id db ≡ (db, 0)
other-same f id old db (n, e, h) =
    update_node-same (of_session old) f id db (rw e (rw (not_of old n h) refl))

-- Neither a heartbeat nor the end of the old connection does anything.
abbrev pub Refused : Faults → Text → Text → ℕ → Db → Type 0
Refused fails id old now db =
    (touch_with_session fails id old now db ≡ (db, session_mismatch))
    × (clear_session fails id old db ≡ (db, false))

heartbeat-same :
    (now : ℕ) (id old : Text) (db : Db)
    → HasOther id old db
    → update_worker_heartbeat_by_session now id old db ≡ (db, 0)
unfolding update_worker_heartbeat_by_session
heartbeat-same now id old db = other-same (set_last_seen now) id old db

clear-same :
    (id old : Text) (db : Db)
    → HasOther id old db
    → clear_worker_session_by_node_and_session id old db ≡ (db, 0)
unfolding clear_worker_session_by_node_and_session
clear-same id old db = other-same (set_session []) id old db

abbrev first_of : Db × ℕ → Db × Bool
first_of (db, n) = (db, false)

other-Refused :
    (fails : Faults) (id old : Text) (now : ℕ) (db : Db)
    → fails 0 ≡ false
    → fails 1 ≡ false
    → HasOther (trim_space id) (trim_space old) db
    → Refused fails id old now db
unfolding touch_with_session get_worker_node_by_id clear_session
other-Refused fails id old now db f g (n, e, h) = rw f (
  ap (touch_result (fails 1) (trim_space id) (trim_space old))
        (heartbeat-same (unix_milli now) (trim_space id) (trim_space old) db (n, e, h))
      ∙ rw g (rw e (rw (if_neg (text_discrete n.session_id (trim_space old)) h) refl)),
  ap first_of (clear-same (trim_space id) (trim_space old) db (n, e, h)),
)

-- Once a node has connected anew, the old connection's heartbeats are refused as of another session
-- and its end clears nothing: neither changes any table, at any time. Upsert gave no error for the new
-- session, which is another one than the old, and the later database calls do not fail.
pub upsert-Refused :
    (fails later : Faults) (req : Hello) (session old : Text) (now after : ℕ) (db : Db)
    → (upsert fails req session now db).1 ≡ none
    → trim_space session ≢ trim_space old
    → later 0 ≡ false
    → later 1 ≡ false
    → Refused later req.node_id old after (upsert fails req session now db).0
upsert-Refused fails later req session old now after db ok ne f g =
    elim (upsert-Cases fails req session now db) [
      | inl c ↦ ground (arith, ok, c.1)
      | inr c ↦ rw c (
          other-Refused later req.node_id old after
            (upserted req (trim_space req.node_id) (trim_space session) now db) f g
            (
              node_for req (trim_space session) now (get (trim_space req.node_id) db.nodes),
              get-put_self (trim_space req.node_id) _ db.nodes,
              ne,
            ))
    ]
