-- ===== src/Registry/Online.antt =====
-- Who is online, in console/internal/registry: the hello of a worker puts it on the lists of its
-- capabilities, and the lists agree with the status that a worker is shown with.
use onlyboxes_mcp.Prelude.{
  leb-true, leb-le, ℕ, ◌+◌, ◌-◌, ◌≤◌, ◌≡◌, ◌≢◌, refl, ap, sym, ◌∙◌, Bool, true, false, ◌&&◌, ◌||◌,
  not, ◌∷◌, ite, Option, none, some, [], arith, ltb, leb, is_empty, inl, inr, Bool-cases, if_pos,
}
use onlyboxes_mcp.Prelude.Text.{Text, text_discrete, trim_space}
use onlyboxes_mcp.Prelude.Map.{get, delete, get-put_self, Distinct, put-Distinct}
use onlyboxes_mcp.Registry.Table.{Node, Db, rows_of}
use onlyboxes_mcp.Registry.Selects.{sql_lower, matching, joined_capability}
use onlyboxes_mcp.Registry.Query.{WorkerStatus, online, status_of, from_milli}
use onlyboxes_mcp.Registry.Lookup.{is_online, list_online_node_ids_by_capability}
use onlyboxes_mcp.Registry.Rows.{put_all, rows_of-add_rows, rows_of-delete}
use onlyboxes_mcp.Registry.Upserts.{
  upsert-Cases, upserted, upsert-session, upserted-SameElsewhere, SameElsewhere,
}
use onlyboxes_mcp.Registry.Listing.{
  occurrences, joined_at, times, online-occurrences, any_names, matching-put_all_nil,
}
use onlyboxes_mcp.Registry.{
  Faults, Declared, Hello, upsert, unix_milli, node_for, normalize_capability_name,
  clone_proto_capabilities,
}

-- The list for a capability that is not blank, when the query does not fail.
list_occurrences :
    (fails : Faults) (capability id : Text) (now ttl : ℕ) (db : Db)
    → fails 0 ≡ false
    → is_empty (normalize_capability_name capability) ≡ false
    → Distinct db.nodes
    → occurrences id (list_online_node_ids_by_capability fails capability now ttl db)
      ≡ times (normalize_capability_name capability) (unix_milli (now - ttl)) db id
unfolding list_online_node_ids_by_capability
list_occurrences fails capability id now ttl db f e d = rw e (
    rw f
      (online-occurrences (normalize_capability_name capability) id (unix_milli (now - ttl)) db d))

same_rows :
    (name j : Text) (cutoff : ℕ) (before after : Db) (o : Option Node)
    → rows_of j after.capabilities ≡ rows_of j before.capabilities
    → joined_at (joined_capability name cutoff after) j o
      ≡ joined_at (joined_capability name cutoff before) j o
same_rows name j cutoff before after none h = refl
same_rows name j cutoff before after (some n) h = rw h refl

times_elsewhere :
    (name id j : Text) (cutoff : ℕ) (before after : Db)
    → SameElsewhere id before after
    → j ≢ id
    → times name cutoff after j ≡ times name cutoff before j
times_elsewhere name id j cutoff before after s h =
    rw ((s j h).0) (same_rows name j cutoff before after (get j before.nodes) (s j h).2)

times-upserted :
    (name id session : Text) (cutoff now : ℕ) (req : Hello) (db : Db)
    → is_empty session ≡ false
    → cutoff ≤ unix_milli now
    → times name cutoff (upserted req id session now db) id
      ≡ matching name (put_all (clone_proto_capabilities req.capabilities) [])
times-upserted name id session cutoff now req db e h =
    rw (get-put_self id (node_for req session now (get id db.nodes)) db.nodes) (
      rw
        (
          leb-true cutoff (unix_milli now) h,
          e,
          rows_of-add_rows id id (clone_proto_capabilities req.capabilities)
              (delete id db.capabilities),
        )
        (rw (if_pos (text_discrete id id) refl) (
          rw (rows_of-delete id id db.capabilities) (rw (if_pos (text_discrete id id) refl) refl))))

-- A declaration of the hello names the capability, whose name is in lower case.
abbrev pub declares : Text → Declared → Bool
declares name [] = false
declares name (none ∷ rest) = declares name rest
declares name (some (n, max) ∷ rest) =
    (not (is_empty (trim_space n))
      && ite (text_discrete (sql_lower (trim_space n)) name) true false)
    || declares name rest

any_names-declares :
    (name : Text) (d : Declared) → any_names name (clone_proto_capabilities d) ≡ declares name d
unfolding clone_proto_capabilities
any_names-declares name [] = refl
any_names-declares name (none ∷ rest) = any_names-declares name rest
any_names-declares name (some (n, max) ∷ rest) = elim (Bool-cases (is_empty (trim_space n))) [
  | inl e ↦ rw e (any_names-declares name rest)
  | inr e ↦ rw e (rw (any_names-declares name rest) refl)
]

-- A hello with no error puts its node on the lists of online nodes.
abbrev pub Listed : Hello → Faults → Text → ℕ → ℕ → Db → Db → Type 0
Listed req fails capability later ttl before after =
    (ltb 0 (
        occurrences (trim_space req.node_id)
          (list_online_node_ids_by_capability fails capability later ttl after))
      ≡ declares (normalize_capability_name capability) req.capabilities)
    × ((j : Text)
        → j ≢ trim_space req.node_id
        → occurrences j (list_online_node_ids_by_capability fails capability later ttl after)
          ≡ occurrences j (list_online_node_ids_by_capability fails capability later ttl before))

upserted-Listed :
    (fails : Faults) (req : Hello) (session capability : Text) (now later ttl : ℕ) (db : Db)
    → is_empty session ≡ false
    → fails 0 ≡ false
    → is_empty (normalize_capability_name capability) ≡ false
    → later ≤ now + ttl
    → Distinct db.nodes
    → Listed req fails capability later ttl db
        (upserted req (trim_space req.node_id) session now db)
upserted-Listed fails req session capability now later ttl db e f c h d = (
  rw
      (
        list_occurrences fails capability id later ttl (upserted req id session now db) f c
            (put-Distinct id n db.nodes d),
        times-upserted name id session (unix_milli (later - ttl)) now req db e (omega (arith, h)),
        matching-put_all_nil name (clone_proto_capabilities req.capabilities),
        any_names-declares name req.capabilities,
      )
      refl,
  λ j k.
      list_occurrences fails capability j later ttl (upserted req id session now db) f c
        (put-Distinct id n db.nodes d)
      ∙ times_elsewhere name id j (unix_milli (later - ttl)) db (upserted req id session now db)
          (upserted-SameElsewhere req id session now db) k
      ∙ sym (list_occurrences fails capability j later ttl db f c d),
)
  where
    id : Text
    id = trim_space req.node_id

    name : Text
    name = normalize_capability_name capability

    n : Node
    n = node_for req session now (get (trim_space req.node_id) db.nodes)

-- After a hello that Upsert took without an error, and until the TTL has passed since, the node is on
-- the online list of a capability exactly when the hello declares a name that is not blank and is the
-- capability's, by LOWER of SQL and up to surrounding space; and every other node is on that list as it was before. The
-- capability is not blank, the keys of the nodes are distinct, and the query of the list does not fail.
pub upsert-Listed :
    (fails : Faults) (req : Hello) (session : Text) (now : ℕ) (db : Db) (later : Faults)
    (capability : Text) (t ttl : ℕ)
    → (upsert fails req session now db).1 ≡ none
    → later 0 ≡ false
    → is_empty (normalize_capability_name capability) ≡ false
    → t ≤ now + ttl
    → Distinct db.nodes
    → Listed req later capability t ttl db (upsert fails req session now db).0
upsert-Listed fails req session now db later capability t ttl ok f c h d =
    elim (upsert-Cases fails req session now db) [
      | inl r ↦ ground (arith, ok, r.1)
      | inr r ↦ rw r (
          upserted-Listed later req (trim_space session) capability now t ttl db
            (upsert-session fails req session now db ok) f c h d)
    ]

status_of-recent : (last now ttl : ℕ) → status_of last now ttl ≡ online → now - last ≤ ttl
unfolding status_of
status_of-recent last now ttl h = elim (Bool-cases (leb (now - last) ttl)) [
  | inl e ↦ leb-le (now - last) ttl e
  | inr e ↦ cc (h, e)
]

recent-status_of : (last now ttl : ℕ) → now - last ≤ ttl → status_of last now ttl ≡ online
unfolding status_of
recent-status_of last now ttl h = rw (leb-true (now - last) ttl h) refl

times_positive :
    (name id : Text) (cutoff : ℕ) (db : Db) (n : Node)
    → get id db.nodes ≡ some n
    → is_empty n.session_id ≡ false
    → ltb 0 (matching name (rows_of id db.capabilities)) ≡ true
    → ltb 0 (times name cutoff db id) ≡ leb cutoff n.last_seen_at
times_positive name id cutoff db n e s m =
    rw e
      (rw s (elim (Bool-cases (leb cutoff n.last_seen_at)) [ inl h ↦ rw h m | inr h ↦ rw h refl ]))

implied : (a b : Bool) → (a ≡ true → b ≡ true) → (not a || b) ≡ true
implied true b h = h refl
implied false b h = refl

shown_online : (s : WorkerStatus) → is_online s ≡ true → s ≡ online
shown_online WorkerStatus.online h = refl
shown_online WorkerStatus.all h = cc
shown_online WorkerStatus.offline h = cc

-- A connected worker that has the capability and is shown as online is on the capability's list of
-- online nodes; and one that is on the list is shown as online, at the latest when the TTL is longer
-- by what is less than a millisecond. The keys of the nodes are distinct, the capability is not blank,
-- and the query does not fail.
pub status_of-listed :
    (fails : Faults) (capability id : Text) (now ttl : ℕ) (db : Db) (n : Node)
    → fails 0 ≡ false
    → is_empty (normalize_capability_name capability) ≡ false
    → Distinct db.nodes
    → get id db.nodes ≡ some n
    → is_empty n.session_id ≡ false
    → ltb 0 (matching (normalize_capability_name capability) (rows_of id db.capabilities)) ≡ true
    → ((not (is_online (status_of (from_milli n.last_seen_at) now ttl))
          || ltb 0
              (occurrences id (list_online_node_ids_by_capability fails capability now ttl db)))
        ≡ true)
      × ((not (
              ltb 0
                (occurrences id (list_online_node_ids_by_capability fails capability now ttl db)))
            || is_online (status_of (from_milli n.last_seen_at) now (ttl + 999999)))
          ≡ true)
status_of-listed fails capability id now ttl db n f c d e s m =
    rw
      (
        list_occurrences fails capability id now ttl db f c d,
        times_positive (normalize_capability_name capability) id (unix_milli (now - ttl)) db n e s
            m,
      )
      (
        implied (is_online (status_of (from_milli n.last_seen_at) now ttl))
            (leb (unix_milli (now - ttl)) n.last_seen_at)
            λ h. leb-true (unix_milli (now - ttl)) n.last_seen_at (
              omega
                (arith, status_of-recent (from_milli n.last_seen_at) now ttl (shown_online _ h))),
        implied (leb (unix_milli (now - ttl)) n.last_seen_at)
            (is_online (status_of (from_milli n.last_seen_at) now (ttl + 999999)))
            λ h. ap is_online (
              recent-status_of (from_milli n.last_seen_at) now (ttl + 999999)
                (omega (arith, leb-le (unix_milli (now - ttl)) n.last_seen_at h))),
      )
