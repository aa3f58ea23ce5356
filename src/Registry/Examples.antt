-- ===== src/Registry/Examples.antt =====
-- The store of workers of console/internal/registry on concrete tables.
use onlyboxes_mcp.Prelude.{
  ℕ, ◌+◌, ◌-◌, ◌*◌, ◌≡◌, ◌≢◌, refl, true, false, ◌||◌, not, none, some, List, [], ◌∷◌, arith, ltb,
  length, take, inl,
}
use onlyboxes_mcp.Prelude.Text.{text, text_discrete, trim_space, to_lower}
use onlyboxes_mcp.Prelude.Map.{get, put}
use onlyboxes_mcp.Session.{at_most}
use onlyboxes_mcp.Registry.Order.{order_by, text_leb}
use onlyboxes_mcp.Registry.Table.{
  Db, owner_label, type_label, insert_worker_capability, insert_worker_label,
  delete_worker_capabilities_by_node, delete_worker_labels_by_node, upsert_worker_node,
}
use onlyboxes_mcp.Registry.Selects.{get_worker_node_by_id, list_worker_labels_by_node, matching}
use onlyboxes_mcp.Registry.Lifecycle.{ProvisionedWorker}
use onlyboxes_mcp.Registry.Query.{
  WorkerView, all, online, offline, status_of, from_milli, list_filtered_views, page_of, panic,
}
use onlyboxes_mcp.Registry.Lookup.{
  is_online, stats_scoped, get_by_node_id, list_online_node_ids_by_capability, prune_offline,
}
use onlyboxes_mcp.Registry.Upserts.{Keeps, SameElsewhere, upsert-Keeps}
use onlyboxes_mcp.Registry.Sessions.{Refused, upsert-Refused}
use onlyboxes_mcp.Registry.Listing.{occurrences}
use onlyboxes_mcp.Registry.Online.{Listed, upsert-Listed, status_of-listed}
use onlyboxes_mcp.Registry.Pages.{pages, pages_lem}
use onlyboxes_mcp.Registry.Stats.{stats_scoped_lem}
use onlyboxes_mcp.Registry.Views.{find_view, get_by_node_id-listed}
use onlyboxes_mcp.Registry.Foreign.{WellFormed}
use onlyboxes_mcp.Registry.Calls.{Call, upserts, seeds, deletes, calls, empty_db, calls-WellFormed}
use onlyboxes_mcp.Registry.Pruning.{Dropped, is_gone, prune_offline-Dropped}
use onlyboxes_mcp.Registry.{
  Faults, Hello, upsert, unix_milli, normalize_capability_name, merge_labels_preserve_keys,
}

abbrev no_faults : Faults
no_faults n = false

abbrev alice : ProvisionedWorker
alice = record {
  node_id = text "n1";
  labels = (owner_label, text "alice") ∷ (type_label, text "normal") ∷ [];
}

-- One worker that was provisioned, seen two seconds ago, before it connects.
abbrev db : Db
db = record {
  nodes =
      (
        text "n1",
        record {
          session_id = [];
          provisioned = true;
          node_name = text "worker-n1";
          executor_kind = [];
          version = [];
          registered_at = 3000;
          last_seen_at = 1000;
        },
      )
      ∷ [];
  capabilities = [];
  labels = (text "n1", (owner_label, text "alice") ∷ (type_label, text "normal") ∷ []) ∷ [];
  credentials = [];
  claims = [];
}

-- It would rather be someone else's.
abbrev hello : Hello
hello = record {
  node_id = text " n1";
  node_name = text "box";
  executor_kind = text "docker";
  version = text "1";
  labels = (owner_label, text "mallory") ∷ [];
  capabilities = some (text "pythonExec ", at_most 2) ∷ none ∷ [];
}

abbrev now : ℕ
now = 4000000000

upsert-Keeps_example :
    Keeps
      (trim_space (text " n1"))
      owner_label
      (text "alice")
      (upsert no_faults hello (text "s1") now db).0
    × SameElsewhere (trim_space (text " n1")) db (upsert no_faults hello (text "s1") now db).0
unfolding trim_space get text_discrete
upsert-Keeps_example =
    upsert-Keeps no_faults hello (text "s1") now db owner_label (text "alice") (refl, (refl, tt))
      (refl, tt) (inl refl) (refl, refl)

-- The worker, connected.
abbrev connected : Db
connected = record db {
  nodes =
      (
        text "n1",
        record {
          session_id = text "s1";
          provisioned = true;
          node_name = text "box";
          executor_kind = text "docker";
          version = text "1";
          registered_at = 4000;
          last_seen_at = 4000;
        },
      )
      ∷ [];
  capabilities = (text "n1", (text "pythonExec", at_most 2) ∷ []) ∷ [];
}

taken : (upsert no_faults hello (text "s1") now db).1 ≡ none
unfolding upsert trim_space get text_discrete get_worker_node_by_id insert_worker_capability
    delete_worker_capabilities_by_node upsert_worker_node put merge_labels_preserve_keys
    list_worker_labels_by_node order_by text_leb insert_worker_label delete_worker_labels_by_node
taken = refl

another : trim_space (text "s1") ≢ trim_space (text "s")
unfolding trim_space
another e = cc

upsert-Refused_example :
    Refused no_faults
      (text " n1")
      (text "s")
      (now + 1)
      (upsert no_faults hello (text "s1") now db).0
upsert-Refused_example =
    upsert-Refused no_faults no_faults hello (text "s1") (text "s") now (now + 1) db taken another
      refl refl

upsert-Listed_example :
    Listed hello no_faults
      (text "PythonExec")
      (now + 1000000000)
      15000000000
      db
      (upsert no_faults hello (text "s1") now db).0
unfolding trim_space get normalize_capability_name to_lower
upsert-Listed_example =
    upsert-Listed no_faults hello (text "s1") now db no_faults (text "PythonExec")
      (now + 1000000000) 15000000000 taken refl refl (omega arith) (refl, tt)

status_of-listed_example :
    ((not (is_online (status_of (from_milli 4000) now 15000000000))
        || ltb 0 (
            occurrences (text "n1") (
              list_online_node_ids_by_capability no_faults
                (text "pythonExec")
                now
                15000000000
                connected)))
      ≡ true)
    × ((not (
            ltb 0 (
              occurrences (text "n1") (
                list_online_node_ids_by_capability no_faults
                  (text "pythonExec")
                  now
                  15000000000
                  connected)))
          || is_online (status_of (from_milli 4000) now (15000000000 + 999999)))
        ≡ true)
unfolding trim_space get normalize_capability_name to_lower matching text_discrete
status_of-listed_example =
    status_of-listed no_faults (text "pythonExec") (text "n1") now 15000000000 connected
      (record {
        session_id = text "s1";
        provisioned = true;
        node_name = text "box";
        executor_kind = text "docker";
        version = text "1";
        registered_at = 4000;
        last_seen_at = 4000;
      })
      refl refl (refl, tt) refl refl refl

abbrev views : List WorkerView
views = list_filtered_views no_faults all now 15000000000 [] [] connected

pages_lem_example : pages 2 1 views ≡ take (2 * 1) views
pages_lem_example = pages_lem 2 1 views (omega arith) (omega arith)

-- The product of page and size wraps to a negative start.
huge_page : page_of 9223372036854775807 20 views ≡ panic
unfolding page_of
huge_page = refl

stats_scoped_lem_example :
    ((stats_scoped no_faults now 15000000000 60000000000 (text "alice") [] connected).total
      ≡ length (list_filtered_views no_faults all now 15000000000 (text "alice") [] connected))
    × ((stats_scoped no_faults now 15000000000 60000000000 (text "alice") [] connected).online
        ≡ length (list_filtered_views no_faults online now 15000000000 (text "alice") [] connected))
    × ((stats_scoped no_faults now 15000000000 60000000000 (text "alice") [] connected).offline
        ≡ length
            (list_filtered_views no_faults offline now 15000000000 (text "alice") [] connected))
    × ((stats_scoped no_faults now 15000000000 60000000000 (text "alice") [] connected).total
        ≡ (stats_scoped no_faults now 15000000000 60000000000 (text "alice") [] connected).online
          + (stats_scoped no_faults now 15000000000 60000000000
              (text "alice")
              []
              connected).offline)
stats_scoped_lem_example =
    stats_scoped_lem no_faults now 15000000000 60000000000 (text "alice") [] connected

get_by_node_id-listed_example :
    get_by_node_id no_faults (text "n1 ") now 15000000000 connected
    ≡ find_view
        (trim_space (text "n1 "))
        (list_filtered_views no_faults all now 15000000000 [] [] connected)
unfolding trim_space get
get_by_node_id-listed_example =
    get_by_node_id-listed no_faults (text "n1 ") now 15000000000 connected refl refl
      ((refl, tt), (refl, tt), (refl, tt))

abbrev some_calls : List (Faults × Call)
some_calls =
    (no_faults, seeds (alice ∷ []) now 15000000000)
    ∷ (no_faults, upserts hello (text "s1") now)
    ∷ (no_faults, deletes (text "n1"))
    ∷ []

calls-WellFormed_example : WellFormed (calls some_calls empty_db)
calls-WellFormed_example = calls-WellFormed some_calls

-- A worker that was not provisioned, and was seen long ago.
abbrev stale : Db
stale = record connected {
  nodes =
      (
        text "n1",
        record {
          session_id = [];
          provisioned = false;
          node_name = text "box";
          executor_kind = [];
          version = [];
          registered_at = 1;
          last_seen_at = 1;
        },
      )
      ∷ [];
}

prune_offline-Dropped_example :
    Dropped
      (is_gone (unix_milli (now - 1000000000)) (get (text "n1") stale.nodes))
      (text "n1")
      stale
      (prune_offline no_faults now 1000000000 stale).0
unfolding get
prune_offline-Dropped_example =
    prune_offline-Dropped no_faults now 1000000000 stale (text "n1") refl (refl, tt)
