-- ===== src/Tasks/Owners.antt =====
-- GetTask, CancelTask and finishTask of console/internal/grpcserver/task.go: whom they answer, and
-- what they answer with.
use onlyboxes_mcp.Prelude.{
  ℕ, ◌+◌, ◌≡◌, ◌≢◌, refl, ap, ◌∙◌, ite, Bool, true, false, Option, none, some, List, [], arith,
  is_empty, inl, inr, Bool-cases, Option-cases, if◌then◌else◌, if_pos, if_neg, sym,
}
use onlyboxes_mcp.Prelude.Text.{Text, text, text_discrete, trim_space}
use onlyboxes_mcp.Prelude.Map.{get, put, delete, get-put_self, get-delete_self}
use onlyboxes_mcp.Errors.{Error, task_not_found, task_terminal, transition_not_applied}
use onlyboxes_mcp.Tasks.Table.{
  Row, Status, is_active, update_active, update_found, set_terminal, mark_task_terminal,
}
use onlyboxes_mcp.Tasks.Ended.{IsId, inactive_terminal}
use onlyboxes_mcp.Tasks.Execute.{Reply, owned, cancel_task, cancel_finished}
use onlyboxes_mcp.Tasks.{
  Tasks, Snapshot, fails, spent, called, get_task, get_task_by_id, owned_snapshot, snapshot_task,
  is_task_terminal, finish_task, complete_task_runtime,
}

owned-some :
    (owner : Text) (o : Option Row) (r : Row)
    → o ≡ some r
    → owned owner o ≡ ite (text_discrete r.owner_id owner) (some r) none
owned-some owner none r h = cc
owned-some owner (some p) r h = ground (arith, h)

-- The row that a request of an owner may see.
abbrev pub visible : Tasks → Text → Text → Option Row
visible s id owner = if fails s.faults then none else owned owner (get id s.rows)

-- GetTask gives the caller a snapshot exactly when the table has a task of the id, both trimmed, whose
-- owner is the caller, and the snapshot is that task's; when the read fails it gives none. The id is
-- not blank.
pub get_task_iff_owned :
    (s : Tasks) (task_id owner_id : Text) (v : Snapshot)
    → is_empty (trim_space task_id) ≡ false
    → (fails s.faults ≡ true → (get_task s task_id owner_id).1 ≡ none)
      × (fails s.faults ≡ false
          → ((get_task s task_id owner_id).1 ≡ some v
              → (r : Row) × (get (trim_space task_id) s.rows ≡ some r)
                × (r.owner_id ≡ trim_space owner_id)
                × (v ≡ snapshot_task (trim_space task_id) r))
            × ((r : Row)
                → get (trim_space task_id) s.rows ≡ some r
                → r.owner_id ≡ trim_space owner_id
                → v ≡ snapshot_task (trim_space task_id) r
                → (get_task s task_id owner_id).1 ≡ some v))
unfolding get_task get_task_by_id
get_task_iff_owned s task_id owner_id v n = (
  λ f. rw (n, f) refl,
  λ f. (
    elim (Option-cases (get (trim_space task_id) s.rows)) [
      | inl e ↦ rw (n, f, e) (λ h. cc)
      | inr e ↦ elim (text_discrete e.0.owner_id (trim_space owner_id)) [
        | yes o ↦ rw (n, f, e.1) (rw (if_pos _ o) (λ h. (e.0, refl, o, cc)))
        | no o ↦ rw (n, f, e.1) (rw (if_neg _ o) (λ h. cc))
      ]
    ],
    λ r h o g. rw (n, f, h) (rw (if_pos _ o) (ap some (sym g))),
  ),
)

visible-owned :
    (s : Tasks) (id owner : Text)
    → owned owner (if fails s.faults then none else get id s.rows) ≡ visible s id owner
visible-owned s id owner = elim (Bool-cases (fails s.faults)) [
  | inl e ↦ rw e refl
  | inr e ↦ rw e refl
]

-- CancelTask of a task that the caller does not own, or that is not there, or when the read fails,
-- says so and changes neither table nor index; that of a task with a terminal status gives its
-- snapshot and ErrTaskTerminal, and changes neither.
pub cancel_task_refused :
    (meanwhile : Tasks → Tasks) (s : Tasks) (task_id owner_id : Text) (now : ℕ)
    → is_empty (trim_space task_id) ≡ false
    → (visible s (trim_space task_id) (trim_space owner_id) ≡ none
        → cancel_task meanwhile s task_id owner_id now ≡ (called s, none, some task_not_found))
      × ((r : Row)
          → visible s (trim_space task_id) (trim_space owner_id) ≡ some r
          → is_task_terminal r.status ≡ true
          → cancel_task meanwhile s task_id owner_id now
            ≡ (called s, some (snapshot_task (trim_space task_id) r), some task_terminal))
unfolding cancel_task get_task_by_id
cancel_task_refused meanwhile s task_id owner_id now n = (
  λ h. rw (n, visible-owned s (trim_space task_id) (trim_space owner_id), h) refl,
  λ r h t. rw (n, visible-owned s (trim_space task_id) (trim_space owner_id), h, t) refl,
)

unowned_snapshot :
    (id owner : Text) (o : Option Row) → owned owner o ≡ none → owned_snapshot id owner o ≡ none
unowned_snapshot id owner none = λ h. refl
unowned_snapshot id owner (some r) = elim (text_discrete r.owner_id owner) [
  | yes e ↦ rw (if_pos _ e) (λ h. cc)
  | no ne ↦ rw (if_neg _ ne) (λ h. rw (if_neg _ ne) refl)
]

read_owned :
    (faults : List Bool) (owner : Text) (o : Option Row)
    → owned owner o ≡ none
    → (if fails faults then none else owned owner o) ≡ none
read_owned faults owner o h = elim (Bool-cases (fails faults)) [
  | inl e ↦ rw e refl
  | inr e ↦ rw e h
]

get_task_unowned :
    (s : Tasks) (task_id owner_id : Text)
    → is_empty (trim_space task_id) ≡ false
    → visible s (trim_space task_id) (trim_space owner_id) ≡ none
    → (get_task s task_id owner_id).1 ≡ none
unfolding get_task get_task_by_id
get_task_unowned s task_id owner_id n h = rw n (
    unowned_snapshot (trim_space task_id) (trim_space owner_id) _
      (visible-owned s (trim_space task_id) (trim_space owner_id) ∙ h))

-- A caller cannot tell another owner's task from one that is not there: GetTask and CancelTask answer
-- it as they do when the table does not have that task at all, and CancelTask leaves the table as it
-- is; whether or not the read fails, and whatever other requests do. The id is not blank.
pub unowned-hidden :
    (meanwhile : Tasks → Tasks) (s : Tasks) (task_id owner_id : Text) (now : ℕ) (r : Row)
    → is_empty (trim_space task_id) ≡ false
    → get (trim_space task_id) s.rows ≡ some r
    → r.owner_id ≢ trim_space owner_id
    → ((get_task s task_id owner_id).1
        ≡ (get_task (record s { rows = delete (trim_space task_id) s.rows }) task_id owner_id).1)
      × ((cancel_task meanwhile s task_id owner_id now).1
          ≡ (cancel_task meanwhile
              (record s { rows = delete (trim_space task_id) s.rows })
              task_id
              owner_id
              now).1)
      × ((cancel_task meanwhile s task_id owner_id now).0.rows ≡ s.rows)
unowned-hidden meanwhile s task_id owner_id now r n h ne =
    let id = trim_space task_id in
    let owner = trim_space owner_id in
    let hidden : Tasks = record s { rows = delete id s.rows } in
    let unseen : visible s id owner ≡ none =
      read_owned s.faults owner (get id s.rows)
        (owned-some owner _ r h ∙ if_neg (text_discrete r.owner_id owner) ne (some r) none) in
    let gone : visible hidden id owner ≡ none =
      read_owned s.faults owner (get id hidden.rows)
        (ap (owned owner) (get-delete_self id s.rows)) in
    let here = (cancel_task_refused meanwhile s task_id owner_id now n).0 unseen in
    let there = (cancel_task_refused meanwhile hidden task_id owner_id now n).0 gone in
    (
      get_task_unowned s task_id owner_id n unseen
          ∙ sym (get_task_unowned hidden task_id owner_id n gone),
      ap (λ x. x.1) here ∙ sym (ap (λ x. x.1) there),
      ap (λ x. x.0.rows) here,
    )

-- The row that finishTask leaves.
abbrev pub finished_row : Tasks → Status → Text → Text → Text → ℕ → Row → Row
finished_row s st result code message at q =
    set_terminal
      (record {
        status = st;
        result_json = result;
        error_code = trim_space code;
        error_message = trim_space message;
        completed_at = at;
        expires_at = at + s.retention_ms;
      })
      q

-- finishTask of a task that is in the table, when the update does not fail: an active task gets the
-- outcome, one with a terminal status keeps its row, and finishTask reports which; any other row
-- stays; and the run of the task is completed either way.
pub finish_task_once :
    (s : Tasks) (id : Text) (st : Status) (result code message : Text) (at : ℕ) (q : Row)
    → IsId id
    → fails s.faults ≡ false
    → get id s.rows ≡ some q
    → (is_active q.status ≡ true
        → finish_task s id st result code message at ≡ (
          complete_task_runtime
              (record (called s) {
                rows = put id (finished_row s st result code message at q) s.rows;
              })
              id,
          none,
        ))
      × (is_active q.status ≡ false
          → finish_task s id st result code message at
            ≡ (complete_task_runtime (called s) id, some transition_not_applied))
unfolding finish_task mark_task_terminal update_active update_found
finish_task_once s id st result code message at q n ok h =
    (λ a. rw (n.0, n.1, ok, h, a) refl, λ a. rw (n.0, n.1, ok, h, a) refl)

complete_task_runtime_lem :
    (s : Tasks) (id : Text)
    → ((complete_task_runtime s id).rows ≡ s.rows)
      × ((complete_task_runtime s id).faults ≡ s.faults)
      × (get id (complete_task_runtime s id).active ≡ none)
unfolding complete_task_runtime
complete_task_runtime_lem s id = elim (Option-cases (get id s.active)) [
  | inl e ↦ rw (complete_task_runtime, e) (refl, refl, e)
  | inr e ↦ rw (complete_task_runtime, e.1) (refl, refl, get-delete_self id s.active)
]

-- The row of a canceled task.
abbrev pub canceled_row : Tasks → ℕ → Row → Row
canceled_row s now = finished_row s Status.canceled [] (text "canceled") (text "task canceled") now

cancel_finished_done :
    (id owner : Text) (t : Tasks) (r : Row)
    → fails t.faults ≡ false
    → get id t.rows ≡ some r
    → cancel_finished id owner (t, none) ≡ (called t, some (snapshot_task id r), none)
unfolding get_task_by_id
cancel_finished_done id owner t r ok h = rw (ok, h) refl

cancel_finished_lost :
    (id owner : Text) (t : Tasks) (r : Row)
    → fails t.faults ≡ false
    → get id t.rows ≡ some r
    → r.owner_id ≡ owner
    → is_task_terminal r.status ≡ true
    → cancel_finished id owner (t, some transition_not_applied)
      ≡ (called t, some (snapshot_task id r), some task_terminal)
unfolding get_task_by_id
cancel_finished_lost id owner t r ok h o e = rw (ok, h, if_pos _ o, e) refl

abbrev pub answer : Reply → Option Snapshot × Option Error
answer (s, snapshot, e) = (snapshot, e)

-- CancelTask goes on to finishTask.
cancel_task_goes :
    (meanwhile : Tasks → Tasks) (s : Tasks) (id owner : Text) (now : ℕ) (r : Row)
    → IsId id
    → visible s id (trim_space owner) ≡ some r
    → is_task_terminal r.status ≡ false
    → cancel_task meanwhile s id owner now
      ≡ cancel_finished id (trim_space owner) (
          finish_task
            (meanwhile (called s))
            id
            Status.canceled
            []
            (text "canceled")
            (text "task canceled")
            now)
unfolding cancel_task get_task_by_id
cancel_task_goes meanwhile s id owner now r n v t =
    rw (n.0, n.1, visible-owned s id (trim_space owner), v, t) refl

no_fault : (bs : List Bool) → bs ≡ [] → (fails bs ≡ false) × (fails (spent bs) ≡ false)
no_fault bs e = rw e (refl, refl)

-- The cancellation of an active task by its owner, when neither the database nor the clock gets in
-- its way, against whatever another request does to the task in the meantime: if the task is still
-- active then, it is canceled, CancelTask answers with the canceled task and no error, and the task's
-- run is completed; if it was completed, its row stays and CancelTask answers with it and
-- ErrTaskTerminal. In the meantime the owner of the task stays the same.
pub cancel_task_race :
    (meanwhile : Tasks → Tasks) (s : Tasks) (id owner : Text) (now : ℕ) (r q : Row)
    → IsId id
    → visible s id (trim_space owner) ≡ some r
    → is_task_terminal r.status ≡ false
    → (meanwhile (called s)).faults ≡ []
    → get id (meanwhile (called s)).rows ≡ some q
    → q.owner_id ≡ trim_space owner
    → (is_active q.status ≡ true
        → (answer (cancel_task meanwhile s id owner now)
            ≡ (some (snapshot_task id (canceled_row (meanwhile (called s)) now q)), none))
          × (get id (cancel_task meanwhile s id owner now).0.rows
              ≡ some (canceled_row (meanwhile (called s)) now q))
          × (get id (cancel_task meanwhile s id owner now).0.active ≡ none))
      × (is_active q.status ≡ false
          → (answer (cancel_task meanwhile s id owner now)
              ≡ (some (snapshot_task id q), some task_terminal))
            × (get id (cancel_task meanwhile s id owner now).0.rows ≡ some q))
unfolding is_task_terminal
cancel_task_race meanwhile s id owner now r q n v t f h o =
    let u = meanwhile (called s) in
    let ok = no_fault u.faults f in
    let goes = cancel_task_goes meanwhile s id owner now r n v t in
    let once =
      finish_task_once u id Status.canceled [] (text "canceled") (text "task canceled") now q n ok.0
        h in
    let rest = trim_space owner in
    (
      λ a.
          let v = record (called u) { rows = put id (canceled_row u now q) u.rows } in
          let c = complete_task_runtime_lem v id in
          let row = ap (get id) c.0 ∙ get-put_self id (canceled_row u now q) u.rows in
          let all =
            goes
            ∙ ap (cancel_finished id rest) (once.0 a)
            ∙ cancel_finished_done id rest (complete_task_runtime v id) (canceled_row u now q)
                (ap fails c.1 ∙ ok.1) row in
          rw all (refl, row, c.2),
      λ a.
          let c = complete_task_runtime_lem (called u) id in
          let row = ap (get id) c.0 ∙ h in
          let all =
            goes
            ∙ ap (cancel_finished id rest) (once.1 a)
            ∙ cancel_finished_lost id rest (complete_task_runtime (called u) id) q
                (ap fails c.1 ∙ ok.1) row o (inactive_terminal q.status a) in
          rw all (refl, row),
    )
