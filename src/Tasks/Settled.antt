-- ===== src/Tasks/Settled.antt =====
-- console/internal/grpcserver/task.go: what no operation changes of a task. A task that has reached a
-- terminal status keeps its row as it is until the row is pruned.
use onlyboxes_mcp.Prelude.{
  ℕ, ◌≤◌, ◌≡◌, refl, ap, ◌∙◌, true, Option, none, some, arith, is_empty, inl, inr, Bool-cases, ◌==◌,
  if_pos, if_neg,
}
use onlyboxes_mcp.Prelude.Text.{Text, text_discrete, trim_space}
use onlyboxes_mcp.Prelude.Map.{Map, get, Distinct}
use onlyboxes_mcp.Errors.{Error}
use onlyboxes_mcp.Tasks.Table.{
  Row, Status, is_active, is_terminal_status, is_expired, update_active, mark_task_dispatched,
  mark_task_running, mark_task_terminal, Terminal, set_terminal,
}
use onlyboxes_mcp.Tasks.Rows.{
  row_after, get-update_active, update_active-Distinct, kept, active_or_terminal,
}
use onlyboxes_mcp.Tasks.{
  Tasks, updated, fails, complete_task_runtime, mark_dispatched, mark_running, finish_task,
  finish_task_with_error, fail_task_on_persistence_error, noted, completed,
}

-- What identifies a task.
abbrev pub SameTask : Row → Row → Type 0
SameTask r q =
    (q.owner_id ≡ r.owner_id)
    × (q.request_id ≡ r.request_id)
    × (q.capability ≡ r.capability)
    × (q.input_json ≡ r.input_json)
    × (q.created_at ≡ r.created_at)
    × (q.deadline_at ≡ r.deadline_at)

-- From the first row to the second: the task is the same; a terminal row stays, or is removed; and
-- no row comes back.
abbrev pub Follows : Option Row → Option Row → Type 0
Follows none q = q ≡ none
Follows (some r) none = Unit
Follows (some r) (some q) = SameTask r q × (is_terminal_status r.status ≡ true → q ≡ r)

pub Follows-refl : (q : Option Row) → Follows q q
Follows-refl none = refl
Follows-refl (some r) = ((refl, refl, refl, refl, refl, refl), λ t. refl)

SameTask-trans : (p q r : Row) → SameTask p q → SameTask q r → SameTask p r
SameTask-trans p q r h k = (k.0 ∙ h.0, k.1 ∙ h.1, k.2 ∙ h.2, k.3 ∙ h.3, k.4 ∙ h.4, k.5 ∙ h.5)

pub Follows-trans : (p q r : Option Row) → Follows p q → Follows q r → Follows p r
Follows-trans none none r h k = k
Follows-trans none (some q) r h k = cc
Follows-trans (some p) none none h k = tt
Follows-trans (some p) none (some r) h k = cc
Follows-trans (some p) (some q) none h k = tt
Follows-trans (some p) (some q) (some r) h k = (
  SameTask-trans p q r h.0 k.0,
  λ t. k.1 (ap (λ x. is_terminal_status x.status) (h.1 t) ∙ t) ∙ h.1 t,
)

-- What holds between the state before an operation and that after it.
pub record Later (j : Text) (s t : Tasks) : Type 0 where
  pub row : Follows (get j s.rows) (get j t.rows)
  pub distinct : Distinct s.rows → Distinct t.rows
  pub counted : s.critical ≤ t.critical

pub Later-of_same :
    (j : Text) (s t : Tasks) → t.rows ≡ s.rows → s.critical ≤ t.critical → Later j s t
Later-of_same j s t e h = record {
  row = rw e (Follows-refl (get j s.rows));
  distinct = λ d. rw e d;
  counted = h;
}

pub Later-trans : (j : Text) (s t u : Tasks) → Later j s t → Later j t u → Later j s u
Later-trans j s t u h k = record {
  row = Follows-trans (get j s.rows) (get j t.rows) (get j u.rows) h.row k.row;
  distinct = λ d. k.distinct (h.distinct d);
  counted = omega (arith, h.counted, k.counted);
}

row_after-Follows :
    (f : Row → Row) (q : Option Row) → ((r : Row) → SameTask r (f r)) → Follows q (row_after f q)
row_after-Follows f none h = refl
row_after-Follows f (some r) h = elim (Bool-cases (is_active r.status)) [
  | inl e ↦ rw e (h r, λ t. cc (e, t, active_or_terminal r.status))
  | inr e ↦ rw e (Follows-refl (some r))
]

Follows-at :
    (f : Row → Row) (id j : Text) (rows : Map Row)
    → ((r : Row) → SameTask r (f r))
    → Follows (get j rows) (get j (update_active f id rows).0)
Follows-at f id j rows h = elim (text_discrete j id) [
  | yes e ↦
      rw (get-update_active f id j rows)
        (rw (if_pos _ e) (rw e (row_after-Follows f (get id rows) h)))
  | no e ↦ rw (get-update_active f id j rows) (rw (if_neg _ e) (Follows-refl (get j rows)))
]

-- An UPDATE by id, whether or not it fails and whether or not it finds the row.
update_active-Later :
    (f : Row → Row) (id j : Text) (s : Tasks)
    → ((r : Row) → SameTask r (f r))
    → Later j s (updated s (update_active f id s.rows)).0
update_active-Later f id j s h = elim (Bool-cases (fails s.faults)) [
  | inl e ↦ rw e (Later-of_same j s _ refl (omega arith))
  | inr e ↦ rw e (elim (Bool-cases ((update_active f id s.rows).1 == 0)) [
    | inl z ↦ rw z (Later-of_same j s _ refl (omega arith))
    | inr z ↦ rw z (record {
      row = Follows-at f id j s.rows h;
      distinct = update_active-Distinct f id s.rows;
      counted = omega arith;
    })
  ])
]

complete_task_runtime-rows : (s : Tasks) (id : Text) → (complete_task_runtime s id).rows ≡ s.rows
unfolding complete_task_runtime
complete_task_runtime-rows s id = ground arith

complete_task_runtime-critical :
    (s : Tasks) (id : Text) → (complete_task_runtime s id).critical ≡ s.critical
unfolding complete_task_runtime
complete_task_runtime-critical s id = ground arith

pub complete_task_runtime-Later :
    (j : Text) (s : Tasks) (id : Text) → Later j s (complete_task_runtime s id)
complete_task_runtime-Later j s id =
    Later-of_same j s (complete_task_runtime s id) (complete_task_runtime-rows s id)
      (omega (arith, complete_task_runtime-critical s id))

completed-Later :
    (j id : Text) (s : Tasks) (u : Tasks × Option Error)
    → Later j s u.0
    → Later j s (completed id u).0
completed-Later j id s (t, e) h =
    Later-trans j s t (complete_task_runtime t id) h (complete_task_runtime-Later j t id)

pub mark_dispatched-Later :
    (j : Text) (s : Tasks) (id : Text) (now : ℕ) → Later j s (mark_dispatched s id now).0
unfolding mark_dispatched mark_task_dispatched
mark_dispatched-Later j s id now = elim (Bool-cases (is_empty (trim_space id))) [
  | inl e ↦ rw e (Later-of_same j s _ refl (omega arith))
  | inr e ↦ rw e (update_active-Later _ id j s (λ r. (refl, refl, refl, refl, refl, refl)))
]

pub mark_running-Later :
    (j : Text) (s : Tasks) (id command : Text) (now : ℕ)
    → Later j s (mark_running s id command now).0
unfolding mark_running mark_task_running
mark_running-Later j s id command now = elim (Bool-cases (is_empty (trim_space id))) [
  | inl e ↦ rw e (Later-of_same j s _ refl (omega arith))
  | inr e ↦ rw e (update_active-Later _ id j s (λ r. (refl, refl, refl, refl, refl, refl)))
]

finish_at-Later :
    (j id : Text) (s : Tasks) (t : Terminal)
    → Later j s (completed id (updated s (mark_task_terminal id t s.rows))).0
unfolding mark_task_terminal
finish_at-Later j id s t =
    completed-Later j id s (updated s (update_active (set_terminal t) id s.rows))
      (update_active-Later (set_terminal t) id j s (λ r. (refl, refl, refl, refl, refl, refl)))

pub finish_task-Later :
    (j : Text) (s : Tasks) (id : Text) (st : Status) (result code message : Text) (at : ℕ)
    → Later j s (finish_task s id st result code message at).0
unfolding finish_task
finish_task-Later j s id st result code message at = elim (Bool-cases (is_empty (trim_space id))) [
  | inl e ↦ rw e (Later-of_same j s _ refl (omega arith))
  | inr e ↦ rw e (finish_at-Later j (trim_space id) s _)
]

noted-Later :
    (j : Text) (s : Tasks) (u : Tasks × Option Error) → Later j s u.0 → Later j s (noted u).0
noted-Later j s (t, none) h = h
noted-Later j s (t, some e) h = Later-trans j s t _ h (Later-of_same j t _ refl (omega arith))

pub fail_task-Later :
    (shown : Error → Text) (j : Text) (s : Tasks) (id stage : Text) (e : Error) (now : ℕ)
    → Later j s (fail_task_on_persistence_error shown s id stage e now).0
unfolding fail_task_on_persistence_error
fail_task-Later shown j s id stage e now =
    noted-Later j s _ (finish_task-Later j s id Status.failed _ _ _ now)

pub finish_task_with_error-Later :
    (shown : Error → Text) (j : Text) (s : Tasks) (id : Text) (e : Error) (now : ℕ)
    → Later j s (finish_task_with_error shown s id e now).0
unfolding finish_task_with_error
finish_task_with_error-Later shown j s id e now = finish_task-Later j s id _ _ _ _ now

pub kept-Follows : (now : ℕ) (q : Option Row) → Follows q (kept now q)
kept-Follows now none = refl
kept-Follows now (some r) = elim (Bool-cases (is_expired now r)) [
  | inl e ↦ rw e tt
  | inr e ↦ rw e (Follows-refl (some r))
]
