-- ===== src/Tasks/Submission.antt =====
-- SubmitTask of console/internal/grpcserver/task.go: what a submission does to the table, to the
-- tasks that are there and to the reservations of request ids.
use onlyboxes_mcp.Prelude.{
  ℕ, ◌≡◌, ◌≢◌, refl, sym, ap, subst, ◌∙◌, Option, none, some, arith, is_empty, inl, inr, ◌⊎◌,
  Bool-cases,
}
use onlyboxes_mcp.Prelude.Text.{Text}
use onlyboxes_mcp.Prelude.Map.{Map, get, put, get-put_ne, Distinct, put-Distinct}
use onlyboxes_mcp.Errors.{Error}
use onlyboxes_mcp.Tasks.Table.{Row, insert_task, Inserted, inserted, request_conflict, id_conflict}
use onlyboxes_mcp.Tasks.Settled.{Follows, Follows-refl, Later, Later-of_same}
use onlyboxes_mcp.Tasks.Creation.{Unique, insert_checked-Inserted, insert_task-Unique}
use onlyboxes_mcp.Tasks.Submit.{
  Checked, reserve_request, release_request, new_row, insert_result, insert_new, create_available,
  create_task, existing_or, reserve_key,
}
use onlyboxes_mcp.Tasks.{Tasks, fails, called, get_task_by_owner_and_request}

-- The table is as it was, or has one more row, that of the checked request under the new id.
pub record Grown (c : Checked) (new_id : Option Text) (now : ℕ) (s t : Tasks) : Type 0 where
  pub rows :
      (t.rows ≡ s.rows)
      ⊎ ((id : Text) × (new_id ≡ some id)
          × (insert_task id (new_row c now) s.rows ≡ inserted t.rows))
  pub critical : t.critical ≡ s.critical
  pub reservations : t.reservations ≡ s.reservations

insert_result-Grown :
    (c : Checked) (now : ℕ) (s : Tasks) (id : Text) (i : Inserted)
    → insert_task id (new_row c now) s.rows ≡ i
    → Grown c (some id) now s (insert_result (called s) c id i).0
unfolding get_task_by_owner_and_request
insert_result-Grown c now s id (inserted rows) h = record {
  rows = inr (id, refl, h);
  critical = refl;
  reservations = refl;
}
insert_result-Grown c now s id id_conflict h = record {
  rows = inl refl;
  critical = refl;
  reservations = refl;
}
insert_result-Grown c now s id request_conflict h = elim (Bool-cases (is_empty c.request_id)) [
  | inl e ↦ rw e (record { rows = inl refl; critical = refl; reservations = refl })
  | inr e ↦
      rw e (record { rows = ground arith; critical = ground arith; reservations = ground arith })
]

insert_new-Grown :
    (c : Checked) (now : ℕ) (s : Tasks) (new_id : Option Text)
    → Grown c new_id now s (insert_new s c new_id now).0
insert_new-Grown c now s none = record { rows = inl refl; critical = refl; reservations = refl }
insert_new-Grown c now s (some id) = elim (Bool-cases (fails s.faults)) [
  | inl e ↦ rw e (record { rows = inl refl; critical = refl; reservations = refl })
  | inr e ↦ rw e (insert_result-Grown c now s id _ refl)
]

create_available-Grown :
    (c : Checked) (now : ℕ) (s : Tasks) (e : Option Error) (new_id : Option Text)
    → Grown c new_id now s (create_available s c e new_id now).0
create_available-Grown c now s (some e) new_id = record {
  rows = inl refl;
  critical = refl;
  reservations = refl;
}
create_available-Grown c now s none new_id = insert_new-Grown c now s new_id

existing_or-Grown :
    (c : Checked) (now : ℕ) (s : Tasks) (e : Option Error) (new_id : Option Text)
    (q : Option (Text × Row))
    → Grown c new_id now s (existing_or c e new_id now (called s, q)).0
existing_or-Grown c now s e new_id none =
    let g = create_available-Grown c now (called s) e new_id in
    record { rows = g.rows; critical = g.critical; reservations = g.reservations }
existing_or-Grown c now s e new_id (some (id, r)) = record {
  rows = inl refl;
  critical = refl;
  reservations = refl;
}

pub create_task-Grown :
    (c : Checked) (now : ℕ) (s : Tasks) (e : Option Error) (new_id : Option Text)
    → Grown c new_id now s (create_task s c e new_id now).0
unfolding create_task get_task_by_owner_and_request
create_task-Grown c now s e new_id = elim (Bool-cases (is_empty c.request_id)) [
  | inl x ↦ rw x (create_available-Grown c now s e new_id)
  | inr x ↦ rw x (existing_or-Grown c now s e new_id _)
]

pub Grown-Unique :
    (c : Checked) (new_id : Option Text) (now : ℕ) (s t : Tasks)
    → Grown c new_id now s t
    → Unique s.rows
    → Unique t.rows
Grown-Unique c new_id now s t g u = elim g.rows [
  | inl e ↦ subst Unique (sym e) u
  | inr i ↦ insert_task-Unique i.0 (new_row c now) s.rows t.rows i.2 u
]

pub inserted-put :
    (id : Text) (r : Row) (rows kept : Map Row)
    → insert_task id r rows ≡ inserted kept
    → kept ≡ put id r rows
unfolding insert_task
inserted-put id r rows kept h = (insert_checked-Inserted id r rows _ _ kept h).2

-- The creation of a task under another id.
pub Grown-Later :
    (c : Checked) (new_id : Option Text) (now : ℕ) (j : Text) (s t : Tasks)
    → new_id ≢ some j
    → Grown c new_id now s t
    → Later j s t
Grown-Later c new_id now j s t apart g = elim g.rows [
  | inl e ↦ Later-of_same j s t e (omega (arith, g.critical))
  | inr i ↦
      let grown = inserted-put i.0 (new_row c now) s.rows t.rows i.2 in
      let other : j ≢ i.0 = λ x. apart (i.1 ∙ ap some (sym x)) in
      record {
        row =
            subst (Follows (get j s.rows))
              (sym (ap (get j) grown ∙ get-put_ne i.0 j (new_row c now) s.rows other))
              (Follows-refl (get j s.rows));
        distinct = λ d. subst Distinct (sym grown) (put-Distinct i.0 (new_row c now) s.rows d);
        counted = omega (arith, g.critical);
      }
]

reserve_key_rows :
    (key : Text) (s t : Tasks) (o : Option (Unit {0}))
    → reserve_key key s o ≡ some t
    → (t.rows ≡ s.rows) × (t.critical ≡ s.critical)
reserve_key_rows key s t none h = (cc, cc)
reserve_key_rows key s t (some x) h = cc

pub reserve_request_rows :
    (s t : Tasks) (c : Checked)
    → reserve_request s c ≡ some t
    → (t.rows ≡ s.rows) × (t.critical ≡ s.critical)
unfolding reserve_request
reserve_request_rows s t c = elim (Bool-cases (is_empty c.request_id)) [
  | inl e ↦ rw e (λ h. (cc, cc))
  | inr e ↦ rw e (λ h. reserve_key_rows _ s t _ h)
]

pub release_request_rows :
    (s : Tasks) (c : Checked)
    → ((release_request c s).rows ≡ s.rows) × ((release_request c s).critical ≡ s.critical)
unfolding release_request
release_request_rows s c = ground arith
