-- ===== src/Tasks/Requests.antt =====
-- The request ids of console/internal/grpcserver/task.go: SubmitTask's reservation of one, and what a
-- second submission with it gets.
use onlyboxes_mcp.Prelude.{
  arith, Bool, Option-cases, ℕ, ◌≡◌, ◌≢◌, refl, sym, ap, subst, ◌∙◌, true, false, Option, none,
  some, is_empty, is_some, inl, inr, Bool-cases,
}
use onlyboxes_mcp.Prelude.Text.{Text}
use onlyboxes_mcp.Prelude.Map.{Map, get, put, get-put_self, get-delete_self, Distinct}
use onlyboxes_mcp.Errors.{Error, task_request_in_progress}
use onlyboxes_mcp.Scope.Ids.{task_request_scope_key}
use onlyboxes_mcp.Tasks.Table.{
  Row, find_request, insert_task, Inserted, inserted, id_conflict, request_conflict,
}
use onlyboxes_mcp.Tasks.Rows.{find_request-some, find_request-none}
use onlyboxes_mcp.Tasks.Settled.{Follows, Later, Later-trans, Later-of_same}
use onlyboxes_mcp.Tasks.Creation.{Unique}
use onlyboxes_mcp.Tasks.Submission.{inserted-put, release_request_rows}
use onlyboxes_mcp.Tasks.Operations.{Respects, maybe_prune_expired_tasks-Later}
use onlyboxes_mcp.Tasks.Execute.{Env}
use onlyboxes_mcp.Tasks.Submit.{
  Request, Submitted, refused, accepted, check_request, submit_task, submit_reserved, Checked,
  existing, created, reserve_request, reserve_key, release_request, create_task, create_available,
  existing_or, insert_result, insert_new, new_row, found_or, failed_to,
}
use onlyboxes_mcp.Tasks.{
  Tasks, maybe_prune_expired_tasks, fails, called, get_task_by_owner_and_request,
}

reserve_key_held :
    (key : Text) (s t : Tasks) (o : Option (Unit {0}))
    → reserve_key key s o ≡ some t
    → t.reservations ≡ put key tt s.reservations
reserve_key_held key s t none h = cc
reserve_key_held key s t (some x) h = cc

reserve_key_refuses :
    (key : Text) (t : Tasks) (o : Option (Unit {0})) → o ≡ some tt → reserve_key key t o ≡ none
reserve_key_refuses key t none h = cc
reserve_key_refuses key t (some x) h = refl

reserve_key_accepts :
    (key : Text) (t : Tasks) (o : Option (Unit {0}))
    → o ≡ none
    → is_some (reserve_key key t o) ≡ true
reserve_key_accepts key t none h = refl
reserve_key_accepts key t (some x) h = cc

reserve_request_held :
    (s t : Tasks) (c : Checked)
    → is_empty c.request_id ≡ false
    → reserve_request s c ≡ some t
    → t.reservations ≡ put (task_request_scope_key c.owner c.request_id) tt s.reservations
unfolding reserve_request
reserve_request_held s t c e =
    rw e (λ h. reserve_key_held (task_request_scope_key c.owner c.request_id) s t _ h)

-- Two requests that have a request id, the same one, of one owner.
abbrev pub SameKey : Checked → Checked → Type 0
SameKey c d = (c.owner ≡ d.owner) × (c.request_id ≡ d.request_id) × (is_empty c.request_id ≡ false)

-- While a submission holds the reservation of an owner's request id, another one with the same owner
-- and request id gets none; once it is released, it is to be had.
pub reserve_request_excludes :
    (s t : Tasks) (c d : Checked)
    → SameKey c d
    → reserve_request s c ≡ some t
    → (reserve_request t d ≡ none) × (is_some (reserve_request (release_request c t) d) ≡ true)
unfolding reserve_request release_request
reserve_request_excludes s t c d same h =
    let key = task_request_scope_key c.owner c.request_id in
    let held =
      ap (get key) (reserve_request_held s t c same.2 h) ∙ get-put_self key tt s.reservations in
    rw (← same.0, ← same.1, same.2)
      (
        reserve_key_refuses key t _ held,
        reserve_key_accepts key _ _ (get-delete_self key t.reservations),
      )

-- The row that create_task made.
Made : Checked → Text → ℕ → Tasks → Type 0
Made c id now t = get id t.rows ≡ some (new_row c now)

inserted-Made :
    (c : Checked) (id : Text) (now : ℕ) (s t : Tasks)
    → insert_task id (new_row c now) s.rows ≡ inserted t.rows
    → Made c id now t
unfolding Made
inserted-Made c id now s t h =
    ap (get id) (inserted-put id (new_row c now) s.rows t.rows h)
    ∙ get-put_self id (new_row c now) s.rows

found_or-created :
    (id : Text) (s : Tasks) (o : Option (Text × Row)) (m : Text)
    → (found_or s o (failed_to m)).1 ≢ created id
found_or-created id s none m h = cc
found_or-created id s (some (i, r)) m h = cc

insert_result-created :
    (c : Checked) (id k : Text) (now : ℕ) (s : Tasks) (i : Inserted)
    → insert_task id (new_row c now) s.rows ≡ i
    → (insert_result (called s) c id i).1 ≡ created k
    → Made c k now (insert_result (called s) c id i).0
insert_result-created c id k now s (inserted rows) e =
    λ h. let same : id ≡ k = cc in rw (← same) (inserted-Made c id now s _ e)
insert_result-created c id k now s id_conflict e = λ h. cc
insert_result-created c id k now s request_conflict e = elim (Bool-cases (is_empty c.request_id)) [
  | inl x ↦ rw x (λ h. cc)
  | inr x ↦ rw x (λ h. absurd (found_or-created k _ _ _ h))
]

insert_new-created :
    (c : Checked) (k : Text) (now : ℕ) (s : Tasks) (new_id : Option Text)
    → (insert_new s c new_id now).1 ≡ created k
    → Made c k now (insert_new s c new_id now).0
insert_new-created c k now s none = λ h. cc
insert_new-created c k now s (some id) = elim (Bool-cases (fails s.faults)) [
  | inl x ↦ rw x (λ h. cc)
  | inr x ↦ rw x (λ h. insert_result-created c id k now s _ refl h)
]

create_available-created :
    (c : Checked) (k : Text) (now : ℕ) (s : Tasks) (e : Option Error) (new_id : Option Text)
    → (create_available s c e new_id now).1 ≡ created k
    → Made c k now (create_available s c e new_id now).0
create_available-created c k now s none new_id h = insert_new-created c k now s new_id h
create_available-created c k now s (some e) new_id h = cc

existing_or-created :
    (c : Checked) (k : Text) (now : ℕ) (s : Tasks) (e : Option Error) (new_id : Option Text)
    (q : Option (Text × Row))
    → (existing_or c e new_id now (s, q)).1 ≡ created k
    → Made c k now (existing_or c e new_id now (s, q)).0
existing_or-created c k now s e new_id none h = create_available-created c k now s e new_id h
existing_or-created c k now s e new_id (some (i, r)) h = cc

create_task-created :
    (c : Checked) (k : Text) (now : ℕ) (s : Tasks) (e : Option Error) (new_id : Option Text)
    → (create_task s c e new_id now).1 ≡ created k
    → Made c k now (create_task s c e new_id now).0
unfolding create_task get_task_by_owner_and_request
create_task-created c k now s e new_id = elim (Bool-cases (is_empty c.request_id)) [
  | inl x ↦ rw x (λ h. create_available-created c k now s e new_id h)
  | inr x ↦ rw x (λ h. existing_or-created c k now (called s) e new_id _ h)
]

-- In a later state the row's request is still found under its own id.
find_request-later :
    (owner request id : Text) (r : Row) (rows : Map Row) (o : Option (Text × Row))
    → Distinct rows
    → Unique rows
    → get id rows ≡ some r
    → r.owner_id ≡ owner
    → r.request_id ≡ request
    → is_empty request ≡ false
    → find_request owner request rows ≡ o
    → (p : Row) × (o ≡ some (id, p))
find_request-later owner request id r rows none d u g ho hq n e =
    absurd (find_request-none owner request rows id r e g ho hq)
find_request-later owner request id r rows (some (i, p)) d u g ho hq n e =
    let f = find_request-some owner request rows i p d e in
    let same = u i id p r f.0 g (f.1 ∙ sym ho) (f.2 ∙ sym hq) (ap is_empty f.2 ∙ n) in
    (p, ap (λ k. some (k, p)) same)

later_row :
    (r : Row) (q : Option Row)
    → Follows (some r) q
    → is_some q ≡ true
    → (p : Row) × (q ≡ some p) × (p.owner_id ≡ r.owner_id) × (p.request_id ≡ r.request_id)
later_row r none f h = cc
later_row r (some p) f h = (p, refl, f.0.0, f.0.1)

Later-Made :
    (c : Checked) (id : Text) (now : ℕ) (s t : Tasks)
    → Made c id now s
    → Later id s t
    → is_some (get id t.rows) ≡ true
    → (p : Row) × (get id t.rows ≡ some p) × (p.owner_id ≡ c.owner) × (p.request_id ≡ c.request_id)
unfolding Made
Later-Made c id now s t m l h =
    later_row (new_row c now) (get id t.rows) (subst (λ q. Follows q (get id t.rows)) m l.row) h

create_task-existing :
    (d : Checked) (u : Tasks) (e : Option Error) (new_id : Option Text) (now : ℕ) (id : Text)
    (p : Row)
    → is_empty d.request_id ≡ false
    → fails u.faults ≡ false
    → find_request d.owner d.request_id u.rows ≡ some (id, p)
    → create_task u d e new_id now ≡ (called u, existing id)
unfolding create_task get_task_by_owner_and_request
create_task-existing d u e new_id now id p n ok f = rw (n, ok, f) refl

submit_reserved-created :
    (meanwhile : Tasks → Tasks) (c : Checked) (k : Text) (now : ℕ) (s : Tasks) (e : Option Error)
    (new_id : Option Text) (o : Option Tasks)
    → (submit_reserved meanwhile c e new_id now s o).1 ≡ created k
    → Made c k now (submit_reserved meanwhile c e new_id now s o).0
unfolding Made
submit_reserved-created meanwhile c k now s e new_id none h = cc
submit_reserved-created meanwhile c k now s e new_id (some t) h =
    let made = create_task (meanwhile t) c e new_id now in
    ap (get k) (release_request_rows made.0 c).0
    ∙ create_task-created c k now (meanwhile t) e new_id h

submit_task-created :
    (env : Env) (meanwhile : Tasks → Tasks) (s : Tasks) (r : Request) (new_session : Option Text)
    (e : Option Error) (new_id : Option Text) (now : ℕ) (c : Checked) (k : Text)
    → check_request env new_session r ≡ accepted c
    → (submit_task env meanwhile s r new_session e new_id now).1 ≡ created k
    → Made c k now (submit_task env meanwhile s r new_session e new_id now).0
unfolding submit_task
submit_task-created env meanwhile s r new_session e new_id now c k v =
    rw v (submit_reserved-created meanwhile c k now (maybe_prune_expired_tasks s now) e new_id _)

-- What a request gets whose task exists: an error while another request holds the reservation, whose
-- rows are then those after the pruning; or else that task, with the rows as others have left them.
abbrev pub Repeated : Text → Bool → Tasks → Tasks → Tasks × Submitted → Type 0
Repeated id true pruned found (t, answer) =
    (answer ≡ refused task_request_in_progress) × (t.rows ≡ pruned.rows)
Repeated id false pruned found (t, answer) = (answer ≡ existing id) × (t.rows ≡ found.rows)

-- The state in which a request holds its reservation.
abbrev pub reserving : Checked → Tasks → Tasks
reserving d s = record s {
  reservations = put (task_request_scope_key d.owner d.request_id) tt s.reservations;
}

abbrev pub is_reserved : Checked → Tasks → Bool
is_reserved d s = is_some (get (task_request_scope_key d.owner d.request_id) s.reservations)

repeat_reserved :
    (meanwhile : Tasks → Tasks) (d : Checked) (id : Text) (p : Row) (s : Tasks) (e : Option Error)
    (new_id : Option Text) (now : ℕ)
    → is_empty d.request_id ≡ false
    → fails (meanwhile (reserving d s)).faults ≡ false
    → find_request d.owner d.request_id (meanwhile (reserving d s)).rows ≡ some (id, p)
    → Repeated id
        (is_reserved d s)
        s
        (meanwhile (reserving d s))
        (submit_reserved meanwhile d e new_id now s (reserve_request s d))
unfolding reserve_request
repeat_reserved meanwhile d id p s e new_id now n ok f =
    rw n (elim (Option-cases (get (task_request_scope_key d.owner d.request_id) s.reservations)) [
      | inr g ↦ rw (g.1) (refl, refl)
      | inl g ↦ rw g (
          let a = create_task-existing d (meanwhile (reserving d s)) e new_id now id p n ok f in
          (
            ap (λ x. x.1) a,
            (release_request_rows (create_task (meanwhile (reserving d s)) d e new_id now).0 d).0
                ∙ ap (λ x. x.0.rows) a,
          ))
    ])

-- A request of an owner whose request id was submitted before, and created a task, gets that task and
-- creates none, whatever workers there are then and whatever else the two requests say; or, while
-- another request with that owner and request id is being submitted, ErrTaskRequestInProgress, and
-- creates none either. Both requests pass the checks and have a request id. The task is still in the
-- table when the second one has pruned it and looks the request id up, after any changes that
-- tasks_kept allows; that read does not fail, the keys of the table are distinct then and an owner
-- has a request id once.
pub resubmit_same_task :
    (env : Env) (first second : Tasks → Tasks) (s u : Tasks) (r r' : Request)
    (session session' : Option Text) (e e' : Option Error) (new_id new_id' : Option Text)
    (now now' : ℕ) (c d : Checked) (id : Text)
    → check_request env session r ≡ accepted c
    → check_request env session' r' ≡ accepted d
    → SameKey c d
    → (submit_task env first s r session e new_id now).1 ≡ created id
    → Later id (submit_task env first s r session e new_id now).0 u
    → Distinct u.rows
    → Respects id second
    → is_some (get id (second (reserving d (maybe_prune_expired_tasks u now'))).rows) ≡ true
    → Unique (second (reserving d (maybe_prune_expired_tasks u now'))).rows
    → fails (second (reserving d (maybe_prune_expired_tasks u now'))).faults ≡ false
    → Repeated id
        (is_reserved d (maybe_prune_expired_tasks u now'))
        (maybe_prune_expired_tasks u now')
        (second (reserving d (maybe_prune_expired_tasks u now')))
        (submit_task env second u r' session' e' new_id' now')
unfolding submit_task
resubmit_same_task env first second s u r r' session session' e e' new_id new_id' now now' c d id v
      v' same made l d0 m there unique ok =
    let pruned = maybe_prune_expired_tasks u now' in
    let t = second (reserving d pruned) in
    let kept : Later id u t =
      Later-trans id u pruned t (maybe_prune_expired_tasks-Later id u now' d0) (
        Later-trans id pruned (reserving d pruned) t
          (Later-of_same id pruned (reserving d pruned) refl (omega arith))
          (m (reserving d pruned))) in
    let q =
      Later-Made c id now (submit_task env first s r session e new_id now).0 t
        (submit_task-created env first s r session e new_id now c id v made)
        (Later-trans id (submit_task env first s r session e new_id now).0 u t l kept) there in
    let n = ap is_empty (sym same.1) ∙ same.2 in
    let f =
      find_request-later d.owner d.request_id id q.0 t.rows _ (kept.distinct d0) unique q.1
        (q.2 ∙ same.0) (q.3 ∙ same.1) n refl in
    rw v' (repeat_reserved second d id f.0 pruned e' new_id' now' n ok f.1)
