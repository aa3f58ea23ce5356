-- ===== src/Tasks/Rows.antt =====
-- What the queries of console/internal/persistence/sqlc/tasks.sql.go do to each row.
use onlyboxes_mcp.Prelude.{
  ℕ, ◌≡◌, ◌≢◌, refl, ite, Option, none, some, [], ◌∷◌, arith, if◌then◌else◌, not, inl, inr,
  Bool-cases,
}
use onlyboxes_mcp.Prelude.Text.{Text, text_discrete}
use onlyboxes_mcp.Prelude.Map.{Map, get, get-nil, get-cons, get-put, Distinct, put-Distinct}
use onlyboxes_mcp.Tasks.Table.{
  Row, Status, is_active, is_terminal_status, update_active, update_found, delete_expired,
  is_expired, find_request,
}

abbrev pub row_after : (Row → Row) → Option Row → Option Row
row_after f none = none
row_after f (some r) = if is_active r.status then some (f r) else some r

abbrev pub changed : Option Row → ℕ
changed none = 0
changed (some r) = if is_active r.status then 1 else 0

pub active_or_terminal : (s : Status) → is_active s ≡ not (is_terminal_status s)
active_or_terminal Status.queued = refl
active_or_terminal _ = refl

update_found_row :
    (f : Row → Row) (id j : Text) (rows : Map Row) (o : Option Row)
    → get id rows ≡ o
    → get j (update_found f id rows o).0 ≡ ite (text_discrete j id) (row_after f o) (get j rows)
unfolding update_found
update_found_row f id j rows none e = ground arith
update_found_row f id j rows (some r) e = ground (arith, get-put id j (f r) rows)

update_found_count :
    (f : Row → Row) (id : Text) (rows : Map Row) (o : Option Row)
    → (update_found f id rows o).1 ≡ changed o
unfolding update_found
update_found_count f id rows none = refl
update_found_count f id rows (some r) = ground arith

-- An update by id changes that row alone, and that only if its status is an active one.
pub get-update_active :
    (f : Row → Row) (id j : Text) (rows : Map Row)
    → get j (update_active f id rows).0
      ≡ ite (text_discrete j id) (row_after f (get id rows)) (get j rows)
unfolding update_active
get-update_active f id j rows = update_found_row f id j rows _ refl

pub update_active_count :
    (f : Row → Row) (id : Text) (rows : Map Row)
    → (update_active f id rows).1 ≡ changed (get id rows)
unfolding update_active
update_active_count f id rows = update_found_count f id rows (get id rows)

update_found-Distinct :
    (f : Row → Row) (id : Text) (rows : Map Row) (o : Option Row)
    → Distinct rows
    → Distinct (update_found f id rows o).0
unfolding update_found
update_found-Distinct f id rows none d = d
update_found-Distinct f id rows (some r) d = elim (Bool-cases (is_active r.status)) [
  | inl e ↦ rw e (put-Distinct id (f r) rows d)
  | inr e ↦ rw e d
]

pub update_active-Distinct :
    (f : Row → Row) (id : Text) (rows : Map Row)
    → Distinct rows
    → Distinct (update_active f id rows).0
unfolding update_active
update_active-Distinct f id rows d = update_found-Distinct f id rows (get id rows) d

abbrev pub kept : ℕ → Option Row → Option Row
kept now none = none
kept now (some r) = if is_expired now r then none else some r

-- After DeleteExpiredTerminalTasks each key has the row that it had before, unless that row has a
-- terminal status and an expiry that is set and not later than now, in which case it has none. The
-- keys of the table are distinct.
pub get-delete_expired :
    (now : ℕ) (j : Text) (rows : Map Row)
    → Distinct rows
    → get j (delete_expired now rows).0 ≡ kept now (get j rows)
unfolding delete_expired
get-delete_expired now j [] d = rw (get-nil {V = Row} j) refl
get-delete_expired now j ((id, r) ∷ rest) d = ground (
  arith,
  d.0,
  get-cons j id r rest,
  get-cons j id r (delete_expired now rest).0,
  get-delete_expired now j rest d.1,
)

pub delete_expired-Distinct :
    (now : ℕ) (rows : Map Row) → Distinct rows → Distinct (delete_expired now rows).0
unfolding delete_expired
delete_expired-Distinct now [] d = d
delete_expired-Distinct now ((id, r) ∷ rest) d = elim (Bool-cases (is_expired now r)) [
  | inl e ↦ rw e (delete_expired-Distinct now rest d.1)
  | inr e ↦ rw e (
    ground (arith, d.0, get-delete_expired now id rest d.1),
    delete_expired-Distinct now rest d.1,
  )
]

-- A row that fits is found, if there is one.
pub find_request-none :
    (owner request : Text) (rows : Map Row) (i : Text) (r : Row)
    → find_request owner request rows ≡ none
    → get i rows ≡ some r
    → r.owner_id ≡ owner
    → r.request_id ≢ request
unfolding find_request
find_request-none owner request [] i r h g o q = ground (arith, g, get-nil {V = Row} i)
find_request-none owner request ((j, p) ∷ rest) i r h g o q =
    ground (arith, h, g, o, q, get-cons i j p rest, find_request-none owner request rest i r)

pub find_request-some :
    (owner request : Text) (rows : Map Row) (i : Text) (r : Row)
    → Distinct rows
    → find_request owner request rows ≡ some (i, r)
    → (get i rows ≡ some r) × (r.owner_id ≡ owner) × (r.request_id ≡ request)
unfolding find_request
find_request-some owner request [] i r d h = cc
find_request-some owner request ((j, p) ∷ rest) i r d h =
    ground (arith, h, d.0, get-cons i j p rest, find_request-some owner request rest i r d.1)
