-- ===== src/Tasks/Creation.antt =====
-- SubmitTask of console/internal/grpcserver/task.go: the creation of a task, which changes no other
-- task, and the request ids, of which each owner has every one at most once.
use onlyboxes_mcp.Prelude.{
  ◌≡◌, refl, sym, ap, subst, ◌∙◌, Bool, true, false, ◌&&◌, not, Option, none, some, arith, is_empty,
  is_some,
}
use onlyboxes_mcp.Prelude.Text.{Text, text_discrete}
use onlyboxes_mcp.Prelude.Map.{Map, get, put, get-put, get-put_self, get-put_ne}
use onlyboxes_mcp.Tasks.Table.{Row, insert_task, insert_checked, inserted, find_request}
use onlyboxes_mcp.Tasks.Rows.{find_request-none}
use onlyboxes_mcp.Tasks.Settled.{Follows, Later}
use onlyboxes_mcp.Tasks.{Tasks}

-- No two rows of an owner have the same request id, unless it is empty.
abbrev pub Unique : Map Row → Type 0
Unique rows =
    (i j : Text) (r q : Row)
    → get i rows ≡ some r
    → get j rows ≡ some q
    → r.owner_id ≡ q.owner_id
    → r.request_id ≡ q.request_id
    → is_empty r.request_id ≡ false
    → i ≡ j

Origin : Option Row → Row → Type 0
Origin p q = (r : Row) × (p ≡ some r) × (q.owner_id ≡ r.owner_id) × (q.request_id ≡ r.request_id)

origin : (p : Option Row) (q : Row) → Follows p (some q) → Origin p q
unfolding Origin
origin none q h = cc
origin (some r) q h = (r, refl, h.0.0, h.0.1)

Origin-of :
    (s t : Tasks) (j : Text) (q : Row)
    → Later j s t
    → get j t.rows ≡ some q
    → Origin (get j s.rows) q
Origin-of s t j q h e = origin (get j s.rows) q (subst (Follows (get j s.rows)) e h.row)

-- Operations that create no task keep this.
pub Unique-Later : (s t : Tasks) → ((j : Text) → Later j s t) → Unique s.rows → Unique t.rows
unfolding Origin
Unique-Later s t h u = λ i j r q hr hq o e n.
    let a = Origin-of s t i r (h i) hr in
    let b = Origin-of s t j q (h j) hq in
    u i j a.0 b.0 a.1 b.1 (sym a.2 ∙ (o ∙ b.2)) (sym a.3 ∙ (e ∙ b.3)) (ap is_empty (sym a.3) ∙ n)

pub not_some : (o : Option Row) → is_some o ≡ false → o ≡ none
not_some none h = refl
not_some (some r) h = cc

pub insert_checked-Inserted :
    (id : Text) (r : Row) (rows : Map Row) (i : Bool) (q : Bool) (kept : Map Row)
    → insert_checked id r rows i q ≡ inserted kept
    → (i ≡ false) × (q ≡ false) × (kept ≡ put id r rows)
insert_checked-Inserted id r rows true q kept h = cc
insert_checked-Inserted id r rows false true kept h = cc
insert_checked-Inserted id r rows false false kept h = (refl, refl, cc)

taken :
    (id i : Text) (r q : Row) (rows : Map Row)
    → get id rows ≡ none
    → find_request r.owner_id r.request_id rows ≡ none
    → get i (put id r rows) ≡ some q
    → q.owner_id ≡ r.owner_id
    → q.request_id ≡ r.request_id
    → i ≡ id
taken id i r q rows free none_found h o e = elim (text_discrete i id) [
  | yes x ↦ x
  | no x ↦ absurd (
      find_request-none r.owner_id r.request_id rows i q none_found
        (ground (arith, h, x, get-put id i r rows)) o e)
]

unclaimed_request :
    (e : Bool) (o : Option (Text × Row)) → e ≡ false → (not e && is_some o) ≡ false → o ≡ none
unclaimed_request e none h k = refl
unclaimed_request e (some r) h k = ground (arith, h, k)

-- A row with the request of the row that is put is that row.
own_request :
    (id i : Text) (r p q : Row) (rows : Map Row)
    → get id rows ≡ none
    → (not (is_empty r.request_id) && is_some (find_request r.owner_id r.request_id rows)) ≡ false
    → some r ≡ some p
    → get i (put id r rows) ≡ some q
    → q.owner_id ≡ p.owner_id
    → q.request_id ≡ p.request_id
    → is_empty p.request_id ≡ false
    → i ≡ id
own_request id i r p q rows free unclaimed same h o e n =
    let same_row : r ≡ p = cc same in
    taken id i r q rows free
      (unclaimed_request (is_empty r.request_id) _ (ap (λ x. is_empty x.request_id) same_row ∙ n)
        unclaimed)
      h (o ∙ ap (λ x. x.owner_id) (sym same_row)) (e ∙ ap (λ x. x.request_id) (sym same_row))

put-Unique :
    (id : Text) (r : Row) (rows : Map Row)
    → get id rows ≡ none
    → (not (is_empty r.request_id) && is_some (find_request r.owner_id r.request_id rows)) ≡ false
    → Unique rows
    → Unique (put id r rows)
put-Unique id r rows free unclaimed u = λ i j p q hi hj o e n. elim (text_discrete i id) [
  | yes x ↦
      x
      ∙ sym (
          own_request id j r p q rows free unclaimed
            (sym (get-put_self id r rows) ∙ (ap (λ k. get k (put id r rows)) (sym x) ∙ hi)) hj
            (sym o) (sym e) n)
  | no x ↦ elim (text_discrete j id) [
    | yes y ↦
        own_request id i r q p rows free unclaimed
          (sym (get-put_self id r rows) ∙ (ap (λ k. get k (put id r rows)) (sym y) ∙ hj)) hi o e
          (ap is_empty (sym e) ∙ n)
        ∙ sym y
    | no y ↦
        u i j p q (sym (get-put_ne id i r rows x) ∙ hi) (sym (get-put_ne id j r rows y) ∙ hj) o e n
  ]
]

pub insert_task-Unique :
    (id : Text) (r : Row) (rows kept : Map Row)
    → insert_task id r rows ≡ inserted kept
    → Unique rows
    → Unique kept
unfolding insert_task
insert_task-Unique id r rows kept h u =
    let c = insert_checked-Inserted id r rows _ _ kept h in
    subst Unique (sym c.2) (put-Unique id r rows (not_some (get id rows) c.0) c.1 u)
