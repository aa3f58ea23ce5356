-- ===== src/Routes/NodeIndex.antt =====
-- terminalNodeToSessionIDIndex of console/internal/grpcserver: for each node the set of the sessions
-- routed to it, and the two edits that terminal_session_routes.go repeats.
use onlyboxes_mcp.Prelude.{
  ◌≡◌, refl, ◌≢◌, ite, Option, none, some, [], ◌∷◌, arith, is_empty, if◌then◌else◌, inl, inr,
  Option-cases, true,
}
use onlyboxes_mcp.Prelude.Text.{Text, text_discrete}
use onlyboxes_mcp.Prelude.Map.{Map, get-nil, get, put, delete, get-put, get-delete}

abbrev pub Index : Type 0
Index = Map (Map (Unit {0}))

abbrev or_new : Option (Map (Unit {0})) → Map (Unit {0})
or_new none = []
or_new (some sessions) = sessions

-- if index == nil { index = make(...) }; index[session] = struct{}{}
unfoldable pub add_to_index : Text → Text → Index → Index
add_to_index session node index = put node (put session tt (or_new (get node index))) index

abbrev drop_found : Text → Text → Option (Map (Unit {0})) → Index → Index
drop_found session node none index = index
drop_found session node (some sessions) index =
    let rest = delete session sessions in
    if is_empty rest then delete node index else put node rest index

-- if index != nil { delete(index, session); if len(index) == 0 { delete(outer, node) } }
unfoldable pub drop_from_index : Text → Text → Index → Index
drop_from_index session node index = drop_found session node (get node index) index

-- Whether the index lists a session under a node.
abbrev pub member : Text → Option (Map (Unit {0})) → Option (Unit {0})
member session none = none
member session (some sessions) = get session sessions

abbrev pub listed : Text → Text → Index → Option (Unit {0})
listed node session index = member session (get node index)

pub listed-add_to_index :
    (s n m t : Text) (index : Index)
    → listed m t (add_to_index s n index)
      ≡ ite
          (text_discrete m n)
          (ite (text_discrete t s) (some tt) (listed m t index))
          (listed m t index)
unfolding add_to_index
listed-add_to_index s n m t index = ground (
  arith,
  get-put n m (put s tt (or_new (get n index))) index,
  get-put s t tt (or_new (get n index)),
  get-nil {V = Unit {0}} t,
)

empty_get :
    (sessions : Map (Unit {0})) (t : Text) → is_empty sessions ≡ true → get t sessions ≡ none
unfolding get
empty_get [] t h = refl
empty_get (x ∷ xs) t h = cc

pub listed-drop_from_index :
    (s n m t : Text) (index : Index)
    → listed m t (drop_from_index s n index)
      ≡ ite (text_discrete m n) (ite (text_discrete t s) none (listed m t index)) (listed m t index)
unfolding drop_from_index
listed-drop_from_index s n m t index = elim (Option-cases (get n index)) [
  | inl e ↦ ground arith
  | inr (sessions, e) ↦ ground (
    arith,
    e,
    get-delete n m index,
    get-put n m (delete s sessions) index,
    get-delete s t sessions,
    empty_get (delete s sessions) t,
  )
]

-- No node has an empty set: what the deletion of emptied sets is for.
abbrev pub NoEmpty : Index → Type 0
NoEmpty index = (n : Text) → get n index ≢ some []

pub add_to_index-NoEmpty :
    (s n : Text) (index : Index) → NoEmpty index → NoEmpty (add_to_index s n index)
unfolding add_to_index put
add_to_index-NoEmpty s n index h m e =
    ground (arith, h m, get-put n m (put s tt (or_new (get n index))) index)

pub drop_from_index-NoEmpty :
    (s n : Text) (index : Index) → NoEmpty index → NoEmpty (drop_from_index s n index)
unfolding drop_from_index
drop_from_index-NoEmpty s n index h m e = elim (Option-cases (get n index)) [
  | inl p ↦ ground (arith, h m)
  | inr (sessions, p) ↦
      ground (arith, h m, p, get-put n m (delete s sessions) index, get-delete n m index)
]
