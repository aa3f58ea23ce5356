-- ===== src/Terminal/Busy.antt =====
-- worker/worker-docker/internal/runner/terminal_exec.go: one call at a time uses a session, and none is
-- left busy.
use onlyboxes_mcp.Prelude.{
  ℕ, ◌≡◌, ◌≢◌, refl, sym, ap, subst, ◌∙◌, Bool, true, false, Option, none, some, List, [], ◌∷◌,
  arith, is_empty, inl, inr, Bool-cases, Option-cases, ◌==◌,
}
use onlyboxes_mcp.Prelude.Text.{Text, text, trim_space, trim_space_idem}
use onlyboxes_mcp.Prelude.Map.{
  Map, get, get-cons, delete, get-put_self, get-put_ne, get-delete_self, get-delete_ne,
}
use onlyboxes_mcp.Terminal.Execute.{
  Request, Names, Begun, refused, begun, new_session, create_session, take_lease, take_found,
  take_leased, begin, CommandResult, report, finish, Docker, run, go_on, create_and_start_container,
  Answer, ran, error, execute,
}
use onlyboxes_mcp.Terminal.{
  failed, add_duration, Manager, TerminalSession, ExecError, terminal_error, context_done,
  force_remove_container, mark_session_idle, idle_found, drop_session, destroy_session,
  destroy_found, is_no_such_container, is_kept, split_expired, remove_all, cleanup_expired_sessions,
}

abbrev pub NotBusy : Option TerminalSession → Type 0
NotBusy none = Unit {0}
NotBusy (some t) = t.busy ≡ false

abbrev pub IsId : Text → Type 0
IsId id = (trim_space id ≡ id) × (is_empty id ≡ false)

force_remove_sessions :
    (name : Text) (m : Manager) → (force_remove_container name m).sessions ≡ m.sessions
unfolding force_remove_container
force_remove_sessions name m = ground arith

idle_found-NotBusy :
    (id : Text) (m : Manager) (o : Option TerminalSession)
    → get id m.sessions ≡ o
    → NotBusy (get id (idle_found id m o).0.sessions)
idle_found-NotBusy id m none h = rw h tt
idle_found-NotBusy id m (some t) h =
    rw (get-put_self id (record t { busy = false }) m.sessions) refl

idle-NotBusy :
    (id : Text) (m : Manager) → IsId id → NotBusy (get id (mark_session_idle id m).0.sessions)
unfolding mark_session_idle
idle-NotBusy id m n = rw (n.0, n.1) (idle_found-NotBusy id m _ refl)

drop-NotBusy : (id : Text) (m : Manager) → IsId id → NotBusy (get id (drop_session id m).sessions)
unfolding drop_session
drop-NotBusy id m n = rw (n.0, n.1) (rw (get-delete_self id m.sessions) tt)

destroy_found-NotBusy :
    (id : Text) (m : Manager) (o : Option TerminalSession)
    → get id m.sessions ≡ o
    → NotBusy (get id (destroy_found id m o).sessions)
destroy_found-NotBusy id m none h = rw h tt
destroy_found-NotBusy id m (some t) h =
    let gone = record m { sessions = delete id m.sessions } in
    subst (λ s. NotBusy (get id s)) (sym (force_remove_sessions t.container_name gone))
      (rw (get-delete_self id m.sessions) tt)

destroy-NotBusy :
    (id : Text) (m : Manager) → IsId id → NotBusy (get id (destroy_session id m).sessions)
unfolding destroy_session
destroy-NotBusy id m n = rw (n.0, n.1) (destroy_found-NotBusy id m _ refl)

report_state :
    (id : Text) (created : Bool) (x : CommandResult) (q : Manager × Option ℕ)
    → (report id created x q).0 ≡ q.0
report_state id created x (m, none) = refl
report_state id created x (m, some lease) = refl

finish-NotBusy :
    (id : Text) (created : Bool) (x : CommandResult) (e : Option ExecError) (m : Manager)
    → IsId id
    → NotBusy (get id (finish id created x e m).0.sessions)
unfolding finish
finish-NotBusy id created x (some context_done) m n = destroy-NotBusy id m n
finish-NotBusy id created x (some _) m n = idle-NotBusy id m n
finish-NotBusy id created x none m n = elim (Bool-cases (is_no_such_container x.stderr)) [
  | inl e ↦ rw e (destroy-NotBusy id m n)
  | inr e ↦ rw e (
      subst (λ s. NotBusy (get id s.sessions))
        (sym (report_state id created x (mark_session_idle id m))) (idle-NotBusy id m n))
]

run-NotBusy :
    (meanwhile : Manager → Manager) (d : Docker) (id : Text) (created : Bool)
    (q : Manager × Option ExecError)
    → IsId id
    → NotBusy (get id (run meanwhile d id created q).0.sessions)
run-NotBusy meanwhile d id created (m, none) n =
    finish-NotBusy id created d.exec d.exec.err (meanwhile m) n
run-NotBusy meanwhile d id created (m, some e) n = drop-NotBusy id (meanwhile m) n

-- A call of Execute that has taken a session leaves it idle, or removed, whatever docker answers to
-- create, start and exec and whatever other calls do while it runs. The id of the session is not
-- empty and has no white space around it.
pub execute-NotBusy :
    (meanwhile : Manager → Manager) (d : Docker) (m m' : Manager) (r : Request) (names : Names)
    (now : ℕ) (id container : Text) (created : Bool)
    → begin m r names now ≡ (m', begun id container created)
    → IsId id
    → NotBusy (get id (execute meanwhile d m r names now).0.sessions)
unfolding execute
execute-NotBusy meanwhile d m m' r names now id container true h n =
    rw h (run-NotBusy meanwhile d id true _ n)
execute-NotBusy meanwhile d m m' r names now id container false h n =
    rw h (run-NotBusy meanwhile d id false (m', none) n)

split_kept :
    (now : ℕ) (id : Text) (t : TerminalSession) (sessions : Map TerminalSession)
    → get id sessions ≡ some t
    → is_kept now t ≡ true
    → get id (split_expired now sessions).0 ≡ some t
unfolding split_expired
split_kept now id t [] h k = h
split_kept now id t ((j, u) ∷ rest) h k = ground (
  arith,
  h,
  k,
  get-cons id j u rest,
  get-cons id j u (split_expired now rest).0,
  split_kept now id t rest,
)

remove_all_sessions : (names : List Text) (m : Manager) → (remove_all names m).sessions ≡ m.sessions
unfolding remove_all
remove_all_sessions [] m = refl
remove_all_sessions (n ∷ ns) m =
    remove_all_sessions ns (force_remove_container n m) ∙ force_remove_sessions n m

abbrev busy_error : ExecError
busy_error = terminal_error (text "session_busy") (text "session is busy")

-- The call is refused and changes nothing.
abbrev pub Refuses : Manager → Manager × Begun → Type 0
Refuses m (m', refused e) = m' ≡ m
Refuses m (m', begun id container created) = ⊥

module _ (m : Manager) (id : Text) (t : TerminalSession) (there : get id m.sessions ≡ some t) where
  take_leased-Refuses :
      (r : Request) (names : Names) (now : ℕ) (o : Option ℕ)
      → t.busy ≡ true
      → trim_space r.session_id ≡ id
      → is_empty id ≡ false
      → Refuses m (take_leased m r names now o)
  take_leased-Refuses r names now none b e n = refl
  take_leased-Refuses r names now (some d) b e n = rw (e, n, there, b) refl

  begin-Refuses :
      (r : Request) (names : Names) (now : ℕ)
      → t.busy ≡ true
      → trim_space r.session_id ≡ id
      → is_empty id ≡ false
      → Refuses m (begin m r names now)
  unfolding begin
  begin-Refuses r names now b e n = elim (Bool-cases (is_empty (trim_space r.command))) [
    | inl x ↦ rw x refl
    | inr x ↦ rw x (take_leased-Refuses r names now _ b e n)
  ]

  -- The session stays as it is, and another one was taken, or none.
  Stays : Manager × Begun → Type 0
  Stays (m', refused e) = get id m'.sessions ≡ some t
  Stays (m', begun j container created) = (get id m'.sessions ≡ some t) × (id ≢ trim_space j)

  create-Stays :
      (j : Text) (lease : ℕ) (container : Option Text)
      → id ≢ j
      → id ≢ trim_space j
      → Stays (create_session m j lease container)
  unfolding Stays
  create-Stays j lease none ne nt = there
  create-Stays j lease (some c) ne nt =
      (get-put_ne j id (new_session c lease) m.sessions ne ∙ there, nt)

  take_found-Stays :
      (r : Request) (j : Text) (lease : ℕ) (container : Option Text) (o : Option TerminalSession)
      → id ≢ j
      → id ≢ trim_space j
      → Stays (take_found m r j lease container o)
  unfolding Stays
  take_found-Stays r j lease container none ne nt = elim (Bool-cases r.create_if_missing) [
    | inl x ↦ rw x (create-Stays j lease container ne nt)
    | inr x ↦ rw x there
  ]
  take_found-Stays r j lease container (some u) ne nt = elim (Bool-cases u.busy) [
    | inl x ↦ rw x there
    | inr x ↦ rw x (get-put_ne j id (take_lease lease u) m.sessions ne ∙ there, nt)
  ]

  take_leased-Stays :
      (r : Request) (names : Names) (now : ℕ) (o : Option ℕ)
      → id ≢ trim_space r.session_id
      → id ≢ names.uuid
      → id ≢ trim_space names.uuid
      → Stays (take_leased m r names now o)
  unfolding Stays
  take_leased-Stays r names now none ne nu nt = there
  take_leased-Stays r names now (some d) ne nu nt =
      elim (Bool-cases (is_empty (trim_space r.session_id))) [
        | inl x ↦ rw x (create-Stays names.uuid (add_duration now d) names.container nu nt)
        | inr x ↦ rw x (
            take_found-Stays r (trim_space r.session_id) (add_duration now d) names.container _ ne
              (λ e. ne (e ∙ trim_space_idem r.session_id)))
      ]

  begin-Stays :
      (r : Request) (names : Names) (now : ℕ)
      → id ≢ trim_space r.session_id
      → id ≢ names.uuid
      → id ≢ trim_space names.uuid
      → Stays (begin m r names now)
  unfolding begin Stays
  begin-Stays r names now ne nu nt = elim (Bool-cases (is_empty (trim_space r.command))) [
    | inl x ↦ rw x there
    | inr x ↦ rw x (take_leased-Stays r names now _ ne nu nt)
  ]

-- What a call does to its own session, `j`, leaves another one as it is.
module _ (id j : Text) (t : TerminalSession) (apart : id ≢ trim_space j) where
  idle_found-elsewhere :
      (m : Manager) (o : Option TerminalSession)
      → get id (idle_found (trim_space j) m o).0.sessions ≡ get id m.sessions
  idle_found-elsewhere m none = refl
  idle_found-elsewhere m (some u) =
      get-put_ne (trim_space j) id (record u { busy = false }) m.sessions apart

  idle-elsewhere : (m : Manager) → get id (mark_session_idle j m).0.sessions ≡ get id m.sessions
  unfolding mark_session_idle
  idle-elsewhere m = elim (Bool-cases (is_empty (trim_space j))) [
    | inl e ↦ rw e refl
    | inr e ↦ rw e (idle_found-elsewhere m (get (trim_space j) m.sessions))
  ]

  drop-elsewhere : (m : Manager) → get id (drop_session j m).sessions ≡ get id m.sessions
  unfolding drop_session
  drop-elsewhere m = elim (Bool-cases (is_empty (trim_space j))) [
    | inl e ↦ rw e refl
    | inr e ↦ rw e (get-delete_ne (trim_space j) id m.sessions apart)
  ]

  destroy_found-elsewhere :
      (m : Manager) (o : Option TerminalSession)
      → get id (destroy_found (trim_space j) m o).sessions ≡ get id m.sessions
  destroy_found-elsewhere m none = refl
  destroy_found-elsewhere m (some u) =
      ap (get id) (
        force_remove_sessions u.container_name
          (record m { sessions = delete (trim_space j) m.sessions }))
      ∙ get-delete_ne (trim_space j) id m.sessions apart

  destroy-elsewhere : (m : Manager) → get id (destroy_session j m).sessions ≡ get id m.sessions
  unfolding destroy_session
  destroy-elsewhere m = elim (Bool-cases (is_empty (trim_space j))) [
    | inl e ↦ rw e refl
    | inr e ↦ rw e (destroy_found-elsewhere m (get (trim_space j) m.sessions))
  ]

  finish-elsewhere :
      (created : Bool) (x : CommandResult) (e : Option ExecError) (m : Manager)
      → get id (finish j created x e m).0.sessions ≡ get id m.sessions
  unfolding finish
  finish-elsewhere created x (some context_done) m = destroy-elsewhere m
  finish-elsewhere created x (some (terminal_error c n)) m = idle-elsewhere m
  finish-elsewhere created x (some (failed n)) m = idle-elsewhere m
  finish-elsewhere created x none m = elim (Bool-cases (is_no_such_container x.stderr)) [
    | inl e ↦ rw e (destroy-elsewhere m)
    | inr e ↦ rw e (
        ap (λ s. get id s.sessions) (report_state j created x (mark_session_idle j m))
        ∙ idle-elsewhere m)
  ]

create_start_sessions :
    (container : Text) (create start : CommandResult) (m : Manager)
    → (create_and_start_container container create start m).0.sessions ≡ m.sessions
unfolding create_and_start_container
create_start_sessions container create start m = elim (Option-cases create.err) [
  | inr c ↦ rw (c.1) refl
  | inl c ↦ rw c (elim (Bool-cases (create.exit_code == 0)) [
    | inr x ↦ rw x refl
    | inl x ↦ rw x (elim (Option-cases start.err) [
      | inr s ↦ rw (s.1) (force_remove_sessions container m)
      | inl s ↦ rw s (elim (Bool-cases (start.exit_code == 0)) [
        | inr y ↦ rw y (force_remove_sessions container m)
        | inl y ↦ rw y refl
      ])
    ])
  ])
]

-- Other calls leave the session as it is.
abbrev pub Spares : Text → TerminalSession → (Manager → Manager) → Type 0
Spares id t meanwhile =
    (m : Manager) → get id m.sessions ≡ some t → get id (meanwhile m).sessions ≡ some t

module _ (id : Text) (t : TerminalSession) (meanwhile : Manager → Manager) (d : Docker)
    (spares : Spares id t meanwhile) where
  run-Stays :
      (j : Text) (created : Bool) (q : Manager × Option ExecError)
      → id ≢ trim_space j
      → get id q.0.sessions ≡ some t
      → get id (run meanwhile d j created q).0.sessions ≡ some t
  run-Stays j created (m, some e) ne h = drop-elsewhere id j t ne (meanwhile m) ∙ spares m h
  run-Stays j created (m, none) ne h =
      finish-elsewhere id j t ne created d.exec d.exec.err (meanwhile m) ∙ spares m h

  go_on-Stays :
      (m : Manager) (there : get id m.sessions ≡ some t) (b : Manager × Begun)
      → Stays m id t there b
      → get id (go_on meanwhile d b).0.sessions ≡ some t
  unfolding Stays
  go_on-Stays m there (m', refused e) h = h
  go_on-Stays m there (m', begun j container true) h =
      run-Stays j true (create_and_start_container container d.create d.start m') h.1
        (ap (get id) (create_start_sessions container d.create d.start m') ∙ h.0)
  go_on-Stays m there (m', begun j container false) h = run-Stays j false (m', none) h.1 h.0

-- The call gives an error and changes nothing.
abbrev pub Declines : Manager → Manager × Answer → Type 0
Declines m (m', error e) = m' ≡ m
Declines m (m', ran x) = ⊥

go_on-Declines :
    (meanwhile : Manager → Manager) (d : Docker) (m : Manager) (b : Manager × Begun)
    → Refuses m b
    → Declines m (go_on meanwhile d b)
go_on-Declines meanwhile d m (m', refused e) h = h
go_on-Declines meanwhile d m (m', begun j c b) h = absurd h

-- While a call uses a session, another call of Execute for that session is refused and changes
-- nothing; one for another session, from its start to its end, whatever docker answers, leaves the
-- busy one as it is, where the calls that go on while its commands run do; and so does the janitor,
-- whatever the time. The session's id is not empty, and the random ids of new sessions are other ones.
pub busy_excludes :
    (m : Manager) (id : Text) (t : TerminalSession) (meanwhile : Manager → Manager)
    → get id m.sessions ≡ some t
    → t.busy ≡ true
    → is_empty id ≡ false
    → Spares id t meanwhile
    → ((d : Docker) (r : Request) (names : Names) (now : ℕ)
        → trim_space r.session_id ≡ id
        → Declines m (execute meanwhile d m r names now))
      × ((d : Docker) (r : Request) (names : Names) (now : ℕ)
          → id ≢ trim_space r.session_id
          → id ≢ names.uuid
          → id ≢ trim_space names.uuid
          → get id (execute meanwhile d m r names now).0.sessions ≡ some t)
      × ((now : ℕ) → get id (cleanup_expired_sessions now m).sessions ≡ some t)
unfolding cleanup_expired_sessions execute
busy_excludes m id t meanwhile there busy n spares = (
  λ d r names now e.
      go_on-Declines meanwhile d m (begin m r names now)
        (begin-Refuses m id t there r names now busy e n),
  λ d r names now ne nu nt.
      go_on-Stays id t meanwhile d spares m there (begin m r names now)
        (begin-Stays m id t there r names now ne nu nt),
  λ now.
      ap (get id) (
        remove_all_sessions (split_expired now m.sessions).1
          (record m { sessions = (split_expired now m.sessions).0 }))
      ∙ split_kept now id t m.sessions there (rw busy refl),
)
