-- ===== src/Session/Steps.antt =====
-- One worker's session as its dispatches see it, in any order of their calls: dispatchCommand of
-- console/internal/grpcserver/service_dispatch.go takes a slot, registers its command or gives the
-- slot back, and unregisters at the end; the connection resolves results and closes the session.
use onlyboxes_mcp.Prelude.{
  ℕ, ◌+◌, ◌<◌, ◌≡◌, ◌≢◌, ite, Bool, true, false, Option, none, some, List, [], ◌∷◌, arith,
}
use onlyboxes_mcp.Prelude.Text.{Text, text_discrete, trim_space}
use onlyboxes_mcp.Prelude.Map.{get, delete}
use onlyboxes_mcp.Errors.{Error}
use onlyboxes_mcp.Naming.{normalize_capability}
use onlyboxes_mcp.Session.Channels.{Outcome, close_result}
use onlyboxes_mcp.Session.Lifecycle.{close}
use onlyboxes_mcp.Session.Slots.{one_if}
use onlyboxes_mcp.Session.{
  Session, Pending, Result, try_acquire, release, register_pending, unregister_pending,
  resolve_pending, inflight_snapshot,
}

-- `acquired` lists the capabilities of the dispatches that hold a slot and have not registered, and of
-- the commands that were taken off the pending table and whose slot is still to be given back.
pub record System : Type 0 where
  pub session : Session
  pub acquired : List Text

abbrev pub count : Text → List Text → ℕ
count n [] = 0
count n (c ∷ cs) = one_if n c + count n cs

unfoldable pub remove_one : Text → List Text → List Text
remove_one n [] = []
remove_one n (c ∷ cs) = ite (text_discrete n c) cs (c ∷ remove_one n cs)

pub count-remove_one :
    (n m : Text) (cs : List Text)
    → 0 < count n cs
    → count m cs ≡ count m (remove_one n cs) + one_if m n
unfolding remove_one
count-remove_one n m [] h = absurd (omega arith)
count-remove_one n m (c ∷ cs) h = ground (arith, count-remove_one n m cs)

abbrev pub acquired_after : Bool → Text → List Text → List Text
acquired_after true n cs = n ∷ cs
acquired_after false n cs = cs

pub data Step (y : System) : System → Type 0 where
  acquire :
      (c : Text)
      → Step y (record {
        session = (try_acquire y.session c).0;
        acquired = acquired_after (try_acquire y.session c).1 (normalize_capability c) y.acquired;
      })
  -- A dispatch that got no command id, or could not register, gives its slot back.
  give_back :
      (n : Text)
      → 0 < count n y.acquired
      → Step y (record { session = release y.session n; acquired = remove_one n y.acquired })
  -- Command ids are new: none that is still pending is registered again.
  register :
      (id n : Text)
      → 0 < count n y.acquired
      → get (trim_space id) y.session.pending ≡ none
      → (register_pending y.session id n).1 ≡ none
      → Step y (record {
        session = (register_pending y.session id n).0;
        acquired = remove_one n y.acquired;
      })
  unregister : (id : Text) → Step y (record y { session = unregister_pending y.session id })
  resolve :
      (echo : List ℕ → Option Text) (now : ℕ) (r : Result)
      → Step y (record y { session = resolve_pending echo now y.session r })
  -- unregisterPending and resolvePending hold the lock of the table only while they take an entry off
  -- it: others may call in before its slot is given back, and again before its channel is closed.
  take_off :
      (id : Text) (p : Pending)
      → get id y.session.pending ≡ some p
      → Step y (record {
        session = record y.session { pending = delete id y.session.pending };
        acquired = p.capability ∷ y.acquired;
      })
  shut_channel :
      (k : ℕ) (outcome : Option Outcome)
      → ((j : Text) (q : Pending) → get j y.session.pending ≡ some q → q.channel ≢ k)
      → Step y (record y {
        session = record y.session { channels = close_result k outcome y.session.channels };
      })
  inspect : (c : Text) → Step y (record y { session = (inflight_snapshot y.session c).0 })
  close_session : (e : Option Error) → Step y (record y { session = close y.session e })

pub data Reach (y : System) : System → Type 0 where
  here : Reach y y
  next : {z w : System} → Reach y z → Step z w → Reach y w
