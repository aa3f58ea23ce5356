-- ===== src/Session/Channels.antt =====
-- The result channels of pending commands in session_runtime.go: each has room for one outcome, and
-- closeResult closes it once.
use onlyboxes_mcp.Prelude.{
  ℕ, zero, suc, ◌<◌, ◌≡◌, ◌≢◌, refl, Bool, true, false, Option, none, some, List, [], ◌∷◌, ◌++◌,
  length, arith, ap,
}
use onlyboxes_mcp.Prelude.Text.{Text}
use onlyboxes_mcp.Errors.{Error}

-- commandOutcome
pub record Outcome : Type 0 where
  pub payload : List ℕ
  pub message : Text
  pub err : Option Error
  pub completed_at : ℕ

-- A buffered channel of one place: what stands in it, and whether it is closed.
pub record Channel : Type 0 where
  pub buffer : Option Outcome
  pub is_closed : Bool

abbrev pub open_channel : Channel
open_channel = record { buffer = none; is_closed = false }

-- A send in a select with a default: it is dropped where the place is taken.
abbrev send : Option Outcome → Option Outcome → Option Outcome
send none buffer = buffer
send (some o) none = some o
send (some o) (some b) = some b

-- closeResult on one channel; closeOnce is whether the channel is closed.
abbrev close_channel : Option Outcome → Channel → Channel
close_channel outcome c = elim c.is_closed [
  | true ↦ c
  | false ↦ record { buffer = send outcome c.buffer; is_closed = true }
]

unfoldable pub close_result : ℕ → Option Outcome → List Channel → List Channel
close_result i outcome [] = []
close_result zero outcome (c ∷ cs) = close_channel outcome c ∷ cs
close_result (suc i) outcome (c ∷ cs) = c ∷ close_result i outcome cs

abbrev pub get_elem? : List Channel → ℕ → Option Channel
get_elem? [] i = none
get_elem? (c ∷ cs) zero = some c
get_elem? (c ∷ cs) (suc i) = get_elem? cs i

pub length-close_result :
    (i : ℕ) (o : Option Outcome) (cs : List Channel) → length (close_result i o cs) ≡ length cs
unfolding close_result
length-close_result i o [] = refl
length-close_result zero o (c ∷ cs) = refl
length-close_result (suc i) o (c ∷ cs) = omega (arith, length-close_result i o cs)

abbrev pub map_channel : Option Outcome → Option Channel → Option Channel
map_channel o none = none
map_channel o (some c) = some (close_channel o c)

pub get_elem?-close_result_self :
    (i : ℕ) (o : Option Outcome) (cs : List Channel)
    → get_elem? (close_result i o cs) i ≡ map_channel o (get_elem? cs i)
unfolding close_result
get_elem?-close_result_self i o [] = refl
get_elem?-close_result_self zero o (c ∷ cs) = refl
get_elem?-close_result_self (suc i) o (c ∷ cs) = get_elem?-close_result_self i o cs

pub get_elem?-close_result_ne :
    (i j : ℕ) (o : Option Outcome) (cs : List Channel)
    → i ≢ j
    → get_elem? (close_result i o cs) j ≡ get_elem? cs j
unfolding close_result
get_elem?-close_result_ne i j o [] h = refl
get_elem?-close_result_ne zero zero o (c ∷ cs) h = absurd (h refl)
get_elem?-close_result_ne zero (suc j) o (c ∷ cs) h = refl
get_elem?-close_result_ne (suc i) zero o (c ∷ cs) h = refl
get_elem?-close_result_ne (suc i) (suc j) o (c ∷ cs) h =
    get_elem?-close_result_ne i j o cs (λ e. h (ap suc e))

pub get_elem?-append :
    (cs : List Channel) (i : ℕ) (c : Channel)
    → i < length cs
    → get_elem? (cs ++ c ∷ []) i ≡ get_elem? cs i
get_elem?-append [] i c h = elim h [ ]
get_elem?-append (d ∷ cs) zero c h = refl
get_elem?-append (d ∷ cs) (suc i) c h = get_elem?-append cs i c (omega arith)

pub get_elem?-append_last :
    (cs : List Channel) (c : Channel) → get_elem? (cs ++ c ∷ []) (length cs) ≡ some c
get_elem?-append_last [] c = refl
get_elem?-append_last (d ∷ cs) c = get_elem?-append_last cs c

pub lt_of_get_elem? :
    (cs : List Channel) (i : ℕ) {c : Channel} → get_elem? cs i ≡ some c → i < length cs
lt_of_get_elem? [] i h = cc
lt_of_get_elem? (d ∷ cs) zero h = omega arith
lt_of_get_elem? (d ∷ cs) (suc i) h = omega (arith, lt_of_get_elem? cs i h)
