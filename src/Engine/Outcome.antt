-- ===== src/Engine/Outcome.antt =====
-- internal/state/engine.go: what the closure of an operation tells `update`, and the errors.
use sofa.Base.{ℕ, String, Bool, none, some, if◌then◌else◌}
use sofa.Base.Map.{get, put}
use sofa.State.Clock.{Time}
use sofa.State.Records.{Attempt, Ledger}

-- The errors of the package; `canceled` is that of the context, `backward` the clock's, and
-- `unreconciled` and `completed` those of a Discovery task that cannot be ended.
pub data Error : Type 0 where
  conflict not_found claimed stale limit active invalid admission_changed : Error
  canceled backward unreconciled completed unverified_revert : Error
  unwritable : Error  -- the error of json.Marshal, which has no sentinel

-- The ends of a closure: (false, nil), (true, nil) with the ledger that it wrote, and an error.
-- `R` is what the closure assigns for its caller.
pub data Outcome (R : Type 0) : Type 0 where
  unchanged : R → Outcome R
  changed : Ledger → R → Outcome R
  failed : Error → Outcome R

-- The readings of `e.now()` in one run of a closure, in their order.
abbrev pub Clock : Type 0
Clock = ℕ → Time

-- A method of the engine: it refuses its arguments, or hands a closure to `update`.
pub data Operation (R : Type 0) : Type 0 where
  refuse : Error → Operation R
  attempt : (Clock → Ledger → Outcome R) → Operation R

-- The effect on one ledger.
abbrev pub apply : {R : Type 0} → Operation R → Clock → Ledger → Outcome R
apply (Operation.refuse e) clock s = Outcome.failed e
apply (Operation.attempt f) clock s = f clock s

-- The ledger after an outcome.
abbrev pub after_outcome : {R : Type 0} → Ledger → Outcome R → Ledger
after_outcome s (Outcome.unchanged r) = s
after_outcome s (Outcome.changed t r) = t
after_outcome s (Outcome.failed e) = s

-- `if guard { return error }` in front of a closure.
unfoldable pub require : {R : Type 0} → Bool → Error → Operation R → Operation R
require ok e op = if ok then op else Operation.refuse e

-- The ends of the part of a closure that works on one attempt.
pub data Edit : Type 0 where
  keep : Edit
  write : Attempt → Edit
  reject : Error → Edit

-- `s.Attempts[id] = a`
abbrev pub put_attempt : String → Attempt → Ledger → Ledger
put_attempt id a s = record s { attempts = put id a s.attempts }

-- What an edit of the attempt at `id` does to the ledger.
abbrev pub commit_edit : String → Ledger → Edit → Outcome (Unit {0})
commit_edit id s Edit.keep = Outcome.unchanged tt
commit_edit id s (Edit.write a) = Outcome.changed (put_attempt id a s) tt
commit_edit id s (Edit.reject e) = Outcome.failed e

-- `a, ok := s.Attempts[id]; if !ok { return ErrNotFound }`, and then the edit.
unfoldable pub edit_attempt : String → (Attempt → Edit) → Ledger → Outcome (Unit {0})
edit_attempt id f s = elim (get id s.attempts) [
  | none ↦ Outcome.failed Error.not_found
  | some a ↦ commit_edit id s (f a)
]
