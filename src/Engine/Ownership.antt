-- ===== src/Engine/Ownership.antt =====
-- internal/state/engine.go: MarkDispatched, Claim, owned, AssertOwner, mutateOwned.
use sofa.Base.{
  String, Bool, not, Option, none, some, ◌||◌, ◌==◌, string_eq, option_eq, if◌then◌else◌, is_nil,
}
use sofa.Base.Int.{int_eq, next_int64}
use sofa.Base.Map.{get}
use sofa.State.Clock.{Time, is_zero, after}
use sofa.State.Records.{Phase, Owner, Fence, Checkpoint, Attempt, Ledger}
use sofa.State.Same.{phase_eq, owner_eq, attempt_eq}
use sofa.State.Valid.{valid_owner}
use sofa.Engine.Outcome.{
  Error, Outcome, Operation, Clock, Edit, edit_attempt, commit_edit, put_attempt, require,
}

-- The body of `MarkDispatched`, on the attempt found.
unfoldable pub mark_dispatched_edit : Clock → Attempt → Edit
mark_dispatched_edit clock a =
    if not (is_zero a.superseded_at)
    then Edit.reject Error.stale
    else if not (a.dispatch == "pending")
    then Edit.keep
    else Edit.write (record a { dispatch = "sent"; updated_at = clock 0 })

-- `MarkDispatched`
unfoldable pub mark_dispatched : String → Operation (Unit {0})
mark_dispatched id = Operation.attempt (λ clock. edit_attempt id (mark_dispatched_edit clock))

-- `if a.Checkpoint != nil && !a.Checkpoint.ExpiresAt.After(now) { a.Checkpoint = nil }`
unfoldable pub unexpired : Time → Option Checkpoint → Option Checkpoint
unexpired now none = none
unexpired now (some c) = if after c.expires_at now then some c else none

-- The attempt that `Claim` writes.
unfoldable pub claimed_by : Clock → Owner → Attempt → Attempt
claimed_by clock owner a = record a {
  generation = next_int64 a.generation;
  owner = some owner;
  phase = Phase.executing;
  dispatch = "claimed";
  updated_at = clock 0;
  checkpoint = unexpired (clock 1) a.checkpoint;
}

-- The closure of `Claim`, on the attempt found.
unfoldable pub claim_found : Clock → String → Owner → Ledger → Attempt → Outcome Fence
claim_found clock id owner s a =
    if not (is_nil a.owner) || not (a.phase == Phase.pending)
    then Outcome.failed Error.claimed
    else Outcome.changed (put_attempt id (claimed_by clock owner a) s)
        (record { attempt_id = id; generation = next_int64 a.generation; owner = owner })

-- The closure of `Claim`.
unfoldable pub claim_step : String → Owner → Clock → Ledger → Outcome Fence
unfolding claim_found
claim_step id owner clock s = elim (get id s.attempts) [
  | none ↦ Outcome.failed Error.not_found
  | some a ↦ claim_found clock id owner s a
]

-- `Claim`
unfoldable pub claim : String → Owner → Operation Fence
unfolding claim_step
claim id owner = require (valid_owner owner) Error.invalid (Operation.attempt (claim_step id owner))

-- An attempt, or the error that keeps it from the holder of a fence.
pub data Owned : Type 0 where
  held : Attempt → Owned
  lost : Error → Owned

-- `owned`, on the attempt found.
unfoldable pub check_owner : Fence → Attempt → Owned
check_owner f a =
    if not (is_zero a.superseded_at)
    then Owned.lost Error.stale
    else if not (a.owner == some f.owner) || not (a.generation == f.generation)
    then Owned.lost Error.stale
    else Owned.held a

-- `owned`
unfoldable pub owned : Ledger → Fence → Owned
owned s f = elim (get f.attempt_id s.attempts) [
  | none ↦ Owned.lost Error.not_found
  | some a ↦ check_owner f a
]

-- `a.Phase == Draft || a.Phase == Blocked || a.Phase == Deferred`
unfoldable pub is_settled : Phase → Bool
is_settled p = p == Phase.draft || p == Phase.blocked || p == Phase.deferred

assert_held : Owned → Option Error
assert_held (Owned.lost e) = some e
assert_held (Owned.held a) = if is_settled a.phase then some Error.claimed else none

-- `AssertOwner`, on the ledger that it loads.
unfoldable pub assert_owner : Ledger → Fence → Option Error
unfolding assert_held
assert_owner s f = assert_held (owned s f)

-- The attempt that `mutateOwned` writes, unless the mutation left it alone.
unfoldable pub stamp : Clock → Attempt → Edit → Edit
stamp clock a Edit.keep = Edit.keep
stamp clock a (Edit.write b) =
    if a == b then Edit.keep else Edit.write (record b { updated_at = clock 0 })
stamp clock a (Edit.reject e) = Edit.reject e

mutate_held : Clock → (Attempt → Edit) → Ledger → Owned → Outcome (Unit {0})
mutate_held clock mutation s (Owned.lost e) = Outcome.failed e
mutate_held clock mutation s (Owned.held a) = commit_edit a.id s (stamp clock a (mutation a))

-- `mutateOwned`
unfoldable pub mutate_owned : Fence → (Attempt → Edit) → Operation (Unit {0})
unfolding mutate_held
mutate_owned f mutation = Operation.attempt (λ clock s. mutate_held clock mutation s (owned s f))
