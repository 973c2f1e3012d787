-- ===== src/Engine/Work.antt =====
-- internal/state/engine.go: Charge, Advance, SaveCheckpoint, DiscardUnavailableCheckpoint.
use sofa.Base.{String, Bool, not, none, some, ◌&&◌, ◌||◌, ◌==◌, option_eq, if◌then◌else◌, is_nil}
use sofa.Base.Int.{int_eq, add_int64}
use sofa.State.Clock.{is_zero, after}
use sofa.State.Records.{Phase, Counters, Fence, Checkpoint, Attempt}
use sofa.State.Same.{phase_eq, owner_eq, checkpoint_eq}
use sofa.State.Valid.{counters_valid, permits, checkpoint_valid}
use sofa.Engine.Outcome.{Error, Operation, Clock, Edit, edit_attempt, require}
use sofa.Engine.Ownership.{is_settled, mutate_owned}

-- The counters after a charge, in int64.
unfoldable pub add_counters : Counters → Counters → Counters
add_counters c delta = record {
  model_calls = add_int64 c.model_calls delta.model_calls;
  repairs = add_int64 c.repairs delta.repairs;
  infrastructure_retries = add_int64 c.infrastructure_retries delta.infrastructure_retries;
  runtime_seconds = add_int64 c.runtime_seconds delta.runtime_seconds;
}

-- The mutation of `Charge`.
unfoldable pub charge_edit : Counters → Attempt → Edit
charge_edit delta a =
    let next = add_counters a.counts delta in
    if is_settled a.phase
    then Edit.reject Error.claimed
    else if not (permits a.limits next)
    then Edit.reject Error.limit
    else Edit.write (record a { counts = next })

-- `Charge`
unfoldable pub charge : Fence → Counters → Operation (Unit {0})
charge f delta = require (counters_valid delta) Error.invalid (mutate_owned f (charge_edit delta))

-- The mutation of `Advance`.
unfoldable pub advance_edit : Phase → Attempt → Edit
advance_edit phase a =
    if a.phase == phase
    then Edit.keep
    else if not (a.phase == Phase.executing) || not (phase == Phase.validating)
    then Edit.reject Error.invalid
    else Edit.write (record a { phase = phase })

-- `Advance`
unfoldable pub advance : Fence → Phase → Operation (Unit {0})
advance f phase = mutate_owned f (advance_edit phase)

-- The mutation of `SaveCheckpoint`.
unfoldable pub save_checkpoint_edit : Checkpoint → Attempt → Edit
save_checkpoint_edit checkpoint a =
    if not (checkpoint.phase == a.phase)
    then Edit.reject Error.invalid
    else Edit.write (record a { checkpoint = some checkpoint })

-- The provenance that `SaveCheckpoint` asks for; it reads the clock twice.
unfoldable pub checkpoint_provenance : Clock → Fence → Checkpoint → Bool
checkpoint_provenance clock f c =
    checkpoint_valid c
    && c.producer == f.owner
    && (c.generation == f.generation)
    && after c.expires_at (clock 0)
    && not (after c.accepted_at (clock 1))

-- `SaveCheckpoint`
unfoldable pub save_checkpoint : Clock → Fence → Checkpoint → Operation (Unit {0})
save_checkpoint clock f c =
    require (checkpoint_provenance clock f c) Error.invalid
      (mutate_owned f (save_checkpoint_edit c))

-- The body of `DiscardUnavailableCheckpoint`, on the attempt found.
unfoldable pub discard_edit : Checkpoint → Clock → Attempt → Edit
discard_edit expected clock a =
    if not (is_zero a.superseded_at)
    then Edit.reject Error.stale
    else if not (a.phase == Phase.pending) || not (is_nil a.owner) || not (is_nil a.publication)
    then Edit.reject Error.claimed
    else if not (a.checkpoint == some expected)
    then Edit.reject Error.conflict
    else Edit.write (record a { checkpoint = none; updated_at = clock 0 })

-- `DiscardUnavailableCheckpoint`
unfoldable pub discard_unavailable_checkpoint : String → Checkpoint → Operation (Unit {0})
discard_unavailable_checkpoint id expected =
    require (checkpoint_valid expected) Error.invalid
      (Operation.attempt (λ clock. edit_attempt id (discard_edit expected clock)))
