-- ===== src/Engine/Recovery.antt =====
-- internal/state/engine.go: RunProof, Recover, StopProvenOwner, StopRevokedPending, Observe.
use sofa.Base.{
  ◌*◌, String, Bool, false, not, Option, none, some, List, [], ◌∷◌, ◌++◌, ◌&&◌, ◌||◌, ◌==◌,
  string_eq, option_eq, if◌then◌else◌, is_nil, any, ltb,
}
use sofa.Base.Int.{int_eq, leb_ℤ, next_int64}
use sofa.State.Clock.{Time, is_zero, after, minute, sub_time}
use sofa.State.Records.{Phase, Owner, Attempt, Observation, Ledger}
use sofa.State.Same.{phase_eq, owner_eq, attempt_eq, observation_eq}
use sofa.State.Validate.{AttemptKey, attempt_id, validate}
use sofa.Engine.Outcome.{Error, Outcome, Operation, Clock, Edit, edit_attempt, require}
use sofa.Engine.Ownership.{unexpired}

-- `RunProof`
pub record RunProof : Type 0 where
  pub owner : Owner
  pub status : String
  pub conclusion : String
  pub observed_at : Time

-- The conclusions of a completed run.
unfoldable pub concluded : String → Bool
concluded c =
    any (λ x. x == c)
      ("success" ∷ "failure" ∷ "cancelled" ∷ "timed_out" ∷ "action_required" ∷ "neutral" ∷ "skipped"
        ∷ "stale" ∷ [])

-- `RunProof.terminal`
unfoldable pub terminal : RunProof → Time → Bool
terminal p now =
    if not (p.status == "completed")
      || is_zero p.observed_at
      || after p.observed_at now
      || ltb (5 * minute) (sub_time now p.observed_at)
    then false
    else concluded p.conclusion

-- The attempt that `Recover` writes.
unfoldable pub recovered : Clock → Attempt → Attempt
recovered clock a = record a {
  counts = record (a.counts) {
    infrastructure_retries = next_int64 a.counts.infrastructure_retries;
  };
  owner = none;
  generation = next_int64 a.generation;
  phase = Phase.pending;
  dispatch = "pending";
  failure = "";
  updated_at = clock 0;
  checkpoint = unexpired (clock 1) a.checkpoint;
}

-- The body of `Recover`, on the attempt found.
unfoldable pub recover_edit : RunProof → Clock → Attempt → Edit
recover_edit proof clock a =
    if not (is_zero a.superseded_at)
    then Edit.reject Error.stale
    else if not (a.owner == some proof.owner)
    then Edit.reject Error.stale
    else if a.phase == Phase.draft || a.phase == Phase.blocked
    then Edit.reject Error.claimed
    else if leb_ℤ a.limits.infrastructure_retries a.counts.infrastructure_retries
    then Edit.reject Error.limit
    else Edit.write (recovered clock a)

-- `Recover`; `now` is the reading for the proof.
unfoldable pub recover : Time → String → RunProof → Operation (Unit {0})
recover now id proof =
    require (terminal proof now) Error.active
      (Operation.attempt (λ clock. edit_attempt id (recover_edit proof clock)))

-- The attempt that `StopProvenOwner` writes.
unfoldable pub stopped : Clock → String → Attempt → Attempt
stopped clock kind a = record a {
  owner = none;
  generation = next_int64 a.generation;
  failure = kind;
  phase = if kind == "infrastructure" then Phase.deferred else Phase.blocked;
  updated_at = clock 0;
}

-- The body of `StopProvenOwner`, on the attempt found.
unfoldable pub stop_owner_edit : RunProof → String → Clock → Attempt → Edit
stop_owner_edit proof kind clock a =
    if not (is_zero a.superseded_at) || not (a.owner == some proof.owner)
    then Edit.reject Error.stale
    else if not (a.phase == Phase.executing)
        && not (a.phase == Phase.validating)
        && not (a.phase == Phase.publishing)
    then Edit.reject Error.claimed
    else Edit.write (stopped clock kind a)

-- `StopProvenOwner`; `now` is the reading for the proof.
unfoldable pub stop_proven_owner : Time → String → RunProof → String → Operation (Unit {0})
stop_proven_owner now id proof kind = require (terminal proof now) Error.active (
    require (kind == "authority" || kind == "infrastructure") Error.invalid
      (Operation.attempt (λ clock. edit_attempt id (stop_owner_edit proof kind clock))))

-- The attempt that `StopRevokedPending` writes.
unfoldable pub revoked : Clock → Attempt → Attempt
revoked clock a = record a {
  generation = next_int64 a.generation;
  phase = Phase.blocked;
  failure = "authority";
  updated_at = clock 0;
}

-- The body of `StopRevokedPending`, on the attempt found.
unfoldable pub stop_pending_edit : Attempt → Clock → Attempt → Edit
stop_pending_edit expected clock a =
    if not (is_nil a.owner) || not (a.phase == Phase.pending)
    then Edit.reject Error.claimed
    else if not (is_zero a.superseded_at) || not (a == expected)
    then Edit.reject Error.stale
    else Edit.write (revoked clock a)

-- `StopRevokedPending`
unfoldable pub stop_revoked_pending : (AttemptKey → String) → Attempt → Operation (Unit {0})
stop_revoked_pending digest expected =
    require
      ((expected.id == attempt_id digest expected.admission)
        && expected.phase == Phase.pending
        && is_nil expected.owner
        && is_nil expected.repair
        && is_zero expected.superseded_at)
      Error.invalid
      (Operation.attempt (λ clock. edit_attempt expected.id (stop_pending_edit expected clock)))

-- The loop of `Observe`: the first observation with that identifier.
unfoldable pub find_observation : String → List Observation → Option Observation
find_observation id [] = none
find_observation id (o ∷ rest) = if o.id == id then some o else find_observation id rest

-- The closure of `Observe`.
unfoldable pub observe_step :
    (AttemptKey → String) → Observation → Clock → Ledger → Outcome (Unit {0})
observe_step digest o clock s = elim (find_observation o.id s.observations) [
  | some previous ↦ if previous == o then Outcome.unchanged tt else Outcome.failed Error.conflict
  | none ↦
      let t = record s { observations = s.observations ++ o ∷ [] } in
      if validate digest t then Outcome.changed t tt else Outcome.failed Error.invalid
]

-- `Observe`
unfoldable pub observe : (AttemptKey → String) → Observation → Operation (Unit {0})
observe digest o = Operation.attempt (observe_step digest o)
