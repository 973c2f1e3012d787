-- ===== src/Repair/Reserve.antt =====
-- internal/state/review.go: ClaimReviewRepair, ReserveReviewRepair, ReleaseSupersededReviewRepair.
use sofa.Base.{
  String, Bool, true, false, not, Option, none, some, [], ◌∷◌, ◌++◌, ◌&&◌, ◌||◌, ◌==◌, string_eq,
  option_eq, if◌then◌else◌, is_nil, any,
}
use sofa.Base.Int.{pos, int_eq, ltb_ℤ, leb_ℤ, next_int64, add_int64}
use sofa.Base.Map.{get}
use sofa.State.Clock.{is_zero}
use sofa.State.Records.{Phase, Counters, Owner, Fence, RepairIntent, Attempt, Observation, Ledger}
use sofa.State.Same.{phase_eq, admission_eq, counters_eq, publication_eq, repair_intent_eq}
use sofa.State.Valid.{version, valid_owner, permits, repair_valid}
use sofa.Engine.Outcome.{Error, Outcome, Operation, Clock, Edit, edit_attempt, put_attempt, require}

-- No candidate has been prepared: `CandidateSHA == "" && CandidateDigest == ""`.
unfoldable pub is_unprepared : Option RepairIntent → Bool
is_unprepared none = false
is_unprepared (some r) = (r.candidate_sha == "") && r.candidate_digest == ""

-- The reservation that `ClaimReviewRepair` needs.
unfoldable pub is_reserved : Attempt → Bool
unfolding is_unprepared
is_reserved a =
    is_unprepared a.repair && not (is_nil a.publication) && leb_ℤ (pos 1) a.counts.repairs

-- The counters after the charge of a prompt, in int64.
unfoldable pub repair_counts : Counters → Counters → Counters
repair_counts c charge = record {
  model_calls = add_int64 c.model_calls charge.model_calls;
  repairs = c.repairs;
  infrastructure_retries = c.infrastructure_retries;
  runtime_seconds = add_int64 c.runtime_seconds charge.runtime_seconds;
}

-- The attempt that a charge over the budget releases.
unfoldable pub exhausted : Clock → Attempt → Attempt
exhausted clock a = record a {
  repair = none;
  phase = Phase.blocked;
  failure = "budget";
  updated_at = clock 0;
}

-- The attempt of a claimed repair.
unfoldable pub repair_claimed : Clock → Owner → Counters → Attempt → Attempt
unfolding repair_counts
repair_claimed clock owner charge a = record a {
  counts = repair_counts a.counts charge;
  generation = next_int64 a.generation;
  owner = some owner;
  phase = Phase.executing;
  dispatch = "claimed";
  updated_at = clock 0;
}

-- The closure of `ClaimReviewRepair`, on the attempt found. `none` is ErrLimit, which the method
-- returns once the released attempt is written.
unfoldable pub claim_repair_found :
    Clock → String → Owner → Counters → Ledger → Attempt → Outcome (Option Fence)
unfolding is_reserved
claim_repair_found clock id owner charge s a =
    if not (is_zero a.superseded_at)
    then Outcome.failed Error.stale
    else if not (is_reserved a)
    then Outcome.failed Error.invalid
    else if not (is_nil a.owner) || not (a.phase == Phase.pending)
    then Outcome.failed Error.claimed
    else if not (permits a.limits (repair_counts a.counts charge))
    then Outcome.changed (put_attempt id (exhausted clock a) s) none
    else Outcome.changed (put_attempt id (repair_claimed clock owner charge a) s)
        (some (record { attempt_id = id; generation = next_int64 a.generation; owner = owner }))

unfoldable pub claim_repair_step :
    String → Owner → Counters → Clock → Ledger → Outcome (Option Fence)
claim_repair_step id owner charge clock s = elim (get id s.attempts) [
  | none ↦ Outcome.failed Error.not_found
  | some a ↦ claim_repair_found clock id owner charge s a
]

-- The charge of one prompt.
unfoldable pub is_prompt_charge : Counters → Bool
is_prompt_charge c =
    (c.model_calls == pos 1)
    && ltb_ℤ (pos 0) c.runtime_seconds
    && (c.repairs == pos 0)
    && c.infrastructure_retries == pos 0

-- `ClaimReviewRepair`
unfoldable pub claim_review_repair : String → Owner → Counters → Operation (Option Fence)
claim_review_repair id owner charge =
    require (valid_owner owner && is_prompt_charge charge) Error.invalid
      (Operation.attempt (claim_repair_step id owner charge))

-- The attempt that `ReserveReviewRepair` writes.
unfoldable pub reserved : Clock → RepairIntent → Attempt → Attempt
reserved clock intent a = record a {
  counts = record (a.counts) { repairs = next_int64 a.counts.repairs };
  repair = some intent;
  owner = none;
  phase = Phase.pending;
  dispatch = "pending";
  checkpoint = none;
  failure = "";
  updated_at = clock 0;
}

-- The observation that it appends.
unfoldable pub reservation_note : Clock → String → RepairIntent → Observation
reservation_note clock id intent = record {
  version = version;
  id = intent.feedback_id;
  attempt_id = id;
  stage = "review-feedback";
  outcome = "repair-reserved";
  revision = intent.pr_head_sha;
  evidence_ref = "";
  model_calls = pos 0;
  duration_seconds = pos 0;
  recorded_at = clock 1;
}

abbrev pub append_observation : Observation → Ledger → Ledger
append_observation o s = record s { observations = s.observations ++ o ∷ [] }

-- The closure of `ReserveReviewRepair`, on the attempt found.
unfoldable pub reserve_found : Clock → String → RepairIntent → Ledger → Attempt → Outcome Bool
reserve_found clock id intent s a =
    if not (is_zero a.superseded_at)
    then Outcome.failed Error.stale
    else if not (repair_valid intent a.publication) || not (is_unprepared (some intent))
    then Outcome.failed Error.invalid
    else if not (is_nil a.repair)
    then (if a.repair == some intent
        then Outcome.unchanged false
        else Outcome.failed Error.admission_changed)
    else if any (λ (o : Observation). o.id == intent.feedback_id) s.observations
    then Outcome.failed Error.conflict
    else if not (a.phase == Phase.draft) || leb_ℤ a.limits.repairs a.counts.repairs
    then Outcome.failed Error.limit
    else Outcome.changed
        (append_observation (reservation_note clock id intent)
          (put_attempt id (reserved clock intent a) s))
        true

unfoldable pub reserve_step : String → RepairIntent → Clock → Ledger → Outcome Bool
reserve_step id intent clock s = elim (get id s.attempts) [
  | none ↦ Outcome.failed Error.not_found
  | some a ↦ reserve_found clock id intent s a
]

-- `ReserveReviewRepair`
unfoldable pub reserve_review_repair : String → RepairIntent → Operation Bool
reserve_review_repair id intent = Operation.attempt (reserve_step id intent)

-- `a.Counts.Repairs >= a.Limits.Repairs || ...`: no further repair fits the budget.
unfoldable pub is_spent : Attempt → Bool
is_spent a =
    leb_ℤ a.limits.repairs a.counts.repairs
    || leb_ℤ a.limits.model_calls a.counts.model_calls
    || leb_ℤ a.limits.runtime_seconds a.counts.runtime_seconds

-- The phase and the failure of an attempt whose repair is released.
unfoldable pub released_phase : Attempt → Phase
released_phase a = if is_spent a then Phase.blocked else Phase.draft

unfoldable pub released_failure : Attempt → String
released_failure a = if is_spent a then "budget" else ""

-- The attempt that `ReleaseSupersededReviewRepair` writes.
unfoldable pub release_repair : Clock → Attempt → Attempt
unfolding released_phase released_failure
release_repair clock a = record a {
  repair = none;
  owner = none;
  checkpoint = none;
  generation = next_int64 a.generation;
  phase = released_phase a;
  failure = released_failure a;
  updated_at = clock 0;
}

-- The body of `ReleaseSupersededReviewRepair`, on the attempt found.
unfoldable pub release_repair_edit : Attempt → Clock → Attempt → Edit
release_repair_edit expected clock a =
    if not (is_zero a.superseded_at)
      || not (a.generation == expected.generation)
      || not (a.counts == expected.counts)
      || not (a.admission == expected.admission)
      || is_nil a.publication
      || not (a.publication == expected.publication)
      || is_nil a.repair
      || not (a.repair == expected.repair)
    then Edit.reject Error.stale
    else if not (is_nil a.owner) || not (a.phase == Phase.pending) || not (is_unprepared a.repair)
    then Edit.reject Error.claimed
    else Edit.write (release_repair clock a)

-- `ReleaseSupersededReviewRepair`
unfoldable pub release_superseded_review_repair : Attempt → Operation (Unit {0})
release_superseded_review_repair expected =
    require
      (not (is_nil expected.publication)
        && is_nil expected.owner
        && (expected.phase == Phase.pending)
        && is_unprepared expected.repair)
      Error.invalid
      (Operation.attempt (λ clock. edit_attempt expected.id (release_repair_edit expected clock)))
