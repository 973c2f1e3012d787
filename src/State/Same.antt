-- ===== src/State/Same.antt =====
-- Go's `==` and `reflect.DeepEqual` on the records of the ledger, field by field.
use sofa.Base.{
  ◌≡◌, refl, sym, ◌∙◌, ◌↔◌, Bool, true, false, ◌&&◌, arith, eq_iff, Equality, ◌==◌, string_eq,
  nat_eq, option_eq, option_test_iff,
}
use sofa.Base.Int.{int_eq, int_test_iff}
use sofa.State.Records.{
  Phase, Admission, Limits, Counters, Owner, Checkpoint, Publication, RepairIntent,
  RevertScanCursor, Attempt, Observation, BoardProjection,
}

pub phase_test : Phase → Phase → Bool
phase_test Phase.pending Phase.pending = true
phase_test Phase.executing Phase.executing = true
phase_test Phase.validating Phase.validating = true
phase_test Phase.publishing Phase.publishing = true
phase_test Phase.draft Phase.draft = true
phase_test Phase.blocked Phase.blocked = true
phase_test Phase.deferred Phase.deferred = true
phase_test (Phase.unknown s) (Phase.unknown t) = s == t
phase_test _ _ = false

pub phase_test_iff : (a b : Phase) → (phase_test a b ≡ true) ↔ (a ≡ b)
unfolding phase_test
phase_test_iff (Phase.unknown s) (Phase.unknown t) = ground (arith, eq_iff s t)
phase_test_iff Phase.pending b = ground arith
phase_test_iff a b = ground arith

instance unfoldable pub phase_eq : Equality Phase
unfolding phase_test
phase_eq = record { test = phase_test; test_iff = phase_test_iff }

pub admission_test : Admission → Admission → Bool
admission_test a b =
    a.repository == b.repository
    && a.issue == b.issue
    && a.spec_digest == b.spec_digest
    && a.config_digest == b.config_digest
    && a.base_sha == b.base_sha
    && a.project_id == b.project_id
    && a.project_item_id == b.project_item_id
    && a.status_option_id == b.status_option_id
    && a.status_updated_at == b.status_updated_at

pub admission_test_iff : (a b : Admission) → (admission_test a b ≡ true) ↔ (a ≡ b)
unfolding admission_test
admission_test_iff a b = ground (
  arith,
  eq_iff a.repository b.repository,
  int_test_iff a.issue b.issue,
  eq_iff a.spec_digest b.spec_digest,
  eq_iff a.config_digest b.config_digest,
  eq_iff a.base_sha b.base_sha,
  eq_iff a.project_id b.project_id,
  eq_iff a.project_item_id b.project_item_id,
  eq_iff a.status_option_id b.status_option_id,
)

instance unfoldable pub admission_eq : Equality Admission
unfolding admission_test
admission_eq = record { test = admission_test; test_iff = admission_test_iff }

pub limits_test : Limits → Limits → Bool
limits_test a b =
    a.model_calls == b.model_calls
    && a.repairs == b.repairs
    && a.infrastructure_retries == b.infrastructure_retries
    && a.runtime_seconds == b.runtime_seconds

pub limits_test_iff : (a b : Limits) → (limits_test a b ≡ true) ↔ (a ≡ b)
unfolding limits_test
limits_test_iff a b = ground (
  arith,
  int_test_iff a.model_calls b.model_calls,
  int_test_iff a.repairs b.repairs,
  int_test_iff a.infrastructure_retries b.infrastructure_retries,
  int_test_iff a.runtime_seconds b.runtime_seconds,
)

instance unfoldable pub limits_eq : Equality Limits
unfolding limits_test
limits_eq = record { test = limits_test; test_iff = limits_test_iff }

pub counters_test : Counters → Counters → Bool
counters_test a b =
    a.model_calls == b.model_calls
    && a.repairs == b.repairs
    && a.infrastructure_retries == b.infrastructure_retries
    && a.runtime_seconds == b.runtime_seconds

pub counters_test_iff : (a b : Counters) → (counters_test a b ≡ true) ↔ (a ≡ b)
unfolding counters_test
counters_test_iff a b = ground (
  arith,
  int_test_iff a.model_calls b.model_calls,
  int_test_iff a.repairs b.repairs,
  int_test_iff a.infrastructure_retries b.infrastructure_retries,
  int_test_iff a.runtime_seconds b.runtime_seconds,
)

instance unfoldable pub counters_eq : Equality Counters
unfolding counters_test
counters_eq = record { test = counters_test; test_iff = counters_test_iff }

pub owner_test : Owner → Owner → Bool
owner_test a b = a.run_id == b.run_id && a.run_attempt == b.run_attempt

pub owner_test_iff : (a b : Owner) → (owner_test a b ≡ true) ↔ (a ≡ b)
unfolding owner_test
owner_test_iff a b =
    ground (arith, eq_iff a.run_id b.run_id, int_test_iff a.run_attempt b.run_attempt)

instance unfoldable pub owner_eq : Equality Owner
unfolding owner_test
owner_eq = record { test = owner_test; test_iff = owner_test_iff }

pub checkpoint_test : Checkpoint → Checkpoint → Bool
checkpoint_test a b =
    a.version == b.version
    && a.phase == b.phase
    && a.artifact_id == b.artifact_id
    && a.digest == b.digest
    && a.candidate_sha == b.candidate_sha
    && a.producer == b.producer
    && a.generation == b.generation
    && a.accepted_at == b.accepted_at
    && a.expires_at == b.expires_at

pub checkpoint_test_iff : (a b : Checkpoint) → (checkpoint_test a b ≡ true) ↔ (a ≡ b)
unfolding checkpoint_test
checkpoint_test_iff a b = ground (
  arith,
  int_test_iff a.version b.version,
  phase_eq.test_iff a.phase b.phase,
  eq_iff a.artifact_id b.artifact_id,
  eq_iff a.digest b.digest,
  eq_iff a.candidate_sha b.candidate_sha,
  owner_eq.test_iff a.producer b.producer,
  int_test_iff a.generation b.generation,
)

instance unfoldable pub checkpoint_eq : Equality Checkpoint
unfolding checkpoint_test
checkpoint_eq = record { test = checkpoint_test; test_iff = checkpoint_test_iff }

pub publication_test : Publication → Publication → Bool
publication_test a b =
    a.branch == b.branch
    && a.expected_head == b.expected_head
    && a.candidate_digest == b.candidate_digest
    && a.head_sha == b.head_sha
    && a.pr_number == b.pr_number
    && a.pr_url == b.pr_url

pub publication_test_iff : (a b : Publication) → (publication_test a b ≡ true) ↔ (a ≡ b)
unfolding publication_test
publication_test_iff a b = ground (
  arith,
  eq_iff a.branch b.branch,
  eq_iff a.expected_head b.expected_head,
  eq_iff a.candidate_digest b.candidate_digest,
  eq_iff a.head_sha b.head_sha,
  int_test_iff a.pr_number b.pr_number,
  eq_iff a.pr_url b.pr_url,
)

instance unfoldable pub publication_eq : Equality Publication
unfolding publication_test
publication_eq = record { test = publication_test; test_iff = publication_test_iff }

pub repair_intent_test : RepairIntent → RepairIntent → Bool
repair_intent_test a b =
    a.feedback_id == b.feedback_id
    && a.feedback_hash == b.feedback_hash
    && a.pr_base_sha == b.pr_base_sha
    && a.pr_head_sha == b.pr_head_sha
    && a.pr_number == b.pr_number
    && a.candidate_digest == b.candidate_digest
    && a.candidate_sha == b.candidate_sha

pub repair_intent_test_iff : (a b : RepairIntent) → (repair_intent_test a b ≡ true) ↔ (a ≡ b)
unfolding repair_intent_test
repair_intent_test_iff a b = ground (
  arith,
  eq_iff a.feedback_id b.feedback_id,
  eq_iff a.feedback_hash b.feedback_hash,
  eq_iff a.pr_base_sha b.pr_base_sha,
  eq_iff a.pr_head_sha b.pr_head_sha,
  int_test_iff a.pr_number b.pr_number,
  eq_iff a.candidate_digest b.candidate_digest,
  eq_iff a.candidate_sha b.candidate_sha,
)

instance unfoldable pub repair_intent_eq : Equality RepairIntent
unfolding repair_intent_test
repair_intent_eq = record { test = repair_intent_test; test_iff = repair_intent_test_iff }

pub revert_scan_cursor_test : RevertScanCursor → RevertScanCursor → Bool
revert_scan_cursor_test a b =
    a.merge_sha == b.merge_sha
    && a.completed_head == b.completed_head
    && a.active_base == b.active_base
    && a.active_head == b.active_head
    && a.next_page == b.next_page

pub revert_scan_cursor_test_iff :
    (a b : RevertScanCursor) → (revert_scan_cursor_test a b ≡ true) ↔ (a ≡ b)
unfolding revert_scan_cursor_test
revert_scan_cursor_test_iff a b = ground (
  arith,
  eq_iff a.merge_sha b.merge_sha,
  eq_iff a.completed_head b.completed_head,
  eq_iff a.active_base b.active_base,
  eq_iff a.active_head b.active_head,
  int_test_iff a.next_page b.next_page,
)

instance unfoldable pub revert_scan_cursor_eq : Equality RevertScanCursor
unfolding revert_scan_cursor_test
revert_scan_cursor_eq = record {
  test = revert_scan_cursor_test;
  test_iff = revert_scan_cursor_test_iff;
}

identity_test : Attempt → Attempt → Bool
identity_test a b =
    a.id == b.id
    && a.admission == b.admission
    && a.spec_revision == b.spec_revision
    && a.superseded_at == b.superseded_at
    && a.superseded_source_digest == b.superseded_source_digest

identity_test_iff :
    (a b : Attempt)
    → (identity_test a b ≡ true) ↔ (
        (a.id ≡ b.id)
        × (a.admission ≡ b.admission)
        × (a.spec_revision ≡ b.spec_revision)
        × (a.superseded_at ≡ b.superseded_at)
        × (a.superseded_source_digest ≡ b.superseded_source_digest))
unfolding identity_test
identity_test_iff a b = ground (
  arith,
  eq_iff a.id b.id,
  admission_eq.test_iff a.admission b.admission,
  int_test_iff a.spec_revision b.spec_revision,
  eq_iff a.superseded_source_digest b.superseded_source_digest,
)

budget_test : Attempt → Attempt → Bool
budget_test a b =
    a.phase == b.phase
    && a.generation == b.generation
    && a.owner == b.owner
    && a.dispatch == b.dispatch
    && a.limits == b.limits
    && a.counts == b.counts

budget_test_iff :
    (a b : Attempt)
    → (budget_test a b ≡ true) ↔ (
        (a.phase ≡ b.phase)
        × (a.generation ≡ b.generation)
        × (a.owner ≡ b.owner)
        × (a.dispatch ≡ b.dispatch)
        × (a.limits ≡ b.limits)
        × (a.counts ≡ b.counts))
unfolding budget_test
budget_test_iff a b = ground (
  arith,
  phase_eq.test_iff a.phase b.phase,
  int_test_iff a.generation b.generation,
  option_test_iff owner_eq a.owner b.owner,
  eq_iff a.dispatch b.dispatch,
  limits_eq.test_iff a.limits b.limits,
  counters_eq.test_iff a.counts b.counts,
)

evidence_test : Attempt → Attempt → Bool
evidence_test a b =
    a.checkpoint == b.checkpoint
    && a.publication == b.publication
    && a.repair == b.repair
    && a.revert_scan == b.revert_scan
    && a.failure == b.failure
    && a.created_at == b.created_at
    && a.updated_at == b.updated_at

evidence_test_iff :
    (a b : Attempt)
    → (evidence_test a b ≡ true) ↔ (
        (a.checkpoint ≡ b.checkpoint)
        × (a.publication ≡ b.publication)
        × (a.repair ≡ b.repair)
        × (a.revert_scan ≡ b.revert_scan)
        × (a.failure ≡ b.failure)
        × (a.created_at ≡ b.created_at)
        × (a.updated_at ≡ b.updated_at))
unfolding evidence_test
evidence_test_iff a b = ground (
  arith,
  option_test_iff checkpoint_eq a.checkpoint b.checkpoint,
  option_test_iff publication_eq a.publication b.publication,
  option_test_iff repair_intent_eq a.repair b.repair,
  option_test_iff revert_scan_cursor_eq a.revert_scan b.revert_scan,
  eq_iff a.failure b.failure,
)

pub attempt_test : Attempt → Attempt → Bool
unfolding identity_test budget_test evidence_test
attempt_test a b = identity_test a b && budget_test a b && evidence_test a b

attempt_fields :
    (a b : Attempt)
    → a.id ≡ b.id
    → a.admission ≡ b.admission
    → a.spec_revision ≡ b.spec_revision
    → a.superseded_at ≡ b.superseded_at
    → a.superseded_source_digest ≡ b.superseded_source_digest
    → a.phase ≡ b.phase
    → a.generation ≡ b.generation
    → a.owner ≡ b.owner
    → a.dispatch ≡ b.dispatch
    → a.limits ≡ b.limits
    → a.counts ≡ b.counts
    → a.checkpoint ≡ b.checkpoint
    → a.publication ≡ b.publication
    → a.repair ≡ b.repair
    → a.revert_scan ≡ b.revert_scan
    → a.failure ≡ b.failure
    → a.created_at ≡ b.created_at
    → a.updated_at ≡ b.updated_at
    → a ≡ b
attempt_fields a b p0 p1 p2 p3 p4 p5 p6 p7 p8 p9 p10 p11 p12 p13 p14 p15 p16 p17 = λ i. record {
  id = p0 i;
  admission = p1 i;
  spec_revision = p2 i;
  superseded_at = p3 i;
  superseded_source_digest = p4 i;
  phase = p5 i;
  generation = p6 i;
  owner = p7 i;
  dispatch = p8 i;
  limits = p9 i;
  counts = p10 i;
  checkpoint = p11 i;
  publication = p12 i;
  repair = p13 i;
  revert_scan = p14 i;
  failure = p15 i;
  created_at = p16 i;
  updated_at = p17 i;
}

all_true : {a b c : Bool} → a ≡ true → b ≡ true → c ≡ true → (a && b && c) ≡ true
all_true {a} {b} {c} p q r = ground arith

true_all : {a b c : Bool} → (a && b && c) ≡ true → (a ≡ true) × (b ≡ true) × (c ≡ true)
true_all {a} {b} {c} h = ground arith

attempt_parts :
    (a b : Attempt) → attempt_test a b ≡ (identity_test a b && budget_test a b && evidence_test a b)
unfolding attempt_test
attempt_parts a b = refl

attempt_test_refl : (a : Attempt) → attempt_test a a ≡ true
attempt_test_refl a =
    attempt_parts a a
    ∙ all_true ((identity_test_iff a a).1 (refl, refl, refl, refl, refl))
        ((budget_test_iff a a).1 (refl, refl, refl, refl, refl, refl))
        ((evidence_test_iff a a).1 (refl, refl, refl, refl, refl, refl, refl))

attempt_test_sound : (a b : Attempt) → attempt_test a b ≡ true → a ≡ b
attempt_test_sound a b h =
    let (p, q, r) = true_all (sym (attempt_parts a b) ∙ h) in
    let (p0, p1, p2, p3, p4) = (identity_test_iff a b).0 p in
    let (q0, q1, q2, q3, q4, q5) = (budget_test_iff a b).0 q in
    let (r0, r1, r2, r3, r4, r5, r6) = (evidence_test_iff a b).0 r in
    attempt_fields a b p0 p1 p2 p3 p4 q0 q1 q2 q3 q4 q5 r0 r1 r2 r3 r4 r5 r6

pub attempt_test_iff : (a b : Attempt) → (attempt_test a b ≡ true) ↔ (a ≡ b)
attempt_test_iff a b = (attempt_test_sound a b, λ e. rw e (attempt_test_refl b))

instance unfoldable pub attempt_eq : Equality Attempt
unfolding attempt_test
attempt_eq = record { test = attempt_test; test_iff = attempt_test_iff }

pub observation_test : Observation → Observation → Bool
observation_test a b =
    a.version == b.version
    && a.id == b.id
    && a.attempt_id == b.attempt_id
    && a.stage == b.stage
    && a.outcome == b.outcome
    && a.revision == b.revision
    && a.evidence_ref == b.evidence_ref
    && a.model_calls == b.model_calls
    && a.duration_seconds == b.duration_seconds
    && a.recorded_at == b.recorded_at

pub observation_test_iff : (a b : Observation) → (observation_test a b ≡ true) ↔ (a ≡ b)
unfolding observation_test
observation_test_iff a b = ground (
  arith,
  int_test_iff a.version b.version,
  eq_iff a.id b.id,
  eq_iff a.attempt_id b.attempt_id,
  eq_iff a.stage b.stage,
  eq_iff a.outcome b.outcome,
  eq_iff a.revision b.revision,
  eq_iff a.evidence_ref b.evidence_ref,
  int_test_iff a.model_calls b.model_calls,
  int_test_iff a.duration_seconds b.duration_seconds,
)

instance unfoldable pub observation_eq : Equality Observation
unfolding observation_test
observation_eq = record { test = observation_test; test_iff = observation_test_iff }

pub board_projection_test : BoardProjection → BoardProjection → Bool
board_projection_test a b =
    a.repository == b.repository
    && a.issue_id == b.issue_id
    && a.project_id == b.project_id
    && a.project_item_id == b.project_item_id
    && a.stage == b.stage
    && a.option_id == b.option_id
    && a.updated_at == b.updated_at
    && a.pending_stage == b.pending_stage
    && a.pending_option_id == b.pending_option_id
    && a.pending_from_option_id == b.pending_from_option_id
    && a.pending_from_updated_at == b.pending_from_updated_at

pub board_projection_test_iff :
    (a b : BoardProjection) → (board_projection_test a b ≡ true) ↔ (a ≡ b)
unfolding board_projection_test
board_projection_test_iff a b = ground (
  arith,
  eq_iff a.repository b.repository,
  eq_iff a.issue_id b.issue_id,
  eq_iff a.project_id b.project_id,
  eq_iff a.project_item_id b.project_item_id,
  eq_iff a.stage b.stage,
  eq_iff a.option_id b.option_id,
  eq_iff a.pending_stage b.pending_stage,
  eq_iff a.pending_option_id b.pending_option_id,
  eq_iff a.pending_from_option_id b.pending_from_option_id,
)

instance unfoldable pub board_projection_eq : Equality BoardProjection
unfolding board_projection_test
board_projection_eq = record { test = board_projection_test; test_iff = board_projection_test_iff }
