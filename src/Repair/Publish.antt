-- ===== src/Repair/Publish.antt =====
-- internal/state/review.go: BeginRepairPublication, MarkReviewRepairPublished,
-- ReconcilePreparedReviewRepair, FailReviewRepair.
use sofa.Base.{
  String, Bool, false, not, Option, none, some, ◌&&◌, ◌||◌, ◌==◌, string_eq, nat_eq, option_eq,
  if◌then◌else◌, is_nil,
}
use sofa.Base.Int.{int_eq, next_int64}
use sofa.Base.Map.{Map, get, all_entries, count_entries}
use sofa.State.Clock.{Time, is_zero, after}
use sofa.State.Records.{Phase, Fence, Publication, RepairIntent, SpecRecord, Attempt, Ledger}
use sofa.State.Patterns.{digest_pattern, sha_pattern}
use sofa.State.Same.{phase_eq, owner_eq, counters_eq, publication_eq, attempt_eq}
use sofa.State.Valid.{publication_valid}
use sofa.Engine.Outcome.{Error, Outcome, Operation, Clock, Edit, commit_edit, require}
use sofa.Engine.Ownership.{mutate_owned}
use sofa.Engine.Recovery.{RunProof, terminal}
use sofa.Repair.Reserve.{released_phase, released_failure}

-- The mutation of `BeginRepairPublication`, by the repair of the attempt.
unfoldable pub begin_repair_from : Option RepairIntent → String → String → Attempt → Edit
begin_repair_from none digest commit a = Edit.reject Error.invalid
begin_repair_from (some r) digest commit a =
    let same = (r.candidate_digest == digest) && r.candidate_sha == commit in
    if is_nil a.publication
    then Edit.reject Error.invalid
    else if a.phase == Phase.publishing
    then (if same then Edit.keep else Edit.reject Error.conflict)
    else if not (a.phase == Phase.validating)
    then Edit.reject Error.invalid
    else if not (r.candidate_sha == "") || not (r.candidate_digest == "")
    then (if same
        then Edit.write (record a { phase = Phase.publishing })
        else Edit.reject Error.conflict)
    else Edit.write (record a {
      repair = some (record r { candidate_digest = digest; candidate_sha = commit });
      phase = Phase.publishing;
    })

unfoldable pub begin_repair_edit : String → String → Attempt → Edit
unfolding begin_repair_from
begin_repair_edit digest commit a = begin_repair_from a.repair digest commit a

-- `BeginRepairPublication`
unfoldable pub begin_repair_publication : Fence → String → String → Operation (Unit {0})
begin_repair_publication f digest commit =
    require (digest_pattern digest && sha_pattern commit) Error.invalid
      (mutate_owned f (begin_repair_edit digest commit))

-- The published pull request is the one of the prepared repair.
unfoldable pub publishes_repair : RepairIntent → Option Publication → Publication → Bool
publishes_repair r none published = false
publishes_repair r (some p) published =
    (r.candidate_sha == published.head_sha)
    && (r.candidate_digest == published.candidate_digest)
    && (r.pr_head_sha == published.expected_head)
    && (r.pr_number == published.pr_number)
    && (p.branch == published.branch)
    && (p.pr_url == published.pr_url)
    && (p.pr_number == published.pr_number)

-- The mutation of `MarkReviewRepairPublished`, by the repair of the attempt.
unfoldable pub mark_repair_from : Option RepairIntent → Publication → Attempt → Edit
mark_repair_from none published a =
    if (a.phase == Phase.draft) && a.publication == some published
    then Edit.keep
    else Edit.reject Error.invalid
mark_repair_from (some r) published a =
    if not (a.phase == Phase.publishing) || not (publishes_repair r a.publication published)
    then Edit.reject Error.invalid
    else Edit.write (record a { publication = some published; repair = none; phase = Phase.draft })

unfoldable pub mark_repair_edit : Publication → Attempt → Edit
unfolding mark_repair_from
mark_repair_edit published a = mark_repair_from a.repair published a

-- `MarkReviewRepairPublished`
unfoldable pub mark_review_repair_published : Fence → Publication → Operation (Unit {0})
mark_review_repair_published f published =
    require (publication_valid published) Error.invalid
      (mutate_owned f (mark_repair_edit published))

-- The candidate of a repair is prepared: both of its names are there.
unfoldable pub is_prepared : Option RepairIntent → Option Publication → Publication → Bool
unfolding publishes_repair
is_prepared none p published = false
is_prepared (some r) p published =
    not (r.candidate_sha == "") && not (r.candidate_digest == "") && publishes_repair r p published

-- The arguments that `ReconcilePreparedReviewRepair` takes.
unfoldable pub may_reconcile : Time → Attempt → RunProof → Publication → Bool
may_reconcile now expected proof published =
    terminal proof now
    && (expected.owner == some proof.owner)
    && is_zero expected.superseded_at
    && publication_valid published
    && ((expected.phase == Phase.blocked) && (expected.failure == "validation")
        || expected.phase == Phase.publishing)
    && is_prepared expected.repair expected.publication published

-- The specifications of the attempt's issue.
unfoldable pub spec_concerns : Attempt → SpecRecord → Bool
spec_concerns a r = (r.repository == a.admission.repository) && r.issue == a.admission.issue

-- A specification that still authorizes the attempt.
unfoldable pub spec_authorizes : Attempt → SpecRecord → Bool
spec_authorizes a r =
    (r.revision == a.spec_revision)
    && (r.spec_digest == a.admission.spec_digest)
    && (r.approved_digest == r.spec_digest)
    && (r.project_id == a.admission.project_id)
    && (r.project_item_id == a.admission.project_item_id)
    && after a.admission.status_updated_at r.backlog_updated_at

-- The loop over the specifications and the test of its count: exactly one, which authorizes.
unfoldable pub one_authorizes : Attempt → Map SpecRecord → Bool
unfolding spec_concerns spec_authorizes
one_authorizes a specs =
    all_entries (λ k r. not (spec_concerns a r) || spec_authorizes a r) specs
    && count_entries (spec_concerns a) specs == 1

-- The attempt that `ReconcilePreparedReviewRepair` writes.
unfoldable pub reconciled : Clock → Publication → Attempt → Attempt
reconciled clock published a = record a {
  publication = some published;
  repair = none;
  owner = none;
  generation = next_int64 a.generation;
  phase = Phase.draft;
  failure = "";
  updated_at = clock 0;
}

-- The closure of `ReconcilePreparedReviewRepair`, on the attempt found.
unfoldable pub reconcile_edit : Attempt → Publication → Clock → Ledger → Attempt → Edit
unfolding one_authorizes reconciled
reconcile_edit expected published clock s a =
    if (a.phase == Phase.draft)
      && is_nil a.repair
      && (a.publication == some published)
      && a.counts == expected.counts
    then Edit.keep
    else if not (a == expected)
    then Edit.reject Error.admission_changed
    else if not (one_authorizes expected s.specs)
    then Edit.reject Error.admission_changed
    else Edit.write (reconciled clock published a)

unfoldable pub reconcile_step : Attempt → Publication → Clock → Ledger → Outcome (Unit {0})
reconcile_step expected published clock s = elim (get expected.id s.attempts) [
  | none ↦ Outcome.failed Error.not_found
  | some a ↦ commit_edit expected.id s (reconcile_edit expected published clock s a)
]

-- `ReconcilePreparedReviewRepair`, called at `now`.
unfoldable pub reconcile_prepared_review_repair :
    Time → Attempt → RunProof → Publication → Operation (Unit {0})
reconcile_prepared_review_repair now expected proof published =
    require (may_reconcile now expected proof published) Error.invalid
      (Operation.attempt (reconcile_step expected published))

-- The mutation of `FailReviewRepair`, by the repair of the attempt.
unfoldable pub fail_repair_from : Option RepairIntent → Attempt → Edit
unfolding released_phase released_failure
fail_repair_from none a = Edit.reject Error.invalid
fail_repair_from (some r) a =
    if is_nil a.publication
    then Edit.reject Error.invalid
    else if not (r.candidate_sha == "")
    then Edit.write (record a { failure = "validation"; phase = Phase.blocked })
    else Edit.write (record a {
      repair = none;
      owner = none;
      checkpoint = none;
      phase = released_phase a;
      failure = released_failure a;
    })

unfoldable pub fail_repair_edit : Attempt → Edit
unfolding fail_repair_from
fail_repair_edit a = fail_repair_from a.repair a

-- `FailReviewRepair`
unfoldable pub fail_review_repair : Fence → Operation (Unit {0})
fail_review_repair f = mutate_owned f fail_repair_edit
