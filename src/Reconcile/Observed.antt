-- ===== src/Reconcile/Observed.antt =====
-- internal/lifecycle/reconcile.go: the part of the loop of Scan on one issue.
use sofa.Base.{
  String, Bool, true, false, not, Option, none, some, ◌&&◌, ◌||◌, ◌==◌, string_eq, nat_eq,
  if◌then◌else◌, is_nil,
}
use sofa.Base.Int.{pos, ltb_ℤ, int_eq}
use sofa.Base.Text.{equal_fold}
use sofa.Base.Map.{Map, get}
use sofa.State.Clock.{is_zero, after}
use sofa.State.Records.{Phase, Publication, Attempt, SpecRecord, BoardProjection}
use sofa.State.Same.{phase_eq}
use sofa.Lifecycle.Decide.{Projection, Decision, project_decision}
use sofa.Authority.Grant.{Snapshot, CanonicalSpec}
use sofa.Reconcile.Input.{EffectKind, DeliveryEvidence, ScanInput, PrMoveFence, Effect, holds_at}

-- The effect that the body starts with.
unfoldable pub initial_effect : Snapshot → String → Effect
initial_effect issue stage = record {
  kind = EffectKind.hold;
  issue_id = issue.issue_id;
  issue_number = issue.number;
  from_stage = stage;
  to_stage = "";
  pr_fence = none;
  option_id = issue.status_option_id;
  updated_at = issue.status_updated_at;
  blocked_reason = "";
  next_action = "";
  conflict = false;
  retry_intent = false;
  cancel_intent = false;
}

abbrev pub held : String → String → Effect → Effect
held reason next e = record e { blocked_reason = reason; next_action = next }

abbrev pub observed : Effect → Effect
observed e = record e { kind = EffectKind.observe }

-- The fields of a `Decision`.
unfoldable pub moved_to : Decision → String
moved_to (Decision.move_to stage) = stage
moved_to _ = ""

unfoldable pub reason_of : Decision → String
reason_of (Decision.blocked reason next) = reason
reason_of _ = ""

unfoldable pub next_of : Decision → String
next_of (Decision.blocked reason next) = next
next_of (Decision.in_conflict next) = next
next_of _ = ""

unfoldable pub conflict_of : Decision → Bool
conflict_of (Decision.in_conflict next) = true
conflict_of _ = false

-- `Projection` of the observed pull request.
unfoldable pub projected : String → Publication → DeliveryEvidence → Projection
projected stage p o = record {
  current = stage;
  last_projected = stage;
  authorized = true;
  published = true;
  candidate_sha = p.head_sha;
  pr_head_sha = o.head_sha;
  pr_base_sha = o.base_sha;
  pr_exists = true;
  pr_closed = o.closed;
  pr_merged = o.merged;
  required_gates = o.required_gates;
  gate_evidence = o.gates;
  release_required = o.release_required;
  release_passed = o.release_passed;
  release_sha = o.release_sha;
  merged_sha = o.merged_sha;
  terminal_outcome = "";
  allow_fixture = o.allow_fixture;
}

unfoldable pub fence_of : DeliveryEvidence → PrMoveFence
fence_of o = record {
  number = o.pr_number;
  url = o.pr_url;
  head_sha = o.head_sha;
  base_sha = o.base_sha;
  closed = o.closed;
  merged = o.merged;
  merge_commit_sha = o.merged_sha;
}

-- The end of the body: the effect of a decision, for a pending move that is retried or none.
unfoldable pub decided_effect :
    Effect → BoardProjection → Bool → DeliveryEvidence → Decision → Effect
unfolding moved_to reason_of next_of conflict_of fence_of
decided_effect e prior retry o d =
    let advised = record e {
      blocked_reason = reason_of d;
      next_action = next_of d;
      conflict = conflict_of d;
    } in
    if moved_to d == ""
    then (if retry
        then record advised {
          blocked_reason = "pending transition no longer justified";
          next_action = "inspect changed PR and pending move";
          conflict = true;
          cancel_intent = true;
        }
        else advised)
    else if retry && not (moved_to d == prior.pending_stage)
    then record advised {
      blocked_reason = "pending transition no longer justified";
      conflict = true;
      cancel_intent = true;
      to_stage = moved_to d;
    }
    else record advised {
      kind = EffectKind.move;
      to_stage = moved_to d;
      retry_intent = retry;
      pr_fence = some (fence_of o);
    }

-- The evidence is of the published pull request.
unfoldable pub evidence_for : Publication → DeliveryEvidence → Bool
evidence_for p o = not (
    not (o.pr_number == p.pr_number)
    || not (o.pr_url == p.pr_url)
    || (o.head_sha == "")
    || (o.base_sha == ""))

-- From `observed, ok := input.Evidence[...]` on.
unfoldable pub on_evidence :
    Effect
    → BoardProjection
    → Bool
    → Snapshot
    → String
    → Publication
    → Option DeliveryEvidence
    → Effect
unfolding decided_effect evidence_for projected project_decision
on_evidence e prior retry issue stage p none = held "current PR identity unavailable" "" e
on_evidence e prior retry issue stage p (some o) =
    if not (evidence_for p o)
    then held "current PR identity unavailable" "" e
    else if not issue.opened && not o.merged
    then held "source issue closed before merge" "inspect issue closure or restore owner authority"
        e
    else decided_effect e prior retry o (project_decision (projected stage p o))

-- The publication of a draft, from its test on.
unfoldable pub on_publication :
    Effect
    → BoardProjection
    → Bool
    → Snapshot
    → String
    → Attempt
    → Map DeliveryEvidence
    → Option Publication
    → Effect
unfolding on_evidence
on_publication e prior retry issue stage a evidence none =
    held "candidate publication pending or blocked" "" e
on_publication e prior retry issue stage a evidence (some p) =
    if not (a.phase == Phase.draft) || ltb_ℤ p.pr_number (pos 1)
    then held "candidate publication pending or blocked" "" e
    else on_evidence e prior retry issue stage p (get issue.issue_id evidence)

-- The attempt delivers the issue.
unfoldable pub delivers_issue : String → Snapshot → Attempt → Bool
delivers_issue repository issue a = not (
    not (a.admission.issue == issue.number)
    || not (a.admission.project_id == issue.project_id)
    || not (equal_fold a.admission.repository repository))

-- The attempt was admitted for the approved scope.
unfoldable pub admitted_for : Snapshot → String → SpecRecord → Attempt → Bool
admitted_for issue stage r a = not (
    not (a.admission.spec_digest == r.approved_digest)
    || not (a.spec_revision == r.revision)
    || not (after a.admission.status_updated_at r.backlog_updated_at)
    || not (a.admission.project_item_id == issue.project_item_id)
    || not (a.admission.project_id == issue.project_id)
    || (stage == "ready")
      && (not (a.admission.status_option_id == issue.status_option_id)
          || not (a.admission.status_updated_at == issue.status_updated_at)))

-- `string(attempt.Phase)` of a terminal attempt.
unfoldable pub terminal_phase : Phase → Option String
terminal_phase Phase.blocked = some "blocked"
terminal_phase Phase.deferred = some "deferred"
terminal_phase _ = none

-- From the terminal phases on.
unfoldable pub on_phase :
    ScanInput
    → Effect
    → BoardProjection
    → Bool
    → Snapshot
    → String
    → Attempt
    → Option String
    → Effect
unfolding on_publication
on_phase input e prior retry issue stage a (some phase) =
    held phase "inspect bounded delivery outcome" e
on_phase input e prior retry issue stage a none =
    if (stage == "ready") && (a.phase == Phase.pending) && is_nil a.owner
    then e
    else on_publication e prior retry issue stage a input.evidence a.publication

-- From `attempt, exists := attempts[...]` on.
unfoldable pub on_attempt :
    ScanInput
    → Effect
    → BoardProjection
    → Bool
    → Snapshot
    → String
    → SpecRecord
    → Option Attempt
    → Effect
unfolding on_phase admitted_for delivers_issue terminal_phase
on_attempt input e prior retry issue stage r none =
    if not (stage == "ready")
      || not issue.opened
      || not (after issue.status_updated_at r.backlog_updated_at)
    then held "delivery attempt unavailable" "" e
    else e
on_attempt input e prior retry issue stage r (some a) =
    if not (delivers_issue input.repository issue a)
    then held "delivery attempt unavailable" "" e
    else if not (admitted_for issue stage r a)
    then held "approved scope unavailable or changed" "" e
    else on_phase input e prior retry issue stage a (terminal_phase a.phase)

-- The record approves the scope of the issue.
unfoldable pub approves : ScanInput → Snapshot → SpecRecord → Bool
unfolding holds_at
approves input issue r = not (
    not (holds_at issue.issue_id input.authority)
    || (r.approved_digest == "")
    || not (r.approved_digest == r.spec_digest)
    || not (r.issue == issue.number)
    || not (r.project_item_id == issue.project_item_id)
    || not (r.project_id == issue.project_id)
    || not (equal_fold r.repository input.repository))

-- The source idea is the approved one, `CanonicalSpec` of the issue's text given.
unfoldable pub unchanged_source : Snapshot → SpecRecord → Option CanonicalSpec → Bool
unchanged_source issue r none = false
unchanged_source issue r (some spec) = not (
    not (spec.digest == r.source_digest)
    || not (is_zero issue.issue_last_edited_at)
      && not (after r.backlog_updated_at issue.issue_last_edited_at))
