-- ===== src/Engine/Admit.antt =====
-- internal/state/engine.go: Admit and supersessionFollowsApprovedRevision.
use sofa.Base.{
  String, Bool, true, false, not, Option, none, some, List, [], ◌∷◌, ◌&&◌, ◌||◌, ◌==◌, string_eq,
  if◌then◌else◌, is_nil, length, get_elem?, eqb,
}
use sofa.Base.Int.{ℤ, pos, pos_part, int_eq, ltb_ℤ, leb_ℤ, next_int64}
use sofa.Base.Text.{to_lower}
use sofa.Base.Map.{Map, get}
use sofa.State.Clock.{Time, zero_time, is_zero, after}
use sofa.State.Records.{
  Phase, DiscoveryPhase, Admission, Limits, Counters, Attempt, SpecRecord, DiscoveryTask, Ledger,
}
use sofa.State.Same.{admission_eq, limits_eq}
use sofa.State.Valid.{admission_valid, limits_valid, permits}
use sofa.State.Validate.{AttemptKey, attempt_id, history_of}
use sofa.Engine.Outcome.{Error, Outcome, Operation, Clock, put_attempt, require}

-- What a loop over a map finds: one entry at most, or two that compete.
pub data Pick (A : Type 0) : Type 0 where
  picked : Option A → Pick A
  ambiguous : Pick A

same_issue : Admission → Attempt → Bool
same_issue m a = a.admission.repository == m.repository && (a.admission.issue == m.issue)

-- The prior attempt after one more entry.
later_attempt : Option Attempt → Attempt → Pick Attempt
later_attempt none a = Pick.picked (some a)
later_attempt (some p) a =
    if ltb_ℤ p.spec_revision a.spec_revision
    then Pick.picked (some a)
    else if a.spec_revision == p.spec_revision
    then Pick.ambiguous
    else Pick.picked (some p)

visit_attempt : Admission → Option Attempt → Attempt → Pick Attempt
unfolding same_issue later_attempt
visit_attempt m prior a = if same_issue m a then later_attempt prior a else Pick.picked prior

-- The loop that looks for the attempt of the issue with the highest revision.
unfoldable pub find_prior : Admission → Option Attempt → Map Attempt → Pick Attempt
unfolding visit_attempt
find_prior m prior [] = Pick.picked prior
find_prior m prior ((k, a) ∷ rest) = elim (visit_attempt m prior a) [
  | Pick.ambiguous ↦ Pick.ambiguous
  | Pick.picked p ↦ find_prior m p rest
]

-- The loop that looks for the specification of the issue.
unfoldable pub find_approved : Admission → Option SpecRecord → Map SpecRecord → Pick SpecRecord
find_approved m found [] = Pick.picked found
find_approved m found ((k, r) ∷ rest) =
    let skip = find_approved m found rest in
    let take = find_approved m (some r) rest in
    if r.repository == m.repository && (r.issue == m.issue)
    then (if is_nil found then take else Pick.ambiguous)
    else skip

-- The tests of an approved specification against the admission.
unfoldable pub approval_matches : SpecRecord → Admission → Bool
approval_matches r m =
    r.approved_digest == m.spec_digest
    && r.project_id == m.project_id
    && r.project_item_id == m.project_item_id
    && after m.status_updated_at r.backlog_updated_at

-- The first and the last reset of one revision.
first_reset : ℤ → List DiscoveryTask → Option DiscoveryTask
first_reset n [] = none
first_reset n (t ∷ rest) = if t.revision == n then some t else first_reset n rest

last_reset : ℤ → Option DiscoveryTask → List DiscoveryTask → Option DiscoveryTask
last_reset n found [] = found
last_reset n found (t ∷ rest) = last_reset n (if t.revision == n then some t else found) rest

-- The history's task at an index that is in range.
task_at : ℤ → List DiscoveryTask → Option DiscoveryTask
task_at n history =
    if ltb_ℤ n (pos 0) || leb_ℤ (pos (length history)) n
    then none
    else get_elem? history (pos_part n)

-- The Discovery task that a specification completed: the current one, or the history's.
unfoldable pub completed_task : Ledger → SpecRecord → Option DiscoveryTask
unfolding task_at
completed_task s following = elim (get following.issue_id s.discoveries) [
  | none ↦ task_at following.revision (history_of following.issue_id s.discovery_history)
  | some current ↦
      if current.revision == following.revision
      then some current
      else task_at following.revision (history_of following.issue_id s.discovery_history)
]

in_review : DiscoveryPhase → Bool
in_review DiscoveryPhase.review = true
in_review _ = false

unfoldable pub completes : DiscoveryTask → SpecRecord → DiscoveryTask → Bool
unfolding in_review
completes completed following last =
    in_review completed.phase
    && (completed.revision == following.revision)
    && (completed.repository == following.repository)
    && (completed.issue == following.issue)
    && (completed.project_id == following.project_id)
    && (completed.project_item_id == following.project_item_id)
    && (completed.source_digest == following.source_digest)
    && (completed.spec_digest == following.spec_digest)
    && (completed.comment_id == following.comment_id)
    && (completed.comment_author_id == following.comment_author_id)
    && eqb completed.comment_created_at following.comment_created_at
    && eqb completed.comment_updated_at following.comment_updated_at
    && after completed.status_updated_at last.status_updated_at
    && leb_ℤ last.model_calls completed.model_calls

-- The resets of the specification's issue bridge the superseded source and the approved one.
bridged : Ledger → Attempt → SpecRecord → Option DiscoveryTask → Option DiscoveryTask → Bool
bridged s prior following none last = false
bridged s prior following (some first) none = false
bridged s prior following (some first) (some last) =
    first.source_digest == prior.superseded_source_digest
    && (elim (completed_task s following) [ none ↦ false | some c ↦ completes c following last ])

-- `supersessionFollowsApprovedRevision`
unfoldable pub supersession_follows : Ledger → Attempt → SpecRecord → Bool
unfolding bridged first_reset last_reset
supersession_follows s prior following =
    let resets = history_of following.issue_id s.discovery_reset_history in
    if prior.superseded_source_digest == following.source_digest
    then true
    else bridged s prior following (first_reset following.revision resets)
        (last_reset following.revision none resets)

-- The specification that follows the prior attempt's: the approved one, or the history's.
unfoldable pub following_record : Ledger → Attempt → SpecRecord → Option SpecRecord
following_record s prior approved =
    let index = next_int64 prior.spec_revision in
    let history = history_of approved.issue_id s.spec_history in
    if ltb_ℤ index approved.revision
    then (if leb_ℤ (pos (length history)) index then none else get_elem? history (pos_part index))
    else some approved

follows_prior : Ledger → Attempt → Option SpecRecord → Bool
follows_prior s prior none = false
follows_prior s prior (some following) =
    supersession_follows s prior following
    && after following.backlog_updated_at prior.admission.status_updated_at

-- The tests on a prior attempt.
unfoldable pub may_succeed : Ledger → Limits → Attempt → Option SpecRecord → Bool
unfolding follows_prior
may_succeed s limits prior none = false
may_succeed s limits prior (some approved) =
    not (is_zero prior.superseded_at)
    && ltb_ℤ prior.spec_revision approved.revision
    && after approved.backlog_updated_at prior.admission.status_updated_at
    && permits limits prior.counts
    && follows_prior s prior (following_record s prior approved)

abbrev pub no_counts : Counters
no_counts = record {
  model_calls = pos 0;
  repairs = pos 0;
  infrastructure_retries = pos 0;
  runtime_seconds = pos 0;
}

-- The attempt that `Admit` creates.
unfoldable pub new_attempt : String → Admission → Limits → ℤ → Counters → Time → Attempt
new_attempt id m limits revision counts now = record {
  id = id;
  admission = m;
  spec_revision = revision;
  superseded_at = zero_time;
  superseded_source_digest = "";
  phase = Phase.pending;
  generation = pos 0;
  owner = none;
  dispatch = "pending";
  limits = limits;
  counts = counts;
  checkpoint = none;
  publication = none;
  repair = none;
  revert_scan = none;
  failure = "";
  created_at = now;
  updated_at = now;
}

-- The attempt and whether it was created.
pub record Admitted : Type 0 where
  pub attempt : Attempt
  pub created : Bool

abbrev pub revision_of : Option SpecRecord → ℤ
revision_of none = pos 0
revision_of (some r) = r.revision

accept :
    String → Admission → Limits → Clock → Ledger → Option SpecRecord → Counters → Outcome Admitted
accept id m limits clock s approved counts =
    let a = new_attempt id m limits (revision_of approved) counts (clock 0) in
    Outcome.changed (put_attempt id a s) (record { attempt = a; created = true })

-- The end of the closure, by what its loops found.
unfoldable pub create :
    String
    → Admission
    → Limits
    → Clock
    → Ledger
    → Option Attempt
    → Option SpecRecord
    → Outcome Admitted
unfolding accept
create id m limits clock s none approved = accept id m limits clock s approved no_counts
create id m limits clock s (some p) approved =
    if may_succeed s limits p approved
    then accept id m limits clock s approved p.counts
    else Outcome.failed Error.admission_changed

-- `if approved != nil { ... }`
unfoldable pub approval_allows : Option SpecRecord → Admission → Bool
approval_allows none m = true
approval_allows (some r) m = approval_matches r m

unfoldable pub after_specs :
    String
    → Admission
    → Limits
    → Clock
    → Ledger
    → Option Attempt
    → Pick SpecRecord
    → Outcome Admitted
after_specs id m limits clock s prior Pick.ambiguous = Outcome.failed Error.admission_changed
after_specs id m limits clock s prior (Pick.picked approved) =
    if approval_allows approved m
    then create id m limits clock s prior approved
    else Outcome.failed Error.admission_changed

unfoldable pub after_attempts :
    String → Admission → Limits → Clock → Ledger → Pick Attempt → Outcome Admitted
unfolding after_specs
after_attempts id m limits clock s Pick.ambiguous = Outcome.failed Error.admission_changed
after_attempts id m limits clock s (Pick.picked prior) =
    after_specs id m limits clock s prior (find_approved m none s.specs)

-- An admission that the ledger knows: the same grant is replayed, any other is refused.
unfoldable pub replay : Admission → Limits → Attempt → Outcome Admitted
replay m limits a =
    if not (a.admission == m) || not (a.limits == limits) || not (is_zero a.superseded_at)
    then Outcome.failed Error.admission_changed
    else Outcome.unchanged (record { attempt = a; created = false })

-- The closure of `Admit`.
unfoldable pub admit_step : String → Admission → Limits → Clock → Ledger → Outcome Admitted
unfolding after_attempts
admit_step id m limits clock s = elim (get id s.attempts) [
  | some a ↦ replay m limits a
  | none ↦ after_attempts id m limits clock s (find_prior m none s.attempts)
]

-- `admission.Repository = strings.ToLower(admission.Repository)`
unfoldable pub lowered : Admission → Admission
lowered m = record m { repository = to_lower m.repository }

-- `Admit`
unfoldable pub admit : (AttemptKey → String) → Admission → Limits → Operation Admitted
admit digest m limits = require (admission_valid m) Error.invalid (
    require (limits_valid limits) Error.invalid
      (Operation.attempt (admit_step (attempt_id digest (lowered m)) (lowered m) limits)))
