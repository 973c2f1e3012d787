-- ===== src/Discovery/Terms.antt =====
-- internal/state/discovery.go: what AdmitDiscovery asks of an admission, the task before it, the
-- record of the issue and its attempts.
use sofa.Base.{
  String, Bool, true, false, not, Option, none, some, ◌&&◌, ◌||◌, ◌==◌, string_eq, nat_eq,
  if◌then◌else◌, is_nil,
}
use sofa.Base.Int.{ℤ, pos, negsuc, int_eq, leb_ℤ, add_int64}
use sofa.Base.Map.{count_entries}
use sofa.Base.Text.{to_lower}
use sofa.State.Clock.{Time, zero_time, is_zero, after}
use sofa.State.Records.{DiscoveryPhase, Attempt, SpecRecord, DiscoveryTask, Ledger}
use sofa.State.SameTask.{discovery_phase_eq}
use sofa.Engine.Outcome.{Clock}

-- `DiscoveryAdmission`
pub record DiscoveryAdmission : Type 0 where
  pub repository : String
  pub issue_id : String
  pub issue : ℤ
  pub project_id : String
  pub project_item_id : String
  pub status_option_id : String
  pub status_updated_at : Time
  pub source_digest : String

-- What `AdmitDiscovery` assigns for its caller.
pub record AdmittedTask : Type 0 where
  pub task : DiscoveryTask
  pub created : Bool

-- The task of an admission; the clock is read twice.
unfoldable pub task_of : Clock → DiscoveryAdmission → ℤ → DiscoveryTask
task_of clock m max_model_calls = record {
  revision = pos 0;
  repository = to_lower m.repository;
  issue_id = m.issue_id;
  issue = m.issue;
  project_id = m.project_id;
  project_item_id = m.project_item_id;
  status_option_id = m.status_option_id;
  status_updated_at = m.status_updated_at;
  source_digest = m.source_digest;
  phase = DiscoveryPhase.pending;
  generation = pos 0;
  owner = none;
  model_calls = pos 0;
  max_model_calls = max_model_calls;
  publication = none;
  spec_digest = "";
  comment_id = pos 0;
  comment_author_id = "";
  comment_created_at = zero_time;
  comment_updated_at = zero_time;
  failure = "";
  created_at = clock 0;
  updated_at = clock 1;
}

-- The work in progress of a repository.
unfoldable pub in_progress : String → DiscoveryTask → Bool
in_progress repository d =
    d.repository == repository
    && ((d.phase == DiscoveryPhase.pending) || d.phase == DiscoveryPhase.running)

-- The same, but for one issue.
unfoldable pub in_progress_elsewhere : String → String → DiscoveryTask → Bool
unfolding in_progress
in_progress_elsewhere issue_id repository d =
    not (d.issue_id == issue_id) && in_progress repository d

-- `active >= maxActive`
unfoldable pub is_full : (DiscoveryTask → Bool) → ℤ → Ledger → Bool
is_full counted max_active s = leb_ℤ max_active (pos (count_entries counted s.discoveries))

-- The task waits without a worker.
unfoldable pub is_waiting : DiscoveryTask → Bool
is_waiting d = (d.phase == DiscoveryPhase.pending) && is_nil d.owner

-- The record is of the proposal that the task made.
unfoldable pub same_proposal : SpecRecord → DiscoveryTask → Bool
same_proposal r d =
    (r.repository == d.repository)
    && (r.issue == d.issue)
    && (r.project_id == d.project_id)
    && (r.project_item_id == d.project_item_id)
    && (r.source_digest == d.source_digest)
    && (r.spec_digest == d.spec_digest)
    && (r.comment_id == d.comment_id)
    && (r.comment_author_id == d.comment_author_id)
    && (r.comment_created_at == d.comment_created_at)
    && (r.comment_updated_at == d.comment_updated_at)

-- `completed`: the task's proposal was approved.
unfoldable pub is_completed : DiscoveryTask → Option SpecRecord → Bool
is_completed previous none = false
is_completed previous (some r) =
    (previous.phase == DiscoveryPhase.review)
    && not (r.approved_digest == "")
    && r.revision == previous.revision

-- The tests of the record of the issue against the task and its revision.
unfoldable pub record_allows : DiscoveryTask → DiscoveryTask → Option SpecRecord → Bool
unfolding is_completed same_proposal
record_allows previous task none = true
record_allows previous task (some r) =
    if is_completed previous (some r)
    then same_proposal r previous
      && not (task.source_digest == previous.source_digest)
      && after task.status_updated_at r.backlog_updated_at
    else if r.revision == previous.revision
    then (previous.phase == DiscoveryPhase.review)
      && (r.approved_digest == "")
      && same_proposal r previous
    else not (r.approved_digest == "") && r.revision == add_int64 previous.revision (negsuc 0)

-- The live attempts at the issue.
unfoldable pub delivers : DiscoveryTask → Attempt → Bool
delivers task a =
    (a.admission.repository == task.repository)
    && (a.admission.issue == task.issue)
    && is_zero a.superseded_at

-- An attempt may be superseded: it delivers the approved revision of the completed task.
unfoldable pub may_supersede : Bool → DiscoveryTask → DiscoveryTask → String → Attempt → Bool
may_supersede completed previous task approved a =
    completed
    && (a.spec_revision == previous.revision)
    && (a.admission.project_id == task.project_id)
    && (a.admission.project_item_id == task.project_item_id)
    && a.admission.spec_digest == approved
