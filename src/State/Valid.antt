-- ===== src/State/Valid.antt =====
-- internal/state/state.go: the `valid` methods, one record at a time.
use sofa.Base.{
  Bool, true, false, not, Option, none, some, [], ◌∷◌, ◌&&◌, ◌||◌, ◌==◌, string_eq, if◌then◌else◌,
  eqb, is_nil, all_set,
}
use sofa.Base.Int.{ℤ, pos, ltb_ℤ, leb_ℤ, int_eq}
use sofa.Base.Text.{has_prefix, contains_any, contains_text}
use sofa.State.Clock.{is_zero, before, after}
use sofa.State.Records.{
  Phase, DiscoveryPhase, Admission, Limits, Counters, Owner, Checkpoint, Publication, RepairIntent,
  RevertScanCursor, SpecRecord, DiscoveryPublication, DiscoveryTask, BoardProjection, PollCursor,
}
use sofa.State.Patterns.{digest_pattern, sha_pattern, repo_pattern, reference, valid_stage}

-- `const Version = 1`
abbrev pub version : ℤ
version = pos 1

unfoldable pub valid_owner : Owner → Bool
valid_owner o = reference o.run_id && ltb_ℤ (pos 0) o.run_attempt

-- `Limits.valid`
unfoldable pub limits_valid : Limits → Bool
limits_valid l =
    leb_ℤ (pos 0) l.model_calls
    && leb_ℤ (pos 0) l.repairs
    && leb_ℤ (pos 0) l.infrastructure_retries
    && ltb_ℤ (pos 0) l.runtime_seconds

-- `Counters.valid`
unfoldable pub counters_valid : Counters → Bool
counters_valid c =
    leb_ℤ (pos 0) c.model_calls
    && leb_ℤ (pos 0) c.repairs
    && leb_ℤ (pos 0) c.infrastructure_retries
    && leb_ℤ (pos 0) c.runtime_seconds

-- `Limits.permits`
unfoldable pub permits : Limits → Counters → Bool
unfolding counters_valid
permits l c =
    counters_valid c
    && leb_ℤ c.model_calls l.model_calls
    && leb_ℤ c.repairs l.repairs
    && leb_ℤ c.infrastructure_retries l.infrastructure_retries
    && leb_ℤ c.runtime_seconds l.runtime_seconds

-- `Admission.Validate`, whose only error is ErrInvalid.
unfoldable pub admission_valid : Admission → Bool
admission_valid a =
    repo_pattern a.repository
    && ltb_ℤ (pos 0) a.issue
    && digest_pattern a.spec_digest
    && digest_pattern a.config_digest
    && sha_pattern a.base_sha
    && reference a.project_id
    && reference a.project_item_id
    && reference a.status_option_id
    && not (is_zero a.status_updated_at)

-- `p.Phase == Executing || p.Phase == Validating`
unfoldable pub checkpoint_phase : Phase → Bool
checkpoint_phase Phase.executing = true
checkpoint_phase Phase.validating = true
checkpoint_phase _ = false

-- `Checkpoint.valid`
unfoldable pub checkpoint_valid : Checkpoint → Bool
unfolding checkpoint_phase
checkpoint_valid c =
    (c.version == version)
    && checkpoint_phase c.phase
    && reference c.artifact_id
    && digest_pattern c.digest
    && sha_pattern c.candidate_sha
    && valid_owner c.producer
    && ltb_ℤ (pos 0) c.generation
    && not (is_zero c.accepted_at)
    && after c.expires_at c.accepted_at

-- `Publication.valid`; the characters are ~ ^ : ? * [ and the backslash.
unfoldable pub publication_valid : Publication → Bool
publication_valid p =
    has_prefix p.branch "sofa/"
    && reference p.branch
    && not (contains_text p.branch "..")
    && not (contains_any p.branch (126 ∷ 94 ∷ 58 ∷ 63 ∷ 42 ∷ 91 ∷ 92 ∷ []))
    && sha_pattern p.expected_head
    && digest_pattern p.candidate_digest
    && leb_ℤ (pos 0) p.pr_number
    && ((p.pr_number == pos 0) && p.pr_url == "" && p.head_sha == ""
        || ltb_ℤ (pos 0) p.pr_number && has_prefix p.pr_url "https://" && sha_pattern p.head_sha)

-- `RepairIntent.valid`
unfoldable pub repair_valid : RepairIntent → Option Publication → Bool
repair_valid r none = false
repair_valid r (some p) =
    reference r.feedback_id
    && digest_pattern r.feedback_hash
    && sha_pattern r.pr_base_sha
    && sha_pattern r.pr_head_sha
    && ltb_ℤ (pos 0) r.pr_number
    && (p.pr_number == r.pr_number)
    && (p.head_sha == r.pr_head_sha)
    && ((r.candidate_digest == "") && r.candidate_sha == ""
        || digest_pattern r.candidate_digest && sha_pattern r.candidate_sha)

-- `RevertScanCursor.valid`
unfoldable pub cursor_valid : RevertScanCursor → Bool
cursor_valid c =
    if not (sha_pattern c.merge_sha)
      || not (c.completed_head == "") && not (sha_pattern c.completed_head)
    then false
    else if (c.active_base == "") && (c.active_head == "") && c.next_page == pos 0
    then not (c.completed_head == "")
    else sha_pattern c.active_base
      && sha_pattern c.active_head
      && not (c.active_base == c.active_head)
      && ltb_ℤ (pos 0) c.next_page
      && ((c.completed_head == "") && c.active_base == c.merge_sha
          || not (c.completed_head == "") && c.active_base == c.completed_head)

-- `DiscoveryPublication.valid`
unfoldable pub discovery_publication_valid : DiscoveryPublication → Bool
discovery_publication_valid p =
    digest_pattern p.digest && digest_pattern p.key && valid_owner p.producer

-- `PollCursor.valid`
unfoldable pub poll_valid : PollCursor → Bool
poll_valid p =
    leb_ℤ (pos 0) p.generation
    && ((p.generation == pos 0) && is_zero p.last_poll
        || ltb_ℤ (pos 0) p.generation && not (is_zero p.last_poll))
    && ((p.last_wake_id == "") || reference p.last_wake_id)

-- `BoardProjection.valid`
unfoldable pub projection_valid : BoardProjection → Bool
projection_valid p =
    if not (repo_pattern p.repository)
      || not (reference p.issue_id)
      || not (reference p.project_id)
      || not (reference p.project_item_id)
      || not (valid_stage p.stage)
      || not (reference p.option_id)
      || is_zero p.updated_at
    then false
    else if p.pending_stage == ""
    then (p.pending_option_id == "")
      && (p.pending_from_option_id == "")
      && is_zero p.pending_from_updated_at
    else valid_stage p.pending_stage
      && reference p.pending_option_id
      && (p.pending_from_option_id == p.option_id)
      && eqb p.pending_from_updated_at p.updated_at

-- The `switch` of `DiscoveryTask.valid`.
discovery_phase_valid : DiscoveryPhase → DiscoveryTask → Bool
discovery_phase_valid DiscoveryPhase.pending d =
    is_nil d.owner && (d.spec_digest == "") && d.comment_id == pos 0
discovery_phase_valid DiscoveryPhase.running d =
    not (is_nil d.owner)
    && (d.spec_digest == "")
    && (d.comment_id == pos 0)
    && ltb_ℤ (pos 0) d.model_calls
discovery_phase_valid DiscoveryPhase.review d =
    is_nil d.owner
    && is_nil d.publication
    && digest_pattern d.spec_digest
    && ltb_ℤ (pos 0) d.comment_id
    && reference d.comment_author_id
    && not (is_zero d.comment_created_at)
    && not (before d.comment_updated_at d.comment_created_at)
discovery_phase_valid DiscoveryPhase.blocked d =
    is_nil d.owner && is_nil d.publication && (d.spec_digest == "") && d.comment_id == pos 0
discovery_phase_valid DiscoveryPhase.canceled d =
    is_nil d.owner && is_nil d.publication && (d.spec_digest == "") && d.comment_id == pos 0
discovery_phase_valid (DiscoveryPhase.unknown s) d = false

is_running : DiscoveryPhase → Bool
is_running DiscoveryPhase.running = true
is_running _ = false

-- The owner of a Discovery task is well formed and the task runs.
discovery_owner_valid : DiscoveryTask → Option Owner → Bool
unfolding is_running
discovery_owner_valid d none = true
discovery_owner_valid d (some o) =
    valid_owner o && not (d.generation == pos 0) && is_running d.phase

-- `DiscoveryTask.valid`
unfoldable pub discovery_valid : DiscoveryTask → Bool
unfolding discovery_phase_valid discovery_owner_valid
discovery_valid d =
    repo_pattern d.repository
    && reference d.issue_id
    && ltb_ℤ (pos 0) d.issue
    && reference d.project_id
    && reference d.project_item_id
    && reference d.status_option_id
    && not (is_zero d.status_updated_at)
    && digest_pattern d.source_digest
    && leb_ℤ (pos 0) d.revision
    && leb_ℤ (pos 0) d.generation
    && leb_ℤ (pos 0) d.model_calls
    && leb_ℤ (pos 1) d.max_model_calls
    && leb_ℤ d.max_model_calls (pos 20)
    && leb_ℤ d.model_calls d.max_model_calls
    && not (is_zero d.created_at)
    && not (before d.updated_at d.created_at)
    && discovery_owner_valid d d.owner
    && all_set discovery_publication_valid d.publication
    && discovery_phase_valid d.phase d

-- `SpecRecord.valid`
unfoldable pub spec_valid : SpecRecord → Bool
spec_valid r =
    leb_ℤ (pos 0) r.revision
    && repo_pattern r.repository
    && reference r.issue_id
    && ltb_ℤ (pos 0) r.issue
    && reference r.project_id
    && reference r.project_item_id
    && digest_pattern r.source_digest
    && digest_pattern r.spec_digest
    && ltb_ℤ (pos 0) r.comment_id
    && reference r.comment_author_id
    && not (is_zero r.comment_created_at)
    && not (before r.comment_updated_at r.comment_created_at)
    && reference r.review_option_id
    && not (is_zero r.review_updated_at)
    && (if r.approved_digest == ""
        then (r.backlog_option_id == "") && is_zero r.backlog_updated_at
        else (r.approved_digest == r.spec_digest)
          && reference r.backlog_option_id
          && after r.backlog_updated_at r.review_updated_at
          && after r.backlog_updated_at r.issue_edited_at)
