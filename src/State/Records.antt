-- ===== src/State/Records.antt =====
-- internal/state/state.go: the records of the ledger.
-- A pointer is an `Option`.
use sofa.Base.{String, Bool, Option, List}
use sofa.Base.Int.{ℤ}
use sofa.Base.Map.{Map}
use sofa.State.Clock.{Time}

-- Go's `type Phase string`, with a constructor for each constant and one for any other text.
pub data Phase : Type 0 where
  pending executing validating publishing draft blocked deferred : Phase
  unknown : String → Phase

pub data DiscoveryPhase : Type 0 where
  pending running review blocked canceled : DiscoveryPhase
  unknown : String → DiscoveryPhase

-- Immutable authorization references of an attempt.
pub record Admission : Type 0 where
  pub repository : String
  pub issue : ℤ
  pub spec_digest : String
  pub config_digest : String
  pub base_sha : String
  pub project_id : String
  pub project_item_id : String
  pub status_option_id : String
  pub status_updated_at : Time

-- The budget of an attempt.
pub record Limits : Type 0 where
  pub model_calls : ℤ
  pub repairs : ℤ
  pub infrastructure_retries : ℤ
  pub runtime_seconds : ℤ

-- What an attempt has used of its budget.
pub record Counters : Type 0 where
  pub model_calls : ℤ
  pub repairs : ℤ
  pub infrastructure_retries : ℤ
  pub runtime_seconds : ℤ

-- A run of the worker.
pub record Owner : Type 0 where
  pub run_id : String
  pub run_attempt : ℤ

-- The claim that a worker holds.
pub record Fence : Type 0 where
  pub attempt_id : String
  pub generation : ℤ
  pub owner : Owner

-- A retained candidate.
pub record Checkpoint : Type 0 where
  pub version : ℤ
  pub phase : Phase
  pub artifact_id : String
  pub digest : String
  pub candidate_sha : String
  pub producer : Owner
  pub generation : ℤ
  pub accepted_at : Time
  pub expires_at : Time

-- The branch and pull request of an attempt.
pub record Publication : Type 0 where
  pub branch : String
  pub expected_head : String
  pub candidate_digest : String
  pub head_sha : String
  pub pr_number : ℤ
  pub pr_url : String

-- An authorized review repair of one pull request head.
pub record RepairIntent : Type 0 where
  pub feedback_id : String
  pub feedback_hash : String
  pub pr_base_sha : String
  pub pr_head_sha : String
  pub pr_number : ℤ
  pub candidate_digest : String
  pub candidate_sha : String

-- The progress of a paged comparison of the default branch.
pub record RevertScanCursor : Type 0 where
  pub merge_sha : String
  pub completed_head : String
  pub active_base : String
  pub active_head : String
  pub next_page : ℤ

-- One authorized attempt at an issue.
pub record Attempt : Type 0 where
  pub id : String
  pub admission : Admission
  pub spec_revision : ℤ
  pub superseded_at : Time
  pub superseded_source_digest : String
  pub phase : Phase
  pub generation : ℤ
  pub owner : Option Owner
  pub dispatch : String
  pub limits : Limits
  pub counts : Counters
  pub checkpoint : Option Checkpoint
  pub publication : Option Publication
  pub repair : Option RepairIntent
  pub revert_scan : Option RevertScanCursor
  pub failure : String
  pub created_at : Time
  pub updated_at : Time

-- Machine-observed metadata of an attempt.
pub record Observation : Type 0 where
  pub version : ℤ
  pub id : String
  pub attempt_id : String
  pub stage : String
  pub outcome : String
  pub revision : String
  pub evidence_ref : String
  pub model_calls : ℤ
  pub duration_seconds : ℤ
  pub recorded_at : Time

-- A specification proposal and its approval.
pub record SpecRecord : Type 0 where
  pub revision : ℤ
  pub repository : String
  pub issue_id : String
  pub issue : ℤ
  pub project_id : String
  pub project_item_id : String
  pub source_digest : String
  pub spec_digest : String
  pub issue_edited_at : Time
  pub comment_id : ℤ
  pub comment_author_id : String
  pub comment_created_at : Time
  pub comment_updated_at : Time
  pub review_option_id : String
  pub review_updated_at : Time
  pub approved_digest : String
  pub backlog_option_id : String
  pub backlog_updated_at : Time

-- A fenced intent to post one comment.
pub record DiscoveryPublication : Type 0 where
  pub digest : String
  pub key : String
  pub post_attempted : Bool
  pub producer : Owner

-- The bounded research work on an issue.
pub record DiscoveryTask : Type 0 where
  pub revision : ℤ
  pub repository : String
  pub issue_id : String
  pub issue : ℤ
  pub project_id : String
  pub project_item_id : String
  pub status_option_id : String
  pub status_updated_at : Time
  pub source_digest : String
  pub phase : DiscoveryPhase
  pub generation : ℤ
  pub owner : Option Owner
  pub model_calls : ℤ
  pub max_model_calls : ℤ
  pub publication : Option DiscoveryPublication
  pub spec_digest : String
  pub comment_id : ℤ
  pub comment_author_id : String
  pub comment_created_at : Time
  pub comment_updated_at : Time
  pub failure : String
  pub created_at : Time
  pub updated_at : Time

-- The last accepted status of a Project item, with one pending move.
pub record BoardProjection : Type 0 where
  pub repository : String
  pub issue_id : String
  pub project_id : String
  pub project_item_id : String
  pub stage : String
  pub option_id : String
  pub updated_at : Time
  pub pending_stage : String
  pub pending_option_id : String
  pub pending_from_option_id : String
  pub pending_from_updated_at : Time

-- The last claimed scan.
pub record PollCursor : Type 0 where
  pub last_poll : Time
  pub last_wake_id : String
  pub generation : ℤ

-- The ledger. `attempts_made` is `Attempts != nil`; the other maps behave alike nil or empty.
pub record Ledger : Type 0 where
  pub version : ℤ
  pub attempts_made : Bool
  pub attempts : Map Attempt
  pub observations : List Observation
  pub specs : Map SpecRecord
  pub spec_history : Map (List SpecRecord)
  pub discoveries : Map DiscoveryTask
  pub discovery_history : Map (List DiscoveryTask)
  pub discovery_reset_history : Map (List DiscoveryTask)
  pub projections : Map BoardProjection
  pub poll : Option PollCursor
