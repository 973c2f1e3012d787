-- ===== src/Scenarios/Hosted.antt =====
-- A configuration, the grant of an issue, and a poll that moves its item.
use mathlib.Core.List.{Memᴰ}
use sofa.Base.{◌≡◌, refl, String, Bool, true, false, some, [], ◌∷◌}
use sofa.Base.Int.{pos}
use sofa.Base.Map.{Map, get, put, count_entries}
use sofa.Base.Text.{
  contains_any, contains_text, has_suffix, trim_suffix, split_on, to_lower, all_chars, unix_lines,
}
use sofa.State.Records.{Phase, Attempt, SpecRecord, BoardProjection, Ledger}
use sofa.State.Same.{phase_eq}
use sofa.State.Patterns.{sha_pattern}
use sofa.Lifecycle.Stages.{status_of, statuses_distinct, statuses_valid, stage_for}
use sofa.Lifecycle.Gates.{commit_pattern}
use sofa.Lifecycle.Decide.{project_decision, decide_stage, head_matches}
use sofa.Config.Records.{Config, Recipe, effective_advice_fields, same_check}
use sofa.Config.Paths.{lower_part, safe_part, safe_path, within, allows}
use sofa.Config.Validate.{
  repository_pattern, env_pattern, id_pattern, identity, argv_valid, checks_valid, fields_distinct,
  release_checks_valid, field_valid, lifecycle_valid, recipe_valid, fields_valid, config_valid,
  config_digest,
}
use sofa.Config.Scope.{recipe_confined}
use sofa.Authority.Libraries.{Libraries}
use sofa.Authority.Grant.{Snapshot, Grant, normalize, canonical_spec, same_grant}
use sofa.Authority.Authorize.{
  unedited_since, is_ready, grant_of, in_delivery, as_ready, authorize_spec, authorize,
  revalidate_grant, revalidate, revalidate_later, revalidate_delivery,
}
use sofa.Authority.Kept.{Scope, StatusKept, grant-kept, revalidate_delivery-Scope}
use sofa.Reconcile.Input.{
  EffectKind, DeliveryEvidence, ScanInput, Effect, index_step, index_from, holds_at,
}
use sofa.Reconcile.Observed.{
  initial_effect, moved_to, reason_of, next_of, conflict_of, projected, fence_of, decided_effect,
  evidence_for, on_evidence, on_publication, delivers_issue, admitted_for, terminal_phase, on_phase,
  on_attempt, approves, unchanged_source,
}
use sofa.Reconcile.Scan.{
  delivers_stage, unmoved, arrived, not_begun, same_item, on_record, on_board, on_projection,
  effect_of, issue_valid, scan_from, scan,
}
use sofa.Reconcile.Order.{Effects, distinct_from, scan-Effects}
use sofa.Reconcile.Items.{lives_at, index_unique}
use sofa.Scenarios.Data.{digest, key, sha, no_work, waiting, evaluated}

-- Library functions that leave texts as they are, and one sum for all.
abbrev lib : Libraries
lib = record {
  clean = λ p. p;
  trimmed = λ s. s;
  valid_utf8 = λ s. true;
  tags_valid = λ c. true;
  encode_config = λ c. some "{}";
  encode_spec = λ title body. some "{}";
  sha256_hex = λ s. key;
}

abbrev statuses : Map String
statuses =
    ("inbox", "inbox")
    ∷ ("discovery", "discovery")
    ∷ ("spec_review", "spec_review")
    ∷ ("backlog", "backlog")
    ∷ ("ready", "ready")
    ∷ ("building", "building")
    ∷ ("verification", "verification")
    ∷ ("review", "review")
    ∷ ("release", "release")
    ∷ ("done", "done")
    ∷ []

abbrev formatting : Recipe
formatting = record { kind = "gofmt"; paths = "internal/a.go" ∷ [] }

abbrev consumer : Config
consumer = record {
  version = pos 1;
  repository = "kevin/sofa";
  repository_id = "R_1";
  project_id = "PVT_1";
  owner_id = "O_1";
  ready_status = "ready";
  allowed_paths = "internal/" ∷ [];
  profile = record { agent = "copilot"; secret_env = "COPILOT_TOKEN" };
  limits = record {
    attempt_seconds = pos 600;
    repair_attempts = pos 2;
    infra_retries = pos 1;
    max_agent_turns = pos 10;
    max_files = pos 5;
    max_file_bytes = pos 1000;
    max_total_bytes = pos 5000;
  };
  checks = record { id = "test"; argv = "go" ∷ "test" ∷ []; timeout_seconds = pos 60 } ∷ [];
  recipe = some formatting;
  lifecycle = some (record {
    statuses = statuses;
    poll_minutes = pos 10;
    discovery_wip = pos 2;
    delivery_wip = pos 1;
    spec_author_id = "";
    dependencies_field = "";
    priority_field = "";
    blocked_reason_field = "";
    next_action_field = "";
    required_checks = [];
  });
}

-- The whole of `Validate` of a configuration, opened.
unfoldable pub opened_config : Config → Bool
unfolding config_valid fields_valid recipe_valid lifecycle_valid checks_valid repository_pattern
    env_pattern identity id_pattern argv_valid fields_distinct release_checks_valid field_valid
    same_check effective_advice_fields statuses_distinct status_of get safe_path safe_part
    lower_part split_on allows within contains_any has_suffix trim_suffix to_lower all_chars
opened_config = config_valid lib.clean lib.trimmed lib.tags_valid lib.encode_config lib.sha256_hex

consumer-valid :
    config_valid lib.clean lib.trimmed lib.tags_valid lib.encode_config lib.sha256_hex consumer
    ≡ true
unfolding opened_config
consumer-valid = refl

recipe_confined_example :
    (safe_path lib.clean lib.trimmed "internal/a.go" ≡ true)
    × (has_suffix "internal/a.go" ".go" ≡ true)
    × ((entry : String) × Memᴰ entry consumer.allowed_paths
        × (within lib.clean lib.trimmed "internal/a.go" entry ≡ true)
        × (safe_path lib.clean lib.trimmed (trim_suffix entry "/") ≡ true))
recipe_confined_example =
    recipe_confined lib.clean lib.trimmed lib.tags_valid lib.encode_config lib.sha256_hex consumer
      formatting "internal/a.go" consumer-valid refl (Memᴰ.head refl)

abbrev wanted : Snapshot
wanted = record {
  repository = "Kevin/sofa";
  repository_id = "R_1";
  issue_id = "I_1";
  number = pos 12;
  title = "Title";
  body = "Body";
  opened = true;
  project_id = "PVT_1";
  project_private = true;
  project_item_id = "PVTI_9";
  current_status = "ready";
  status_option_id = "opt_ready";
  status_updated_at = 1000;
  issue_last_edited_at = 500;
  base_sha = sha;
  complete = true;
}

abbrev granted : Grant
granted = grant_of consumer wanted key key

authorized : authorize lib consumer wanted ≡ some (granted, "{}")
unfolding authorize authorize_spec is_ready unedited_since commit_pattern sha_pattern all_chars
    to_lower config_digest opened_config canonical_spec normalize unix_lines grant_of
authorized = refl

named : commit_pattern sha ≡ true
unfolding commit_pattern sha_pattern
named = refl

grant-kept_example :
    (revalidate lib consumer (record wanted { base_sha = sha }) granted ≡ true)
    × (revalidate_delivery lib consumer (record wanted { base_sha = sha }) granted ≡ true)
grant-kept_example = grant-kept lib consumer wanted granted "{}" sha authorized named

-- The item has moved on to Building.
abbrev moved : Snapshot
moved = record wanted {
  current_status = "building";
  status_option_id = "opt_building";
  status_updated_at = 5000;
}

delivered : revalidate_delivery lib consumer moved granted ≡ true
unfolding revalidate_delivery revalidate_later in_delivery as_ready revalidate revalidate_grant
    same_grant authorize authorize_spec is_ready unedited_since commit_pattern sha_pattern all_chars
    to_lower config_digest opened_config canonical_spec normalize unix_lines grant_of status_of get
delivered = refl

revalidate_delivery-Scope_example :
    Scope lib consumer moved granted × StatusKept consumer moved granted
revalidate_delivery-Scope_example = revalidate_delivery-Scope lib consumer moved granted delivered

-- A draft whose pull request is open at the candidate.
abbrev draft : Attempt
draft = record waiting {
  phase = Phase.draft;
  generation = pos 1;
  publication = some (record {
    branch = "sofa/12";
    expected_head = sha;
    candidate_digest = key;
    head_sha = sha;
    pr_number = pos 7;
    pr_url = "https://example.com/7";
  });
}

abbrev approval : SpecRecord
approval = record {
  revision = pos 0;
  repository = "kevin/sofa";
  issue_id = "I_1";
  issue = pos 12;
  project_id = "PVT_1";
  project_item_id = "PVTI_9";
  source_digest = key;
  spec_digest = key;
  issue_edited_at = 500;
  comment_id = pos 3;
  comment_author_id = "B_1";
  comment_created_at = 600;
  comment_updated_at = 600;
  review_option_id = "opt_review";
  review_updated_at = 700;
  approved_digest = key;
  backlog_option_id = "opt_backlog";
  backlog_updated_at = 900;
}

abbrev at_building : BoardProjection
at_building = record {
  repository = "kevin/sofa";
  issue_id = "I_1";
  project_id = "PVT_1";
  project_item_id = "PVTI_9";
  stage = "building";
  option_id = "opt_building";
  updated_at = 5000;
  pending_stage = "";
  pending_option_id = "";
  pending_from_option_id = "";
  pending_from_updated_at = 0;
}

abbrev delivering : Ledger
delivering = record no_work {
  attempts = (key, draft) ∷ [];
  specs = ("I_1", approval) ∷ [];
  projections = ("I_1", at_building) ∷ [];
}

abbrev seen_pull : DeliveryEvidence
seen_pull = record {
  pr_number = pos 7;
  pr_url = "https://example.com/7";
  head_sha = sha;
  base_sha = sha;
  closed = false;
  merged = false;
  merged_sha = "";
  gates = [];
  required_gates = "test" ∷ [];
  release_required = false;
  release_passed = false;
  release_sha = "";
  allow_fixture = false;
}

abbrev poll : ScanInput
poll = record {
  repository = "kevin/sofa";
  project_id = "PVT_1";
  statuses = statuses;
  issues = moved ∷ [];
  ledger = delivering;
  authority = ("I_1", true) ∷ [];
  evidence = ("I_1", seen_pull) ∷ [];
}

abbrev advance : Effect
advance = record {
  kind = EffectKind.move;
  issue_id = "I_1";
  issue_number = pos 12;
  from_stage = "building";
  to_stage = "verification";
  pr_fence = some (fence_of seen_pull);
  option_id = "opt_building";
  updated_at = 5000;
  blocked_reason = "";
  next_action = "";
  conflict = false;
  retry_intent = false;
  cancel_intent = false;
}

advances : scan lib digest poll ≡ some (advance ∷ [])
unfolding scan scan_from issue_valid effect_of on_projection on_board on_record same_item unmoved
    arrived not_begun delivers_stage approves unchanged_source on_attempt on_phase terminal_phase
    admitted_for delivers_issue on_publication on_evidence evidence_for decided_effect projected
    moved_to reason_of next_of conflict_of initial_effect holds_at index_from index_step fence_of
    statuses_valid statuses_distinct status_of stage_for contains_any get put to_lower
    project_decision decide_stage head_matches phase_eq canonical_spec normalize unix_lines
    contains_text evaluated
advances = refl

scan-Effects_example :
    Effects lib poll
      (index_from (record { attempts = []; ambiguous = [] }) delivering.attempts)
      (moved ∷ [])
      (advance ∷ [])
    × (distinct_from [] (moved ∷ []) ≡ true)
scan-Effects_example = scan-Effects lib digest poll (advance ∷ []) advances

indexed :
    get "PVTI_9"
      (index_from (record { attempts = []; ambiguous = [] }) delivering.attempts).attempts
    ≡ some draft
unfolding index_from index_step get put
indexed = refl

single :
    holds_at "PVTI_9"
      (index_from (record { attempts = []; ambiguous = [] }) delivering.attempts).ambiguous
    ≡ false
unfolding index_from index_step get put holds_at
single = refl

index_unique_example :
    (lives_at "PVTI_9" draft ≡ true) × (count_entries (lives_at "PVTI_9") delivering.attempts ≡ 1)
index_unique_example = index_unique "PVTI_9" delivering.attempts draft indexed single
