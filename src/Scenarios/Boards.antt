-- ===== src/Scenarios/Boards.antt =====
-- The theorems on the board and the scans at concrete items.
use sofa.Base.{
  string_eq, ℕ, ◌≡◌, refl, true, false, none, some, [], ◌∷◌, ◌≤◌, arith, not, ◌==◌, option_eq,
  if◌then◌else◌,
}
use sofa.Base.Int.{pos, add_int64}
use sofa.Base.Map.{get, put}
use sofa.State.Records.{
  BoardProjection, SpecRecord, Observation, RevertScanCursor, PollCursor, Ledger, Attempt,
}
use sofa.State.Patterns.{reference, repo_pattern, valid_stage, sha_pattern}
use sofa.State.Valid.{projection_valid, cursor_valid, poll_valid}
use sofa.State.Validate.{recorded_done_for_merge}
use sofa.State.Same.{board_projection_eq, revert_scan_cursor_eq}
use sofa.Engine.Outcome.{Error, Outcome, apply, require}
use sofa.Board.Projection.{
  begin_board_move, begin_allowed, begin_edit, with_intent, cancel_board_move, cancel_allowed,
  factory_transition,
}
use sofa.Board.Moves.{BoardCall, BoardEffect, SameItem, board_operation, board_call-BoardEffect}
use sofa.Board.Intents.{BoardRun, board_forward, intent_replayed, intent_cancelled}
use sofa.Scans.Poll.{
  PollClaim, cursor_of, claim_poll, poll_schedule, poll_step, poll_due, moved_backward, coalesced,
  time_due, wake_due, claimed_cursor, poll_granted,
}
use sofa.Scans.Schedule.{PollAdvance, poll_coalesces, claim_poll-PollAdvance}
use sofa.Scans.Revert.{
  advance_revert_scan, advance_scan_step, advance_scan_edit, valid_revert_scan_step, scan_raced,
}
use sofa.Scans.Current.{Current, concerns, approved_for, current_from, current_attempt_for_issue}
use sofa.Scans.Uniqueness.{concerned, current_unique}
use sofa.Base.Text.{to_lower}
use sofa.Scenarios.Data.{no_work, clock, key, sha, running}

abbrev item : BoardProjection
item = record {
  repository = "kevin/sofa";
  issue_id = "I_1";
  project_id = "PVT_1";
  project_item_id = "PVTI_1";
  stage = "ready";
  option_id = "opt_ready";
  updated_at = 1000;
  pending_stage = "";
  pending_option_id = "";
  pending_from_option_id = "";
  pending_from_updated_at = 0;
}

abbrev board : Ledger
board = record no_work { projections = ("I_1", item) ∷ [] }

abbrev planned : BoardProjection
planned = with_intent item "building" "opt_building" item

abbrev board_planned : Ledger
board_planned = record no_work { projections = ("I_1", planned) ∷ [] }

allowed : begin_allowed item "building" "opt_building" ≡ true
unfolding begin_allowed projection_valid reference repo_pattern valid_stage factory_transition
allowed = refl

begun :
    apply (begin_board_move item "building" "opt_building") clock board
    ≡ Outcome.changed board_planned tt
unfolding begin_board_move require begin_allowed projection_valid reference repo_pattern valid_stage
    factory_transition begin_edit get put board_projection_eq
begun = refl

intent_replayed_example :
    apply (begin_board_move item "building" "opt_building") clock board_planned
    ≡ Outcome.unchanged tt
intent_replayed_example =
    intent_replayed item "building" "opt_building" "building" "opt_building" clock clock board
      board_planned begun allowed

cancellable : cancel_allowed item "spec_review" ≡ true
unfolding cancel_allowed projection_valid reference repo_pattern valid_stage
cancellable = refl

intent_cancelled_example :
    (u : Ledger) × (apply (cancel_board_move item "spec_review") clock board_planned
      ≡ Outcome.changed u tt)
    × (get "I_1" u.projections ≡ some item)
intent_cancelled_example =
    intent_cancelled item "building" "opt_building" "spec_review" clock clock board board_planned
      begun cancellable refl

begun_call :
    apply (board_operation (BoardCall.begins item "building" "opt_building")) clock board
    ≡ Outcome.changed board_planned tt
unfolding board_operation
begun_call = begun

listed : get "I_1" board.projections ≡ some item
unfolding get
listed = refl

board_call-BoardEffect_example :
    BoardEffect (BoardCall.begins item "building" "opt_building") "I_1" board board_planned
board_call-BoardEffect_example =
    board_call-BoardEffect (BoardCall.begins item "building" "opt_building") clock board
      board_planned "I_1" begun_call

board_forward_example :
    (q : BoardProjection) × (get "I_1" board_planned.projections ≡ some q)
    × (1000 ≤ q.updated_at)
    × SameItem item q
board_forward_example =
    board_forward board board_planned "I_1" item
      (BoardRun.after_call (BoardCall.begins item "building" "opt_building") clock BoardRun.here
        begun_call)
      listed

-- A ledger that was polled once, an hour before.
abbrev polled : Ledger
polled = record no_work {
  poll = some (record { last_poll = 1000; last_wake_id = ""; generation = pos 1 });
}

abbrev interval : ℕ
interval = 600000000000

abbrev polled_again : Ledger
polled_again = record no_work {
  poll = some (record { last_poll = 3600000001000; last_wake_id = "run-7"; generation = pos 2 });
}

abbrev tick : PollClaim
tick = record { claimed = true; generation = pos 2; missed = pos 6; next = 4200000001000 }

ticked :
    apply (claim_poll 3600000001000 interval "run-7") clock polled
    ≡ Outcome.changed polled_again tick
unfolding claim_poll require poll_schedule reference poll_step poll_due moved_backward coalesced
    time_due wake_due claimed_cursor poll_granted add_int64
ticked = refl

schedule : poll_schedule 3600000002000 interval "run-7" ≡ true
unfolding poll_schedule reference
schedule = refl

poll_coalesces_example :
    apply (claim_poll 3600000002000 interval "run-7") clock polled_again
    ≡ Outcome.unchanged
        (record { claimed = false; generation = pos 2; missed = pos 0; next = 4200000001000 })
poll_coalesces_example =
    poll_coalesces 3600000001000 3600000002000 interval "run-7" clock clock polled polled_again tick
      ticked schedule (omega arith) (omega arith)

cursor_fine : poll_valid (cursor_of polled.poll) ≡ true
unfolding poll_valid reference
cursor_fine = refl

claim_poll-PollAdvance_example :
    (c : PollCursor) × (polled_again.poll ≡ some c)
    × (3600000001000 ≤ c.last_poll)
    × PollAdvance interval (cursor_of polled.poll) c tick
claim_poll-PollAdvance_example =
    claim_poll-PollAdvance 3600000001000 interval "run-7" clock polled polled_again tick ticked
      cursor_fine (omega arith) (omega arith)

-- A finished attempt whose scan starts at its merge.
abbrev published : Attempt
published = record running {
  publication = some (record {
    branch = "sofa/12";
    expected_head = sha;
    candidate_digest = key;
    head_sha = sha;
    pr_number = pos 7;
    pr_url = "https://example.com/7";
  });
}

abbrev release_done : Observation
release_done = record {
  version = pos 1;
  id = "o1";
  attempt_id = key;
  stage = "release";
  outcome = "done";
  revision = sha;
  evidence_ref = "e1";
  model_calls = pos 0;
  duration_seconds = pos 0;
  recorded_at = 3000;
}

abbrev boundary : RevertScanCursor
boundary = record {
  merge_sha = sha;
  completed_head = sha;
  active_base = "";
  active_head = "";
  next_page = pos 0;
}

abbrev unscanned : Ledger
unscanned = record no_work { attempts = (key, published) ∷ []; observations = release_done ∷ [] }

abbrev scanned : Ledger
scanned = record no_work {
  attempts = (key, record published { revert_scan = some boundary }) ∷ [];
  observations = release_done ∷ [];
}

advanced :
    apply (advance_revert_scan key none boundary) clock unscanned ≡ Outcome.changed scanned tt
unfolding advance_revert_scan require cursor_valid sha_pattern advance_scan_step advance_scan_edit
    recorded_done_for_merge valid_revert_scan_step get put revert_scan_cursor_eq
advanced = refl

boundary_valid : cursor_valid boundary ≡ true
unfolding cursor_valid sha_pattern
boundary_valid = refl

scan_raced_example : apply (advance_revert_scan key none boundary) clock scanned ≡ (
    if not (recorded_done_for_merge scanned.observations key sha)
    then Outcome.failed Error.invalid
    else if some boundary == some boundary
    then Outcome.unchanged tt
    else Outcome.failed Error.conflict)
scan_raced_example =
    scan_raced key none boundary boundary clock clock unscanned scanned advanced
      (rw boundary_valid refl)

-- An issue with an approved specification and one live attempt.
abbrev approved_spec : SpecRecord
approved_spec = record {
  revision = pos 0;
  repository = "kevin/sofa";
  issue_id = "I_1";
  issue = pos 12;
  project_id = "PVT_1";
  project_item_id = "PVTI_9";
  source_digest = key;
  spec_digest = key;
  issue_edited_at = 0;
  comment_id = pos 4;
  comment_author_id = "U_1";
  comment_created_at = 100;
  comment_updated_at = 100;
  review_option_id = "opt_review";
  review_updated_at = 200;
  approved_digest = key;
  backlog_option_id = "opt_backlog";
  backlog_updated_at = 300;
}

abbrev delivering : Ledger
delivering = record no_work { attempts = (key, running) ∷ []; specs = ("I_1", approved_spec) ∷ [] }

chosen : current_attempt_for_issue delivering "I_1" ≡ Current.current running
unfolding current_attempt_for_issue current_from concerns approved_for get to_lower
chosen = refl

current_unique_example :
    (r : SpecRecord) × (get "I_1" delivering.specs ≡ some r)
    × ((r.approved_digest == "") ≡ false)
    × (concerns r running ≡ true)
    × (approved_for r running ≡ true)
    × (concerned r delivering.attempts ≡ 1)
current_unique_example = current_unique delivering "I_1" running chosen
