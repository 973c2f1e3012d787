-- ===== src/Board/Projection.antt =====
-- internal/state/projection.go: ObserveBoard, BeginBoardMove, PendingBoardMove, CancelBoardMove.
use sofa.Base.{
  String, Bool, not, Option, none, some, ◌&&◌, ◌||◌, ◌==◌, string_eq, nat_eq, if◌then◌else◌,
}
use Prim.Native.String.{◌++◌}
use sofa.Base.Map.{get, put}
use sofa.State.Clock.{zero_time, before, after}
use sofa.State.Records.{BoardProjection, Ledger}
use sofa.State.Same.{board_projection_eq}
use sofa.State.Patterns.{reference, valid_stage}
use sofa.State.Valid.{projection_valid}
use sofa.Engine.Outcome.{Error, Outcome, Operation, require}

-- `sameBoardRevision`
unfoldable pub same_board_revision : BoardProjection → BoardProjection → Bool
same_board_revision a b =
    a.stage == b.stage && a.option_id == b.option_id && a.updated_at == b.updated_at

-- `ownerTransition`
unfoldable pub owner_transition : String → String → Bool
owner_transition from to =
    not (from == "discovery") && to == "discovery"
    || (from == "spec_review") && to == "backlog"
    || (from == "backlog") && to == "ready"

-- `factoryTransition`. The source compares `from + ">" + to` with seven texts; none of their
-- parts has a `>`, but a stage may have one, so the texts are compared whole here as well.
unfoldable pub factory_transition : String → String → Bool
factory_transition from to =
    if to == "spec_review"
    then (from == "discovery") || from == "backlog"
    else let edge = from ++ (">" ++ to) in
      (edge == "ready>building")
      || (edge == "building>verification")
      || (edge == "verification>review")
      || (edge == "review>release")
      || (edge == "release>done")
      || (edge == "review>building")
      || (edge == "verification>building")

-- The ends of the part of a closure that works on one projection.
pub data BoardEdit : Type 0 where
  keep : BoardEdit
  write : BoardProjection → BoardEdit
  reject : Error → BoardEdit

-- What an edit of the projection under `id` does to the ledger.
abbrev pub commit_board : String → Ledger → BoardEdit → Outcome (Unit {0})
commit_board id s BoardEdit.keep = Outcome.unchanged tt
commit_board id s (BoardEdit.write p) =
    Outcome.changed (record s { projections = put id p s.projections }) tt
commit_board id s (BoardEdit.reject e) = Outcome.failed e

-- `ObserveBoard` on a projection with a pending move.
unfoldable pub observe_pending : BoardProjection → BoardProjection → BoardEdit
observe_pending observed prior =
    if observed.stage == prior.pending_stage
      && observed.option_id == prior.pending_option_id
      && after observed.updated_at prior.pending_from_updated_at
    then BoardEdit.write observed
    else if (observed.stage == "discovery")
        && not (prior.stage == "discovery")
        && after observed.updated_at prior.pending_from_updated_at
    then BoardEdit.write observed
    else if same_board_revision prior observed
    then BoardEdit.keep
    else BoardEdit.reject Error.conflict

-- `ObserveBoard` on a projection without one.
unfoldable pub observe_settled : BoardProjection → BoardProjection → BoardEdit
observe_settled observed prior =
    if same_board_revision prior observed
    then BoardEdit.keep
    else if not (owner_transition prior.stage observed.stage)
        || not (after observed.updated_at prior.updated_at)
    then BoardEdit.reject Error.conflict
    else BoardEdit.write observed

-- The closure of `ObserveBoard`, by the projection found.
unfoldable pub observe_edit : BoardProjection → Option BoardProjection → BoardEdit
observe_edit observed none = BoardEdit.write observed
observe_edit observed (some prior) =
    if not (prior.repository == observed.repository)
      || not (prior.project_id == observed.project_id)
      || not (prior.project_item_id == observed.project_item_id)
    then BoardEdit.reject Error.conflict
    else if before observed.updated_at prior.updated_at
    then BoardEdit.reject Error.conflict
    else if not (prior.pending_stage == "")
    then observe_pending observed prior
    else observe_settled observed prior

-- `ObserveBoard`
unfoldable pub observe_board : BoardProjection → Operation (Unit {0})
observe_board observed =
    require (projection_valid observed && observed.pending_stage == "") Error.invalid (
      Operation.attempt (λ clock s.
        commit_board observed.issue_id s
          (observe_edit observed (get observed.issue_id s.projections))))

-- A projection with the intent to move it from a revision.
abbrev pub with_intent : BoardProjection → String → String → BoardProjection → BoardProjection
with_intent expected stage option prior = record prior {
  pending_stage = stage;
  pending_option_id = option;
  pending_from_option_id = expected.option_id;
  pending_from_updated_at = expected.updated_at;
}

-- The closure of `BeginBoardMove`, by the projection found.
unfoldable pub begin_edit : BoardProjection → String → String → Option BoardProjection → BoardEdit
begin_edit expected stage option none = BoardEdit.reject Error.not_found
begin_edit expected stage option (some prior) =
    if not (prior.pending_stage == "")
    then (if prior.pending_stage == stage
          && prior.pending_option_id == option
          && prior.pending_from_option_id == expected.option_id
          && prior.pending_from_updated_at == expected.updated_at
        then BoardEdit.keep
        else BoardEdit.reject Error.conflict)
    else if not (prior == expected)
    then BoardEdit.reject Error.conflict
    else BoardEdit.write (with_intent expected stage option prior)

-- The arguments that `BeginBoardMove` takes.
unfoldable pub begin_allowed : BoardProjection → String → String → Bool
begin_allowed expected stage option =
    projection_valid expected
    && (expected.pending_stage == "")
    && reference option
    && not (option == expected.option_id)
    && factory_transition expected.stage stage

-- `BeginBoardMove`
unfoldable pub begin_board_move : BoardProjection → String → String → Operation (Unit {0})
begin_board_move expected stage option =
    require (begin_allowed expected stage option) Error.invalid (
      Operation.attempt (λ clock s.
        commit_board expected.issue_id s
          (begin_edit expected stage option (get expected.issue_id s.projections))))

-- What `PendingBoardMove` returns on a ledger: an error, a projection that is absent or has no
-- pending move, a pending move, or the error of an invalid one.
pub data Pending : Type 0 where
  refused : Error → Pending
  idle : Option BoardProjection → Pending
  moving : BoardProjection → Pending
  malformed : Pending

-- `PendingBoardMove`, on the projection found.
unfoldable pub pending_found : Option BoardProjection → Pending
pending_found none = Pending.idle none
pending_found (some p) =
    if p.pending_stage == ""
    then Pending.idle (some p)
    else if not (projection_valid p) || not (factory_transition p.stage p.pending_stage)
    then Pending.malformed
    else Pending.moving p

-- `PendingBoardMove`, on the ledger that it loads.
unfoldable pub pending_board_move : Ledger → String → Pending
pending_board_move s id =
    if not (reference id)
    then Pending.refused Error.invalid
    else pending_found (get id s.projections)

-- A projection without its intent.
abbrev pub without_intent : BoardProjection → BoardProjection
without_intent prior = record prior {
  pending_stage = "";
  pending_option_id = "";
  pending_from_option_id = "";
  pending_from_updated_at = zero_time;
}

-- The closure of `CancelBoardMove`, by the projection found.
unfoldable pub cancel_edit : BoardProjection → String → Option BoardProjection → BoardEdit
cancel_edit observed next none = BoardEdit.reject Error.conflict
cancel_edit observed next (some prior) =
    if (prior.pending_stage == "") || prior.pending_stage == next
    then BoardEdit.reject Error.conflict
    else if not (without_intent prior == observed)
    then BoardEdit.reject Error.conflict
    else BoardEdit.write (without_intent prior)

-- The arguments that `CancelBoardMove` takes.
unfoldable pub cancel_allowed : BoardProjection → String → Bool
cancel_allowed observed next =
    projection_valid observed
    && (observed.pending_stage == "")
    && ((next == "") || valid_stage next)

-- `CancelBoardMove`
unfoldable pub cancel_board_move : BoardProjection → String → Operation (Unit {0})
cancel_board_move observed next = require (cancel_allowed observed next) Error.invalid (
    Operation.attempt (λ clock s.
      commit_board observed.issue_id s
        (cancel_edit observed next (get observed.issue_id s.projections))))
