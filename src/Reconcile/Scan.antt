-- ===== src/Reconcile/Scan.antt =====
-- internal/lifecycle/reconcile.go: Scan. `digest` is the SHA-256 digest of an attempt's key.
use sofa.Base.{
  String, Bool, true, false, not, Option, none, some, List, [], ◌∷◌, ◌&&◌, ◌||◌, ◌==◌, string_eq,
  nat_eq, if◌then◌else◌, any, ltb, length,
}
use sofa.Base.Int.{pos, ltb_ℤ}
use sofa.Base.Text.{equal_fold}
use sofa.Base.Map.{get}
use sofa.State.Clock.{is_zero, after}
use sofa.State.Records.{SpecRecord, BoardProjection}
use sofa.State.Validate.{AttemptKey, validate}
use sofa.Lifecycle.Stages.{statuses_valid, stage_for}
use sofa.Authority.Libraries.{Libraries, spec_of}
use sofa.Authority.Grant.{Snapshot}
use sofa.Reconcile.Input.{ScanInput, Effect, ItemIndex, index_from, holds_at}
use sofa.Reconcile.Observed.{initial_effect, held, observed, on_attempt, approves, unchanged_source}

-- The stages of delivery, from Ready to Release.
unfoldable pub delivers_stage : String → Bool
delivers_stage stage =
    (stage == "ready")
    || (stage == "building")
    || (stage == "verification")
    || (stage == "review")
    || stage == "release"

-- The board shows the issue where the projection has it.
unfoldable pub unmoved : BoardProjection → String → Snapshot → Bool
unmoved prior stage issue = not (
    not (prior.stage == stage)
    || not (prior.option_id == issue.status_option_id)
    || not (prior.updated_at == issue.status_updated_at))

-- The pending move has arrived.
unfoldable pub arrived : BoardProjection → String → Snapshot → Bool
arrived prior stage issue =
    (stage == prior.pending_stage)
    && (issue.status_option_id == prior.pending_option_id)
    && after issue.status_updated_at prior.pending_from_updated_at

-- The board still shows where the pending move began.
unfoldable pub not_begun : BoardProjection → String → Snapshot → Bool
not_begun prior stage issue =
    (stage == prior.stage)
    && (issue.status_option_id == prior.option_id)
    && issue.status_updated_at == prior.updated_at

-- The projection is of the issue's Project item.
unfoldable pub same_item : ScanInput → Snapshot → BoardProjection → Bool
same_item input issue prior = not (
    not (equal_fold prior.repository input.repository)
    || not (prior.project_id == input.project_id)
    || not (prior.project_item_id == issue.project_item_id))

module _ (lib : Libraries) where
  -- From the record of the issue on.
  unfoldable pub on_record :
      ScanInput
      → ItemIndex
      → Effect
      → BoardProjection
      → Bool
      → Snapshot
      → String
      → Option SpecRecord
      → Effect
  unfolding on_attempt approves unchanged_source
  on_record input index e prior retry issue stage none =
      held "approved scope unavailable or changed" "" e
  on_record input index e prior retry issue stage (some r) =
      if not (approves input issue r)
      then held "approved scope unavailable or changed" "" e
      else if not (unchanged_source issue r (spec_of lib issue.title issue.body))
      then held "source idea changed after approval" "return to Spec Review for revised scope" e
      else on_attempt input e prior retry issue stage r (get issue.project_item_id index.attempts)

  -- From the comparison with the projection on.
  unfoldable pub on_board :
      ScanInput → ItemIndex → Effect → BoardProjection → Bool → Snapshot → String → Effect
  unfolding on_record holds_at delivers_stage unmoved
  on_board input index e prior retry issue stage =
      if not (unmoved prior stage issue)
      then observed e
      else if not (delivers_stage stage)
      then e
      else if holds_at issue.project_item_id index.ambiguous
      then held "ambiguous attempts for Project item" "inspect superseded task history" e
      else on_record input index e prior retry issue stage (get issue.issue_id input.ledger.specs)

  -- From `prior, exists := input.Ledger.Projections[...]` on.
  unfoldable pub on_projection :
      ScanInput → ItemIndex → Effect → Snapshot → String → Option BoardProjection → Effect
  unfolding on_board same_item arrived not_begun
  on_projection input index e issue stage none = observed e
  on_projection input index e issue stage (some prior) =
      if not (same_item input issue prior)
      then record e { blocked_reason = "Project item identity changed"; conflict = true }
      else if prior.pending_stage == ""
      then on_board input index e prior false issue stage
      else if arrived prior stage issue
      then observed e
      else if not_begun prior stage issue
      then on_board input index e prior true issue stage
      else record e {
        blocked_reason = "Project changed during pending transition";
        conflict = true;
      }

  -- The effect of one issue, by the stage of its status.
  unfoldable pub effect_of : ScanInput → ItemIndex → Snapshot → Option String → Effect
  unfolding on_projection initial_effect
  effect_of input index issue none =
      held "unknown Project status" "update trusted status mapping" (initial_effect issue "")
  effect_of input index issue (some stage) =
      on_projection input index (initial_effect issue stage) issue stage
        (get issue.issue_id input.ledger.projections)

  -- The issue is completely observed, and not among those seen.
  unfoldable pub issue_valid : ScanInput → List String → Snapshot → Bool
  issue_valid input seen issue = not (
      not issue.complete
      || not issue.project_private
      || not (equal_fold issue.repository input.repository)
      || not (issue.project_id == input.project_id)
      || (issue.issue_id == "")
      || (issue.project_item_id == "")
      || ltb_ℤ issue.number (pos 1)
      || (issue.status_option_id == "")
      || is_zero issue.status_updated_at
      || any (λ x. x == issue.issue_id) seen)

  -- The loop over the issues, with those seen; `none` is its error.
  unfoldable pub scan_from :
      ScanInput → ItemIndex → List String → List Snapshot → Option (List Effect)
  unfolding effect_of issue_valid stage_for
  scan_from input index seen [] = some []
  scan_from input index seen (issue ∷ issues) =
      if not (issue_valid input seen issue)
      then none
      else elim (scan_from input index (issue.issue_id ∷ seen) issues) [
        | none ↦ none
        | some effects ↦
            some (
              effect_of input index issue (stage_for input.statuses issue.current_status) ∷ effects)
      ]

  -- `Scan`; `none` is its error.
  unfoldable pub scan : (AttemptKey → String) → ScanInput → Option (List Effect)
  unfolding scan_from index_from statuses_valid
  scan digest input =
      if (input.repository == "")
        || (input.project_id == "")
        || not (statuses_valid lib.trimmed input.statuses)
        || not (validate digest input.ledger)
        || ltb 2000 (length input.issues)
      then none
      else scan_from input
          (index_from (record { attempts = []; ambiguous = [] }) input.ledger.attempts) []
          input.issues
