-- ===== src/Feedback/Evaluate.antt =====
-- internal/review/review.go: Evaluate, EvaluateReserved and RecordLaterFeedback.
-- Parameters: those of FeedbackText, and SHA-256 in hexadecimal digits.
use sofa.Base.{
  ℕ, String, Bool, false, not, Option, none, some, List, [], ◌∷◌, ◌&&◌, ◌||◌, ◌==◌, string_eq, ltb,
  if◌then◌else◌,
}
use sofa.Base.Int.{ℤ, pos, int_eq, ltb_ℤ, leb_ℤ}
use sofa.Base.Text.{byte_len, equal_fold, concat_text, join}
use sofa.Store.Decimal.{format_int}
use sofa.Store.Interface.{Store}
use sofa.State.Clock.{Time, is_zero, before}
use sofa.State.Records.{Phase, Publication, RepairIntent, Attempt, Observation}
use sofa.State.Same.{phase_eq}
use sofa.State.Valid.{version}
use sofa.State.Validate.{AttemptKey}
use sofa.Engine.Outcome.{Error}
use sofa.Engine.Update.{Answer}
use sofa.Lifecycle.Gates.{commit_pattern}
use sofa.Release.Pulls.{PullSnapshot}
use sofa.Release.Evaluate.{short_sum}
use sofa.Release.Record.{Pass, append_once}
use sofa.Feedback.Reviews.{PullReview, PullReviewComment, feedback_text}

-- `Decision`
pub record Decision : Type 0 where
  pub attempt_id : String
  pub repository : String
  pub pr_number : ℤ
  pub pr_head_sha : String
  pub pr_base_sha : String
  pub feedback_id : String
  pub feedback_hash : String
  pub submitted_at : Time
  pub feedback_ref : String
  pub feedback_text : String

-- The open pull request is the published one of the attempt.
unfoldable pub pull_open : Attempt → Publication → PullSnapshot → Bool
unfolding commit_pattern
pull_open a p pull = not (
    not (pull.number == p.pr_number)
    || not (pull.url == p.pr_url)
    || not (pull.head_sha == p.head_sha)
    || not (pull.head_ref == p.branch)
    || not (equal_fold pull.head_repository a.admission.repository)
    || not (equal_fold pull.base_repository a.admission.repository)
    || not (pull.state == "open")
    || pull.merged
    || not (commit_pattern pull.base_sha))

-- The owner asked for changes of the current head.
unfoldable pub owner_asks : String → PullSnapshot → PullReview → Bool
owner_asks owner_id pull r = not (
    (owner_id == "")
    || not (r.user_id == owner_id)
    || ltb_ℤ r.id (pos 1)
    || not (r.state == "CHANGES_REQUESTED")
    || not (r.commit_sha == pull.head_sha)
    || is_zero r.submitted_at
    || ltb 65536 (byte_len r.body))

-- The reservation of the attempt, as `EvaluateReserved` asks for it.
unfoldable pub reservation_open : Attempt → Bool
reservation_open a = not (
    ltb_ℤ a.counts.repairs (pos 1)
    || ltb_ℤ a.limits.repairs a.counts.repairs
    || (a.phase == Phase.draft)
    || (a.phase == Phase.blocked)
    || a.phase == Phase.deferred)

-- The decision is of the reserved feedback.
unfoldable pub decides_reserved : RepairIntent → Decision → Bool
decides_reserved r d = not (
    not (d.feedback_id == r.feedback_id)
    || not (d.feedback_hash == r.feedback_hash)
    || not (d.pr_number == r.pr_number)
    || not (d.pr_head_sha == r.pr_head_sha)
    || not (d.pr_base_sha == r.pr_base_sha))

-- `SpecComment` of internal/discovery.
pub record SpecComment : Type 0 where
  pub id : ℤ
  pub author_id : String
  pub body : String
  pub created_at : Time
  pub updated_at : Time

module _ (sorted : List PullReviewComment → List PullReviewComment)
    (encode : String → List PullReviewComment → Option String) (sha256_hex : String → String) where
  -- The decision on a feedback's text.
  unfoldable pub decision_of : Attempt → PullSnapshot → PullReview → String → Decision
  unfolding short_sum
  decision_of a pull r feedback = record {
    attempt_id = a.id;
    repository = a.admission.repository;
    pr_number = pull.number;
    pr_head_sha = pull.head_sha;
    pr_base_sha = pull.base_sha;
    feedback_id =
        join "-" (
          "review" ∷ format_int pull.number ∷ format_int r.id ∷ short_sum sha256_hex feedback ∷ []);
    feedback_hash = sha256_hex feedback;
    submitted_at = r.submitted_at;
    feedback_ref = concat_text (
        "https://github.com/"
        ∷ a.admission.repository
        ∷ "/pull/"
        ∷ format_int pull.number
        ∷ "#pullrequestreview-"
        ∷ format_int r.id
        ∷ []);
    feedback_text = feedback;
  }

  unfoldable pub decided_text :
      Attempt → PullSnapshot → PullReview → Option String → Option Decision
  unfolding decision_of
  decided_text a pull r none = none
  decided_text a pull r (some feedback) = some (decision_of a pull r feedback)

  -- `evaluateFeedback`; `none` is its error.
  unfoldable pub evaluate_feedback :
      Attempt → Publication → PullSnapshot → PullReview → String → Option Decision
  unfolding pull_open owner_asks decided_text feedback_text
  evaluate_feedback a p pull r owner_id =
      if not (pull_open a p pull)
      then none
      else if not (owner_asks owner_id pull r)
      then none
      else decided_text a pull r (feedback_text sorted encode r)

  -- `Evaluate`, on the publication of the attempt.
  unfoldable pub evaluate_review_from :
      Attempt → PullSnapshot → PullReview → String → Option Publication → Option Decision
  unfolding evaluate_feedback
  evaluate_review_from a pull r owner_id none = none
  evaluate_review_from a pull r owner_id (some p) =
      if not (a.phase == Phase.draft)
        || ltb_ℤ p.pr_number (pos 1)
        || leb_ℤ a.limits.repairs a.counts.repairs
      then none
      else evaluate_feedback a p pull r owner_id

  -- `Evaluate`; `none` is its error.
  unfoldable pub evaluate_review : Attempt → PullSnapshot → PullReview → String → Option Decision
  unfolding evaluate_review_from
  evaluate_review a pull r owner_id = evaluate_review_from a pull r owner_id a.publication

  -- The decision, if it is of the reserved feedback.
  unfoldable pub only_reserved : RepairIntent → Option Decision → Option Decision
  unfolding decides_reserved
  only_reserved i none = none
  only_reserved i (some d) = if decides_reserved i d then some d else none

  -- `EvaluateReserved`, on the repair and the publication of the attempt.
  unfoldable pub evaluate_reserved_from :
      Attempt
      → PullSnapshot
      → PullReview
      → String
      → Option RepairIntent
      → Option Publication
      → Option Decision
  unfolding reservation_open only_reserved evaluate_feedback
  evaluate_reserved_from a pull r owner_id none o = none
  evaluate_reserved_from a pull r owner_id (some i) none = none
  evaluate_reserved_from a pull r owner_id (some i) (some p) =
      if not (reservation_open a)
      then none
      else if not (i.candidate_sha == "") || not (i.candidate_digest == "")
      then none
      else only_reserved i (evaluate_feedback a p pull r owner_id)

  -- `EvaluateReserved`; `none` is its error.
  unfoldable pub evaluate_reserved : Attempt → PullSnapshot → PullReview → String → Option Decision
  unfolding evaluate_reserved_from
  evaluate_reserved a pull r owner_id =
      evaluate_reserved_from a pull r owner_id a.repair a.publication

  -- `LaterFeedbackID`
  unfoldable pub later_feedback_id : String → SpecComment → String
  unfolding short_sum
  later_feedback_id attempt_id c =
      join "-" ("later-feedback" ∷ attempt_id ∷ format_int c.id ∷ short_sum sha256_hex c.body ∷ [])

  -- The guards of `RecordLaterFeedback`, on the publication of the attempt.
  unfoldable pub later_bound : Attempt → PullSnapshot → SpecComment → Option Publication → Bool
  unfolding commit_pattern
  later_bound a pull c none = false
  later_bound a pull c (some p) =
      not (
        not (pull.number == p.pr_number)
        || not (pull.url == p.pr_url)
        || not (pull.head_sha == p.head_sha)
        || not (pull.head_ref == p.branch)
        || not pull.merged
        || is_zero pull.merged_at
        || not (commit_pattern pull.merge_commit_sha)
        || ltb_ℤ c.id (pos 1)
        || before c.created_at pull.merged_at
        || ltb 65536 (byte_len c.body))
      && not (
          not (equal_fold pull.head_repository a.admission.repository)
          || not (equal_fold pull.base_repository a.admission.repository))

  -- The observation of `RecordLaterFeedback`.
  unfoldable pub later_observation : Attempt → PullSnapshot → SpecComment → Observation
  unfolding later_feedback_id
  later_observation a pull c = record {
    version = version;
    id = later_feedback_id a.id c;
    attempt_id = a.id;
    stage = "later-feedback";
    outcome = "reported";
    revision = pull.merge_commit_sha;
    evidence_ref = concat_text (
        "https://github.com/"
        ∷ a.admission.repository
        ∷ "/pull/"
        ∷ format_int pull.number
        ∷ "#issuecomment-"
        ∷ format_int c.id
        ∷ []);
    model_calls = pos 0;
    duration_seconds = pos 0;
    recorded_at = c.updated_at;
  }

  -- `RecordLaterFeedback`
  unfoldable pub record_later_feedback :
      (AttemptKey → String)
      → (S : Store) → Attempt
      → PullSnapshot
      → SpecComment
      → (ℕ → Pass S)
      → Store.World S
      → Store.World S × Answer (Unit {0})
  unfolding later_bound later_observation append_once
  record_later_feedback digest S a pull c p w =
      if not (later_bound a pull c a.publication)
      then (w, Answer.err Error.invalid)
      else append_once digest S (later_observation a pull c) p w
