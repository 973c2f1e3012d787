-- ===== src/Scenarios/Merged.antt =====
-- A pull request that was merged and checked, and one that the owner asked to repair.
use sofa.Base.{
  ◌≡◌, refl, String, true, false, not, none, some, Option, List, [], ◌∷◌, ◌||◌, ◌==◌, string_eq,
}
use sofa.Base.Int.{pos}
use sofa.Base.Text.{contains_any, to_lower, take_text, concat_text, join}
use sofa.Store.Decimal.{format_int}
use sofa.State.Clock.{Time}
use sofa.State.Records.{Phase, Attempt, Publication, RepairIntent}
use sofa.State.Same.{phase_eq}
use sofa.State.Patterns.{sha_pattern}
use sofa.Lifecycle.Gates.{commit_pattern}
use sofa.Release.Pulls.{PullSnapshot, CommitCheck}
use sofa.Release.Checks.{
  RequiredCheck, same_requirement, requirement_valid, check_for, later_than, latest_of, latest_from,
  state_of, outcome_of, after_check, evaluate_from, evaluate_checks,
}
use sofa.Release.Evaluate.{
  Decision, in_review, merged_kind, decided, pull_matches, short_sum, check_part, check_parts,
  with_event, evented, evaluate_pull, evaluate_published, evaluate,
}
use sofa.Release.Done.{ReleaseDone, evaluate-ReleaseDone}
use sofa.Feedback.Reviews.{
  PullReview, PullReviewComment, comment_of, comments_valid, bounded_text, inline_text, text_of,
  feedback_text,
}
use sofa.Feedback.Evaluate.{
  pull_open, owner_asks, reservation_open, decides_reserved, decision_of, decided_text,
  evaluate_feedback, only_reserved, evaluate_reserved_from, evaluate_reserved,
}
use sofa.Feedback.Bound.{OwnerFeedback, evaluate_reserved-Bound}
use sofa.Scenarios.Data.{key, sha, waiting, used}

-- One sum for all texts, one text for all times, and no sorting.
abbrev sum : String → String
sum s = key

abbrev stamp : Time → String
stamp t = "t"

abbrev sorted : List String → List String
sorted parts = parts

abbrev pub publication : Publication
publication = record {
  branch = "sofa/12";
  expected_head = sha;
  candidate_digest = key;
  head_sha = sha;
  pr_number = pos 7;
  pr_url = "https://github.com/kevin/sofa/pull/7";
}

abbrev pub draft : Attempt
draft = record waiting { phase = Phase.draft; publication = some publication }

abbrev merged : PullSnapshot
merged = record {
  number = pos 7;
  url = "https://github.com/kevin/sofa/pull/7";
  state = "closed";
  draft = false;
  merged = true;
  merge_commit_sha = sha;
  merged_at = 6000;
  head_sha = sha;
  head_ref = "sofa/12";
  head_repository = "kevin/sofa";
  base_sha = sha;
  base_ref = "main";
  base_repository = "kevin/sofa";
  updated_at = 6000;
}

abbrev required : List RequiredCheck
required = record { name = "test"; app_id = pos 1 } ∷ []

-- The check failed first, and succeeded in a later run.
abbrev checks : List CommitCheck
checks =
    record {
      name = "test";
      state = "failure";
      app_id = pos 1;
      updated_at = 7000;
      source_id = pos 1;
    }
    ∷ record {
      name = "test";
      state = "success";
      app_id = pos 1;
      updated_at = 8000;
      source_id = pos 2;
    }
    ∷ []

abbrev done : Decision
done = record {
  attempt_id = key;
  pr_number = pos 7;
  kind = "done";
  commit_sha = sha;
  evidence_ref = "https://github.com/kevin/sofa/pull/7";
  event_id = "release-0123456789abcdef-0123456789abcdef-done-0123456789abcdef";
}

evaluated : evaluate sum stamp sorted draft merged sha true required checks ≡ some done
unfolding evaluate evaluate_published evaluate_pull pull_matches in_review merged_kind decided
    evented with_event check_parts check_part short_sum take_text join same_requirement
    evaluate_checks evaluate_from requirement_valid check_for later_than latest_of latest_from
    state_of outcome_of after_check contains_any to_lower commit_pattern sha_pattern format_int
evaluated = refl

evaluate-ReleaseDone_example : ReleaseDone draft merged true required checks done
evaluate-ReleaseDone_example =
    evaluate-ReleaseDone sum stamp sorted draft merged sha true required checks done evaluated refl

abbrev in_order : List PullReviewComment → List PullReviewComment
in_order comments = comments

abbrev encoded : String → List PullReviewComment → Option String
encoded body comments = some body

abbrev remark : PullReviewComment
remark = record {
  id = pos 5;
  review_id = pos 3;
  user_id = "O_1";
  commit_sha = sha;
  path = "a.go";
  original_line = none;
  body = "Here.";
}

abbrev request : PullReview
request = record {
  id = pos 3;
  user_id = "O_1";
  state = "CHANGES_REQUESTED";
  commit_sha = sha;
  body = "Repair this.";
  submitted_at = 6500;
  comments = remark ∷ [];
}

abbrev pub reservation : RepairIntent
reservation = record {
  feedback_id = "review-7-3-0123456789abcdef";
  feedback_hash = key;
  pr_base_sha = sha;
  pr_head_sha = sha;
  pr_number = pos 7;
  candidate_sha = "";
  candidate_digest = "";
}

abbrev repairing : Attempt
repairing = record waiting {
  counts = record used { repairs = pos 1 };
  publication = some publication;
  repair = some reservation;
}

abbrev unmerged : PullSnapshot
unmerged = record merged { state = "open"; merged = false; merge_commit_sha = ""; merged_at = 0 }

again :
    evaluate_reserved in_order encoded sum repairing unmerged request "O_1"
    ≡ some (decision_of in_order encoded sum repairing unmerged request "Repair this.")
unfolding evaluate_reserved evaluate_reserved_from reservation_open only_reserved decides_reserved
    evaluate_feedback pull_open owner_asks decided_text decision_of feedback_text text_of
    inline_text bounded_text comments_valid comment_of short_sum take_text concat_text join
    format_int to_lower commit_pattern sha_pattern phase_eq
again = refl

evaluate_reserved-Bound_example :
    (i : RepairIntent) × (p : Publication) × (repairing.repair ≡ some i)
    × (repairing.publication ≡ some p)
    × (reservation_open repairing ≡ true)
    × ((not (i.candidate_sha == "") || not (i.candidate_digest == "")) ≡ false)
    × (decides_reserved i
          (decision_of in_order encoded sum repairing unmerged request "Repair this.")
        ≡ true)
    × OwnerFeedback in_order encoded sum repairing p unmerged request "O_1"
        (decision_of in_order encoded sum repairing unmerged request "Repair this.")
evaluate_reserved-Bound_example =
    evaluate_reserved-Bound in_order encoded sum repairing unmerged request "O_1"
      (decision_of in_order encoded sum repairing unmerged request "Repair this.") again
