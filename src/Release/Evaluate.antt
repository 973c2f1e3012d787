-- ===== src/Release/Evaluate.antt =====
-- internal/release/release.go: EvaluateDesignated, Evaluate and the event's identity.
-- Parameters: SHA-256 in hexadecimal digits, the time layout RFC3339Nano in UTC, sort.Strings.
use sofa.Base.{
  String, Bool, not, Option, none, some, List, [], ◌∷◌, ◌&&◌, ◌||◌, ◌==◌, string_eq, if◌then◌else◌,
  any,
}
use sofa.Base.Int.{ℤ, pos, ltb_ℤ, int_eq}
use sofa.Base.Text.{equal_fold, take_text, join}
use sofa.Store.Decimal.{format_int}
use sofa.State.Clock.{Time}
use sofa.State.Records.{Attempt, Publication}
use sofa.Lifecycle.Gates.{commit_pattern}
use sofa.Release.Pulls.{PullSnapshot, CommitCheck}
use sofa.Release.Checks.{RequiredCheck, same_requirement, evaluate_checks}

-- `Decision`
pub record Decision : Type 0 where
  pub attempt_id : String
  pub pr_number : ℤ
  pub kind : String
  pub commit_sha : String
  pub evidence_ref : String
  pub event_id : String

-- The decision before a terminal outcome of the pull request.
unfoldable pub in_review : String → PullSnapshot → Decision
in_review attempt_id pull = record {
  attempt_id = attempt_id;
  pr_number = pull.number;
  kind = "review";
  commit_sha = pull.head_sha;
  evidence_ref = pull.url;
  event_id = "";
}

-- The outcome for a merged commit: on the default branch, by its checks.
unfoldable pub merged_kind : Bool → List RequiredCheck → List CommitCheck → Option String
unfolding evaluate_checks
merged_kind on_default required checks =
    if not on_default then some "release-blocked" else evaluate_checks required checks

unfoldable pub decided : Decision → String → Option String → Option Decision
decided d sha none = none
decided d sha (some kind) = some (record d { kind = kind; commit_sha = sha })

-- `EvaluateDesignated`; `none` is its error.
unfoldable pub evaluate_designated :
    String
    → PullSnapshot
    → String
    → String
    → Bool
    → List RequiredCheck
    → List CommitCheck
    → Option Decision
unfolding decided merged_kind in_review commit_pattern
evaluate_designated repository pull expected default_head on_default required checks =
    if (repository == "")
      || not (equal_fold pull.head_repository repository)
      || not (equal_fold pull.base_repository repository)
      || not (commit_pattern default_head)
      || ltb_ℤ pull.number (pos 1)
    then none
    else if (pull.state == "open") && not pull.merged
    then some (in_review "" pull)
    else if (pull.state == "closed") && not pull.merged
    then some (record (in_review "" pull) { kind = "closed-unmerged" })
    else if not (pull.state == "closed")
        || not pull.merged
        || not (commit_pattern expected)
        || not (pull.merge_commit_sha == expected)
    then none
    else decided (in_review "" pull) expected (merged_kind on_default required checks)

-- The pull request is the published one of the attempt.
unfoldable pub pull_matches : Attempt → Publication → PullSnapshot → Bool
unfolding commit_pattern
pull_matches a p pull = not (
    (a.id == "")
    || not (pull.number == p.pr_number)
    || not (pull.url == p.pr_url)
    || not (commit_pattern pull.head_sha)
    || not (pull.head_sha == p.head_sha)
    || not (pull.head_ref == p.branch)
    || not (equal_fold pull.head_repository a.admission.repository)
    || not (equal_fold pull.base_repository a.admission.repository))

-- The first eight bytes of a SHA-256 sum, in hexadecimal digits.
unfoldable pub short_sum : (String → String) → String → String
short_sum sha256_hex s = take_text 16 (sha256_hex s)

module _ (sha256_hex : String → String) (stamp : Time → String)
    (sorted : List String → List String) where
  -- The text of one check in the event's identity.
  unfoldable pub check_part : CommitCheck → String
  check_part c =
      join ":"
        (c.name ∷ format_int c.app_id ∷ format_int c.source_id ∷ c.state ∷ stamp c.updated_at ∷ [])

  -- The texts of the required checks, in the order of `checks`.
  unfoldable pub check_parts : List RequiredCheck → List CommitCheck → List String
  unfolding check_part same_requirement
  check_parts required [] = []
  check_parts required (c ∷ checks) =
      let key : RequiredCheck = record { name = c.name; app_id = c.app_id } in
      let rest = check_parts required checks in
      if not (any (λ r. same_requirement r key) required) then rest else check_part c ∷ rest

  -- The end of `Evaluate`: the decision with the identity of its event.
  unfoldable pub with_event : List RequiredCheck → List CommitCheck → Decision → Decision
  unfolding short_sum check_parts
  with_event required checks d = record d {
    event_id = join "-" (
        "release"
        ∷ short_sum sha256_hex d.attempt_id
        ∷ take_text 16 d.commit_sha
        ∷ d.kind
        ∷ short_sum sha256_hex (join "\n" (sorted (check_parts required checks)))
        ∷ []);
  }

  unfoldable pub evented : List RequiredCheck → List CommitCheck → Option Decision → Option Decision
  unfolding with_event
  evented required checks none = none
  evented required checks (some d) = some (with_event required checks d)

  -- The `switch` of `Evaluate`, and what follows it.
  unfoldable pub evaluate_pull :
      Attempt → PullSnapshot → Bool → List RequiredCheck → List CommitCheck → Option Decision
  unfolding evented with_event decided merged_kind in_review commit_pattern
  evaluate_pull a pull on_default required checks =
      let d = in_review a.id pull in
      if (pull.state == "open") && not pull.merged
      then some d
      else if (pull.state == "closed") && not pull.merged
      then some (with_event required checks (record d { kind = "closed-unmerged" }))
      else if (pull.state == "closed") && pull.merged
      then (if not (commit_pattern pull.merge_commit_sha)
          then none
          else evented required checks
              (decided d pull.merge_commit_sha (merged_kind on_default required checks)))
      else none

  -- `Evaluate`, on the publication of the attempt.
  unfoldable pub evaluate_published :
      Attempt
      → PullSnapshot
      → String
      → Bool
      → List RequiredCheck
      → List CommitCheck
      → Option Publication
      → Option Decision
  unfolding evaluate_pull pull_matches commit_pattern
  evaluate_published a pull default_head on_default required checks none = none
  evaluate_published a pull default_head on_default required checks (some p) =
      if ltb_ℤ p.pr_number (pos 1)
      then none
      else if not (pull_matches a p pull)
      then none
      else if not (commit_pattern default_head)
      then none
      else evaluate_pull a pull on_default required checks

  -- `Evaluate`; `none` is its error.
  unfoldable pub evaluate :
      Attempt
      → PullSnapshot
      → String
      → Bool
      → List RequiredCheck
      → List CommitCheck
      → Option Decision
  unfolding evaluate_published
  evaluate a pull default_head on_default required checks =
      evaluate_published a pull default_head on_default required checks a.publication
