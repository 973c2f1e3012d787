-- ===== src/Release/Checks.antt =====
-- internal/release/release.go: evaluateChecks.
use sofa.Base.{
  String, Bool, true, false, not, Option, none, some, List, [], ◌∷◌, ◌&&◌, ◌||◌, ◌==◌, string_eq,
  nat_eq, ltb, if◌then◌else◌, any, length,
}
use sofa.Base.Int.{ℤ, pos, int_eq, ltb_ℤ}
use sofa.Base.Text.{byte_len, contains_any}
use sofa.State.Clock.{is_zero, after}
use sofa.Release.Pulls.{CommitCheck}

-- `RequiredCheck`
pub record RequiredCheck : Type 0 where
  pub name : String
  pub app_id : ℤ

-- Two requirements are equal, as keys of a map.
unfoldable pub same_requirement : RequiredCheck → RequiredCheck → Bool
same_requirement a b = (a.name == b.name) && a.app_id == b.app_id

-- The requirement is well formed and not among those seen.
unfoldable pub requirement_valid : List RequiredCheck → RequiredCheck → Bool
unfolding same_requirement
requirement_valid seen r = not (
    (r.name == "")
    || ltb 200 (byte_len r.name)
    || contains_any r.name (13 ∷ 10 ∷ 0 ∷ [])
    || ltb_ℤ r.app_id (pos 1)
    || any (λ x. same_requirement x r) seen)

-- The check is one for the requirement, with a source and a time.
unfoldable pub check_for : RequiredCheck → CommitCheck → Bool
check_for r c = not (
    not (c.name == r.name)
    || not (c.app_id == r.app_id)
    || ltb_ℤ c.source_id (pos 1)
    || is_zero c.updated_at)

-- The check is later than another; the larger source decides between equal times.
unfoldable pub later_than : CommitCheck → CommitCheck → Bool
later_than c d =
    after c.updated_at d.updated_at
    || (c.updated_at == d.updated_at) && ltb_ℤ d.source_id c.source_id

-- `latest`, after one more check.
unfoldable pub latest_of : RequiredCheck → Option CommitCheck → CommitCheck → Option CommitCheck
unfolding check_for later_than
latest_of r none c = if not (check_for r c) then none else some c
latest_of r (some d) c =
    if not (check_for r c) then some d else if later_than c d then some c else some d

-- The loop over the checks, from the `latest` so far.
unfoldable pub latest_from :
    RequiredCheck → Option CommitCheck → List CommitCheck → Option CommitCheck
unfolding latest_of
latest_from r latest [] = latest
latest_from r latest (c ∷ checks) = latest_from r (latest_of r latest c) checks

-- What the switch on the latest check's state sets.
pub data CheckState : Type 0 where
  is_success is_blocked is_failure : CheckState

unfoldable pub state_of : Option CommitCheck → CheckState
state_of none = CheckState.is_blocked
state_of (some c) =
    if c.state == "success"
    then CheckState.is_success
    else if any (λ x. x == c.state)
        ("failure" ∷ "timed_out" ∷ "cancelled" ∷ "action_required" ∷ "startup_failure" ∷ [])
    then CheckState.is_failure
    else CheckState.is_blocked

-- The outcome, from whether a check blocks and whether one failed.
unfoldable pub outcome_of : Bool → Bool → String
outcome_of blocked failed =
    if failed then "release-failed" else if blocked then "release-blocked" else "done"

-- The step of the loop over the requirements that the state of a check takes.
unfoldable pub after_check :
    (Bool → Bool → Option String) → Bool → Bool → CheckState → Option String
after_check next blocked failed CheckState.is_success = next blocked failed
after_check next blocked failed CheckState.is_blocked = next true failed
after_check next blocked failed CheckState.is_failure = next blocked true

-- The loop over the requirements; `none` is its error.
unfoldable pub evaluate_from :
    List CommitCheck → List RequiredCheck → List RequiredCheck → Bool → Bool → Option String
unfolding requirement_valid latest_from state_of outcome_of after_check
evaluate_from checks seen [] blocked failed = some (outcome_of blocked failed)
evaluate_from checks seen (r ∷ required) blocked failed =
    if not (requirement_valid seen r)
    then none
    else after_check (evaluate_from checks (r ∷ seen) required) blocked failed
        (state_of (latest_from r none checks))

-- `evaluateChecks`
unfoldable pub evaluate_checks : List RequiredCheck → List CommitCheck → Option String
unfolding evaluate_from
evaluate_checks required checks =
    if ltb 20 (length required) then none else evaluate_from checks [] required false false
