-- ===== src/Lifecycle/Decide.antt =====
-- internal/lifecycle/lifecycle.go: ProjectDecision.
use sofa.Base.{String, Bool, not, List, ◌&&◌, ◌||◌, ◌==◌, string_eq, if◌then◌else◌}
use sofa.Lifecycle.Gates.{GateEvidence, Verdict, commit_pattern, gates_passed}

-- `Projection`
pub record Projection : Type 0 where
  pub current : String
  pub last_projected : String
  pub authorized : Bool
  pub published : Bool
  pub candidate_sha : String
  pub pr_head_sha : String
  pub pr_base_sha : String
  pub pr_exists : Bool
  pub pr_closed : Bool
  pub pr_merged : Bool
  pub required_gates : List String
  pub gate_evidence : List GateEvidence
  pub release_required : Bool
  pub release_passed : Bool
  pub release_sha : String
  pub merged_sha : String
  pub terminal_outcome : String
  pub allow_fixture : Bool

-- `Decision`, by the fields that the code sets: none, MoveTo, BlockedReason with NextAction, or
-- Conflict with NextAction.
pub data Decision : Type 0 where
  wait : Decision
  move_to : String → Decision
  blocked : String → String → Decision
  in_conflict : String → Decision

-- `GatesPassed` on the fields of a projection.
unfoldable pub gates_of : Projection → Verdict
gates_of p =
    gates_passed p.required_gates p.gate_evidence p.candidate_sha p.pr_base_sha p.allow_fixture

-- The pull request's head is the candidate.
unfoldable pub head_matches : Projection → Bool
head_matches p = p.pr_exists && not (p.candidate_sha == "") && p.pr_head_sha == p.candidate_sha

unfoldable pub candidate_lost : Decision
candidate_lost = Decision.blocked "candidate changed or unavailable" "revalidate exact PR head"

unfoldable pub decide_verified : Verdict → Decision
decide_verified Verdict.passed = Decision.move_to "review"
decide_verified (Verdict.held_back reason) =
    Decision.blocked reason "wait for current required gate evidence"

unfoldable pub decide_verification : Projection → Decision
unfolding candidate_lost decide_verified
decide_verification p =
    if not p.pr_exists || (p.pr_head_sha == "") || not (p.pr_head_sha == p.candidate_sha)
    then candidate_lost
    else decide_verified (gates_of p)

-- What follows passed gates, or their reason.
unfoldable pub after_gates : Verdict → Decision → Decision
after_gates Verdict.passed next = next
after_gates (Verdict.held_back reason) next =
    Decision.blocked reason "restore current required gate evidence"

unfoldable pub decide_review : Projection → Decision
unfolding candidate_lost after_gates
decide_review p =
    if not p.pr_exists || not (p.pr_head_sha == p.candidate_sha)
    then candidate_lost
    else after_gates (gates_of p) (
        if p.pr_merged && commit_pattern p.merged_sha
        then Decision.move_to "release"
        else Decision.wait)

unfoldable pub decide_release : Projection → Decision
unfolding candidate_lost after_gates
decide_release p =
    if not p.pr_exists || not (p.pr_head_sha == p.candidate_sha)
    then candidate_lost
    else after_gates (gates_of p) (
        if not p.pr_merged || not (commit_pattern p.merged_sha)
        then Decision.blocked "merge identity unavailable" "observe merged commit"
        else if not p.release_required || p.release_passed && p.release_sha == p.merged_sha
        then Decision.move_to "done"
        else Decision.blocked "release verification missing or failed"
            "observe release checks for merged commit")

-- The `switch` of `ProjectDecision`.
unfoldable pub decide_stage : Projection → Decision
decide_stage p =
    if p.current == "ready"
    then (if p.published && head_matches p then Decision.move_to "building" else Decision.wait)
    else if p.current == "building"
    then (if head_matches p then Decision.move_to "verification" else Decision.wait)
    else if p.current == "verification"
    then decide_verification p
    else if p.current == "review"
    then decide_review p
    else if p.current == "release"
    then decide_release p
    else Decision.wait

-- `ProjectDecision`
unfoldable pub project_decision : Projection → Decision
project_decision p =
    if not (p.current == p.last_projected) && not (p.last_projected == "")
    then Decision.in_conflict "inspect manual Project status change"
    else if not (p.terminal_outcome == "")
    then Decision.blocked p.terminal_outcome "inspect terminal task outcome"
    else if not p.authorized
    then Decision.blocked "authorization unavailable" "restore owner approval"
    else if p.pr_exists && p.pr_closed && not p.pr_merged
    then Decision.blocked "closed without merge" "inspect closed PR"
    else decide_stage p
