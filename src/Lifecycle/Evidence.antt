-- ===== src/Lifecycle/Evidence.antt =====
-- What a passed gate plan and a decided move rest on.
use sofa.Base.{
  String, ◌≡◌, ◌≢◌, refl, Bool, true, false, not, Option, none, some, List, [], ◌∷◌, ◌&&◌, ◌==◌,
  string_eq, arith, eq_iff, Bool-cases, Option-cases, inl, inr, ◌⊎◌, any, some_inj, if◌then◌else◌,
}
use sofa.Base.Map.{Map, get}
use sofa.Lifecycle.Gates.{
  GateEvidence, Verdict, commit_pattern, counts_for, collect, gates_verdict, gates_passed,
}
use sofa.Lifecycle.Decide.{
  Projection, Decision, candidate_lost, decide_verified, after_gates, gates_of, decide_verification,
  decide_review, decide_release, decide_stage, project_decision,
}

-- Evidence of one gate that counts, with an outcome.
backs : (GateEvidence → Bool) → String → String → GateEvidence → Bool
backs counted gate outcome x = counted x && x.id == gate && x.outcome == outcome

collect-get :
    (counted : GateEvidence → Bool) (results out : Map GateEvidence) (rest : List GateEvidence)
    (gate : String) (r : GateEvidence)
    → collect counted results rest ≡ some out
    → get gate out ≡ some r
    → (get gate results ≡ some r) ⊎ (any (backs counted gate r.outcome) rest ≡ true)
unfolding collect backs get
collect-get counted results out [] gate r h e = inl (rw (some_inj h) e)
collect-get counted results out (x ∷ rest) gate r h e = ground (
  arith,
  collect-get counted results out rest gate r,
  collect-get counted ((x.id, x) ∷ results) out rest gate r,
  eq_iff x.id gate,
  eq_iff x.outcome r.outcome,
)

-- Every gate of the plan has counted evidence that it passed.
unfoldable pub all_backed : (GateEvidence → Bool) → List String → List GateEvidence → Bool
unfolding backs
all_backed counted [] evidence = true
all_backed counted (gate ∷ plan) evidence =
    any (backs counted gate "passed") evidence && all_backed counted plan evidence

verdict_step :
    (r : GateEvidence) (later : Verdict)
    → (if not (r.outcome == "passed")
        then Verdict.held_back "required gate did not pass"
        else later)
      ≡ Verdict.passed
    → (r.outcome ≡ "passed") × (later ≡ Verdict.passed)
verdict_step r later h = ground (arith, eq_iff r.outcome "passed")

verdict-backed :
    (counted : GateEvidence → Bool) (out : Map GateEvidence) (plan : List String)
    (evidence : List GateEvidence)
    → collect counted [] evidence ≡ some out
    → gates_verdict out plan ≡ Verdict.passed
    → all_backed counted plan evidence ≡ true
unfolding gates_verdict all_backed get
verdict-backed counted out [] evidence h v = refl
verdict-backed counted out (gate ∷ plan) evidence h v = elim (Option-cases (get gate out)) [
  | inl e ↦ absurd (cc (rw (e, gates_verdict) at v))
  | inr (r, e) ↦
      let (good, later) = verdict_step r (gates_verdict out plan) (rw (e, gates_verdict) at v) in
      elim (collect-get counted [] out evidence gate r h e) [
        | inl missing ↦ absurd (cc missing)
        | inr found ↦ rw (rw good at found) (verdict-backed counted out plan evidence h later)
      ]
]

-- The verdict on what was collected, if anything was.
verdict_of : List String → Option (Map GateEvidence) → Verdict
verdict_of plan none = Verdict.held_back "ambiguous gate evidence"
verdict_of plan (some results) = gates_verdict results plan

gates_collected :
    (plan : List String) (evidence : List GateEvidence) (candidate base : String) (fixtures : Bool)
    → gates_passed plan evidence candidate base fixtures ≡ Verdict.passed
    → verdict_of plan (collect (counts_for plan candidate base fixtures) [] evidence)
      ≡ Verdict.passed
unfolding gates_passed verdict_of
gates_collected plan evidence candidate base fixtures h = ground arith

-- When `GatesPassed` passes, every gate of the plan has evidence in the list that is for that gate,
-- the exact candidate and the exact base, with outcome passed, and is no fixture unless fixtures
-- are allowed.
pub gates_passed-all_backed :
    (plan : List String) (evidence : List GateEvidence) (candidate base : String) (fixtures : Bool)
    → gates_passed plan evidence candidate base fixtures ≡ Verdict.passed
    → all_backed (counts_for plan candidate base fixtures) plan evidence ≡ true
unfolding verdict_of
gates_passed-all_backed plan evidence candidate base fixtures h =
    let checked = gates_collected plan evidence candidate base fixtures h in
    elim (Option-cases (collect (counts_for plan candidate base fixtures) [] evidence)) [
      | inl e ↦ absurd (cc (rw e at checked))
      | inr (out, e) ↦
          verdict-backed (counts_for plan candidate base fixtures) out plan evidence e
            (rw e at checked)
    ]

after_gates-done :
    (v : Verdict) (next : Decision)
    → after_gates v next ≡ Decision.move_to "done"
    → (v ≡ Verdict.passed) × (next ≡ Decision.move_to "done")
unfolding after_gates
after_gates-done Verdict.passed next h = (refl, h)
after_gates-done (Verdict.held_back reason) next h = absurd (cc h)

released_done :
    (p : Projection)
    → decide_release p ≡ Decision.move_to "done"
    → (p.pr_exists ≡ true)
      × (p.pr_head_sha ≡ p.candidate_sha)
      × (gates_of p ≡ Verdict.passed)
      × (p.pr_merged ≡ true)
      × (commit_pattern p.merged_sha ≡ true)
      × ((p.release_required ≡ false)
          ⊎ ((p.release_passed ≡ true) × (p.release_sha ≡ p.merged_sha)))
unfolding decide_release candidate_lost
released_done p h = ground (
  arith,
  after_gates-done (gates_of p),
  eq_iff p.pr_head_sha p.candidate_sha,
  eq_iff p.release_sha p.merged_sha,
)

moved_elsewhere :
    (stage : String) → (stage == "done") ≡ false → Decision.move_to stage ≢ Decision.move_to "done"
moved_elsewhere stage other h = ground (arith, eq_iff stage "done")

review_next :
    (merged : Bool)
    → (if merged then Decision.move_to "release" else Decision.wait) ≢ Decision.move_to "done"
review_next true h = moved_elsewhere "release" refl h
review_next false h = cc h

decide_verification-done : (p : Projection) → decide_verification p ≢ Decision.move_to "done"
unfolding decide_verification candidate_lost decide_verified
decide_verification-done p h = ground (arith, moved_elsewhere "review" refl)

decide_review-done : (p : Projection) → decide_review p ≢ Decision.move_to "done"
unfolding decide_review candidate_lost
decide_review-done p h = elim (Bool-cases (p.pr_exists && p.pr_head_sha == p.candidate_sha)) [
  | inr lost ↦ ground arith
  | inl kept ↦
      let merged = p.pr_merged && commit_pattern p.merged_sha in
      let next = if merged then Decision.move_to "release" else Decision.wait in
      review_next merged (after_gates-done (gates_of p) next (ground arith)).1
]

stage_done :
    (p : Projection)
    → decide_stage p ≡ Decision.move_to "done"
    → (p.current ≡ "release") × (decide_release p ≡ Decision.move_to "done")
unfolding decide_stage
stage_done p h = ground (
  arith,
  eq_iff p.current "release",
  decide_verification-done p,
  decide_review-done p,
  moved_elsewhere "building" refl,
  moved_elsewhere "verification" refl,
)

decided_stage :
    (p : Projection) (stage : String)
    → project_decision p ≡ Decision.move_to stage
    → (p.authorized ≡ true) × (p.terminal_outcome ≡ "") × (decide_stage p ≡ Decision.move_to stage)
unfolding project_decision
decided_stage p stage h = ground (arith, eq_iff p.terminal_outcome "")

-- `ProjectDecision` moves an item to Done only from Release, with owner approval, no terminal
-- outcome, the pull request's head at the candidate, passed gates, a merge with a commit identity
-- and, where a release is required, a passed release of that very commit.
pub decided_done :
    (p : Projection)
    → project_decision p ≡ Decision.move_to "done"
    → (p.current ≡ "release")
      × (p.authorized ≡ true)
      × (p.terminal_outcome ≡ "")
      × (p.pr_exists ≡ true)
      × (p.pr_head_sha ≡ p.candidate_sha)
      × (gates_of p ≡ Verdict.passed)
      × (p.pr_merged ≡ true)
      × (commit_pattern p.merged_sha ≡ true)
      × ((p.release_required ≡ false)
          ⊎ ((p.release_passed ≡ true) × (p.release_sha ≡ p.merged_sha)))
decided_done p h =
    let (authorized, live, moved) = decided_stage p "done" h in
    let (at, released) = stage_done p moved in
    let (out, head, gates, merged, commit, release) = released_done p released in
    (at, authorized, live, out, head, gates, merged, commit, release)
