-- ===== src/Scenarios/Decisions.antt =====
-- The decisions of the lifecycle at concrete items.
use sofa.Base.{◌≡◌, ◌⊎◌, refl, true, false, some, [], ◌∷◌, option_eq}
use sofa.Base.Text.{contains_any}
use sofa.Base.Int.{pos, next_int64}
use sofa.Base.Map.{get}
use sofa.State.Records.{Ledger}
use sofa.State.Patterns.{reference, sha_pattern}
use sofa.State.Same.{board_projection_eq, revert_scan_cursor_eq}
use sofa.Engine.Outcome.{Outcome, apply}
use sofa.Scans.Poll.{claim_poll, poll_schedule}
use sofa.Lifecycle.Gates.{
  GateEvidence, Verdict, commit_pattern, gates_distinct, counts_for, collect, gates_verdict,
  gates_passed,
}
use sofa.Lifecycle.Stages.{PollPlan, plan_poll}
use sofa.Lifecycle.Planning.{plan_agrees}
use sofa.Lifecycle.Decide.{
  Projection, Decision, gates_of, project_decision, decide_stage, decide_release, after_gates,
}
use sofa.Lifecycle.Evidence.{all_backed, gates_passed-all_backed, decided_done}
use sofa.Scenarios.Data.{no_work, clock, sha}

-- An item in release whose gate passed on the merged candidate.
abbrev gate : GateEvidence
gate = record {
  id = "test";
  candidate_sha = sha;
  base_sha = sha;
  outcome = "passed";
  fixture = false;
}

abbrev shipped : Projection
shipped = record {
  current = "release";
  last_projected = "release";
  authorized = true;
  published = true;
  candidate_sha = sha;
  pr_head_sha = sha;
  pr_base_sha = sha;
  pr_exists = true;
  pr_closed = true;
  pr_merged = true;
  required_gates = "test" ∷ [];
  gate_evidence = gate ∷ [];
  release_required = true;
  release_passed = true;
  release_sha = sha;
  merged_sha = sha;
  terminal_outcome = "";
  allow_fixture = false;
}

passes : gates_passed ("test" ∷ []) (gate ∷ []) sha sha false ≡ Verdict.passed
unfolding gates_passed commit_pattern sha_pattern gates_distinct counts_for collect gates_verdict
    get
passes = refl

gates_passed-all_backed_example :
    all_backed (counts_for ("test" ∷ []) sha sha false) ("test" ∷ []) (gate ∷ []) ≡ true
gates_passed-all_backed_example =
    gates_passed-all_backed ("test" ∷ []) (gate ∷ []) sha sha false passes

finished : project_decision shipped ≡ Decision.move_to "done"
unfolding project_decision decide_stage decide_release gates_of after_gates gates_passed
    commit_pattern sha_pattern gates_distinct counts_for collect gates_verdict get
finished = refl

decided_done_example :
    (shipped.current ≡ "release")
    × (shipped.authorized ≡ true)
    × (shipped.terminal_outcome ≡ "")
    × (shipped.pr_exists ≡ true)
    × (shipped.pr_head_sha ≡ shipped.candidate_sha)
    × (gates_of shipped ≡ Verdict.passed)
    × (shipped.pr_merged ≡ true)
    × (commit_pattern shipped.merged_sha ≡ true)
    × ((shipped.release_required ≡ false)
        ⊎ ((shipped.release_passed ≡ true) × (shipped.release_sha ≡ shipped.merged_sha)))
decided_done_example = decided_done shipped finished

-- A ledger that was polled once, an hour before.
abbrev polled_once : Ledger
polled_once = record no_work {
  poll = some (record { last_poll = 1000; last_wake_id = ""; generation = pos 1 });
}

abbrev due_plan : PollPlan
due_plan = record { due = true; next = 4200000001000; wake_id = "run-7"; missed = 6 }

planned_poll : plan_poll 3600000001000 1000 600000000000 "" "run-7" ≡ some due_plan
unfolding plan_poll contains_any
planned_poll = refl

fine : poll_schedule 3600000001000 600000000000 "run-7" ≡ true
unfolding poll_schedule reference
fine = refl

plan_agrees_example :
    apply (claim_poll 3600000001000 600000000000 "run-7") clock polled_once
    ≡ Outcome.changed
        (record polled_once {
          poll = some (record {
            last_poll = 3600000001000;
            last_wake_id = "run-7";
            generation = next_int64 (pos 1);
          });
        })
        (record {
          claimed = true;
          generation = next_int64 (pos 1);
          missed = pos 6;
          next = 4200000001000;
        })
plan_agrees_example =
    plan_agrees 3600000001000 600000000000 "run-7" clock polled_once due_plan fine refl planned_poll
