-- ===== src/Scenarios/Ownership.antt =====
-- The ownership theorems at the life of one attempt: claimed, released by a proven end of its run,
-- and claimed by the next run.
use sofa.Base.{◌≡◌, ◌⊎◌, refl, true, none, some, arith}
use sofa.Base.Int.{pos, add_int64, ◌+ℤ◌}
use sofa.Base.Map.{get, put}
use sofa.State.Records.{Attempt, Counters}
use sofa.State.Same.{owner_eq, phase_eq, attempt_eq, admission_eq, limits_eq}
use sofa.State.Valid.{valid_owner, counters_valid, permits}
use sofa.State.Patterns.{reference}
use sofa.Engine.Outcome.{Error, Outcome, Edit, apply, require, edit_attempt, put_attempt}
use sofa.Engine.Ownership.{
  Owned, owned, check_owner, assert_owner, claim, claim_step, claim_found, claimed_by, unexpired,
  is_settled,
}
use sofa.Engine.Recovery.{recover, recover_edit, recovered, terminal, concluded}
use sofa.Engine.Work.{charge_edit}
use sofa.Engine.Budget.{exact_add, charge_exact}
use sofa.Engine.Calls.{Call, commit}
use sofa.Engine.Fences.{owned_unique}
use sofa.Engine.Claims.{fence_of, claim_grants, claim_twice}
use sofa.System.Calls.{SystemCall, commit_system}
use sofa.System.Fences.{SystemRun, lost_for_good}
use sofa.System.Claims.{claims_exclusive}
use sofa.System.Phases.{PhaseStep, commit_system-PhaseStep}
use sofa.System.Grants.{SameGrant, authority_kept}
use sofa.Scenarios.Data.{
  digest, key, used, waiting, ledger, runner, rerun, clock, running, ledger_running, first_fence,
  ended, ledger_released, ledger_retaken, second_fence, ledger-valid, running-valid, released-valid,
  retaken-valid,
}

granted : apply (claim key runner) clock ledger ≡ Outcome.changed ledger_running first_fence
unfolding claim require claim_step claim_found get put claimed_by unexpired phase_eq valid_owner
    reference add_int64
granted = refl

granted_again :
    apply (claim key rerun) clock ledger_released ≡ Outcome.changed ledger_retaken second_fence
unfolding claim require claim_step claim_found get put claimed_by unexpired phase_eq valid_owner
    reference add_int64
granted_again = refl

release :
    commit digest (Call.recovers 3000 key ended) clock clock ledger_running ≡ some ledger_released
unfolding commit recover require terminal concluded edit_attempt get put recover_edit recovered
    unexpired phase_eq owner_eq add_int64
release = refl

release_call :
    commit_system digest
      (SystemCall.delivers (Call.recovers 3000 key ended))
      clock
      clock
      ledger_running
    ≡ some ledger_released
unfolding commit_system
release_call = release

between : SystemRun digest ledger_running ledger_released
between =
    SystemRun.after_call (SystemCall.delivers (Call.recovers 3000 key ended)) clock clock
      SystemRun.here release_call released-valid

held_first : owned ledger_running first_fence ≡ Owned.held running
unfolding owned check_owner get owner_eq
held_first = refl

lost_then : owned ledger_released first_fence ≡ Owned.lost Error.stale
unfolding owned check_owner get owner_eq
lost_then = refl

reclaim : commit digest (Call.claims key rerun) clock clock ledger_released ≡ some ledger_retaken
unfolding commit claim require claim_step claim_found get put claimed_by unexpired phase_eq
    valid_owner reference add_int64
reclaim = refl

claims_exclusive_example : owned ledger_retaken first_fence ≡ Owned.lost Error.stale
claims_exclusive_example =
    claims_exclusive digest key runner rerun clock clock ledger ledger_running ledger_released
      ledger_retaken ledger_retaken ledger-valid granted running-valid (omega arith) between
      granted_again retaken-valid SystemRun.here

runner_ok : valid_owner runner ≡ true
unfolding valid_owner reference
runner_ok = refl

rerun_ok : valid_owner rerun ≡ true
unfolding valid_owner reference
rerun_ok = refl

waiting_found : get key ledger.attempts ≡ some waiting
unfolding get
waiting_found = refl

claim_twice_example : apply (claim key rerun) clock ledger_running ≡ Outcome.failed Error.claimed
claim_twice_example = claim_twice key runner rerun clock clock ledger granted rerun_ok

claim_grants_example :
    let b = claimed_by clock runner waiting in
    let t = put_attempt key b ledger in
    (apply (claim key runner) clock ledger ≡ Outcome.changed t (fence_of key runner waiting))
    × (owned t (fence_of key runner waiting) ≡ Owned.held b)
    × (assert_owner t (fence_of key runner waiting) ≡ none)
claim_grants_example =
    claim_grants digest key runner clock ledger waiting ledger-valid runner_ok waiting_found refl
      refl

owned_unique_example : first_fence ≡ first_fence
owned_unique_example =
    owned_unique ledger_running first_fence first_fence running running refl held_first held_first

-- A charge of two calls and a minute.
abbrev small : Counters
small = record {
  model_calls = pos 2;
  repairs = pos 0;
  infrastructure_retries = pos 0;
  runtime_seconds = pos 60;
}

counts_ok : counters_valid used ≡ true
unfolding counters_valid
counts_ok = refl

small_ok : counters_valid small ≡ true
unfolding counters_valid
small_ok = refl

charge_exact_example :
    charge_edit small running ≡ Edit.write (record running { counts = exact_add used small })
unfolding is_settled phase_eq permits exact_add ◌+ℤ◌
charge_exact_example =
    charge_exact running small counts_ok small_ok (omega arith) (omega arith) (omega arith)

reclaim_call :
    commit_system digest (SystemCall.delivers (Call.claims key rerun)) clock clock ledger_released
    ≡ some ledger_retaken
unfolding commit_system
reclaim_call = reclaim

lost_for_good_example : owned ledger_retaken first_fence ≡ Owned.lost Error.stale
lost_for_good_example =
    lost_for_good digest ledger_running ledger_released ledger_retaken first_fence running
      Error.stale running-valid held_first (omega arith) between lost_then
      (SystemRun.after_call (SystemCall.delivers (Call.claims key rerun)) clock clock SystemRun.here
        reclaim_call retaken-valid)

running_found : get key ledger_running.attempts ≡ some running
unfolding get
running_found = refl

authority_kept_example :
    (b : Attempt) × (get key ledger_released.attempts ≡ some b) × SameGrant running b
authority_kept_example =
    authority_kept digest ledger_running ledger_released key running running-valid running_found
      between

commit_system-PhaseStep_example :
    (b : Attempt) × (get key ledger_released.attempts ≡ some b)
    × ((b ≡ running) ⊎ PhaseStep running b)
commit_system-PhaseStep_example =
    commit_system-PhaseStep digest (SystemCall.delivers (Call.recovers 3000 key ended)) clock clock
      ledger_running ledger_released key running running-valid release_call running_found
