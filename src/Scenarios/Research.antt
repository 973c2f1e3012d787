-- ===== src/Scenarios/Research.antt =====
-- The life of one Discovery task: admitted, claimed, its comment prepared and posted once, released
-- by a proven end of its run, and claimed by the next run.
use sofa.Base.{◌≡◌, refl, Bool, true, false, not, none, some, arith, [], ◌∷◌}
use sofa.Base.Int.{pos, add_int64, ◌≤ℤ◌}
use sofa.Base.Map.{get, put, count_entries}
use sofa.Base.Text.{to_lower}
use sofa.State.Records.{DiscoveryPhase, DiscoveryPublication, DiscoveryTask, Ledger}
use sofa.State.Same.{owner_eq}
use sofa.State.SameTask.{discovery_phase_eq}
use sofa.State.Patterns.{reference, digest_pattern}
use sofa.State.Valid.{valid_owner, discovery_valid, discovery_publication_valid}
use sofa.State.Validate.{validate}
use sofa.Engine.Outcome.{Error, Outcome, apply, require}
use sofa.Engine.Recovery.{terminal, concluded}
use sofa.Discovery.Task.{
  DiscoveryFence, edit_task, edit_owned_task, task_held, assert_discovery_owner,
}
use sofa.Discovery.Work.{
  discovery_claimed_by, claim_discovery_edit, claim_discovery, intent_is, prepare_edit,
  prepare_discovery_publication, mark_post_edit, mark_discovery_post_attempt,
  recover_discovery_edit, recover_discovery,
}
use sofa.Discovery.Terms.{DiscoveryAdmission, task_of, in_progress, is_full, delivers}
use sofa.Discovery.Admit.{captured, admit_first, admit_discovery_step, admit_discovery}
use sofa.System.Research.{ResearchCall, commit_research}
use sofa.System.ResearchRuns.{ResearchRun, here, after_research}
use sofa.System.Posts.{in_review, post_once}
use sofa.System.Usage.{usage_grows, researcher_lost}
use sofa.System.Wip.{IsMap}
use sofa.System.Limit.{WithinLimit}
use sofa.System.Progress.{admits_within, research-WithinLimit}
use sofa.Scenarios.Data.{digest, key, no_work, runner, rerun, clock, ended, evaluated}

abbrev idea : DiscoveryAdmission
idea = record {
  repository = "kevin/sofa";
  issue_id = "I_1";
  issue = pos 12;
  project_id = "PVT_1";
  project_item_id = "PVTI_9";
  status_option_id = "discovery";
  status_updated_at = 1000;
  source_digest = key;
}

-- The ledgers after each call.
abbrev with_task : DiscoveryTask → Ledger
with_task d = record no_work { discoveries = ("I_1", d) ∷ [] }

abbrev asked : DiscoveryTask
asked = record {
  revision = pos 0;
  repository = "kevin/sofa";
  issue_id = "I_1";
  issue = pos 12;
  project_id = "PVT_1";
  project_item_id = "PVTI_9";
  status_option_id = "discovery";
  status_updated_at = 1000;
  source_digest = key;
  phase = DiscoveryPhase.pending;
  generation = pos 0;
  owner = none;
  model_calls = pos 0;
  max_model_calls = pos 5;
  publication = none;
  spec_digest = "";
  comment_id = pos 0;
  comment_author_id = "";
  comment_created_at = 0;
  comment_updated_at = 0;
  failure = "";
  created_at = 3000;
  updated_at = 3000;
}

abbrev taken : DiscoveryTask
taken = record asked {
  phase = DiscoveryPhase.running;
  generation = pos 1;
  owner = some runner;
  model_calls = pos 1;
}

abbrev intent : DiscoveryPublication
intent = record { digest = key; key = key; post_attempted = false; producer = runner }

abbrev prepared : DiscoveryTask
prepared = record taken { publication = some intent }

abbrev posted : DiscoveryTask
posted = record taken { publication = some (record intent { post_attempted = true }) }

abbrev released : DiscoveryTask
released = record posted { phase = DiscoveryPhase.pending; generation = pos 2; owner = none }

abbrev retaken : DiscoveryTask
retaken = record posted { phase = DiscoveryPhase.running; generation = pos 3; owner = some rerun }

abbrev first_fence : DiscoveryFence
first_fence = record { issue_id = "I_1"; generation = pos 1; owner = runner }

abbrev second_fence : DiscoveryFence
second_fence = record { issue_id = "I_1"; generation = pos 3; owner = rerun }

empty-valid : validate digest no_work ≡ true
unfolding evaluated
empty-valid = refl

asked-valid : validate digest (with_task asked) ≡ true
unfolding evaluated discovery_publication_valid discovery_phase_eq
asked-valid = refl

taken-valid : validate digest (with_task taken) ≡ true
unfolding evaluated discovery_publication_valid discovery_phase_eq
taken-valid = refl

prepared-valid : validate digest (with_task prepared) ≡ true
unfolding evaluated discovery_publication_valid discovery_phase_eq
prepared-valid = refl

posted-valid : validate digest (with_task posted) ≡ true
unfolding evaluated discovery_publication_valid discovery_phase_eq
posted-valid = refl

released-valid : validate digest (with_task released) ≡ true
unfolding evaluated discovery_publication_valid discovery_phase_eq
released-valid = refl

retaken-valid : validate digest (with_task retaken) ≡ true
unfolding evaluated discovery_publication_valid discovery_phase_eq
retaken-valid = refl

admission :
    commit_research (ResearchCall.admits idea (pos 2) (pos 5) []) clock clock no_work
    ≡ some (with_task asked)
unfolding commit_research admit_discovery require task_of admit_discovery_step admit_first is_full
    in_progress delivers captured count_entries get put to_lower discovery_valid evaluated
admission = refl

first_claim :
    commit_research (ResearchCall.claims "I_1" runner) clock clock (with_task asked)
    ≡ some (with_task taken)
unfolding commit_research claim_discovery require edit_task get put claim_discovery_edit
    discovery_claimed_by discovery_phase_eq valid_owner reference add_int64
first_claim = refl

preparation :
    commit_research (ResearchCall.prepares first_fence key key) clock clock (with_task taken)
    ≡ some (with_task prepared)
unfolding commit_research prepare_discovery_publication require edit_owned_task task_held get put
    prepare_edit discovery_publication_valid discovery_phase_eq owner_eq digest_pattern valid_owner
    reference
preparation = refl

first_post :
    apply (mark_discovery_post_attempt first_fence key key) clock (with_task prepared)
    ≡ Outcome.changed (with_task posted) true
unfolding mark_discovery_post_attempt edit_owned_task task_held get put mark_post_edit intent_is
    discovery_phase_eq owner_eq
first_post = refl

first_post_call :
    commit_research (ResearchCall.posts first_fence key key) clock clock (with_task prepared)
    ≡ some (with_task posted)
unfolding commit_research mark_discovery_post_attempt edit_owned_task task_held get put
    mark_post_edit intent_is discovery_phase_eq owner_eq
first_post_call = refl

recovery :
    commit_research (ResearchCall.recovers 3000 "I_1" ended) clock clock (with_task posted)
    ≡ some (with_task released)
unfolding commit_research recover_discovery require terminal concluded edit_task get put
    recover_discovery_edit discovery_phase_eq owner_eq add_int64
recovery = refl

second_claim :
    commit_research (ResearchCall.claims "I_1" rerun) clock clock (with_task released)
    ≡ some (with_task retaken)
unfolding commit_research claim_discovery require edit_task get put claim_discovery_edit
    discovery_claimed_by discovery_phase_eq valid_owner reference add_int64
second_claim = refl

abbrev every_call : ResearchCall → Bool
every_call c = true

abbrev every_ledger : Ledger → Bool
every_ledger s = true

-- The worker has claimed the task, prepared and posted its comment, and its run has ended.
abbrev EndedRun : (ok : Ledger → Bool) → Type 0
EndedRun ok = ResearchRun digest every_call ok (with_task taken) (with_task released)

until_released : EndedRun every_ledger
until_released =
    after_research (ResearchCall.recovers 3000 "I_1" ended) clock clock
      (after_research (ResearchCall.posts first_fence key key) clock clock
        (after_research (ResearchCall.prepares first_fence key key) clock clock here refl
          preparation prepared-valid refl)
        refl first_post_call posted-valid refl)
      refl recovery released-valid refl

claimed_again : ResearchRun digest every_call every_ledger (with_task released) (with_task retaken)
claimed_again =
    after_research (ResearchCall.claims "I_1" rerun) clock clock here refl second_claim
      retaken-valid refl

held_at_first : assert_discovery_owner (with_task taken) first_fence ≡ none
unfolding assert_discovery_owner get task_held owner_eq discovery_phase_eq
held_at_first = refl

lost_after : assert_discovery_owner (with_task released) first_fence ≡ some Error.stale
unfolding assert_discovery_owner get task_held owner_eq discovery_phase_eq
lost_after = refl

researcher_lost_example : assert_discovery_owner (with_task retaken) first_fence ≡ some Error.stale
researcher_lost_example =
    researcher_lost digest every_call every_ledger (with_task taken) (with_task released)
      (with_task retaken) first_fence Error.stale taken-valid held_at_first (omega arith)
      until_released lost_after claimed_again

task_found : get "I_1" (with_task taken).discoveries ≡ some taken
unfolding get
task_found = refl

usage_grows_example :
    (e : DiscoveryTask) × (get "I_1" (with_task released).discoveries ≡ some e)
    × (taken.generation ≤ℤ e.generation)
    × (taken.model_calls ≤ℤ e.model_calls)
    × (e.model_calls ≤ℤ pos 20)
usage_grows_example =
    usage_grows digest every_call every_ledger (with_task taken) (with_task released) "I_1" taken
      taken-valid task_found (omega arith) until_released

abbrev not_reviewed : Ledger → Bool
not_reviewed s = not (in_review "I_1" s)

after_post : ResearchRun digest every_call not_reviewed (with_task posted) (with_task retaken)
unfolding in_review get discovery_phase_eq
after_post =
    after_research (ResearchCall.claims "I_1" rerun) clock clock
      (after_research (ResearchCall.recovers 3000 "I_1" ended) clock clock here refl recovery
        released-valid refl)
      refl second_claim retaken-valid refl

post_once_example : ¬ (
    apply (mark_discovery_post_attempt second_fence key key) clock (with_task retaken)
    ≡ Outcome.changed (with_task retaken) true)
post_once_example =
    post_once digest every_call first_fence second_fence key key key key clock clock
      (with_task prepared) (with_task posted) (with_task retaken) (with_task retaken) prepared-valid
      first_post posted-valid after_post refl

nothing_yet : WithinLimit "kevin/sofa" 2 no_work
unfolding WithinLimit IsMap count_entries
nothing_yet = (tt, omega arith)

first_work : ResearchRun digest (admits_within 2) every_ledger no_work (with_task taken)
unfolding admits_within
first_work =
    after_research (ResearchCall.claims "I_1" runner) clock clock
      (after_research (ResearchCall.admits idea (pos 2) (pos 5) []) clock clock here refl admission
        asked-valid refl)
      refl first_claim taken-valid refl

research-WithinLimit_example : WithinLimit "kevin/sofa" 2 (with_task taken)
research-WithinLimit_example =
    research-WithinLimit digest "kevin/sofa" 2 every_ledger no_work (with_task taken) empty-valid
      nothing_yet first_work
