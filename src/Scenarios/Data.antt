-- ===== src/Scenarios/Data.antt =====
-- A ledger with one pending attempt, its worker, and the calls that it makes.
use sofa.Base.{sym, String, Bool, ◌≡◌, refl, true, none, some, [], ◌∷◌}
use sofa.Base.Int.{pos}
use sofa.State.Records.{Phase, Admission, Limits, Counters, Owner, Attempt, Ledger}
use sofa.Base.Map.{get, all_entries}
use sofa.Base.Text.{to_lower}
use sofa.State.Patterns.{digest_pattern, sha_pattern, repo_pattern, reference, valid_stage}
use sofa.State.Valid.{
  valid_owner, limits_valid, permits, admission_valid, checkpoint_valid, publication_valid,
  repair_valid, cursor_valid, discovery_valid, spec_valid, projection_valid, poll_valid,
}
use sofa.State.Validate.{
  AttemptKey, attempt_id, attempt_metadata, superseded_valid, attempt_state_valid,
  attempt_evidence_valid, attempt_valid, spec_entry_valid, spec_history_valid,
  discovery_entry_valid, discovery_history_valid, reset_history_valid, projection_entry_valid,
  observations_from, scan_recorded, recorded_done_for_merge, validate,
}
use sofa.Engine.Outcome.{Clock}
use sofa.Engine.Recovery.{RunProof}
use sofa.State.Records.{Fence}
use sofa.Store.Memory.{Codec}

abbrev pub sha : String
sha = "0123456789abcdef0123456789abcdef01234567"

abbrev pub key : String
key = "0123456789abcdef0123456789abcdef0123456789abcdef0123456789abcdef"

-- A digest that gives one identifier to every admission.
abbrev pub digest : AttemptKey → String
digest k = key

abbrev pub grant : Admission
grant = record {
  repository = "kevin/sofa";
  issue = pos 12;
  spec_digest = key;
  config_digest = key;
  base_sha = sha;
  project_id = "PVT_1";
  project_item_id = "PVTI_9";
  status_option_id = "ready";
  status_updated_at = 1000;
}

abbrev pub budget : Limits
budget = record {
  model_calls = pos 5;
  repairs = pos 2;
  infrastructure_retries = pos 1;
  runtime_seconds = pos 600;
}

abbrev pub used : Counters
used = record {
  model_calls = pos 1;
  repairs = pos 0;
  infrastructure_retries = pos 0;
  runtime_seconds = pos 60;
}

abbrev pub waiting : Attempt
waiting = record {
  id = key;
  admission = grant;
  spec_revision = pos 0;
  superseded_at = 0;
  superseded_source_digest = "";
  phase = Phase.pending;
  generation = pos 0;
  owner = none;
  dispatch = "pending";
  limits = budget;
  counts = used;
  checkpoint = none;
  publication = none;
  repair = none;
  revert_scan = none;
  failure = "";
  created_at = 2000;
  updated_at = 2000;
}

abbrev pub no_work : Ledger
no_work = record {
  version = pos 1;
  attempts_made = true;
  attempts = [];
  observations = [];
  specs = [];
  spec_history = [];
  discoveries = [];
  discovery_history = [];
  discovery_reset_history = [];
  projections = [];
  poll = none;
}

abbrev pub ledger : Ledger
ledger = record no_work { attempts = (key, waiting) ∷ [] }

abbrev pub runner : Owner
runner = record { run_id = "run-1"; run_attempt = pos 1 }

abbrev pub rerun : Owner
rerun = record { run_id = "run-2"; run_attempt = pos 1 }

abbrev pub clock : Clock
clock n = 3000

-- The attempt and the ledger after the first worker's claim.
abbrev pub running : Attempt
running = record waiting {
  generation = pos 1;
  owner = some runner;
  phase = Phase.executing;
  dispatch = "claimed";
  updated_at = 3000;
}

abbrev pub ledger_running : Ledger
ledger_running = record no_work { attempts = (key, running) ∷ [] }

abbrev pub first_fence : Fence
first_fence = record { attempt_id = key; generation = pos 1; owner = runner }

-- The first worker's run has ended, and the attempt is released.
abbrev pub ended : RunProof
ended = record { owner = runner; status = "completed"; conclusion = "failure"; observed_at = 2900 }

abbrev pub released : Attempt
released = record running {
  counts = record used { infrastructure_retries = pos 1 };
  generation = pos 2;
  owner = none;
  phase = Phase.pending;
  dispatch = "pending";
}

abbrev pub ledger_released : Ledger
ledger_released = record no_work { attempts = (key, released) ∷ [] }

-- A second worker has claimed it.
abbrev pub retaken : Attempt
retaken = record released {
  generation = pos 3;
  owner = some rerun;
  phase = Phase.executing;
  dispatch = "claimed";
}

abbrev pub ledger_retaken : Ledger
ledger_retaken = record no_work { attempts = (key, retaken) ∷ [] }

abbrev pub second_fence : Fence
second_fence = record { attempt_id = key; generation = pos 3; owner = rerun }

-- The whole of `Validate`, opened: the declarations that name it can evaluate the test.
unfoldable pub evaluated : Ledger → Bool
unfolding validate all_entries attempt_valid attempt_metadata attempt_id admission_valid
    limits_valid permits valid_owner superseded_valid attempt_state_valid attempt_evidence_valid
    checkpoint_valid publication_valid repair_valid cursor_valid discovery_valid spec_valid
    projection_valid poll_valid spec_entry_valid spec_history_valid discovery_entry_valid
    discovery_history_valid reset_history_valid projection_entry_valid observations_from
    scan_recorded recorded_done_for_merge get digest_pattern sha_pattern repo_pattern reference
    valid_stage to_lower
evaluated = validate digest

pub ledger-valid : validate digest ledger ≡ true
unfolding evaluated
ledger-valid = refl

pub running-valid : validate digest ledger_running ≡ true
unfolding evaluated
running-valid = refl

pub released-valid : validate digest ledger_released ≡ true
unfolding evaluated
released-valid = refl

pub retaken-valid : validate digest ledger_retaken ≡ true
unfolding evaluated
retaken-valid = refl

-- Bytes that are the ledger itself.
abbrev pub plain : Codec digest
plain = record {
  Bytes = Ledger;
  marshal = λ s. some s;
  unmarshal = λ s. some s;
  round_trip = λ s b valid h. sym h;
}
