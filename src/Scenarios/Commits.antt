-- ===== src/Scenarios/Commits.antt =====
-- The theorems on stores, on `update` and on `Admit`, at a memory store.
use sofa.Base.{ℕ, ◌≡◌, refl, true, false, some, [], ◌∷◌, arith}
use sofa.Base.Int.{pos}
use sofa.Base.Map.{put}
use sofa.State.Records.{Attempt}
use sofa.State.Same.{phase_eq}
use sofa.State.Validate.{attempt_id}
use sofa.Engine.Outcome.{Outcome, apply, require}
use sofa.Engine.Ownership.{claim_step}
use sofa.Engine.Admit.{
  admit, admit_step, lowered, find_prior, find_approved, create, approval_allows, after_specs,
  after_attempts, new_attempt,
}
use sofa.Engine.Admission.{IsFresh, admit-IsFresh, admit_replayed}
use sofa.Store.Interface.{Loaded, IsLawful}
use sofa.Store.Memory.{MemoryStore, memory_store, memory_store-IsLawful, load, decode}
use sofa.Store.Revisions.{Swaps, no_reuse_of_revisions}
use sofa.Store.Decimal.{format_uint}
use sofa.Engine.Update.{Round, update}
use sofa.Engine.Linear.{Effect, NoReuse, update-Effect}
use sofa.Engine.Progress.{Undisturbed, answer_of, update_quiet}
use sofa.Scenarios.Data.{
  digest, key, grant, budget, waiting, no_work, ledger, runner, clock, ledger-valid, plain,
  evaluated,
}

abbrev M : Type 0
M = MemoryStore digest plain

abbrev stored : M
stored = record { revision = 4; content = some ledger }

-- A round in which nobody else acts.
abbrev alone : ℕ → Round (memory_store digest plain)
alone i = record {
  done = false;
  done_load = false;
  done_swap = false;
  arrive = λ m. m;
  interfere = λ m. m;
  clock = clock;
}

alone-NoReuse :
    NoReuse digest
      (memory_store digest plain)
      (memory_store-IsLawful digest plain)
      (claim_step key runner)
      alone
alone-NoReuse = λ i v same. refl

update-Effect_example :
    Effect digest
      (memory_store digest plain)
      (memory_store-IsLawful digest plain)
      (claim_step key runner)
      alone
      stored
      (update digest (memory_store digest plain) (claim_step key runner) alone stored)
update-Effect_example =
    update-Effect digest (memory_store digest plain) (memory_store-IsLawful digest plain)
      (claim_step key runner) alone alone-NoReuse stored

read : load digest plain false stored ≡ Loaded.loaded (record { revision = "4"; state = ledger })
unfolding load decode evaluated format_uint
read = refl

alone-Undisturbed : Undisturbed digest plain (alone 0)
alone-Undisturbed = record {
  done = refl;
  done_load = refl;
  done_swap = refl;
  arrive = λ m. refl;
  interfere = λ m. refl;
}

update_quiet_example :
    update digest (memory_store digest plain) (claim_step key runner) alone stored
    ≡ answer_of digest plain
        (claim_step key runner)
        alone
        stored
        (claim_step key runner clock ledger)
update_quiet_example =
    update_quiet digest plain (claim_step key runner) alone stored
      (record { revision = "4"; state = ledger }) alone-Undisturbed read ledger-valid

no_reuse_of_revisions_example : stored ≡ stored
no_reuse_of_revisions_example =
    no_reuse_of_revisions digest plain stored stored 0 (omega arith) (omega arith) Swaps.here refl

memory_store-IsLawful_example : IsLawful digest (memory_store digest plain)
memory_store-IsLawful_example = memory_store-IsLawful digest plain

abbrev fresh : Attempt
fresh = record waiting {
  counts = record {
    model_calls = pos 0;
    repairs = pos 0;
    infrastructure_retries = pos 0;
    runtime_seconds = pos 0;
  };
  created_at = 3000;
  updated_at = 3000;
}

admitted :
    apply (admit digest grant budget) clock no_work
    ≡ Outcome.changed
        (record no_work { attempts = (key, fresh) ∷ [] })
        (record { attempt = fresh; created = true })
unfolding evaluated admit require lowered admit_step find_prior find_approved after_attempts
    after_specs approval_allows create new_attempt put
admitted = refl

admit-IsFresh_example :
    (true ≡ true)
    × IsFresh
        (attempt_id digest (lowered grant))
        (lowered grant)
        budget
        no_work
        (record no_work { attempts = (key, fresh) ∷ [] })
        fresh
admit-IsFresh_example = admit-IsFresh digest grant budget clock no_work admitted

admit_replayed_example :
    apply (admit digest grant budget) clock (record no_work { attempts = (key, fresh) ∷ [] })
    ≡ Outcome.unchanged (record { attempt = fresh; created = false })
admit_replayed_example = admit_replayed digest grant budget clock clock no_work admitted
