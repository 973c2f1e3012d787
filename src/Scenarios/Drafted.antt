-- ===== src/Scenarios/Drafted.antt =====
-- A published draft on which a review repair is reserved.
use sofa.Base.{◌≡◌, refl, ◌⊎◌, true, some, [], ◌∷◌}
use sofa.Base.Text.{contains_text}
use sofa.Base.Map.{get, put}
use sofa.State.Records.{Attempt, Ledger}
use sofa.State.Same.{phase_eq}
use sofa.State.Patterns.{reference, digest_pattern, sha_pattern}
use sofa.State.Valid.{repair_valid}
use sofa.State.Validate.{validate}
use sofa.Repair.Reserve.{
  is_unprepared, reserved, reservation_note, reserve_found, reserve_step, reserve_review_repair,
}
use sofa.System.Repairs.{RepairCall, commit_repair}
use sofa.System.Calls.{SystemCall, commit_system}
use sofa.System.Drafts.{DraftStep, draft_kept}
use sofa.Scenarios.Data.{digest, key, clock, ledger, evaluated}
use sofa.Scenarios.Merged.{publication, draft, reservation}

abbrev ledger_draft : Ledger
ledger_draft = record ledger { attempts = (key, draft) ∷ [] }

-- The ledger that the reservation writes.
abbrev ledger_reserved : Ledger
ledger_reserved = record ledger {
  attempts = (key, reserved clock reservation draft) ∷ [];
  observations = reservation_note clock key reservation ∷ [];
}

draft-valid : validate digest ledger_draft ≡ true
unfolding evaluated contains_text
draft-valid = refl

reservation_call :
    commit_system digest
      (SystemCall.repairs (RepairCall.reserves key reservation))
      clock
      clock
      ledger_draft
    ≡ some ledger_reserved
unfolding commit_system commit_repair reserve_review_repair reserve_step reserve_found repair_valid
    is_unprepared get put reference digest_pattern sha_pattern phase_eq
reservation_call = refl

draft_found : get key ledger_draft.attempts ≡ some draft
unfolding get
draft_found = refl

draft_kept_example :
    (b : Attempt) × (get key ledger_reserved.attempts ≡ some b)
    × (b.publication ≡ some publication)
    × ((b ≡ draft) ⊎ DraftStep draft b)
draft_kept_example =
    draft_kept digest (SystemCall.repairs (RepairCall.reserves key reservation)) clock clock
      ledger_draft ledger_reserved key draft draft-valid reservation_call draft_found refl
