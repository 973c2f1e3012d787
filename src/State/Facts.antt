-- ===== src/State/Facts.antt =====
-- What the tests of `Validate` say of one attempt.
use sofa.Base.{String, ◌≡◌, true, false, none, some, arith, eq_iff, string_eq}
use sofa.Base.Map.{get, all_entries, all_entries-get}
use sofa.State.Clock.{is_zero}
use sofa.State.Records.{Phase, Attempt, Ledger}
use sofa.State.Validate.{
  AttemptKey, attempt_metadata, superseded_valid, attempt_state_valid, attempt_evidence_valid,
  attempt_valid, validate,
}

module _ (digest : AttemptKey → String) where
  -- The four parts of the test.
  pub attempt_valid-parts :
      (id : String) (a : Attempt)
      → attempt_valid digest id a ≡ true
      → (attempt_metadata digest id a ≡ true)
        × (superseded_valid a ≡ true)
        × (attempt_state_valid a ≡ true)
        × (attempt_evidence_valid a ≡ true)
  unfolding attempt_valid
  attempt_valid-parts id a h = ground arith

  -- An attempt stands under its identifier.
  pub attempt_valid-id : (id : String) (a : Attempt) → attempt_valid digest id a ≡ true → id ≡ a.id
  unfolding attempt_metadata
  attempt_valid-id id a h = ground (arith, attempt_valid-parts id a, eq_iff id a.id)

  -- A superseded attempt is blocked and has no owner.
  pub superseded_blocked :
      (id : String) (a : Attempt)
      → attempt_valid digest id a ≡ true
      → is_zero a.superseded_at ≡ false
      → (a.phase ≡ Phase.blocked) × (a.owner ≡ none)
  unfolding superseded_valid
  superseded_blocked id a h z = ground (arith, attempt_valid-parts id a)

  pub validate-attempts :
      (s : Ledger) → validate digest s ≡ true → all_entries (attempt_valid digest) s.attempts ≡ true
  unfolding validate
  validate-attempts s h = ground arith

  -- What a valid ledger holds under a key is a valid attempt.
  pub validate-get :
      (s : Ledger) (id : String) (a : Attempt)
      → validate digest s ≡ true
      → get id s.attempts ≡ some a
      → attempt_valid digest id a ≡ true
  validate-get s id a h e =
      all_entries-get (attempt_valid digest) id a s.attempts (validate-attempts s h) e
