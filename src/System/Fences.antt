-- ===== src/System/Fences.antt =====
-- The ownership fence against every operation of the engine.
use sofa.Base.{◌<◌, String, ◌≡◌, sym, ◌∙◌, inl, inr, true, some}
use mathlib.Core.Path.{subst}
use sofa.Base.Int.{pos_part, int64_bound}
use sofa.Base.Map.{get}
use sofa.State.Records.{Fence, Attempt, Ledger}
use sofa.State.Validate.{AttemptKey, attempt_valid, validate}
use sofa.Engine.Outcome.{Error, Clock}
use sofa.Engine.Ownership.{Owned, check_owner, owned}
use sofa.Engine.Calls.{owned-held}
use sofa.System.Change.{SystemChange, SystemChange-FenceStep}
use sofa.Engine.Fences.{
  Issued, Refused, Issued-step, Refused-step, owned-get, valid_at, held-Issued, check_owner-cases,
}
use sofa.System.Calls.{SystemCall, commit_system, commit_system-Moves}

module _ (digest : AttemptKey → String) where
  -- Calls that committed one after another, each a ledger that the store accepts.
  pub data SystemRun (s : Ledger) : Ledger → Type 0 where
    here : SystemRun s s
    after_call :
        {t u : Ledger} (c : SystemCall) (before clock : Clock)
        → SystemRun s t
        → commit_system digest c before clock t ≡ some u
        → validate digest u ≡ true
        → SystemRun s u

  SystemRun-valid :
      {s t : Ledger} → validate digest s ≡ true → SystemRun s t → validate digest t ≡ true
  SystemRun-valid v here = v
  SystemRun-valid v (after_call c before clock r e w) = w

  pub SystemRun-trans : {s t u : Ledger} → SystemRun s t → SystemRun t u → SystemRun s u
  SystemRun-trans r here = r
  SystemRun-trans r (after_call c before clock q e w) =
      after_call c before clock (SystemRun-trans r q) e w

  -- A property of one valid attempt that every change keeps holds along a run.
  pub SystemRun-keeps :
      (P : Attempt → Type 0) (id : String)
      → ((a b : Attempt)
          → attempt_valid digest id a ≡ true
          → attempt_valid digest id b ≡ true
          → SystemChange a b
          → P a
          → P b)
      → {s t : Ledger} (a : Attempt) → validate digest s ≡ true
      → get id s.attempts ≡ some a
      → P a
      → SystemRun s t
      → (b : Attempt) × (get id t.attempts ≡ some b) × P b
  SystemRun-keeps P id step a v e p here = (a, e, p)
  SystemRun-keeps P id step a v e p (after_call {t} {u} c before clock r committed w) =
      let (b, found, pb) = SystemRun-keeps P id step a v e p r in
      let vt = SystemRun-valid v r in
      let (x, at, how) = commit_system-Moves digest c before clock t vt committed id b found in
      elim how [
        | inl same ↦ (x, at, subst P (sym same) pb)
        | inr moved ↦ (
          x,
          at,
          step b x (valid_at digest t id b vt found) (valid_at digest u id x w at) moved pb,
        )
      ]

  -- A fence that held an attempt and was found lost later on stays lost, with ErrStale, whatever
  -- operations of the engine are committed before and after: deliveries, admissions, repairs,
  -- discovery work with the supersession of attempts, board moves, polls and revert scans. The
  -- first ledger is valid, and the attempt's generation there is an int64.
  pub lost_for_good :
      (s t u : Ledger) (f : Fence) (a : Attempt) (x : Error)
      → validate digest s ≡ true
      → owned s f ≡ Owned.held a
      → pos_part a.generation < int64_bound
      → SystemRun s t
      → owned t f ≡ Owned.lost x
      → SystemRun t u
      → owned u f ≡ Owned.lost Error.stale
  lost_for_good s t u f a x v h fit first lost after =
      let (b, found, known) =
        SystemRun-keeps (Issued f) f.attempt_id
          (λ y z vy vz step i.
            Issued-step digest f y z f.attempt_id vy vz (SystemChange-FenceStep y z step) i)
          a v (owned-held s f a h).0 (held-Issued digest s f a h fit) first in
      let refused : check_owner f b ≡ Owned.lost Error.stale = elim (check_owner-cases f b) [
        | inl held ↦ absurd (cc (owned-get digest t f b found, held, lost))
        | inr e ↦ e
      ] in
      let (c, at, bad) =
        SystemRun-keeps (Refused f) f.attempt_id
          (λ y z vy vz step r.
            Refused-step digest f y z f.attempt_id vy vz (SystemChange-FenceStep y z step) r)
          b (SystemRun-valid v first) found (known, refused) after in
      owned-get digest u f c at ∙ bad.1
