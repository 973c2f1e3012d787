-- ===== src/System/Claims.antt =====
-- `Claim` against every operation of the engine: a later claim ends an earlier one.
use sofa.Base.{◌<◌, String, ◌≡◌, refl, ◌∙◌, true, some}
use sofa.Base.Int.{pos_part, int64_bound}
use sofa.State.Records.{Owner, Fence, Ledger}
use sofa.State.Validate.{AttemptKey, validate}
use sofa.Engine.Outcome.{Error, Outcome, Clock, apply}
use sofa.Engine.Ownership.{Owned, owned, claim}
use sofa.Engine.Calls.{Call, commit}
use sofa.Engine.Fences.{owned-get}
use sofa.Engine.Claims.{claim-changed, granted_held, ownerless_stale}
use sofa.System.Calls.{SystemCall, commit_system}
use sofa.System.Fences.{SystemRun, SystemRun-trans, lost_for_good}

claimed-commit :
    (digest : AttemptKey → String) (id : String) (owner : Owner) (clock : Clock) (s : Ledger)
    {t : Ledger} {f : Fence}
    → apply (claim id owner) clock s ≡ Outcome.changed t f
    → commit_system digest (SystemCall.delivers (Call.claims id owner)) clock clock s ≡ some t
unfolding commit_system commit
claimed-commit digest id owner clock s h = rw h refl

-- A granted claim ends every earlier one on the same attempt: whatever operations of the engine are
-- committed between them and afterwards (deliveries, admissions, repairs, discovery work with the
-- supersession of attempts, board moves, polls and revert scans), the earlier fence is refused with
-- ErrStale. The ledgers before and after the first claim and after the second are valid, and the
-- first fence's generation is an int64.
pub claims_exclusive :
    (digest : AttemptKey → String) (id : String) (first second : Owner) (c d : Clock)
    (s t u v w : Ledger) {f g : Fence}
    → validate digest s ≡ true
    → apply (claim id first) c s ≡ Outcome.changed t f
    → validate digest t ≡ true
    → pos_part f.generation < int64_bound
    → SystemRun digest t u
    → apply (claim id second) d u ≡ Outcome.changed v g
    → validate digest v ≡ true
    → SystemRun digest v w
    → owned w f ≡ Owned.lost Error.stale
claims_exclusive digest id first second c d s t u v w {f} vs h vt fit run h' vv after =
    let (b, held, found, at, gen) = granted_held digest id first c s vs h in
    let (a, e, free, p, st, sf) = claim-changed id second d u h' in
    lost_for_good digest t u w f b Error.stale vt held (rw gen fit) run
      (owned-get digest u f a (rw at e) ∙ ownerless_stale f a free)
      (SystemRun-trans digest
        (SystemRun.after_call (SystemCall.delivers (Call.claims id second)) d d SystemRun.here
          (claimed-commit digest id second d u h') vv)
        after)
