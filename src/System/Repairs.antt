-- ===== src/System/Repairs.antt =====
-- The calls of internal/state/review.go on the attempts of a ledger.
use sofa.Base.{String, ◌≡◌, ◌⊎◌, inl, inr, true, Option, none, some, arith, false, Option-cases}
use sofa.Base.Map.{get}
use sofa.State.Clock.{Time, is_zero}
use sofa.Base.Int.{leb_ℤ}
use sofa.State.Records.{Phase, Counters, Owner, Fence, Publication, RepairIntent, Attempt, Ledger}
use sofa.State.Same.{phase_eq, attempt_eq}
use sofa.State.Validate.{AttemptKey, validate}
use sofa.Engine.Outcome.{Clock, apply, put_attempt}
use sofa.Engine.Recovery.{RunProof}
use sofa.Engine.Calls.{written}
use sofa.System.Change.{SystemChange}
use sofa.Repair.Reserve.{
  exhausted, repair_claimed, claim_repair_found, claim_repair_step, claim_review_repair, reserved,
  reserve_found, reserve_step, reserve_review_repair, release_repair_edit,
  release_superseded_review_repair,
}
use sofa.Repair.Publish.{
  begin_repair_edit, begin_repair_publication, may_reconcile, mark_repair_edit,
  mark_review_repair_published, reconcile_edit, reconcile_step, reconcile_prepared_review_repair,
  fail_repair_edit, fail_review_repair,
}
use sofa.System.Moves.{
  Moves, put-Moves, edit-Moves, edit_attempt-Moves, mutate-Moves, require-open, require-passed,
}

pub data RepairCall : Type 0 where
  claims : String → Owner → Counters → RepairCall
  reserves : String → RepairIntent → RepairCall
  releases : Attempt → RepairCall
  begins : Fence → String → String → RepairCall
  publishes : Fence → Publication → RepairCall
  reconciles : Time → Attempt → RunProof → Publication → RepairCall
  fails : Fence → RepairCall

-- The ledger that a call would commit.
unfoldable pub commit_repair : RepairCall → Clock → Ledger → Option Ledger
commit_repair (RepairCall.claims id owner charge) clock s =
    written (apply (claim_review_repair id owner charge) clock s)
commit_repair (RepairCall.reserves id intent) clock s =
    written (apply (reserve_review_repair id intent) clock s)
commit_repair (RepairCall.releases expected) clock s =
    written (apply (release_superseded_review_repair expected) clock s)
commit_repair (RepairCall.begins f digest commit) clock s =
    written (apply (begin_repair_publication f digest commit) clock s)
commit_repair (RepairCall.publishes f p) clock s =
    written (apply (mark_review_repair_published f p) clock s)
commit_repair (RepairCall.reconciles now expected proof p) clock s =
    written (apply (reconcile_prepared_review_repair now expected proof p) clock s)
commit_repair (RepairCall.fails f) clock s = written (apply (fail_review_repair f) clock s)

claim_repair_found-Moves :
    (clock : Clock) (id : String) (owner : Owner) (charge : Counters) (s : Ledger) (a : Attempt)
    {t : Ledger}
    → written (claim_repair_found clock id owner charge s a) ≡ some t
    → (a.phase ≡ Phase.pending)
      × ((t ≡ put_attempt id (exhausted clock a) s)
          ⊎ (t ≡ put_attempt id (repair_claimed clock owner charge a) s))
unfolding claim_repair_found
claim_repair_found-Moves clock id owner charge s a h =
    ground (arith, phase_eq.test_iff a.phase Phase.pending)

reserve_found-written :
    (clock : Clock) (id : String) (intent : RepairIntent) (s : Ledger) (a : Attempt) {t : Ledger}
    → written (reserve_found clock id intent s a) ≡ some t
    → (t.attempts ≡ (put_attempt id (reserved clock intent a) s).attempts)
      × (is_zero a.superseded_at ≡ true)
      × (a.repair ≡ none)
      × (a.phase ≡ Phase.draft)
      × (leb_ℤ a.limits.repairs a.counts.repairs ≡ false)
unfolding reserve_found
reserve_found-written clock id intent s a h = ground (arith, phase_eq.test_iff a.phase Phase.draft)

claims-Moves :
    (id : String) (owner : Owner) (charge : Counters) (clock : Clock) (s : Ledger) {t : Ledger}
    → written (claim_repair_step id owner charge clock s) ≡ some t
    → Moves s t
unfolding claim_repair_step
claims-Moves id owner charge clock s {t} h = elim (Option-cases (get id s.attempts)) [
  | inl e ↦ absurd (cc (rw (e, claim_repair_step) at h))
  | inr (a, e) ↦
      let (p, w) =
        claim_repair_found-Moves clock id owner charge s a (rw (e, claim_repair_step) at h) in
      elim w [
        | inl x ↦ rw x (put-Moves id s a (exhausted clock a) e (SystemChange.exhausts clock p))
        | inr x ↦ rw x (
            put-Moves id s a (repair_claimed clock owner charge a) e
              (SystemChange.claims clock owner charge p))
      ]
]

attempts-Moves : (s t u : Ledger) → u.attempts ≡ t.attempts → Moves s t → Moves s u
attempts-Moves s t u e moves id a found = let (b, at, how) = moves id a found in (b, rw e at, how)

reserves-Moves :
    (id : String) (intent : RepairIntent) (clock : Clock) (s : Ledger) {t : Ledger}
    → written (reserve_step id intent clock s) ≡ some t
    → Moves s t
unfolding reserve_step
reserves-Moves id intent clock s {t} h = elim (Option-cases (get id s.attempts)) [
  | inl e ↦ absurd (cc (rw (e, reserve_step) at h))
  | inr (a, e) ↦
      let (same, live, free, p, room) =
        reserve_found-written clock id intent s a (rw (e, reserve_step) at h) in
      attempts-Moves s (put_attempt id (reserved clock intent a) s) t same (
        put-Moves id s a (reserved clock intent a) e
          (SystemChange.reserves clock intent live free p room))
]

reconciles-Moves :
    (now : Time) (proof : RunProof) (expected : Attempt) (p : Publication) (clock : Clock)
    (s : Ledger) {t : Ledger}
    → may_reconcile now expected proof p ≡ true
    → written (reconcile_step expected p clock s) ≡ some t
    → Moves s t
unfolding reconcile_step
reconciles-Moves now proof expected p clock s ok h =
    elim (Option-cases (get expected.id s.attempts)) [
      | inl e ↦ absurd (cc (rw (e, reconcile_step) at h))
      | inr (a, e) ↦
          edit-Moves expected.id s a (reconcile_edit expected p clock s a) e
            (λ b w. SystemChange.reconciles now expected proof p clock s ok w)
            (rw (e, reconcile_step) at h)
    ]

-- Whatever a repair call commits to a valid ledger is a change of attempts.
pub commit_repair-Moves :
    (digest : AttemptKey → String) (c : RepairCall) (clock : Clock) (s : Ledger) {t : Ledger}
    → validate digest s ≡ true
    → commit_repair c clock s ≡ some t
    → Moves s t
unfolding commit_repair claim_review_repair reserve_review_repair release_superseded_review_repair
    begin_repair_publication mark_review_repair_published reconcile_prepared_review_repair
    fail_review_repair
commit_repair-Moves digest (RepairCall.claims id owner charge) clock s valid h =
    claims-Moves id owner charge clock s (require-open {R = Option Fence} _ _ _ clock s h)
commit_repair-Moves digest (RepairCall.reserves id intent) clock s valid h =
    reserves-Moves id intent clock s h
commit_repair-Moves digest (RepairCall.releases expected) clock s valid h =
    edit_attempt-Moves expected.id (release_repair_edit expected clock) s
      (λ a b w. SystemChange.releases expected clock w) (require-open {R = Unit} _ _ _ clock s h)
commit_repair-Moves digest (RepairCall.begins f d commit) clock s valid h =
    mutate-Moves digest f (begin_repair_edit d commit) clock s valid
      (λ a b w. SystemChange.begins d commit clock w) (require-open {R = Unit} _ _ _ clock s h)
commit_repair-Moves digest (RepairCall.publishes f p) clock s valid h =
    mutate-Moves digest f (mark_repair_edit p) clock s valid
      (λ a b w. SystemChange.publishes p clock w) (require-open {R = Unit} _ _ _ clock s h)
commit_repair-Moves digest (RepairCall.reconciles now expected proof p) clock s valid h =
    let (ok, rest) = require-passed {R = Unit} _ _ _ clock s h in
    reconciles-Moves now proof expected p clock s ok rest
commit_repair-Moves digest (RepairCall.fails f) clock s valid h =
    mutate-Moves digest f fail_repair_edit clock s valid (λ a b w. SystemChange.fails clock w) h
