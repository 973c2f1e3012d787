-- ===== src/System/Change.antt =====
-- internal/state: everything that an operation of the engine may do to one attempt.
use sofa.Base.{String, ◌≡◌, refl, inl, inr, true, false, Option, none, arith}
use sofa.Base.Int.{leb_ℤ}
use sofa.State.Clock.{Time, is_zero}
use sofa.State.Records.{
  Phase, Counters, Owner, Publication, RepairIntent, RevertScanCursor, Attempt, Ledger,
}
use sofa.State.Same.{phase_eq, attempt_eq}
use sofa.Engine.Outcome.{Clock, Edit}
use sofa.Engine.Ownership.{stamp}
use sofa.Engine.Recovery.{RunProof}
use sofa.Engine.Calls.{Change}
use sofa.Engine.Changes.{FenceStep, Change-FenceStep}
use sofa.Repair.Reserve.{exhausted, repair_claimed, reserved, release_repair, release_repair_edit}
use sofa.Repair.Publish.{
  begin_repair_edit, mark_repair_edit, may_reconcile, reconcile_edit, fail_repair_edit,
}
use sofa.Discovery.Revise.{superseded_by}
use sofa.Scans.Revert.{advance_scan_edit}

-- One constructor for each way in which a closure writes an attempt.
pub data SystemChange (a : Attempt) : Attempt → Type 0 where
  delivered : {b : Attempt} → Change a b → SystemChange a b
  exhausts : (clock : Clock) → a.phase ≡ Phase.pending → SystemChange a (exhausted clock a)
  claims :
      (clock : Clock) (owner : Owner) (charge : Counters)
      → a.phase ≡ Phase.pending
      → SystemChange a (repair_claimed clock owner charge a)
  reserves :
      (clock : Clock) (intent : RepairIntent)
      → is_zero a.superseded_at ≡ true
      → a.repair ≡ none
      → a.phase ≡ Phase.draft
      → leb_ℤ a.limits.repairs a.counts.repairs ≡ false
      → SystemChange a (reserved clock intent a)
  releases :
      (expected : Attempt) (clock : Clock) {b : Attempt}
      → release_repair_edit expected clock a ≡ Edit.write b
      → SystemChange a b
  begins :
      (digest commit : String) (clock : Clock) {b : Attempt}
      → stamp clock a (begin_repair_edit digest commit a) ≡ Edit.write b
      → SystemChange a b
  publishes :
      (p : Publication) (clock : Clock) {b : Attempt}
      → stamp clock a (mark_repair_edit p a) ≡ Edit.write b
      → SystemChange a b
  reconciles :
      (now : Time) (expected : Attempt) (proof : RunProof) (p : Publication) (clock : Clock)
      (s : Ledger) {b : Attempt}
      → may_reconcile now expected proof p ≡ true
      → reconcile_edit expected p clock s a ≡ Edit.write b
      → SystemChange a b
  fails :
      (clock : Clock) {b : Attempt}
      → stamp clock a (fail_repair_edit a) ≡ Edit.write b
      → SystemChange a b
  supersedes :
      (at updated : Time) (source : String)
      → is_zero a.superseded_at ≡ true
      → SystemChange a (superseded_by at updated source a)
  scans :
      (s : Ledger) (id : String) (expected : Option RevertScanCursor) (next : RevertScanCursor)
      {b : Attempt}
      → advance_scan_edit s id expected next a ≡ Edit.write b
      → SystemChange a b

release-FenceStep :
    (expected : Attempt) (clock : Clock) (a b : Attempt)
    → release_repair_edit expected clock a ≡ Edit.write b
    → FenceStep a b
unfolding release_repair_edit release_repair
release-FenceStep expected clock a b h = ground arith

begin-FenceStep :
    (digest commit : String) (clock : Clock) (a b : Attempt)
    → stamp clock a (begin_repair_edit digest commit a) ≡ Edit.write b
    → FenceStep a b
unfolding stamp begin_repair_edit
begin-FenceStep digest commit clock a b h = ground arith

mark-FenceStep :
    (p : Publication) (clock : Clock) (a b : Attempt)
    → stamp clock a (mark_repair_edit p a) ≡ Edit.write b
    → FenceStep a b
unfolding stamp mark_repair_edit
mark-FenceStep p clock a b h = ground arith

fail-FenceStep :
    (clock : Clock) (a b : Attempt)
    → stamp clock a (fail_repair_edit a) ≡ Edit.write b
    → FenceStep a b
unfolding stamp fail_repair_edit
fail-FenceStep clock a b h = ground arith

reconcile-FenceStep :
    (expected : Attempt) (p : Publication) (clock : Clock) (s : Ledger) (a b : Attempt)
    → reconcile_edit expected p clock s a ≡ Edit.write b
    → FenceStep a b
unfolding reconcile_edit
reconcile-FenceStep expected p clock s a b h = ground arith

scan-FenceStep :
    (s : Ledger) (id : String) (expected : Option RevertScanCursor) (next : RevertScanCursor)
    (a b : Attempt)
    → advance_scan_edit s id expected next a ≡ Edit.write b
    → FenceStep a b
unfolding advance_scan_edit
scan-FenceStep s id expected next a b h = ground arith

-- Every change is a step that the ownership fences allow.
pub SystemChange-FenceStep : (a b : Attempt) → SystemChange a b → FenceStep a b
unfolding exhausted repair_claimed reserved superseded_by
SystemChange-FenceStep a b (SystemChange.delivered change) = Change-FenceStep a b change
SystemChange-FenceStep a b (SystemChange.exhausts clock p) = (λ live. live, inl (refl, inl refl))
SystemChange-FenceStep a b (SystemChange.claims clock owner charge p) = (λ live. live, inr refl)
SystemChange-FenceStep a b (SystemChange.reserves clock intent live free p room) =
    (λ x. x, inl (refl, inr refl))
SystemChange-FenceStep a b (SystemChange.releases expected clock h) =
    release-FenceStep expected clock a b h
SystemChange-FenceStep a b (SystemChange.begins digest commit clock h) =
    begin-FenceStep digest commit clock a b h
SystemChange-FenceStep a b (SystemChange.publishes p clock h) = mark-FenceStep p clock a b h
SystemChange-FenceStep a b (SystemChange.reconciles now expected proof p clock s ok h) =
    reconcile-FenceStep expected p clock s a b h
SystemChange-FenceStep a b (SystemChange.fails clock h) = fail-FenceStep clock a b h
SystemChange-FenceStep a b (SystemChange.supersedes at updated source live) = (λ _. live, inr refl)
SystemChange-FenceStep a b (SystemChange.scans s id expected next h) =
    scan-FenceStep s id expected next a b h
