-- ===== src/System/Phases.antt =====
-- The transition diagram of an attempt's phase under every operation of the engine.
use sofa.Base.{
  String, ◌≡◌, refl, sym, ◌∙◌, ap, ◌⊎◌, inl, inr, true, false, Option, none, some, arith, ◌==◌,
  string_eq, is_nil, Option-cases,
}
use sofa.Base.Int.{leb_ℤ}
use sofa.Base.Map.{get}
use sofa.State.Clock.{Time, is_zero}
use sofa.State.Records.{Phase, Publication, RepairIntent, RevertScanCursor, Attempt, Ledger}
use sofa.State.Same.{phase_eq, attempt_eq}
use sofa.State.Validate.{AttemptKey, validate}
use sofa.Engine.Outcome.{Clock, Edit}
use sofa.Engine.Ownership.{stamp}
use sofa.Engine.Recovery.{RunProof}
use sofa.Engine.Phases.{Edge, Change-Edge}
use sofa.Repair.Reserve.{
  exhausted, repair_claimed, reserved, released_phase, release_repair, release_repair_edit,
}
use sofa.Repair.Publish.{
  begin_repair_edit, mark_repair_edit, is_prepared, may_reconcile, reconciled, reconcile_edit,
  fail_repair_from, fail_repair_edit,
}
use sofa.Discovery.Revise.{superseded_by}
use sofa.Scans.Revert.{advance_scan_edit}
use sofa.System.Change.{SystemChange}
use sofa.System.Calls.{SystemCall, commit_system, commit_system-Moves}

-- A step of the diagram.
pub data PhaseStep (a b : Attempt) : Type 0 where
  -- An edge of engine.go, which leaves no draft.
  delivers : Edge a.phase b.phase → PhaseStep a b
  -- A review repair is reserved on a live draft that has none, within its limit.
  reserves :
      a.phase ≡ Phase.draft
      → b.phase ≡ Phase.pending
      → is_zero a.superseded_at ≡ true
      → a.repair ≡ none
      → leb_ℤ a.limits.repairs a.counts.repairs ≡ false
      → PhaseStep a b
  -- A repair is given up: its published attempt is a draft again, or blocked without budget.
  withdraws :
      (r : RepairIntent)
      → a.repair ≡ some r
      → b.repair ≡ none
      → is_nil a.publication ≡ false
      → b.phase ≡ released_phase a
      → PhaseStep a b
  -- A repair with a prepared candidate fails, and is kept for its reconciliation.
  keeps_candidate :
      (r : RepairIntent)
      → a.repair ≡ some r
      → (r.candidate_sha == "") ≡ false
      → b.repair ≡ a.repair
      → b.phase ≡ Phase.blocked
      → PhaseStep a b
  -- A prepared candidate turns out to be published.
  settles :
      (p : Publication)
      → (a.phase ≡ Phase.blocked) ⊎ (a.phase ≡ Phase.publishing)
      → is_prepared a.repair a.publication p ≡ true
      → b.phase ≡ Phase.draft
      → b.publication ≡ some p
      → b.repair ≡ none
      → PhaseStep a b
  -- A revision of Discovery supersedes a live attempt.
  supersedes :
      is_zero a.superseded_at ≡ true → b.phase ≡ Phase.blocked → b.owner ≡ none → PhaseStep a b

release_moves :
    (expected : Attempt) (clock : Clock) (a b : Attempt)
    → release_repair_edit expected clock a ≡ Edit.write b
    → (is_nil a.publication ≡ false) × (is_nil a.repair ≡ false) × (b ≡ release_repair clock a)
unfolding release_repair_edit
release_moves expected clock a b h = ground arith

release-PhaseStep :
    (expected : Attempt) (clock : Clock) (a b : Attempt)
    → release_repair_edit expected clock a ≡ Edit.write b
    → PhaseStep a b
unfolding release_repair
release-PhaseStep expected clock a b h =
    let (published, intent, w) = release_moves expected clock a b h in
    elim (Option-cases a.repair) [
      | inl e ↦ absurd (cc (rw e at intent))
      | inr (r, e) ↦ rw w (PhaseStep.withdraws r e refl published refl)
    ]

pub begin_moves :
    (digest commit : String) (clock : Clock) (a b : Attempt)
    → stamp clock a (begin_repair_edit digest commit a) ≡ Edit.write b
    → (a.phase ≡ Phase.validating) × (b.phase ≡ Phase.publishing)
unfolding stamp begin_repair_edit
begin_moves digest commit clock a b h = ground (arith, phase_eq.test_iff a.phase Phase.validating)

pub mark_moves :
    (p : Publication) (clock : Clock) (a b : Attempt)
    → stamp clock a (mark_repair_edit p a) ≡ Edit.write b
    → (a.phase ≡ Phase.publishing) × (b.phase ≡ Phase.draft)
unfolding stamp mark_repair_edit
mark_moves p clock a b h = ground (arith, phase_eq.test_iff a.phase Phase.publishing)

pub fail_moves :
    (r : RepairIntent) (clock : Clock) (a b : Attempt)
    → stamp clock a (fail_repair_from (some r) a) ≡ Edit.write b
    → (is_nil a.publication ≡ false)
      × (((r.candidate_sha == "") ≡ false) × (b.repair ≡ a.repair) × (b.phase ≡ Phase.blocked)
          ⊎ (b.repair ≡ none) × (b.phase ≡ released_phase a))
unfolding stamp fail_repair_from
fail_moves r clock a b h = ground arith

pub fail_intent :
    (clock : Clock) (a b : Attempt)
    → stamp clock a (fail_repair_edit a) ≡ Edit.write b
    → (r : RepairIntent) × (a.repair ≡ some r)
      × (stamp clock a (fail_repair_from (some r) a) ≡ Edit.write b)
unfolding stamp fail_repair_edit fail_repair_from
fail_intent clock a b h = elim (Option-cases a.repair) [
  | inl e ↦ absurd (cc (ap (λ o. stamp clock a (fail_repair_from o a)) (sym e) ∙ h))
  | inr (r, e) ↦ (r, e, ap (λ o. stamp clock a (fail_repair_from o a)) (sym e) ∙ h)
]

fail-PhaseStep :
    (clock : Clock) (a b : Attempt)
    → stamp clock a (fail_repair_edit a) ≡ Edit.write b
    → PhaseStep a b
fail-PhaseStep clock a b h =
    let (r, e, w) = fail_intent clock a b h in
    let (published, how) = fail_moves r clock a b w in
    elim how [
      | inl (prepared, kept, to) ↦ PhaseStep.keeps_candidate r e prepared kept to
      | inr (gone, to) ↦ PhaseStep.withdraws r e gone published to
    ]

pub reconcile_moves :
    (expected : Attempt) (p : Publication) (clock : Clock) (s : Ledger) (a b : Attempt)
    → reconcile_edit expected p clock s a ≡ Edit.write b
    → (a ≡ expected) × (b ≡ reconciled clock p a)
unfolding reconcile_edit
reconcile_moves expected p clock s a b h = ground (arith, attempt_eq.test_iff a expected)

pub may_reconcile-parts :
    (now : Time) (expected : Attempt) (proof : RunProof) (p : Publication)
    → may_reconcile now expected proof p ≡ true
    → ((expected.phase ≡ Phase.blocked) ⊎ (expected.phase ≡ Phase.publishing))
      × (is_prepared expected.repair expected.publication p ≡ true)
unfolding may_reconcile
may_reconcile-parts now expected proof p h = ground (
  arith,
  phase_eq.test_iff expected.phase Phase.blocked,
  phase_eq.test_iff expected.phase Phase.publishing,
)

scan_stays :
    (s : Ledger) (id : String) (expected : Option RevertScanCursor) (next : RevertScanCursor)
    (a b : Attempt)
    → advance_scan_edit s id expected next a ≡ Edit.write b
    → b.phase ≡ a.phase
unfolding advance_scan_edit
scan_stays s id expected next a b h = ground arith

SystemChange-PhaseStep : (a b : Attempt) → SystemChange a b → PhaseStep a b
unfolding exhausted repair_claimed reserved superseded_by reconciled
SystemChange-PhaseStep a b (SystemChange.delivered change) = PhaseStep.delivers (Change-Edge change)
SystemChange-PhaseStep a b (SystemChange.exhausts clock p) =
    PhaseStep.delivers (Edge.halt (λ d. cc (p, d)) (inl refl))
SystemChange-PhaseStep a b (SystemChange.claims clock owner charge p) =
    PhaseStep.delivers (Edge.start p refl)
SystemChange-PhaseStep a b (SystemChange.reserves clock intent live free p room) =
    PhaseStep.reserves p refl live free room
SystemChange-PhaseStep a b (SystemChange.releases expected clock h) =
    release-PhaseStep expected clock a b h
SystemChange-PhaseStep a b (SystemChange.begins digest commit clock h) =
    let (from, to) = begin_moves digest commit clock a b h in
    PhaseStep.delivers (Edge.publish from to)
SystemChange-PhaseStep a b (SystemChange.publishes p clock h) =
    let (from, to) = mark_moves p clock a b h in PhaseStep.delivers (Edge.finish from to)
SystemChange-PhaseStep a b (SystemChange.reconciles now expected proof p clock s ok h) =
    let (e, w) = reconcile_moves expected p clock s a b h in
    let (from, prepared) = may_reconcile-parts now expected proof p ok in
    rw w (PhaseStep.settles p (rw e from) (rw e prepared) refl refl refl)
SystemChange-PhaseStep a b (SystemChange.fails clock h) = fail-PhaseStep clock a b h
SystemChange-PhaseStep a b (SystemChange.supersedes at updated source live) =
    PhaseStep.supersedes live refl refl
SystemChange-PhaseStep a b (SystemChange.scans s id expected next h) =
    PhaseStep.delivers (rw (scan_stays s id expected next a b h) Edge.stay)

-- Whatever operation of the engine is committed to a valid ledger (deliveries, admissions, repairs,
-- discovery work with the supersession of attempts, board moves, polls and revert scans), every
-- attempt stays in the ledger, as it was or by a step of the phase diagram.
pub commit_system-PhaseStep :
    (digest : AttemptKey → String) (c : SystemCall) (before clock : Clock) (s t : Ledger)
    (id : String) (a : Attempt)
    → validate digest s ≡ true
    → commit_system digest c before clock s ≡ some t
    → get id s.attempts ≡ some a
    → (b : Attempt) × (get id t.attempts ≡ some b) × ((b ≡ a) ⊎ PhaseStep a b)
commit_system-PhaseStep digest c before clock s t id a v h found =
    let (b, at, how) = commit_system-Moves digest c before clock s v h id a found in
    elim how [
      | inl same ↦ (b, at, inl same)
      | inr change ↦ (b, at, inr (SystemChange-PhaseStep a b change))
    ]
