-- ===== src/System/Drafts.antt =====
-- What the operations of the engine leave of a draft.
use sofa.Base.{String, ◌≡◌, refl, ap, ◌⊎◌, inl, inr, true, false, Option, none, some, arith}
use sofa.Base.Int.{leb_ℤ, next_int64}
use sofa.Base.Map.{get}
use sofa.State.Clock.{is_zero}
use sofa.State.Records.{Phase, RepairIntent, RevertScanCursor, Attempt, Ledger}
use sofa.State.Same.{phase_eq, attempt_eq}
use sofa.State.Validate.{AttemptKey, validate}
use sofa.Engine.Outcome.{Clock, Edit}
use sofa.Engine.Ownership.{stamp}
use sofa.Engine.Phases.{StaysDraft, Change-StaysDraft}
use sofa.Repair.Reserve.{reserved, release_repair_edit}
use sofa.Repair.Publish.{fail_repair_from}
use sofa.Discovery.Revise.{superseded_by}
use sofa.Scans.Revert.{advance_scan_edit}
use sofa.System.Change.{SystemChange}
use sofa.System.Calls.{SystemCall, commit_system, commit_system-Moves}
use sofa.System.Phases.{begin_moves, mark_moves, reconcile_moves, may_reconcile-parts, fail_intent}

-- What may become of a draft.
pub data DraftStep (a b : Attempt) : Type 0 where
  stays : StaysDraft a b → DraftStep a b
  -- A review repair is reserved: one more repair is counted, within the limit, and nobody owns it.
  reserves :
      is_zero a.superseded_at ≡ true
      → a.repair ≡ none
      → leb_ℤ a.limits.repairs a.counts.repairs ≡ false
      → b.phase ≡ Phase.pending
      → b.publication ≡ a.publication
      → b.counts ≡ record (a.counts) { repairs = next_int64 a.counts.repairs }
      → b.owner ≡ none
      → b.generation ≡ a.generation
      → DraftStep a b
  -- The repair that the draft has fails.
  fails :
      (r : RepairIntent)
      → a.repair ≡ some r
      → (b.phase ≡ Phase.blocked) ⊎ (b.phase ≡ Phase.draft)
      → b.publication ≡ a.publication
      → b.counts ≡ a.counts
      → b.generation ≡ a.generation
      → DraftStep a b
  -- A revision of Discovery supersedes it.
  supersedes :
      is_zero a.superseded_at ≡ true
      → b.phase ≡ Phase.blocked
      → b.publication ≡ a.publication
      → b.counts ≡ a.counts
      → b.owner ≡ none
      → b.generation ≡ next_int64 a.generation
      → DraftStep a b

release_pending :
    (expected : Attempt) (clock : Clock) (a b : Attempt)
    → release_repair_edit expected clock a ≡ Edit.write b
    → a.phase ≡ Phase.pending
unfolding release_repair_edit
release_pending expected clock a b h = ground (arith, phase_eq.test_iff a.phase Phase.pending)

fail_keeps :
    (r : RepairIntent) (clock : Clock) (a b : Attempt)
    → stamp clock a (fail_repair_from (some r) a) ≡ Edit.write b
    → ((b.phase ≡ Phase.blocked) ⊎ (b.phase ≡ Phase.draft))
      × (b.publication ≡ a.publication)
      × (b.counts ≡ a.counts)
      × (b.generation ≡ a.generation)
unfolding stamp fail_repair_from
fail_keeps r clock a b h = ground arith

scan-StaysDraft :
    (s : Ledger) (id : String) (expected : Option RevertScanCursor) (next : RevertScanCursor)
    (a b : Attempt)
    → advance_scan_edit s id expected next a ≡ Edit.write b
    → a.phase ≡ Phase.draft
    → StaysDraft a b
unfolding advance_scan_edit
scan-StaysDraft s id expected next a b h d = ground arith

SystemChange-DraftStep : (a b : Attempt) → SystemChange a b → a.phase ≡ Phase.draft → DraftStep a b
unfolding reserved superseded_by
SystemChange-DraftStep a b (SystemChange.delivered change) d =
    DraftStep.stays (Change-StaysDraft change d)
SystemChange-DraftStep a b (SystemChange.exhausts clock p) d = absurd (ground arith)
SystemChange-DraftStep a b (SystemChange.claims clock owner charge p) d = absurd (ground arith)
SystemChange-DraftStep a b (SystemChange.reserves clock intent live free p room) d =
    DraftStep.reserves live free room refl refl refl refl refl
SystemChange-DraftStep a b (SystemChange.releases expected clock h) d =
    absurd (ground (arith, release_pending expected clock a b h))
SystemChange-DraftStep a b (SystemChange.begins digest commit clock h) d =
    absurd (ground (arith, begin_moves digest commit clock a b h))
SystemChange-DraftStep a b (SystemChange.publishes p clock h) d =
    absurd (ground (arith, mark_moves p clock a b h))
SystemChange-DraftStep a b (SystemChange.reconciles now expected proof p clock s ok h) d =
    let (e, _) = reconcile_moves expected p clock s a b h in
    let (from, _) = may_reconcile-parts now expected proof p ok in absurd (undraft _ (rw e from) d)
  where
    undraft : (p : Phase) → (p ≡ Phase.blocked) ⊎ (p ≡ Phase.publishing) → p ≡ Phase.draft → ⊥
    undraft p from d = ground arith
SystemChange-DraftStep a b (SystemChange.fails clock h) d =
    let (r, e, w) = fail_intent clock a b h in
    let (to, published, counts, generation) = fail_keeps r clock a b w in
    DraftStep.fails r e to published counts generation
SystemChange-DraftStep a b (SystemChange.supersedes at updated source live) d =
    DraftStep.supersedes live refl refl refl refl refl
SystemChange-DraftStep a b (SystemChange.scans s id expected next h) d =
    DraftStep.stays (scan-StaysDraft s id expected next a b h d)

DraftStep-publication : (a b : Attempt) → DraftStep a b → b.publication ≡ a.publication
DraftStep-publication a b (DraftStep.stays (_, same, _, _, _)) = same
DraftStep-publication a b (DraftStep.reserves live free room to same counts owner gen) = same
DraftStep-publication a b (DraftStep.fails r e to same counts gen) = same
DraftStep-publication a b (DraftStep.supersedes live to same counts owner gen) = same

-- Whatever operation of the engine is committed to a valid ledger, a draft in it keeps its
-- publication, and is as it was or has made one of these steps: it is still a draft with the same
-- counters, owner and generation; it was live, had no repair, and one was reserved within the
-- limit, so that it is pending without owner in the same generation, with one repair more in the
-- counters; the repair that it had failed, so that it is a draft or blocked with the same counters
-- and generation; or, live, it was superseded, and is blocked without owner in the next
-- generation, with the same counters.
pub draft_kept :
    (digest : AttemptKey → String) (c : SystemCall) (before clock : Clock) (s t : Ledger)
    (id : String) (a : Attempt)
    → validate digest s ≡ true
    → commit_system digest c before clock s ≡ some t
    → get id s.attempts ≡ some a
    → a.phase ≡ Phase.draft
    → (b : Attempt) × (get id t.attempts ≡ some b)
      × (b.publication ≡ a.publication)
      × ((b ≡ a) ⊎ DraftStep a b)
draft_kept digest c before clock s t id a v h found d =
    let (b, at, how) = commit_system-Moves digest c before clock s v h id a found in
    elim how [
      | inl same ↦ (b, at, ap Attempt.publication same, inl same)
      | inr change ↦
          let step = SystemChange-DraftStep a b change d in
          (b, at, DraftStep-publication a b step, inr step)
    ]
