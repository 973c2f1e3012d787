-- ===== src/Reconcile/Identity.antt =====
-- internal/lifecycle/reconcile.go: every effect is of the issue that it was computed for.
use sofa.Base.{◌≡◌, refl, String, Bool, true, false, Option, none, some, string_eq, arith}
use sofa.Base.Map.{Map, get}
use sofa.State.Records.{Publication, Attempt, SpecRecord, BoardProjection}
use sofa.State.Same.{phase_eq}
use sofa.Lifecycle.Decide.{Decision, project_decision}
use sofa.Authority.Libraries.{Libraries}
use sofa.Authority.Grant.{Snapshot}
use sofa.Reconcile.Input.{DeliveryEvidence, ScanInput, Effect, ItemIndex}
use sofa.Reconcile.Observed.{
  decided_effect, on_evidence, on_publication, on_phase, on_attempt, projected, terminal_phase,
}
use sofa.Reconcile.Scan.{on_record, on_board, on_projection}

-- The identity of an effect is that of another.
abbrev pub Same : Effect → Effect → Type 0
Same e f = (f.issue_id ≡ e.issue_id) × (f.from_stage ≡ e.from_stage)

decided_effect-Same :
    (e : Effect) (prior : BoardProjection) (retry : Bool) (o : DeliveryEvidence) (d : Decision)
    → Same e (decided_effect e prior retry o d)
unfolding decided_effect
decided_effect-Same e prior retry o d = (ground arith, ground arith)

on_evidence-Same :
    (e : Effect) (prior : BoardProjection) (retry : Bool) (issue : Snapshot) (stage : String)
    (p : Publication) (x : Option DeliveryEvidence)
    → Same e (on_evidence e prior retry issue stage p x)
unfolding on_evidence
on_evidence-Same e prior retry issue stage p none = (refl, refl)
on_evidence-Same e prior retry issue stage p (some o) =
    let (i, f) = decided_effect-Same e prior retry o (project_decision (projected stage p o)) in
    (ground arith, ground arith)

on_publication-Same :
    (e : Effect) (prior : BoardProjection) (retry : Bool) (issue : Snapshot) (stage : String)
    (a : Attempt) (m : Map DeliveryEvidence) (x : Option Publication)
    → Same e (on_publication e prior retry issue stage a m x)
unfolding on_publication
on_publication-Same e prior retry issue stage a m none = (refl, refl)
on_publication-Same e prior retry issue stage a m (some p) =
    let (i, f) = on_evidence-Same e prior retry issue stage p (get issue.issue_id m) in
    (ground arith, ground arith)

on_phase-Same :
    (input : ScanInput) (e : Effect) (prior : BoardProjection) (retry : Bool) (issue : Snapshot)
    (stage : String) (a : Attempt) (x : Option String)
    → Same e (on_phase input e prior retry issue stage a x)
unfolding on_phase
on_phase-Same input e prior retry issue stage a (some phase) = (refl, refl)
on_phase-Same input e prior retry issue stage a none =
    let (i, f) = on_publication-Same e prior retry issue stage a input.evidence a.publication in
    (ground arith, ground arith)

on_attempt-Same :
    (input : ScanInput) (e : Effect) (prior : BoardProjection) (retry : Bool) (issue : Snapshot)
    (stage : String) (r : SpecRecord) (x : Option Attempt)
    → Same e (on_attempt input e prior retry issue stage r x)
unfolding on_attempt
on_attempt-Same input e prior retry issue stage r none = (ground arith, ground arith)
on_attempt-Same input e prior retry issue stage r (some a) =
    let (i, f) = on_phase-Same input e prior retry issue stage a (terminal_phase a.phase) in
    (ground arith, ground arith)

module _ (lib : Libraries) (input : ScanInput) (index : ItemIndex) where
  on_record-Same :
      (e : Effect) (prior : BoardProjection) (retry : Bool) (issue : Snapshot) (stage : String)
      (x : Option SpecRecord)
      → Same e (on_record lib input index e prior retry issue stage x)
  unfolding on_record
  on_record-Same e prior retry issue stage none = (refl, refl)
  on_record-Same e prior retry issue stage (some r) =
      let (i, f) =
        on_attempt-Same input e prior retry issue stage r
          (get issue.project_item_id index.attempts) in
      (ground arith, ground arith)

  on_board-Same :
      (e : Effect) (prior : BoardProjection) (retry : Bool) (issue : Snapshot) (stage : String)
      → Same e (on_board lib input index e prior retry issue stage)
  unfolding on_board
  on_board-Same e prior retry issue stage =
      let (i, f) =
        on_record-Same e prior retry issue stage (get issue.issue_id input.ledger.specs) in
      (ground arith, ground arith)

  pub on_projection-Same :
      (e : Effect) (issue : Snapshot) (stage : String) (x : Option BoardProjection)
      → Same e (on_projection lib input index e issue stage x)
  unfolding on_projection
  on_projection-Same e issue stage none = (refl, refl)
  on_projection-Same e issue stage (some prior) =
      let (i, f) = on_board-Same e prior false issue stage in
      let (j, g) = on_board-Same e prior true issue stage in (ground arith, ground arith)
