-- ===== src/Reconcile/Moves.antt =====
-- internal/lifecycle/reconcile.go: the authority behind a proposed board move.
use sofa.Base.{
  ◌≡◌, refl, inl, inr, String, Bool, true, false, not, Option, none, some, ◌&&◌, ◌||◌, ◌==◌,
  string_eq, if◌then◌else◌, arith, Bool-cases, is_nil,
}
use sofa.Base.Int.{pos, ltb_ℤ}
use sofa.Base.Map.{get}
use sofa.State.Records.{Phase, Publication, Attempt, SpecRecord, BoardProjection}
use sofa.State.Same.{phase_eq}
use sofa.Lifecycle.Stages.{stage_for}
use sofa.Authority.Libraries.{Libraries, spec_of}
use sofa.Authority.Grant.{Snapshot}
use sofa.Reconcile.Input.{EffectKind, ScanInput, Effect, ItemIndex, holds_at}
use sofa.Reconcile.Observed.{
  on_attempt, approves, unchanged_source, on_publication, on_phase, delivers_issue, admitted_for,
  terminal_phase,
}
use sofa.Reconcile.Scan.{delivers_stage, unmoved, same_item, on_record}
use sofa.Reconcile.Justified.{ByEvidence, on_evidence-ByEvidence, not_move}

-- A draft that published the pull request, admitted for the approved scope of the issue.
pub record ByAttempt (input : ScanInput) (issue : Snapshot) (stage : String) (r : SpecRecord)
    (x : Option Attempt) (e : Effect) : Type 0 where
  pub attempt : Attempt
  pub indexed : x ≡ some attempt
  pub delivers : delivers_issue input.repository issue attempt ≡ true
  pub admitted : admitted_for issue stage r attempt ≡ true
  pub draft : (attempt.phase == Phase.draft) ≡ true
  pub publication : Publication
  pub published : attempt.publication ≡ some publication
  pub by_evidence : ByEvidence issue stage publication (get issue.issue_id input.evidence) e

record ByPublication (input : ScanInput) (issue : Snapshot) (stage : String) (a : Attempt)
    (x : Option Publication) (e : Effect) : Type 0 where
  draft : (a.phase == Phase.draft) ≡ true
  publication : Publication
  published : x ≡ some publication
  by_evidence : ByEvidence issue stage publication (get issue.issue_id input.evidence) e

on_publication-ByPublication :
    (input : ScanInput) (e : Effect) (prior : BoardProjection) (retry : Bool) (issue : Snapshot)
    (stage : String) (a : Attempt) (x : Option Publication)
    → e.kind ≡ EffectKind.hold
    → (on_publication e prior retry issue stage a input.evidence x).kind ≡ EffectKind.move
    → ByPublication input issue stage a x
        (on_publication e prior retry issue stage a input.evidence x)
unfolding on_publication
on_publication-ByPublication input e prior retry issue stage a none k h = absurd (not_move _ k h)
on_publication-ByPublication input e prior retry issue stage a (some p) k h =
    elim (Bool-cases (not (a.phase == Phase.draft) || ltb_ℤ p.pr_number (pos 1))) [
      | inl other ↦ absurd (not_move _ k (rw (other, on_publication) at h))
      | inr fine ↦
          rw (fine, on_publication)
            (record {
              draft = ground arith;
              publication = p;
              published = refl;
              by_evidence =
                  on_evidence-ByEvidence e prior retry issue stage p
                    (get issue.issue_id input.evidence) k (rw (fine, on_publication) at h);
            })
    ]

on_phase-ByPublication :
    (input : ScanInput) (e : Effect) (prior : BoardProjection) (retry : Bool) (issue : Snapshot)
    (stage : String) (a : Attempt) (x : Option String)
    → e.kind ≡ EffectKind.hold
    → (on_phase input e prior retry issue stage a x).kind ≡ EffectKind.move
    → ByPublication input issue stage a a.publication (on_phase input e prior retry issue stage a x)
unfolding on_phase
on_phase-ByPublication input e prior retry issue stage a (some phase) k h = absurd (not_move _ k h)
on_phase-ByPublication input e prior retry issue stage a none k h =
    elim (Bool-cases ((stage == "ready") && (a.phase == Phase.pending) && is_nil a.owner)) [
      | inl waits ↦ absurd (not_move _ k (rw (waits, on_phase) at h))
      | inr fine ↦
          rw (fine, on_phase)
            (on_publication-ByPublication input e prior retry issue stage a a.publication k
              (rw (fine, on_phase) at h))
    ]

held_unless :
    (b : Bool) (e f : Effect)
    → e.kind ≡ EffectKind.hold
    → f.kind ≡ EffectKind.hold
    → (if b then e else f).kind ≡ EffectKind.hold
held_unless true e f k l = k
held_unless false e f k l = l

on_attempt-ByAttempt :
    (input : ScanInput) (e : Effect) (prior : BoardProjection) (retry : Bool) (issue : Snapshot)
    (stage : String) (r : SpecRecord) (x : Option Attempt)
    → e.kind ≡ EffectKind.hold
    → (on_attempt input e prior retry issue stage r x).kind ≡ EffectKind.move
    → ByAttempt input issue stage r x (on_attempt input e prior retry issue stage r x)
unfolding on_attempt
on_attempt-ByAttempt input e prior retry issue stage r none k h =
    absurd (not_move _ (held_unless _ _ _ k k) h)
on_attempt-ByAttempt input e prior retry issue stage r (some a) k h =
    elim (Bool-cases (delivers_issue input.repository issue a)) [
      | inr other ↦ absurd (not_move _ k (rw (other, on_attempt) at h))
      | inl ours ↦ elim (Bool-cases (admitted_for issue stage r a)) [
        | inr old ↦ absurd (not_move _ k (rw (ours, on_attempt, old) at h))
        | inl admitted ↦
            let b =
              on_phase-ByPublication input e prior retry issue stage a (terminal_phase a.phase) k
                (rw (ours, on_attempt, admitted) at h) in
            rw (ours, on_attempt, admitted)
              (record {
                attempt = a;
                indexed = refl;
                delivers = ours;
                admitted = admitted;
                draft = b.draft;
                publication = b.publication;
                published = b.published;
                by_evidence = b.by_evidence;
              })
      ]
    ]

-- The record of the issue approves its scope, and the issue's text is the approved one.
pub record ByRecord (lib : Libraries) (input : ScanInput) (index : ItemIndex) (issue : Snapshot)
    (stage : String) (x : Option SpecRecord) (e : Effect) : Type 0 where
  pub approval : SpecRecord
  pub recorded : x ≡ some approval
  pub approved : approves input issue approval ≡ true
  pub unchanged : unchanged_source issue approval (spec_of lib issue.title issue.body) ≡ true
  pub by_attempt : ByAttempt input issue stage approval (get issue.project_item_id index.attempts) e

-- A proposed move: the board shows the issue where the ledger has it, in a stage of delivery, one
-- live attempt at most is of its item, and the record of the issue backs the move.
pub record MoveJustified (lib : Libraries) (input : ScanInput) (index : ItemIndex)
    (issue : Snapshot) (e : Effect) : Type 0 where
  pub stage : String
  pub known : stage_for input.statuses issue.current_status ≡ some stage
  pub projection : BoardProjection
  pub projected : get issue.issue_id input.ledger.projections ≡ some projection
  pub item : same_item input issue projection ≡ true
  pub where_it_was : unmoved projection stage issue ≡ true
  pub delivering : delivers_stage stage ≡ true
  pub unambiguous : holds_at issue.project_item_id index.ambiguous ≡ false
  pub by_record : ByRecord lib input index issue stage (get issue.issue_id input.ledger.specs) e

module _ (lib : Libraries) (input : ScanInput) (index : ItemIndex) where
  pub on_record-ByRecord :
      (e : Effect) (prior : BoardProjection) (retry : Bool) (issue : Snapshot) (stage : String)
      (x : Option SpecRecord)
      → e.kind ≡ EffectKind.hold
      → (on_record lib input index e prior retry issue stage x).kind ≡ EffectKind.move
      → ByRecord lib input index issue stage x
          (on_record lib input index e prior retry issue stage x)
  unfolding on_record
  on_record-ByRecord e prior retry issue stage none k h = absurd (not_move _ k h)
  on_record-ByRecord e prior retry issue stage (some r) k h =
      elim (Bool-cases (approves input issue r)) [
        | inr other ↦ absurd (not_move _ k (rw (other, on_record) at h))
        | inl ours ↦
            let source = unchanged_source issue r (spec_of lib issue.title issue.body) in
            elim (Bool-cases source) [
              | inr changed ↦ absurd (not_move _ k (rw (ours, on_record, changed) at h))
              | inl same ↦
                  rw (ours, on_record, same)
                    (record {
                      approval = r;
                      recorded = refl;
                      approved = ours;
                      unchanged = same;
                      by_attempt =
                          on_attempt-ByAttempt input e prior retry issue stage r
                            (get issue.project_item_id index.attempts) k
                            (rw (ours, on_record, same) at h);
                    })
            ]
      ]
