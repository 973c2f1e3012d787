-- ===== src/Reconcile/Justified.antt =====
-- internal/lifecycle/reconcile.go: what a proposed board move rests on.
use sofa.Base.{
  ◌≡◌, refl, sym, ◌∙◌, inl, inr, String, Bool, true, false, not, Option, none, some, ◌&&◌, ◌||◌,
  ◌==◌, string_eq, arith, Bool-cases,
}
use sofa.State.Records.{Publication, BoardProjection}
use sofa.State.Same.{phase_eq}
use sofa.Lifecycle.Decide.{Decision, project_decision}
use sofa.Authority.Grant.{Snapshot}
use sofa.Reconcile.Input.{EffectKind, DeliveryEvidence, Effect}
use sofa.Reconcile.Observed.{
  projected, evidence_for, fence_of, moved_to, decided_effect, on_evidence,
}

pub not_move : (x : EffectKind) → x ≡ EffectKind.hold → x ≡ EffectKind.move → ⊥
not_move x k h = absurd (cc (sym k ∙ h))

-- The decision on the observed pull request, which the effect carries out under a fence.
pub record ByDecision (o : DeliveryEvidence) (d : Decision) (e : Effect) : Type 0 where
  pub decided : d ≡ Decision.move_to e.to_stage
  pub fenced : e.pr_fence ≡ some (fence_of o)

not_moved-hold :
    (e : Effect) (prior : BoardProjection) (retry : Bool) (o : DeliveryEvidence) (d : Decision)
    → e.kind ≡ EffectKind.hold
    → (moved_to d == "") ≡ true
    → (decided_effect e prior retry o d).kind ≡ EffectKind.hold
unfolding decided_effect
not_moved-hold e prior true o d k h = rw (h, decided_effect) k
not_moved-hold e prior false o d k h = rw (h, decided_effect) k

move_to-ByDecision :
    (e : Effect) (prior : BoardProjection) (retry : Bool) (o : DeliveryEvidence) (stage : String)
    → e.kind ≡ EffectKind.hold
    → (decided_effect e prior retry o (Decision.move_to stage)).kind ≡ EffectKind.move
    → ByDecision o
        (Decision.move_to stage)
        (decided_effect e prior retry o (Decision.move_to stage))
unfolding decided_effect moved_to
move_to-ByDecision e prior retry o stage k h = elim (Bool-cases (stage == "")) [
  | inl empty ↦
      absurd (not_move _ (not_moved-hold e prior retry o (Decision.move_to stage) k empty) h)
  | inr some_stage ↦ elim (Bool-cases (retry && not (stage == prior.pending_stage))) [
    | inl other ↦ absurd (not_move _ k (rw (some_stage, decided_effect, other) at h))
    | inr fine ↦ rw (some_stage, decided_effect, fine) (record { decided = refl; fenced = refl })
  ]
]

decided_effect-ByDecision :
    (e : Effect) (prior : BoardProjection) (retry : Bool) (o : DeliveryEvidence) (d : Decision)
    → e.kind ≡ EffectKind.hold
    → (decided_effect e prior retry o d).kind ≡ EffectKind.move
    → ByDecision o d (decided_effect e prior retry o d)
unfolding moved_to
decided_effect-ByDecision e prior retry o (Decision.move_to stage) k h =
    move_to-ByDecision e prior retry o stage k h
decided_effect-ByDecision e prior retry o Decision.wait k h =
    absurd (not_move _ (not_moved-hold e prior retry o Decision.wait k refl) h)
decided_effect-ByDecision e prior retry o (Decision.blocked r n) k h =
    absurd (not_move _ (not_moved-hold e prior retry o (Decision.blocked r n) k refl) h)
decided_effect-ByDecision e prior retry o (Decision.in_conflict n) k h =
    absurd (not_move _ (not_moved-hold e prior retry o (Decision.in_conflict n) k refl) h)

-- The observed pull request is the published one, and its decision is carried out.
pub record ByEvidence (issue : Snapshot) (stage : String) (p : Publication)
    (x : Option DeliveryEvidence) (e : Effect) : Type 0 where
  pub evidence : DeliveryEvidence
  pub gathered : x ≡ some evidence
  pub matches : evidence_for p evidence ≡ true
  pub not_closed : (issue.opened || evidence.merged) ≡ true
  pub by_decision : ByDecision evidence (project_decision (projected stage p evidence)) e

pub on_evidence-ByEvidence :
    (e : Effect) (prior : BoardProjection) (retry : Bool) (issue : Snapshot) (stage : String)
    (p : Publication) (x : Option DeliveryEvidence)
    → e.kind ≡ EffectKind.hold
    → (on_evidence e prior retry issue stage p x).kind ≡ EffectKind.move
    → ByEvidence issue stage p x (on_evidence e prior retry issue stage p x)
unfolding on_evidence
on_evidence-ByEvidence e prior retry issue stage p none k h = absurd (not_move _ k h)
on_evidence-ByEvidence e prior retry issue stage p (some o) k h =
    elim (Bool-cases (evidence_for p o)) [
      | inr other ↦ absurd (not_move _ k (rw (other, on_evidence) at h))
      | inl same ↦ elim (Bool-cases (not issue.opened && not o.merged)) [
        | inl closed ↦ absurd (not_move _ k (rw (same, on_evidence, closed) at h))
        | inr fine ↦
            let d = project_decision (projected stage p o) in
            rw (same, on_evidence, fine)
              (record {
                evidence = o;
                gathered = refl;
                matches = same;
                not_closed = ground arith;
                by_decision =
                    decided_effect-ByDecision e prior retry o d k
                      (rw (same, on_evidence, fine) at h);
              })
      ]
    ]
