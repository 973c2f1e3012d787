-- ===== src/System/Posts.antt =====
-- The comment of a Discovery task: MarkDiscoveryPostAttempt and what comes after it.
use sofa.Base.{
  String, Bool, ◌≡◌, refl, sym, ◌∙◌, ap, ◌⊎◌, inl, inr, true, false, not, Option, none, some, arith,
  ◌==◌, option_eq, some_inj,
}
use sofa.Base.Map.{get, get-put_self}
use sofa.State.Records.{DiscoveryPhase, DiscoveryPublication, DiscoveryTask, Ledger}
use sofa.State.SameTask.{discovery_phase_eq}
use sofa.State.Validate.{AttemptKey, validate}
use sofa.Engine.Outcome.{Outcome, Clock, apply}
use sofa.Engine.Calls.{written}
use sofa.Discovery.Task.{DiscoveryFence, TaskEdit}
use sofa.Discovery.Work.{
  claim_discovery_edit, discovery_claimed_by, prepare_edit, mark_post_edit,
  mark_discovery_post_attempt, complete_edit, fail_discovery_edit, recover_discovery_edit,
  cancel_discovery_edit, intent_is, intends,
}
use sofa.Discovery.Revise.{revised_task}
use sofa.Discovery.Admit.{may_revise}
use sofa.System.Research.{ResearchCall}
use sofa.System.Tasks.{TaskChange, edit_owned_task-TaskWrite, held_edit-write}
use sofa.System.ResearchRuns.{ResearchRun, ResearchRun-keeps, ResearchRun-valid}

-- The task of the issue waits for the owner's review of its proposal.
unfoldable pub in_review : String → Ledger → Bool
in_review id s = elim (get id s.discoveries) [
  | none ↦ false
  | some d ↦ d.phase == DiscoveryPhase.review
]

-- An attempted publication stays, unless the task completes.
TaskChange-attempted :
    (p : DiscoveryPublication) (d e : DiscoveryTask)
    → p.post_attempted ≡ true
    → d.publication ≡ some p
    → TaskChange d e
    → (e.publication ≡ some p) ⊎ (e.phase ≡ DiscoveryPhase.review)
unfolding claim_discovery_edit discovery_claimed_by prepare_edit mark_post_edit complete_edit
    fail_discovery_edit recover_discovery_edit cancel_discovery_edit revised_task may_revise
    intent_is intends
TaskChange-attempted p d e a h (TaskChange.claimed id owner clock w) = ground arith
TaskChange-attempted p d e a h (TaskChange.prepared f g key clock mine w) = ground arith
TaskChange-attempted p d e a h (TaskChange.posted f g key clock mine w) = ground arith
TaskChange-attempted p d e a h (TaskChange.completed f c clock mine w) = ground arith
TaskChange-attempted p d e a h (TaskChange.failed f kind clock mine w) = ground arith
TaskChange-attempted p d e a h (TaskChange.recovered proof clock w) = ground arith
TaskChange-attempted p d e a h (TaskChange.cancelled clock w) = ground arith
TaskChange-attempted p d e a h (TaskChange.raised clock m blocked) = inl h
TaskChange-attempted p d e a h (TaskChange.revised clock n revision task ok valid) = ground arith

-- What is known of a task and a call of MarkDiscoveryPostAttempt that answered true.
Posted : DiscoveryFence → Ledger → Type 0
Posted f t =
    (d : DiscoveryTask) × (p : DiscoveryPublication) × (get f.issue_id t.discoveries ≡ some d)
    × (d.publication ≡ some p)
    × (p.post_attempted ≡ true)

mark_post-true :
    (digest key : String) (clock : Clock) (d e : DiscoveryTask) (o : Option DiscoveryPublication)
    (r : Bool)
    → mark_post_edit digest key clock d o ≡ TaskEdit.write e r
    → (p : DiscoveryPublication) × (e.publication ≡ some p) × (p.post_attempted ≡ true)
unfolding mark_post_edit
mark_post-true digest key clock d e none r h = absurd (cc h)
mark_post-true digest key clock d e (some p) r h =
    (record p { post_attempted = true }, ground arith, refl)

-- Only a publication that was not attempted is answered true.
mark_post-attempted :
    (digest key : String) (clock : Clock) (d e : DiscoveryTask) (p : DiscoveryPublication)
    (r : Bool)
    → p.post_attempted ≡ true
    → mark_post_edit digest key clock d (some p) ≡ TaskEdit.write e r
    → ⊥
unfolding mark_post_edit intent_is
mark_post-attempted digest key clock d e p r a h = ground arith

mark-Posted :
    (digest : AttemptKey → String) (f : DiscoveryFence) (source key : String) (clock : Clock)
    (s t : Ledger)
    → validate digest s ≡ true
    → apply (mark_discovery_post_attempt f source key) clock s ≡ Outcome.changed t true
    → Posted f t
unfolding mark_discovery_post_attempt Posted
mark-Posted digest f source key clock s t v h =
    let (c, e, r, at, w, same) =
      edit_owned_task-TaskWrite {R = Bool} digest f s
        (λ d. mark_post_edit source key clock d d.publication) v (ap written h) in
    let (_, x) =
      held_edit-write {R = Bool} f (λ d. mark_post_edit source key clock d d.publication) c e r w in
    let (p, q, a) = mark_post-true source key clock c e c.publication r x in
    (e, p, ap (λ (l : Ledger). get f.issue_id l.discoveries) same ∙ get-put_self _ _ _, q, a)

-- A task with an attempted publication answers no second time.
attempted-mark :
    (digest : AttemptKey → String) (f : DiscoveryFence) (source key : String) (clock : Clock)
    (s t : Ledger) (d : DiscoveryTask) (p : DiscoveryPublication)
    → validate digest s ≡ true
    → get f.issue_id s.discoveries ≡ some d
    → d.publication ≡ some p
    → p.post_attempted ≡ true
    → ¬ (apply (mark_discovery_post_attempt f source key) clock s ≡ Outcome.changed t true)
unfolding mark_discovery_post_attempt
attempted-mark digest f source key clock s t d p v found q a = λ h.
    let (c, e, r, at, w, same) =
      edit_owned_task-TaskWrite {R = Bool} digest f s
        (λ y. mark_post_edit source key clock y y.publication) v (ap written h) in
    let (_, x) =
      held_edit-write {R = Bool} f (λ y. mark_post_edit source key clock y y.publication) c e r w in
    let cd : c ≡ d = some_inj (sym at ∙ found) in
    mark_post-attempted source key clock c e p r a
      (rw (ap (λ (y : DiscoveryTask). y.publication) cd ∙ q) at x)

in_review-false :
    (id : String) (s : Ledger) (d : DiscoveryTask)
    → not (in_review id s) ≡ true
    → get id s.discoveries ≡ some d
    → d.phase ≡ DiscoveryPhase.review
    → ⊥
unfolding in_review discovery_phase_eq
in_review-false id s d h found e =
    let now : in_review id s ≡ true = rw (found, in_review, e) refl in absurd (cc (now, h))

pub post_once :
    (digest : AttemptKey → String) (allowed : ResearchCall → Bool) (f g : DiscoveryFence)
    (source key other_source other_key : String) (clock later : Clock) (s t u v : Ledger)
    → validate digest s ≡ true
    → apply (mark_discovery_post_attempt f source key) clock s ≡ Outcome.changed t true
    → validate digest t ≡ true
    → ResearchRun digest allowed (λ l. not (in_review f.issue_id l)) t u
    → g.issue_id ≡ f.issue_id
    → ¬ (
        apply (mark_discovery_post_attempt g other_source other_key) later u
        ≡ Outcome.changed v true)
unfolding Posted
post_once digest allowed f g source key other_source other_key clock later s t u v ok first vt run
      same =
    let (d, p, found, q, a) = mark-Posted digest f source key clock s t ok first in
    let (e, at, r) =
      ResearchRun-keeps digest allowed (λ l. not (in_review f.issue_id l))
        (λ x. x.publication ≡ some p) f.issue_id
        (λ l x y open_yet now _ _ change had. elim (TaskChange-attempted p x y a had change) [
          | inl stays ↦ stays
          | inr done ↦ absurd (in_review-false f.issue_id l y open_yet now done)
        ])
        d vt found q run in
    attempted-mark digest g other_source other_key later u v e p
      (ResearchRun-valid digest allowed (λ l. not (in_review f.issue_id l)) vt run)
      (ap (λ k. get k u.discoveries) same ∙ at) r a
