-- ===== src/System/Progress.antt =====
-- The limit of Discovery work in progress, along sequences of calls.
use sofa.Base.{ℕ, String, Bool, ◌≡◌, true, some}
use sofa.Base.Int.{pos, leb_ℤ}
use sofa.State.Records.{DiscoveryTask, Ledger}
use sofa.State.Validate.{AttemptKey, validate}
use sofa.Engine.Outcome.{Clock}
use sofa.Discovery.Task.{DiscoveryFence, TaskEdit}
use sofa.Discovery.Work.{
  claim_discovery_edit, claim_discovery, prepare_edit, prepare_discovery_publication,
  mark_post_edit, mark_discovery_post_attempt, complete_edit, complete_discovery,
  fail_discovery_edit, fail_discovery, recover_discovery_edit, recover_discovery,
  cancel_discovery_edit, cancel_discovery,
}
use sofa.Discovery.Terms.{AdmittedTask, task_of}
use sofa.Discovery.Admit.{admit_discovery, captured}
use sofa.System.Moves.{require-open}
use sofa.System.Research.{ResearchCall, commit_research}
use sofa.System.Tasks.{
  TaskWrite, edit_task-TaskWrite, edit_owned_task-TaskWrite, held_edit, held_edit-write,
}
use sofa.System.ResearchRuns.{ResearchRun, here, after_research, after_others, ResearchRun-valid}
use sofa.System.Limit.{
  WithinLimit, TaskWrite-WithinLimit, claim-Calm, prepare-Calm, post-Calm, complete-Calm, fail-Calm,
  recover-Calm, cancel-Calm, Calm,
}
use sofa.System.Full.{admit_step-WithinLimit, discoveries-WithinLimit}

-- The call admits work for at most `n` tasks at a time.
unfoldable pub admits_within : ℕ → ResearchCall → Bool
admits_within n (ResearchCall.admits m max_active max_model_calls rounds) = leb_ℤ max_active (pos n)
admits_within n (ResearchCall.claims id owner) = true
admits_within n (ResearchCall.prepares f source key) = true
admits_within n (ResearchCall.posts f source key) = true
admits_within n (ResearchCall.completes f c) = true
admits_within n (ResearchCall.fails f kind) = true
admits_within n (ResearchCall.recovers now id proof) = true
admits_within n (ResearchCall.cancels id) = true

module _ (digest : AttemptKey → String) (q : String) (n : ℕ) where
  -- An edit of a task held, which brings no task into progress.
  held-WithinLimit :
      {R : Type 0} (f : DiscoveryFence) (g : DiscoveryTask → TaskEdit R) (s : Ledger) {t : Ledger}
      → ((c e : DiscoveryTask) (r : R) → g c ≡ TaskEdit.write e r → Calm c e)
      → WithinLimit q n s
      → TaskWrite (held_edit f g) f.issue_id s t
      → WithinLimit q n t
  held-WithinLimit {R} f g s calm ok w =
      TaskWrite-WithinLimit {R = R} q n f.issue_id s (held_edit f g)
        (λ c e r x. let (_, y) = held_edit-write {R = R} f g c e r x in calm c e r y) ok w

  commit_research-WithinLimit :
      (c : ResearchCall) (before clock : Clock) (s : Ledger) {t : Ledger}
      → validate digest s ≡ true
      → admits_within n c ≡ true
      → WithinLimit q n s
      → commit_research c before clock s ≡ some t
      → WithinLimit q n t
  unfolding commit_research admits_within admit_discovery claim_discovery
      prepare_discovery_publication mark_discovery_post_attempt complete_discovery fail_discovery
      recover_discovery cancel_discovery
  commit_research-WithinLimit (ResearchCall.admits m a b rounds) before clock s v small ok h =
      admit_step-WithinLimit digest q n a clock s (captured a rounds (task_of before m b)) v small
        ok
        (require-open {R = AdmittedTask} _ _ _ clock s
          (require-open {R = AdmittedTask} _ _ _ clock s h))
  commit_research-WithinLimit (ResearchCall.claims id owner) before clock s v small ok h =
      TaskWrite-WithinLimit {R = DiscoveryFence} q n id s (claim_discovery_edit id owner clock)
        (claim-Calm id owner clock) ok
        (edit_task-TaskWrite {R = DiscoveryFence} id s (claim_discovery_edit id owner clock)
          (require-open {R = DiscoveryFence} _ _ _ clock s h))
  commit_research-WithinLimit (ResearchCall.prepares f source key) before clock s v small ok h =
      held-WithinLimit {R = Unit} f (prepare_edit f source key clock) s
        (prepare-Calm f source key clock) ok
        (edit_owned_task-TaskWrite {R = Unit} digest f s (prepare_edit f source key clock) v
          (require-open {R = Unit} _ _ _ clock s h))
  commit_research-WithinLimit (ResearchCall.posts f source key) before clock s v small ok h =
      held-WithinLimit {R = Bool} f (λ d. mark_post_edit source key clock d d.publication) s
        (λ c e r w. post-Calm source key clock c e c.publication r w) ok
        (edit_owned_task-TaskWrite {R = Bool} digest f s
          (λ d. mark_post_edit source key clock d d.publication) v h)
  commit_research-WithinLimit (ResearchCall.completes f x) before clock s v small ok h =
      held-WithinLimit {R = Unit} f (complete_edit x clock) s (complete-Calm x clock) ok (
        edit_owned_task-TaskWrite {R = Unit} digest f s (complete_edit x clock) v
          (require-open {R = Unit} _ _ _ clock s h))
  commit_research-WithinLimit (ResearchCall.fails f kind) before clock s v small ok h =
      held-WithinLimit {R = Unit} f (fail_discovery_edit kind clock) s (fail-Calm kind clock) ok (
        edit_owned_task-TaskWrite {R = Unit} digest f s (fail_discovery_edit kind clock) v
          (require-open {R = Unit} _ _ _ clock s h))
  commit_research-WithinLimit (ResearchCall.recovers now id proof) before clock s v small ok h =
      TaskWrite-WithinLimit {R = Unit} q n id s (recover_discovery_edit proof clock)
        (recover-Calm proof clock) ok
        (edit_task-TaskWrite {R = Unit} id s (recover_discovery_edit proof clock)
          (require-open {R = Unit} _ _ _ clock s h))
  commit_research-WithinLimit (ResearchCall.cancels id) before clock s v small ok h =
      TaskWrite-WithinLimit {R = Unit} q n id s (cancel_discovery_edit clock) (cancel-Calm clock) ok
        (edit_task-TaskWrite {R = Unit} id s (cancel_discovery_edit clock) h)

  -- A repository never has more than `n` Discovery tasks pending or running: that holds along every
  -- sequence of committed research calls whose admissions ask for at most `n`, from a ledger where
  -- it holds and whose tasks have distinct keys. The first ledger and the ones committed are valid.
  pub research-WithinLimit :
      (admissible : Ledger → Bool) (s t : Ledger)
      → validate digest s ≡ true
      → WithinLimit q n s
      → ResearchRun digest (admits_within n) admissible s t
      → WithinLimit q n t
  research-WithinLimit admissible s _ v ok here = ok
  research-WithinLimit admissible s u v ok (after_others {t} r same w fine) =
      discoveries-WithinLimit q n t u same (research-WithinLimit admissible s t v ok r)
  research-WithinLimit admissible s u v ok (after_research {t} c before clock r small e w fine) =
      commit_research-WithinLimit c before clock t
        (ResearchRun-valid digest (admits_within n) admissible v r) small
        (research-WithinLimit admissible s t v ok r) e
