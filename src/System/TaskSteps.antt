-- ===== src/System/TaskSteps.antt =====
-- Every call of internal/state/discovery.go, on the task of one issue.
use sofa.Base.{
  String, ◌≡◌, refl, ◌∙◌, ap, inl, inr, true, none, some, arith, eq_iff, Option-cases, Bool-cases,
  Bool, ◌==◌, string_eq,
}
use sofa.Base.Int.{ℤ}
use sofa.Base.Map.{get, get-put}
use sofa.State.Records.{DiscoveryTask, Ledger}
use sofa.State.SameTask.{discovery_phase_eq}
use sofa.State.Validate.{AttemptKey, validate}
use sofa.Engine.Outcome.{Clock}
use sofa.Engine.Calls.{written}
use sofa.Discovery.Task.{DiscoveryFence, put_task}
use sofa.Discovery.Work.{
  claim_discovery_edit, claim_discovery, prepare_edit, prepare_discovery_publication,
  mark_post_edit, mark_discovery_post_attempt, complete_edit, complete_discovery,
  fail_discovery_edit, fail_discovery, recover_discovery_edit, recover_discovery,
  cancel_discovery_edit, cancel_discovery,
}
use sofa.Discovery.Terms.{AdmittedTask, task_of}
use sofa.Discovery.Revise.{revised_task}
use sofa.Discovery.Admit.{keep_budget, admit_known, admit_discovery_step, admit_discovery, captured}
use sofa.System.Moves.{require-open}
use sofa.System.Research.{ResearchCall, commit_research, admit_known-cases}
use sofa.System.Tasks.{
  TaskChange, TaskAfter, edit_task-TaskAfter, edit_owned_task-TaskAfter, put-TaskAfter,
}
use sofa.System.Revision.{admit_same-write, admit_first-write, admit_revision-written}

pub keep_budget-issue :
    (previous task : DiscoveryTask) → (keep_budget previous task).issue_id ≡ task.issue_id
unfolding keep_budget
keep_budget-issue previous task = ground arith

discoveries-TaskAfter :
    (id : String) (d : DiscoveryTask) (t u : Ledger)
    → u.discoveries ≡ t.discoveries
    → TaskAfter id d t
    → TaskAfter id d u
discoveries-TaskAfter id d t u same (e, at, how) = (e, rw same at, how)

first-TaskAfter :
    (key id : String) (s : Ledger) (d e : DiscoveryTask)
    → get key s.discoveries ≡ none
    → get id s.discoveries ≡ some d
    → TaskAfter id d (put_task key e s)
first-TaskAfter key id s d e free found = elim (Bool-cases (key == id)) [
  | inr other ↦ (d, get-put key id e s.discoveries ∙ rw other found, inl refl)
  | inl same ↦ absurd (cc (free, found, (eq_iff key id).0 same))
]

admit_known-TaskAfter :
    (max_active : ℤ) (clock : Clock) (s : Ledger) (previous task d : DiscoveryTask) (id : String)
    {t : Ledger}
    → get task.issue_id s.discoveries ≡ some previous
    → get id s.discoveries ≡ some d
    → written (admit_known max_active clock s previous task) ≡ some t
    → TaskAfter id d t
admit_known-TaskAfter max_active clock s previous task d id {t} at found h =
    elim (admit_known-cases max_active clock s previous task h) [
      | inl same ↦
          let (blocked, w) = admit_same-write max_active clock s previous task same in
          rw w (
            put-TaskAfter task.issue_id id s previous d _ at
              (TaskChange.raised clock task.max_model_calls blocked) found)
      | inr revised ↦
          let kept = keep_budget previous task in
          let (ok, w) = admit_revision-written max_active clock s previous kept revised in
          let next = revised_task clock w.readings w.revision previous kept in
          let at_kept : get kept.issue_id s.discoveries ≡ some previous =
            ap (λ k. get k s.discoveries) (keep_budget-issue previous task) ∙ at in
          discoveries-TaskAfter id d (put_task kept.issue_id next s) t w.discoveries (
            put-TaskAfter kept.issue_id id s previous d next at_kept
              (TaskChange.revised clock w.readings w.revision kept ok w.valid) found)
    ]

admit_discovery-TaskAfter :
    (max_active : ℤ) (clock : Clock) (s : Ledger) (task d : DiscoveryTask) (id : String)
    {t : Ledger}
    → get id s.discoveries ≡ some d
    → written (admit_discovery_step max_active task clock s) ≡ some t
    → TaskAfter id d t
unfolding admit_discovery_step
admit_discovery-TaskAfter max_active clock s task d id {t} found h =
    elim (Option-cases (get task.issue_id s.discoveries)) [
      | inl e ↦
          rw (admit_first-write max_active s task (rw (e, admit_discovery_step) at h))
            (first-TaskAfter task.issue_id id s d task e found)
      | inr (previous, e) ↦
          admit_known-TaskAfter max_active clock s previous task d id e found
            (rw (e, admit_discovery_step) at h)
    ]

-- Whatever a research call commits to a valid ledger, the task of an issue stays, as it was or by
-- one of the changes.
pub commit_research-TaskAfter :
    (digest : AttemptKey → String) (c : ResearchCall) (before clock : Clock) (s : Ledger)
    (id : String) (d : DiscoveryTask) {t : Ledger}
    → validate digest s ≡ true
    → commit_research c before clock s ≡ some t
    → get id s.discoveries ≡ some d
    → TaskAfter id d t
unfolding commit_research admit_discovery claim_discovery prepare_discovery_publication
    mark_discovery_post_attempt complete_discovery fail_discovery recover_discovery cancel_discovery
commit_research-TaskAfter digest (ResearchCall.admits m a b rounds) before clock s id d v h found =
    admit_discovery-TaskAfter a clock s (captured a rounds (task_of before m b)) d id found (
      require-open {R = AdmittedTask} _ _ _ clock s
        (require-open {R = AdmittedTask} _ _ _ clock s h))
commit_research-TaskAfter digest (ResearchCall.claims key owner) before clock s id d v h found =
    edit_task-TaskAfter {R = DiscoveryFence} key id s d (claim_discovery_edit key owner clock)
      (λ c e r w. TaskChange.claimed key owner clock w) found
      (require-open {R = DiscoveryFence} _ _ _ clock s h)
commit_research-TaskAfter digest (ResearchCall.prepares f g key) before clock s id d v h found =
    edit_owned_task-TaskAfter {R = Unit} digest f id s d (prepare_edit f g key clock) v
      (λ c e r mine w. TaskChange.prepared f g key clock mine w) found
      (require-open {R = Unit} _ _ _ clock s h)
commit_research-TaskAfter digest (ResearchCall.posts f g key) before clock s id d v h found =
    edit_owned_task-TaskAfter {R = Bool} digest f id s d
      (λ c. mark_post_edit g key clock c c.publication) v
      (λ c e r mine w. TaskChange.posted f g key clock mine w) found h
commit_research-TaskAfter digest (ResearchCall.completes f c) before clock s id d v h found =
    edit_owned_task-TaskAfter {R = Unit} digest f id s d (complete_edit c clock) v
      (λ x e r mine w. TaskChange.completed f c clock mine w) found
      (require-open {R = Unit} _ _ _ clock s h)
commit_research-TaskAfter digest (ResearchCall.fails f kind) before clock s id d v h found =
    edit_owned_task-TaskAfter {R = Unit} digest f id s d (fail_discovery_edit kind clock) v
      (λ c e r mine w. TaskChange.failed f kind clock mine w) found
      (require-open {R = Unit} _ _ _ clock s h)
commit_research-TaskAfter digest (ResearchCall.recovers now key proof) before clock s id d v h
      found =
    edit_task-TaskAfter {R = Unit} key id s d (recover_discovery_edit proof clock)
      (λ c e r w. TaskChange.recovered proof clock w) found
      (require-open {R = Unit} _ _ _ clock s h)
commit_research-TaskAfter digest (ResearchCall.cancels key) before clock s id d v h found =
    edit_task-TaskAfter {R = Unit} key id s d (cancel_discovery_edit clock)
      (λ c e r w. TaskChange.cancelled clock w) found h
