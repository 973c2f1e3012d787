-- ===== src/Discovery/Admit.antt =====
-- internal/state/discovery.go: AdmitDiscovery.
-- A round of `update` starts from the captured `task` that the round before it has left, which is
-- the one that the outcome carries.
use sofa.Base.{
  Bool, true, false, not, none, some, List, [], ◌∷◌, ◌&&◌, ◌||◌, ◌==◌, string_eq, nat_eq,
  if◌then◌else◌, is_nil, leb,
}
use sofa.Base.Int.{ℤ, pos, int_eq, ltb_ℤ, leb_ℤ}
use sofa.Base.Map.{get, count_entries}
use sofa.State.Clock.{after}
use sofa.State.Records.{DiscoveryPhase, DiscoveryTask, Ledger}
use sofa.State.SameTask.{discovery_phase_eq}
use sofa.State.Valid.{discovery_valid}
use sofa.Engine.Outcome.{Error, Outcome, Operation, Clock, require}
use sofa.Discovery.Task.{put_task}
use sofa.Discovery.Terms.{
  DiscoveryAdmission, AdmittedTask, task_of, in_progress, in_progress_elsewhere, is_full,
  is_waiting, is_completed, record_allows, delivers,
}
use sofa.Discovery.Revise.{admit_supersede}

-- An admission with the status and source of the task that the ledger has: a replay, or a larger
-- budget for a task that has spent its own.
unfoldable pub admit_same :
    ℤ → Clock → Ledger → DiscoveryTask → DiscoveryTask → Outcome AdmittedTask
unfolding is_waiting
admit_same max_active clock s previous task =
    let raised = record previous {
      max_model_calls = task.max_model_calls;
      phase = DiscoveryPhase.pending;
      failure = "";
      updated_at = clock 0;
    } in
    if (previous.max_model_calls == task.max_model_calls) || is_waiting previous
    then Outcome.unchanged (record { task = previous; created = false })
    else if leb_ℤ task.max_model_calls previous.max_model_calls
        || not (previous.phase == DiscoveryPhase.blocked)
        || not (previous.failure == "budget")
    then Outcome.failed Error.admission_changed
    else if is_full (in_progress task.repository) max_active s
    then Outcome.failed Error.limit
    else Outcome.changed (put_task task.issue_id raised s)
        (record { task = raised; created = false })

-- A reserved task without worker keeps its budget through a smaller configuration.
unfoldable pub keep_budget : DiscoveryTask → DiscoveryTask → DiscoveryTask
unfolding is_waiting
keep_budget previous task =
    if is_waiting previous && ltb_ℤ task.max_model_calls previous.max_model_calls
    then record task { max_model_calls = previous.max_model_calls }
    else task

-- The task may be replaced by a later revision.
unfoldable pub may_revise : DiscoveryTask → DiscoveryTask → Bool
unfolding is_waiting
may_revise previous task =
    ((previous.phase == DiscoveryPhase.review)
      || (previous.phase == DiscoveryPhase.blocked)
      || is_waiting previous)
    && after task.status_updated_at previous.status_updated_at
    && leb_ℤ previous.max_model_calls task.max_model_calls
    && is_nil previous.publication

-- An admission with another status or source than the task that the ledger has.
unfoldable pub admit_revision :
    ℤ → Clock → Ledger → DiscoveryTask → DiscoveryTask → Outcome AdmittedTask
unfolding may_revise admit_supersede record_allows is_completed is_full in_progress_elsewhere
admit_revision max_active clock s previous task =
    let r = get task.issue_id s.specs in
    if not (may_revise previous task)
    then Outcome.failed Error.admission_changed
    else if not (is_completed previous r) && leb_ℤ task.max_model_calls previous.model_calls
    then Outcome.failed Error.limit
    else if not (record_allows previous task r)
    then Outcome.failed Error.admission_changed
    else if is_full (in_progress_elsewhere task.issue_id task.repository) max_active s
    then Outcome.failed Error.limit
    else admit_supersede clock previous task r s

-- The first task of an issue: no attempt without Discovery may be alive.
unfoldable pub admit_first : ℤ → Ledger → DiscoveryTask → Outcome AdmittedTask
unfolding is_full in_progress delivers
admit_first max_active s task =
    if is_full (in_progress task.repository) max_active s
    then Outcome.failed Error.limit
    else if leb 1 (count_entries (delivers task) s.attempts)
    then Outcome.failed Error.admission_changed
    else Outcome.changed (put_task task.issue_id task s) (record { task = task; created = true })

-- An admission of an issue that the ledger knows.
unfoldable pub admit_known :
    ℤ → Clock → Ledger → DiscoveryTask → DiscoveryTask → Outcome AdmittedTask
unfolding admit_same admit_revision keep_budget
admit_known max_active clock s previous task =
    if not (previous.repository == task.repository)
      || not (previous.issue == task.issue)
      || not (previous.project_id == task.project_id)
      || not (previous.project_item_id == task.project_item_id)
    then Outcome.failed Error.admission_changed
    else if (previous.status_option_id == task.status_option_id)
        && (previous.status_updated_at == task.status_updated_at)
        && previous.source_digest == task.source_digest
    then admit_same max_active clock s previous task
    else admit_revision max_active clock s previous (keep_budget previous task)

-- The closure of `AdmitDiscovery`, in a round that starts from `task`.
unfoldable pub admit_discovery_step : ℤ → DiscoveryTask → Clock → Ledger → Outcome AdmittedTask
admit_discovery_step max_active task clock s = elim (get task.issue_id s.discoveries) [
  | none ↦ admit_first max_active s task
  | some previous ↦ admit_known max_active clock s previous task
]

-- The captured `task` after rounds whose closure changed the ledger and whose swap lost, with the
-- readings of the clock and the ledger of each. A round that changes nothing or fails is the last.
unfoldable pub captured : ℤ → List (Clock × Ledger) → DiscoveryTask → DiscoveryTask
unfolding admit_discovery_step
captured max_active [] task = task
captured max_active ((clock, s) ∷ rounds) task =
    elim (admit_discovery_step max_active task clock s) [
      | Outcome.unchanged r ↦ task
      | Outcome.changed t r ↦ captured max_active rounds r.task
      | Outcome.failed e ↦ task
    ]

-- `AdmitDiscovery`, in the round after the given ones; `before` are the readings of the clock in
-- front of the closure.
unfoldable pub admit_discovery :
    Clock → DiscoveryAdmission → ℤ → ℤ → List (Clock × Ledger) → Operation AdmittedTask
unfolding task_of
admit_discovery before m max_active max_model_calls rounds =
    require
      (leb_ℤ (pos 1) max_active
        && leb_ℤ max_active (pos 20)
        && leb_ℤ (pos 1) max_model_calls
        && leb_ℤ max_model_calls (pos 20))
      Error.invalid
      (require (discovery_valid (task_of before m max_model_calls)) Error.invalid (
        Operation.attempt (
          admit_discovery_step max_active
            (captured max_active rounds (task_of before m max_model_calls)))))
