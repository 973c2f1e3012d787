-- ===== src/Discovery/Revise.antt =====
-- internal/state/discovery.go: how AdmitDiscovery replaces a task by its next revision.
use sofa.Base.{
  ℕ, ◌+◌, String, Bool, true, false, not, Option, none, some, List, [], ◌∷◌, ◌++◌, ◌==◌, string_eq,
  nat_eq, if◌then◌else◌, length, last, drop_last, leb,
}
use sofa.Base.Int.{ℤ, int_eq, leb_ℤ, next_int64}
use sofa.Base.Map.{Map, put, delete_key}
use sofa.State.Clock.{Time}
use sofa.State.Records.{Phase, DiscoveryPhase, Attempt, SpecRecord, DiscoveryTask, Ledger}
use sofa.State.SameTask.{discovery_phase_eq}
use sofa.State.Valid.{discovery_valid}
use sofa.State.Validate.{history_of}
use sofa.Engine.Outcome.{Error, Outcome, Clock}
use sofa.Discovery.Task.{put_task}
use sofa.Discovery.Terms.{AdmittedTask, is_completed, delivers, may_supersede}

-- A superseded attempt; the clock is read twice.
unfoldable pub superseded_by : Time → Time → String → Attempt → Attempt
superseded_by at updated source a = record a {
  owner = none;
  generation = next_int64 a.generation;
  phase = Phase.blocked;
  failure = "human-change";
  superseded_at = at;
  superseded_source_digest = source;
  updated_at = updated;
}

abbrev pub keep_entry : String → Attempt → Option (Map Attempt × ℕ) → Option (Map Attempt × ℕ)
keep_entry id a none = none
keep_entry id a (some (m, n)) = some ((id, a) ∷ m, n)

-- The loop that supersedes attempts: the map, and how often the clock was read. `none` is
-- ErrAdmissionChanged. An entry is replaced where it stands, as under its own key.
unfoldable pub supersede_all :
    (Attempt → Bool)
    → (Attempt → Bool)
    → String
    → Clock
    → ℕ
    → Map Attempt
    → Option (Map Attempt × ℕ)
unfolding superseded_by
supersede_all concerned allowed source clock n [] = some ([], n)
supersede_all concerned allowed source clock n ((id, a) ∷ m) =
    let skipped = supersede_all concerned allowed source clock n m in
    let done = supersede_all concerned allowed source clock (n + 2) m in
    let b = superseded_by (clock n) (clock (n + 1)) source a in
    if not (concerned a)
    then keep_entry id a skipped
    else if not (allowed a)
    then none
    else keep_entry id b done

-- What the histories of the ledger become, and the revision of the new task.
pub record Revised : Type 0 where
  pub ledger : Ledger
  pub revision : ℤ

-- A completed task joins the history, and the next revision begins.
unfoldable pub after_completed : DiscoveryTask → String → Ledger → Revised
after_completed previous id s = record {
  ledger = record s {
    discovery_history =
        put id (history_of id s.discovery_history ++ previous ∷ []) s.discovery_history;
  };
  revision = next_int64 previous.revision;
}

-- The record of the issue without the proposal of this revision: the last approved one, if any.
unfoldable pub without_proposal : String → Ledger → Ledger
without_proposal id s = elim (last (history_of id s.spec_history)) [
  | none ↦ record s { specs = delete_key id s.specs }
  | some r ↦ record s {
    specs = put id r s.specs;
    spec_history = put id (drop_last (history_of id s.spec_history)) s.spec_history;
  }
]

-- The record of the issue is of this revision.
unfoldable pub has_revision : ℤ → Option SpecRecord → Bool
has_revision revision none = false
has_revision revision (some r) = r.revision == revision

-- The source is that of the last approved revision.
unfoldable pub repeats_source : String → List DiscoveryTask → Bool
repeats_source source history = elim (last history) [
  | none ↦ false
  | some d ↦ d.source_digest == source
]

-- An unfinished task is reset: it joins the reset history, of 20 at most, and its proposal goes.
unfoldable pub reset_ledger : DiscoveryTask → String → Option SpecRecord → Ledger → Ledger
unfolding has_revision without_proposal
reset_ledger previous id r s =
    let t = record s {
      discovery_reset_history =
          put id (history_of id s.discovery_reset_history ++ previous ∷ [])
            s.discovery_reset_history;
    } in
    if has_revision previous.revision r then without_proposal id t else t

-- The task of the new revision, which keeps the usage of the one before.
unfoldable pub revised_task : Clock → ℕ → ℤ → DiscoveryTask → DiscoveryTask → DiscoveryTask
revised_task clock n revision previous task =
    let spent = leb_ℤ task.max_model_calls previous.model_calls in
    record task {
      revision = revision;
      generation = next_int64 previous.generation;
      model_calls = previous.model_calls;
      created_at = clock n;
      updated_at = clock (n + 1);
      phase = if spent then DiscoveryPhase.blocked else task.phase;
      failure = if spent then "budget" else task.failure;
    }

-- The end of a revision: the new task is written if it is valid.
unfoldable pub admit_task :
    Clock → ℕ → DiscoveryTask → DiscoveryTask → Revised → Outcome AdmittedTask
unfolding revised_task
admit_task clock n previous task r =
    let next = revised_task clock n r.revision previous task in
    if not (discovery_valid next)
    then Outcome.failed Error.invalid
    else Outcome.changed (put_task task.issue_id next r.ledger)
        (record { task = next; created = true })

-- The histories, once the attempts are superseded.
unfoldable pub admit_history :
    Clock → ℕ → DiscoveryTask → DiscoveryTask → Option SpecRecord → Ledger → Outcome AdmittedTask
unfolding admit_task after_completed reset_ledger repeats_source is_completed
admit_history clock n previous task r s =
    if is_completed previous r
    then admit_task clock n previous task (after_completed previous task.issue_id s)
    else if repeats_source task.source_digest (history_of task.issue_id s.discovery_history)
    then Outcome.failed Error.admission_changed
    else if leb 20 (length (history_of task.issue_id s.discovery_reset_history))
    then Outcome.failed Error.limit
    else admit_task clock n previous task
        (record { ledger = reset_ledger previous task.issue_id r s; revision = previous.revision })

abbrev pub approved_of : Option SpecRecord → String
approved_of none = ""
approved_of (some r) = r.approved_digest

-- The attempts are superseded, and then the histories are written.
unfoldable pub admit_supersede :
    Clock → DiscoveryTask → DiscoveryTask → Option SpecRecord → Ledger → Outcome AdmittedTask
unfolding admit_history supersede_all delivers may_supersede is_completed
admit_supersede clock previous task r s =
    elim (supersede_all (delivers task)
      (may_supersede (is_completed previous r) previous task (approved_of r)) task.source_digest
      clock 0 s.attempts) [
        | none ↦ Outcome.failed Error.admission_changed
        | some (m, n) ↦ admit_history clock n previous task r (record s { attempts = m })
      ]
