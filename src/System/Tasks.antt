-- ===== src/System/Tasks.antt =====
-- What the calls of internal/state/discovery.go do to the task of one issue.
use sofa.Base.{
  if◌then◌else◌, ℕ, String, ◌≡◌, refl, sym, ◌∙◌, ap, ◌⊎◌, inl, inr, true, some, arith, eq_iff,
  Option-cases, Bool-cases, some_inj, Bool, ◌==◌, string_eq,
}
use mathlib.Core.Path.{subst}
use sofa.Base.Int.{ℤ}
use sofa.Base.Map.{get, get-put, all_entries, all_entries-get}
use sofa.State.Records.{DiscoveryPhase, Owner, DiscoveryTask, Ledger}
use sofa.State.SameTask.{discovery_phase_eq}
use sofa.State.Valid.{discovery_valid}
use sofa.State.Validate.{AttemptKey, validate, discovery_entry_valid}
use sofa.Engine.Outcome.{Error, Clock}
use sofa.Engine.Recovery.{RunProof}
use sofa.Engine.Calls.{written}
use sofa.Discovery.Task.{
  DiscoveryFence, TaskEdit, commit_task, edit_task, edit_owned_task, task_held, put_task,
}
use sofa.Discovery.Work.{
  SpecComment, claim_discovery_edit, prepare_edit, mark_post_edit, complete_edit,
  fail_discovery_edit, recover_discovery_edit, cancel_discovery_edit,
}
use sofa.Discovery.Revise.{revised_task}
use sofa.Discovery.Admit.{may_revise}

-- What a call may do to a task.
pub data TaskChange (d : DiscoveryTask) : DiscoveryTask → Type 0 where
  claimed :
      (id : String) (owner : Owner) (clock : Clock) {e : DiscoveryTask} {f : DiscoveryFence}
      → claim_discovery_edit id owner clock d ≡ TaskEdit.write e f
      → TaskChange d e
  prepared :
      (f : DiscoveryFence) (digest key : String) (clock : Clock) {e : DiscoveryTask}
      → task_held f d ≡ true
      → prepare_edit f digest key clock d ≡ TaskEdit.write e tt
      → TaskChange d e
  posted :
      (f : DiscoveryFence) (digest key : String) (clock : Clock) {e : DiscoveryTask} {r : Bool}
      → task_held f d ≡ true
      → mark_post_edit digest key clock d d.publication ≡ TaskEdit.write e r
      → TaskChange d e
  completed :
      (f : DiscoveryFence) (c : SpecComment) (clock : Clock) {e : DiscoveryTask}
      → task_held f d ≡ true
      → complete_edit c clock d ≡ TaskEdit.write e tt
      → TaskChange d e
  failed :
      (f : DiscoveryFence) (kind : String) (clock : Clock) {e : DiscoveryTask}
      → task_held f d ≡ true
      → fail_discovery_edit kind clock d ≡ TaskEdit.write e tt
      → TaskChange d e
  recovered :
      (proof : RunProof) (clock : Clock) {e : DiscoveryTask}
      → recover_discovery_edit proof clock d ≡ TaskEdit.write e tt
      → TaskChange d e
  cancelled :
      (clock : Clock) {e : DiscoveryTask}
      → cancel_discovery_edit clock d ≡ TaskEdit.write e tt
      → TaskChange d e
  -- A larger budget for a task that has spent its own.
  raised :
      (clock : Clock) (max_model_calls : ℤ)
      → d.phase ≡ DiscoveryPhase.blocked
      → TaskChange d (record d {
        max_model_calls = max_model_calls;
        phase = DiscoveryPhase.pending;
        failure = "";
        updated_at = clock 0;
      })
  -- The next revision, which the owner has admitted.
  revised :
      (clock : Clock) (n : ℕ) (revision : ℤ) (task : DiscoveryTask)
      → may_revise d task ≡ true
      → discovery_valid (revised_task clock n revision d task) ≡ true
      → TaskChange d (revised_task clock n revision d task)

-- One task after a call: as it was, or changed.
abbrev pub TaskAfter : String → DiscoveryTask → Ledger → Type 0
TaskAfter id d t =
    (e : DiscoveryTask) × (get id t.discoveries ≡ some e) × ((e ≡ d) ⊎ TaskChange d e)

pub put-TaskAfter :
    (key id : String) (s : Ledger) (c d e : DiscoveryTask)
    → get key s.discoveries ≡ some c
    → TaskChange c e
    → get id s.discoveries ≡ some d
    → TaskAfter id d (put_task key e s)
put-TaskAfter key id s c d e at change found = elim (Bool-cases (key == id)) [
  | inr other ↦ (d, get-put key id e s.discoveries ∙ rw other found, inl refl)
  | inl same ↦
      let k : key ≡ id = (eq_iff key id).0 same in
      let cd : c ≡ d = some_inj (sym at ∙ ap (λ y. get y s.discoveries) k ∙ found) in
      (
        e,
        get-put key id e s.discoveries ∙ rw same refl,
        inr (subst (λ y. TaskChange y e) cd change),
      )
]

-- An edit wrote the task under a key.
abbrev pub TaskWrite :
    {R : Type 0} → (DiscoveryTask → TaskEdit R) → String → Ledger → Ledger → Type 0
TaskWrite {R} f key s t =
    (c : DiscoveryTask) × (e : DiscoveryTask) × (r : R) × (get key s.discoveries ≡ some c)
    × (f c ≡ TaskEdit.write e r)
    × (t ≡ put_task key e s)

commit_task-TaskWrite :
    {R : Type 0} (key : String) (s : Ledger) (c : DiscoveryTask) (f : DiscoveryTask → TaskEdit R)
    (x : TaskEdit R) {t : Ledger}
    → get key s.discoveries ≡ some c
    → f c ≡ x
    → written (commit_task key s x) ≡ some t
    → TaskWrite f key s t
commit_task-TaskWrite key s c f (TaskEdit.keep r) at same h = absurd (cc h)
commit_task-TaskWrite key s c f (TaskEdit.write e r) at same h =
    (c, e, r, at, same, sym (some_inj h))
commit_task-TaskWrite key s c f (TaskEdit.reject e) at same h = absurd (cc h)

pub edit_task-TaskWrite :
    {R : Type 0} (key : String) (s : Ledger) (f : DiscoveryTask → TaskEdit R) {t : Ledger}
    → written (edit_task key f s) ≡ some t
    → TaskWrite f key s t
unfolding edit_task
edit_task-TaskWrite {R} key s f h = elim (Option-cases (get key s.discoveries)) [
  | inl e ↦ absurd (cc (rw (e, edit_task) at h))
  | inr (c, e) ↦ commit_task-TaskWrite {R = R} key s c f (f c) e refl (rw (e, edit_task) at h)
]

TaskWrite-TaskAfter :
    {R : Type 0} (key id : String) (s : Ledger) (d : DiscoveryTask) (f : DiscoveryTask → TaskEdit R)
    {t : Ledger}
    → ((c e : DiscoveryTask) (r : R) → f c ≡ TaskEdit.write e r → TaskChange c e)
    → get id s.discoveries ≡ some d
    → TaskWrite f key s t
    → TaskAfter id d t
TaskWrite-TaskAfter key id s d f change found (c, e, r, at, w, same) =
    subst (TaskAfter id d) (sym same) (put-TaskAfter key id s c d e at (change c e r w) found)

pub edit_task-TaskAfter :
    {R : Type 0} (key id : String) (s : Ledger) (d : DiscoveryTask) (f : DiscoveryTask → TaskEdit R)
    {t : Ledger}
    → ((c e : DiscoveryTask) (r : R) → f c ≡ TaskEdit.write e r → TaskChange c e)
    → get id s.discoveries ≡ some d
    → written (edit_task key f s) ≡ some t
    → TaskAfter id d t
edit_task-TaskAfter {R} key id s d f change found h =
    TaskWrite-TaskAfter {R = R} key id s d f change found (edit_task-TaskWrite {R = R} key s f h)

-- In a valid ledger a task stands under its issue's identifier.
pub validate-tasks :
    (digest : AttemptKey → String) (s : Ledger)
    → validate digest s ≡ true
    → all_entries (discovery_entry_valid s) s.discoveries ≡ true
unfolding validate
validate-tasks digest s h = ground arith

entry-issue :
    (s : Ledger) (id : String) (d : DiscoveryTask)
    → discovery_entry_valid s id d ≡ true
    → (id ≡ d.issue_id) × (discovery_valid d ≡ true)
unfolding discovery_entry_valid
entry-issue s id d h = ground (arith, eq_iff id d.issue_id)

pub validate-task :
    (digest : AttemptKey → String) (s : Ledger) (id : String) (d : DiscoveryTask)
    → validate digest s ≡ true
    → get id s.discoveries ≡ some d
    → (id ≡ d.issue_id) × (discovery_valid d ≡ true)
validate-task digest s id d v e =
    entry-issue s id d
      (all_entries-get (discovery_entry_valid s) id d s.discoveries (validate-tasks digest s v) e)

-- The edit of a task held, which rejects any other.
abbrev pub held_edit :
    {R : Type 0} → DiscoveryFence → (DiscoveryTask → TaskEdit R) → DiscoveryTask → TaskEdit R
held_edit f g d = if task_held f d then g d else TaskEdit.reject Error.stale

pub held_edit-write :
    {R : Type 0} (f : DiscoveryFence) (g : DiscoveryTask → TaskEdit R) (c e : DiscoveryTask) (r : R)
    → held_edit f g c ≡ TaskEdit.write e r
    → (task_held f c ≡ true) × (g c ≡ TaskEdit.write e r)
held_edit-write f g c e r h = elim (Bool-cases (task_held f c)) [
  | inl mine ↦ (mine, rw mine at h)
  | inr lost ↦ absurd (cc (rw lost at h))
]

pub edit_owned_task-TaskWrite :
    {R : Type 0} (digest : AttemptKey → String) (f : DiscoveryFence) (s : Ledger)
    (g : DiscoveryTask → TaskEdit R) {t : Ledger}
    → validate digest s ≡ true
    → written (edit_owned_task f g s) ≡ some t
    → TaskWrite (held_edit f g) f.issue_id s t
unfolding edit_owned_task
edit_owned_task-TaskWrite {R} digest f s g {t} v h =
    elim (Option-cases (get f.issue_id s.discoveries)) [
      | inl e ↦ absurd (cc (rw (e, edit_owned_task) at h))
      | inr (c, e) ↦ elim (Bool-cases (task_held f c)) [
        | inr lost ↦ absurd (cc (rw lost at (rw (e, edit_owned_task) at h)))
        | inl mine ↦
            let (own, _) = validate-task digest s f.issue_id c v e in
            commit_task-TaskWrite {R = R} f.issue_id s c (held_edit f g) (g c) e (rw mine refl) (
              subst (λ k. written (commit_task k s (g c)) ≡ some t) (sym own)
                (rw mine at (rw (e, edit_owned_task) at h)))
      ]
    ]

pub edit_owned_task-TaskAfter :
    {R : Type 0} (digest : AttemptKey → String) (f : DiscoveryFence) (id : String) (s : Ledger)
    (d : DiscoveryTask) (g : DiscoveryTask → TaskEdit R) {t : Ledger}
    → validate digest s ≡ true
    → ((c e : DiscoveryTask) (r : R)
        → task_held f c ≡ true
        → g c ≡ TaskEdit.write e r
        → TaskChange c e)
    → get id s.discoveries ≡ some d
    → written (edit_owned_task f g s) ≡ some t
    → TaskAfter id d t
edit_owned_task-TaskAfter {R} digest f id s d g v change found h =
    TaskWrite-TaskAfter {R = R} f.issue_id id s d (held_edit f g)
      (λ c e r w. let (mine, x) = held_edit-write {R = R} f g c e r w in change c e r mine x) found
      (edit_owned_task-TaskWrite {R = R} digest f s g v h)
