-- ===== src/System/Full.antt =====
-- maxActive of AdmitDiscovery in one admission.
use sofa.Base.{
  ◌<◌, ◌≤◌, ◌+◌, ℕ, String, Bool, ◌≡◌, refl, sym, ◌∙◌, ap, inl, inr, true, false, none, some, arith,
  Bool-cases, Option-cases, if◌then◌else◌, ◌==◌, option_eq, string_eq, eq_iff, [], ◌∷◌,
}
use mathlib.Core.Path.{subst}
use sofa.Base.Int.{ℤ, pos, leb_ℤ}
use sofa.Base.Map.{Map, get, count_entries, all_entries}
use sofa.State.Records.{DiscoveryTask, Ledger}
use sofa.State.SameTask.{discovery_phase_eq}
use sofa.State.Validate.{AttemptKey, validate, discovery_entry_valid}
use sofa.Engine.Outcome.{Clock}
use sofa.Engine.Calls.{written}
use sofa.Discovery.Task.{put_task}
use sofa.Discovery.Terms.{in_progress, in_progress_elsewhere, is_full}
use sofa.Discovery.Revise.{revised_task}
use sofa.Discovery.Admit.{
  admit_same, admit_first, admit_revision, admit_known, admit_discovery_step, keep_budget,
}
use sofa.System.Research.{admit_known-cases}
use sofa.System.Tasks.{validate-tasks}
use sofa.System.TaskSteps.{keep_budget-issue}
use sofa.System.Revision.{admit_same-write, admit_first-write, admit_revision-written}
use sofa.System.Wip.{
  IsMap, put-IsMap, keyed, elsewhere_but_one, count_entries-put, count_entries-put_new,
}
use sofa.System.Limit.{WithinLimit}

keyed_entries :
    (s : Ledger) (m : Map DiscoveryTask)
    → all_entries (discovery_entry_valid s) m ≡ true
    → keyed m ≡ true
unfolding all_entries discovery_entry_valid keyed
keyed_entries s [] h = refl
keyed_entries s ((k, d) ∷ m) h = ground (arith, keyed_entries s m)

-- The room that the limit leaves.
room :
    (p : DiscoveryTask → Bool) (max_active : ℤ) (n : ℕ) (s : Ledger)
    → is_full p max_active s ≡ false
    → leb_ℤ max_active (pos n) ≡ true
    → count_entries p s.discoveries < n
unfolding is_full
room p max_active n s h below = ground arith

admit_first-room :
    (max_active : ℤ) (s : Ledger) (task : DiscoveryTask) {t : Ledger}
    → written (admit_first max_active s task) ≡ some t
    → is_full (in_progress task.repository) max_active s ≡ false
unfolding admit_first
admit_first-room max_active s task h = ground arith

admit_same-room :
    (max_active : ℤ) (clock : Clock) (s : Ledger) (previous task : DiscoveryTask) {t : Ledger}
    → written (admit_same max_active clock s previous task) ≡ some t
    → is_full (in_progress task.repository) max_active s ≡ false
unfolding admit_same
admit_same-room max_active clock s previous task h = ground arith

admit_revision-room :
    (max_active : ℤ) (clock : Clock) (s : Ledger) (previous task : DiscoveryTask) {t : Ledger}
    → written (admit_revision max_active clock s previous task) ≡ some t
    → is_full (in_progress_elsewhere task.issue_id task.repository) max_active s ≡ false
unfolding admit_revision
admit_revision-room max_active clock s previous task h = ground arith

admit_known-repository :
    (max_active : ℤ) (clock : Clock) (s : Ledger) (previous task : DiscoveryTask) {t : Ledger}
    → written (admit_known max_active clock s previous task) ≡ some t
    → previous.repository ≡ task.repository
unfolding admit_known
admit_known-repository max_active clock s previous task h =
    ground (arith, eq_iff previous.repository task.repository)

keep_budget-repository :
    (previous task : DiscoveryTask) → (keep_budget previous task).repository ≡ task.repository
unfolding keep_budget
keep_budget-repository previous task = ground arith

-- A task of another repository does not count.
other_repository :
    (q : String) (d : DiscoveryTask) → (d.repository == q) ≡ false → in_progress q d ≡ false
unfolding in_progress
other_repository q d h = ground arith

at_most_one : (b : Bool) → (if b then 1 else 0) ≤ 1
at_most_one true = omega arith
at_most_one false = omega arith

no_more : (a b x y n : ℕ) → a + x ≡ b + y → y ≡ 0 → b ≤ n → a ≤ n
no_more a b x y n sum zero below = omega arith

none_new : (a b y n : ℕ) → a ≡ b + y → y ≡ 0 → b ≤ n → a ≤ n
none_new a b y n sum zero below = omega arith

-- A task `e` written over `d` where its repository had room, or of another repository.
put-WithinLimit :
    (q : String) (n : ℕ) (key : String) (s : Ledger) (d e : DiscoveryTask)
    → get key s.discoveries ≡ some d
    → IsMap s.discoveries
    → count_entries (in_progress q) s.discoveries ≤ n
    → (e.repository ≡ q
        → count_entries (in_progress q) s.discoveries < n + (if in_progress q d then 1 else 0))
    → WithinLimit q n (put_task key e s)
unfolding WithinLimit
put-WithinLimit q n key s d e at u below free =
    let counted = count_entries-put (in_progress q) key d e s.discoveries at in
    let one = at_most_one (in_progress q e) in
    (
      put-IsMap key e s.discoveries u,
      elim (Bool-cases (e.repository == q)) [
        | inl same ↦ let less = free ((eq_iff e.repository q).0 same) in omega arith
        | inr other ↦ no_more _ _ _ _ n counted (rw (other_repository q e other) refl) below
      ],
    )

pub discoveries-WithinLimit :
    (q : String) (n : ℕ) (s t : Ledger)
    → t.discoveries ≡ s.discoveries
    → WithinLimit q n s
    → WithinLimit q n t
unfolding WithinLimit
discoveries-WithinLimit q n s t same (u, below) = rw same (u, below)

admit_first-WithinLimit :
    (q : String) (n : ℕ) (max_active : ℤ) (s : Ledger) (task : DiscoveryTask) {t : Ledger}
    → leb_ℤ max_active (pos n) ≡ true
    → WithinLimit q n s
    → get task.issue_id s.discoveries ≡ none
    → written (admit_first max_active s task) ≡ some t
    → WithinLimit q n t
unfolding WithinLimit
admit_first-WithinLimit q n max_active s task small (u, below) free h =
    let w = admit_first-write max_active s task h in
    let less =
      room (in_progress task.repository) max_active n s (admit_first-room max_active s task h)
        small in
    let counted = count_entries-put_new (in_progress q) task.issue_id task s.discoveries free in
    let one = at_most_one (in_progress q task) in
    rw w (
      put-IsMap task.issue_id task s.discoveries u,
      elim (Bool-cases (task.repository == q)) [
        | inl same ↦
            let e = (eq_iff task.repository q).0 same in
            let less_q : count_entries (in_progress q) s.discoveries < n = rw e at less in
            omega arith
        | inr other ↦ none_new _ _ _ n counted (rw (other_repository q task other) refl) below
      ],
    )

admit_same-WithinLimit :
    (q : String) (n : ℕ) (max_active : ℤ) (clock : Clock) (s : Ledger)
    (previous task : DiscoveryTask) {t : Ledger}
    → leb_ℤ max_active (pos n) ≡ true
    → WithinLimit q n s
    → get task.issue_id s.discoveries ≡ some previous
    → previous.repository ≡ task.repository
    → written (admit_same max_active clock s previous task) ≡ some t
    → WithinLimit q n t
unfolding WithinLimit
admit_same-WithinLimit q n max_active clock s previous task small (u, below) found repo h =
    let (_, w) = admit_same-write max_active clock s previous task h in
    let less =
      room (in_progress task.repository) max_active n s
        (admit_same-room max_active clock s previous task h) small in
    subst (WithinLimit q n) (sym w) (
      put-WithinLimit q n task.issue_id s previous _ found u below (λ e.
        let less_q : count_entries (in_progress q) s.discoveries < n = rw (sym repo ∙ e) at less in
        omega arith))

admit_revision-WithinLimit :
    (q : String) (n : ℕ) (max_active : ℤ) (clock : Clock) (s : Ledger)
    (previous task : DiscoveryTask) {t : Ledger}
    → keyed s.discoveries ≡ true
    → leb_ℤ max_active (pos n) ≡ true
    → WithinLimit q n s
    → get task.issue_id s.discoveries ≡ some previous
    → written (admit_revision max_active clock s previous task) ≡ some t
    → WithinLimit q n t
unfolding WithinLimit revised_task
admit_revision-WithinLimit q n max_active clock s previous task {t} k small (u, below) found h =
    let (_, w) = admit_revision-written max_active clock s previous task h in
    let less =
      room (in_progress_elsewhere task.issue_id task.repository) max_active n s
        (admit_revision-room max_active clock s previous task h) small in
    let split = elsewhere_but_one task.issue_id q previous s.discoveries k u found in
    let next = revised_task clock w.readings w.revision previous task in
    discoveries-WithinLimit q n (put_task task.issue_id next s) t w.discoveries (
      put-WithinLimit q n task.issue_id s previous next found u below (λ e.
        let same : task.repository ≡ q = e in
        let less_q : count_entries (in_progress_elsewhere task.issue_id q) s.discoveries < n =
          rw same at less in
        omega arith))

-- An admission, of a budget for `n` tasks at most, keeps within the limit.
pub admit_step-WithinLimit :
    (digest : AttemptKey → String) (q : String) (n : ℕ) (max_active : ℤ) (clock : Clock)
    (s : Ledger) (task : DiscoveryTask) {t : Ledger}
    → validate digest s ≡ true
    → leb_ℤ max_active (pos n) ≡ true
    → WithinLimit q n s
    → written (admit_discovery_step max_active task clock s) ≡ some t
    → WithinLimit q n t
unfolding admit_discovery_step
admit_step-WithinLimit digest q n max_active clock s task v small ok h =
    elim (Option-cases (get task.issue_id s.discoveries)) [
      | inl e ↦
          admit_first-WithinLimit q n max_active s task small ok e
            (rw (e, admit_discovery_step) at h)
      | inr (previous, e) ↦
          let known = rw (e, admit_discovery_step) at h in
          elim (admit_known-cases max_active clock s previous task known) [
            | inl same ↦
                admit_same-WithinLimit q n max_active clock s previous task small ok e
                  (admit_known-repository max_active clock s previous task known) same
            | inr revised ↦
                admit_revision-WithinLimit q n max_active clock s previous
                  (keep_budget previous task)
                  (keyed_entries s s.discoveries (validate-tasks digest s v)) small ok
                  (ap (λ k. get k s.discoveries) (keep_budget-issue previous task) ∙ e) revised
          ]
    ]
