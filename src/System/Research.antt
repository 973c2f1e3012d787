-- ===== src/System/Research.antt =====
-- The calls of internal/state/discovery.go on one ledger.
use sofa.Base.{
  leb, length, List, ℕ, ◌+◌, String, ◌≡◌, refl, sym, ◌∙◌, ◌⊎◌, inl, inr, true, Option, none, some,
  [], ◌∷◌, arith, Option-cases, Bool-cases, some_inj, Bool, ◌==◌, string_eq, ap,
}
use mathlib.Core.Path.{subst}
use sofa.Base.Int.{ℤ}
use sofa.Base.Map.{Map, get}
use sofa.State.Clock.{Time, is_zero}
use sofa.State.Records.{Owner, Attempt, SpecRecord, DiscoveryTask, Ledger}
use sofa.State.Validate.{history_of}
use sofa.Engine.Outcome.{Clock, apply}
use sofa.Engine.Recovery.{RunProof}
use sofa.Engine.Calls.{written}
use sofa.System.Change.{SystemChange}
use sofa.Discovery.Task.{
  DiscoveryFence, TaskEdit, commit_task, edit_task, edit_owned_task, task_held,
}
use sofa.Discovery.Work.{
  SpecComment, claim_discovery_edit, claim_discovery, prepare_edit, prepare_discovery_publication,
  mark_post_edit, mark_discovery_post_attempt, complete_edit, complete_discovery,
  fail_discovery_edit, fail_discovery, recover_discovery_edit, recover_discovery,
  cancel_discovery_edit, cancel_discovery,
}
use sofa.Discovery.Terms.{
  DiscoveryAdmission, AdmittedTask, task_of, delivers, is_completed, may_supersede,
}
use sofa.Discovery.Revise.{
  superseded_by, supersede_all, keep_entry, Revised, after_completed, without_proposal,
  reset_ledger, has_revision, admit_task, admit_history, admit_supersede, repeats_source,
  approved_of,
}
use sofa.Discovery.Admit.{
  admit_same, keep_budget, admit_revision, admit_first, admit_known, admit_discovery_step,
  admit_discovery, captured,
}
use sofa.System.Moves.{Moves, same-Moves, require-open}

pub data ResearchCall : Type 0 where
  admits : DiscoveryAdmission → ℤ → ℤ → List (Clock × Ledger) → ResearchCall
  claims : String → Owner → ResearchCall
  prepares posts : DiscoveryFence → String → String → ResearchCall
  completes : DiscoveryFence → SpecComment → ResearchCall
  fails : DiscoveryFence → String → ResearchCall
  recovers : Time → String → RunProof → ResearchCall
  cancels : String → ResearchCall

-- The ledger that a call would commit. An admission carries the rounds before, whose swap lost.
unfoldable pub commit_research : ResearchCall → Clock → Clock → Ledger → Option Ledger
commit_research (ResearchCall.admits m max_active max_model_calls rounds) before clock s =
    written (apply (admit_discovery before m max_active max_model_calls rounds) clock s)
commit_research (ResearchCall.claims id owner) before clock s =
    written (apply (claim_discovery id owner) clock s)
commit_research (ResearchCall.prepares f digest key) before clock s =
    written (apply (prepare_discovery_publication f digest key) clock s)
commit_research (ResearchCall.posts f digest key) before clock s =
    written (apply (mark_discovery_post_attempt f digest key) clock s)
commit_research (ResearchCall.completes f c) before clock s =
    written (apply (complete_discovery f c) clock s)
commit_research (ResearchCall.fails f kind) before clock s =
    written (apply (fail_discovery f kind) clock s)
commit_research (ResearchCall.recovers now id proof) before clock s =
    written (apply (recover_discovery now id proof) clock s)
commit_research (ResearchCall.cancels id) before clock s =
    written (apply (cancel_discovery id) clock s)

-- The edit of one task leaves the attempts alone.
commit_task-attempts :
    {R : Type 0} (id : String) (s : Ledger) (e : TaskEdit R) {t : Ledger}
    → written (commit_task id s e) ≡ some t
    → t.attempts ≡ s.attempts
commit_task-attempts id s (TaskEdit.keep r) h = absurd (cc h)
commit_task-attempts id s (TaskEdit.write d r) h =
    ap (λ (x : Ledger). x.attempts) (sym (some_inj h))
commit_task-attempts id s (TaskEdit.reject e) h = absurd (cc h)

edit_task-attempts :
    {R : Type 0} (id : String) (f : DiscoveryTask → TaskEdit R) (s : Ledger) {t : Ledger}
    → written (edit_task id f s) ≡ some t
    → t.attempts ≡ s.attempts
unfolding edit_task
edit_task-attempts {R} id f s h = elim (Option-cases (get id s.discoveries)) [
  | inl e ↦ absurd (cc (rw (e, edit_task) at h))
  | inr (d, e) ↦ commit_task-attempts {R = R} id s (f d) (rw (e, edit_task) at h)
]

edit_owned_task-attempts :
    {R : Type 0} (f : DiscoveryFence) (g : DiscoveryTask → TaskEdit R) (s : Ledger) {t : Ledger}
    → written (edit_owned_task f g s) ≡ some t
    → t.attempts ≡ s.attempts
unfolding edit_owned_task
edit_owned_task-attempts {R} f g s h = elim (Option-cases (get f.issue_id s.discoveries)) [
  | inl e ↦ absurd (cc (rw (e, edit_owned_task) at h))
  | inr (d, e) ↦ elim (Bool-cases (task_held f d)) [
    | inl mine ↦
        commit_task-attempts {R = R} d.issue_id s (g d) (rw mine at (rw (e, edit_owned_task) at h))
    | inr lost ↦ absurd (cc (rw lost at (rw (e, edit_owned_task) at h)))
  ]
]

delivers-live :
    (task : DiscoveryTask) (a : Attempt) → delivers task a ≡ true → is_zero a.superseded_at ≡ true
unfolding delivers
delivers-live task a h = ground arith

-- Each entry of a map, as it was or superseded.
abbrev EntryMoves : Map Attempt → Map Attempt → Type 0
EntryMoves m n =
    (id : String) (a : Attempt)
    → get id m ≡ some a
    → (b : Attempt) × (get id n ≡ some b) × ((b ≡ a) ⊎ SystemChange a b)

entry-EntryMoves :
    (key : String) (a b : Attempt) (m n : Map Attempt)
    → (b ≡ a) ⊎ SystemChange a b
    → EntryMoves m n
    → EntryMoves ((key, a) ∷ m) ((key, b) ∷ n)
unfolding get
entry-EntryMoves key a b m n step rest id x found = elim (Bool-cases (key == id)) [
  | inl same ↦
      let ax : a ≡ x = some_inj (rw same at found) in
      rw same (b, refl, subst (λ y. (b ≡ y) ⊎ SystemChange y b) ax step)
  | inr other ↦ rw other (rest id x (rw other at found))
]

kept :
    (id : String) (a : Attempt) (o : Option (Map Attempt × ℕ)) {m : Map Attempt} {k : ℕ}
    → keep_entry id a o ≡ some (m, k)
    → (n : Map Attempt) × (o ≡ some (n, k)) × (m ≡ (id, a) ∷ n)
kept id a none h = absurd (cc h)
kept id a (some (n, j)) h = (n, cc h, cc h)

supersede_all-EntryMoves :
    (concerned allowed : Attempt → Bool) (source : String) (clock : Clock) (n : ℕ) (m : Map Attempt)
    {m' : Map Attempt} {k : ℕ}
    → ((a : Attempt) → concerned a ≡ true → is_zero a.superseded_at ≡ true)
    → supersede_all concerned allowed source clock n m ≡ some (m', k)
    → EntryMoves m m'
unfolding supersede_all get
supersede_all-EntryMoves concerned allowed source clock n [] live h =
    λ id a found. absurd (cc found)
supersede_all-EntryMoves concerned allowed source clock n ((key, x) ∷ m) live h =
    elim (Bool-cases (concerned x)) [
      | inr other ↦
          let skipped = supersede_all concerned allowed source clock n m in
          let (rest, e, w) = kept key x skipped (rw other at h) in
          rw w (
            entry-EntryMoves key x x m rest (inl refl)
              (supersede_all-EntryMoves concerned allowed source clock n m live e))
      | inl mine ↦ elim (Bool-cases (allowed x)) [
        | inr bad ↦ absurd (cc (rw (mine, bad) at h))
        | inl good ↦
            let b = superseded_by (clock n) (clock (n + 1)) source x in
            let done = supersede_all concerned allowed source clock (n + 2) m in
            let (rest, e, w) = kept key b done (rw (mine, good) at h) in
            rw w (
              entry-EntryMoves key x b m rest
                (inr (SystemChange.supersedes (clock n) (clock (n + 1)) source (live x mine)))
                (supersede_all-EntryMoves concerned allowed source clock (n + 2) m live e))
      ]
    ]

-- The histories and the new task leave the attempts alone.
without_proposal-attempts :
    (id : String) (s : Ledger) → (without_proposal id s).attempts ≡ s.attempts
unfolding without_proposal
without_proposal-attempts id s = ground arith

reset_ledger-attempts :
    (previous : DiscoveryTask) (id : String) (r : Option SpecRecord) (s : Ledger)
    → (reset_ledger previous id r s).attempts ≡ s.attempts
unfolding reset_ledger
reset_ledger-attempts previous id r s = elim (Bool-cases (has_revision previous.revision r)) [
  | inl e ↦ rw e (without_proposal-attempts id _)
  | inr e ↦ rw e
]

admit_task-attempts :
    (clock : Clock) (n : ℕ) (previous task : DiscoveryTask) (r : Revised) {t : Ledger}
    → written (admit_task clock n previous task r) ≡ some t
    → t.attempts ≡ r.ledger.attempts
unfolding admit_task
admit_task-attempts clock n previous task r h = ground arith

admit_history-attempts :
    (clock : Clock) (n : ℕ) (previous task : DiscoveryTask) (r : Option SpecRecord) (s : Ledger)
    {t : Ledger}
    → written (admit_history clock n previous task r s) ≡ some t
    → t.attempts ≡ s.attempts
unfolding admit_history after_completed
admit_history-attempts clock n previous task r s h = elim (Bool-cases (is_completed previous r)) [
  | inl done ↦
      admit_task-attempts clock n previous task (after_completed previous task.issue_id s)
        (rw done at h)
  | inr reset ↦
      let source =
        repeats_source task.source_digest (history_of task.issue_id s.discovery_history) in
      elim (Bool-cases source) [
        | inl again ↦ absurd (cc (rw (reset, again) at h))
        | inr new ↦
            let full = leb 20 (length (history_of task.issue_id s.discovery_reset_history)) in
            elim (Bool-cases full) [
              | inl e ↦ absurd (cc (rw (reset, new, e) at h))
              | inr e ↦
                  admit_task-attempts clock n previous task
                    (record {
                      ledger = reset_ledger previous task.issue_id r s;
                      revision = previous.revision;
                    })
                    (rw (reset, new, e) at h)
                  ∙ reset_ledger-attempts previous task.issue_id r s
            ]
      ]
]

admit_supersede-Moves :
    (clock : Clock) (previous task : DiscoveryTask) (r : Option SpecRecord) (s : Ledger)
    {t : Ledger}
    → written (admit_supersede clock previous task r s) ≡ some t
    → Moves s t
unfolding admit_supersede
admit_supersede-Moves clock previous task r s {t} h =
    let loop =
      supersede_all (delivers task)
        (may_supersede (is_completed previous r) previous task (approved_of r)) task.source_digest
        clock 0 s.attempts in
    elim (Option-cases loop) [
      | inl e ↦ absurd (cc (rw (e, admit_supersede) at h))
      | inr (p, e) ↦
          let (m, n) = p in
          let same =
            admit_history-attempts clock n previous task r (record s { attempts = m })
              (rw (e, admit_supersede) at h) in
          let moves =
            supersede_all-EntryMoves (delivers task)
              (may_supersede (is_completed previous r) previous task (approved_of r))
              task.source_digest clock 0 s.attempts (delivers-live task) e in
          λ id a found. let (b, at, how) = moves id a found in (b, rw same at, how)
    ]

-- The other ends of an admission write at most the task.
admit_same-attempts :
    (max_active : ℤ) (clock : Clock) (s : Ledger) (previous task : DiscoveryTask) {t : Ledger}
    → written (admit_same max_active clock s previous task) ≡ some t
    → t.attempts ≡ s.attempts
unfolding admit_same
admit_same-attempts max_active clock s previous task h = ground arith

admit_first-attempts :
    (max_active : ℤ) (s : Ledger) (task : DiscoveryTask) {t : Ledger}
    → written (admit_first max_active s task) ≡ some t
    → t.attempts ≡ s.attempts
unfolding admit_first
admit_first-attempts max_active s task h = ground arith

pub admit_revision-supersede :
    (max_active : ℤ) (clock : Clock) (s : Ledger) (previous task : DiscoveryTask) {t : Ledger}
    → written (admit_revision max_active clock s previous task) ≡ some t
    → written (admit_supersede clock previous task (get task.issue_id s.specs) s) ≡ some t
unfolding admit_revision
admit_revision-supersede max_active clock s previous task h = ground arith

-- The two ends of an admission of a known issue.
pub admit_known-cases :
    (max_active : ℤ) (clock : Clock) (s : Ledger) (previous task : DiscoveryTask) {t : Ledger}
    → written (admit_known max_active clock s previous task) ≡ some t
    → (written (admit_same max_active clock s previous task) ≡ some t)
      ⊎ (written (admit_revision max_active clock s previous (keep_budget previous task)) ≡ some t)
unfolding admit_known
admit_known-cases max_active clock s previous task h = ground arith

admit_discovery-Moves :
    (max_active : ℤ) (clock : Clock) (s : Ledger) (task : DiscoveryTask) {t : Ledger}
    → written (admit_discovery_step max_active task clock s) ≡ some t
    → Moves s t
unfolding admit_discovery_step
admit_discovery-Moves max_active clock s task {t} h =
    elim (Option-cases (get task.issue_id s.discoveries)) [
      | inl e ↦
          same-Moves s t
            (admit_first-attempts max_active s task (rw (e, admit_discovery_step) at h))
      | inr (previous, e) ↦
          elim (admit_known-cases max_active clock s previous task
            (rw (e, admit_discovery_step) at h)) [
              | inl same ↦
                  same-Moves s t (admit_same-attempts max_active clock s previous task same)
              | inr revised ↦
                  let kept_task = keep_budget previous task in
                  admit_supersede-Moves clock previous kept_task (get kept_task.issue_id s.specs) s
                    (admit_revision-supersede max_active clock s previous kept_task revised)
            ]
    ]

-- Whatever a research call commits changes the attempts by superseding some, or not at all.
pub commit_research-Moves :
    (c : ResearchCall) (before clock : Clock) (s : Ledger) {t : Ledger}
    → commit_research c before clock s ≡ some t
    → Moves s t
unfolding commit_research admit_discovery claim_discovery prepare_discovery_publication
    mark_discovery_post_attempt complete_discovery fail_discovery recover_discovery cancel_discovery
commit_research-Moves (ResearchCall.admits m max_active max_model_calls rounds) before clock s h =
    admit_discovery-Moves max_active clock s
      (captured max_active rounds (task_of before m max_model_calls))
      (require-open {R = AdmittedTask} _ _ _ clock s
        (require-open {R = AdmittedTask} _ _ _ clock s h))
commit_research-Moves (ResearchCall.claims id owner) before clock s {t} h = same-Moves s t (
    edit_task-attempts {R = DiscoveryFence} id (claim_discovery_edit id owner clock) s
      (require-open {R = DiscoveryFence} _ _ _ clock s h))
commit_research-Moves (ResearchCall.prepares f digest key) before clock s {t} h = same-Moves s t (
    edit_owned_task-attempts {R = Unit} f (prepare_edit f digest key clock) s
      (require-open {R = Unit} _ _ _ clock s h))
commit_research-Moves (ResearchCall.posts f digest key) before clock s {t} h = same-Moves s t (
    edit_owned_task-attempts {R = Bool} f (λ d. mark_post_edit digest key clock d d.publication) s
      h)
commit_research-Moves (ResearchCall.completes f c) before clock s {t} h = same-Moves s t (
    edit_owned_task-attempts {R = Unit} f (complete_edit c clock) s
      (require-open {R = Unit} _ _ _ clock s h))
commit_research-Moves (ResearchCall.fails f kind) before clock s {t} h = same-Moves s t (
    edit_owned_task-attempts {R = Unit} f (fail_discovery_edit kind clock) s
      (require-open {R = Unit} _ _ _ clock s h))
commit_research-Moves (ResearchCall.recovers now id proof) before clock s {t} h = same-Moves s t (
    edit_task-attempts {R = Unit} id (recover_discovery_edit proof clock) s
      (require-open {R = Unit} _ _ _ clock s h))
commit_research-Moves (ResearchCall.cancels id) before clock s {t} h =
    same-Moves s t (edit_task-attempts {R = Unit} id (cancel_discovery_edit clock) s h)
