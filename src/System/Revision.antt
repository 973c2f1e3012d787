-- ===== src/System/Revision.antt =====
-- What AdmitDiscovery writes of the tasks of a ledger.
use sofa.Base.{
  leb, length, ℕ, String, ◌≡◌, refl, ◌∙◌, ap, inl, inr, true, Option, some, arith, Option-cases,
  Bool-cases, string_eq,
}
use sofa.Base.Int.{ℤ}
use sofa.Base.Map.{get, put}
use sofa.State.Records.{DiscoveryPhase, SpecRecord, DiscoveryTask, Ledger}
use sofa.State.SameTask.{discovery_phase_eq}
use sofa.State.Valid.{discovery_valid}
use sofa.State.Validate.{history_of}
use sofa.Engine.Outcome.{Clock}
use sofa.Engine.Calls.{written}
use sofa.Discovery.Task.{put_task}
use sofa.Discovery.Terms.{delivers, is_completed, may_supersede}
use sofa.Discovery.Revise.{
  supersede_all, Revised, after_completed, without_proposal, reset_ledger, has_revision,
  revised_task, admit_task, admit_history, admit_supersede, repeats_source, approved_of,
}
use sofa.Discovery.Admit.{admit_same, may_revise, admit_revision, admit_first}
use sofa.System.Research.{admit_revision-supersede}

pub admit_same-write :
    (max_active : ℤ) (clock : Clock) (s : Ledger) (previous task : DiscoveryTask) {t : Ledger}
    → written (admit_same max_active clock s previous task) ≡ some t
    → (previous.phase ≡ DiscoveryPhase.blocked)
      × (t
          ≡ put_task task.issue_id
              (record previous {
                max_model_calls = task.max_model_calls;
                phase = DiscoveryPhase.pending;
                failure = "";
                updated_at = clock 0;
              })
              s)
unfolding admit_same
admit_same-write max_active clock s previous task h =
    ground (arith, discovery_phase_eq.test_iff previous.phase DiscoveryPhase.blocked)

pub admit_first-write :
    (max_active : ℤ) (s : Ledger) (task : DiscoveryTask) {t : Ledger}
    → written (admit_first max_active s task) ≡ some t
    → t ≡ put_task task.issue_id task s
unfolding admit_first
admit_first-write max_active s task h = ground arith

-- The end of a revision: the ledger that it writes has the tasks of `r.ledger` and the new one.
admit_task-write :
    (clock : Clock) (n : ℕ) (previous task : DiscoveryTask) (r : Revised) {t : Ledger}
    → written (admit_task clock n previous task r) ≡ some t
    → (discovery_valid (revised_task clock n r.revision previous task) ≡ true)
      × (t ≡ put_task task.issue_id (revised_task clock n r.revision previous task) r.ledger)
unfolding admit_task
admit_task-write clock n previous task r h = ground arith

without_proposal-discoveries :
    (id : String) (s : Ledger) → (without_proposal id s).discoveries ≡ s.discoveries
unfolding without_proposal
without_proposal-discoveries id s = ground arith

reset_ledger-discoveries :
    (previous : DiscoveryTask) (id : String) (r : Option SpecRecord) (s : Ledger)
    → (reset_ledger previous id r s).discoveries ≡ s.discoveries
unfolding reset_ledger
reset_ledger-discoveries previous id r s = elim (Bool-cases (has_revision previous.revision r)) [
  | inl e ↦ rw e (without_proposal-discoveries id _)
  | inr e ↦ rw e
]

-- The next revision as an admission writes it.
pub record RevisionWritten (clock : Clock) (previous task : DiscoveryTask) (s t : Ledger)
    : Type 0 where
  pub readings : ℕ
  pub revision : ℤ
  pub valid : discovery_valid (revised_task clock readings revision previous task) ≡ true
  pub discoveries :
      t.discoveries
      ≡ (put_task task.issue_id (revised_task clock readings revision previous task) s).discoveries

revision-written :
    (clock : Clock) (n : ℕ) (previous task : DiscoveryTask) (r : Revised) (s : Ledger) {t : Ledger}
    → r.ledger.discoveries ≡ s.discoveries
    → written (admit_task clock n previous task r) ≡ some t
    → RevisionWritten clock previous task s t
revision-written clock n previous task r s same h =
    let (ok, w) = admit_task-write clock n previous task r h in
    let next = revised_task clock n r.revision previous task in
    record {
      readings = n;
      revision = r.revision;
      valid = ok;
      discoveries = ap (λ (x : Ledger). x.discoveries) w ∙ ap (λ m. put task.issue_id next m) same;
    }

admit_history-written :
    (clock : Clock) (n : ℕ) (previous task : DiscoveryTask) (r : Option SpecRecord) (s : Ledger)
    {t : Ledger}
    → written (admit_history clock n previous task r s) ≡ some t
    → RevisionWritten clock previous task s t
unfolding admit_history after_completed
admit_history-written clock n previous task r s h = elim (Bool-cases (is_completed previous r)) [
  | inl done ↦
      revision-written clock n previous task (after_completed previous task.issue_id s) s refl
        (rw done at h)
  | inr reset ↦
      let source =
        repeats_source task.source_digest (history_of task.issue_id s.discovery_history) in
      elim (Bool-cases source) [
        | inl again ↦ absurd (cc (rw (reset, again) at h))
        | inr new ↦
            let full = leb 20 (length (history_of task.issue_id s.discovery_reset_history)) in
            elim (Bool-cases full) [
              | inl e ↦ absurd (cc (rw (reset, new, e) at h))
              | inr e ↦
                  revision-written clock n previous task
                    (record {
                      ledger = reset_ledger previous task.issue_id r s;
                      revision = previous.revision;
                    })
                    s (reset_ledger-discoveries previous task.issue_id r s)
                    (rw (reset, new, e) at h)
            ]
      ]
]

admit_supersede-written :
    (clock : Clock) (previous task : DiscoveryTask) (r : Option SpecRecord) (s : Ledger)
    {t : Ledger}
    → written (admit_supersede clock previous task r s) ≡ some t
    → RevisionWritten clock previous task s t
unfolding admit_supersede
admit_supersede-written clock previous task r s h =
    let loop =
      supersede_all (delivers task)
        (may_supersede (is_completed previous r) previous task (approved_of r)) task.source_digest
        clock 0 s.attempts in
    elim (Option-cases loop) [
      | inl e ↦ absurd (cc (rw (e, admit_supersede) at h))
      | inr (p, e) ↦
          let (m, n) = p in
          let w =
            admit_history-written clock n previous task r (record s { attempts = m })
              (rw (e, admit_supersede) at h) in
          record {
            readings = w.readings;
            revision = w.revision;
            valid = w.valid;
            discoveries = w.discoveries;
          }
    ]

admit_revision-guard :
    (max_active : ℤ) (clock : Clock) (s : Ledger) (previous task : DiscoveryTask) {t : Ledger}
    → written (admit_revision max_active clock s previous task) ≡ some t
    → may_revise previous task ≡ true
unfolding admit_revision
admit_revision-guard max_active clock s previous task h = ground arith

-- A revision that an admission writes: the guard, and what is written.
pub admit_revision-written :
    (max_active : ℤ) (clock : Clock) (s : Ledger) (previous task : DiscoveryTask) {t : Ledger}
    → written (admit_revision max_active clock s previous task) ≡ some t
    → (may_revise previous task ≡ true) × RevisionWritten clock previous task s t
admit_revision-written max_active clock s previous task h = (
  admit_revision-guard max_active clock s previous task h,
  admit_supersede-written clock previous task (get task.issue_id s.specs) s
      (admit_revision-supersede max_active clock s previous task h),
)
