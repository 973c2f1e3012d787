-- ===== src/System/Usage.antt =====
-- What a Discovery task spends, and the fence of its worker.
use sofa.Base.{
  ◌<◌, String, Bool, ◌≡◌, refl, sym, ◌∙◌, ap, ◌⊎◌, inl, inr, true, false, Option, none, some, arith,
  Bool-cases, Option-cases, if◌then◌else◌, ◌==◌, option_eq, option_test_iff,
}
use sofa.Base.Int.{
  ℤ, pos, negsuc, pos_part, neg_part, int64_bound, next_int64, leb_ℤ, int_eq, int_test_iff,
  add_int64, ◌≤ℤ◌, ◌<ℤ◌,
}
use sofa.Base.Map.{get}
use sofa.State.Records.{DiscoveryPhase, DiscoveryPublication, DiscoveryTask, Ledger}
use sofa.State.Same.{owner_eq}
use sofa.State.SameTask.{discovery_phase_eq}
use sofa.State.Valid.{discovery_valid}
use sofa.State.Validate.{AttemptKey, validate}
use sofa.Engine.Outcome.{Error, Clock}
use sofa.Engine.Fences.{next_int64-exact}
use sofa.Discovery.Task.{DiscoveryFence, TaskEdit, task_held, assert_discovery_owner}
use sofa.Discovery.Work.{
  claim_discovery_edit, discovery_claimed_by, prepare_edit, mark_post_edit, complete_edit,
  fail_discovery_edit, recover_discovery_edit, cancel_discovery_edit, intent_is, intends,
}
use sofa.Discovery.Revise.{revised_task}
use sofa.Discovery.Admit.{may_revise}
use sofa.System.Research.{ResearchCall}
use sofa.System.Tasks.{TaskChange, validate-task}
use sofa.System.ResearchRuns.{ResearchRun, ResearchRun-keeps, ResearchRun-valid}

-- The bounds of a valid task.
discovery_valid-bounds :
    (d : DiscoveryTask)
    → discovery_valid d ≡ true
    → (leb_ℤ (pos 0) d.generation ≡ true)
      × (leb_ℤ (pos 0) d.model_calls ≡ true)
      × (d.model_calls ≤ℤ d.max_model_calls)
      × (d.max_model_calls ≤ℤ pos 20)
unfolding discovery_valid
discovery_valid-bounds d h = (ground arith, ground arith, ground arith, ground arith)

-- What a change does to the generation, the owner, the phase and the calls charged.
data UsageStep (d e : DiscoveryTask) : Type 0 where
  -- A new generation; at most one call is charged, and only below the maximum.
  advances :
      e.generation ≡ next_int64 d.generation
      → (e.model_calls ≡ d.model_calls)
        ⊎ ((e.model_calls ≡ next_int64 d.model_calls) × (d.model_calls <ℤ d.max_model_calls))
      → UsageStep d e
  -- The same generation: the worker holds the task as before, or has left it.
  stays :
      e.generation ≡ d.generation
      → e.model_calls ≡ d.model_calls
      → ((e.owner ≡ d.owner) × (e.phase ≡ d.phase)) ⊎ ((e.phase == DiscoveryPhase.running) ≡ false)
      → UsageStep d e

mark_post-kept :
    (digest key : String) (clock : Clock) (d e : DiscoveryTask) (o : Option DiscoveryPublication)
    {r : Bool}
    → mark_post_edit digest key clock d o ≡ TaskEdit.write e r
    → (e.generation ≡ d.generation)
      × (e.model_calls ≡ d.model_calls)
      × (e.owner ≡ d.owner)
      × (e.phase ≡ d.phase)
unfolding mark_post_edit
mark_post-kept digest key clock d e none h = absurd (cc h)
mark_post-kept digest key clock d e (some p) h =
    (ground arith, ground arith, ground arith, ground arith)

TaskChange-UsageStep : (d e : DiscoveryTask) → TaskChange d e → UsageStep d e
unfolding claim_discovery_edit discovery_claimed_by prepare_edit mark_post_edit complete_edit
    fail_discovery_edit recover_discovery_edit cancel_discovery_edit revised_task may_revise
    intent_is intends discovery_phase_eq
TaskChange-UsageStep d e (TaskChange.claimed id owner clock w) =
    UsageStep.advances (ground arith) (ground arith)
TaskChange-UsageStep d e (TaskChange.prepared f g key clock mine w) =
    UsageStep.stays (ground arith) (ground arith) (inl (ground arith, ground arith))
TaskChange-UsageStep d e (TaskChange.posted f g key clock mine w) =
    let (a, b, o, p) = mark_post-kept g key clock d e d.publication w in
    UsageStep.stays a b (inl (o, p))
TaskChange-UsageStep d e (TaskChange.completed f c clock mine w) =
    let off : e.phase ≡ DiscoveryPhase.review = ground arith in
    UsageStep.stays (ground arith) (ground arith) (inr (rw off refl))
TaskChange-UsageStep d e (TaskChange.failed f kind clock mine w) =
    let off : e.phase ≡ DiscoveryPhase.blocked = ground arith in
    UsageStep.stays (ground arith) (ground arith) (inr (rw off refl))
TaskChange-UsageStep d e (TaskChange.recovered proof clock w) =
    UsageStep.advances (ground arith) (inl (ground arith))
TaskChange-UsageStep d e (TaskChange.cancelled clock w) =
    UsageStep.advances (ground arith) (inl (ground arith))
TaskChange-UsageStep d e (TaskChange.raised clock m blocked) = UsageStep.stays refl refl (inr refl)
TaskChange-UsageStep d e (TaskChange.revised clock n revision task ok valid) =
    UsageStep.advances refl (inl refl)

-- A sum of a small count and one does not wrap.
charge_exact : (a m : ℤ) → leb_ℤ (pos 0) a ≡ true → a <ℤ m → m ≤ℤ pos 20 → a <ℤ next_int64 a
unfolding add_int64
charge_exact (pos n) m h lt le = ground arith
charge_exact (negsuc n) m h lt le = ground arith

UsageStep-charged :
    (d e : DiscoveryTask)
    → discovery_valid d ≡ true
    → UsageStep d e
    → d.model_calls ≤ℤ e.model_calls
UsageStep-charged d e v (UsageStep.stays g same h) = rw same (omega arith)
UsageStep-charged d e v (UsageStep.advances g (inl same)) = rw same (omega arith)
UsageStep-charged d e v (UsageStep.advances g (inr (up, below))) =
    let (_, low, _, cap) = discovery_valid-bounds d v in
    let more = charge_exact d.model_calls d.max_model_calls low below cap in rw up (omega arith)

-- A generation and a count of calls that a task has reached.
Reached : ℤ → ℤ → DiscoveryTask → Type 0
Reached g n d = (g ≤ℤ d.generation) × (pos_part d.generation < int64_bound) × (n ≤ℤ d.model_calls)

UsageStep-Reached :
    (g n : ℤ) (d e : DiscoveryTask)
    → discovery_valid d ≡ true
    → discovery_valid e ≡ true
    → UsageStep d e
    → Reached g n d
    → Reached g n e
unfolding Reached
UsageStep-Reached g n d e v w (UsageStep.stays same calls h) (up, fit, more) =
    (rw same up, rw same fit, rw calls more)
UsageStep-Reached g n d e v w (UsageStep.advances next_generation calls) (up, fit, more) =
    let (low, _, _, _) = discovery_valid-bounds d v in
    let (low', _, _, _) = discovery_valid-bounds e w in
    let (moved, fits) = next_int64-exact d.generation low fit (rw next_generation at low') in
    let charged = UsageStep-charged d e v (UsageStep.advances next_generation calls) in
    (rw next_generation (omega arith), rw next_generation fits, omega arith)

-- A fence that a task has passed or refuses.
FenceLost : DiscoveryFence → DiscoveryTask → Type 0
unfolding Reached
FenceLost f d = Reached f.generation (pos 0) d × (task_held f d ≡ false)

task_held-parts :
    (f : DiscoveryFence) (d : DiscoveryTask)
    → task_held f d ≡ true
    → (d.generation ≡ f.generation)
      × (d.owner ≡ some f.owner)
      × ((d.phase == DiscoveryPhase.running) ≡ true)
unfolding task_held
task_held-parts f d h =
    ground (
      arith,
      int_test_iff d.generation f.generation,
      option_test_iff owner_eq d.owner (some f.owner),
    )

UsageStep-FenceLost :
    (f : DiscoveryFence) (d e : DiscoveryTask)
    → discovery_valid d ≡ true
    → discovery_valid e ≡ true
    → UsageStep d e
    → FenceLost f d
    → FenceLost f e
unfolding FenceLost Reached task_held
UsageStep-FenceLost f d e v w (UsageStep.stays same calls (inl (o, p))) (reached, lost) = (
  UsageStep-Reached f.generation (pos 0) d e v w (UsageStep.stays same calls (inl (o, p))) reached,
  rw (same, o, p) lost,
)
UsageStep-FenceLost f d e v w (UsageStep.stays same calls (inr off)) (reached, lost) = (
  UsageStep-Reached f.generation (pos 0) d e v w (UsageStep.stays same calls (inr off)) reached,
  elim (Bool-cases (task_held f e)) [
    | inr refused ↦ refused
    | inl holds ↦ let (_, _, running) = task_held-parts f e holds in absurd (cc (running, off))
  ],
)
UsageStep-FenceLost f d e v w (UsageStep.advances up calls) (reached, lost) = (
  UsageStep-Reached f.generation (pos 0) d e v w (UsageStep.advances up calls) reached,
  elim (Bool-cases (task_held f e)) [
    | inr refused ↦ refused
    | inl holds ↦
        let (same, _, _) = task_held-parts f e holds in
        let (low, _, _, _) = discovery_valid-bounds d v in
        let (low', _, _, _) = discovery_valid-bounds e w in
        let (below, fit, _) = reached in
        let (moved, _) = next_int64-exact d.generation low fit (rw up at low') in
        absurd (omega (arith, ap pos_part (sym up ∙ same), ap neg_part (sym up ∙ same)))
  ],
)

module _ (digest : AttemptKey → String) (allowed : ResearchCall → Bool)
    (admissible : Ledger → Bool) where
  Known-run :
      {s t : Ledger} (id : String) (d : DiscoveryTask) (g n : ℤ)
      → validate digest s ≡ true
      → get id s.discoveries ≡ some d
      → Reached g n d
      → ResearchRun digest allowed admissible s t
      → (e : DiscoveryTask) × (get id t.discoveries ≡ some e) × Reached g n e
  Known-run id d g n v found r run =
      ResearchRun-keeps digest allowed admissible (Reached g n) id
        (λ l x y _ _ vx vy change.
          UsageStep-Reached g n x y vx vy (TaskChange-UsageStep x y change))
        d v found r run

  -- Whatever research calls are committed, the task of an issue stays in the ledger, its generation
  -- and its count of model calls never go down, and that count is at most 20. The first ledger and
  -- the ones committed are valid, and the first generation is an int64.
  pub usage_grows :
      (s t : Ledger) (id : String) (d : DiscoveryTask)
      → validate digest s ≡ true
      → get id s.discoveries ≡ some d
      → pos_part d.generation < int64_bound
      → ResearchRun digest allowed admissible s t
      → (e : DiscoveryTask) × (get id t.discoveries ≡ some e)
        × (d.generation ≤ℤ e.generation)
        × (d.model_calls ≤ℤ e.model_calls)
        × (e.model_calls ≤ℤ pos 20)
  unfolding Reached
  usage_grows s t id d v found fit run =
      let (e, at, (up, _, more)) =
        Known-run id d d.generation d.model_calls v found (omega arith, fit, omega arith) run in
      let (_, ve) =
        validate-task digest t id e (ResearchRun-valid digest allowed admissible v run) at in
      let (_, _, calls, cap) = discovery_valid-bounds e ve in (e, at, up, more, omega arith)

  assert-held :
      (s : Ledger) (f : DiscoveryFence)
      → assert_discovery_owner s f ≡ none
      → (d : DiscoveryTask) × (get f.issue_id s.discoveries ≡ some d) × (task_held f d ≡ true)
  unfolding assert_discovery_owner
  assert-held s f h = elim (Option-cases (get f.issue_id s.discoveries)) [
    | inl e ↦ absurd (cc (rw (e, assert_discovery_owner) at h))
    | inr (d, e) ↦ elim (Bool-cases (task_held f d)) [
      | inl mine ↦ (d, e, mine)
      | inr lost ↦ absurd (cc (rw (e, assert_discovery_owner, lost) at h))
    ]
  ]

  assert-get :
      (s : Ledger) (f : DiscoveryFence) (d : DiscoveryTask)
      → get f.issue_id s.discoveries ≡ some d
      → assert_discovery_owner s f ≡ (if task_held f d then none else some Error.stale)
  unfolding assert_discovery_owner
  assert-get s f d e = rw (e, assert_discovery_owner)

  -- A Discovery fence that AssertDiscoveryOwner accepted and later refused is refused for good,
  -- with ErrStale, whatever research calls are committed. The first ledger and the ones committed
  -- are valid, and the fence's generation is an int64.
  pub researcher_lost :
      (s t u : Ledger) (f : DiscoveryFence) (x : Error)
      → validate digest s ≡ true
      → assert_discovery_owner s f ≡ none
      → pos_part f.generation < int64_bound
      → ResearchRun digest allowed admissible s t
      → assert_discovery_owner t f ≡ some x
      → ResearchRun digest allowed admissible t u
      → assert_discovery_owner u f ≡ some Error.stale
  unfolding Reached FenceLost
  researcher_lost s t u f x v h fit first lost after =
      let (d, at, mine) = assert-held s f h in
      let (same, _, _) = task_held-parts f d mine in
      let (_, ok) = validate-task digest s f.issue_id d v at in
      let (_, spent, _, _) = discovery_valid-bounds d ok in
      let (e, found, reached) =
        Known-run f.issue_id d f.generation (pos 0) v at
          (rw same (omega arith), rw same fit, ground arith) first in
      let refused : task_held f e ≡ false = elim (Bool-cases (task_held f e)) [
        | inr off ↦ off
        | inl holds ↦
            absurd (cc (assert-get t f e found, rw holds at (assert-get t f e found), lost))
      ] in
      let (c, now, bad) =
        ResearchRun-keeps digest allowed admissible (FenceLost f) f.issue_id
          (λ l x y _ _ vx vy change.
            UsageStep-FenceLost f x y vx vy (TaskChange-UsageStep x y change))
          e (ResearchRun-valid digest allowed admissible v first) found (reached, refused) after in
      assert-get u f c now ∙ rw bad.1 refl
