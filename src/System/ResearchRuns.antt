-- ===== src/System/ResearchRuns.antt =====
-- Sequences of committed calls of internal/state/discovery.go, and what they leave of one task.
use sofa.Base.{String, Bool, ◌≡◌, sym, ◌∙◌, ap, inl, inr, true, some, option_eq}
use mathlib.Core.Path.{subst}
use sofa.Base.Int.{int_eq}
use sofa.Base.Map.{get}
use sofa.State.Records.{DiscoveryTask, Ledger}
use sofa.State.Same.{owner_eq}
use sofa.State.SameTask.{discovery_phase_eq}
use sofa.State.Valid.{discovery_valid}
use sofa.State.Validate.{AttemptKey, validate}
use sofa.Engine.Outcome.{Clock}
use sofa.System.Research.{ResearchCall, commit_research}
use sofa.System.Tasks.{TaskChange, validate-task}
use sofa.System.TaskSteps.{commit_research-TaskAfter}

module _ (digest : AttemptKey → String) (allowed : ResearchCall → Bool)
    (admissible : Ledger → Bool) where
  -- Calls of one kind that committed one after another, each a ledger that the store accepts and
  -- that passes a test; other calls between them leave the tasks alone.
  pub data ResearchRun (s : Ledger) : Ledger → Type 0 where
    here : ResearchRun s s
    after_research :
        {t u : Ledger} (c : ResearchCall) (before clock : Clock)
        → ResearchRun s t
        → allowed c ≡ true
        → commit_research c before clock t ≡ some u
        → validate digest u ≡ true
        → admissible u ≡ true
        → ResearchRun s u
    after_others :
        {t u : Ledger}
        → ResearchRun s t
        → u.discoveries ≡ t.discoveries
        → validate digest u ≡ true
        → admissible u ≡ true
        → ResearchRun s u

  pub ResearchRun-valid :
      {s t : Ledger} → validate digest s ≡ true → ResearchRun s t → validate digest t ≡ true
  ResearchRun-valid v here = v
  ResearchRun-valid v (after_research c before clock r may e w ok) = w
  ResearchRun-valid v (after_others r e w ok) = w

  -- A property of one valid task that the changes keep, in ledgers that pass the test, holds along
  -- a run.
  pub ResearchRun-keeps :
      (P : DiscoveryTask → Type 0) (id : String)
      → ((u : Ledger) (d e : DiscoveryTask)
          → admissible u ≡ true
          → get id u.discoveries ≡ some e
          → discovery_valid d ≡ true
          → discovery_valid e ≡ true
          → TaskChange d e
          → P d
          → P e)
      → {s t : Ledger} (d : DiscoveryTask) → validate digest s ≡ true
      → get id s.discoveries ≡ some d
      → P d
      → ResearchRun s t
      → (e : DiscoveryTask) × (get id t.discoveries ≡ some e) × P e
  ResearchRun-keeps P id step d v found p here = (d, found, p)
  ResearchRun-keeps P id step d v found p (after_others {t} {u} r same w ok) =
      let (e, at, q) = ResearchRun-keeps P id step d v found p r in
      (e, ap (λ m. get id m) same ∙ at, q)
  ResearchRun-keeps P id step d v found p
        (after_research {t} {u} c before clock r may committed w ok) =
      let (e, at, q) = ResearchRun-keeps P id step d v found p r in
      let vt = ResearchRun-valid v r in
      let (x, now, how) = commit_research-TaskAfter digest c before clock t id e vt committed at in
      elim how [
        | inl same ↦ (x, now, subst P (sym same) q)
        | inr change ↦
            let (_, ve) = validate-task digest t id e vt at in
            let (_, vx) = validate-task digest u id x w now in
            (x, now, step u e x ok now ve vx change q)
      ]
