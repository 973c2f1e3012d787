-- ===== src/Discovery/Task.antt =====
-- internal/state/discovery.go: edits of one task, the fence of its worker, ownedDiscovery.
use sofa.Base.{String, Bool, not, Option, none, some, ◌||◌, ◌==◌, option_eq, if◌then◌else◌}
use sofa.Base.Int.{ℤ, int_eq}
use sofa.Base.Map.{get, put}
use sofa.State.Records.{DiscoveryPhase, Owner, DiscoveryTask, Ledger}
use sofa.State.Same.{owner_eq}
use sofa.State.SameTask.{discovery_phase_eq}
use sofa.Engine.Outcome.{Error, Outcome}

-- `DiscoveryFence`
pub record DiscoveryFence : Type 0 where
  pub issue_id : String
  pub generation : ℤ
  pub owner : Owner

-- The ends of the part of a closure that works on one task.
pub data TaskEdit (R : Type 0) : Type 0 where
  keep : R → TaskEdit R
  write : DiscoveryTask → R → TaskEdit R
  reject : Error → TaskEdit R

-- `s.Discoveries[id] = d`
abbrev pub put_task : String → DiscoveryTask → Ledger → Ledger
put_task id d s = record s { discoveries = put id d s.discoveries }

-- What an edit of the task at `id` does to the ledger.
abbrev pub commit_task : {R : Type 0} → String → Ledger → TaskEdit R → Outcome R
commit_task id s (TaskEdit.keep r) = Outcome.unchanged r
commit_task id s (TaskEdit.write d r) = Outcome.changed (put_task id d s) r
commit_task id s (TaskEdit.reject e) = Outcome.failed e

-- `d, ok := s.Discoveries[issueID]; if !ok { return ErrNotFound }`, and then the edit.
unfoldable pub edit_task : {R : Type 0} → String → (DiscoveryTask → TaskEdit R) → Ledger → Outcome R
edit_task id f s = elim (get id s.discoveries) [
  | none ↦ Outcome.failed Error.not_found
  | some d ↦ commit_task id s (f d)
]

-- The test of `ownedDiscovery`, on the task found.
unfoldable pub task_held : DiscoveryFence → DiscoveryTask → Bool
task_held f d = not (
    not (d.generation == f.generation)
    || not (d.owner == some f.owner)
    || not (d.phase == DiscoveryPhase.running))

-- `ownedDiscovery`, and then the edit of the task under its own identifier.
unfoldable pub edit_owned_task :
    {R : Type 0} → DiscoveryFence → (DiscoveryTask → TaskEdit R) → Ledger → Outcome R
edit_owned_task f g s = elim (get f.issue_id s.discoveries) [
  | none ↦ Outcome.failed Error.not_found
  | some d ↦ if task_held f d then commit_task d.issue_id s (g d) else Outcome.failed Error.stale
]

-- `AssertDiscoveryOwner`, on the ledger that it loads.
unfoldable pub assert_discovery_owner : Ledger → DiscoveryFence → Option Error
assert_discovery_owner s f = elim (get f.issue_id s.discoveries) [
  | none ↦ some Error.not_found
  | some d ↦ if task_held f d then none else some Error.stale
]
