-- ===== src/Store/Interface.antt =====
-- internal/state/state.go: Snapshot and the Store interface, with what a store promises.
use sofa.Base.{String, ◌≡◌, Bool, true, Option, none, some}
use sofa.State.Records.{Ledger}
use sofa.State.Validate.{AttemptKey, validate}
use sofa.Engine.Outcome.{Error}

pub record Snapshot : Type 0 where
  pub revision : String
  pub state : Ledger

pub data Loaded : Type 0 where
  loaded : Snapshot → Loaded
  load_failed : Error → Loaded

-- `World` is what the processes share. The Boolean of a call is whether its context is done.
pub record Store : Type 1 where
  pub World : Type 0
  pub load : Bool → World → Loaded
  pub compare_and_swap : Bool → World → String → Ledger → World × Option Error

-- What `update` relies on: a load reads the committed ledger, a swap without error replaced that
-- very revision by a valid ledger, and a swap with an error wrote nothing.
pub record IsLawful (digest : AttemptKey → String) (S : Store) : Type 1 where
  pub committed : S.World → Ledger
  pub revision : S.World → String
  pub load_state :
      (done : Bool) (w : S.World) (x : Snapshot)
      → S.load done w ≡ Loaded.loaded x
      → (x.state ≡ committed w) × (x.revision ≡ revision w)
  pub swap_ok :
      (done : Bool) (w v : S.World) (r : String) (t : Ledger)
      → S.compare_and_swap done w r t ≡ (v, none)
      → (r ≡ revision w) × (committed v ≡ t) × (validate digest t ≡ true)
  pub swap_error :
      (done : Bool) (w v : S.World) (r : String) (t : Ledger) (e : Error)
      → S.compare_and_swap done w r t ≡ (v, some e)
      → v ≡ w
