-- ===== src/Engine/Update.antt =====
-- internal/state/engine.go: `update`, the optimistic loop, over any Store and with other processes
-- that act on the store between its steps.
use sofa.Base.{ℕ, zero, suc, Bool, Option, none, some, String, if◌then◌else◌}
use sofa.State.Records.{Ledger}
use sofa.State.Validate.{AttemptKey, validate}
use sofa.Engine.Outcome.{Error, Outcome, Operation, Clock}
use sofa.Store.Interface.{Loaded, Store}

pub data Answer (R : Type 0) : Type 0 where
  ok : R → Answer R
  err : Error → Answer R

-- What one round of the loop meets: the context at each of its three tests, the actions of other
-- processes before the load and between the load and the swap, and the clock.
pub record Round (S : Store) : Type 0 where
  pub done : Bool
  pub done_load : Bool
  pub done_swap : Bool
  pub arrive : Store.World S → Store.World S
  pub interfere : Store.World S → Store.World S
  pub clock : Clock

module _ (digest : AttemptKey → String) (S : Store) {R : Type 0}
    (f : Clock → Ledger → Outcome R) where
  -- `err = CompareAndSwap(...); !errors.Is(err, ErrConflict)`: go on with the next round, or end.
  unfoldable pub after_swap : R → S.World × Option Error → S.World × Answer R → S.World × Answer R
  after_swap r (v, none) next = (v, Answer.ok r)
  after_swap r (v, some Error.conflict) next = next
  after_swap r (v, some e) next = (v, Answer.err e)

  -- `changed, err := f(...)`: return, or swap in what the closure wrote.
  unfoldable pub after_closure :
      Round S → (S.World → S.World × Answer R) → S.World → String → Outcome R → S.World × Answer R
  unfolding after_swap
  after_closure o next v revision (Outcome.failed e) = (v, Answer.err e)
  after_closure o next v revision (Outcome.unchanged r) = (v, Answer.ok r)
  after_closure o next v revision (Outcome.changed t r) =
      let swapped = S.compare_and_swap o.done_swap (o.interfere v) revision t in
      let rest = next swapped.0 in after_swap r swapped rest

  unfoldable pub after_load :
      Round S → (S.World → S.World × Answer R) → S.World → Loaded → S.World × Answer R
  unfolding after_closure
  after_load o next v (Loaded.load_failed e) = (v, Answer.err e)
  after_load o next v (Loaded.loaded x) =
      if validate digest x.state
      then after_closure o next v x.revision (f o.clock x.state)
      else (v, Answer.err Error.invalid)

  -- One round; `next` gives the later ones from the store that this one leaves.
  unfoldable pub round : Round S → (S.World → S.World × Answer R) → S.World → S.World × Answer R
  unfolding after_load
  round o next w =
      let v = o.arrive w in
      if o.done then (v, Answer.err Error.canceled) else after_load o next v (S.load o.done_load v)

  -- The rounds left of the loop.
  unfoldable pub rounds_left : ℕ → (ℕ → Round S) → ℕ → S.World → S.World × Answer R
  unfolding round
  rounds_left zero o i w = (w, Answer.err Error.conflict)
  rounds_left (suc n) o i w = round (o i) (λ v. rounds_left n o (suc i) v) w

  -- `update`
  unfoldable pub update : (ℕ → Round S) → S.World → S.World × Answer R
  unfolding rounds_left
  update o w = rounds_left 64 o 0 w

-- A method of the engine on a store.
unfoldable pub perform :
    (digest : AttemptKey → String) (S : Store) {R : Type 0}
    → Operation R
    → (ℕ → Round S)
    → S.World
    → S.World × Answer R
unfolding update
perform digest S (Operation.refuse e) o w = (w, Answer.err e)
perform digest S (Operation.attempt f) o w = update digest S f o w
