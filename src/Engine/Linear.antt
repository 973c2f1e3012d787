-- ===== src/Engine/Linear.antt =====
-- The loop `update` is atomic: whatever other processes do to the store, its effect is that of the
-- closure on one committed ledger, or none.
use sofa.Base.{
  ℕ, zero, suc, ◌≡◌, refl, sym, ◌∙◌, Bool, true, Option, none, some, String, Bool-cases, inl, inr,
}
use sofa.State.Records.{Ledger}
use sofa.State.Validate.{AttemptKey, validate}
use sofa.Engine.Outcome.{Error, Outcome, Clock}
use sofa.Store.Interface.{Snapshot, Loaded, Store, IsLawful}
use sofa.Engine.Update.{
  Answer, Round, after_swap, after_closure, after_load, round, rounds_left, update,
}

-- The stores that the other processes of the rounds can make of one.
pub data Others (S : Store) (o : ℕ → Round S) (w : Store.World S) : Store.World S → Type 0 where
  here : Others S o w w
  arrived : (i : ℕ) {v : Store.World S} → Others S o w v → Others S o w (Round.arrive (o i) v)
  interfered : (i : ℕ) {v : Store.World S} → Others S o w v → Others S o w (Round.interfere (o i) v)

module _ (digest : AttemptKey → String) (S : Store) (L : IsLawful digest S) {R : Type 0}
    (f : Clock → Ledger → Outcome R) (o : ℕ → Round S) where
  -- The effect of `update` from the store `w`.
  pub data Effect (w : S.World) : S.World × Answer R → Type 0 where
    -- Only the others acted.
    failed : {v : S.World} (e : Error) → Others S o w v → Effect w (v, Answer.err e)
    -- The closure found nothing to write.
    kept :
        (i : ℕ) {v : S.World} {r : R}
        → Others S o w v
        → validate digest (L.committed v) ≡ true
        → f (o i).clock (L.committed v) ≡ Outcome.unchanged r
        → Effect w (v, Answer.ok r)
    -- The closure, run on the ledger that was committed at `v`, wrote the one at `u`.
    wrote :
        (i : ℕ) {v u : S.World} {t : Ledger} {r : R}
        → Others S o w v
        → validate digest (L.committed v) ≡ true
        → f (o i).clock (L.committed v) ≡ Outcome.changed t r
        → L.committed u ≡ t
        → validate digest t ≡ true
        → Effect w (u, Answer.ok r)

  -- Other processes do not bring back a revision with another ledger.
  abbrev pub NoReuse : Type 0
  NoReuse =
      (i : ℕ) (v : S.World)
      → L.revision ((o i).interfere v) ≡ L.revision v
      → L.committed ((o i).interfere v) ≡ L.committed v

  module _ (no_reuse : NoReuse) (w : S.World) (next : S.World → S.World × Answer R)
      (later : (v : S.World) → Others S o w v → Effect w (next v)) (i : ℕ) where
    swap-Effect :
        (v : S.World) (rev : String) (t : Ledger) (r : R)
        → Others S o w v
        → validate digest (L.committed v) ≡ true
        → rev ≡ L.revision v
        → f (o i).clock (L.committed v) ≡ Outcome.changed t r
        → (u : S.World) (e : Option Error)
        → S.compare_and_swap (o i).done_swap ((o i).interfere v) rev t ≡ (u, e)
        → Effect w (after_swap digest S f r (u, e) (next u))
    unfolding after_swap
    swap-Effect v rev t r q valid at closure u none h =
        let (was, is, good) = L.swap_ok _ _ _ _ _ h in
        let same = no_reuse i v (sym was ∙ at) in
        wrote i (interfered i q) (rw same valid) (rw same closure) is good
    swap-Effect v rev t r q valid at closure u (some Error.conflict) h =
        rw (L.swap_error _ _ _ _ _ _ h) (later ((o i).interfere v) (interfered i q))
    swap-Effect v rev t r q valid at closure u (some e) h =
        rw (L.swap_error _ _ _ _ _ _ h) (failed e (interfered i q))

    closure-Effect :
        (v : S.World) (x : Snapshot)
        → Others S o w v
        → x.state ≡ L.committed v
        → x.revision ≡ L.revision v
        → validate digest x.state ≡ true
        → (c : Outcome R) → f (o i).clock x.state ≡ c
        → Effect w (after_closure digest S f (o i) next v x.revision c)
    unfolding after_closure
    closure-Effect v x q st rev valid (Outcome.failed e) h = failed e q
    closure-Effect v x q st rev valid (Outcome.unchanged r) h =
        kept i q (rw st at valid) (rw st at h)
    closure-Effect v x q st rev valid (Outcome.changed t r) h =
        swap-Effect v x.revision t r q (rw st at valid) rev (rw st at h) _ _ refl

    load-Effect :
        (v : S.World) (done : Bool) (l : Loaded)
        → Others S o w v
        → S.load done v ≡ l
        → Effect w (after_load digest S f (o i) next v l)
    unfolding after_load
    load-Effect v done (Loaded.load_failed e) q h = failed e q
    load-Effect v done (Loaded.loaded x) q h = elim (Bool-cases (validate digest x.state)) [
      | inl good ↦
          let (st, rev) = L.load_state done v x h in
          rw good (closure-Effect v x q st rev good (f (o i).clock x.state) refl)
      | inr bad ↦ rw bad (failed Error.invalid q)
    ]

    round-Effect : (v : S.World) → Others S o w v → Effect w (round digest S f (o i) next v)
    unfolding round
    round-Effect v q = elim (Bool-cases (o i).done) [
      | inl stop ↦ rw stop (failed Error.canceled (arrived i q))
      | inr go ↦ rw go (load-Effect ((o i).arrive v) (o i).done_load _ (arrived i q) refl)
    ]

  rounds_left-Effect :
      (no_reuse : NoReuse) (w : S.World) (n i : ℕ) (v : S.World)
      → Others S o w v
      → Effect w (rounds_left digest S f n o i v)
  unfolding rounds_left
  rounds_left-Effect no_reuse w zero i v q = failed Error.conflict q
  rounds_left-Effect no_reuse w (suc n) i v q =
      round-Effect no_reuse w (λ u. rounds_left digest S f n o (suc i) u)
        (λ u r. rounds_left-Effect no_reuse w n (suc i) u r) i v q

  pub update-Effect : (no_reuse : NoReuse) (w : S.World) → Effect w (update digest S f o w)
  unfolding update
  update-Effect no_reuse w = rounds_left-Effect no_reuse w 64 0 w here
