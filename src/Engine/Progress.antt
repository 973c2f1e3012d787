-- ===== src/Engine/Progress.antt =====
-- Progress of `update`: an undisturbed round on a memory store commits what the closure writes.
use sofa.Base.{
  ℕ, ◌+◌, ◌%◌, ◌≡◌, refl, ◌∙◌, true, false, Option, none, some, Option-cases, String, if◌then◌else◌,
  Bool-cases, inl, inr, arith, eq_iff,
}
use sofa.State.Records.{Ledger}
use sofa.State.Validate.{AttemptKey, validate}
use sofa.Engine.Outcome.{Error, Outcome, Clock}
use sofa.Store.Interface.{Snapshot, Loaded}
use sofa.Store.Memory.{
  Codec, MemoryStore, load-loaded, memory_store, load, compare_and_swap, current,
}
use sofa.Engine.Update.{
  Answer, Round, after_swap, after_closure, after_load, round, rounds_left, update,
}

module _ (digest : AttemptKey → String) (codec : Codec digest) where
  abbrev M : Type 0
  M = MemoryStore digest codec

  -- Nobody else acts in the round, and its context is alive.
  pub record Undisturbed (o : Round (memory_store digest codec)) : Type 0 where
    pub done : o.done ≡ false
    pub done_load : o.done_load ≡ false
    pub done_swap : o.done_swap ≡ false
    pub arrive : (m : M) → o.arrive m ≡ m
    pub interfere : (m : M) → o.interfere m ≡ m

  -- The store holds nothing yet, or bytes that decode to a valid ledger.
  pub IsReadable : M → Type 0
  IsReadable m =
      (x : Snapshot) × (load digest codec false m ≡ Loaded.loaded x)
      × (validate digest x.state ≡ true)

  module _ {R : Type 0} (f : Clock → Ledger → Outcome R)
      (o : ℕ → Round (memory_store digest codec)) where
    quiet_round :
        (next : M → M × Answer R) (m : M) (x : Snapshot)
        → Undisturbed (o 0)
        → load digest codec false m ≡ Loaded.loaded x
        → validate digest x.state ≡ true
        → round digest (memory_store digest codec) f (o 0) next m
          ≡ after_closure digest
              (memory_store digest codec)
              f
              (o 0)
              next
              m
              x.revision
              (f (o 0).clock x.state)
    unfolding round after_load
    quiet_round next m x q l v = rw (q.done, q.arrive, q.done_load) (rw (l, after_load) (rw v refl))

    -- What an undisturbed `update` does with a valid ledger, by what json.Marshal makes of it.
    abbrev pub stored_as : M → R → Option codec.Bytes → M × Answer R
    stored_as m r none = (m, Answer.err Error.unwritable)
    stored_as m r (some b) = (
      record { revision = (m.revision + 1) % 18446744073709551616; content = some b },
      Answer.ok r,
    )

    -- What it does with the outcome of its closure.
    pub answer_of : M → Outcome R → M × Answer R
    answer_of m (Outcome.failed e) = (m, Answer.err e)
    answer_of m (Outcome.unchanged r) = (m, Answer.ok r)
    answer_of m (Outcome.changed t r) =
        if validate digest t then stored_as m r (codec.marshal t) else (m, Answer.err Error.invalid)

    quiet_closure :
        (next : M → M × Answer R) (m : M) (rev : String) (c : Outcome R)
        → Undisturbed (o 0)
        → rev ≡ current digest codec m
        → after_closure digest (memory_store digest codec) f (o 0) next m rev c ≡ answer_of m c
    unfolding after_closure after_swap answer_of compare_and_swap
    quiet_closure next m rev (Outcome.failed e) q at = refl
    quiet_closure next m rev (Outcome.unchanged r) q at = refl
    quiet_closure next m rev (Outcome.changed t r) q at =
        rw (q.done_swap, q.interfere)
          (elim (Bool-cases (validate digest t)) [
            | inl good ↦ rw good (elim (Option-cases (codec.marshal t)) [
              | inl e ↦ rw e refl
              | inr (b, e) ↦ rw e (ground (arith, eq_iff rev (current digest codec m)))
            ])
            | inr bad ↦ rw bad refl
          ])

    -- On a memory store that can be read, with nobody else acting in the first round and a live
    -- context, `update` answers as its closure does: an error or no change leaves the store alone,
    -- and a valid ledger is stored under the next revision, unless json.Marshal fails on it, whose
    -- error is the answer; a ledger that is not valid is refused with ErrInvalid. In particular it
    -- does not end with a conflict of its own.
    pub update_quiet :
        (m : M) (x : Snapshot)
        → Undisturbed (o 0)
        → load digest codec false m ≡ Loaded.loaded x
        → validate digest x.state ≡ true
        → update digest (memory_store digest codec) f o m ≡ answer_of m (f (o 0).clock x.state)
    unfolding update rounds_left
    update_quiet m x q l v =
        quiet_round (λ u. rounds_left digest (memory_store digest codec) f 63 o 1 u) m x q l v
        ∙ quiet_closure (λ u. rounds_left digest (memory_store digest codec) f 63 o 1 u) m
            x.revision (f (o 0).clock x.state) q ((load-loaded digest codec false m x l).1)
