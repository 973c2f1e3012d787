-- ===== src/Engine/Calls.antt =====
-- The operations of engine.go as calls, and what a call writes.
use sofa.Base.{
  String, ◌≡◌, refl, ◌∙◌, true, Option, none, some, inl, inr, arith, Option-cases, some_inj, Bool,
  false, ap,
}
use mathlib.Core.Path.{subst}
use sofa.Base.Map.{get, all_entries, all_entries-get}
use sofa.State.Clock.{Time}
use sofa.State.Records.{
  Phase, Counters, Owner, Fence, Checkpoint, Publication, Attempt, Observation, Ledger,
}
use sofa.State.Validate.{AttemptKey, attempt_valid, validate}
use sofa.State.Facts.{attempt_valid-id, validate-attempts}
use sofa.State.Same.{phase_eq}
use sofa.Engine.Outcome.{
  Outcome, Operation, Error, Clock, Edit, apply, put_attempt, commit_edit, edit_attempt, require,
}
use sofa.Engine.Ownership.{
  mark_dispatched_edit, mark_dispatched, claimed_by, claim_found, claim_step, claim, Owned,
  check_owner, owned, stamp, mutate_owned,
}
use sofa.Engine.Work.{
  charge_edit, charge, advance_edit, advance, save_checkpoint_edit, save_checkpoint, discard_edit,
  discard_unavailable_checkpoint,
}
use sofa.Engine.Publish.{
  begin_publication_edit, begin_publication, mark_published_edit, mark_published, fail_edit, fail,
}
use sofa.Engine.Recovery.{
  RunProof, recover_edit, recover, stop_owner_edit, stop_proven_owner, stop_pending_edit,
  stop_revoked_pending, observe_step, observe,
}

-- A call of the engine. `work` is one that the holder of a fence makes.
pub data Work : Type 0 where
  charges : Counters → Work
  advances : Phase → Work
  saves : Checkpoint → Work
  begins publishes : Publication → Work
  fails : String → Work

pub data Call : Type 0 where
  dispatches : String → Call
  claims : String → Owner → Call
  works : Fence → Work → Call
  discards : String → Checkpoint → Call
  recovers : Time → String → RunProof → Call
  stops : Time → String → RunProof → String → Call
  revokes : Attempt → Call
  observes : Observation → Call

-- The mutation of the attempt that a fence holds.
abbrev pub mutation : Work → Attempt → Edit
mutation (Work.charges delta) = charge_edit delta
mutation (Work.advances phase) = advance_edit phase
mutation (Work.saves c) = save_checkpoint_edit c
mutation (Work.begins p) = begin_publication_edit p
mutation (Work.publishes p) = mark_published_edit p
mutation (Work.fails kind) = fail_edit kind

abbrev pub work : Clock → Fence → Work → Operation (Unit {0})
work clock f (Work.charges delta) = charge f delta
work clock f (Work.advances phase) = advance f phase
work clock f (Work.saves c) = save_checkpoint clock f c
work clock f (Work.begins p) = begin_publication f p
work clock f (Work.publishes p) = mark_published f p
work clock f (Work.fails kind) = fail f kind

-- The ledger that an outcome would commit.
abbrev pub written : {R : Type 0} → Outcome R → Option Ledger
written (Outcome.unchanged r) = none
written (Outcome.changed t r) = some t
written (Outcome.failed e) = none

-- The ledger that a call would commit. The readings of the clock are those inside the closure;
-- `before` are those in front of it.
unfoldable pub commit : (AttemptKey → String) → Call → Clock → Clock → Ledger → Option Ledger
commit digest (Call.dispatches id) before clock s = written (apply (mark_dispatched id) clock s)
commit digest (Call.claims id owner) before clock s = written (apply (claim id owner) clock s)
commit digest (Call.works f w) before clock s = written (apply (work before f w) clock s)
commit digest (Call.discards id c) before clock s =
    written (apply (discard_unavailable_checkpoint id c) clock s)
commit digest (Call.recovers now id p) before clock s = written (apply (recover now id p) clock s)
commit digest (Call.stops now id p kind) before clock s =
    written (apply (stop_proven_owner now id p kind) clock s)
commit digest (Call.revokes expected) before clock s =
    written (apply (stop_revoked_pending digest expected) clock s)
commit digest (Call.observes o) before clock s = written (apply (observe digest o) clock s)

-- What a call may do to one attempt.
pub data Change (a : Attempt) : Attempt → Type 0 where
  dispatched :
      (clock : Clock) {b : Attempt} → mark_dispatched_edit clock a ≡ Edit.write b → Change a b
  claimed :
      (clock : Clock) (owner : Owner)
      → a.owner ≡ none
      → a.phase ≡ Phase.pending
      → Change a (claimed_by clock owner a)
  worked :
      (clock : Clock) (f : Fence) (w : Work) {b : Attempt}
      → check_owner f a ≡ Owned.held a
      → stamp clock a (mutation w a) ≡ Edit.write b
      → Change a b
  discarded :
      (c : Checkpoint) (clock : Clock) {b : Attempt}
      → discard_edit c clock a ≡ Edit.write b
      → Change a b
  recovered :
      (p : RunProof) (clock : Clock) {b : Attempt}
      → recover_edit p clock a ≡ Edit.write b
      → Change a b
  stopped :
      (p : RunProof) (kind : String) (clock : Clock) {b : Attempt}
      → stop_owner_edit p kind clock a ≡ Edit.write b
      → Change a b
  revoked :
      (expected : Attempt) (clock : Clock) {b : Attempt}
      → stop_pending_edit expected clock a ≡ Edit.write b
      → Change a b

-- What a call writes: one attempt changes, or none does.
pub data Written (s : Ledger) : Ledger → Type 0 where
  wrote :
      (id : String) {a b : Attempt}
      → get id s.attempts ≡ some a
      → Change a b
      → Written s (put_attempt id b s)
  noted : {t : Ledger} → t.attempts ≡ s.attempts → Written s t

edit-Written :
    (id : String) (s : Ledger) (a : Attempt) (e : Edit) {t : Ledger}
    → get id s.attempts ≡ some a
    → ((b : Attempt) → e ≡ Edit.write b → Change a b)
    → written (commit_edit id s e) ≡ some t
    → Written s t
edit-Written id s a Edit.keep found change h = cc
edit-Written id s a (Edit.write b) found change h =
    subst (Written s) (some_inj h) (wrote id found (change b refl))
edit-Written id s a (Edit.reject e) found change h = cc

edit_attempt-Written :
    (id : String) (f : Attempt → Edit) (s : Ledger) {t : Ledger}
    → ((a b : Attempt) → f a ≡ Edit.write b → Change a b)
    → written (edit_attempt id f s) ≡ some t
    → Written s t
unfolding edit_attempt
edit_attempt-Written id f s {t} change h = elim (Option-cases (get id s.attempts)) [
  | inl e ↦ cc (rw (e, edit_attempt) at h)
  | inr (a, e) ↦ edit-Written id s a (f a) e (change a) (rw (e, edit_attempt) at h)
]

check_owner-held : (f : Fence) (b a : Attempt) → check_owner f b ≡ Owned.held a → b ≡ a
unfolding check_owner
check_owner-held f b a h = ground arith

-- The holder of a fence has found the attempt under the fence's identifier.
pub owned-held :
    (s : Ledger) (f : Fence) (a : Attempt)
    → owned s f ≡ Owned.held a
    → (get f.attempt_id s.attempts ≡ some a) × (check_owner f a ≡ Owned.held a)
unfolding owned
owned-held s f a h = elim (Option-cases (get f.attempt_id s.attempts)) [
  | inl e ↦ cc (rw (e, owned) at h)
  | inr (b, e) ↦
      let k : check_owner f b ≡ Owned.held a = rw (e, owned) at h in
      let same = check_owner-held f b a k in (e ∙ ap some same, rw same at k)
]

-- Under a key that is its attempt's identifier, a mutation by a fence is a change.
mutate-Written :
    (digest : AttemptKey → String) (f : Fence) (w : Work) (clock : Clock) (s : Ledger) {t : Ledger}
    → all_entries (attempt_valid digest) s.attempts ≡ true
    → written (apply (mutate_owned f (mutation w)) clock s) ≡ some t
    → Written s t
unfolding mutate_owned
mutate-Written digest f w clock s {t} valid h = go (owned s f) refl
  where
    go : (o : Owned) → owned s f ≡ o → Written s t
    go (Owned.lost x) e = cc (rw e at h)
    go (Owned.held a) e =
        let (found, mine) = owned-held s f a e in
        let ok = all_entries-get (attempt_valid digest) f.attempt_id a s.attempts valid found in
        edit-Written a.id s a (stamp clock a (mutation w a))
          (rw (attempt_valid-id digest f.attempt_id a ok) at found)
          (λ b k. Change.worked clock f w mine k) (rw e at h)

-- A guard in front of a closure lets it through when it holds.
require-written :
    {R : Type 0} (b : Bool) (x : Error) (op : Operation R) (clock : Clock) (s : Ledger) {t : Ledger}
    → written (apply (require b x op) clock s) ≡ some t
    → written (apply op clock s) ≡ some t
unfolding require
require-written true x op clock s h = h
require-written false x op clock s h = cc

-- A claim is granted on a pending attempt without owner, and only there.
pub claim_found-granted :
    (id : String) (owner : Owner) (clock : Clock) (s : Ledger) (a : Attempt) {t : Ledger}
    → written (claim_found clock id owner s a) ≡ some t
    → (a.owner ≡ none)
      × (a.phase ≡ Phase.pending)
      × (put_attempt id (claimed_by clock owner a) s ≡ t)
unfolding claim_found
claim_found-granted id owner clock s a h = ground (arith, phase_eq.test_iff a.phase Phase.pending)

claim-Written :
    (id : String) (owner : Owner) (clock : Clock) (s : Ledger) {t : Ledger}
    → written (claim_step id owner clock s) ≡ some t
    → Written s t
unfolding claim_step
claim-Written id owner clock s {t} h = elim (Option-cases (get id s.attempts)) [
  | inl e ↦ cc (rw (e, claim_step) at h)
  | inr (a, e) ↦
      let (free, pending, same) =
        claim_found-granted id owner clock s a (rw (e, claim_step) at h) in
      subst (Written s) same (wrote id e (Change.claimed clock owner free pending))
]

observe-Written :
    (digest : AttemptKey → String) (o : Observation) (clock : Clock) (s : Ledger) {t : Ledger}
    → written (observe_step digest o clock s) ≡ some t
    → Written s t
unfolding observe_step
observe-Written digest o clock s h = noted (ground arith)

work-Written :
    (digest : AttemptKey → String) (f : Fence) (w : Work) (before clock : Clock) (s : Ledger)
    {t : Ledger}
    → all_entries (attempt_valid digest) s.attempts ≡ true
    → written (apply (work before f w) clock s) ≡ some t
    → Written s t
unfolding charge advance save_checkpoint begin_publication mark_published fail
work-Written digest f (Work.charges delta) before clock s valid h =
    mutate-Written digest f (Work.charges delta) clock s valid
      (require-written {R = Unit} _ _ _ clock s h)
work-Written digest f (Work.advances phase) before clock s valid h =
    mutate-Written digest f (Work.advances phase) clock s valid h
work-Written digest f (Work.saves c) before clock s valid h =
    mutate-Written digest f (Work.saves c) clock s valid
      (require-written {R = Unit} _ _ _ clock s h)
work-Written digest f (Work.begins p) before clock s valid h =
    mutate-Written digest f (Work.begins p) clock s valid
      (require-written {R = Unit} _ _ _ clock s h)
work-Written digest f (Work.publishes p) before clock s valid h =
    mutate-Written digest f (Work.publishes p) clock s valid
      (require-written {R = Unit} _ _ _ clock s h)
work-Written digest f (Work.fails kind) before clock s valid h =
    mutate-Written digest f (Work.fails kind) clock s valid
      (require-written {R = Unit} _ _ _ clock s h)

-- Whatever a call commits to a valid ledger is one of the changes, of one attempt at most.
pub commit-Written :
    (digest : AttemptKey → String) (c : Call) (before clock : Clock) (s : Ledger) {t : Ledger}
    → validate digest s ≡ true
    → commit digest c before clock s ≡ some t
    → Written s t
unfolding commit mark_dispatched claim discard_unavailable_checkpoint recover stop_proven_owner
    stop_revoked_pending observe
commit-Written digest (Call.dispatches id) before clock s valid h =
    edit_attempt-Written id (mark_dispatched_edit clock) s (λ a b e. Change.dispatched clock e) h
commit-Written digest (Call.claims id owner) before clock s valid h =
    claim-Written id owner clock s (require-written {R = Fence} _ _ _ clock s h)
commit-Written digest (Call.works f w) before clock s valid h =
    work-Written digest f w before clock s (validate-attempts digest s valid) h
commit-Written digest (Call.discards id c) before clock s valid h =
    edit_attempt-Written id (discard_edit c clock) s (λ a b e. Change.discarded c clock e)
      (require-written {R = Unit} _ _ _ clock s h)
commit-Written digest (Call.recovers now id p) before clock s valid h =
    edit_attempt-Written id (recover_edit p clock) s (λ a b e. Change.recovered p clock e)
      (require-written {R = Unit} _ _ _ clock s h)
commit-Written digest (Call.stops now id p kind) before clock s valid h =
    edit_attempt-Written id (stop_owner_edit p kind clock) s
      (λ a b e. Change.stopped p kind clock e)
      (require-written {R = Unit} _ _ _ clock s (require-written {R = Unit} _ _ _ clock s h))
commit-Written digest (Call.revokes expected) before clock s valid h =
    edit_attempt-Written expected.id (stop_pending_edit expected clock) s
      (λ a b e. Change.revoked expected clock e) (require-written {R = Unit} _ _ _ clock s h)
commit-Written digest (Call.observes o) before clock s valid h = observe-Written digest o clock s h
