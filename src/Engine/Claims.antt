-- ===== src/Engine/Claims.antt =====
-- `Claim`: what it grants, and that it is not repeatable.
use sofa.Base.{
  String, ◌≡◌, refl, ◌∙◌, ◌≢◌, ◌⊎◌, inl, inr, true, some, none, arith, Option-cases, Bool-cases, ap,
}
use sofa.Base.Int.{next_int64}
use sofa.Base.Map.{get, get-put_self}
use sofa.State.Clock.{is_zero}
use sofa.State.Records.{Phase, Owner, Fence, Attempt, Ledger}
use sofa.State.Same.{owner_eq, phase_eq}
use sofa.State.Valid.{valid_owner}
use sofa.State.Validate.{AttemptKey, validate}
use sofa.State.Facts.{validate-get, superseded_blocked}
use sofa.Engine.Outcome.{Error, Outcome, Clock, apply, put_attempt, require}
use sofa.Engine.Ownership.{
  Owned, check_owner, owned, assert_owner, is_settled, claim, claim_step, claim_found, claimed_by,
}
use sofa.Engine.Fences.{Holds, Holds-check_owner, check_owner-Holds, check_owner-cases, owned-get}

-- The fence that a claim returns.
abbrev pub fence_of : String → Owner → Attempt → Fence
fence_of id owner a = record {
  attempt_id = id;
  generation = next_int64 a.generation;
  owner = owner;
}

claim_found-ok :
    (clock : Clock) (id : String) (owner : Owner) (s : Ledger) (a : Attempt)
    → a.owner ≡ none
    → a.phase ≡ Phase.pending
    → claim_found clock id owner s a
      ≡ Outcome.changed (put_attempt id (claimed_by clock owner a) s) (fence_of id owner a)
unfolding claim_found
claim_found-ok clock id owner s a free p = ground (arith, phase_eq.test_iff a.phase Phase.pending)

claim_found-taken :
    (clock : Clock) (id : String) (owner : Owner) (s : Ledger) (a : Attempt)
    → (a.owner ≢ none) ⊎ (a.phase ≢ Phase.pending)
    → claim_found clock id owner s a ≡ Outcome.failed Error.claimed
unfolding claim_found
claim_found-taken clock id owner s a taken = ground (arith, phase_eq.test_iff a.phase Phase.pending)

claim_ok :
    (id : String) (owner : Owner) (clock : Clock) (s : Ledger) (a : Attempt)
    → valid_owner owner ≡ true
    → get id s.attempts ≡ some a
    → apply (claim id owner) clock s ≡ claim_found clock id owner s a
unfolding claim require
claim_ok id owner clock s a ok e = rw ok (rw (e, claim_step) refl)

claimed_by-Holds :
    (clock : Clock) (id : String) (owner : Owner) (a : Attempt)
    → is_zero a.superseded_at ≡ true
    → Holds (fence_of id owner a) (claimed_by clock owner a)
unfolding claimed_by
claimed_by-Holds clock id owner a z = record { live = z; owner = refl; generation = refl }

assert_held :
    (s : Ledger) (f : Fence) (a : Attempt)
    → owned s f ≡ Owned.held a
    → a.phase ≡ Phase.executing
    → assert_owner s f ≡ none
unfolding assert_owner is_settled phase_eq
assert_held s f a h p = rw h (rw p refl)

-- An attempt of a valid ledger without owner that is not superseded.
pending_live :
    (digest : AttemptKey → String) (s : Ledger) (id : String) (a : Attempt)
    → validate digest s ≡ true
    → get id s.attempts ≡ some a
    → a.phase ≡ Phase.pending
    → is_zero a.superseded_at ≡ true
pending_live digest s id a v e p = elim (Bool-cases (is_zero a.superseded_at)) [
  | inl z ↦ z
  | inr z ↦ cc (p, (superseded_blocked digest id a (validate-get digest s id a v e) z).0)
]

-- In a valid ledger a well-formed owner's claim on a pending attempt without owner is granted.
-- The ledger that it writes is the old one with that attempt executing under the caller, and in
-- it the returned fence holds the attempt and passes AssertOwner.
pub claim_grants :
    (digest : AttemptKey → String) (id : String) (owner : Owner) (clock : Clock) (s : Ledger)
    (a : Attempt)
    → validate digest s ≡ true
    → valid_owner owner ≡ true
    → get id s.attempts ≡ some a
    → a.owner ≡ none
    → a.phase ≡ Phase.pending
    → let b = claimed_by clock owner a in
      let t = put_attempt id b s in
      (apply (claim id owner) clock s ≡ Outcome.changed t (fence_of id owner a))
      × (owned t (fence_of id owner a) ≡ Owned.held b)
      × (assert_owner t (fence_of id owner a) ≡ none)
claim_grants digest id owner clock s a v ok e free p =
    let f = fence_of id owner a in
    let b = claimed_by clock owner a in
    let t = put_attempt id b s in
    let held : owned t f ≡ Owned.held b =
      owned-get digest t f b (get-put_self id b s.attempts)
      ∙ Holds-check_owner f b
          (claimed_by-Holds clock id owner a (pending_live digest s id a v e p)) in
    (
      claim_ok id owner clock s a ok e ∙ claim_found-ok clock id owner s a free p,
      held,
      assert_held t f b held (unfold claimed_by in refl),
    )

claim_found-changed :
    (clock : Clock) (id : String) (owner : Owner) (s : Ledger) (a : Attempt) {t : Ledger}
    {f : Fence}
    → claim_found clock id owner s a ≡ Outcome.changed t f
    → (a.owner ≡ none)
      × (a.phase ≡ Phase.pending)
      × (t ≡ put_attempt id (claimed_by clock owner a) s)
      × (f ≡ fence_of id owner a)
unfolding claim_found
claim_found-changed clock id owner s a h = ground (arith, phase_eq.test_iff a.phase Phase.pending)

-- A claim that was granted found a pending attempt without owner.
pub claim-changed :
    (id : String) (owner : Owner) (clock : Clock) (s : Ledger) {t : Ledger} {f : Fence}
    → apply (claim id owner) clock s ≡ Outcome.changed t f
    → (a : Attempt) × (get id s.attempts ≡ some a)
      × (a.owner ≡ none)
      × (a.phase ≡ Phase.pending)
      × (t ≡ put_attempt id (claimed_by clock owner a) s)
      × (f ≡ fence_of id owner a)
unfolding claim require
claim-changed id owner clock s {t} {f} h = elim (Bool-cases (valid_owner owner)) [
  | inr bad ↦ absurd (cc (rw bad at h))
  | inl ok ↦ elim (Option-cases (get id s.attempts)) [
    | inl e ↦ absurd (cc (rw (e, claim_step) at (rw ok at h)))
    | inr (a, e) ↦
        let (free, p, st, sf) =
          claim_found-changed clock id owner s a (rw (e, claim_step) at (rw ok at h)) in
        (a, e, free, p, st, sf)
  ]
]

claimed_by-owner :
    (clock : Clock) (owner : Owner) (a : Attempt) → (claimed_by clock owner a).owner ≢ none
unfolding claimed_by
claimed_by-owner clock owner a = λ e. cc e

-- After a granted claim the next one on the same attempt, by any well-formed owner and at any
-- time, fails with ErrClaimed, so that two deliveries of one job cannot both execute.
pub claim_twice :
    (id : String) (owner other : Owner) (clock later : Clock) (s : Ledger) {t : Ledger} {f : Fence}
    → apply (claim id owner) clock s ≡ Outcome.changed t f
    → valid_owner other ≡ true
    → apply (claim id other) later t ≡ Outcome.failed Error.claimed
claim_twice id owner other clock later s {t} h ok =
    let (a, e, free, p, st, _) = claim-changed id owner clock s h in
    let b = claimed_by clock owner a in
    let found : get id t.attempts ≡ some b =
      ap (λ (x : Ledger). get id x.attempts) st ∙ get-put_self id b s.attempts in
    claim_ok id other later t b ok found
    ∙ claim_found-taken later id other t b (inl (claimed_by-owner clock owner a))

-- The fence of a granted claim holds the attempt in the ledger that the claim writes.
pub granted_held :
    (digest : AttemptKey → String) (id : String) (owner : Owner) (clock : Clock) (s : Ledger)
    {t : Ledger} {f : Fence}
    → validate digest s ≡ true
    → apply (claim id owner) clock s ≡ Outcome.changed t f
    → (b : Attempt) × (owned t f ≡ Owned.held b)
      × (get id t.attempts ≡ some b)
      × (f.attempt_id ≡ id)
      × (b.generation ≡ f.generation)
granted_held digest id owner clock s v h =
    let (a, e, free, p, st, sf) = claim-changed id owner clock s h in
    let f = fence_of id owner a in
    let b = claimed_by clock owner a in
    let found = get-put_self id b s.attempts in
    (
      b,
      rw (st, sf)
          (owned-get digest (put_attempt id b s) f b found
            ∙ Holds-check_owner f b
                (claimed_by-Holds clock id owner a (pending_live digest s id a v e p))),
      rw st found,
      rw sf refl,
      rw sf (unfold claimed_by in refl),
    )

pub ownerless_stale :
    (f : Fence) (a : Attempt) → a.owner ≡ none → check_owner f a ≡ Owned.lost Error.stale
ownerless_stale f a free = elim (check_owner-cases f a) [
  | inl held ↦ absurd (cc (check_owner-Holds f a a held).owner)
  | inr e ↦ e
]
