-- ===== src/Engine/Changes.antt =====
-- What each change of an attempt keeps, and how it moves generation, phase and counters.
use sofa.Base.{
  String, ◌≡◌, refl, sym, ◌∙◌, ap, ◌⊎◌, inl, inr, true, some, none, arith, eq_iff, Bool-cases,
  some_inj, ◌==◌, string_eq,
}
use mathlib.Core.Path.{subst}
use sofa.Base.Map.{get, get-put}
use sofa.State.Clock.{is_zero}
use sofa.Base.Int.{next_int64}
use sofa.State.Records.{Attempt, Ledger}
use sofa.State.Same.{phase_eq, attempt_eq, owner_eq, checkpoint_eq, publication_eq}
use sofa.Engine.Outcome.{Clock, Edit}
use sofa.Engine.Ownership.{mark_dispatched_edit, claimed_by, stamp}
use sofa.Engine.Work.{charge_edit, advance_edit, save_checkpoint_edit, discard_edit}
use sofa.Engine.Publish.{begin_publication_edit, mark_published_edit, fail_edit}
use sofa.Engine.Recovery.{
  recovered, recover_edit, stopped, stop_owner_edit, revoked, stop_pending_edit,
}
use sofa.Engine.Calls.{Work, Change, Written, wrote, noted, mutation}

-- The authorization that an attempt was admitted with.
pub record SameAuthority (a b : Attempt) : Type 0 where
  pub id : b.id ≡ a.id
  pub admission : b.admission ≡ a.admission
  pub spec_revision : b.spec_revision ≡ a.spec_revision
  pub limits : b.limits ≡ a.limits
  pub created_at : b.created_at ≡ a.created_at
  pub superseded_at : b.superseded_at ≡ a.superseded_at
  pub superseded_source_digest : b.superseded_source_digest ≡ a.superseded_source_digest

mutation-SameAuthority :
    (w : Work) (clock : Clock) (a b : Attempt)
    → stamp clock a (mutation w a) ≡ Edit.write b
    → SameAuthority a b
unfolding stamp charge_edit advance_edit save_checkpoint_edit begin_publication_edit
    mark_published_edit fail_edit
mutation-SameAuthority (Work.charges delta) clock a b h = ground arith
mutation-SameAuthority (Work.advances p) clock a b h = ground arith
mutation-SameAuthority (Work.saves c) clock a b h = ground arith
mutation-SameAuthority (Work.begins p) clock a b h = ground arith
mutation-SameAuthority (Work.publishes p) clock a b h = ground arith
mutation-SameAuthority (Work.fails kind) clock a b h = ground arith

-- None of these changes touches the authorization.
pub Change-SameAuthority : {a b : Attempt} → Change a b → SameAuthority a b
unfolding mark_dispatched_edit claimed_by discard_edit recover_edit recovered stop_owner_edit
    stopped stop_pending_edit revoked
Change-SameAuthority (Change.dispatched clock e) = ground arith
Change-SameAuthority (Change.claimed clock owner _ _) = ground arith
Change-SameAuthority {a} {b} (Change.worked clock f w _ e) = mutation-SameAuthority w clock a b e
Change-SameAuthority (Change.discarded c clock e) = ground arith
Change-SameAuthority (Change.recovered p clock e) = ground arith
Change-SameAuthority (Change.stopped p kind clock e) = ground arith
Change-SameAuthority (Change.revoked x clock e) = ground arith

-- The owner is the same in one generation; another owner, or none, is of the next.
abbrev pub KeepsGeneration : Attempt → Attempt → Type 0
KeepsGeneration a b =
    (b.generation ≡ a.generation) × (b.owner ≡ a.owner) ⊎ (b.generation ≡ next_int64 a.generation)

mutation-KeepsGeneration :
    (w : Work) (clock : Clock) (a b : Attempt)
    → stamp clock a (mutation w a) ≡ Edit.write b
    → (b.generation ≡ a.generation) × (b.owner ≡ a.owner)
unfolding stamp charge_edit advance_edit save_checkpoint_edit begin_publication_edit
    mark_published_edit fail_edit
mutation-KeepsGeneration (Work.charges delta) clock a b h = ground arith
mutation-KeepsGeneration (Work.advances p) clock a b h = ground arith
mutation-KeepsGeneration (Work.saves c) clock a b h = ground arith
mutation-KeepsGeneration (Work.begins p) clock a b h = ground arith
mutation-KeepsGeneration (Work.publishes p) clock a b h = ground arith
mutation-KeepsGeneration (Work.fails kind) clock a b h = ground arith

pub Change-KeepsGeneration : {a b : Attempt} → Change a b → KeepsGeneration a b
unfolding mark_dispatched_edit claimed_by discard_edit recover_edit recovered stop_owner_edit
    stopped stop_pending_edit revoked
Change-KeepsGeneration (Change.dispatched clock e) = ground arith
Change-KeepsGeneration (Change.claimed clock owner _ _) = ground arith
Change-KeepsGeneration {a} {b} (Change.worked clock f w _ e) =
    inl (mutation-KeepsGeneration w clock a b e)
Change-KeepsGeneration (Change.discarded c clock e) = ground arith
Change-KeepsGeneration (Change.recovered p clock e) = ground arith
Change-KeepsGeneration (Change.stopped p kind clock e) = ground arith
Change-KeepsGeneration (Change.revoked x clock e) = ground arith

-- What the ownership fence needs of a step: a live attempt was live before, and in one generation
-- the owner stays or goes.
abbrev pub FenceStep : Attempt → Attempt → Type 0
FenceStep a b =
    (is_zero b.superseded_at ≡ true → is_zero a.superseded_at ≡ true)
    × ((b.generation ≡ a.generation) × ((b.owner ≡ a.owner) ⊎ (b.owner ≡ none))
        ⊎ (b.generation ≡ next_int64 a.generation))

pub Change-FenceStep : (a b : Attempt) → Change a b → FenceStep a b
Change-FenceStep a b change =
    let kept = (Change-SameAuthority change).superseded_at in
    (
      λ live. rw kept at live,
      elim (Change-KeepsGeneration change) [ inl (g, o) ↦ inl (g, inl o) | inr next ↦ inr next ],
    )

-- One attempt after a commit: as it was, or changed.
pub Written-get :
    {s t : Ledger} (id : String) (a : Attempt)
    → Written s t
    → get id s.attempts ≡ some a
    → (b : Attempt) × (get id t.attempts ≡ some b) × ((b ≡ a) ⊎ Change a b)
Written-get {s} id a (wrote j {a = c} {b} found change) e = elim (Bool-cases (j == id)) [
  | inl same ↦
      let k : j ≡ id = (eq_iff j id).0 same in
      let ca : c ≡ a = some_inj (sym found ∙ ap (λ x. get x s.attempts) k ∙ e) in
      (b, get-put j id b s.attempts ∙ rw same refl, inr (subst (λ x. Change x b) ca change))
  | inr other ↦ (a, get-put j id b s.attempts ∙ rw other e, inl refl)
]
Written-get id a (noted same) e = (a, rw same e, inl refl)
