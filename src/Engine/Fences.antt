-- ===== src/Engine/Fences.antt =====
-- The ownership fence: what it needs of an attempt, and what the steps of an attempt leave of it.
use sofa.Base.{
  ◌<◌, String, ◌≡◌, sym, ◌∙◌, ◌⊎◌, inl, inr, true, some, none, arith, option_test_iff, some_inj, ap,
}
use sofa.Base.Int.{
  ℤ, pos, negsuc, pos_part, neg_part, int64_bound, ◌≤ℤ◌, ◌<ℤ◌, leb_ℤ, int_test_iff, next_int64,
  add_int64,
}
use sofa.Base.Map.{get}
use sofa.State.Clock.{is_zero}
use sofa.State.Records.{Fence, Attempt, Ledger}
use sofa.State.Same.{owner_eq, phase_eq}
use sofa.State.Validate.{AttemptKey, attempt_valid, attempt_metadata, validate}
use sofa.State.Facts.{attempt_valid-parts, validate-get}
use sofa.Engine.Outcome.{Error}
use sofa.Engine.Ownership.{Owned, check_owner, owned}
use sofa.Engine.Calls.{owned-held}
use sofa.Engine.Changes.{FenceStep}

-- What a fence needs of an attempt.
pub record Holds (f : Fence) (a : Attempt) : Type 0 where
  pub live : is_zero a.superseded_at ≡ true
  pub owner : a.owner ≡ some f.owner
  pub generation : a.generation ≡ f.generation

pub check_owner-Holds : (f : Fence) (a b : Attempt) → check_owner f a ≡ Owned.held b → Holds f a
unfolding check_owner
check_owner-Holds f a b h =
    ground (
      arith,
      option_test_iff owner_eq a.owner (some f.owner),
      int_test_iff a.generation f.generation,
    )

pub Holds-check_owner : (f : Fence) (a : Attempt) → Holds f a → check_owner f a ≡ Owned.held a
unfolding check_owner
Holds-check_owner f a h =
    ground (
      arith,
      option_test_iff owner_eq a.owner (some f.owner),
      int_test_iff a.generation f.generation,
    )

-- Without it the answer is ErrStale.
pub check_owner-cases :
    (f : Fence) (a : Attempt)
    → (check_owner f a ≡ Owned.held a) ⊎ (check_owner f a ≡ Owned.lost Error.stale)
unfolding check_owner
check_owner-cases f a = ground arith

-- In one ledger at most one fence holds an attempt.
pub owned_unique :
    (s : Ledger) (f g : Fence) (a b : Attempt)
    → f.attempt_id ≡ g.attempt_id
    → owned s f ≡ Owned.held a
    → owned s g ≡ Owned.held b
    → f ≡ g
owned_unique s f g a b e hf hg =
    let (ff, cf) = owned-held s f a hf in
    let (fg, cg) = owned-held s g b hg in
    let ab : a ≡ b = some_inj (sym ff ∙ ap (λ x. get x s.attempts) e ∙ fg) in
    let x = check_owner-Holds f a a cf in
    let y = check_owner-Holds g b b cg in
    same (some_inj (sym x.owner ∙ ap Attempt.owner ab ∙ y.owner))
      (sym x.generation ∙ ap Attempt.generation ab ∙ y.generation)
  where
    same : f.owner ≡ g.owner → f.generation ≡ g.generation → f ≡ g
    same o n = λ i. record { attempt_id = e i; generation = n i; owner = o i }

-- The fence is of this generation of the attempt or of an earlier one.
pub record Issued (f : Fence) (a : Attempt) : Type 0 where
  pub reached : f.generation ≤ℤ a.generation
  pub fits : pos_part a.generation < int64_bound

-- `generation++` of an int64 that comes out nonnegative did not wrap.
pub next_int64-exact :
    (g : ℤ)
    → leb_ℤ (pos 0) g ≡ true
    → pos_part g < int64_bound
    → leb_ℤ (pos 0) (next_int64 g) ≡ true
    → (g <ℤ next_int64 g) × (pos_part (next_int64 g) < int64_bound)
unfolding add_int64
next_int64-exact (pos n) h fit v = ground arith
next_int64-exact (negsuc n) h fit v = ground arith

generation_nonneg :
    (digest : AttemptKey → String) (id : String) (a : Attempt)
    → attempt_valid digest id a ≡ true
    → leb_ℤ (pos 0) a.generation ≡ true
unfolding attempt_metadata
generation_nonneg digest id a h = ground (arith, attempt_valid-parts digest id a)

-- A fence that an attempt has passed or refuses.
abbrev pub Refused : Fence → Attempt → Type 0
Refused f a = Issued f a × (check_owner f a ≡ Owned.lost Error.stale)

module _ (digest : AttemptKey → String) where
  -- A step either keeps the generation, or moves past every fence issued so far.
  step_advances :
      (a b : Attempt) (id : String)
      → attempt_valid digest id a ≡ true
      → attempt_valid digest id b ≡ true
      → pos_part a.generation < int64_bound
      → FenceStep a b
      → ((b.generation ≡ a.generation) × ((b.owner ≡ a.owner) ⊎ (b.owner ≡ none)))
        ⊎ ((a.generation <ℤ b.generation) × (pos_part b.generation < int64_bound))
  step_advances a b id va vb fit (_, moved) = elim moved [
    | inl kept ↦ inl kept
    | inr e ↦
        let up =
          next_int64-exact a.generation (generation_nonneg digest id a va) fit
            (rw e at (generation_nonneg digest id b vb)) in
        inr (rw e up)
  ]

  pub Issued-step :
      (f : Fence) (a b : Attempt) (id : String)
      → attempt_valid digest id a ≡ true
      → attempt_valid digest id b ≡ true
      → FenceStep a b
      → Issued f a
      → Issued f b
  Issued-step f a b id va vb step i = elim (step_advances a b id va vb i.fits step) [
    | inl (g, _) ↦ record { reached = rw g i.reached; fits = rw g i.fits }
    | inr (up, fit) ↦ record { reached = omega arith; fits = fit }
  ]

  -- In a later generation the fence is stale.
  passed_stale :
      (f : Fence) (b : Attempt)
      → f.generation <ℤ b.generation
      → check_owner f b ≡ Owned.lost Error.stale
  passed_stale f b up = elim (check_owner-cases f b) [
    | inl h ↦ absurd (
        omega (
          arith,
          ap pos_part (check_owner-Holds f b b h).generation,
          ap neg_part (check_owner-Holds f b b h).generation,
        ))
    | inr e ↦ e
  ]

  -- A step that keeps the generation gives no refused fence the attempt.
  kept_stale :
      (f : Fence) (a b : Attempt)
      → FenceStep a b
      → b.generation ≡ a.generation
      → (b.owner ≡ a.owner) ⊎ (b.owner ≡ none)
      → check_owner f a ≡ Owned.lost Error.stale
      → check_owner f b ≡ Owned.lost Error.stale
  kept_stale f a b (live, _) g o lost = elim (check_owner-cases f b) [
    | inr e ↦ e
    | inl h ↦
        let x = check_owner-Holds f b b h in
        elim o [
          | inr gone ↦ absurd (cc (gone, x.owner))
          | inl same ↦ cc (
            lost,
            Holds-check_owner f a (record {
              live = live x.live;
              owner = sym same ∙ x.owner;
              generation = sym g ∙ x.generation;
            }),
          )
        ]
  ]

  pub Refused-step :
      (f : Fence) (a b : Attempt) (id : String)
      → attempt_valid digest id a ≡ true
      → attempt_valid digest id b ≡ true
      → FenceStep a b
      → Refused f a
      → Refused f b
  Refused-step f a b id va vb step (i, lost) = (
    Issued-step f a b id va vb step i,
    elim (step_advances a b id va vb i.fits step) [
      | inl (g, o) ↦ kept_stale f a b step g o lost
      | inr (up, _) ↦ passed_stale f b (omega (arith, i.reached))
    ],
  )

  pub owned-get :
      (s : Ledger) (f : Fence) (a : Attempt)
      → get f.attempt_id s.attempts ≡ some a
      → owned s f ≡ check_owner f a
  unfolding owned
  owned-get s f a e = rw (e, owned)

  -- The steps of a run see valid attempts on both sides of a change.
  pub valid_at :
      (s : Ledger) (id : String) (a : Attempt)
      → validate digest s ≡ true
      → get id s.attempts ≡ some a
      → attempt_valid digest id a ≡ true
  valid_at s id a v e = validate-get digest s id a v e

  pub held-Issued :
      (s : Ledger) (f : Fence) (a : Attempt)
      → owned s f ≡ Owned.held a
      → pos_part a.generation < int64_bound
      → Issued f a
  held-Issued s f a h fit =
      let x = check_owner-Holds f a a (owned-held s f a h).1 in
      record { reached = rw (x.generation) (omega arith); fits = fit }
