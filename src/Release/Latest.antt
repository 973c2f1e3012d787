-- ===== src/Release/Latest.antt =====
-- internal/release/release.go: the check that evaluateChecks reads for a requirement.
use mathlib.Core.List.{Memᴰ}
use sofa.Base.{
  ◌≡◌, refl, sym, ◌∙◌, inl, inr, ◌⊎◌, true, false, none, some, List, [], ◌∷◌, arith, Bool-cases,
  some_inj, nat_eq,
}
use mathlib.Core.Path.{subst}
use sofa.Release.Pulls.{CommitCheck}
use sofa.Release.Checks.{RequiredCheck, check_for, later_than, latest_of, latest_from}

later_than_self : (c : CommitCheck) → later_than c c ≡ false
unfolding later_than
later_than_self c = ground arith

later_than_trans :
    (c d e : CommitCheck) → later_than c d ≡ false → later_than d e ≡ false → later_than c e ≡ false
unfolding later_than
later_than_trans c d e h k = ground arith

later_than-asym : (c d : CommitCheck) → later_than c d ≡ true → later_than d c ≡ false
unfolding later_than
later_than-asym c d h = ground arith

-- What one more check does to the latest so far.
latest_of-keeps :
    (r : RequiredCheck) (d c : CommitCheck)
    → (b : CommitCheck) × (latest_of r (some d) c ≡ some b)
      × (later_than d b ≡ false)
      × ((check_for r c ≡ true) → later_than c b ≡ false)
      × ((b ≡ d) ⊎ ((b ≡ c) × (check_for r c ≡ true)))
unfolding latest_of
latest_of-keeps r d c = elim (Bool-cases (check_for r c)) [
  | inr other ↦ (d, rw other refl, later_than_self d, λ h. absurd (cc (h, other)), inl refl)
  | inl fits ↦ elim (Bool-cases (later_than c d)) [
    | inl later ↦ (
      c,
      rw (fits, later) refl,
      later_than-asym c d later,
      λ _. later_than_self c,
      inr (refl, fits),
    )
    | inr earlier ↦ (d, rw (fits, earlier) refl, later_than_self d, λ _. earlier, inl refl)
  ]
]

-- The check found from `d` on: `d` or a later one, that no check of the list for the requirement
-- comes after.
record LatestFrom (r : RequiredCheck) (d : CommitCheck) (checks : List CommitCheck)
    (c : CommitCheck) : Type 0 where
  above : later_than d c ≡ false
  newest : (x : CommitCheck) → Memᴰ x checks → check_for r x ≡ true → later_than x c ≡ false
  origin : (c ≡ d) ⊎ (Memᴰ c checks × (check_for r c ≡ true))

latest_from-LatestFrom :
    (r : RequiredCheck) (d : CommitCheck) (checks : List CommitCheck)
    → (c : CommitCheck) × (latest_from r (some d) checks ≡ some c) × LatestFrom r d checks c
unfolding latest_from
latest_from-LatestFrom r d [] = (
  d,
  refl,
  record { above = later_than_self d; newest = λ x m. absurd (elim m [ ]); origin = inl refl },
)
latest_from-LatestFrom r d (y ∷ checks) =
    let (b, e, up, fit, from) = latest_of-keeps r d y in
    let (c, f, l) = latest_from-LatestFrom r b checks in
    (
      c,
      rw e f,
      record {
        above = later_than_trans d b c up l.above;
        newest = λ x m h. elim m [
          | Memᴰ.head same ↦
              later_than_trans x b c
                (subst (λ z. later_than z b ≡ false) (sym same)
                  (fit (subst (λ z. check_for r z ≡ true) same h)))
                l.above
          | Memᴰ.tail rest ↦ l.newest x rest h
        ];
        origin = elim l.origin [
          | inr (m, h) ↦ inr (Memᴰ.tail m, h)
          | inl same ↦ elim from [
            | inl first ↦ inl (same ∙ first)
            | inr (second, h) ↦ inr (
              Memᴰ.head (same ∙ second),
              subst (λ z. check_for r z ≡ true) (sym (same ∙ second)) h,
            )
          ]
        ];
      },
    )

-- The check of a requirement: one of the list for it, and none of those comes later.
pub record IsLatest (r : RequiredCheck) (checks : List CommitCheck) (c : CommitCheck) : Type 0 where
  pub member : Memᴰ c checks
  pub fits : check_for r c ≡ true
  pub newest : (x : CommitCheck) → Memᴰ x checks → check_for r x ≡ true → later_than x c ≡ false

pub latest_from-IsLatest :
    (r : RequiredCheck) (checks : List CommitCheck) (c : CommitCheck)
    → latest_from r none checks ≡ some c
    → IsLatest r checks c
unfolding latest_from latest_of
latest_from-IsLatest r [] c h = absurd (cc h)
latest_from-IsLatest r (y ∷ checks) c h = elim (Bool-cases (check_for r y)) [
  | inr other ↦
      let l = latest_from-IsLatest r checks c (rw (other, latest_from) at h) in
      record {
        member = Memᴰ.tail l.member;
        fits = l.fits;
        newest = λ x m g. elim m [
          | Memᴰ.head same ↦ absurd (cc (subst (λ z. check_for r z ≡ true) same g, other))
          | Memᴰ.tail rest ↦ l.newest x rest g
        ];
      }
  | inl fits ↦
      let (b, e, l) = latest_from-LatestFrom r y checks in
      let bc : b ≡ c = some_inj (sym e ∙ (rw (fits, latest_from) at h)) in
      subst (IsLatest r (y ∷ checks)) bc (record {
        member = elim l.origin [ inl same ↦ Memᴰ.head same | inr (m, _) ↦ Memᴰ.tail m ];
        fits = elim l.origin [
          | inl same ↦ subst (λ z. check_for r z ≡ true) (sym same) fits
          | inr (_, g) ↦ g
        ];
        newest = λ x m g. elim m [
          | Memᴰ.head same ↦ subst (λ z. later_than z b ≡ false) (sym same) l.above
          | Memᴰ.tail rest ↦ l.newest x rest g
        ];
      })
]
