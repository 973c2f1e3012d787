-- ===== src/Scans/Uniqueness.antt =====
-- internal/state/current.go: the attempt chosen for an issue is the only one that could be.
use sofa.Base.{
  ℕ, suc, String, ◌≡◌, refl, true, false, none, some, [], ◌∷◌, arith, Bool-cases, inl, inr,
  if◌then◌else◌, Option-cases, ◌==◌, string_eq,
}
use sofa.Base.Map.{Map, get}
use sofa.State.Records.{Attempt, SpecRecord, Ledger}
use sofa.Scans.Current.{Current, concerns, approved_for, current_from, current_attempt_for_issue}

-- How many entries the loop does not skip.
unfoldable pub concerned : SpecRecord → Map Attempt → ℕ
concerned r [] = 0
concerned r ((id, a) ∷ m) = if concerns r a then suc (concerned r m) else concerned r m

current_from-found :
    (r : SpecRecord) (a b : Attempt) (m : Map Attempt)
    → current_from r (some b) m ≡ Current.current a
    → (a ≡ b) × (concerned r m ≡ 0)
unfolding current_from concerned
current_from-found r a b [] h = (cc h, refl)
current_from-found r a b ((id, x) ∷ m) h = ground (arith, current_from-found r a b m)

current_from-none :
    (r : SpecRecord) (a : Attempt) (m : Map Attempt)
    → current_from r none m ≡ Current.current a
    → (concerns r a ≡ true) × (approved_for r a ≡ true) × (concerned r m ≡ 1)
unfolding current_from concerned
current_from-none r a [] h = absurd (cc h)
current_from-none r a ((id, x) ∷ m) h = elim (Bool-cases (concerns r x)) [
  | inr skipped ↦ rw skipped (current_from-none r a m (rw (skipped, current_from) at h))
  | inl kept ↦ elim (Bool-cases (approved_for r x)) [
    | inr bad ↦ absurd (cc (rw (kept, bad) at h))
    | inl good ↦
        let (same, rest) = current_from-found r a x m (rw (kept, good) at h) in
        rw (kept, same, rest) (kept, good, refl)
  ]
]

-- When `CurrentAttemptForIssue` returns an attempt, the issue has a record with an approval, the
-- attempt is live, of that issue and admitted for exactly the approved revision, and no other
-- attempt in the ledger is live and of that issue.
pub current_unique :
    (s : Ledger) (issue : String) (a : Attempt)
    → current_attempt_for_issue s issue ≡ Current.current a
    → (r : SpecRecord) × (get issue s.specs ≡ some r)
      × ((r.approved_digest == "") ≡ false)
      × (concerns r a ≡ true)
      × (approved_for r a ≡ true)
      × (concerned r s.attempts ≡ 1)
unfolding current_attempt_for_issue
current_unique s issue a h = elim (Option-cases (get issue s.specs)) [
  | inl e ↦ absurd (cc (rw (e, current_attempt_for_issue) at h))
  | inr (r, e) ↦ elim (Bool-cases (r.approved_digest == "")) [
    | inl bare ↦ absurd (cc (rw bare at (rw (e, current_attempt_for_issue) at h)))
    | inr approved ↦
        let (kept, good, one) =
          current_from-none r a s.attempts
            (rw approved at (rw (e, current_attempt_for_issue) at h)) in
        (r, e, approved, kept, good, one)
  ]
]
