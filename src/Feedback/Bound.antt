-- ===== src/Feedback/Bound.antt =====
-- internal/review/review.go: what a decision on an owner's feedback rests on.
use sofa.Base.{
  ◌≡◌, refl, sym, ◌∙◌, ap, inl, inr, String, Bool, true, false, not, Option, none, some, List, ◌||◌,
  ◌==◌, string_eq, if◌then◌else◌, Bool-cases, some_inj,
}
use sofa.State.Records.{Publication, RepairIntent, Attempt}
use sofa.Release.Pulls.{PullSnapshot}
use sofa.Feedback.Reviews.{PullReview, PullReviewComment, feedback_text}
use sofa.Feedback.Evaluate.{
  Decision, pull_open, owner_asks, reservation_open, decides_reserved, decision_of, decided_text,
  evaluate_feedback, evaluate_reserved_from, evaluate_reserved, only_reserved,
}

passed_guard :
    {A : Type 0} (b : Bool) (x : Option A) {y : A}
    → (if not b then none else x) ≡ some y
    → (b ≡ true) × (x ≡ some y)
passed_guard true x h = (refl, h)
passed_guard false x h = absurd (cc h)

module _ (sorted : List PullReviewComment → List PullReviewComment)
    (encode : String → List PullReviewComment → Option String) (sha256_hex : String → String) where
  -- A decision on the open published pull request and the owner's current change request.
  pub record OwnerFeedback (a : Attempt) (p : Publication) (pull : PullSnapshot) (r : PullReview)
      (owner_id : String) (d : Decision) : Type 0 where
    pub open_pull : pull_open a p pull ≡ true
    pub asked : owner_asks owner_id pull r ≡ true
    pub text : String
    pub read : feedback_text sorted encode r ≡ some text
    pub decided : d ≡ decision_of sorted encode sha256_hex a pull r text

  decided_text-some :
      (a : Attempt) (pull : PullSnapshot) (r : PullReview) (o : Option String) (d : Decision)
      → decided_text sorted encode sha256_hex a pull r o ≡ some d
      → (t : String) × (o ≡ some t) × (d ≡ decision_of sorted encode sha256_hex a pull r t)
  unfolding decided_text
  decided_text-some a pull r none d h = absurd (cc h)
  decided_text-some a pull r (some t) d h = (t, refl, sym (some_inj h))

  evaluate_feedback-OwnerFeedback :
      (a : Attempt) (p : Publication) (pull : PullSnapshot) (r : PullReview) (owner_id : String)
      (d : Decision)
      → evaluate_feedback sorted encode sha256_hex a p pull r owner_id ≡ some d
      → OwnerFeedback a p pull r owner_id d
  unfolding evaluate_feedback
  evaluate_feedback-OwnerFeedback a p pull r owner_id d h =
      let (opened, rest) = passed_guard (pull_open a p pull) _ h in
      let (asked, last) = passed_guard (owner_asks owner_id pull r) _ rest in
      let (t, read, decided) = decided_text-some a pull r (feedback_text sorted encode r) d last in
      record { open_pull = opened; asked = asked; text = t; read = read; decided = decided }

  only_reserved-some :
      (i : RepairIntent) (o : Option Decision) (d : Decision)
      → only_reserved sorted encode sha256_hex i o ≡ some d
      → (o ≡ some d) × (decides_reserved i d ≡ true)
  unfolding only_reserved
  only_reserved-some i none d h = absurd (cc h)
  only_reserved-some i (some e) d h = elim (Bool-cases (decides_reserved i e)) [
    | inr other ↦ absurd (cc (rw (other, only_reserved) at h))
    | inl same ↦
        let ed = some_inj (rw (same, only_reserved) at h) in
        (ap some ed, ap (decides_reserved i) (sym ed) ∙ same)
  ]

  reserved_from-Bound :
      (a : Attempt) (pull : PullSnapshot) (r : PullReview) (owner_id : String) (i : RepairIntent)
      (p : Publication) (d : Decision)
      → evaluate_reserved_from sorted encode sha256_hex a pull r owner_id (some i) (some p) ≡ some d
      → (reservation_open a ≡ true)
        × ((not (i.candidate_sha == "") || not (i.candidate_digest == "")) ≡ false)
        × (decides_reserved i d ≡ true)
        × OwnerFeedback a p pull r owner_id d
  unfolding evaluate_reserved_from
  reserved_from-Bound a pull r owner_id i p d h =
      let prepared = not (i.candidate_sha == "") || not (i.candidate_digest == "") in
      let (opened, rest) = passed_guard (reservation_open a) _ h in
      elim (Bool-cases prepared) [
        | inl b ↦ absurd (cc (rw b at rest))
        | inr fresh ↦
            let (found, same) =
              only_reserved-some i (evaluate_feedback sorted encode sha256_hex a p pull r owner_id)
                d (rw fresh at rest) in
            (opened, fresh, same, evaluate_feedback-OwnerFeedback a p pull r owner_id d found)
      ]

  -- Where EvaluateReserved gives a decision, the attempt has a repair and a publication, its
  -- reservation is open and its candidate not prepared, the decision is of exactly the reserved
  -- feedback, hash, pull request, head and base, and it was computed from the owner's current
  -- change request on the open published pull request. So later feedback cannot replace the
  -- reserved one.
  pub evaluate_reserved-Bound :
      (a : Attempt) (pull : PullSnapshot) (r : PullReview) (owner_id : String) (d : Decision)
      → evaluate_reserved sorted encode sha256_hex a pull r owner_id ≡ some d
      → (i : RepairIntent) × (p : Publication) × (a.repair ≡ some i)
        × (a.publication ≡ some p)
        × (reservation_open a ≡ true)
        × ((not (i.candidate_sha == "") || not (i.candidate_digest == "")) ≡ false)
        × (decides_reserved i d ≡ true)
        × OwnerFeedback a p pull r owner_id d
  unfolding evaluate_reserved evaluate_reserved_from
  evaluate_reserved-Bound a pull r owner_id d h = go a.repair refl a.publication refl
    where
      given :
          (o : Option RepairIntent) (q : Option Publication)
          → a.repair ≡ o
          → a.publication ≡ q
          → evaluate_reserved_from sorted encode sha256_hex a pull r owner_id o q ≡ some d
      given o q e f =
          (λ k.
            evaluate_reserved_from sorted encode sha256_hex a pull r owner_id (sym e k) (sym f k))
          ∙ h

      go :
          (o : Option RepairIntent)
          → a.repair ≡ o
          → (q : Option Publication) → a.publication ≡ q
          → (i : RepairIntent) × (p : Publication) × (a.repair ≡ some i)
            × (a.publication ≡ some p)
            × (reservation_open a ≡ true)
            × ((not (i.candidate_sha == "") || not (i.candidate_digest == "")) ≡ false)
            × (decides_reserved i d ≡ true)
            × OwnerFeedback a p pull r owner_id d
      go none e q f = absurd (cc (given none q e f))
      go (some i) e none f = absurd (cc (given (some i) none e f))
      go (some i) e (some p) f =
          let (opened, fresh, same, feedback) =
            reserved_from-Bound a pull r owner_id i p d (given (some i) (some p) e f) in
          (i, p, e, f, opened, fresh, same, feedback)
