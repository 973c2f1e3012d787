-- ===== src/Release/Done.antt =====
-- internal/release/release.go: what an outcome "done" rests on.
use mathlib.Core.List.{Memᴰ}
use mathlib.Core.Path.{subst}
use sofa.Base.{
  ◌≡◌, ◌≢◌, refl, sym, ◌∙◌, ap, inl, inr, Bool, true, false, not, Option, none, some, List, [], ◌∷◌,
  arith, Bool-cases, some_inj, ◌&&◌, ◌==◌, String, string_eq, eq_iff, ltb, length,
}
use sofa.Base.Int.{ltb_ℤ, pos, int_eq}
use sofa.State.Clock.{Time}
use sofa.State.Records.{Attempt, Publication}
use sofa.Lifecycle.Gates.{commit_pattern}
use sofa.Release.Pulls.{PullSnapshot, CommitCheck}
use sofa.Release.Checks.{
  RequiredCheck, CheckState, latest_from, state_of, outcome_of, after_check, requirement_valid,
  evaluate_from, evaluate_checks,
}
use sofa.Release.Evaluate.{
  Decision, in_review, merged_kind, decided, pull_matches, with_event, evented, evaluate_pull,
  evaluate_published, evaluate,
}
use sofa.Release.Latest.{IsLatest, latest_from-IsLatest}

-- The latest check of every requirement succeeded.
unfoldable pub AllSucceeded : List RequiredCheck → List CommitCheck → Type 0
AllSucceeded required checks =
    (r : RequiredCheck)
    → Memᴰ r required
    → (c : CommitCheck) × IsLatest r checks c × (c.state ≡ "success")

outcome_of-done :
    (blocked failed : Bool)
    → outcome_of blocked failed ≡ "done"
    → (blocked ≡ false) × (failed ≡ false)
unfolding outcome_of
outcome_of-done blocked failed h =
    ground (arith, eq_iff "release-failed" "done", eq_iff "release-blocked" "done")

state_of-success :
    (o : Option CommitCheck)
    → state_of o ≡ CheckState.is_success
    → (c : CommitCheck) × (o ≡ some c) × (c.state ≡ "success")
unfolding state_of
state_of-success none h = absurd (cc h)
state_of-success (some c) h = (c, refl, ground (arith, eq_iff c.state "success"))

after_check-done :
    (next : Bool → Bool → Option String) (blocked failed : Bool) (k : CheckState)
    → ((b f : Bool) → next b f ≡ some "done" → (b ≡ false) × (f ≡ false))
    → after_check next blocked failed k ≡ some "done"
    → (k ≡ CheckState.is_success) × (next blocked failed ≡ some "done")
unfolding after_check
after_check-done next blocked failed CheckState.is_success later h = (refl, h)
after_check-done next blocked failed CheckState.is_blocked later h =
    absurd (cc ((later true failed h).0))
after_check-done next blocked failed CheckState.is_failure later h =
    absurd (cc ((later blocked true h).1))

evaluate_from-done :
    (checks : List CommitCheck) (seen required : List RequiredCheck) (blocked failed : Bool)
    → evaluate_from checks seen required blocked failed ≡ some "done"
    → (blocked ≡ false) × (failed ≡ false) × AllSucceeded required checks
unfolding evaluate_from AllSucceeded
evaluate_from-done checks seen [] blocked failed h =
    let (b, f) = outcome_of-done blocked failed (some_inj h) in (b, f, λ r m. absurd (elim m [ ]))
evaluate_from-done checks seen (r ∷ required) blocked failed h =
    elim (Bool-cases (requirement_valid seen r)) [
      | inr bad ↦ absurd (cc (rw (bad, evaluate_from) at h))
      | inl good ↦
          let rest = evaluate_from checks (r ∷ seen) required in
          let latest = latest_from r none checks in
          let (passed, later) =
            after_check-done rest blocked failed (state_of latest)
              (λ b f e.
                let (x, y, _) = evaluate_from-done checks (r ∷ seen) required b f e in (x, y))
              (rw (good, evaluate_from) at h) in
          let (b, f, others) = evaluate_from-done checks (r ∷ seen) required blocked failed later in
          let (c, found, success) = state_of-success latest passed in
          (
            b,
            f,
            λ q m. elim m [
              | Memᴰ.head same ↦
                  subst (λ z. (x : CommitCheck) × IsLatest z checks x × (x.state ≡ "success"))
                    (sym same) (c, latest_from-IsLatest r checks c found, success)
              | Memᴰ.tail rest_of ↦ others q rest_of
            ],
          )
    ]

evaluate_checks-done :
    (required : List RequiredCheck) (checks : List CommitCheck)
    → evaluate_checks required checks ≡ some "done"
    → AllSucceeded required checks
unfolding evaluate_checks
evaluate_checks-done required checks h = elim (Bool-cases (ltb 20 (length required))) [
  | inl many ↦ absurd (cc (rw (many, evaluate_checks) at h))
  | inr few ↦
      let (_, _, all) =
        evaluate_from-done checks [] required false false (rw (few, evaluate_checks) at h) in
      all
]

-- What a decision "done" of `Evaluate` rests on.
pub record ReleaseDone (a : Attempt) (pull : PullSnapshot) (on_default : Bool)
    (required : List RequiredCheck) (checks : List CommitCheck) (d : Decision) : Type 0 where
  pub publication : Publication
  pub published : a.publication ≡ some publication
  pub pull_is : pull_matches a publication pull ≡ true
  pub closed : pull.state ≡ "closed"
  pub merged : pull.merged ≡ true
  pub commit : d.commit_sha ≡ pull.merge_commit_sha
  pub commit_named : commit_pattern pull.merge_commit_sha ≡ true
  pub on_branch : on_default ≡ true
  pub all_passed : AllSucceeded required checks

merged_kind-done :
    (on_default : Bool) (required : List RequiredCheck) (checks : List CommitCheck)
    → merged_kind on_default required checks ≡ some "done"
    → (on_default ≡ true) × AllSucceeded required checks
unfolding merged_kind
merged_kind-done true required checks h = (refl, evaluate_checks-done required checks h)
merged_kind-done false required checks h =
    absurd (ground (arith, some_inj h, eq_iff "release-blocked" "done"))

decided-done :
    (e d : Decision) (sha : String) (o : Option String)
    → decided e sha o ≡ some d
    → d.kind ≡ "done"
    → (o ≡ some "done") × (d.commit_sha ≡ sha)
unfolding decided
decided-done e d sha none h k = absurd (cc h)
decided-done e d sha (some kind) h k =
    let same = some_inj h in
    (
      ap some (ap (λ (x : Decision). x.kind) same ∙ k),
      ap (λ (x : Decision). x.commit_sha) (sym same),
    )

review_not_done : ◌≢◌ {A = String} "review" "done"
review_not_done = λ e. ground (arith, eq_iff "review" "done")

unmerged_not_done : ◌≢◌ {A = String} "closed-unmerged" "done"
unmerged_not_done = λ e. ground (arith, eq_iff "closed-unmerged" "done")

module _ (sha256_hex : String → String) (stamp : Time → String)
    (sorted : List String → List String) where
  evented-some :
      (required : List RequiredCheck) (checks : List CommitCheck) (o : Option Decision)
      (d : Decision)
      → evented sha256_hex stamp sorted required checks o ≡ some d
      → (e : Decision) × (o ≡ some e) × (e.kind ≡ d.kind) × (e.commit_sha ≡ d.commit_sha)
  unfolding evented with_event
  evented-some required checks none d h = absurd (cc h)
  evented-some required checks (some e) d h =
      let same = some_inj h in
      (e, refl, ap (λ (x : Decision). x.kind) same, ap (λ (x : Decision). x.commit_sha) same)

  evaluate_pull-done :
      (a : Attempt) (pull : PullSnapshot) (on_default : Bool) (required : List RequiredCheck)
      (checks : List CommitCheck) (d : Decision)
      → evaluate_pull sha256_hex stamp sorted a pull on_default required checks ≡ some d
      → d.kind ≡ "done"
      → (pull.state ≡ "closed")
        × (pull.merged ≡ true)
        × (commit_pattern pull.merge_commit_sha ≡ true)
        × (d.commit_sha ≡ pull.merge_commit_sha)
        × (merged_kind on_default required checks ≡ some "done")
  unfolding evaluate_pull in_review with_event
  evaluate_pull-done a pull on_default required checks d h k =
      elim (Bool-cases ((pull.state == "open") && not pull.merged)) [
        | inl opened ↦ absurd (
            review_not_done
              (ap (λ (x : Decision). x.kind) (some_inj (rw (opened, evaluate_pull) at h)) ∙ k))
        | inr other ↦ elim (Bool-cases ((pull.state == "closed") && not pull.merged)) [
          | inl unmerged ↦ absurd (
              unmerged_not_done (
                ap (λ (x : Decision). x.kind) (some_inj (rw (other, evaluate_pull, unmerged) at h))
                ∙ k))
          | inr no_close ↦ elim (Bool-cases ((pull.state == "closed") && pull.merged)) [
            | inr unknown ↦ absurd (cc (rw (other, evaluate_pull, no_close, unknown) at h))
            | inl merged ↦ elim (Bool-cases (commit_pattern pull.merge_commit_sha)) [
              | inr unnamed ↦
                  absurd (cc (rw (other, evaluate_pull, no_close, merged, unnamed) at h))
              | inl named ↦
                  let kind = merged_kind on_default required checks in
                  let (e, from, kinds, shas) =
                    evented-some required checks
                      (decided (in_review a.id pull) pull.merge_commit_sha kind) d
                      (rw (other, evaluate_pull, no_close, merged, named) at h) in
                  let (done, commit) =
                    decided-done (in_review a.id pull) e pull.merge_commit_sha kind from
                      (kinds ∙ k) in
                  (
                    ground (arith, eq_iff pull.state "closed"),
                    ground arith,
                    named,
                    sym shas ∙ commit,
                    done,
                  )
            ]
          ]
        ]
      ]

  evaluate_published-done :
      (a : Attempt) (pull : PullSnapshot) (default_head : String) (on_default : Bool)
      (required : List RequiredCheck) (checks : List CommitCheck) (o : Option Publication)
      (d : Decision)
      → evaluate_published sha256_hex stamp sorted a pull default_head on_default required checks o
        ≡ some d
      → (p : Publication) × (o ≡ some p)
        × (pull_matches a p pull ≡ true)
        × (evaluate_pull sha256_hex stamp sorted a pull on_default required checks ≡ some d)
  unfolding evaluate_published
  evaluate_published-done a pull default_head on_default required checks none d h = absurd (cc h)
  evaluate_published-done a pull default_head on_default required checks (some p) d h =
      elim (Bool-cases (ltb_ℤ p.pr_number (pos 1))) [
        | inl low ↦ absurd (cc (rw (low, evaluate_published) at h))
        | inr fine ↦ elim (Bool-cases (pull_matches a p pull)) [
          | inr other ↦ absurd (cc (rw (fine, evaluate_published, other) at h))
          | inl matches ↦ elim (Bool-cases (commit_pattern default_head)) [
            | inr bad ↦ absurd (cc (rw (fine, evaluate_published, matches, bad) at h))
            | inl good ↦ (p, refl, matches, rw (fine, evaluate_published, matches, good) at h)
          ]
        ]
      ]

  -- Evaluate decides "done" only for the closed and merged pull request that the attempt published,
  -- at its published head, whose merge commit is named by the decision and is on the default
  -- branch, and only where the latest check of every required name and app succeeded: no valid
  -- check of that name and app is later, by time and then by source.
  pub evaluate-ReleaseDone :
      (a : Attempt) (pull : PullSnapshot) (default_head : String) (on_default : Bool)
      (required : List RequiredCheck) (checks : List CommitCheck) (d : Decision)
      → evaluate sha256_hex stamp sorted a pull default_head on_default required checks ≡ some d
      → d.kind ≡ "done"
      → ReleaseDone a pull on_default required checks d
  unfolding evaluate
  evaluate-ReleaseDone a pull default_head on_default required checks d h k =
      let (p, published, matches, decided_by) =
        evaluate_published-done a pull default_head on_default required checks a.publication d h in
      let (closed, merged, named, commit, done) =
        evaluate_pull-done a pull on_default required checks d decided_by k in
      let (branch, all) = merged_kind-done on_default required checks done in
      record {
        publication = p;
        published = published;
        pull_is = matches;
        closed = closed;
        merged = merged;
        commit = commit;
        commit_named = named;
        on_branch = branch;
        all_passed = all;
      }
