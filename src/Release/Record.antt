-- ===== src/Release/Record.antt =====
-- internal/release/release.go: Record and ObserveRevert, on any store. The loop that appends an
-- observation at most once is also that of RecordLaterFeedback in internal/review/review.go.
use sofa.Base.{
  ℕ, zero, suc, String, Bool, true, false, not, Option, none, some, [], ◌∷◌, ◌&&◌, ◌||◌, ◌==◌,
  string_eq, if◌then◌else◌,
}
use sofa.Base.Int.{pos, int_eq}
use sofa.Base.Text.{concat_text, join}
use sofa.State.Clock.{Time, is_zero}
use sofa.State.Records.{Observation, Attempt, Publication}
use sofa.State.Valid.{version}
use sofa.State.Validate.{AttemptKey}
use sofa.Engine.Outcome.{Error}
use sofa.Engine.Recovery.{find_observation, observe}
use sofa.Engine.Update.{Answer, Round, perform}
use sofa.Store.Interface.{Loaded, Store}
use sofa.Lifecycle.Gates.{commit_pattern}
use sofa.Release.Pulls.{PullSnapshot}
use sofa.Release.Evaluate.{Decision, short_sum}

-- The observation recorded under the identifier is this one, but for when it was recorded.
unfoldable pub same_observation : Observation → Observation → Bool
same_observation previous o =
    (previous.attempt_id == o.attempt_id)
    && (previous.stage == o.stage)
    && (previous.outcome == o.outcome)
    && (previous.revision == o.revision)
    && previous.evidence_ref == o.evidence_ref

-- What one pass of the loop meets: other processes before its load, and the rounds of Observe.
pub record Pass (S : Store) : Type 0 where
  pub done : Bool
  pub arrive : Store.World S → Store.World S
  pub rounds : ℕ → Round S

module _ (digest : AttemptKey → String) (S : Store) where
  -- `!errors.Is(err, state.ErrConflict)`: the answer, or another pass.
  unfoldable pub again_on_conflict :
      (S.World → S.World × Answer (Unit {0}))
      → S.World × Answer (Unit {0})
      → S.World × Answer (Unit {0})
  again_on_conflict next (v, Answer.err Error.conflict) = next v
  again_on_conflict next (v, Answer.err e) = (v, Answer.err e)
  again_on_conflict next (v, Answer.ok r) = (v, Answer.ok r)

  -- The end of a pass, on the observation found under the identifier.
  unfoldable pub found_or_observe :
      Observation
      → Pass S
      → S.World
      → (S.World → S.World × Answer (Unit {0}))
      → Option Observation
      → S.World × Answer (Unit {0})
  unfolding same_observation again_on_conflict
  found_or_observe o p w next (some previous) =
      if same_observation previous o then (w, Answer.ok tt) else (w, Answer.err Error.conflict)
  found_or_observe o p w next none =
      let observed = perform digest S (observe digest o) p.rounds w in
      again_on_conflict next observed

  -- One pass, from what it loads.
  unfoldable pub after_scan :
      Observation
      → Pass S
      → S.World
      → (S.World → S.World × Answer (Unit {0}))
      → Loaded
      → S.World × Answer (Unit {0})
  unfolding found_or_observe find_observation
  after_scan o p w next (Loaded.load_failed e) = (w, Answer.err e)
  after_scan o p w next (Loaded.loaded x) =
      found_or_observe o p w next (find_observation o.id x.state.observations)

  -- The passes left of `for range 2`.
  unfoldable pub passes_left :
      ℕ → Observation → (ℕ → Pass S) → ℕ → S.World → S.World × Answer (Unit {0})
  unfolding after_scan
  passes_left zero o p i w = (w, Answer.err Error.conflict)
  passes_left (suc n) o p i w =
      let v = (p i).arrive w in
      after_scan o (p i) v (λ u. passes_left n o p (suc i) u) (S.load (p i).done v)

  unfoldable pub append_once : Observation → (ℕ → Pass S) → S.World → S.World × Answer (Unit {0})
  unfolding passes_left
  append_once o p w = passes_left 2 o p 0 w

  -- The observation of `Record`.
  unfoldable pub release_observation : Decision → Time → Observation
  release_observation d observed_at = record {
    version = version;
    id = d.event_id;
    attempt_id = d.attempt_id;
    stage = "release";
    outcome = d.kind;
    revision = d.commit_sha;
    evidence_ref = d.evidence_ref;
    model_calls = pos 0;
    duration_seconds = pos 0;
    recorded_at = observed_at;
  }

  -- `Record`
  unfoldable pub record_decision :
      Decision → Time → (ℕ → Pass S) → S.World → S.World × Answer (Unit {0})
  unfolding append_once release_observation commit_pattern
  record_decision d observed_at p w =
      if d.kind == "review"
      then (w, Answer.ok tt)
      else if (d.attempt_id == "")
          || (d.event_id == "")
          || not (commit_pattern d.commit_sha)
          || is_zero observed_at
      then (w, Answer.err Error.invalid)
      else append_once (release_observation d observed_at) p w

  -- The guard of `ObserveRevert`, on the publication of the attempt.
  unfoldable pub reverts : Option Publication → PullSnapshot → String → String → Bool
  unfolding commit_pattern
  reverts none pull revert_sha default_head = false
  reverts (some p) pull revert_sha default_head = not (
      not (pull.number == p.pr_number)
      || not (pull.url == p.pr_url)
      || not pull.merged
      || not (pull.head_sha == p.head_sha)
      || not (commit_pattern pull.merge_commit_sha)
      || not (commit_pattern revert_sha)
      || not (commit_pattern default_head))

  -- The decision that `ObserveRevert` records; `sha256_hex` is SHA-256 in hexadecimal digits.
  unfoldable pub revert_decision : (String → String) → Attempt → PullSnapshot → String → Decision
  unfolding short_sum
  revert_decision sha256_hex a pull revert_sha = record {
    attempt_id = a.id;
    pr_number = pull.number;
    kind = "reverted";
    commit_sha = revert_sha;
    evidence_ref =
        concat_text ("https://github.com/" ∷ a.admission.repository ∷ "/commit/" ∷ revert_sha ∷ []);
    event_id = join "-" ("revert" ∷ short_sum sha256_hex a.id ∷ revert_sha ∷ []);
  }

  -- The end of `ObserveRevert`, on the answer of the verifier.
  unfoldable pub after_verifier :
      Decision → Time → (ℕ → Pass S) → S.World → Answer Bool → S.World × Answer (Unit {0})
  unfolding record_decision
  after_verifier d observed_at p w (Answer.err e) = (w, Answer.err e)
  after_verifier d observed_at p w (Answer.ok false) = (w, Answer.err Error.unverified_revert)
  after_verifier d observed_at p w (Answer.ok true) = record_decision d observed_at p w

  -- `ObserveRevert`; `verified` is what `VerifiedRevert` answers.
  unfoldable pub observe_revert :
      (String → String)
      → Answer Bool
      → Attempt
      → PullSnapshot
      → String
      → String
      → Time
      → (ℕ → Pass S)
      → S.World
      → S.World × Answer (Unit {0})
  unfolding reverts revert_decision after_verifier
  observe_revert sha256_hex verified a pull revert_sha default_head observed_at p w =
      if not (reverts a.publication pull revert_sha default_head)
      then (w, Answer.err Error.invalid)
      else after_verifier (revert_decision sha256_hex a pull revert_sha) observed_at p w verified
