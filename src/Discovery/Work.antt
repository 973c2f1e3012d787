-- ===== src/Discovery/Work.antt =====
-- internal/state/discovery.go: ClaimDiscovery and the calls of a worker and of its recovery.
use sofa.Base.{
  String, Bool, true, false, not, Option, none, some, ◌&&◌, ◌||◌, ◌==◌, string_eq, option_eq,
  if◌then◌else◌, is_nil,
}
use sofa.Base.Int.{ℤ, pos, int_eq, leb_ℤ, next_int64}
use sofa.State.Clock.{Time, is_zero, before}
use sofa.State.Records.{DiscoveryPhase, Owner, DiscoveryPublication, DiscoveryTask}
use sofa.State.Patterns.{reference, digest_pattern}
use sofa.State.Same.{owner_eq}
use sofa.State.SameTask.{discovery_phase_eq}
use sofa.State.Valid.{valid_owner, discovery_publication_valid}
use sofa.Engine.Outcome.{Error, Operation, Clock, require}
use sofa.Engine.Recovery.{RunProof, terminal}
use sofa.Discovery.Task.{DiscoveryFence, TaskEdit, edit_task, edit_owned_task}

-- The task that `ClaimDiscovery` writes.
unfoldable pub discovery_claimed_by : Clock → Owner → DiscoveryTask → DiscoveryTask
discovery_claimed_by clock owner d = record d {
  model_calls = if is_nil d.publication then next_int64 d.model_calls else d.model_calls;
  generation = next_int64 d.generation;
  owner = some owner;
  phase = DiscoveryPhase.running;
  updated_at = clock 0;
}

-- The closure of `ClaimDiscovery`, on the task found.
unfoldable pub claim_discovery_edit :
    String → Owner → Clock → DiscoveryTask → TaskEdit DiscoveryFence
claim_discovery_edit id owner clock d =
    if not (d.phase == DiscoveryPhase.pending) || not (is_nil d.owner)
    then TaskEdit.reject Error.claimed
    else if is_nil d.publication && leb_ℤ d.max_model_calls d.model_calls
    then TaskEdit.reject Error.limit
    else TaskEdit.write (discovery_claimed_by clock owner d)
        (record { issue_id = id; generation = next_int64 d.generation; owner = owner })

-- `ClaimDiscovery`
unfoldable pub claim_discovery : String → Owner → Operation DiscoveryFence
claim_discovery id owner =
    require (reference id && valid_owner owner) Error.invalid
      (Operation.attempt (λ clock. edit_task id (claim_discovery_edit id owner clock)))

-- The publication of `PrepareDiscoveryPublication`.
abbrev pub discovery_intent : DiscoveryFence → String → String → DiscoveryPublication
discovery_intent f digest key = record {
  digest = digest;
  key = key;
  post_attempted = false;
  producer = f.owner;
}

-- `d.Publication.Digest == digest && d.Publication.Key == key`, of a publication that is there.
unfoldable pub intent_is : String → String → Option DiscoveryPublication → Bool
intent_is digest key none = false
intent_is digest key (some p) = p.digest == digest && p.key == key

-- The closure of `PrepareDiscoveryPublication`, on the task held.
unfoldable pub prepare_edit :
    DiscoveryFence → String → String → Clock → DiscoveryTask → TaskEdit (Unit {0})
prepare_edit f digest key clock d =
    if not (is_nil d.publication)
    then (if intent_is digest key d.publication
        then TaskEdit.keep tt
        else TaskEdit.reject Error.conflict)
    else TaskEdit.write
        (record d { publication = some (discovery_intent f digest key); updated_at = clock 0 }) tt

-- `PrepareDiscoveryPublication`
unfoldable pub prepare_discovery_publication :
    DiscoveryFence → String → String → Operation (Unit {0})
prepare_discovery_publication f digest key =
    require (discovery_publication_valid (discovery_intent f digest key)) Error.invalid
      (Operation.attempt (λ clock. edit_owned_task f (prepare_edit f digest key clock)))

-- The closure of `MarkDiscoveryPostAttempt`, by the publication of the task held.
unfoldable pub mark_post_edit :
    String → String → Clock → DiscoveryTask → Option DiscoveryPublication → TaskEdit Bool
mark_post_edit digest key clock d none = TaskEdit.reject Error.conflict
mark_post_edit digest key clock d (some p) =
    if not (intent_is digest key (some p))
    then TaskEdit.reject Error.conflict
    else if p.post_attempted
    then TaskEdit.keep false
    else TaskEdit.write
        (record d { publication = some (record p { post_attempted = true }); updated_at = clock 0 })
        true

-- `MarkDiscoveryPostAttempt`
unfoldable pub mark_discovery_post_attempt : DiscoveryFence → String → String → Operation Bool
mark_discovery_post_attempt f digest key =
    Operation.attempt
      (λ clock. edit_owned_task f (λ d. mark_post_edit digest key clock d d.publication))

-- The comment that `CompleteDiscovery` records.
pub record SpecComment : Type 0 where
  pub digest : String
  pub comment_id : ℤ
  pub author_id : String
  pub created_at : Time
  pub updated_at : Time

-- `d.Publication == nil || d.Publication.Digest != specDigest`, negated.
unfoldable pub intends : String → Option DiscoveryPublication → Bool
intends digest none = false
intends digest (some p) = p.digest == digest

-- The closure of `CompleteDiscovery`, on the task held.
unfoldable pub complete_edit : SpecComment → Clock → DiscoveryTask → TaskEdit (Unit {0})
complete_edit c clock d =
    if not (intends c.digest d.publication)
    then TaskEdit.reject Error.conflict
    else TaskEdit.write
        (record d {
          phase = DiscoveryPhase.review;
          publication = none;
          spec_digest = c.digest;
          comment_id = c.comment_id;
          comment_author_id = c.author_id;
          comment_created_at = c.created_at;
          comment_updated_at = c.updated_at;
          owner = none;
          updated_at = clock 0;
        })
        tt

-- `CompleteDiscovery`
unfoldable pub complete_discovery : DiscoveryFence → SpecComment → Operation (Unit {0})
complete_discovery f c =
    require
      (digest_pattern c.digest
        && leb_ℤ (pos 1) c.comment_id
        && reference c.author_id
        && not (is_zero c.created_at)
        && not (before c.updated_at c.created_at))
      Error.invalid (Operation.attempt (λ clock. edit_owned_task f (complete_edit c clock)))

-- The closure of `FailDiscovery`, on the task held.
unfoldable pub fail_discovery_edit : String → Clock → DiscoveryTask → TaskEdit (Unit {0})
fail_discovery_edit kind clock d =
    if not (is_nil d.publication)
    then TaskEdit.reject Error.unreconciled
    else TaskEdit.write
        (record d {
          phase = DiscoveryPhase.blocked;
          failure = kind;
          owner = none;
          updated_at = clock 0;
        })
        tt

-- `FailDiscovery`
unfoldable pub fail_discovery : DiscoveryFence → String → Operation (Unit {0})
fail_discovery f kind =
    require
      ((kind == "authority")
        || (kind == "validation")
        || (kind == "authentication")
        || (kind == "quota")
        || kind == "infrastructure")
      Error.invalid
      (Operation.attempt (λ clock. edit_owned_task f (fail_discovery_edit kind clock)))

-- The closure of `RecoverDiscovery`, on the task found.
unfoldable pub recover_discovery_edit : RunProof → Clock → DiscoveryTask → TaskEdit (Unit {0})
recover_discovery_edit proof clock d =
    let spent = is_nil d.publication && leb_ℤ d.max_model_calls d.model_calls in
    if not (d.owner == some proof.owner) || not (d.phase == DiscoveryPhase.running)
    then TaskEdit.reject Error.stale
    else TaskEdit.write
        (record d {
          owner = none;
          generation = next_int64 d.generation;
          updated_at = clock 0;
          phase = if spent then DiscoveryPhase.blocked else DiscoveryPhase.pending;
          failure = if spent then "budget" else d.failure;
        })
        tt

-- `RecoverDiscovery`, called at `now`.
unfoldable pub recover_discovery : Time → String → RunProof → Operation (Unit {0})
recover_discovery now id proof =
    require (terminal proof now) Error.active
      (Operation.attempt (λ clock. edit_task id (recover_discovery_edit proof clock)))

-- The closure of `CancelDiscovery`, on the task found.
unfoldable pub cancel_discovery_edit : Clock → DiscoveryTask → TaskEdit (Unit {0})
cancel_discovery_edit clock d =
    if d.phase == DiscoveryPhase.canceled
    then TaskEdit.keep tt
    else if d.phase == DiscoveryPhase.review
    then TaskEdit.reject Error.completed
    else if not (is_nil d.publication)
    then TaskEdit.reject Error.unreconciled
    else TaskEdit.write
        (record d {
          owner = none;
          generation = next_int64 d.generation;
          phase = DiscoveryPhase.canceled;
          updated_at = clock 0;
        })
        tt

-- `CancelDiscovery`
unfoldable pub cancel_discovery : String → Operation (Unit {0})
cancel_discovery id = Operation.attempt (λ clock. edit_task id (cancel_discovery_edit clock))
