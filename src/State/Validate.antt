-- ===== src/State/Validate.antt =====
-- internal/state/state.go: `AttemptID` and `State.Validate`. Its errors all wrap ErrInvalid, so it
-- is a test. json.Marshal, SHA-256 and the hexadecimal digits are one parameter, the digest of
-- the identifying fields.
use sofa.Base.{
  ℕ, suc, String, Bool, true, false, not, Option, none, some, List, [], ◌∷◌, ◌&&◌, ◌||◌, ◌==◌,
  string_eq, bool_eq, is_nil, all_set, any, length, leb, ltb, eqb,
}
use sofa.Base.Int.{ℤ, pos, ltb_ℤ, leb_ℤ, int_eq}
use sofa.Base.Text.{contains_any, byte_len, to_lower}
use sofa.Base.Map.{Map, get, all_entries}
use sofa.State.Clock.{Time, is_zero, before, after}
use sofa.State.Records.{
  Phase, DiscoveryPhase, Admission, Attempt, Observation, SpecRecord, DiscoveryTask,
  BoardProjection, Ledger,
}
use sofa.State.Patterns.{digest_pattern, reference}
use sofa.State.Valid.{
  version, valid_owner, limits_valid, permits, admission_valid, checkpoint_valid, publication_valid,
  repair_valid, cursor_valid, discovery_valid, spec_valid, projection_valid, poll_valid,
}

-- The fields that `AttemptID` marshals.
pub record AttemptKey : Type 0 where
  pub repository : String
  pub issue : ℤ
  pub spec_digest : String
  pub project_item_id : String
  pub status_option_id : String
  pub status_updated_at : Time

-- `AttemptID`
unfoldable pub attempt_id : (AttemptKey → String) → Admission → String
attempt_id digest a = digest (record {
  repository = to_lower a.repository;
  issue = a.issue;
  spec_digest = a.spec_digest;
  project_item_id = a.project_item_id;
  status_option_id = a.status_option_id;
  status_updated_at = a.status_updated_at;
})

-- The four blocks of tests that `Validate` makes of an attempt.
unfoldable pub attempt_metadata : (AttemptKey → String) → String → Attempt → Bool
attempt_metadata digest id a =
    (id == a.id)
    && (id == attempt_id digest a.admission)
    && admission_valid a.admission
    && limits_valid a.limits
    && permits a.limits a.counts
    && leb_ℤ (pos 0) a.spec_revision
    && leb_ℤ (pos 0) a.generation
    && (is_nil a.owner || all_set valid_owner a.owner && not (a.generation == pos 0))
    && not (is_zero a.created_at)
    && not (before a.updated_at a.created_at)

is_blocked : Phase → Bool
is_blocked Phase.blocked = true
is_blocked _ = false

unfoldable pub superseded_valid : Attempt → Bool
unfolding is_blocked
superseded_valid a =
    (is_zero a.superseded_at == (a.superseded_source_digest == ""))
    && (is_zero a.superseded_at
        || digest_pattern a.superseded_source_digest
          && is_nil a.owner
          && is_blocked a.phase
          && a.failure == "human-change")

phase_known : Phase → Bool
phase_known (Phase.unknown s) = false
phase_known _ = true

unfoldable pub attempt_state_valid : Attempt → Bool
unfolding phase_known
attempt_state_valid a =
    phase_known a.phase
    && ((a.dispatch == "pending") || (a.dispatch == "sent") || a.dispatch == "claimed")

unfoldable pub attempt_evidence_valid : Attempt → Bool
attempt_evidence_valid a =
    all_set checkpoint_valid a.checkpoint
    && all_set publication_valid a.publication
    && all_set (λ r. repair_valid r a.publication) a.repair
    && all_set (λ c. cursor_valid c && not (is_nil a.publication)) a.revert_scan

-- The body of the first loop of `Validate`.
unfoldable pub attempt_valid : (AttemptKey → String) → String → Attempt → Bool
attempt_valid digest id a =
    attempt_metadata digest id a
    && superseded_valid a
    && attempt_state_valid a
    && attempt_evidence_valid a

-- A specification may follow the one before it.
spec_follows : SpecRecord → SpecRecord → Bool
spec_follows record' previous =
    (record'.repository == previous.repository)
    && (record'.issue == previous.issue)
    && (record'.project_id == previous.project_id)
    && (record'.project_item_id == previous.project_item_id)
    && not (record'.source_digest == previous.source_digest)
    && not (record'.comment_id == previous.comment_id)
    && after record'.review_updated_at previous.backlog_updated_at

-- `i > 0` and the record before, or the first.
follows {ℓ} : {A : Type ℓ} → (A → A → Bool) → A → Option A → Bool
follows test current none = true
follows test current (some previous) = test current previous

-- `history[len(history)-1]`, if there is one.
unfoldable pub last {ℓ} : {A : Type ℓ} → List A → Option A
last [] = none
last (x ∷ []) = some x
last (x ∷ y ∷ xs) = last (y ∷ xs)

-- The loop over one history of specifications, from position `i`.
spec_history_from : String → ℕ → Option SpecRecord → List SpecRecord → Bool
unfolding spec_follows follows
spec_history_from id i previous [] = true
spec_history_from id i previous (r ∷ rest) =
    (id == r.issue_id)
    && spec_valid r
    && not (r.approved_digest == "")
    && (r.revision == pos i)
    && follows spec_follows r previous
    && spec_history_from id (suc i) (some r) rest

-- The body of the loop over `SpecHistory`.
unfoldable pub spec_history_valid : Ledger → String → List SpecRecord → Bool
unfolding spec_history_from spec_follows follows last
spec_history_valid s id history =
    (eqb (length history) 0 || not (is_nil (get id s.specs)))
    && spec_history_from id 0 none history
    && all_set
        (λ (current : SpecRecord).
          (current.revision == pos (length history)) && follows spec_follows current (last history))
        (get id s.specs)

-- The entries of a history; a missing key has none.
abbrev pub history_of {ℓ} : {A : Type ℓ} → String → Map (List A) → List A
history_of id m = elim (get id m) [ none ↦ [] | some h ↦ h ]

-- The body of the loop over `Specs`.
unfoldable pub spec_entry_valid : Ledger → String → SpecRecord → Bool
spec_entry_valid s id r =
    (id == r.issue_id) && spec_valid r && r.revision == pos (length (history_of id s.spec_history))

is_review : DiscoveryPhase → Bool
is_review DiscoveryPhase.review = true
is_review _ = false

-- A Discovery task may follow the one before it; the current task may have no comment yet.
task_follows : Bool → DiscoveryTask → DiscoveryTask → Bool
task_follows current task previous =
    (task.repository == previous.repository)
    && (task.issue == previous.issue)
    && (task.project_id == previous.project_id)
    && (task.project_item_id == previous.project_item_id)
    && not (task.source_digest == previous.source_digest)
    && not
        ((not current || ltb_ℤ (pos 0) task.comment_id) && task.comment_id == previous.comment_id)
    && leb_ℤ previous.model_calls task.model_calls
    && after task.status_updated_at previous.status_updated_at

discovery_history_from : String → ℕ → Option DiscoveryTask → List DiscoveryTask → Bool
unfolding is_review task_follows follows
discovery_history_from id i previous [] = true
discovery_history_from id i previous (t ∷ rest) =
    (id == t.issue_id)
    && discovery_valid t
    && is_review t.phase
    && (t.revision == pos i)
    && follows (task_follows false) t previous
    && discovery_history_from id (suc i) (some t) rest

-- The body of the loop over `DiscoveryHistory`.
unfoldable pub discovery_history_valid : Ledger → String → List DiscoveryTask → Bool
unfolding discovery_history_from task_follows follows last
discovery_history_valid s id history =
    (eqb (length history) 0 || not (is_nil (get id s.discoveries)))
    && discovery_history_from id 0 none history
    && all_set
        (λ (current : DiscoveryTask).
          (current.revision == pos (length history))
          && follows (task_follows true) current (last history))
        (get id s.discoveries)

-- The body of the loop over `Discoveries`.
unfoldable pub discovery_entry_valid : Ledger → String → DiscoveryTask → Bool
discovery_entry_valid s id d =
    (id == d.issue_id)
    && discovery_valid d
    && d.revision == pos (length (history_of id s.discovery_history))

-- A reset task was in review, blocked, or pending without owner and publication.
reset_phase : DiscoveryPhase → DiscoveryTask → Bool
reset_phase DiscoveryPhase.review t = true
reset_phase DiscoveryPhase.blocked t = true
reset_phase DiscoveryPhase.pending t = is_nil t.owner && is_nil t.publication
reset_phase _ t = false

-- A reset task is older than the current one.
reset_of : DiscoveryTask → DiscoveryTask → Bool
reset_of current task =
    (task.repository == current.repository)
    && (task.issue == current.issue)
    && (task.project_id == current.project_id)
    && (task.project_item_id == current.project_item_id)
    && leb_ℤ task.revision current.revision
    && after current.status_updated_at task.status_updated_at
    && leb_ℤ task.model_calls current.model_calls

reset_follows : DiscoveryTask → DiscoveryTask → Bool
reset_follows task previous =
    after task.status_updated_at previous.status_updated_at
    && leb_ℤ previous.model_calls task.model_calls
    && leb_ℤ previous.revision task.revision

reset_history_from : String → DiscoveryTask → Option DiscoveryTask → List DiscoveryTask → Bool
unfolding reset_phase reset_of reset_follows follows
reset_history_from id current previous [] = true
reset_history_from id current previous (t ∷ rest) =
    (id == t.issue_id)
    && discovery_valid t
    && reset_phase t.phase t
    && reset_of current t
    && follows reset_follows t previous
    && reset_history_from id current (some t) rest

-- The body of the loop over `DiscoveryResetHistory`.
unfoldable pub reset_history_valid : Ledger → String → List DiscoveryTask → Bool
unfolding reset_history_from
reset_history_valid s id history = elim (get id s.discoveries) [
  | none ↦ false
  | some current ↦
      ltb 0 (length history)
      && leb (length history) 20
      && reset_history_from id current none history
]

-- The tests of one observation; `seen` has the identifiers of those before it.
observation_valid : Ledger → List String → Observation → Bool
observation_valid s seen o =
    (o.version == version)
    && reference o.id
    && not (any (λ id. id == o.id) seen)
    && reference o.stage
    && reference o.outcome
    && leb_ℤ (pos 0) o.model_calls
    && leb_ℤ (pos 0) o.duration_seconds
    && not (is_zero o.recorded_at)
    && leb (byte_len o.evidence_ref) 2048
    && not (contains_any o.evidence_ref (0 ∷ 10 ∷ 13 ∷ []))
    && not (is_nil (get o.attempt_id s.attempts))

unfoldable pub observations_from : Ledger → List String → List Observation → Bool
unfolding observation_valid
observations_from s seen [] = true
observations_from s seen (o ∷ rest) =
    observation_valid s seen o && observations_from s (o.id ∷ seen) rest

-- `recordedDoneForMerge`
unfoldable pub recorded_done_for_merge : List Observation → String → String → Bool
recorded_done_for_merge observations attempt_id merge_sha =
    any
      (λ (o : Observation).
        (o.attempt_id == attempt_id)
        && (o.stage == "release")
        && (o.outcome == "done")
        && o.revision == merge_sha)
      observations

-- The body of the last loop of `Validate`.
unfoldable pub scan_recorded : List Observation → String → Attempt → Bool
scan_recorded observations id a =
    all_set (λ c. recorded_done_for_merge observations id c.merge_sha) a.revert_scan

unfoldable pub projection_entry_valid : String → BoardProjection → Bool
projection_entry_valid id p = (id == p.issue_id) && projection_valid p

-- `State.Validate`
unfoldable pub validate : (AttemptKey → String) → Ledger → Bool
validate digest s =
    (s.version == version)
    && s.attempts_made
    && all_entries (attempt_valid digest) s.attempts
    && all_entries (spec_entry_valid s) s.specs
    && all_entries (spec_history_valid s) s.spec_history
    && all_entries (discovery_entry_valid s) s.discoveries
    && all_entries (discovery_history_valid s) s.discovery_history
    && all_entries (reset_history_valid s) s.discovery_reset_history
    && all_entries projection_entry_valid s.projections
    && all_set poll_valid s.poll
    && observations_from s [] s.observations
    && all_entries (scan_recorded s.observations) s.attempts

-- `Empty`
unfoldable pub empty : Ledger
empty = record {
  version = version;
  attempts_made = true;
  attempts = [];
  observations = [];
  specs = [];
  spec_history = [];
  discoveries = [];
  discovery_history = [];
  discovery_reset_history = [];
  projections = [];
  poll = none;
}
