-- ===== src/Scans/Current.antt =====
-- internal/state/current.go: CurrentAttemptForIssue.
use sofa.Base.{String, Bool, not, Option, none, some, [], ◌∷◌, ◌&&◌, ◌==◌, string_eq, if◌then◌else◌}
use sofa.Base.Int.{int_eq}
use sofa.Base.Map.{Map, get}
use sofa.Base.Text.{to_lower}
use sofa.State.Clock.{is_zero, after}
use sofa.State.Records.{Attempt, SpecRecord, Ledger}

-- The attempts that the loop does not skip: strings.EqualFold on names of ASCII characters.
unfoldable pub concerns : SpecRecord → Attempt → Bool
concerns r a =
    is_zero a.superseded_at
    && to_lower a.admission.repository == to_lower r.repository
    && a.admission.issue == r.issue

-- The attempt was admitted for the record's approved revision.
unfoldable pub approved_for : SpecRecord → Attempt → Bool
approved_for r a =
    a.admission.project_id == r.project_id
    && a.admission.project_item_id == r.project_item_id
    && a.admission.spec_digest == r.approved_digest
    && a.spec_revision == r.revision
    && after a.admission.status_updated_at r.backlog_updated_at

-- What `CurrentAttemptForIssue` returns: no attempt, the current one, or ErrConflict.
pub data Current : Type 0 where
  no_attempt : Current
  current : Attempt → Current
  ambiguous : Current

-- The loop, with the attempt found so far.
unfoldable pub current_from : SpecRecord → Option Attempt → Map Attempt → Current
current_from r none [] = Current.no_attempt
current_from r (some a) [] = Current.current a
current_from r found ((id, a) ∷ rest) =
    let skipped = current_from r found rest in
    let taken = current_from r (some a) rest in
    if not (concerns r a)
    then skipped
    else if not (approved_for r a)
    then Current.ambiguous
    else elim found [ none ↦ taken | some b ↦ Current.ambiguous ]

-- `CurrentAttemptForIssue`
unfoldable pub current_attempt_for_issue : Ledger → String → Current
unfolding current_from
current_attempt_for_issue s issue = elim (get issue s.specs) [
  | none ↦ Current.no_attempt
  | some r ↦ if r.approved_digest == "" then Current.no_attempt else current_from r none s.attempts
]
