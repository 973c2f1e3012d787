-- ===== src/Authority/Authorize.antt =====
-- internal/admission/admission.go: Authorize, Revalidate and RevalidateDelivery.
use sofa.Base.{
  String, Bool, false, not, Option, none, some, [], ◌∷◌, ◌&&◌, ◌||◌, ◌==◌, string_eq, if◌then◌else◌,
  any,
}
use sofa.Base.Int.{pos, ltb_ℤ}
use sofa.Base.Text.{equal_fold}
use sofa.State.Clock.{Time, is_zero, before, after}
use sofa.Lifecycle.Stages.{status_of}
use sofa.Lifecycle.Gates.{commit_pattern}
use sofa.Config.Records.{Config, Lifecycle}
use sofa.Authority.Libraries.{Libraries, digest_of, spec_of}
use sofa.Authority.Grant.{Snapshot, Grant, CanonicalSpec, same_grant}

-- The issue was not edited at or after a time.
unfoldable pub unedited_since : Time → Snapshot → Bool
unedited_since t s =
    not (not (is_zero s.issue_last_edited_at) && not (before s.issue_last_edited_at t))

-- The facts that `Authorize` asks for.
unfoldable pub is_ready : Config → Snapshot → Bool
unfolding unedited_since commit_pattern
is_ready c s = not (
    not s.complete
    || not s.opened
    || not (equal_fold s.repository c.repository)
    || not (s.repository_id == c.repository_id)
    || not (s.project_id == c.project_id)
    || not s.project_private
    || (s.project_item_id == "")
    || not (s.current_status == c.ready_status)
    || (s.status_option_id == "")
    || is_zero s.status_updated_at
    || not (unedited_since s.status_updated_at s)
    || (s.issue_id == "")
    || ltb_ℤ s.number (pos 1)
    || not (commit_pattern s.base_sha))

-- The grant that `Authorize` returns.
unfoldable pub grant_of : Config → Snapshot → String → String → Grant
grant_of c s spec_digest config_digest = record {
  version = pos 1;
  repository = c.repository;
  repository_id = s.repository_id;
  issue_id = s.issue_id;
  issue_number = s.number;
  project_id = c.project_id;
  owner_id = c.owner_id;
  spec_digest = spec_digest;
  config_digest = config_digest;
  base_sha = s.base_sha;
  project_item_id = s.project_item_id;
  status_option_id = s.status_option_id;
  status_updated_at = s.status_updated_at;
}

-- The Ready snapshot of a delivery under way.
unfoldable pub as_ready : Config → Grant → Snapshot → Snapshot
as_ready c expected s = record s {
  current_status = c.ready_status;
  status_option_id = expected.status_option_id;
  status_updated_at = expected.status_updated_at;
}

-- The status is that of a stage of delivery.
unfoldable pub in_delivery : Lifecycle → Snapshot → Bool
unfolding status_of
in_delivery l s =
    any (λ stage. s.current_status == status_of l.statuses stage)
      ("building" ∷ "verification" ∷ "review" ∷ "release" ∷ [])

module _ (lib : Libraries) where
  -- The end of `Authorize`: the specification, and the grant with its encoding.
  unfoldable pub authorize_spec :
      Config → Snapshot → String → Option CanonicalSpec → Option (Grant × String)
  unfolding grant_of
  authorize_spec c s digest none = none
  authorize_spec c s digest (some spec) = some (grant_of c s spec.digest digest, spec.encoded)

  -- `Authorize`; `none` is its error.
  unfoldable pub authorize : Config → Snapshot → Option (Grant × String)
  unfolding authorize_spec is_ready
  authorize c s = elim (digest_of lib c) [
    | none ↦ none
    | some digest ↦
        if not (is_ready c s) then none else authorize_spec c s digest (spec_of lib s.title s.body)
  ]

  -- The rest of `Revalidate`, after `Authorize`; `true` is the nil error.
  unfoldable pub revalidate_grant : Grant → Option (Grant × String) → Bool
  unfolding same_grant
  revalidate_grant expected none = false
  revalidate_grant expected (some (current, spec)) =
      same_grant (record current { base_sha = expected.base_sha }) expected

  -- `Revalidate`
  unfoldable pub revalidate : Config → Snapshot → Grant → Bool
  unfolding revalidate_grant authorize
  revalidate c s expected = revalidate_grant expected (authorize c s)

  -- `RevalidateDelivery`, past Ready.
  unfoldable pub revalidate_later : Config → Snapshot → Grant → Option Lifecycle → Bool
  unfolding in_delivery unedited_since as_ready revalidate
  revalidate_later c s expected none = false
  revalidate_later c s expected (some l) =
      if (s.status_option_id == "") || not (after s.status_updated_at expected.status_updated_at)
      then false
      else if not (in_delivery l s) || not (unedited_since expected.status_updated_at s)
      then false
      else revalidate c (as_ready c expected s) expected

  -- `RevalidateDelivery`
  unfoldable pub revalidate_delivery : Config → Snapshot → Grant → Bool
  unfolding revalidate revalidate_later
  revalidate_delivery c s expected =
      if s.current_status == c.ready_status
      then revalidate c s expected
      else revalidate_later c s expected c.lifecycle
