-- ===== src/Authority/Grant.antt =====
-- internal/admission/admission.go: Snapshot, Grant and CanonicalSpec.
-- Parameters: utf8.ValidString, strings.TrimSpace, the JSON encoding of a specification and
-- SHA-256 in hexadecimal digits.
use sofa.Base.{
  String, Bool, not, Option, none, some, ◌&&◌, ◌||◌, ◌==◌, string_eq, nat_eq, ltb, if◌then◌else◌,
}
use sofa.Base.Int.{ℤ, int_eq}
use sofa.Base.Text.{byte_len, unix_lines}
use sofa.State.Clock.{Time}

-- `Snapshot`
pub record Snapshot : Type 0 where
  pub repository : String
  pub repository_id : String
  pub issue_id : String
  pub number : ℤ
  pub title : String
  pub body : String
  pub opened : Bool
  pub project_id : String
  pub project_private : Bool
  pub project_item_id : String
  pub current_status : String
  pub status_option_id : String
  pub status_updated_at : Time
  pub issue_last_edited_at : Time
  pub base_sha : String
  pub complete : Bool

-- `Grant`
pub record Grant : Type 0 where
  pub version : ℤ
  pub repository : String
  pub repository_id : String
  pub issue_id : String
  pub issue_number : ℤ
  pub project_id : String
  pub owner_id : String
  pub spec_digest : String
  pub config_digest : String
  pub base_sha : String
  pub project_item_id : String
  pub status_option_id : String
  pub status_updated_at : Time

-- `current == expected`
unfoldable pub same_grant : Grant → Grant → Bool
same_grant a b =
    (a.version == b.version)
    && (a.repository == b.repository)
    && (a.repository_id == b.repository_id)
    && (a.issue_id == b.issue_id)
    && (a.issue_number == b.issue_number)
    && (a.project_id == b.project_id)
    && (a.owner_id == b.owner_id)
    && (a.spec_digest == b.spec_digest)
    && (a.config_digest == b.config_digest)
    && (a.base_sha == b.base_sha)
    && (a.project_item_id == b.project_item_id)
    && (a.status_option_id == b.status_option_id)
    && a.status_updated_at == b.status_updated_at

-- A specification, encoded, and its digest.
pub record CanonicalSpec : Type 0 where
  pub encoded : String
  pub digest : String

module _ (valid_utf8 : String → Bool) (trimmed : String → String)
    (encode_spec : String → String → Option String) (sha256_hex : String → String) where
  -- `normalize`
  unfoldable pub normalize : String → String
  unfolding unix_lines
  normalize s = trimmed (unix_lines s)

  -- `CanonicalSpec`; `none` is its error.
  unfoldable pub canonical_spec : String → String → Option CanonicalSpec
  unfolding normalize
  canonical_spec title body =
      if not (valid_utf8 title)
        || not (valid_utf8 body)
        || ltb 1024 (byte_len title)
        || ltb 65536 (byte_len body)
      then none
      else if (normalize title == "") || normalize body == ""
      then none
      else elim (encode_spec (normalize title) (normalize body)) [
        | none ↦ none
        | some b ↦ some (record { encoded = b; digest = sha256_hex b })
      ]
