-- ===== src/Authority/Libraries.antt =====
-- The functions of Go's library and of go-playground/validator that admission and configuration
-- call.
use sofa.Base.{String, Bool, Option}
use sofa.Config.Records.{Config}
use sofa.Config.Validate.{config_digest}
use sofa.Authority.Grant.{CanonicalSpec, canonical_spec}

pub record Libraries : Type 0 where
  -- path.Clean
  pub clean : String → String
  -- strings.TrimSpace
  pub trimmed : String → String
  -- utf8.ValidString
  pub valid_utf8 : String → Bool
  -- The struct tags of a configuration hold.
  pub tags_valid : Config → Bool
  -- json.Marshal of a configuration, and of a title and a body
  pub encode_config : Config → Option String
  pub encode_spec : String → String → Option String
  -- The hexadecimal digits of a SHA-256 sum.
  pub sha256_hex : String → String

-- `c.Digest()`
abbrev pub digest_of : Libraries → Config → Option String
digest_of lib c =
    config_digest lib.clean lib.trimmed lib.tags_valid lib.encode_config lib.sha256_hex c

-- `CanonicalSpec(title, body)`
abbrev pub spec_of : Libraries → String → String → Option CanonicalSpec
spec_of lib title body =
    canonical_spec lib.valid_utf8 lib.trimmed lib.encode_spec lib.sha256_hex title body
