-- ===== src/Config/Validate.antt =====
-- internal/config/config.go: Validate and Digest; an error is `false`, or `none`.
-- Parameters: path.Clean, strings.TrimSpace, the struct tags as go-playground/validator checks
-- them, the JSON encoding and SHA-256 in hexadecimal digits.
use Prim.Native.Char.{code}
use sofa.Base.{
  ℕ, String, Bool, true, false, not, Option, none, some, List, [], ◌∷◌, ◌&&◌, ◌||◌, ◌==◌, string_eq,
  bool_eq, ltb, leb, eqb, if◌then◌else◌, all, any, all_set, length,
}
use sofa.Base.Int.{ℤ, pos, ltb_ℤ}
use sofa.Base.Text.{byte_len, contains_any, has_suffix, trim_suffix, all_chars}
use sofa.State.Patterns.{is_between}
use sofa.Lifecycle.Stages.{stages, status_of, statuses_distinct}
use sofa.Config.Records.{
  Check, Recipe, Lifecycle, RequiredCheck, Config, effective_advice_fields, same_check,
}
use sofa.Config.Paths.{safe_path, allows}

is_upper : ℕ → Bool
is_upper c = is_between 65 90 c

is_digit : ℕ → Bool
is_digit c = is_between 48 57 c

is_alnum : ℕ → Bool
unfolding is_upper is_digit
is_alnum c = is_upper c || is_between 97 122 c || is_digit c

-- The rest of a repository, in the part before or after the slash; whether that part has begun.
repository_rest : Bool → Bool → String → Bool
unfolding is_alnum
repository_rest slashed started String.[] = slashed && started
repository_rest slashed started (String.◌∷◌ c s) =
    let named = repository_rest slashed true s in
    let after = repository_rest true false s in
    if is_alnum (code c)
    then named
    else if started && (eqb (code c) 95 || eqb (code c) 46 || eqb (code c) 45)
    then named
    else if started && eqb (code c) 47 && not slashed
    then after
    else false

-- ^[A-Za-z0-9][A-Za-z0-9_.-]*/[A-Za-z0-9][A-Za-z0-9_.-]*$
unfoldable pub repository_pattern : String → Bool
unfolding repository_rest
repository_pattern s = repository_rest false false s

-- ^[A-Z][A-Z0-9_]{0,63}$
unfoldable pub env_pattern : String → Bool
unfolding is_upper is_digit
env_pattern String.[] = false
env_pattern (String.◌∷◌ c s) =
    is_upper (code c)
    && all_chars (λ d. is_upper d || is_digit d || eqb d 95) s
    && leb (byte_len s) 63

-- ^[A-Za-z0-9][A-Za-z0-9_-]{0,63}$
unfoldable pub id_pattern : String → Bool
unfolding is_alnum
id_pattern String.[] = false
id_pattern (String.◌∷◌ c s) =
    is_alnum (code c)
    && all_chars (λ d. is_alnum d || eqb d 95 || eqb d 45) s
    && leb (byte_len s) 63

-- An identity: 1 to 128 bytes without blanks.
unfoldable pub identity : String → Bool
identity v = not ((v == "") || ltb 128 (byte_len v) || contains_any v (32 ∷ 9 ∷ 13 ∷ 10 ∷ 0 ∷ []))

-- The arguments of a check. Its command is not empty: the struct tags ask for an argument.
unfoldable pub argv_valid : List String → Bool
argv_valid [] = false
argv_valid (command ∷ args) =
    all (λ arg. not (ltb 4096 (byte_len arg) || contains_any arg (0 ∷ []))) (command ∷ args)
    && not (command == "")

-- The loop over `Checks`, with the identifiers seen.
unfoldable pub checks_valid : ℤ → List String → List Check → Bool
unfolding id_pattern argv_valid
checks_valid attempt_seconds seen [] = true
checks_valid attempt_seconds seen (check ∷ rest) =
    let later = checks_valid attempt_seconds (check.id ∷ seen) rest in
    if not (id_pattern check.id)
      || any (λ x. x == check.id) seen
      || ltb_ℤ check.timeout_seconds (pos 1)
      || ltb_ℤ attempt_seconds check.timeout_seconds
    then false
    else argv_valid check.argv && later

-- The loop over the Project fields, with the names seen.
unfoldable pub fields_distinct : List String → List String → Bool
fields_distinct seen [] = true
fields_distinct seen (field ∷ rest) =
    let skipped = fields_distinct seen rest in
    let later = fields_distinct (field ∷ seen) rest in
    if field == "" then skipped else if any (λ x. x == field) seen then false else later

-- The loop over the required checks of a release, with those seen.
unfoldable pub release_checks_valid : List RequiredCheck → List RequiredCheck → Bool
unfolding same_check
release_checks_valid seen [] = true
release_checks_valid seen (check ∷ rest) =
    let later = release_checks_valid (check ∷ seen) rest in
    if ltb 128 (byte_len check.name)
      || contains_any check.name (13 ∷ 10 ∷ 0 ∷ [])
      || any (λ x. same_check x check) seen
    then false
    else later

module _ (clean trimmed : String → String) (tags_valid : Config → Bool)
    (encode : Config → Option String) (sha256_hex : String → String) where
  -- The name of a Project field.
  unfoldable pub field_valid : String → Bool
  field_valid field = not (
      ltb 100 (byte_len field)
      || contains_any field (13 ∷ 10 ∷ 0 ∷ [])
      || not (field == "") && not (trimmed field == field))

  -- The branch `c.Lifecycle != nil`.
  unfoldable pub lifecycle_valid : Config → Lifecycle → Bool
  unfolding field_valid fields_distinct release_checks_valid effective_advice_fields
      statuses_distinct status_of
  lifecycle_valid c l =
      let advice = effective_advice_fields l in
      statuses_distinct trimmed l.statuses [] stages
      && (status_of l.statuses "ready" == c.ready_status)
      && not (
          not (l.spec_author_id == "")
          && (ltb 128 (byte_len l.spec_author_id)
              || contains_any l.spec_author_id (32 ∷ 9 ∷ 13 ∷ 10 ∷ 0 ∷ [])))
      && all field_valid (
          l.dependencies_field ∷ l.priority_field ∷ l.blocked_reason_field ∷ l.next_action_field
          ∷ [])
      && ((l.blocked_reason_field == "") == (l.next_action_field == ""))
      && fields_distinct ("Status" ∷ [])
          (l.dependencies_field ∷ l.priority_field ∷ advice.0 ∷ advice.1 ∷ [])
      && release_checks_valid [] l.required_checks

  -- The branch `c.Recipe != nil`.
  unfoldable pub recipe_valid : Config → Recipe → Bool
  unfolding safe_path allows
  recipe_valid c r =
      not (ltb_ℤ c.limits.max_files (pos (length r.paths)))
      && all
          (λ p. not (
            not (safe_path clean trimmed p)
            || not (has_suffix p ".go")
            || not (allows clean trimmed c p)))
          r.paths

  -- `Validate`, as far as the limits.
  unfoldable pub fields_valid : Config → Bool
  unfolding repository_pattern env_pattern identity
  fields_valid c =
      tags_valid c
      && repository_pattern c.repository
      && all identity (c.repository_id ∷ c.project_id ∷ c.owner_id ∷ [])
      && not (
          ltb 100 (byte_len c.ready_status)
          || not (trimmed c.ready_status == c.ready_status)
          || contains_any c.ready_status (13 ∷ 10 ∷ 0 ∷ []))
      && env_pattern c.profile.secret_env
      && not (
          any (λ x. x == c.profile.secret_env)
            ("SOFA_PROJECTS_TOKEN" ∷ "SOFA_PUBLISH_TOKEN" ∷ "SOFA_STATE_TOKEN"
              ∷ "SOFA_APP_PRIVATE_KEY" ∷ []))
      && not (ltb_ℤ c.limits.max_total_bytes c.limits.max_file_bytes)

  -- `Validate`
  unfoldable pub config_valid : Config → Bool
  unfolding fields_valid recipe_valid lifecycle_valid checks_valid
  config_valid c =
      fields_valid c
      && all (λ p. safe_path clean trimmed (trim_suffix p "/")) c.allowed_paths
      && checks_valid c.limits.attempt_seconds [] c.checks
      && all_set (recipe_valid c) c.recipe
      && all_set (lifecycle_valid c) c.lifecycle

  -- `Digest`
  unfoldable pub config_digest : Config → Option String
  unfolding config_valid
  config_digest c =
      if not (config_valid c)
      then none
      else elim (encode c) [ none ↦ none | some b ↦ some (sha256_hex b) ]
