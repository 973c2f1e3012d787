-- ===== src/Config/Paths.antt =====
-- internal/config/config.go: SafePath and Allows. path.Clean and strings.TrimSpace are parameters.
use sofa.Base.{
  String, ◌≡◌, refl, Bool, false, not, [], ◌∷◌, ◌&&◌, ◌||◌, ◌==◌, string_eq, ltb, if◌then◌else◌,
  all, any,
}
use sofa.Base.Text.{byte_len, contains_any, has_prefix, has_suffix, split_on, translate_char}
use sofa.Config.Records.{Config}

-- `strings.ToLower(part)`, as far as the tests of `SafePath` see it: beside A to Z there are two
-- characters whose lower case is an ASCII letter, the dotted capital I and the Kelvin sign.
unfoldable pub lower_part : String → String
unfolding translate_char
lower_part String.[] = String.[]
lower_part (String.◌∷◌ c s) =
    String.◌∷◌ (translate_char "ABCDEFGHIJKLMNOPQRSTUVWXYZİK" "abcdefghijklmnopqrstuvwxyzik" c)
      (lower_part s)

module _ (clean trimmed : String → String) where
  -- The body of the loop of `SafePath`, on one part of the path.
  unfoldable pub safe_part : String → Bool
  unfolding lower_part
  safe_part part =
      not ((part == "..") || (part == ".") || not (trimmed part == part) || has_suffix part ".")
      && not ((lower_part part == ".git") || has_prefix (lower_part part) ".git:")

  -- `SafePath`
  unfoldable pub safe_path : String → Bool
  unfolding safe_part split_on
  safe_path p =
      if (p == "")
        || (p == ".")
        || ltb 512 (byte_len p)
        || not (clean p == p)
        || has_prefix p "/"
        || contains_any p (92 ∷ 58 ∷ 0 ∷ 13 ∷ 10 ∷ 9 ∷ 42 ∷ 63 ∷ 91 ∷ 93 ∷ [])
      then false
      else all safe_part (split_on 47 p)

  -- The body of the loop of `Allows`.
  unfoldable pub within : String → String → Bool
  within p allowed = if has_suffix allowed "/" then has_prefix p allowed else p == allowed

  -- `Allows`
  unfoldable pub allows : Config → String → Bool
  unfolding safe_path within
  allows c p = if not (safe_path p) then false else any (within p) c.allowed_paths

dotted_example : lower_part ".Gİt" ≡ ".git"
unfolding lower_part translate_char
dotted_example = refl

kelvin_example : lower_part "K" ≡ "k"
unfolding lower_part translate_char
kelvin_example = refl
