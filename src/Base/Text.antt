-- ===== src/Base/Text.antt =====
-- Go strings: lengths in bytes, character classes and case, each as far as the program uses it.
use Prim.Native.Nat.{ℕ, zero, suc}
use Prim.Native.Char.{Char, code}
use Prim.Native.String.{String, len, ◌++◌}
use mathlib.Core.Path.{◌≡◌, refl}
use mathlib.Core.Bool.{Bool, true, false, not, ◌&&◌, ◌||◌}
use text.Mathlib.Text.{starts_with}
use mathlib.Core.List.{List, [], ◌∷◌}
use sofa.Base.Lists.{any}
use sofa.Base.Eq.{◌==◌, string_eq}
use sofa.Base.Tests.{eqb, if◌then◌else◌}

-- `len(s)`, in bytes.
abbrev pub byte_len : String → ℕ
byte_len s = len s

-- `strings.HasPrefix(s, prefix)`
abbrev pub has_prefix : String → String → Bool
has_prefix s prefix = starts_with s prefix

-- `strings.ContainsAny(s, chars)`, the characters given by their code points.
unfoldable pub contains_any : String → List ℕ → Bool
contains_any String.[] chars = false
contains_any (String.◌∷◌ c s) chars = any (eqb (code c)) chars || contains_any s chars

-- `strings.Contains(s, part)`
unfoldable pub contains_text : String → String → Bool
contains_text String.[] part = starts_with String.[] part
contains_text (String.◌∷◌ c s) part = starts_with (String.◌∷◌ c s) part || contains_text s part

-- `strings.HasSuffix(s, suffix)`
unfoldable pub has_suffix : String → String → Bool
has_suffix String.[] suffix = suffix == String.[]
has_suffix (String.◌∷◌ c s) suffix = (suffix == String.◌∷◌ c s) || has_suffix s suffix

-- `strings.TrimSuffix(s, suffix)`
unfoldable pub trim_suffix : String → String → String
trim_suffix String.[] suffix = String.[]
trim_suffix (String.◌∷◌ c s) suffix =
    let rest = trim_suffix s suffix in
    if suffix == String.◌∷◌ c s then String.[] else String.◌∷◌ c rest

abbrev onto_first : Char → List String → List String
onto_first c [] = []
onto_first c (part ∷ parts) = String.◌∷◌ c part ∷ parts

-- `strings.Split(s, sep)`, for a separator of one character, given by its code point.
unfoldable pub split_on : ℕ → String → List String
split_on sep String.[] = String.[] ∷ []
split_on sep (String.◌∷◌ c s) =
    let rest = split_on sep s in if eqb (code c) sep then String.[] ∷ rest else onto_first c rest

-- `s[:n]`, of a text of ASCII characters.
unfoldable pub take_text : ℕ → String → String
take_text zero s = String.[]
take_text (suc n) String.[] = String.[]
take_text (suc n) (String.◌∷◌ c s) = String.◌∷◌ c (take_text n s)

-- `strings.ReplaceAll(s, "\r\n", "\n")` and then `strings.ReplaceAll(s, "\r", "\n")`.
unfoldable pub unix_lines : String → String
unix_lines String.[] = String.[]
unix_lines (String.◌∷◌ c s) =
    let rest = unix_lines s in
    if not (eqb (code c) b'\r')
    then String.◌∷◌ c rest
    else if has_prefix s "\n"
    then rest
    else String.◌∷◌ "\n" rest

-- Every character of the text passes the test on its code point.
unfoldable pub all_chars : (ℕ → Bool) → String → Bool
all_chars p String.[] = true
all_chars p (String.◌∷◌ c s) = p (code c) && all_chars p s

-- A letter at the place at which `from` has the character; the character itself if it has none.
unfoldable pub translate_char : String → String → Char → Char
translate_char String.[] to c = c
translate_char (String.◌∷◌ a from) String.[] c = c
translate_char (String.◌∷◌ a from) (String.◌∷◌ b to) c =
    if eqb (code a) (code c) then b else translate_char from to c

-- `strings.ToLower(s)` of a text of ASCII characters.
unfoldable pub to_lower : String → String
unfolding translate_char
to_lower String.[] = String.[]
to_lower (String.◌∷◌ c s) =
    String.◌∷◌ (translate_char "ABCDEFGHIJKLMNOPQRSTUVWXYZ" "abcdefghijklmnopqrstuvwxyz" c)
      (to_lower s)

-- `strings.EqualFold(s, t)` of texts of ASCII characters.
abbrev pub equal_fold : String → String → Bool
equal_fold s t = to_lower s == to_lower t

-- The texts in a row.
unfoldable pub concat_text : List String → String
concat_text [] = String.[]
concat_text (s ∷ rest) = s ++ concat_text rest

-- `strings.Join(parts, sep)`
unfoldable pub join : String → List String → String
join sep [] = String.[]
join sep (s ∷ []) = s
join sep (s ∷ t ∷ rest) = s ++ (sep ++ join sep (t ∷ rest))

lower_example : to_lower "Kevin/SOFA-1" ≡ "kevin/sofa-1"
unfolding to_lower
lower_example = refl

contains_example : contains_text "sofa/a..b" ".." ≡ true
unfolding contains_text
contains_example = refl

split_example : split_on b'/' "a/bc/" ≡ "a" ∷ "bc" ∷ "" ∷ []
unfolding split_on
split_example = refl

lines_example : unix_lines "a\r\nb\rc\r\r\n" ≡ "a\nb\nc\n\n"
unfolding unix_lines
lines_example = refl

suffix_example : trim_suffix "internal/" "/" ≡ "internal"
unfolding trim_suffix
suffix_example = refl
