-- ===== src/State/Patterns.antt =====
-- internal/state/state.go: the regular expressions and the reference texts of the ledger.
use Prim.Native.Char.{code}
use sofa.Base.{
  ℕ, ◌≡◌, refl, String, Bool, true, false, not, [], ◌∷◌, ◌&&◌, ◌||◌, ltb, leb, eqb, if◌then◌else◌,
}
use sofa.Base.Text.{byte_len, contains_any, all_chars}

abbrev pub is_between : ℕ → ℕ → ℕ → Bool
is_between lo hi c = leb lo c && leb c hi

-- [a-f0-9]
is_hex : ℕ → Bool
is_hex c = is_between b'a' b'f' c || is_between b'0' b'9' c

-- [A-Za-z0-9_.-]
is_name_char : ℕ → Bool
is_name_char c =
    is_between b'A' b'Z' c
    || is_between b'a' b'z' c
    || is_between b'0' b'9' c
    || eqb c b'_'
    || eqb c b'.'
    || eqb c b'-'

-- ^[a-f0-9]{64}$
unfoldable pub digest_pattern : String → Bool
unfolding is_hex all_chars
digest_pattern s = all_chars is_hex s && eqb (byte_len s) 64

-- ^[a-f0-9]{40}([a-f0-9]{24})?$
unfoldable pub sha_pattern : String → Bool
unfolding is_hex all_chars
sha_pattern s = all_chars is_hex s && (eqb (byte_len s) 40 || eqb (byte_len s) 64)

-- The rest of a repository's name, in the part before or after the slash; whether that part has
-- a character already.
repo_rest : Bool → Bool → String → Bool
unfolding is_name_char
repo_rest slashed started String.[] = slashed && started
repo_rest slashed started (String.◌∷◌ c s) =
    let named = repo_rest slashed true s in
    let next = repo_rest true false s in
    if is_name_char (code c)
    then named
    else if eqb (code c) b'/' && started && not slashed
    then next
    else false

-- ^[A-Za-z0-9_.-]+/[A-Za-z0-9_.-]+$
unfoldable pub repo_pattern : String → Bool
unfolding repo_rest
repo_pattern s = repo_rest false false s

-- `reference`: 1 to 512 bytes without NUL, CR, LF, tab or space.
unfoldable pub reference : String → Bool
unfolding contains_any
reference s =
    ltb 0 (byte_len s) && leb (byte_len s) 512 && not (contains_any s (0 ∷ 13 ∷ 10 ∷ 9 ∷ 32 ∷ []))

-- `validStage`
unfoldable pub valid_stage : String → Bool
unfolding contains_any
valid_stage stage =
    not (eqb (byte_len stage) 0)
    && leb (byte_len stage) 100
    && not (contains_any stage (0 ∷ 13 ∷ 10 ∷ 9 ∷ []))

repo_example : repo_pattern "kevin/sofa-1" ≡ true
unfolding repo_pattern
repo_example = refl

repo_two_slashes : repo_pattern "kevin/sofa/x" ≡ false
unfolding repo_pattern
repo_two_slashes = refl

sha_example : sha_pattern "0123456789abcdef0123456789abcdef01234567" ≡ true
unfolding sha_pattern
sha_example = refl

reference_example : reference "run 7" ≡ false
unfolding reference
reference_example = refl
