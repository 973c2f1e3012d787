-- ===== src/Store/Decimal.antt =====
-- strconv.FormatUint(n, 10): the decimal digits of a revision, most significant first.
use Prim.Native.Char.{Char, code}
use Prim.Native.String.{String}
use sofa.Base.{
  ℕ, zero, suc, ◌+◌, ◌-◌, ◌*◌, ◌/◌, ◌%◌, ◌<◌, ◌≡◌, refl, sym, ◌∙◌, ap, ◌≢◌, arith, ltb, Bool-cases,
  inl, inr, true, false, Bool, if◌then◌else◌, [], ◌∷◌,
}
use sofa.Base.Int.{ℤ, pos, negsuc}
use sofa.Base.Text.{concat_text}

-- The character at a place of a text, or the one given.
char_or : Char → String → ℕ → Char
char_or c String.[] i = c
char_or c (String.◌∷◌ d s) zero = d
char_or c (String.◌∷◌ d s) (suc i) = char_or c s i

digit : ℕ → Char
unfolding char_or
digit d = char_or "0" "0123456789" d

code-digit : (d : ℕ) → d < 10 → code (digit d) ≡ d + 48
unfolding digit
code-digit zero h = refl
code-digit (suc zero) h = refl
code-digit (suc (suc zero)) h = refl
code-digit (suc (suc (suc zero))) h = refl
code-digit (suc (suc (suc (suc zero)))) h = refl
code-digit (suc (suc (suc (suc (suc zero))))) h = refl
code-digit (suc (suc (suc (suc (suc (suc zero)))))) h = refl
code-digit (suc (suc (suc (suc (suc (suc (suc zero))))))) h = refl
code-digit (suc (suc (suc (suc (suc (suc (suc (suc zero)))))))) h = refl
code-digit (suc (suc (suc (suc (suc (suc (suc (suc (suc zero))))))))) h = refl
code-digit (suc (suc (suc (suc (suc (suc (suc (suc (suc (suc d)))))))))) h = absurd (omega arith)

-- The digits of `n` in front of a text; the fuel is above `n`.
format_onto : ℕ → ℕ → String → String
unfolding digit
format_onto zero n s = s
format_onto (suc fuel) n s =
    let rest = format_onto fuel (n / 10) (String.◌∷◌ (digit (n % 10)) s) in
    if ltb n 10 then String.◌∷◌ (digit n) s else rest

unfoldable pub format_uint : ℕ → String
unfolding format_onto
format_uint n = format_onto (suc n) n String.[]

-- `%d` of an int64.
unfoldable pub format_int : ℤ → String
unfolding format_uint
format_int (pos n) = format_uint n
format_int (negsuc n) = concat_text ("-" ∷ format_uint (suc n) ∷ [])

-- The number that a text of digits continues.
value_from : ℕ → String → ℕ
value_from v String.[] = v
value_from v (String.◌∷◌ c s) = value_from (10 * v + (code c - 48)) s

value-format_onto :
    (fuel n : ℕ) (s : String) → n < fuel → value_from 0 (format_onto fuel n s) ≡ value_from n s
unfolding value_from format_onto
value-format_onto zero n s h = elim h [ ]
value-format_onto (suc fuel) n s h = elim (Bool-cases (ltb n 10)) [
  | inl small ↦ rw small (ap (λ v. value_from v s) (omega (arith, code-digit n (ground arith))))
  | inr big ↦ rw big (
      value-format_onto fuel (n / 10) (String.◌∷◌ (digit (n % 10)) s) (ground arith)
      ∙ ap (λ v. value_from v s) (omega (arith, code-digit (n % 10) (omega arith))))
]

-- The digits determine the number.
pub format_uint-injective : (m n : ℕ) → format_uint m ≡ format_uint n → m ≡ n
unfolding format_uint value_from
format_uint-injective m n e =
    sym (value-format_onto (suc m) m String.[] (omega arith))
    ∙ ap (value_from 0) e
    ∙ value-format_onto (suc n) n String.[] (omega arith)

is_empty : String → Bool
is_empty String.[] = true
is_empty (String.◌∷◌ c s) = false

format_onto-nonempty :
    (fuel n : ℕ) (c : Char) (s : String) → is_empty (format_onto fuel n (String.◌∷◌ c s)) ≡ false
unfolding is_empty format_onto
format_onto-nonempty zero n c s = refl
format_onto-nonempty (suc fuel) n c s =
    ground (arith, format_onto-nonempty fuel (n / 10) (digit (n % 10)) (String.◌∷◌ c s))

format_uint-nonempty : (n : ℕ) → is_empty (format_uint n) ≡ false
unfolding is_empty format_uint
format_uint-nonempty n = ground (arith, format_onto-nonempty n (n / 10) (digit (n % 10)) String.[])

-- The digits are never the empty text.
pub format_uint-ne-empty : (n : ℕ) → format_uint n ≢ ""
unfolding is_empty
format_uint-ne-empty n e =
    let h : is_empty "" ≡ false = ap is_empty (sym e) ∙ format_uint-nonempty n in cc h

format_example : format_uint 9071 ≡ "9071"
unfolding format_uint
format_example = refl
