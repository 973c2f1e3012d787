-- ===== src/Config/Scope.antt =====
-- internal/config/config.go: what a configuration that passes Validate allows.
use mathlib.Core.List.{Memᴰ}
use mathlib.Core.Path.{subst}
use sofa.Base.{
  ◌≡◌, refl, sym, inl, inr, String, Bool, true, not, Option, none, some, List, [], ◌∷◌, ◌&&◌, ◌||◌,
  Bool-cases, some_inj, arith, all, any, all_set,
}
use sofa.Base.Int.{int_eq}
use sofa.Base.Text.{has_suffix, trim_suffix}
use sofa.Config.Records.{Config, Recipe}
use sofa.Config.Paths.{safe_path, within, allows}
use sofa.Config.Validate.{fields_valid, checks_valid, lifecycle_valid, config_valid, recipe_valid}

all-at :
    {A : Type 0} (p : A → Bool) (x : A) (xs : List A) → all p xs ≡ true → Memᴰ x xs → p x ≡ true
all-at p x [] h m = absurd (elim m [ ])
all-at p x (y ∷ xs) h m = elim m [
  | Memᴰ.head same ↦ subst (λ z. p z ≡ true) (sym same) (ground arith)
  | Memᴰ.tail rest ↦ all-at p x xs (ground arith) rest
]

any-at :
    {A : Type 0} (p : A → Bool) (xs : List A) → any p xs ≡ true → (x : A) × Memᴰ x xs × (p x ≡ true)
any-at p [] h = absurd (cc h)
any-at p (y ∷ xs) h = elim (Bool-cases (p y)) [
  | inl good ↦ (y, Memᴰ.head refl, good)
  | inr bad ↦ let (x, m, e) = any-at p xs (rw bad at h) in (x, Memᴰ.tail m, e)
]

second_and_fourth : (a b c d e : Bool) → (a && b && c && d && e) ≡ true → (b ≡ true) × (d ≡ true)
second_and_fourth a b c d e h = (ground arith, ground arith)

all_set-some :
    {A : Type 0} (p : A → Bool) (o : Option A) (x : A)
    → o ≡ some x
    → all_set p o ≡ true
    → p x ≡ true
all_set-some p none x e h = absurd (cc e)
all_set-some p (some y) x e h = subst (λ z. p z ≡ true) (some_inj e) h

module _ (clean trimmed : String → String) where
  -- An allowed path is safe, and below an entry of the configuration.
  allows-within :
      (c : Config) (p : String)
      → allows clean trimmed c p ≡ true
      → (safe_path clean trimmed p ≡ true)
        × ((entry : String) × Memᴰ entry c.allowed_paths × (within clean trimmed p entry ≡ true))
  unfolding allows
  allows-within c p h = elim (Bool-cases (safe_path clean trimmed p)) [
    | inr bad ↦ absurd (cc (rw (bad, allows) at h))
    | inl safe ↦ (safe, any-at (within clean trimmed p) c.allowed_paths (rw (safe, allows) at h))
  ]

module _ (clean trimmed : String → String) (tags_valid : Config → Bool)
    (encode : Config → Option String) (sha256_hex : String → String) where
  config_valid-paths :
      (c : Config)
      → config_valid clean trimmed tags_valid encode sha256_hex c ≡ true
      → (all (λ p. safe_path clean trimmed (trim_suffix p "/")) c.allowed_paths ≡ true)
        × (all_set (recipe_valid clean trimmed tags_valid encode sha256_hex c) c.recipe ≡ true)
  unfolding config_valid
  config_valid-paths c h =
      second_and_fourth (fields_valid clean trimmed tags_valid encode sha256_hex c)
        (all (λ p. safe_path clean trimmed (trim_suffix p "/")) c.allowed_paths)
        (checks_valid c.limits.attempt_seconds [] c.checks)
        (all_set (recipe_valid clean trimmed tags_valid encode sha256_hex c) c.recipe)
        (all_set (lifecycle_valid clean trimmed tags_valid encode sha256_hex c) c.lifecycle) h

  recipe_valid-paths :
      (c : Config) (r : Recipe)
      → recipe_valid clean trimmed tags_valid encode sha256_hex c r ≡ true
      → all
          (λ p. not (
            not (safe_path clean trimmed p)
            || not (has_suffix p ".go")
            || not (allows clean trimmed c p)))
          r.paths
        ≡ true
  unfolding recipe_valid
  recipe_valid-paths c r h = ground arith

  -- In a configuration that passes Validate, every file of the recipe is a safe path to a Go file,
  -- and lies below an allowed entry which is itself a safe path up to its final slash.
  pub recipe_confined :
      (c : Config) (r : Recipe) (p : String)
      → config_valid clean trimmed tags_valid encode sha256_hex c ≡ true
      → c.recipe ≡ some r
      → Memᴰ p r.paths
      → (safe_path clean trimmed p ≡ true)
        × (has_suffix p ".go" ≡ true)
        × ((entry : String) × Memᴰ entry c.allowed_paths
            × (within clean trimmed p entry ≡ true)
            × (safe_path clean trimmed (trim_suffix entry "/") ≡ true))
  recipe_confined c r p v e m =
      let (entries, files) = config_valid-paths c v in
      let recipe =
        all_set-some (recipe_valid clean trimmed tags_valid encode sha256_hex c) c.recipe r e
          files in
      let good = all-at _ p r.paths (recipe_valid-paths c r recipe) m in
      let allowed : allows clean trimmed c p ≡ true = ground arith in
      let go_file : has_suffix p ".go" ≡ true = ground arith in
      let (safe, (entry, at, below)) = allows-within clean trimmed c p allowed in
      (safe, go_file, (entry, at, below, all-at _ entry c.allowed_paths entries at))
