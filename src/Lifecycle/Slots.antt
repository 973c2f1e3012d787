-- ===== src/Lifecycle/Slots.antt =====
-- internal/lifecycle/lifecycle.go: SelectOpenSlots, DependenciesReady, ChangedBacklog.
-- Issue numbers are int. `sorted` is slices.Sort, of Go's library; a parameter.
use sofa.Base.{
  ◌-◌, String, Bool, true, false, not, Option, none, some, List, [], ◌∷◌, ◌&&◌, ◌||◌, ◌==◌,
  string_eq, ltb, min, if◌then◌else◌, length, take, any,
}
use sofa.Base.Int.{ℤ, pos, pos_part, ltb_ℤ, leb_ℤ, int_eq}

-- The loop of `SelectOpenSlots`, after the candidate before.
unfoldable pub numbers_valid : Option ℤ → List ℤ → Bool
numbers_valid prior [] = true
numbers_valid none (n ∷ rest) = ltb_ℤ (pos 0) n && numbers_valid (some n) rest
numbers_valid (some p) (n ∷ rest) = ltb_ℤ (pos 0) n && not (p == n) && numbers_valid (some n) rest

module _ (sorted : List ℤ → List ℤ) where
  -- `SelectOpenSlots`; `none` is its error, and an active count and a limit are int.
  unfoldable pub select_open_slots : List ℤ → ℤ → ℤ → Option (List ℤ)
  unfolding numbers_valid
  select_open_slots candidates active limit =
      if ltb_ℤ active (pos 0)
        || ltb_ℤ limit (pos 1)
        || ltb_ℤ (pos 100) limit
        || ltb 10000 (length candidates)
      then none
      else if leb_ℤ limit active
      then some []
      else if not (numbers_valid none (sorted candidates))
      then none
      else some (
          take (min (length (sorted candidates)) (pos_part limit - pos_part active))
            (sorted candidates))

  -- `observed[number]`, the empty stage for a number that the map lacks.
  unfoldable pub stage_of : ℤ → List (ℤ × String) → String
  stage_of n [] = ""
  stage_of n ((m, stage) ∷ rest) = if m == n then stage else stage_of n rest

  -- The loop of `DependenciesReady`, with the numbers seen; it returns the missing ones.
  unfoldable pub dependencies_from : List ℤ → List (ℤ × String) → List ℤ → Option (List ℤ)
  unfolding stage_of
  dependencies_from seen observed [] = some []
  dependencies_from seen observed (n ∷ rest) =
      if leb_ℤ n (pos 0) || any (λ m. m == n) seen
      then none
      else elim (dependencies_from (n ∷ seen) observed rest) [
        | none ↦ none
        | some missing ↦ some (if stage_of n observed == "done" then missing else n ∷ missing)
      ]

  -- `DependenciesReady`; `none` is its error.
  unfoldable pub dependencies_ready : List ℤ → List (ℤ × String) → Option (Bool × List ℤ)
  unfolding dependencies_from
  dependencies_ready numbers observed = elim (dependencies_from [] observed numbers) [
    | none ↦ none
    | some [] ↦ some (true, sorted [])
    | some (n ∷ missing) ↦ some (false, sorted (n ∷ missing))
  ]

  -- The loop of `ChangedBacklog`.
  unfoldable pub changed_issues : List (ℤ × String) → List (ℤ × String) → List ℤ
  unfolding stage_of
  changed_issues [] current = []
  changed_issues ((issue, digest) ∷ approved) current =
      if stage_of issue current == digest
      then changed_issues approved current
      else issue ∷ changed_issues approved current

  -- `ChangedBacklog`
  unfoldable pub changed_backlog : List (ℤ × String) → List (ℤ × String) → List ℤ
  unfolding changed_issues
  changed_backlog approved current = sorted (changed_issues approved current)
