-- ===== src/Base/Map.antt =====
-- Go maps with string keys, as association lists in the order in which a `range` visits them.
use Prim.Native.Nat.{ℕ, ◌+◌}
use Prim.Native.String.{String}
use mathlib.Core.Path.{◌≡◌, refl}
use mathlib.Core.Bool.{Bool, true, ◌&&◌}
use mathlib.Core.Option.{Option, none, some}
use mathlib.Core.List.{List, [], ◌∷◌}
use native.Mathlib.Omega.{arith}
use text.Mathlib.TextEquality.{eq_iff}
use sofa.Base.Tests.{if◌then◌else◌}
use sofa.Base.Eq.{◌==◌, string_eq}

abbrev pub Map {ℓ} : Type ℓ → Type ℓ
Map V = List (String × V)

module _ {ℓ} {V : Type ℓ} where
  -- `v, ok := m[k]`
  unfoldable pub get : String → Map V → Option V
  get k [] = none
  get k ((j, v) ∷ m) = if j == k then some v else get k m

  -- `m[k] = v`
  unfoldable pub put : String → V → Map V → Map V
  put k v [] = (k, v) ∷ []
  put k v ((j, w) ∷ m) = if j == k then (k, v) ∷ m else (j, w) ∷ put k v m

  -- `delete(m, k)`
  unfoldable pub delete_key : String → Map V → Map V
  delete_key k [] = []
  delete_key k ((j, w) ∷ m) = let rest = delete_key k m in if j == k then rest else (j, w) ∷ rest

  -- How many entries pass a test.
  unfoldable pub count_entries : (V → Bool) → Map V → ℕ
  count_entries p [] = 0
  count_entries p ((k, v) ∷ m) = (if p v then 1 else 0) + count_entries p m

  -- The body of a `range` loop holds of every entry.
  unfoldable pub all_entries : (String → V → Bool) → Map V → Bool
  all_entries p [] = true
  all_entries p ((k, v) ∷ m) = p k v && all_entries p m

  pub get-put :
      (k j : String) (v : V) (m : Map V) → get j (put k v m) ≡ (if k == j then some v else get j m)
  unfolding get put
  get-put k j v [] = refl
  get-put k j v ((i, w) ∷ m) = ground (arith, eq_iff k j, eq_iff i k, eq_iff i j, get-put k j v m)

  pub get-put_self : (k : String) (v : V) (m : Map V) → get k (put k v m) ≡ some v
  get-put_self k v m = ground (arith, get-put k k v m, eq_iff k k)

  pub all_entries-put :
      (p : String → V → Bool) (k : String) (v : V) (m : Map V)
      → p k v ≡ true
      → all_entries p m ≡ true
      → all_entries p (put k v m) ≡ true
  unfolding all_entries put
  all_entries-put p k v [] h a = ground arith
  all_entries-put p k v ((j, w) ∷ m) h a = ground (arith, all_entries-put p k v m h)

  pub all_entries-get :
      (p : String → V → Bool) (k : String) (v : V) (m : Map V)
      → all_entries p m ≡ true
      → get k m ≡ some v
      → p k v ≡ true
  unfolding all_entries get
  all_entries-get p k v [] a e = ground arith
  all_entries-get p k v ((j, w) ∷ m) a e = ground (arith, eq_iff j k, all_entries-get p k v m)
