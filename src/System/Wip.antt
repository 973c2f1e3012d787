-- ===== src/System/Wip.antt =====
-- The limit of Discovery work in progress.
use sofa.Base.{
  ◌+◌, String, Bool, ◌≡◌, refl, sym, ◌∙◌, ap, inl, inr, true, false, none, some, arith, Bool-cases,
  if◌then◌else◌, ◌==◌, option_eq, string_eq, eq_iff, some_inj, [], ◌∷◌, ◌&&◌,
}
use sofa.Base.Map.{Map, get, put, get-put, count_entries}
use sofa.State.Records.{DiscoveryTask}
use sofa.State.SameTask.{discovery_phase_eq}
use sofa.Discovery.Terms.{in_progress, in_progress_elsewhere}

-- What an assignment does to a count.
pub count_entries-put :
    {V : Type 0} (p : V → Bool) (k : String) (v w : V) (m : Map V)
    → get k m ≡ some v
    → count_entries p (put k w m) + (if p v then 1 else 0)
      ≡ count_entries p m + (if p w then 1 else 0)
unfolding get put count_entries
count_entries-put p k v w [] h = absurd (cc h)
count_entries-put p k v w ((j, x) ∷ m) h = ground (arith, count_entries-put p k v w m)

pub count_entries-put_new :
    {V : Type 0} (p : V → Bool) (k : String) (w : V) (m : Map V)
    → get k m ≡ none
    → count_entries p (put k w m) ≡ count_entries p m + (if p w then 1 else 0)
unfolding get put count_entries
count_entries-put_new p k w [] h = omega arith
count_entries-put_new p k w ((j, x) ∷ m) h = ground (arith, count_entries-put_new p k w m)

-- Every key stands once, as in a Go map.
unfoldable pub IsMap : {V : Type 0} → Map V → Type 0
IsMap [] = Unit {0}
IsMap ((k, v) ∷ m) = (get k m ≡ none) × IsMap m

get-put_other :
    {V : Type 0} (k j : String) (w : V) (m : Map V) → (k == j) ≡ false → get j (put k w m) ≡ get j m
get-put_other k j w m h = get-put k j w m ∙ rw h

pub put-IsMap : {V : Type 0} (k : String) (w : V) (m : Map V) → IsMap m → IsMap (put k w m)
unfolding put IsMap get
put-IsMap k w [] h = (refl, tt)
put-IsMap k w ((j, x) ∷ m) (free, rest) = elim (Bool-cases (j == k)) [
  | inl same ↦ rw same (rw (sym ((eq_iff j k).0 same)) free, rest)
  | inr other ↦
      rw other (
        get-put_other k j w m (ground (arith, eq_iff k j, eq_iff j k)) ∙ free,
        put-IsMap k w m rest,
      )
]

-- Every task stands under its issue's identifier.
unfoldable pub keyed : Map DiscoveryTask → Bool
keyed [] = true
keyed ((k, d) ∷ m) = (k == d.issue_id) && keyed m

pub elsewhere_all :
    (id r : String) (m : Map DiscoveryTask)
    → keyed m ≡ true
    → get id m ≡ none
    → count_entries (in_progress r) m ≡ count_entries (in_progress_elsewhere id r) m
unfolding keyed get count_entries in_progress_elsewhere
elsewhere_all id r [] h free = refl
elsewhere_all id r ((k, d) ∷ m) h free =
    ground (arith, elsewhere_all id r m, eq_iff k id, eq_iff d.issue_id id, eq_iff k d.issue_id)

pub elsewhere_but_one :
    (id r : String) (d : DiscoveryTask) (m : Map DiscoveryTask)
    → keyed m ≡ true
    → IsMap m
    → get id m ≡ some d
    → count_entries (in_progress r) m
      ≡ count_entries (in_progress_elsewhere id r) m + (if in_progress r d then 1 else 0)
unfolding keyed get count_entries in_progress_elsewhere IsMap
elsewhere_but_one id r d [] h u found = absurd (cc found)
elsewhere_but_one id r d ((k, x) ∷ m) h (free, u) found = elim (Bool-cases (k == id)) [
  | inl same ↦
      let k_id : k ≡ id = (eq_iff k id).0 same in
      let gone : get id m ≡ none = ap (λ y. get y m) (sym k_id) ∙ free in
      let x_d : x ≡ d = some_inj (rw same at found) in
      let all = elsewhere_all id r m (ground arith) gone in
      rw (sym x_d) (ground (arith, all, eq_iff x.issue_id id, eq_iff k x.issue_id))
  | inr other ↦
      let rest = elsewhere_but_one id r d m (ground arith) u (rw other at found) in
      ground (arith, rest, eq_iff k id, eq_iff x.issue_id id, eq_iff k x.issue_id)
]
