-- ===== src/Reconcile/Items.antt =====
-- internal/lifecycle/reconcile.go: the attempt that the index gives for an item is the only one.
use mathlib.Core.Path.{subst}
use sofa.Base.{
  ap, suc, ◌≡◌, refl, sym, ◌∙◌, inl, inr, ◌⊎◌, String, Bool, true, false, none, some, [], ◌∷◌, ◌&&◌,
  ◌==◌, string_eq, arith, Bool-cases, Option-cases, some_inj, eq_iff,
}
use sofa.Base.Map.{Map, get, put, get-put, count_entries}
use sofa.State.Clock.{is_zero}
use sofa.State.Records.{Attempt}
use sofa.Reconcile.Input.{ItemIndex, index_step, index_from, holds_at}

-- A live attempt of an item.
unfoldable pub lives_at : String → Attempt → Bool
lives_at k a = is_zero a.superseded_at && a.admission.project_item_id == k

-- What the index has for an item before the loop, and what the loop still meets.
record OnlyOne (k : String) (i : ItemIndex) (m : Map Attempt) (a : Attempt) : Type 0 where
  one_way :
      ((get k i.attempts ≡ some a) × (count_entries (lives_at k) m ≡ 0))
      ⊎ ((get k i.attempts ≡ none) × (lives_at k a ≡ true) × (count_entries (lives_at k) m ≡ 1))

-- The three ends of the body of the loop.
data StepCase (i : ItemIndex) (a : Attempt) : ItemIndex → Type 0 where
  skipped : is_zero a.superseded_at ≡ false → StepCase i a i
  second :
      is_zero a.superseded_at ≡ true
      → (b : Attempt) → get a.admission.project_item_id i.attempts ≡ some b
      → StepCase i a (record i { ambiguous = put a.admission.project_item_id true i.ambiguous })
  first :
      is_zero a.superseded_at ≡ true
      → get a.admission.project_item_id i.attempts ≡ none
      → StepCase i a (record i { attempts = put a.admission.project_item_id a i.attempts })

index_step-StepCase : (i : ItemIndex) (a : Attempt) → StepCase i a (index_step i a)
unfolding index_step
index_step-StepCase i a = elim (Bool-cases (is_zero a.superseded_at)) [
  | inr gone ↦ rw gone (StepCase.skipped gone)
  | inl live ↦ elim (Option-cases (get a.admission.project_item_id i.attempts)) [
    | inl e ↦ rw (live, index_step, e) (StepCase.first live e)
    | inr (b, e) ↦ rw (live, index_step, e) (StepCase.second live b e)
  ]
]

holds_at-put :
    (k j : String) (m : Map Bool) → holds_at j m ≡ true → holds_at j (put k true m) ≡ true
unfolding holds_at
holds_at-put k j m h = elim (Bool-cases (k == j)) [
  | inl same ↦ rw (get-put k j true m, holds_at, same) refl
  | inr other ↦ rw (get-put k j true m, holds_at, other) h
]

holds_at-put_self :
    (k j : String) (m : Map Bool) → (k == j) ≡ true → holds_at j (put k true m) ≡ true
unfolding holds_at
holds_at-put_self k j m same = rw (get-put k j true m, holds_at, same) refl

ambiguous_stays :
    (k : String) (i : ItemIndex) (m : Map Attempt)
    → holds_at k i.ambiguous ≡ true
    → holds_at k (index_from i m).ambiguous ≡ true
unfolding index_from
ambiguous_stays k i [] h = h
ambiguous_stays k i ((id, a) ∷ m) h =
    ambiguous_stays k (index_step i a) m
      (elim (index_step-StepCase i a) as (λ j _. holds_at k j.ambiguous ≡ true) [
        | StepCase.skipped gone ↦ h
        | StepCase.second live b e ↦ holds_at-put a.admission.project_item_id k i.ambiguous h
        | StepCase.first live e ↦ h
      ])

counts_live :
    (k id : String) (x : Attempt) (m : Map Attempt)
    → lives_at k x ≡ true
    → count_entries (lives_at k) ((id, x) ∷ m) ≡ suc (count_entries (lives_at k) m)
unfolding count_entries
counts_live k id x m h = rw h (omega arith)

counts_other :
    (k id : String) (x : Attempt) (m : Map Attempt)
    → lives_at k x ≡ false
    → count_entries (lives_at k) ((id, x) ∷ m) ≡ count_entries (lives_at k) m
unfolding count_entries
counts_other k id x m h = rw h (omega arith)

step-OnlyOne :
    (k id : String) (i : ItemIndex) (x a : Attempt) (j : ItemIndex) (m : Map Attempt)
    → StepCase i x j
    → holds_at k j.ambiguous ≡ false
    → OnlyOne k j m a
    → OnlyOne k i ((id, x) ∷ m) a
unfolding lives_at
step-OnlyOne k id i x a j m (StepCase.skipped gone) one o = record {
  one_way = elim o.one_way [
    | inl (at, rest) ↦ inl (at, counts_other k id x m (rw gone refl) ∙ rest)
    | inr (free, live, rest) ↦ inr (free, live, counts_other k id x m (rw gone refl) ∙ rest)
  ];
}
step-OnlyOne k id i x a j m (StepCase.second alive b e) one o =
    elim (Bool-cases (x.admission.project_item_id == k)) [
      | inl same ↦
          absurd (cc (holds_at-put_self x.admission.project_item_id k i.ambiguous same, one))
      | inr other ↦ record {
        one_way = elim o.one_way [
          | inl (at, rest) ↦ inl (at, counts_other k id x m (rw (alive, other) refl) ∙ rest)
          | inr (free, live, rest) ↦
              inr (free, live, counts_other k id x m (rw (alive, other) refl) ∙ rest)
        ];
      }
    ]
step-OnlyOne k id i x a j m (StepCase.first alive e) one o =
    elim (Bool-cases (x.admission.project_item_id == k)) [
      | inl same ↦
          let key = (eq_iff x.admission.project_item_id k).0 same in
          let now : get k j.attempts ≡ some x =
            get-put x.admission.project_item_id k x i.attempts ∙ rw same refl in
          let mine : lives_at k x ≡ true = rw (alive, same) refl in
          record {
            one_way = elim o.one_way [
              | inl (at, rest) ↦
                  let xa : x ≡ a = some_inj (sym now ∙ at) in
                  inr (
                    ap (λ y. get y i.attempts) (sym key) ∙ e,
                    subst (λ y. lives_at k y ≡ true) xa mine,
                    counts_live k id x m mine ∙ ap suc rest,
                  )
              | inr (free, live, rest) ↦ absurd (cc (now, free))
            ];
          }
      | inr other ↦
          let still : get k j.attempts ≡ get k i.attempts =
            get-put x.admission.project_item_id k x i.attempts ∙ rw other refl in
          let uncounted = counts_other k id x m (rw (alive, other) refl) in
          record {
            one_way = elim o.one_way [
              | inl (at, rest) ↦ inl (sym still ∙ at, uncounted ∙ rest)
              | inr (free, live, rest) ↦ inr (sym still ∙ free, live, uncounted ∙ rest)
            ];
          }
    ]

index_from-OnlyOne :
    (k : String) (i : ItemIndex) (m : Map Attempt) (a : Attempt)
    → get k (index_from i m).attempts ≡ some a
    → holds_at k (index_from i m).ambiguous ≡ false
    → OnlyOne k i m a
unfolding index_from count_entries
index_from-OnlyOne k i [] a found one = record { one_way = inl (found, refl) }
index_from-OnlyOne k i ((id, x) ∷ m) a found one =
    let j = index_step i x in
    let before : holds_at k j.ambiguous ≡ false = elim (Bool-cases (holds_at k j.ambiguous)) [
      | inr clear ↦ clear
      | inl bad ↦ absurd (cc (ambiguous_stays k j m bad, one))
    ] in
    step-OnlyOne k id i x a j m (index_step-StepCase i x) before
      (index_from-OnlyOne k j m a found one)

-- The attempt that the index of a ledger gives for a Project item that is not ambiguous is live and
-- of that item, and no other entry of the ledger's attempts is.
pub index_unique :
    (k : String) (m : Map Attempt) (a : Attempt)
    → get k (index_from (record { attempts = []; ambiguous = [] }) m).attempts ≡ some a
    → holds_at k (index_from (record { attempts = []; ambiguous = [] }) m).ambiguous ≡ false
    → (lives_at k a ≡ true) × (count_entries (lives_at k) m ≡ 1)
unfolding get
index_unique k m a found one =
    elim (index_from-OnlyOne k (record { attempts = []; ambiguous = [] }) m a found one).one_way [
      | inl (at, _) ↦ absurd (cc at)
      | inr (_, live, once) ↦ (live, once)
    ]
