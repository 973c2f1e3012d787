-- ===== src/Store/Revisions.antt =====
-- Revisions of the memory store: fewer than 2 ^ 64 swaps never bring one back.
use sofa.Base.{
  ℕ, zero, suc, ◌+◌, ◌%◌, ◌<◌, String, ◌≡◌, refl, sym, ◌∙◌, ◌≢◌, Bool, none, arith, string_eq,
  Option-cases, inl, inr,
}
use sofa.State.Records.{Ledger}
use sofa.State.Validate.{AttemptKey}
use sofa.Store.Decimal.{format_uint, format_uint-injective, format_uint-ne-empty}
use sofa.Store.Memory.{Codec, MemoryStore, current, compare_and_swap}

module _ (digest : AttemptKey → String) (codec : Codec digest) where
  abbrev M : Type 0
  M = MemoryStore digest codec

  -- So many successful swaps lead from one store to another.
  pub data Swaps (m : M) : ℕ → M → Type 0 where
    here : Swaps m zero m
    swapped :
        {k : ℕ} {n u : M} (done : Bool) (r : String) (t : Ledger)
        → Swaps m k n
        → compare_and_swap digest codec done n r t ≡ (u, none)
        → Swaps m (suc k) u

  swap_counts :
      (done : Bool) (n u : M) (r : String) (t : Ledger)
      → compare_and_swap digest codec done n r t ≡ (u, none)
      → (u.revision ≡ (n.revision + 1) % 18446744073709551616) × (u.content ≢ none)
  unfolding compare_and_swap
  swap_counts done n u r t h = ground arith

  Swaps-revision :
      {m n : M} {k : ℕ}
      → m.revision < 18446744073709551616
      → Swaps m k n
      → (n.revision ≡ (m.revision + k) % 18446744073709551616)
  Swaps-revision fit here = omega arith
  Swaps-revision {m} fit (swapped {k} {n} {u} done r t q h) =
      omega (arith, Swaps-revision fit q, (swap_counts done n u r t h).0)

  current-full : (n : M) → n.content ≢ none → current digest codec n ≡ format_uint n.revision
  unfolding current
  current-full n h = ground arith

  current-empty : (m : M) → m.content ≡ none → current digest codec m ≡ ""
  unfolding current
  current-empty m h = rw h refl

  -- Along fewer than 2 ^ 64 successful swaps, a store shows the revision that it began with only
  -- if none of them took place, and is then that store: a reader who finds its revision again has
  -- read the current ledger.
  pub no_reuse_of_revisions :
      (m n : M) (k : ℕ)
      → m.revision < 18446744073709551616
      → k < 18446744073709551616
      → Swaps m k n
      → current digest codec n ≡ current digest codec m
      → n ≡ m
  no_reuse_of_revisions m n zero fit few here e = refl
  no_reuse_of_revisions m n (suc k) fit few (swapped {n = p} done r t q h) e =
      let (rev, full) = swap_counts done p n r t h in
      let total = Swaps-revision fit q in
      elim (Option-cases m.content) [
        | inl nothing ↦ absurd (
            format_uint-ne-empty n.revision
              (sym (current-full n full) ∙ e ∙ current-empty m nothing))
        | inr (b, some_content) ↦
            let filled : m.content ≢ none = λ x. cc (some_content, x) in
            let back =
              format_uint-injective n.revision m.revision
                (sym (current-full n full) ∙ e ∙ current-full m filled) in
            absurd (omega arith)
      ]
