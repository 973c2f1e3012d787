-- ===== src/Engine/Budget.antt =====
-- Charges and the budget: the int64 sums of `Charge` against sums that cannot overflow.
use sofa.Base.{◌<◌, ◌≡◌, sym, ◌∙◌, Bool, true, ◌&&◌, arith, if◌then◌else◌}
use sofa.Base.Int.{ℤ, pos, negsuc, ◌+ℤ◌, leb_ℤ, add_int64, int64_bound, pos_part}
use sofa.State.Records.{Limits, Counters, Attempt}
use sofa.State.Valid.{counters_valid, permits}
use sofa.Engine.Outcome.{Error, Edit}
use sofa.Engine.Ownership.{is_settled}
use sofa.Engine.Work.{add_counters, charge_edit}

-- The counters after a charge, in unbounded integers.
unfoldable pub exact_add : Counters → Counters → Counters
exact_add c delta = record {
  model_calls = c.model_calls +ℤ delta.model_calls;
  repairs = c.repairs +ℤ delta.repairs;
  infrastructure_retries = c.infrastructure_retries +ℤ delta.infrastructure_retries;
  runtime_seconds = c.runtime_seconds +ℤ delta.runtime_seconds;
}

-- The values fit int64 from above.
pub record Fit (c : Counters) : Type 0 where
  pub model_calls : pos_part c.model_calls < int64_bound
  pub repairs : pos_part c.repairs < int64_bound
  pub infrastructure_retries : pos_part c.infrastructure_retries < int64_bound
  pub runtime_seconds : pos_part c.runtime_seconds < int64_bound

pub record LimitsFit (l : Limits) : Type 0 where
  pub model_calls : pos_part l.model_calls < int64_bound
  pub repairs : pos_part l.repairs < int64_bound
  pub infrastructure_retries : pos_part l.infrastructure_retries < int64_bound
  pub runtime_seconds : pos_part l.runtime_seconds < int64_bound

abbrev within : ℤ → ℤ → Bool
within l n = leb_ℤ (pos 0) n && leb_ℤ n l

abbrev Nonneg : ℤ → Type 0
Nonneg n = leb_ℤ (pos 0) n ≡ true

-- Under a limit of int64, the wrapped sum passes where the true sum does, and is then that sum.
add-within :
    (l c d : ℤ)
    → Nonneg c
    → Nonneg d
    → pos_part l < int64_bound
    → pos_part c < int64_bound
    → pos_part d < int64_bound
    → (within l (add_int64 c d) ≡ within l (c +ℤ d))
      × (within l (c +ℤ d) ≡ true → add_int64 c d ≡ c +ℤ d)
unfolding add_int64
add-within l (pos c) (pos d) hc hd bl bc bd = ground arith
add-within l (pos c) (negsuc d) hc hd bl bc bd = ground arith
add-within l (negsuc c) d hc hd bl bc bd = ground arith

-- The limits permit the wrapped counters exactly when they permit the true ones.
permits-within :
    (l : Limits) (c : Counters)
    → permits l c ≡ (
        within l.model_calls c.model_calls
        && within l.repairs c.repairs
        && within l.infrastructure_retries c.infrastructure_retries
        && within l.runtime_seconds c.runtime_seconds)
unfolding permits counters_valid
permits-within l c = ground arith

four :
    {a b c d : Bool} → (a && b && c && d) ≡ true → (a ≡ true) × (b ≡ true) × (c ≡ true) × (d ≡ true)
four {a} {b} {c} {d} h = ground arith

counters-Nonneg :
    (c : Counters)
    → counters_valid c ≡ true
    → Nonneg c.model_calls
      × Nonneg c.repairs
      × Nonneg c.infrastructure_retries
      × Nonneg c.runtime_seconds
unfolding counters_valid
counters-Nonneg c h = ground arith

module _ (l : Limits) (c delta : Counters) (valid : counters_valid c ≡ true)
    (charged : counters_valid delta ≡ true) (fl : LimitsFit l) (fc : Fit c) (fd : Fit delta) where
  calls_within :
      (within l.model_calls (add_int64 c.model_calls delta.model_calls)
        ≡ within l.model_calls (c.model_calls +ℤ delta.model_calls))
      × (within l.model_calls (c.model_calls +ℤ delta.model_calls) ≡ true
          → add_int64 c.model_calls delta.model_calls ≡ c.model_calls +ℤ delta.model_calls)
  calls_within =
      add-within l.model_calls c.model_calls delta.model_calls (counters-Nonneg c valid).0
        (counters-Nonneg delta charged).0 fl.model_calls fc.model_calls fd.model_calls

  repairs_within :
      (within l.repairs (add_int64 c.repairs delta.repairs)
        ≡ within l.repairs (c.repairs +ℤ delta.repairs))
      × (within l.repairs (c.repairs +ℤ delta.repairs) ≡ true
          → add_int64 c.repairs delta.repairs ≡ c.repairs +ℤ delta.repairs)
  repairs_within =
      add-within l.repairs c.repairs delta.repairs (counters-Nonneg c valid).1
        (counters-Nonneg delta charged).1 fl.repairs fc.repairs fd.repairs

  retries_within :
      (within l.infrastructure_retries
          (add_int64 c.infrastructure_retries delta.infrastructure_retries)
        ≡ within l.infrastructure_retries
            (c.infrastructure_retries +ℤ delta.infrastructure_retries))
      × (within l.infrastructure_retries (c.infrastructure_retries +ℤ delta.infrastructure_retries)
            ≡ true
          → add_int64 c.infrastructure_retries delta.infrastructure_retries
            ≡ c.infrastructure_retries +ℤ delta.infrastructure_retries)
  retries_within =
      add-within l.infrastructure_retries c.infrastructure_retries delta.infrastructure_retries
        (counters-Nonneg c valid).2 (counters-Nonneg delta charged).2 fl.infrastructure_retries
        fc.infrastructure_retries fd.infrastructure_retries

  runtime_within :
      (within l.runtime_seconds (add_int64 c.runtime_seconds delta.runtime_seconds)
        ≡ within l.runtime_seconds (c.runtime_seconds +ℤ delta.runtime_seconds))
      × (within l.runtime_seconds (c.runtime_seconds +ℤ delta.runtime_seconds) ≡ true
          → add_int64 c.runtime_seconds delta.runtime_seconds
            ≡ c.runtime_seconds +ℤ delta.runtime_seconds)
  runtime_within =
      add-within l.runtime_seconds c.runtime_seconds delta.runtime_seconds
        (counters-Nonneg c valid).3 (counters-Nonneg delta charged).3 fl.runtime_seconds
        fc.runtime_seconds fd.runtime_seconds

  permits-add : permits l (add_counters c delta) ≡ permits l (exact_add c delta)
  unfolding add_counters exact_add
  permits-add =
      permits-within l (add_counters c delta)
      ∙ rw (calls_within.0, repairs_within.0, retries_within.0, runtime_within.0)
          (sym (permits-within l (exact_add c delta)))

  add_exact : permits l (exact_add c delta) ≡ true → add_counters c delta ≡ exact_add c delta
  unfolding add_counters exact_add
  add_exact h =
      let (p, q, r, t) = four (sym (permits-within l (exact_add c delta)) ∙ h) in
      λ i. record {
        model_calls = calls_within.1 p i;
        repairs = repairs_within.1 q i;
        infrastructure_retries = retries_within.1 r i;
        runtime_seconds = runtime_within.1 t i;
      }

-- On counters and a charge that are valid int64 values, `Charge` decides as unbounded arithmetic
-- would: a settled attempt is refused, a charge whose true sums pass a limit is refused, and any
-- other charge adds its amounts exactly and changes nothing else.
pub charge_exact :
    (a : Attempt) (delta : Counters)
    → counters_valid a.counts ≡ true
    → counters_valid delta ≡ true
    → LimitsFit a.limits
    → Fit a.counts
    → Fit delta
    → charge_edit delta a ≡ (
        if is_settled a.phase
        then Edit.reject Error.claimed
        else if permits a.limits (exact_add a.counts delta)
        then Edit.write (record a { counts = exact_add a.counts delta })
        else Edit.reject Error.limit)
unfolding charge_edit
charge_exact a delta v w fl fc fd = ground (
  arith,
  permits-add a.limits a.counts delta v w fl fc fd,
  add_exact a.limits a.counts delta v w fl fc fd,
)
