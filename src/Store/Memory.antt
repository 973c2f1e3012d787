-- ===== src/Store/Memory.antt =====
-- internal/state/store.go: MemoryStore. The ledger's JSON is a parameter: `marshal` stands for
-- json.Marshal, and `unmarshal` for the strict decoder with its test for trailing content.
use sofa.Base.{
  ℕ, ◌+◌, ◌%◌, String, ◌≡◌, Bool, true, not, Option, none, some, arith, if◌then◌else◌, ◌==◌,
  string_eq, eq_iff, Option-cases, inl, inr,
}
use sofa.State.Records.{Ledger}
use sofa.State.Validate.{AttemptKey, validate, empty}
use sofa.Engine.Outcome.{Error}
use sofa.Store.Decimal.{format_uint}
use sofa.Store.Interface.{Snapshot, Loaded, Store, IsLawful}

pub record Codec (digest : AttemptKey → String) : Type 1 where
  pub Bytes : Type 0
  pub marshal : Ledger → Option Bytes
  pub unmarshal : Bytes → Option Ledger
  pub round_trip :
      (s : Ledger) (b : Bytes)
      → validate digest s ≡ true
      → marshal s ≡ some b
      → unmarshal b ≡ some s

module _ (digest : AttemptKey → String) (codec : Codec digest) where
  open codec use {Bytes, marshal, unmarshal, round_trip}

  -- The ends of `Encode`.
  pub data Encoded : Type 0 where
    encoded : Bytes → Encoded
    encode_failed : Error → Encoded

  abbrev pub marshaled : Option Bytes → Encoded
  marshaled none = encode_failed Error.unwritable
  marshaled (some b) = encoded b

  -- `Encode`
  unfoldable pub encode : Ledger → Encoded
  encode s = if validate digest s then marshaled (marshal s) else encode_failed Error.invalid

  -- `Decode`, whose errors are ErrInvalid.
  unfoldable pub decode : Bytes → Option Ledger
  decode b = elim (unmarshal b) [
    | none ↦ none
    | some s ↦ if validate digest s then some s else none
  ]

  pub record MemoryStore : Type 0 where
    pub revision : ℕ  -- uint64
    pub content : Option Bytes

  -- `MemoryStore.Load`
  unfoldable pub load : Bool → MemoryStore → Loaded
  unfolding decode
  load done m = if done then Loaded.load_failed Error.canceled else elim m.content [
    | none ↦ Loaded.loaded (record { revision = ""; state = empty })
    | some b ↦ elim (decode b) [
      | none ↦ Loaded.load_failed Error.invalid
      | some s ↦ Loaded.loaded (record { revision = format_uint m.revision; state = s })
    ]
  ]

  -- The revision that a swap compares with.
  unfoldable pub current : MemoryStore → String
  current m = elim m.content [ none ↦ "" | some b ↦ format_uint m.revision ]

  swap_encoded : MemoryStore → String → Encoded → MemoryStore × Option Error
  unfolding current
  swap_encoded m expected (encode_failed e) = (m, some e)
  swap_encoded m expected (encoded b) =
      if not (expected == current m)
      then (m, some Error.conflict)
      else (record { revision = (m.revision + 1) % 18446744073709551616; content = some b }, none)

  -- `MemoryStore.CompareAndSwap`
  unfoldable pub compare_and_swap :
      Bool → MemoryStore → String → Ledger → MemoryStore × Option Error
  unfolding swap_encoded encode
  compare_and_swap done m expected s =
      if done then (m, some Error.canceled) else swap_encoded m expected (encode s)

  abbrev pub memory_store : Store
  memory_store = record { World = MemoryStore; load = load; compare_and_swap = compare_and_swap }

  -- The ledger that a store's bytes stand for; a store without a valid ledger stands for none.
  pub committed : MemoryStore → Ledger
  committed m = elim m.content [
    | none ↦ empty
    | some b ↦ elim (decode b) [ none ↦ empty | some s ↦ s ]
  ]

  pub load-loaded :
      (done : Bool) (m : MemoryStore) (x : Snapshot)
      → load done m ≡ Loaded.loaded x
      → (x.state ≡ committed m) × (x.revision ≡ current m)
  unfolding load committed current
  load-loaded done m x h = ground arith

  swap-ok :
      (done : Bool) (m n : MemoryStore) (r : String) (t : Ledger)
      → compare_and_swap done m r t ≡ (n, none)
      → (r ≡ current m) × (committed n ≡ t) × (validate digest t ≡ true)
  unfolding compare_and_swap committed decode
  swap-ok done m n r t h = elim (Option-cases (marshal t)) [
    | inl e ↦ absurd (ground (arith, e))
    | inr (b, e) ↦ ground (arith, eq_iff r (current m), e, round_trip t b)
  ]

  swap-error :
      (done : Bool) (m n : MemoryStore) (r : String) (t : Ledger) (e : Error)
      → compare_and_swap done m r t ≡ (n, some e)
      → n ≡ m
  unfolding compare_and_swap
  swap-error done m n r t e h = ground arith

  -- The memory store keeps the promises of a store: a load reads the ledger committed last, a swap
  -- succeeds only on the revision that it names and with a valid ledger, which a load then reads,
  -- and a swap that fails leaves the store as it was.
  pub memory_store-IsLawful : IsLawful digest memory_store
  memory_store-IsLawful = record {
    committed = committed;
    revision = current;
    load_state = load-loaded;
    swap_ok = swap-ok;
    swap_error = swap-error;
  }
