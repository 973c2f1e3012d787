-- ===== src/Lifecycle/Gates.antt =====
-- internal/lifecycle/lifecycle.go: GatesPassed.
use sofa.Base.{
  String, Bool, true, false, not, Option, none, some, List, [], ◌∷◌, ◌&&◌, ◌||◌, ◌==◌, string_eq,
  eqb, if◌then◌else◌, any,
}
use sofa.Base.Text.{byte_len}
use sofa.Base.Map.{Map, get}
use sofa.State.Patterns.{sha_pattern}

-- `GateEvidence`
pub record GateEvidence : Type 0 where
  pub id : String
  pub candidate_sha : String
  pub base_sha : String
  pub outcome : String
  pub fixture : Bool

-- `shaPattern`, ^[0-9a-f]{40}$: the ledger's pattern at 40 characters.
unfoldable pub commit_pattern : String → Bool
commit_pattern s = sha_pattern s && eqb (byte_len s) 40

-- What `GatesPassed` returns: that the gates passed, or the reason why not.
pub data Verdict : Type 0 where
  passed : Verdict
  held_back : String → Verdict

-- The first loop: every gate is named, and once.
unfoldable pub gates_distinct : List String → List String → Bool
gates_distinct seen [] = true
gates_distinct seen (gate ∷ rest) =
    let later = gates_distinct (gate ∷ seen) rest in
    if (gate == "") || any (λ g. g == gate) seen then false else later

-- The evidence that counts for this plan and candidate.
unfoldable pub counts_for : List String → String → String → Bool → GateEvidence → Bool
counts_for required candidate base allow_fixture r =
    any (λ g. g == r.id) required
    && r.candidate_sha == candidate
    && r.base_sha == base
    && not (r.fixture && not allow_fixture)

-- The second loop; `none` is ambiguous evidence.
unfoldable pub collect :
    (GateEvidence → Bool) → Map GateEvidence → List GateEvidence → Option (Map GateEvidence)
collect counted results [] = some results
collect counted results (r ∷ rest) =
    let skipped = collect counted results rest in
    let added = collect counted ((r.id, r) ∷ results) rest in
    if not (counted r) then skipped else elim (get r.id results) [ none ↦ added | some old ↦ none ]

-- The last loop.
unfoldable pub gates_verdict : Map GateEvidence → List String → Verdict
gates_verdict results [] = Verdict.passed
gates_verdict results (gate ∷ rest) =
    let later = gates_verdict results rest in
    elim (get gate results) [
      | none ↦ Verdict.held_back "required gate evidence missing or stale"
      | some r ↦
          if not (r.outcome == "passed")
          then Verdict.held_back "required gate did not pass"
          else later
    ]

-- `len(required) == 0`
abbrev no_gates : List String → Bool
no_gates [] = true
no_gates (g ∷ gates) = false

-- `GatesPassed`
unfoldable pub gates_passed : List String → List GateEvidence → String → String → Bool → Verdict
gates_passed required evidence candidate base allow_fixture =
    if not (commit_pattern candidate) || not (commit_pattern base) || no_gates required
    then Verdict.held_back "required gate plan or candidate unavailable"
    else if not (gates_distinct [] required)
    then Verdict.held_back "invalid gate plan"
    else elim (collect (counts_for required candidate base allow_fixture) [] evidence) [
      | none ↦ Verdict.held_back "ambiguous gate evidence"
      | some results ↦ gates_verdict results required
    ]
