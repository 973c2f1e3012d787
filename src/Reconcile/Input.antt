-- ===== src/Reconcile/Input.antt =====
-- internal/lifecycle/reconcile.go: DeliveryEvidence, ScanInput, Effect, PRMoveFence.
use sofa.Base.{
  String, Bool, true, false, not, Option, none, some, List, [], ◌∷◌, is_nil, if◌then◌else◌,
}
use sofa.Base.Int.{ℤ}
use sofa.Base.Map.{Map, get, put}
use sofa.State.Clock.{Time, is_zero}
use sofa.State.Records.{Attempt, Ledger}
use sofa.Lifecycle.Gates.{GateEvidence}
use sofa.Authority.Grant.{Snapshot}

-- `EffectKind`
pub data EffectKind : Type 0 where
  observe move hold : EffectKind

-- `DeliveryEvidence`
pub record DeliveryEvidence : Type 0 where
  pub pr_number : ℤ
  pub pr_url : String
  pub head_sha : String
  pub base_sha : String
  pub closed : Bool
  pub merged : Bool
  pub merged_sha : String
  pub gates : List GateEvidence
  pub required_gates : List String
  pub release_required : Bool
  pub release_passed : Bool
  pub release_sha : String
  pub allow_fixture : Bool

-- `ScanInput`
pub record ScanInput : Type 0 where
  pub repository : String
  pub project_id : String
  pub statuses : Map String
  pub issues : List Snapshot
  pub ledger : Ledger
  pub authority : Map Bool
  pub evidence : Map DeliveryEvidence

-- `PRMoveFence`
pub record PrMoveFence : Type 0 where
  pub number : ℤ
  pub url : String
  pub head_sha : String
  pub base_sha : String
  pub closed : Bool
  pub merged : Bool
  pub merge_commit_sha : String

-- `Effect`; an absent stage is the empty text.
pub record Effect : Type 0 where
  pub kind : EffectKind
  pub issue_id : String
  pub issue_number : ℤ
  pub from_stage : String
  pub to_stage : String
  pub pr_fence : Option PrMoveFence
  pub option_id : String
  pub updated_at : Time
  pub blocked_reason : String
  pub next_action : String
  pub conflict : Bool
  pub retry_intent : Bool
  pub cancel_intent : Bool

-- `attempts` and `ambiguousItems`.
pub record ItemIndex : Type 0 where
  pub attempts : Map Attempt
  pub ambiguous : Map Bool

-- The body of the loop over the ledger's attempts.
unfoldable pub index_step : ItemIndex → Attempt → ItemIndex
index_step i a =
    if not (is_zero a.superseded_at)
    then i
    else if not (is_nil (get a.admission.project_item_id i.attempts))
    then record i { ambiguous = put a.admission.project_item_id true i.ambiguous }
    else record i { attempts = put a.admission.project_item_id a i.attempts }

-- The loop over the ledger's attempts.
unfoldable pub index_from : ItemIndex → Map Attempt → ItemIndex
unfolding index_step
index_from i [] = i
index_from i ((id, a) ∷ rest) = index_from (index_step i a) rest

-- `m[k]` of a map to bool.
unfoldable pub holds_at : String → Map Bool → Bool
holds_at k m = elim (get k m) [ none ↦ false | some b ↦ b ]
