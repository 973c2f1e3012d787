-- ===== src/Config/Records.antt =====
-- internal/config/config.go: the structs, and the defaults of a lifecycle.
-- An int is a ℤ.
use sofa.Base.{String, Bool, ◌&&◌, Option, List, ◌==◌, string_eq, if◌then◌else◌}
use sofa.Base.Int.{ℤ, pos, int_eq}
use sofa.Base.Map.{Map}

-- `RequiredCheck`
pub record RequiredCheck : Type 0 where
  pub name : String
  pub app_id : ℤ

-- `Profile`
pub record Profile : Type 0 where
  pub agent : String
  pub secret_env : String

-- `Limits` of the configuration.
pub record ConfigLimits : Type 0 where
  pub attempt_seconds : ℤ
  pub repair_attempts : ℤ
  pub infra_retries : ℤ
  pub max_agent_turns : ℤ
  pub max_files : ℤ
  pub max_file_bytes : ℤ
  pub max_total_bytes : ℤ

-- `Check`
pub record Check : Type 0 where
  pub id : String
  pub argv : List String
  pub timeout_seconds : ℤ

-- `Recipe`
pub record Recipe : Type 0 where
  pub kind : String
  pub paths : List String

-- `Lifecycle`, with `Release` written out.
pub record Lifecycle : Type 0 where
  pub statuses : Map String
  pub poll_minutes : ℤ
  pub discovery_wip : ℤ
  pub delivery_wip : ℤ
  pub spec_author_id : String
  pub dependencies_field : String
  pub priority_field : String
  pub blocked_reason_field : String
  pub next_action_field : String
  pub required_checks : List RequiredCheck

-- `Config`
pub record Config : Type 0 where
  pub version : ℤ
  pub repository : String
  pub repository_id : String
  pub project_id : String
  pub owner_id : String
  pub ready_status : String
  pub allowed_paths : List String
  pub profile : Profile
  pub limits : ConfigLimits
  pub checks : List Check
  pub recipe : Option Recipe
  pub lifecycle : Option Lifecycle

-- `EffectiveAdviceFields`
unfoldable pub effective_advice_fields : Lifecycle → String × String
effective_advice_fields l =
    if (l.blocked_reason_field == "") && l.next_action_field == ""
    then ("Blocked reason", "Next action")
    else (l.blocked_reason_field, l.next_action_field)

-- `EffectivePollMinutes`
unfoldable pub effective_poll_minutes : Lifecycle → ℤ
effective_poll_minutes l = if l.poll_minutes == pos 0 then pos 10 else l.poll_minutes

-- `EffectiveDiscoveryWIP`
unfoldable pub effective_discovery_wip : Lifecycle → ℤ
effective_discovery_wip l = if l.discovery_wip == pos 0 then pos 2 else l.discovery_wip

-- `EffectiveDeliveryWIP`
unfoldable pub effective_delivery_wip : Lifecycle → ℤ
effective_delivery_wip l = if l.delivery_wip == pos 0 then pos 1 else l.delivery_wip

-- Two required checks are equal, as keys of a map.
unfoldable pub same_check : RequiredCheck → RequiredCheck → Bool
same_check a b = (a.name == b.name) && a.app_id == b.app_id
