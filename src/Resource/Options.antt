-- ===== src/Resource/Options.antt =====
-- The options of src/middleware/resource.ts, with the stores as interfaces, and their checks.
use x.Prelude.{
  ℕ, String, Bool, true, false, ◌&&◌, not, Option, List, Result, ◌>>=◌, ◌>>◌, throw_if, is_some,
  ◌==◌, string_eq, StringMap,
}
use x.Types.{
  Json, HumanBinding, HumanMethodRequirement, HumanRequirement, ResultAcceptanceInput,
  ResultAcceptanceStatus,
}
use x.Effects.{Eff}
use x.Catalog.{Catalog}
use x.Canonical.{RequestBodyDigestInput}
use x.Tokens.{Verifier}
use x.Tokens.External.{Platform}
use x.Transport.{CorsPolicy}
use x.Transport.Urls.{UrlParser, PublicOriginConfig, found_or}
use x.Http.{Consume}

pub data DeploymentProfile : Type 0 where
  dev_local eval_redis prod_ha : DeploymentProfile

abbrev pub is_dev_local : DeploymentProfile → Bool
is_dev_local dev_local = true
is_dev_local eval_redis = false
is_dev_local prod_ha = false

pub record RequirementIssuanceInput : Type 0 where
  pub purpose : String
  pub method : String
  pub uri : String
  pub audience : String
  pub body_input : RequestBodyDigestInput
  pub binding : HumanBinding
  pub accepts : List HumanMethodRequirement
  pub ttl_seconds : ℕ
  pub provider_requests : Option (StringMap Json)

-- `ResultAcceptanceStore.accept`
abbrev pub Accept : Type 0 → Type 0
Accept S = ResultAcceptanceInput → ℕ → Eff S ResultAcceptanceStatus

-- The options, over the state of the stores. `in_memory` tells of a store whether it is an instance
-- of the class of that name in this package.
pub record ProtectOptions (S : Type 0) (p : Platform) : Type 0 where
  pub deployment_profile : DeploymentProfile
  pub purpose : String
  pub audience : String
  pub accepts : List HumanMethodRequirement
  pub catalog : Catalog
  pub verifier : Verifier p
  pub get_requirement : String → ℕ → Eff S (Option HumanRequirement)
  pub put_requirement : HumanRequirement → Eff S (Unit {0})
  pub delete_requirement : String → Eff S (Unit {0})
  pub requirement_store_in_memory : Bool
  pub requirement_issuer : Option (RequirementIssuanceInput → Eff S HumanRequirement)
  pub replay_store : Option (Consume S)
  pub replay_store_in_memory : Bool
  pub result_acceptance_store : Option (Accept S)
  pub result_acceptance_store_in_memory : Bool
  pub public_origin : PublicOriginConfig
  pub ttl_seconds : Option ℕ
  pub require_idempotency_key : Option Bool
  pub provider_requests : Option (HumanBinding → ℕ → Eff S (StringMap Json))
  pub cors : Option CorsPolicy

module _ {S : Type 0} {p : Platform} (urls : UrlParser) where
  unfoldable pub assert_protect_options : ProtectOptions S p → Result (Unit {0})
  assert_protect_options options = do
    throw_if (options.public_origin.public_origin == "") "publicOrigin is required"
    origin ←
        found_or "publicOrigin must be an absolute URL origin"
          (urls.parse options.public_origin.public_origin)
    throw_if (not (is_dev_local options.deployment_profile) && not (origin.protocol == "https:"))
        "publicOrigin must use HTTPS outside dev-local"
    throw_if (not (is_dev_local options.deployment_profile) && not (is_some options.replay_store))
        "ResultReplayStore is required for eval/prod deployment profiles"
    throw_if
        (not (is_dev_local options.deployment_profile)
          && not (is_some options.result_acceptance_store))
        "ResultAcceptanceStore is required for eval/prod mutation profiles"
    throw_if (not (is_dev_local options.deployment_profile) && options.requirement_store_in_memory)
        "InMemoryRequirementStore is not permitted outside dev-local"
    throw_if
        (not (is_dev_local options.deployment_profile) && options.result_acceptance_store_in_memory)
        "InMemoryResultAcceptanceStore is not permitted outside dev-local"
    throw_if (not (is_dev_local options.deployment_profile) && options.replay_store_in_memory)
        "InMemoryResultReplayStore is not permitted outside dev-local"
