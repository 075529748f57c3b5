-- ===== src/Tests/Rules.antt =====
-- The pure checks at the examples.
use x.Prelude.{set, true, ◌≡◌, ◌↔◌, refl, List, [], ◌∷◌, ok, arith, instant, All, ◌≤◌}
use x.Validation.{accepted_method_for_proof}
use x.Validation.Accepted.{IsAcceptedFor, accepted_method-IsAcceptedFor}
use x.Catalog.{define_method_catalog, add_method, is_human_method_identifier}
use x.Catalog.Laws.{IsCatalog, IsListed, define_method_catalog-IsCatalog}
use x.Policy.{evaluate_human_result}
use x.Policy.Acceptable.{IsAcceptable}
use x.Policy.Decision.{evaluate_human_result_iff}
use x.Keys.{active, PairwiseSecretVersion, select_issuing_pairwise_secret}
use x.Keys.Laws.{IsOnly, select_issuing_iff}
use x.Providers.Definition.{
  HumanProviderAdapterDefinition, adapter_of, define_human_provider_adapter,
  define_human_provider_adapter_iff,
}
use x.Providers.Conformance.{IsConformant}
use x.Limits.{new_limiter}
use x.Limits.Window.{Hit, count_allowed, window_bound}
use x.Tests.Data.{requirement, proof, method, descriptor, catalog, issued, adapter}

accepted_example : IsAcceptedFor requirement proof method
unfolding accepted_method_for_proof
accepted_example = accepted_method-IsAcceptedFor requirement proof method refl

catalog_example : IsCatalog catalog × All (IsListed catalog) (descriptor ∷ [])
unfolding define_method_catalog is_human_method_identifier add_method set
catalog_example = define_method_catalog-IsCatalog (descriptor ∷ []) catalog refl

policy_example :
    ((evaluate_human_result requirement issued catalog 2500).satisfied ≡ true)
    ↔ IsAcceptable requirement issued catalog 2500
policy_example = evaluate_human_result_iff requirement issued catalog 2500

abbrev secret : PairwiseSecretVersion
secret = record {
  version = "v1";
  status = active;
  not_before = instant 1000;
  not_after = instant 9000;
  secret = [];
}

issuing_example :
    (select_issuing_pairwise_secret (secret ∷ []) 2000 ≡ ok secret)
    ↔ IsOnly (secret ∷ []) 2000 secret
issuing_example = select_issuing_iff (secret ∷ []) 2000 secret

abbrev definition : HumanProviderAdapterDefinition
definition = record {
  provider_id = adapter.provider_id;
  methods = descriptor ∷ [];
  validate_provider_request = adapter.validate_provider_request;
  verify = adapter.verify;
}

definition_example :
    (define_human_provider_adapter definition ≡ ok (adapter_of definition (descriptor ∷ []))) ↔ (
      IsConformant (adapter_of definition (descriptor ∷ []))
      × (adapter_of definition (descriptor ∷ []) ≡ adapter_of definition (descriptor ∷ [])))
definition_example =
    define_human_provider_adapter_iff definition (adapter_of definition (descriptor ∷ []))

abbrev hits : List Hit
hits =
    record { key = "a"; now = 1 }
    ∷ record { key = "a"; now = 2 }
    ∷ record { key = "a"; now = 3 }
    ∷ []

window_example : count_allowed "a" 5 (new_limiter 10 2) hits ≤ 2
window_example = window_bound 10 2 "a" 5 hits (omega arith, (omega arith, (omega arith, tt)))
