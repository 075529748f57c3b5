-- ===== src/Service/Setup.antt =====
-- The constructor of `X424Service`.
pub mod Installed
use x.Prelude.{
  ℕ, String, Bool, false, ◌&&◌, not, Option, none, some, List, [], ◌∷◌, Result, ok, err, ◌>>=◌,
  ◌>>◌, throw_if, ◌==◌, string_eq, includes, StringMap, get, set, ◌<>◌,
}
use x.Types.{HumanMethodDescriptor, enabled, status_eq}
use x.Catalog.{Catalog, method_key}
use x.Keys.{ExternalPairwiseDeriver, create_local_pairwise_deriver}
use x.Providers.{HumanProviderAdapter, assert_human_provider_adapter_conformance}

-- The options that are no stores, clocks or signers.
pub record X424ServiceOptions : Type 0 where
  pub catalog : Catalog
  pub adapters : List HumanProviderAdapter
  pub pairwise_secret : Option (List ℕ)
  pub pairwise_deriver : Option ExternalPairwiseDeriver
  pub maximum_result_ttl_seconds : Option ℕ

pub record X424Service : Type 0 where
  pub catalog : Catalog
  pub adapters : StringMap HumanProviderAdapter
  pub deriver : ExternalPairwiseDeriver
  pub maximum_result_ttl_seconds : Option ℕ

-- The versions of the installed method and the descriptor are the same.
abbrev has_version : Option HumanMethodDescriptor → String → Bool
has_version none version = false
has_version (some installed) version = installed.version == version

-- The inner loop: the keys of an adapter's methods.
unfoldable pub install_methods :
    Catalog → List HumanMethodDescriptor → List String → Result (List String)
install_methods catalog [] installed = ok installed
install_methods catalog (descriptor ∷ descriptors) installed = do
  let key = method_key descriptor.provider_id descriptor.method_id
  throw_if (not (has_version (get key catalog) descriptor.version))
      ("Adapter method is missing from catalog: " <> key <> "@" <> descriptor.version)
  install_methods catalog descriptors (key ∷ installed)

-- The outer loop, on the provider IDs and the keys that have been seen.
unfoldable pub install_adapters :
    Catalog → List HumanProviderAdapter → List String → List String → Result (List String)
install_adapters catalog [] provider_ids installed = ok installed
install_adapters catalog (adapter ∷ adapters) provider_ids installed = do
  assert_human_provider_adapter_conformance adapter
  throw_if (includes provider_ids adapter.provider_id)
      ("Duplicate provider adapter: " <> adapter.provider_id)
  descriptors ← adapter.methods
  installed' ← install_methods catalog descriptors installed
  install_adapters catalog adapters (adapter.provider_id ∷ provider_ids) installed'

-- The loop over the catalog: an enabled method needs an adapter.
unfoldable pub check_enabled : Catalog → List String → Result (Unit {0})
check_enabled [] installed = ok tt
check_enabled ((key, descriptor) ∷ catalog) installed = do
  throw_if (descriptor.status == enabled && not (includes installed key))
      ("Enabled catalog method has no adapter: " <> key)
  check_enabled catalog installed

-- `new Map(adapters.map((adapter) => [adapter.providerId, adapter]))`
unfoldable pub adapter_map :
    List HumanProviderAdapter → StringMap HumanProviderAdapter → StringMap HumanProviderAdapter
adapter_map [] found = found
adapter_map (adapter ∷ adapters) found =
    adapter_map adapters (set adapter.provider_id adapter found)

module _ (hmac : List ℕ → List ℕ → String) where
  choose_deriver : Option (List ℕ) → Option ExternalPairwiseDeriver → Result ExternalPairwiseDeriver
  choose_deriver none (some deriver) = ok deriver
  choose_deriver (some secret) none = create_local_pairwise_deriver hmac secret
  choose_deriver _ _ = err "Configure exactly one pairwise derivation source: secret or deriver"

  unfoldable pub create : X424ServiceOptions → Result X424Service
  unfolding choose_deriver
  create options = do
    deriver ← choose_deriver options.pairwise_secret options.pairwise_deriver
    installed ← install_adapters options.catalog options.adapters [] []
    check_enabled options.catalog installed
    ok (record {
      catalog = options.catalog;
      adapters = adapter_map options.adapters [];
      deriver = deriver;
      maximum_result_ttl_seconds = options.maximum_result_ttl_seconds;
    })
