-- ===== src/Providers/Definition.antt =====
-- `defineHumanMethodDescriptor` and `defineHumanProviderAdapter` of src/provider-sdk.ts.
use x.Prelude.{
  String, false, not, Option, none, some, List, [], ◌∷◌, Result, ok, err, ◌>>=◌, ◌>>◌, throw_if,
  ◌==◌, string_eq, is_empty, get, has, All, ◌≡◌, ◌↔◌, refl, sym, ◌∙◌, ap, arith, eq_iff, eq_refl,
  set, ◌≢◌, >>=-eq-ok,
}
use x.Types.{
  HumanMethodDescriptor, HumanMethodRequirement, HumanRequirement, HumanProofSubmission,
  ProviderVerifiedHuman, Json,
}
use x.Catalog.{
  Catalog, is_human_method_identifier, define_method_catalog, method_key, add_method, add_methods,
}
use x.Catalog.Laws.{IsWellFormed, IsCatalog, IsListed, define_method_catalog-IsCatalog}
use x.Providers.{HumanProviderAdapter, assert_human_provider_adapter_conformance}
use x.Providers.Conformance.{IsConformant, conformance_iff}

-- `catalog.get(key)!`: no entry is missing there, and a missing one is given as an error.
abbrev present : Option HumanMethodDescriptor → Result HumanMethodDescriptor
present none = err "undefined"
present (some descriptor) = ok descriptor

unfoldable pub define_human_method_descriptor : HumanMethodDescriptor → Result HumanMethodDescriptor
define_human_method_descriptor descriptor = do
  throw_if (not (is_human_method_identifier descriptor.provider_id))
      "Human method providerId must use lowercase protocol identifier syntax"
  throw_if (not (is_human_method_identifier descriptor.method_id))
      "Human method methodId must use lowercase protocol identifier syntax"
  catalog ← define_method_catalog (descriptor ∷ [])
  present (get (method_key descriptor.provider_id descriptor.method_id) catalog)

unfoldable pub define_descriptors : List HumanMethodDescriptor → Result (List HumanMethodDescriptor)
define_descriptors [] = ok []
define_descriptors (descriptor ∷ descriptors) = do
  defined ← define_human_method_descriptor descriptor
  rest ← define_descriptors descriptors
  ok (defined ∷ rest)

pub record HumanProviderAdapterDefinition : Type 0 where
  pub provider_id : String
  pub methods : List HumanMethodDescriptor
  pub validate_provider_request :
      HumanRequirement → HumanMethodRequirement → Option Json → Result (Unit {0})
  pub verify :
      HumanRequirement
      → HumanMethodRequirement
      → HumanProofSubmission
      → Result ProviderVerifiedHuman

abbrev pub adapter_of :
    HumanProviderAdapterDefinition → List HumanMethodDescriptor → HumanProviderAdapter
adapter_of definition methods = record {
  provider_id = definition.provider_id;
  methods = ok methods;
  validate_provider_request = definition.validate_provider_request;
  verify = definition.verify;
}

unfoldable pub define_human_provider_adapter :
    HumanProviderAdapterDefinition → Result HumanProviderAdapter
define_human_provider_adapter definition = do
  methods ← define_descriptors definition.methods
  assert_human_provider_adapter_conformance (adapter_of definition methods)
  ok (adapter_of definition methods)

-- A descriptor that is defined is the one that was given.
descriptor_same : (d e : HumanMethodDescriptor) → define_human_method_descriptor d ≡ ok e → e ≡ d
unfolding define_human_method_descriptor
descriptor_same d e h =
    let (t, p, h1) = >>=-eq-ok (throw_if (not (is_human_method_identifier d.provider_id)) _) _ h in
    let (u, m, h2) = >>=-eq-ok (throw_if (not (is_human_method_identifier d.method_id)) _) _ h1 in
    let (c, defined, h3) = >>=-eq-ok (define_method_catalog (d ∷ [])) _ h2 in
    let (valid, (listed, rest)) = define_method_catalog-IsCatalog (d ∷ []) c defined in
    let found : present (some d) ≡ ok e = rw listed at h3 in ground (arith, found)

descriptors_same : (ds es : List HumanMethodDescriptor) → define_descriptors ds ≡ ok es → es ≡ ds
unfolding define_descriptors
descriptors_same [] es h = ground (arith, h)
descriptors_same (d ∷ ds) es h =
    let (e, first, h1) = >>=-eq-ok (define_human_method_descriptor d) _ h in
    let (rest, others, h2) = >>=-eq-ok (define_descriptors ds) _ h1 in
    let a = descriptor_same d e first in
    let b = descriptors_same ds rest others in
    let c : e ∷ rest ≡ es = ground (arith, h2) in sym c ∙ cc (a, b)

not_blank : (s : String) → s ≢ "" → (s == "") ≡ false
not_blank s h = ground (arith, eq_iff s "")

filled {ℓ} : {A : Type ℓ} (l : List A) → l ≢ [] → is_empty l ≡ false
filled [] h = absurd (h refl)
filled (a ∷ l) h = refl

IsWellFormed-define :
    (d : HumanMethodDescriptor) → IsWellFormed d → define_human_method_descriptor d ≡ ok d
unfolding define_human_method_descriptor define_method_catalog add_methods add_method get set has
IsWellFormed-define d w =
    let key = method_key d.provider_id d.method_id in
    rw
      (
        w.provider,
        w.method,
        not_blank d.version w.version,
        not_blank d.claim w.claim,
        filled d.non_claims w.non_claims,
        filled d.native_scope_kinds w.scopes,
        filled d.verification_modes w.modes,
        eq_refl key,
      )
      refl

listed-IsWellFormed :
    (c : Catalog) (ds : List HumanMethodDescriptor)
    → IsCatalog c
    → All (IsListed c) ds
    → All IsWellFormed ds
listed-IsWellFormed c [] v h = tt
listed-IsWellFormed c (d ∷ ds) v (hd, h) =
    (v.well_formed (method_key d.provider_id d.method_id) d hd, listed-IsWellFormed c ds v h)

descriptors_again :
    (ds : List HumanMethodDescriptor) → All IsWellFormed ds → define_descriptors ds ≡ ok ds
unfolding define_descriptors
descriptors_again [] h = refl
descriptors_again (d ∷ ds) (w, h) = rw (IsWellFormed-define d w, descriptors_again ds h) refl

-- The descriptors of a conformant adapter are well formed.
IsConformant-IsWellFormed :
    (a : HumanProviderAdapter) (ds : List HumanMethodDescriptor)
    → a.methods ≡ ok ds
    → IsConformant a
    → All IsWellFormed ds
IsConformant-IsWellFormed a ds e c =
    let same : c.descriptors ≡ ds = ground (arith, e, c.answered) in
    let (v, listed) = define_method_catalog-IsCatalog c.descriptors c.catalog c.defined in
    rw same at (listed-IsWellFormed c.catalog c.descriptors v listed)

module _ (definition : HumanProviderAdapterDefinition) (adapter : HumanProviderAdapter) where
  define-IsConformant :
      define_human_provider_adapter definition ≡ ok adapter
      → IsConformant (adapter_of definition definition.methods)
        × (adapter ≡ adapter_of definition definition.methods)
  unfolding define_human_provider_adapter
  define-IsConformant h =
      let (methods, defined, h1) = >>=-eq-ok (define_descriptors definition.methods) _ h in
      let (t, passed, h2) =
        >>=-eq-ok (assert_human_provider_adapter_conformance (adapter_of definition methods)) _
          h1 in
      let same = descriptors_same definition.methods methods defined in
      let returned : adapter_of definition methods ≡ adapter = ground (arith, h2) in
      (
        (conformance_iff (adapter_of definition definition.methods)).0 (rw same at passed),
        sym returned ∙ ap (adapter_of definition) same,
      )

  IsConformant-define :
      IsConformant (adapter_of definition definition.methods)
        × (adapter ≡ adapter_of definition definition.methods)
      → define_human_provider_adapter definition ≡ ok adapter
  unfolding define_human_provider_adapter
  IsConformant-define (c, e) =
      let wf =
        IsConformant-IsWellFormed (adapter_of definition definition.methods) definition.methods refl
          c in
      rw
        (
          descriptors_again definition.methods wf,
          (conformance_iff (adapter_of definition definition.methods)).1 c,
          e,
        )
        refl

  -- `defineHumanProviderAdapter` returns an adapter exactly if it is the record of the definition's
  -- functions with the definition's descriptors, and that record is conformant: its identifier is
  -- valid, and it has at least one descriptor, each of them its own, and they form a catalog.
  pub define_human_provider_adapter_iff :
      (define_human_provider_adapter definition ≡ ok adapter) ↔ (
        IsConformant (adapter_of definition definition.methods)
        × (adapter ≡ adapter_of definition definition.methods))
  define_human_provider_adapter_iff = (define-IsConformant, IsConformant-define)
