-- ===== src/Service/Setup/Installed.antt =====
-- What the constructor of src/service.ts has checked: its catalog has no enabled method without an
-- adapter.
use mathlib.Core.List.{Mem, mem-cons_self, mem-cons_of_mem}
use x.Prelude.{
  ℕ, String, true, not, ◌≡◌, ◌⊎◌, inl, inr, some, List, [], ◌∷◌, ok, >>=-eq-ok, throw_if-eq-ok,
  throw_if, arith, eq_iff, includes, ◌==◌, string_eq, get, ◌<>◌, Bool-cases, ◌&&◌,
}
use x.Types.{HumanMethodDescriptor, enabled, status_eq}
use x.Catalog.{Catalog, method_key}
use x.Keys.{ExternalPairwiseDeriver}
use x.Providers.{HumanProviderAdapter, assert_human_provider_adapter_conformance}
use x.Service.Setup.{
  X424ServiceOptions, X424Service, has_version, install_methods, install_adapters, check_enabled,
  choose_deriver, create,
}

-- One of the descriptors has this key.
pub record IsNamed (key : String) (descriptors : List HumanMethodDescriptor) : Type 0 where
  pub descriptor : HumanMethodDescriptor
  pub listed : Mem descriptor descriptors
  pub named : key ≡ method_key descriptor.provider_id descriptor.method_id

-- One of the adapters answers with a descriptor that has this key.
pub record IsServed (key : String) (adapters : List HumanProviderAdapter) : Type 0 where
  pub adapter : HumanProviderAdapter
  pub listed : Mem adapter adapters
  pub descriptors : List HumanMethodDescriptor
  pub answered : adapter.methods ≡ ok descriptors
  pub named : IsNamed key descriptors

check_enabled-includes :
    (catalog : Catalog) (installed : List String) (key : String) (d : HumanMethodDescriptor)
    → check_enabled catalog installed ≡ ok tt
    → get key catalog ≡ some d
    → d.status ≡ enabled
    → includes installed key ≡ true
unfolding check_enabled get
check_enabled-includes [] installed key d h found on = absurd (ground arith)
check_enabled-includes ((k, e) ∷ catalog) installed key d h0 found on =
    let (done, e1, h1) =
      >>=-eq-ok {A = Unit {0}}
        (throw_if (e.status == enabled && not (includes installed k))
          ("Enabled catalog method has no adapter: " <> k))
        _ h0 in
    let served = throw_if-eq-ok (e.status == enabled && not (includes installed k)) _ e1 in
    elim (Bool-cases (k == key)) [
      | inl same ↦
          let name : k ≡ key = ground (arith, eq_iff k key) in
          let it : e ≡ d = ground arith in rw (← name) (ground (arith, it, served, on))
      | inr other ↦ check_enabled-includes catalog installed key d h1 (ground arith) on
    ]

install_methods-IsNamed :
    (catalog : Catalog) (ds : List HumanMethodDescriptor) (before after : List String)
    (key : String)
    → install_methods catalog ds before ≡ ok after
    → includes after key ≡ true
    → (includes before key ≡ true) ⊎ IsNamed key ds
unfolding install_methods
install_methods-IsNamed catalog [] before after key h within = inl (ground arith)
install_methods-IsNamed catalog (d ∷ ds) before after key h0 within =
    let (done, e1, h1) =
      >>=-eq-ok {A = Unit {0}}
        (throw_if (not (has_version (get (method_key d.provider_id d.method_id) catalog) d.version))
          ("Adapter method is missing from catalog: "
            <> method_key d.provider_id d.method_id
            <> "@"
            <> d.version))
        _ h0 in
    elim (install_methods-IsNamed catalog ds (method_key d.provider_id d.method_id ∷ before) after
      key h1 within) [
        | inr named ↦ inr (record {
          descriptor = named.descriptor;
          listed = mem-cons_of_mem d named.listed;
          named = named.named;
        })
        | inl earlier ↦ elim (Bool-cases (method_key d.provider_id d.method_id == key)) [
          | inl own ↦ inr (record {
            descriptor = d;
            listed = mem-cons_self;
            named = ground (arith, eq_iff (method_key d.provider_id d.method_id) key);
          })
          | inr other ↦ inl (ground arith)
        ]
      ]

install_adapters-IsServed :
    (catalog : Catalog) (adapters : List HumanProviderAdapter) (ids before after : List String)
    (key : String)
    → install_adapters catalog adapters ids before ≡ ok after
    → includes after key ≡ true
    → (includes before key ≡ true) ⊎ IsServed key adapters
unfolding install_adapters
install_adapters-IsServed catalog [] ids before after key h within = inl (ground arith)
install_adapters-IsServed catalog (adapter ∷ adapters) ids before after key h0 within =
    let (done, e1, h1) =
      >>=-eq-ok {A = Unit {0}} (assert_human_provider_adapter_conformance adapter) _ h0 in
    let (fresh, e2, h2) =
      >>=-eq-ok {A = Unit {0}}
        (throw_if (includes ids adapter.provider_id)
          ("Duplicate provider adapter: " <> adapter.provider_id))
        _ h1 in
    let (ds, e3, h3) = >>=-eq-ok {A = List HumanMethodDescriptor} adapter.methods _ h2 in
    let (middle, e4, h4) = >>=-eq-ok {A = List String} (install_methods catalog ds before) _ h3 in
    elim (install_adapters-IsServed catalog adapters (adapter.provider_id ∷ ids) middle after key h4
      within) [
        | inr served ↦ inr (record {
          adapter = served.adapter;
          listed = mem-cons_of_mem adapter served.listed;
          descriptors = served.descriptors;
          answered = served.answered;
          named = served.named;
        })
        | inl earlier ↦ elim (install_methods-IsNamed catalog ds before middle key e4 earlier) [
          | inl first ↦ inl first
          | inr named ↦ inr (record {
            adapter = adapter;
            listed = mem-cons_self;
            descriptors = ds;
            answered = e3;
            named = named;
          })
        ]
      ]

-- If the constructor returns, then every method of its catalog that is enabled is served: one of the
-- adapters that were given answers with a descriptor that has the method's key.
pub create-IsServed :
    (hmac : List ℕ → List ℕ → String) (options : X424ServiceOptions) (service : X424Service)
    (key : String) (d : HumanMethodDescriptor)
    → create hmac options ≡ ok service
    → get key options.catalog ≡ some d
    → d.status ≡ enabled
    → IsServed key options.adapters
unfolding create
create-IsServed hmac options service key d h0 found on =
    let (deriver, e1, h1) =
      >>=-eq-ok {A = ExternalPairwiseDeriver}
        (choose_deriver hmac options.pairwise_secret options.pairwise_deriver) _ h0 in
    let (installed, e2, h2) =
      >>=-eq-ok {A = List String} (install_adapters options.catalog options.adapters [] []) _ h1 in
    let (done, e3, h3) = >>=-eq-ok {A = Unit {0}} (check_enabled options.catalog installed) _ h2 in
    let within = check_enabled-includes options.catalog installed key d e3 found on in
    elim (install_adapters-IsServed options.catalog options.adapters [] [] installed key e2
      within) [ inl nothing ↦ absurd (ground arith) | inr served ↦ served ]
