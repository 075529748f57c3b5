-- ===== src/Providers/Conformance.antt =====
-- When an adapter conforms.
use x.Prelude.{
  String, true, ◌≡◌, ◌≢◌, ◌↔◌, refl, List, [], ◌∷◌, ◌++◌, Result, ok, err, ◌==◌, string_eq, arith,
  eq_iff, All, Bool-cases, inl, inr,
}
use x.Types.{HumanMethodDescriptor}
use x.Catalog.{Catalog, is_human_method_identifier, define_method_catalog}
use x.Providers.{
  HumanProviderAdapter, foreign_methods, catalog_issues, methods_issues,
  inspect_human_provider_adapter, assert_human_provider_adapter_conformance,
}

pub record IsConformant (a : HumanProviderAdapter) : Type 0 where
  pub identifier : is_human_method_identifier a.provider_id ≡ true
  pub descriptors : List HumanMethodDescriptor
  pub answered : a.methods ≡ ok descriptors
  pub some_method : descriptors ≢ []
  pub own : All (λ d. d.provider_id ≡ a.provider_id) descriptors
  pub catalog : Catalog
  pub defined : define_method_catalog descriptors ≡ ok catalog

no_foreign :
    (p : String) (ds : List HumanMethodDescriptor)
    → foreign_methods p ds ≡ []
    → All (λ d. d.provider_id ≡ p) ds
unfolding foreign_methods
no_foreign p [] h = tt
no_foreign p (d ∷ ds) h = elim (Bool-cases (d.provider_id == p)) [
  | inl own ↦ (ground (arith, eq_iff d.provider_id p), no_foreign p ds (ground arith))
  | inr other ↦ absurd (ground arith)
]

no_foreign_of_own :
    (p : String) (ds : List HumanMethodDescriptor)
    → All (λ d. d.provider_id ≡ p) ds
    → foreign_methods p ds ≡ []
unfolding foreign_methods
no_foreign_of_own p [] h = refl
no_foreign_of_own p (d ∷ ds) (own, h) =
    ground (arith, eq_iff d.provider_id p, no_foreign_of_own p ds h)

append-nil_inv {ℓ} : {A : Type ℓ} (l m : List A) → l ++ m ≡ [] → (l ≡ []) × (m ≡ [])
append-nil_inv [] m h = (refl, h)
append-nil_inv (a ∷ l) m h = absurd (ground arith)

-- What the `try` block has found no issue with.
record IsClean (p : String) (ds : List HumanMethodDescriptor) : Type 0 where
  some_method : ds ≢ []
  own : All (λ d. d.provider_id ≡ p) ds
  catalog : Catalog
  defined : define_method_catalog ds ≡ ok catalog

methods-IsClean :
    (p : String) (ds : List HumanMethodDescriptor)
    → (methods_issues p (ok ds)).0 ≡ []
    → IsClean p ds
unfolding methods_issues
methods-IsClean p ds h =
    let (nonempty, rest) = append-nil_inv _ _ h in
    let (own, defined) = append-nil_inv _ _ rest in
    let (c, e) = catalog_of (define_method_catalog ds) refl defined in
    record { some_method = ground arith; own = no_foreign p ds own; catalog = c; defined = e }
  where
    catalog_of :
        (r : Result Catalog)
        → define_method_catalog ds ≡ r
        → catalog_issues r ≡ []
        → (c : Catalog) × (define_method_catalog ds ≡ ok c)
    catalog_of (ok c) e none_found = (c, e)
    catalog_of (err m) e none_found = absurd (ground arith)

clean_methods :
    (p : String) (ds : List HumanMethodDescriptor)
    → IsClean p ds
    → (methods_issues p (ok ds)).0 ≡ []
unfolding methods_issues
clean_methods p ds c =
    rw c.defined (rw (no_foreign_of_own p ds c.own) (ground (arith, c.some_method)))

conformance_sound :
    (a : HumanProviderAdapter)
    → assert_human_provider_adapter_conformance a ≡ ok tt
    → IsConformant a
unfolding assert_human_provider_adapter_conformance inspect_human_provider_adapter
conformance_sound a h = go a.methods refl
  where
    go : (r : Result (List HumanMethodDescriptor)) → a.methods ≡ r → IsConformant a
    go (err m) e = absurd (ground arith)
    go (ok ds) e =
        let c = methods-IsClean a.provider_id ds (ground arith) in
        record {
          identifier = ground arith;
          descriptors = ds;
          answered = e;
          some_method = c.some_method;
          own = c.own;
          catalog = c.catalog;
          defined = c.defined;
        }

conformance_complete :
    (a : HumanProviderAdapter)
    → IsConformant a
    → assert_human_provider_adapter_conformance a ≡ ok tt
unfolding assert_human_provider_adapter_conformance inspect_human_provider_adapter
conformance_complete a c = rw c.answered (
    rw
      (clean_methods a.provider_id c.descriptors (record {
        some_method = c.some_method;
        own = c.own;
        catalog = c.catalog;
        defined = c.defined;
      }))
      (ground (arith, c.identifier)))

-- An adapter passes the inspection exactly if its identifier is valid, it answers with at least
-- one descriptor, each of them is its own, and they form a catalog.
pub conformance_iff :
    (a : HumanProviderAdapter)
    → (assert_human_provider_adapter_conformance a ≡ ok tt) ↔ IsConformant a
conformance_iff a = (conformance_sound a, conformance_complete a)
