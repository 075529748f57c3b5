-- ===== src/Service/Methods/Checked.antt =====
-- What the checks of `satisfy` have established.
use x.Prelude.{
  List, ℕ, String, true, false, ◌≡◌, ◌≤◌, ◌<◌, some, ok, Option-cases, inl, inr, arith, eq_iff,
  string_eq, find, includes, get, date_parse, time_ms, IsoTimestamp,
}
use x.Types.{
  HumanRequirement, HumanProofSubmission, ProviderVerifiedHuman, HumanMethodDescriptor,
  HumanMethodRequirement, VerificationMode, enabled, scope_eq, mode_eq,
}
use x.Validation.{accepted_method_for_proof, is_method}
use x.Catalog.{method_key}
use x.Service.Setup.{X424Service}
use x.Service.Output.{
  assert_verified_output, given_time, incompatible, unsatisfying, unknown_assurance, times_invalid,
}
use x.Service.Methods.{Admitted, admit}

pub found_of_accepted :
    (r : HumanRequirement) (p : HumanProofSubmission) (m : HumanMethodRequirement)
    → accepted_method_for_proof r p ≡ ok m
    → find (is_method p.provider_id p.method_id) r.accepts ≡ some m
unfolding accepted_method_for_proof
found_of_accepted r p m h = ground arith

pub record Lookups (service : X424Service) (p : HumanProofSubmission) (r : HumanRequirement)
    (a : Admitted) : Type 0 where
  pub accepted : accepted_method_for_proof r p ≡ ok a.method
  pub installed : get (method_key p.provider_id p.method_id) service.catalog ≡ some a.descriptor
  pub enabled_now : a.descriptor.status ≡ enabled
  pub version : a.descriptor.version ≡ a.method.descriptor_version
  pub adapter : get p.provider_id service.adapters ≡ some a.adapter

pub admit-Lookups :
    (service : X424Service) (r : HumanRequirement) (p : HumanProofSubmission) (t1 : ℕ)
    (a : Admitted)
    → admit service r p t1 ≡ ok a
    → Lookups service p r a
unfolding admit
admit-Lookups service r p t1 a h = record {
  accepted = ground arith;
  installed = ground arith;
  enabled_now = ground arith;
  version = ground (arith, eq_iff a.descriptor.version a.method.descriptor_version);
  adapter = ground arith;
}

-- What the four tests of a provider's answer have let through.
pub record Output (v : ProviderVerifiedHuman) (p : HumanProofSubmission)
    (m : HumanMethodRequirement) (d : HumanMethodDescriptor) (now : ℕ) : Type 0 where
  pub provider : v.provider_id ≡ p.provider_id
  pub method : v.method_id ≡ p.method_id
  pub version : v.descriptor_version ≡ d.version
  pub scope_native : includes d.native_scope_kinds v.uniqueness_scope.kind ≡ true
  pub mode_installed : includes d.verification_modes v.verification_mode ≡ true
  pub scope_accepted : includes m.accepted_scope_kinds v.uniqueness_scope.kind ≡ true
  pub mode_accepted :
      (modes : List VerificationMode)
      → m.verification_modes ≡ some modes
      → includes modes v.verification_mode ≡ true
  pub assurance_accepted :
      (level : String) → m.assurance_level ≡ some level → v.assurance_level ≡ some level
  pub assurance_known :
      (level : String) → v.assurance_level ≡ some level → includes d.assurance_levels level ≡ true
  pub readable : date_parse v.verified_at ≡ some (time_ms v.verified_at)
  pub verified_past : time_ms v.verified_at ≤ now
  pub expiry :
      (e : IsoTimestamp)
      → given_time v.expires_at ≡ some e
      → (date_parse e ≡ some (time_ms e)) × (now < time_ms e)

module _ (v : ProviderVerifiedHuman) (r : HumanRequirement) (p : HumanProofSubmission)
    (m : HumanMethodRequirement) (d : HumanMethodDescriptor) (now : ℕ) where
  compatible :
      incompatible v p d ≡ false
      → (v.provider_id ≡ p.provider_id)
        × (v.method_id ≡ p.method_id)
        × (v.descriptor_version ≡ d.version)
        × (includes d.native_scope_kinds v.uniqueness_scope.kind ≡ true)
        × (includes d.verification_modes v.verification_mode ≡ true)
  unfolding incompatible
  compatible h = ground (
    arith,
    eq_iff v.provider_id p.provider_id,
    eq_iff v.method_id p.method_id,
    eq_iff v.descriptor_version d.version,
  )

  satisfying_scope :
      unsatisfying v m ≡ false → includes m.accepted_scope_kinds v.uniqueness_scope.kind ≡ true
  unfolding unsatisfying
  satisfying_scope h = ground arith

  satisfying_mode :
      unsatisfying v m ≡ false
      → (modes : List VerificationMode) → m.verification_modes ≡ some modes
      → includes modes v.verification_mode ≡ true
  unfolding unsatisfying
  satisfying_mode h modes e = ground arith

  satisfying_level :
      unsatisfying v m ≡ false
      → (level : String) → m.assurance_level ≡ some level
      → v.assurance_level ≡ some level
  unfolding unsatisfying
  satisfying_level h level e = elim (Option-cases v.assurance_level) [
    | inl absent ↦ absurd (ground arith)
    | inr (other, there) ↦ ground (arith, eq_iff level other)
  ]

  known_level :
      unknown_assurance v d ≡ false
      → (level : String) → v.assurance_level ≡ some level
      → includes d.assurance_levels level ≡ true
  unfolding unknown_assurance
  known_level h level e = ground arith

  valid_times :
      times_invalid v m now ≡ false
      → (date_parse v.verified_at ≡ some (time_ms v.verified_at)) × (time_ms v.verified_at ≤ now)
  unfolding times_invalid
  valid_times h = ground arith

  valid_expiry :
      times_invalid v m now ≡ false
      → (e : IsoTimestamp) → given_time v.expires_at ≡ some e
      → (date_parse e ≡ some (time_ms e)) × (now < time_ms e)
  unfolding times_invalid
  valid_expiry h e given = ground arith

  tests_passed :
      accepted_method_for_proof r p ≡ ok m
      → assert_verified_output v r p d now ≡ ok tt
      → (incompatible v p d ≡ false)
        × (unsatisfying v m ≡ false)
        × (unknown_assurance v d ≡ false)
        × (times_invalid v m now ≡ false)
  unfolding assert_verified_output
  tests_passed a h = (ground (arith, a), ground (arith, a), ground (arith, a), ground (arith, a))

  pub verified-Output :
      accepted_method_for_proof r p ≡ ok m
      → assert_verified_output v r p d now ≡ ok tt
      → Output v p m d now
  verified-Output a h =
      let (fits, satisfies, known, timely) = tests_passed a h in
      let (provider, method, version, scope_native, mode_installed) = compatible fits in
      let (readable, verified_past) = valid_times timely in
      record {
        provider = provider;
        method = method;
        version = version;
        scope_native = scope_native;
        mode_installed = mode_installed;
        scope_accepted = satisfying_scope satisfies;
        mode_accepted = satisfying_mode satisfies;
        assurance_accepted = satisfying_level satisfies;
        assurance_known = known_level known;
        readable = readable;
        verified_past = verified_past;
        expiry = valid_expiry timely;
      }
