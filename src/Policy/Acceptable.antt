-- ===== src/Policy/Acceptable.antt =====
-- When src/policy.ts accepts a result.
use x.Prelude.{
  ℕ, String, true, ◌≡◌, ◌≤◌, ◌<◌, ◌*◌, ◌-◌, some, List, includes, get, date_parse, time_ms,
  string_eq,
}
use x.Types.{
  VerificationMode, HumanRequirement, HumanResult, HumanMethodRequirement, HumanMethodDescriptor,
  enabled, scope_eq, mode_eq,
}
use x.Catalog.{Catalog, method_key}
use x.Policy.{matching_method}

-- The result fits the accepted method and the installed descriptor of its provider and method.
pub record Fits (m : HumanMethodRequirement) (d : HumanMethodDescriptor) (q : HumanResult) (now : ℕ)
    : Type 0 where
  pub enabled_now : d.status ≡ enabled
  pub version_accepted : q.descriptor_version ≡ m.descriptor_version
  pub version_installed : q.descriptor_version ≡ d.version
  pub scope_accepted : includes m.accepted_scope_kinds q.uniqueness_scope.kind ≡ true
  pub scope_native : includes d.native_scope_kinds q.uniqueness_scope.kind ≡ true
  pub mode_accepted :
      (modes : List VerificationMode)
      → m.verification_modes ≡ some modes
      → includes modes q.verification_mode ≡ true
  pub mode_installed : includes d.verification_modes q.verification_mode ≡ true
  pub assurance_accepted :
      (level : String) → m.assurance_level ≡ some level → q.assurance_level ≡ some level
  pub assurance_known :
      (level : String) → q.assurance_level ≡ some level → includes d.assurance_levels level ≡ true
  pub claim : q.claim ≡ d.claim
  pub non_claims : q.non_claims ≡ d.non_claims
  pub fresh :
      (limit : ℕ)
      → m.maximum_proof_age_seconds ≡ some limit
      → now - time_ms q.verified_at ≤ limit * 1000

-- The times of a result lie in the requirement's window and around the present.
pub record IsTimely (r : HumanRequirement) (q : HumanResult) (now : ℕ) : Type 0 where
  pub created_at : date_parse r.created_at ≡ some (time_ms r.created_at)
  pub deadline : date_parse r.expires_at ≡ some (time_ms r.expires_at)
  pub verified_at : date_parse q.verified_at ≡ some (time_ms q.verified_at)
  pub issued_at : date_parse q.issued_at ≡ some (time_ms q.issued_at)
  pub expires_at : date_parse q.expires_at ≡ some (time_ms q.expires_at)
  pub verified_first : time_ms q.verified_at ≤ time_ms q.issued_at
  pub created_first : time_ms r.created_at ≤ time_ms q.issued_at
  pub issued_past : time_ms q.issued_at ≤ now
  pub running : now < time_ms q.expires_at
  pub issued_in_time : time_ms q.issued_at < time_ms r.expires_at
  pub within : time_ms q.expires_at ≤ time_ms r.expires_at

pub record IsAcceptable (r : HumanRequirement) (q : HumanResult) (c : Catalog) (now : ℕ)
    : Type 0 where
  pub dependency : q.dependency_id ≡ r.dependency_id
  pub purpose : q.purpose ≡ r.purpose
  pub audience : q.audience ≡ r.resource.audience
  pub digest : q.request_digest ≡ r.resource.request_digest
  pub binding_kind : q.binding.kind ≡ r.binding.kind
  pub binding_value : q.binding.value ≡ r.binding.value
  pub method : HumanMethodRequirement
  pub descriptor : HumanMethodDescriptor
  pub accepted : matching_method r q ≡ some method
  pub installed : get (method_key q.provider_id q.method_id) c ≡ some descriptor
  pub fits : Fits method descriptor q now
  pub timely : IsTimely r q now
