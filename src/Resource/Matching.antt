-- ===== src/Resource/Matching.antt =====
-- What `assertCurrentMatchesStored` of src/middleware/resource.ts has compared.
use x.Prelude.{String, ok, ◌≡◌, arith, string_eq, to_upper_case, Result-cases, eq_iff, inl, inr}
use x.Types.{HumanRequirement, binding_eq}
use x.Canonical.{Hashed, request_digest}
use x.Resource.{CurrentRequest, assert_current_matches_stored, match_stored}

-- The requirement names this purpose and audience, and this request.
pub record NamesRequest (sha256 : Hashed → String) (requirement : HumanRequirement)
    (current : CurrentRequest) (purpose audience : String) : Type 0 where
  pub purpose_same : requirement.purpose ≡ purpose
  pub audience_same : requirement.resource.audience ≡ audience
  pub method_same : requirement.resource.method ≡ to_upper_case current.method
  pub uri_same : requirement.resource.uri ≡ current.uri
  pub digest_same :
      request_digest sha256 current.method current.uri current.body_input
      ≡ ok requirement.resource.request_digest
  pub kind_same : requirement.binding.kind ≡ current.binding.kind
  pub value_same : requirement.binding.value ≡ current.binding.value

match_stored_same :
    (requirement : HumanRequirement) (current : CurrentRequest) (digest : String)
    → match_stored requirement current digest ≡ ok tt
    → (requirement.resource.request_digest ≡ digest)
      × (requirement.binding.kind ≡ current.binding.kind)
      × (requirement.binding.value ≡ current.binding.value)
unfolding match_stored
match_stored_same requirement current digest h = ground (
  arith,
  eq_iff requirement.resource.request_digest digest,
  eq_iff requirement.binding.value current.binding.value,
  binding_eq.beq_iff requirement.binding.kind current.binding.kind,
)

pub assert_current-NamesRequest :
    (sha256 : Hashed → String) (requirement : HumanRequirement) (current : CurrentRequest)
    (purpose audience : String)
    → assert_current_matches_stored sha256 requirement current purpose audience ≡ ok tt
    → NamesRequest sha256 requirement current purpose audience
unfolding assert_current_matches_stored
assert_current-NamesRequest sha256 requirement current purpose audience h =
    elim (Result-cases (request_digest sha256 current.method current.uri current.body_input)) [
      | inr (message, e) ↦ absurd (let k = rw e at h in ground arith)
      | inl (digest, e) ↦
          let k = rw e at h in
          let (same, kinds, values) = match_stored_same requirement current digest (ground arith) in
          record {
            purpose_same = ground (arith, eq_iff requirement.purpose purpose);
            audience_same = ground (arith, eq_iff requirement.resource.audience audience);
            method_same =
                ground (arith, eq_iff requirement.resource.method (to_upper_case current.method));
            uri_same = ground (arith, eq_iff requirement.resource.uri current.uri);
            digest_same = rw same e;
            kind_same = kinds;
            value_same = values;
          }
    ]
