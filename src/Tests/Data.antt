-- ===== src/Tests/Data.antt =====
-- A method, a requirement for it, and a provider that answers a proof of it.
use x.Prelude.{String, true, none, some, [], ◌∷◌, ok, instant, Result}
use x.Types.{
  HumanMethodDescriptor, HumanMethodRequirement, HumanRequirement, HumanProofSubmission,
  HumanBinding, ProviderVerifiedHuman, HumanResult, UniquenessScope, action, backend, enabled,
  request, verifier, null, ProviderReplayEntry, ResultAcceptanceInput,
}
use x.Catalog.{Catalog}
use x.Keys.{ExternalPairwiseDeriver}
use x.Providers.{HumanProviderAdapter}
use x.Service.Setup.{X424Service}

abbrev pub descriptor : HumanMethodDescriptor
descriptor = record {
  provider_id = "acme";
  method_id = "face";
  version = "1";
  status = enabled;
  claim = "unique human";
  non_claims = "identity" ∷ [];
  assurance_levels = "high" ∷ [];
  native_scope_kinds = action ∷ [];
  verification_modes = backend ∷ [];
  pairwise_pseudonym = true;
  replay_semantics = "once";
  recovery_semantics = "none";
  privacy = "pairwise";
}

abbrev pub method : HumanMethodRequirement
method = record {
  provider_id = "acme";
  method_id = "face";
  descriptor_version = "1";
  assurance_level = some "high";
  accepted_scope_kinds = action ∷ [];
  maximum_proof_age_seconds = some 60;
  verification_modes = none;
}

abbrev pub binding : HumanBinding
binding = record { kind = request; value = "b" }

abbrev pub requirement : HumanRequirement
requirement = record {
  version = "0.1";
  dependency_id = "dep";
  purpose = "post";
  resource = record { method = "POST"; uri = "/post"; audience = "aud"; request_digest = "d" };
  nonce = "n";
  binding = binding;
  created_at = instant 1000;
  expires_at = instant 301000;
  accepts = method ∷ [];
  provider_requests = none;
}

abbrev pub proof : HumanProofSubmission
proof = record {
  version = "0.1";
  dependency_id = "dep";
  provider_id = "acme";
  method_id = "face";
  binding = binding;
  native_proof = null;
}

abbrev pub scope : UniquenessScope
scope = record { kind = action; id = "vote" }

abbrev pub verified : ProviderVerifiedHuman
verified = record {
  provider_id = "acme";
  method_id = "face";
  descriptor_version = "1";
  assurance_level = some "high";
  provider_subject = "subject";
  uniqueness_scope = scope;
  verification_mode = backend;
  provider_replay_mode = some verifier;
  proof_digest = "digest";
  verified_at = instant 1500;
  expires_at = none;
  state_references = none;
}

abbrev pub adapter : HumanProviderAdapter
adapter = record {
  provider_id = "acme";
  methods = ok (descriptor ∷ []);
  validate_provider_request = λ r m q. ok tt;
  verify = λ r m p. ok verified;
}

abbrev pub digest : String
digest = "hmac-sha256:0123456789012345678901234567890123456789012"

abbrev pub deriver : ExternalPairwiseDeriver
deriver = record {
  derive_pairwise_human_id = λ a p m s. ok "x424_human_1";
  derive_provider_replay_digest = λ p m k i s. ok digest;
}

abbrev pub catalog : Catalog
catalog = ("acme:face", descriptor) ∷ []

abbrev pub service : X424Service
service = record {
  catalog = catalog;
  adapters = ("acme", adapter) ∷ [];
  deriver = deriver;
  maximum_result_ttl_seconds = none;
}

abbrev pub sign : HumanResult → Result String
sign result = ok "token"

abbrev pub issued : HumanResult
issued = record {
  version = "0.1";
  result_id = "x424_result_u";
  dependency_id = "dep";
  purpose = "post";
  audience = "aud";
  request_digest = "d";
  binding = binding;
  provider_id = "acme";
  method_id = "face";
  descriptor_version = "1";
  assurance_level = some "high";
  pairwise_human_id = "x424_human_1";
  uniqueness_scope = scope;
  verification_mode = backend;
  proof_digest = "digest";
  claim = "unique human";
  non_claims = "identity" ∷ [];
  verified_at = instant 1500;
  issued_at = instant 2000;
  expires_at = instant 301000;
  state_references = none;
}

abbrev pub entry : ProviderReplayEntry
entry = record {
  provider_id = "acme";
  method_id = "face";
  uniqueness_scope = scope;
  subject_digest = digest;
}

-- A request digest, and two operations on one result.
abbrev pub acceptance : String → ResultAcceptanceInput
acceptance operation_id = record {
  result_id = "x424_result_u";
  operation_id = operation_id;
  request_digest = "sha256:0123456789012345678901234567890123456789012";
  expires_at = instant 301000;
}
