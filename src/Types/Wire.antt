-- ===== src/Types/Wire.antt =====
-- The wire objects of src/types.ts. The field `satisfied: true` of a result has one value and is left
-- out.
use x.Prelude.{ℕ, String, Option, List, IsoTimestamp, StringMap, Bool}
use x.Types.Enums.{
  VerificationMode, UniquenessScopeKind, MethodStatus, BindingKind, ProviderReplayMode,
}
use x.Types.Values.{Json}

abbrev pub x424_version : String
x424_version = "0.1"

pub record UniquenessScope : Type 0 where
  pub kind : UniquenessScopeKind
  pub id : String

pub record HumanMethodDescriptor : Type 0 where
  pub provider_id : String
  pub method_id : String
  pub version : String
  pub status : MethodStatus
  pub claim : String
  pub non_claims : List String
  pub assurance_levels : List String
  pub native_scope_kinds : List UniquenessScopeKind
  pub verification_modes : List VerificationMode
  pub pairwise_pseudonym : Bool
  pub replay_semantics : String
  pub recovery_semantics : String
  pub privacy : String

pub record HumanMethodRequirement : Type 0 where
  pub provider_id : String
  pub method_id : String
  pub descriptor_version : String
  pub assurance_level : Option String
  pub accepted_scope_kinds : List UniquenessScopeKind
  pub maximum_proof_age_seconds : Option ℕ
  pub verification_modes : Option (List VerificationMode)

pub record HumanBinding : Type 0 where
  pub kind : BindingKind
  pub value : String

pub record ProtectedResource : Type 0 where
  pub method : String
  pub uri : String
  pub audience : String
  pub request_digest : String

pub record HumanRequirement : Type 0 where
  pub version : String
  pub dependency_id : String
  pub purpose : String
  pub resource : ProtectedResource
  pub nonce : String
  pub binding : HumanBinding
  pub created_at : IsoTimestamp
  pub expires_at : IsoTimestamp
  pub accepts : List HumanMethodRequirement
  pub provider_requests : Option (StringMap Json)

pub record HumanProofSubmission : Type 0 where
  pub version : String
  pub dependency_id : String
  pub provider_id : String
  pub method_id : String
  pub binding : HumanBinding
  pub native_proof : Json

pub record ProviderVerifiedHuman : Type 0 where
  pub provider_id : String
  pub method_id : String
  pub descriptor_version : String
  pub assurance_level : Option String
  pub provider_subject : String
  pub uniqueness_scope : UniquenessScope
  pub verification_mode : VerificationMode
  pub provider_replay_mode : Option ProviderReplayMode
  pub proof_digest : String
  pub verified_at : IsoTimestamp
  pub expires_at : Option IsoTimestamp
  pub state_references : Option (List String)

pub record HumanResult : Type 0 where
  pub version : String
  pub result_id : String
  pub dependency_id : String
  pub purpose : String
  pub audience : String
  pub request_digest : String
  pub binding : HumanBinding
  pub provider_id : String
  pub method_id : String
  pub descriptor_version : String
  pub assurance_level : Option String
  pub pairwise_human_id : String
  pub uniqueness_scope : UniquenessScope
  pub verification_mode : VerificationMode
  pub proof_digest : String
  pub claim : String
  pub non_claims : List String
  pub verified_at : IsoTimestamp
  pub issued_at : IsoTimestamp
  pub expires_at : IsoTimestamp
  pub state_references : Option (List String)

pub data HumanFailureCode : Type 0 where
  assurance_not_accepted audience_mismatch binding_mismatch claim_mismatch dependency_mismatch
        descriptor_version_mismatch expired future_timestamp method_disabled method_not_accepted
        method_unknown proof_stale purpose_mismatch request_digest_mismatch scope_not_accepted
        time_window_invalid verification_mode_not_accepted :
      HumanFailureCode

pub record HumanFailure : Type 0 where
  pub code : HumanFailureCode
  pub detail : String

pub record HumanEvaluation : Type 0 where
  pub satisfied : Bool
  pub failures : List HumanFailure
