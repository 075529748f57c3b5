-- ===== src/Service/Output.antt =====
-- What `X424Service.satisfy` checks of a provider's answer, and the result that it builds.
use x.Prelude.{
  ℕ, String, Bool, ◌&&◌, ◌||◌, not, Option, none, some, Result, ok, err, ◌>>=◌, ◌>>◌, throw_if,
  ◌==◌, string_eq, includes, is_some, option_beq, IsoTimestamp, instant, unreadable, date_parse,
  num_le, num_lt, num_min, ltb, ◌+◌, ◌-◌, ◌*◌, if◌then◌else◌,
}
use x.Types.{
  HumanMethodDescriptor, HumanMethodRequirement, HumanRequirement, HumanProofSubmission,
  ProviderVerifiedHuman, HumanResult, x424_version, scope_eq, mode_eq,
}
use x.Validation.{accepted_method_for_proof}
use x.Policy.{and_also}

-- `value ? Date.parse(value) : undefined`: an empty text counts as absent.
unfoldable pub given_time : Option IsoTimestamp → Option IsoTimestamp
given_time none = none
given_time (some (instant ms)) = some (instant ms)
given_time (some (unreadable text)) = if text == "" then none else some (unreadable text)

unfoldable pub incompatible :
    ProviderVerifiedHuman → HumanProofSubmission → HumanMethodDescriptor → Bool
incompatible verified proof descriptor =
    not (verified.provider_id == proof.provider_id)
    || not (verified.method_id == proof.method_id)
    || not (verified.descriptor_version == descriptor.version)
    || not (includes descriptor.native_scope_kinds verified.uniqueness_scope.kind)
    || not (includes descriptor.verification_modes verified.verification_mode)
    || verified.provider_subject == ""
    || verified.proof_digest == ""

unfoldable pub unsatisfying : ProviderVerifiedHuman → HumanMethodRequirement → Bool
unsatisfying verified accepted =
    not (includes accepted.accepted_scope_kinds verified.uniqueness_scope.kind)
    || and_also accepted.verification_modes
        (λ modes. not (includes modes verified.verification_mode))
    || (is_some accepted.assurance_level
        && not (option_beq accepted.assurance_level verified.assurance_level))

unfoldable pub unknown_assurance : ProviderVerifiedHuman → HumanMethodDescriptor → Bool
unknown_assurance verified descriptor =
    and_also verified.assurance_level (λ level. not (includes descriptor.assurance_levels level))

unfoldable pub times_invalid : ProviderVerifiedHuman → HumanMethodRequirement → ℕ → Bool
times_invalid verified accepted now =
    let verified_at = date_parse verified.verified_at in
    not (is_some verified_at)
    || num_lt (some now) verified_at
    || and_also (given_time verified.expires_at)
        (λ e. not (is_some (date_parse e)) || num_le (date_parse e) (some now))
    || and_also accepted.maximum_proof_age_seconds
        (λ limit. and_also verified_at (λ at. ltb (limit * 1000) (now - at)))

unfoldable pub assert_verified_output :
    ProviderVerifiedHuman
    → HumanRequirement
    → HumanProofSubmission
    → HumanMethodDescriptor
    → ℕ
    → Result (Unit {0})
assert_verified_output verified requirement proof descriptor now = do
  throw_if (incompatible verified proof descriptor)
      "Provider adapter returned an incompatible human result"
  accepted ← accepted_method_for_proof requirement proof
  throw_if (unsatisfying verified accepted) "Verified proof does not satisfy the accepted method"
  throw_if (unknown_assurance verified descriptor)
      "Provider adapter returned an unknown assurance label"
  throw_if (times_invalid verified accepted now)
      "Provider adapter returned an invalid proof time window"

-- `maximumResultTtlSeconds ?? 300`, in milliseconds.
abbrev pub ttl_ms : Option ℕ → ℕ
ttl_ms none = 300000
ttl_ms (some seconds) = seconds * 1000

-- The smallest of the deadlines; without a provider's expiry that one is infinite.
expiry_of : Option IsoTimestamp → Option ℕ → Option ℕ → Option ℕ
expiry_of none deadline latest = num_min deadline latest
expiry_of (some e) deadline latest = num_min (num_min deadline (date_parse e)) latest

unfoldable pub result_expiry : HumanRequirement → ProviderVerifiedHuman → Option ℕ → ℕ → Option ℕ
unfolding expiry_of
result_expiry requirement verified ttl issued_at =
    expiry_of (given_time verified.expires_at) (date_parse requirement.expires_at)
      (some (issued_at + ttl_ms ttl))

-- `toISOString` of a `Date`: a `RangeError` for NaN.
unfoldable pub to_iso_string : Option ℕ → Result IsoTimestamp
to_iso_string none = err "Invalid time value"
to_iso_string (some ms) = ok (instant ms)

-- `label ? { assuranceLevel: label } : {}`
unfoldable pub given_label : Option String → Option String
given_label none = none
given_label (some label) = if label == "" then none else some label

unfoldable pub build_result :
    HumanRequirement
    → ProviderVerifiedHuman
    → HumanMethodDescriptor
    → (result_id pairwise_human_id : String) → (issued_at : ℕ) → (expires_at : IsoTimestamp)
    → HumanResult
build_result requirement verified descriptor result_id pairwise_human_id issued_at expires_at =
    record {
      version = x424_version;
      result_id = result_id;
      dependency_id = requirement.dependency_id;
      purpose = requirement.purpose;
      audience = requirement.resource.audience;
      request_digest = requirement.resource.request_digest;
      binding = requirement.binding;
      provider_id = verified.provider_id;
      method_id = verified.method_id;
      descriptor_version = verified.descriptor_version;
      assurance_level = given_label verified.assurance_level;
      pairwise_human_id = pairwise_human_id;
      uniqueness_scope = verified.uniqueness_scope;
      verification_mode = verified.verification_mode;
      proof_digest = verified.proof_digest;
      claim = descriptor.claim;
      non_claims = descriptor.non_claims;
      verified_at = verified.verified_at;
      issued_at = instant issued_at;
      expires_at = expires_at;
      state_references = verified.state_references;
    }
