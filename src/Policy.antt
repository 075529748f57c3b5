-- ===== src/Policy.antt =====
-- src/policy.ts: the checks of an authenticated result against its requirement and the catalog.
pub mod Acceptable
pub mod Checks
pub mod Decision
use x.Prelude.{
  ℕ, String, Bool, true, false, ◌&&◌, ◌||◌, not, Option, none, some, List, [], ◌∷◌, ◌==◌, string_eq,
  find, includes, same_list, option_beq, is_some, is_empty, IsoTimestamp, date_parse, num_le,
  num_lt, ◌*◌, ◌-◌, ltb, if◌then◌else◌, get, ◌<>◌,
}
use x.Types.{
  HumanMethodDescriptor, HumanMethodRequirement, HumanRequirement, HumanResult, HumanFailure,
  HumanFailureCode, HumanEvaluation, enabled, status_eq, scope_eq, mode_eq, binding_eq,
  assurance_not_accepted, audience_mismatch, binding_mismatch, claim_mismatch, dependency_mismatch,
  descriptor_version_mismatch, expired, future_timestamp, method_disabled, method_not_accepted,
  method_unknown, proof_stale, purpose_mismatch, request_digest_mismatch, scope_not_accepted,
  time_window_invalid, verification_mode_not_accepted,
}
use x.Validation.{is_method}
use x.Catalog.{Catalog, method_key}

abbrev fail : HumanFailureCode → String → HumanFailure
fail code detail = record { code = code; detail = detail }

abbrev pub matching_method : HumanRequirement → HumanResult → Option HumanMethodRequirement
matching_method requirement result =
    find (is_method result.provider_id result.method_id) requirement.accepts

-- `value && test(value)`
abbrev pub and_also {ℓ} : {A : Type ℓ} → Option A → (A → Bool) → Bool
and_also none test = false
and_also (some a) test = test a

unfoldable pub binding_differs : HumanRequirement → HumanResult → Bool
binding_differs requirement result =
    not (result.binding.kind == requirement.binding.kind)
    || not (result.binding.value == requirement.binding.value)

unfoldable pub version_differs :
    Option HumanMethodRequirement → Option HumanMethodDescriptor → HumanResult → Bool
version_differs accepted descriptor result =
    and_also accepted (λ a. not (result.descriptor_version == a.descriptor_version))
    || and_also descriptor (λ d. not (result.descriptor_version == d.version))

unfoldable pub scope_refused :
    Option HumanMethodRequirement → Option HumanMethodDescriptor → HumanResult → Bool
scope_refused accepted descriptor result =
    and_also accepted (λ a. not (includes a.accepted_scope_kinds result.uniqueness_scope.kind))
    || and_also descriptor (λ d. not (includes d.native_scope_kinds result.uniqueness_scope.kind))

unfoldable pub mode_refused :
    Option HumanMethodRequirement → Option HumanMethodDescriptor → HumanResult → Bool
mode_refused accepted descriptor result =
    and_also accepted
      (λ a. and_also a.verification_modes (λ modes. not (includes modes result.verification_mode)))
    || and_also descriptor (λ d. not (includes d.verification_modes result.verification_mode))

unfoldable pub assurance_refused :
    Option HumanMethodRequirement → Option HumanMethodDescriptor → HumanResult → Bool
assurance_refused accepted descriptor result =
    and_also accepted
      (λ a. is_some a.assurance_level && not (option_beq a.assurance_level result.assurance_level))
    || and_also descriptor
        (λ d. and_also result.assurance_level (λ level. not (includes d.assurance_levels level)))

unfoldable pub claim_differs : Option HumanMethodDescriptor → HumanResult → Bool
claim_differs descriptor result =
    and_also descriptor
      (λ d. not (result.claim == d.claim) || not (same_list result.non_claims d.non_claims))

unfoldable pub timestamps_invalid : HumanResult → ℕ → Bool
timestamps_invalid result now =
    let verified_at = date_parse result.verified_at in
    let issued_at = date_parse result.issued_at in
    not (is_some verified_at)
    || not (is_some issued_at)
    || num_lt (some now) verified_at
    || num_lt (some now) issued_at

unfoldable pub result_expired : HumanResult → ℕ → Bool
result_expired result now =
    let expires_at = date_parse result.expires_at in
    not (is_some expires_at) || num_le expires_at (some now)

unfoldable pub window_invalid : HumanRequirement → HumanResult → Bool
window_invalid requirement result =
    let created = date_parse requirement.created_at in
    let deadline = date_parse requirement.expires_at in
    let verified_at = date_parse result.verified_at in
    let issued_at = date_parse result.issued_at in
    let expires_at = date_parse result.expires_at in
    not (is_some created)
    || not (is_some deadline)
    || not (is_some verified_at)
    || not (is_some issued_at)
    || not (is_some expires_at)
    || num_lt issued_at verified_at
    || num_lt issued_at created
    || num_le deadline issued_at
    || num_le expires_at issued_at
    || num_lt deadline expires_at

-- `nowMs - verifiedAt > limit * 1000`; a negative difference, 0 here, is no greater.
unfoldable pub proof_too_old : Option HumanMethodRequirement → HumanResult → ℕ → Bool
proof_too_old accepted result now = and_also accepted (λ a.
    and_also a.maximum_proof_age_seconds (λ limit.
      and_also (date_parse result.verified_at)
        (λ verified_at. ltb (limit * 1000) (now - verified_at))))

-- `else if` on the descriptor.
abbrev is_disabled : Option HumanMethodDescriptor → Bool
is_disabled descriptor = and_also descriptor (λ d. not (d.status == enabled))

-- The tests in order, each with the failure that it pushes.
unfoldable pub checks :
    HumanRequirement
    → HumanResult
    → Option HumanMethodRequirement
    → Option HumanMethodDescriptor
    → ℕ
    → List (Bool × HumanFailure)
checks requirement result accepted descriptor now =
    (
      not (result.dependency_id == requirement.dependency_id),
      fail dependency_mismatch "Result is for another dependency",
    )
    ∷ (
      not (result.purpose == requirement.purpose),
      fail purpose_mismatch "Result purpose does not match",
    )
    ∷ (
      not (result.audience == requirement.resource.audience),
      fail audience_mismatch "Result audience does not match",
    )
    ∷ (
      not (result.request_digest == requirement.resource.request_digest),
      fail request_digest_mismatch "Result is bound to another request",
    )
    ∷ (binding_differs requirement result, fail binding_mismatch "Caller binding does not match")
    ∷ (
      not (is_some accepted),
      fail method_not_accepted
          (result.provider_id <> ":" <> result.method_id <> " was not explicitly accepted"),
    )
    ∷ (not (is_some descriptor), fail method_unknown "Result names an unknown method")
    ∷ (is_disabled descriptor, fail method_disabled "Result method is disabled")
    ∷ (
      version_differs accepted descriptor result,
      fail descriptor_version_mismatch "Result uses another method descriptor version",
    )
    ∷ (
      scope_refused accepted descriptor result,
      fail scope_not_accepted "Provider uniqueness scope is not accepted",
    )
    ∷ (
      mode_refused accepted descriptor result,
      fail verification_mode_not_accepted "Verification mode is not accepted",
    )
    ∷ (
      assurance_refused accepted descriptor result,
      fail assurance_not_accepted "Provider-local assurance label is not accepted",
    )
    ∷ (
      claim_differs descriptor result,
      fail claim_mismatch "Result changed the method claim or non-claims",
    )
    ∷ (timestamps_invalid result now, fail future_timestamp "Result timestamps are invalid")
    ∷ (result_expired result now, fail expired "Result has expired")
    ∷ (
      window_invalid requirement result,
      fail time_window_invalid "Result time window is inconsistent with the dependency",
    )
    ∷ (proof_too_old accepted result now, fail proof_stale "Human proof exceeds maximum age")
    ∷ []

-- The failures of the tests that hold, in order.
unfoldable pub collect : List (Bool × HumanFailure) → List HumanFailure
collect [] = []
collect ((violated, failure) ∷ rest) = if violated then failure ∷ collect rest else collect rest

unfoldable pub evaluate_human_result :
    HumanRequirement → HumanResult → Catalog → ℕ → HumanEvaluation
evaluate_human_result requirement result catalog now =
    let failures = collect (
      checks requirement result (matching_method requirement result)
        (get (method_key result.provider_id result.method_id) catalog) now) in
    record { satisfied = is_empty failures; failures = failures }
