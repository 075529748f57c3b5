-- ===== src/Validation.antt =====
-- src/validation.ts: which method a proof is for, and whether a requirement is current.
pub mod Current
pub mod Accepted
use x.Prelude.{
  ℕ, String, Bool, true, false, ◌&&◌, ◌||◌, not, Option, none, some, List, ◌++◌, Result, ok, err,
  ◌>>=◌, ◌>>◌, throw_if, ◌==◌, string_eq, find, is_empty, IsoTimestamp, date_parse, num_lt, num_le,
  is_some, if◌then◌else◌, ◌<>◌,
}
use x.Types.{
  x424_version, HumanBinding, HumanMethodRequirement, HumanProofSubmission, HumanRequirement,
  binding_eq,
}

-- `Buffer`s of equal length with equal bytes hold the same text.
abbrev pub same_text : String → String → Bool
same_text left right = left == right

abbrev pub same_binding : HumanBinding → HumanBinding → Bool
same_binding left right = left.kind == right.kind && same_text left.value right.value

-- The test of the `find` over the accepted methods.
abbrev pub is_method : String → String → HumanMethodRequirement → Bool
is_method provider_id method_id candidate =
    candidate.provider_id == provider_id && candidate.method_id == method_id

-- `throw` where `find` gives `undefined`.
abbrev pub found_or_throw {ℓ} : {A : Type ℓ} → String → Option A → Result A
found_or_throw message none = err message
found_or_throw message (some a) = ok a

unfoldable pub accepted_method_for_proof :
    HumanRequirement → HumanProofSubmission → Result HumanMethodRequirement
accepted_method_for_proof requirement proof = do
  throw_if (not (proof.version == x424_version)) ("Unsupported x424 version: " <> proof.version)
  throw_if (not (same_text proof.dependency_id requirement.dependency_id))
      "Human proof is for another dependency"
  throw_if (not (same_binding proof.binding requirement.binding))
      "Human proof caller binding does not match"
  found_or_throw ("Human method is not accepted: " <> proof.provider_id <> ":" <> proof.method_id)
      (find (is_method proof.provider_id proof.method_id) requirement.accepts)

unfoldable pub requirement_invalid : HumanRequirement → ℕ → Bool
requirement_invalid requirement now =
    let created_at = date_parse requirement.created_at in
    let expires_at = date_parse requirement.expires_at in
    not (requirement.version == x424_version)
    || requirement.dependency_id == ""
    || requirement.nonce == ""
    || is_empty requirement.accepts
    || not (is_some created_at)
    || not (is_some expires_at)
    || num_lt (some now) created_at
    || num_le expires_at (some now)
    || num_le expires_at created_at

unfoldable pub assert_requirement_current : HumanRequirement → ℕ → Result (Unit {0})
unfolding requirement_invalid
assert_requirement_current requirement now =
    throw_if (requirement_invalid requirement now) "Human requirement is invalid or expired"
