-- ===== src/Http.antt =====
-- src/http.ts: the acceptance of a result token, and the answer that asks for one. The bytes of a
-- requirement's canonical JSON are a parameter.
pub mod Challenge
pub mod Verified
use x.Prelude.{
  ℕ, String, Bool, true, false, ◌&&◌, not, Option, none, some, List, [], ◌∷◌, Result, ok, err, ltb,
  IsoTimestamp, is_some, throw_if, if◌then◌else◌, ◌<>◌,
}
use x.Types.{
  HumanRequirement, HumanResult, HumanFailure, HumanFailureCode, HumanEvaluation,
  assurance_not_accepted, audience_mismatch, binding_mismatch, claim_mismatch, dependency_mismatch,
  descriptor_version_mismatch, expired, future_timestamp, method_disabled, method_not_accepted,
  method_unknown, proof_stale, purpose_mismatch, request_digest_mismatch, scope_not_accepted,
  time_window_invalid, verification_mode_not_accepted,
}
use x.Catalog.{Catalog}
use x.Policy.{evaluate_human_result}
use x.Effects.{Eff, continue, ◌>>=◌, ◌>>◌, lift, throw_when}
use x.Encoding.{encode_strict_base64url}
use x.Tokens.{Verifier, verify_human_result_token}
use x.Tokens.External.{Platform}
use x.Transport.{
  TransportMode, header, body, encoded_header_byte_length, select_requirement_transport_mode,
  assert_inline_header_envelope, header_absolute_max_bytes,
}

-- The names of the codes.
unfoldable pub code_name : HumanFailureCode → String
code_name assurance_not_accepted = "ASSURANCE_NOT_ACCEPTED"
code_name audience_mismatch = "AUDIENCE_MISMATCH"
code_name binding_mismatch = "BINDING_MISMATCH"
code_name claim_mismatch = "CLAIM_MISMATCH"
code_name dependency_mismatch = "DEPENDENCY_MISMATCH"
code_name descriptor_version_mismatch = "DESCRIPTOR_VERSION_MISMATCH"
code_name expired = "EXPIRED"
code_name future_timestamp = "FUTURE_TIMESTAMP"
code_name method_disabled = "METHOD_DISABLED"
code_name method_not_accepted = "METHOD_NOT_ACCEPTED"
code_name method_unknown = "METHOD_UNKNOWN"
code_name proof_stale = "PROOF_STALE"
code_name purpose_mismatch = "PURPOSE_MISMATCH"
code_name request_digest_mismatch = "REQUEST_DIGEST_MISMATCH"
code_name scope_not_accepted = "SCOPE_NOT_ACCEPTED"
code_name time_window_invalid = "TIME_WINDOW_INVALID"
code_name verification_mode_not_accepted = "VERIFICATION_MODE_NOT_ACCEPTED"

-- The codes, joined by commas.
unfoldable pub join_codes : List HumanFailure → String
join_codes [] = ""
join_codes (failure ∷ []) = code_name failure.code
join_codes (failure ∷ failure' ∷ failures) =
    code_name failure.code <> ("," <> join_codes (failure' ∷ failures))

-- `ResultReplayStore.consume`
abbrev pub Consume : Type 0 → Type 0
Consume S = String → IsoTimestamp → ℕ → Eff S Bool

-- What the replay store, if there is one, makes of a result.
unfoldable pub consume_once :
    {S : Type 0} → Option (Consume S) → HumanResult → ℕ → Eff S HumanResult
consume_once none result now = lift (ok result)
consume_once (some consume) result now = do
  unused ← consume result.result_id result.expires_at now
  throw_when (not unused) "x424 result token was already consumed"
  lift (ok result)

module _ {S : Type 0} (p : Platform) where
  unfoldable pub verify_human_proof_header :
      (human_proof : List ℕ)
      → HumanRequirement
      → Verifier p
      → Catalog
      → Option (Consume S)
      → (require_replay_store : Bool) → ℕ
      → Eff S HumanResult
  verify_human_proof_header human_proof requirement verifier catalog replay_store
        require_replay_store now =
      do
        throw_when (require_replay_store && not (is_some replay_store))
            "ResultReplayStore is required for this profile"
        result ← lift (verify_human_result_token p human_proof verifier)
        let evaluation = evaluate_human_result requirement result catalog now
        throw_when (not evaluation.satisfied)
            ("x424 result rejected: " <> join_codes evaluation.failures)
        consume_once replay_store result now

-- The answer with status 424: the value of the header HUMAN-REQUIRED, if it has one, and the
-- requirement in its body, if it is there.
pub record HumanRequiredChallenge : Type 0 where
  pub transport : TransportMode
  pub human_required : Option (List ℕ)
  pub dependency_id : String
  pub requirement : Option HumanRequirement

open_challenge : TransportMode → List ℕ → HumanRequirement → Result HumanRequiredChallenge
open_challenge header encoded requirement = elim (assert_inline_header_envelope encoded) [
  | err message ↦ err message
  | ok done ↦ ok (record {
    transport = header;
    human_required = some encoded;
    dependency_id = requirement.dependency_id;
    requirement = none;
  })
]
open_challenge body encoded requirement = ok (record {
  transport = body;
  human_required = none;
  dependency_id = requirement.dependency_id;
  requirement = some requirement;
})

unfoldable pub human_required_response :
    (requirement_bytes : HumanRequirement → List ℕ)
    → HumanRequirement
    → Result HumanRequiredChallenge
unfolding open_challenge
human_required_response requirement_bytes requirement =
    let encoded = encode_strict_base64url (requirement_bytes requirement) in
    if ltb header_absolute_max_bytes (encoded_header_byte_length encoded)
    then err "x424 requirement exceeds absolute transport maximum"
    else (elim (select_requirement_transport_mode (encoded_header_byte_length encoded)) [
      | err message ↦ err message
      | ok transport ↦ open_challenge transport encoded requirement
    ])
