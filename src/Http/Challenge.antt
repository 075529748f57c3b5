-- ===== src/Http/Challenge.antt =====
-- How the answer with status 424 of src/http.ts carries its requirement.
use x.Prelude.{
  ℕ, none, some, List, ok, err, ◌≡◌, ◌⊎◌, inl, inr, refl, arith, ◌≤◌, ◌<◌, ltb, Bool-cases,
}
use x.Types.{HumanRequirement}
use x.Encoding.{encode_strict_base64url}
use x.Transport.{
  encoded_header_byte_length, select_requirement_transport_mode, assert_inline_header_envelope,
  header, body,
}
use x.Http.{HumanRequiredChallenge, human_required_response, open_challenge}

-- The bytes of the value that the header would have.
abbrev pub size_of : (HumanRequirement → List ℕ) → HumanRequirement → ℕ
size_of requirement_bytes requirement =
    encoded_header_byte_length (encode_strict_base64url (requirement_bytes requirement))

abbrev pub in_header : (HumanRequirement → List ℕ) → HumanRequirement → HumanRequiredChallenge
in_header requirement_bytes requirement = record {
  transport = header;
  human_required = some (encode_strict_base64url (requirement_bytes requirement));
  dependency_id = requirement.dependency_id;
  requirement = none;
}

abbrev pub in_body : HumanRequirement → HumanRequiredChallenge
in_body requirement = record {
  transport = body;
  human_required = none;
  dependency_id = requirement.dependency_id;
  requirement = some requirement;
}

-- A requirement whose encoding has at most 8,192 bytes is carried in the header and only there, one
-- with more, up to 65,536, in the body and only there, and a larger one throws.
pub challenge_cases :
    (requirement_bytes : HumanRequirement → List ℕ) (requirement : HumanRequirement)
    → ((size_of requirement_bytes requirement ≤ 8192)
        × (human_required_response requirement_bytes requirement
            ≡ ok (in_header requirement_bytes requirement)))
      ⊎ (((8192 < size_of requirement_bytes requirement)
            × (size_of requirement_bytes requirement ≤ 65536)
            × (human_required_response requirement_bytes requirement ≡ ok (in_body requirement)))
          ⊎ ((65536 < size_of requirement_bytes requirement)
              × (human_required_response requirement_bytes requirement
                  ≡ err "x424 requirement exceeds absolute transport maximum")))
unfolding human_required_response select_requirement_transport_mode assert_inline_header_envelope
challenge_cases requirement_bytes requirement =
    let n = size_of requirement_bytes requirement in
    elim (Bool-cases (ltb 65536 n)) [
      | inl large ↦ inr (inr (ground arith, rw large refl))
      | inr fits ↦ elim (Bool-cases (ltb 8192 n)) [
        | inl long ↦ inr (inl (ground arith, ground arith, rw (fits, long) refl))
        | inr short ↦ inl (ground arith, rw (fits, short) (rw (short, open_challenge) refl))
      ]
    ]
