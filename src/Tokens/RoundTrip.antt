-- ===== src/Tokens/RoundTrip.antt =====
-- A token that `signHumanResult` of src/result-token.ts writes is one that
-- `verifyHumanResultToken` accepts, for the same result.
use x.Prelude.{
  ℕ, true, false, some, List, [], ◌∷◌, ◌++◌, ok, ◌≡◌, ◌≢◌, sym, ◌∙◌, refl, arith, All, length, ◌≤◌,
  is_empty, ltb,
}
use x.Types.{HumanResult, Json}
use x.Encoding.{encode_strict_base64url, decode_strict_base64url}
use x.Encoding.RoundTrip.{IsByte, base64url, encode-base64url}
use x.Encoding.Accepted.{decode_iff, encode-nonempty}
use x.Tokens.{
  ResultSigner, Verifier, imported, find_key, sign_human_result, verify_human_result_token,
  verify_parts, verify_split,
}
use x.Tokens.External.{Platform, KeyMaterial, parse_canonical_json_bytes}
use x.Tokens.Header.{
  header_text, header_json, IsReadable, canonical_json-token_header, decode-encode_text,
  parse_token_header-encode,
}
use x.Tokens.Framing.{encode-HasNoPoint, split_three}

-- The keys of a signer and a verifier belong together: the verifier finds a key under the
-- identifier of the signer, the platform takes both, and with the one it accepts the signature of
-- 64 bytes that it makes of a text with the other.
pub record IsKeyPair (p : Platform) (signer : ResultSigner p) (verifier : Verifier p) : Type 0 where
  pub private_key : p.Key
  pub public_key : p.Key
  pub material : KeyMaterial p.Key
  pub named : signer.key_id ≢ ""
  pub imports : imported p p.create_private_key signer.private_key ≡ ok private_key
  pub found : find_key p signer.key_id verifier ≡ ok material
  pub trusted : imported p p.create_public_key material ≡ ok public_key
  pub size : (message : List ℕ) → length (p.sign private_key message) ≡ 64
  pub whole : (message : List ℕ) → All IsByte (p.sign private_key message)
  pub accepts : (message : List ℕ) → p.verify public_key message (p.sign private_key message) ≡ true

-- The platform and the schema read back the payload that is written for a result.
pub record HasReadablePayload (p : Platform) (result : HumanResult) : Type 0 where
  pub readable : IsReadable p (p.result_text result)
  pub value : Json
  pub parses :
      parse_canonical_json_bytes p (p.encode_text (p.result_text result)) "JWS payload" ≡ ok value
  pub reads : p.read_result value ≡ ok result

not_empty_append : (a b : List ℕ) (c : ℕ) → is_empty (a ++ (c ∷ b)) ≡ false
not_empty_append [] b c = refl
not_empty_append (x ∷ a) b c = refl

ok_path : {a b : List ℕ} → ok a ≡ ok b → a ≡ b
ok_path e = ground arith

not_longer : (n m : ℕ) → n ≤ m → ltb m n ≡ false
not_longer n m h = ground arith

module _ (p : Platform) (result : HumanResult) (signer : ResultSigner p) (verifier : Verifier p)
    (keys : IsKeyPair p signer verifier) (payload : HasReadablePayload p result)
    (header : IsReadable p (header_text signer.key_id))
    (parses : p.json_parse (header_text signer.key_id) ≡ some (header_json signer.key_id)) where
  -- The parts of the token.
  abbrev header_part : List ℕ
  header_part = encode_strict_base64url (p.encode_text (header_text signer.key_id))

  abbrev payload_part : List ℕ
  payload_part = encode_strict_base64url (p.encode_text (p.result_text result))

  abbrev signature_of : List ℕ → List ℕ
  signature_of message = p.sign keys.private_key (p.encode_text message)

  signed :
      sign_human_result p result signer
      ≡ ok (
          (header_part ++ (b'.' ∷ payload_part))
          ++ (b'.' ∷ encode_strict_base64url (signature_of (header_part ++ (b'.' ∷ payload_part)))))
  unfolding sign_human_result
  signed = rw (canonical_json-token_header signer.key_id) (rw keys.imports refl)

  -- The message whose signature the token carries.
  abbrev message : List ℕ
  message = header_part ++ (b'.' ∷ payload_part)

  some_signature : signature_of message ≢ []
  some_signature h = let n = keys.size (p.encode_text message) in absurd (ground (arith, h))

  decode_signature :
      decode_strict_base64url (encode_strict_base64url (signature_of message)) "JWS signature"
      ≡ ok (signature_of message)
  decode_signature = rw (encode-base64url (signature_of message)) (
      (decode_iff (base64url (signature_of message)) (signature_of message) "JWS signature").1
        (some_signature, keys.whole (p.encode_text message), refl))

  parts_verified :
      verify_parts p header_part payload_part
        (encode_strict_base64url (signature_of message))
        verifier
      ≡ ok result
  unfolding verify_parts
  parts_verified =
      rw
        (
          encode-nonempty _ header.some_bytes,
          encode-nonempty _ payload.readable.some_bytes,
          encode-nonempty _ some_signature,
        )
        (rw (parse_token_header-encode p signer.key_id keys.named header parses) (
          rw keys.found (
            rw keys.trusted (
              rw decode_signature (
                rw (keys.size (p.encode_text message), keys.accepts (p.encode_text message))
                  (rw (decode-encode_text p (p.result_text result) "JWS payload" payload.readable)
                    (rw payload.parses payload.reads)))))))

  abbrev token_text : List ℕ
  token_text = message ++ (b'.' ∷ encode_strict_base64url (signature_of message))

  token_verified :
      length token_text ≤ 65536 → verify_human_result_token p token_text verifier ≡ ok result
  unfolding verify_human_result_token verify_split
  token_verified short =
      rw
        (
          not_empty_append message (encode_strict_base64url (signature_of message)) b'.',
          not_longer (length token_text) 65536 short,
        )
        (rw
          (split_three header_part payload_part (encode_strict_base64url (signature_of message))
            (encode-HasNoPoint _) (encode-HasNoPoint _) (encode-HasNoPoint _))
          parts_verified)

-- A token that is signed for a result is verified, and gives the result back, if it is not longer
-- than 65,536 characters, the keys belong together, and the platform and the schema read back the
-- texts of the header and of the result.
pub verify-sign :
    (p : Platform) (result : HumanResult) (signer : ResultSigner p) (verifier : Verifier p)
    (token : List ℕ)
    → IsKeyPair p signer verifier
    → HasReadablePayload p result
    → IsReadable p (header_text signer.key_id)
    → p.json_parse (header_text signer.key_id) ≡ some (header_json signer.key_id)
    → sign_human_result p result signer ≡ ok token
    → length token ≤ 65536
    → verify_human_result_token p token verifier ≡ ok result
verify-sign p result signer verifier token keys payload header parses h short =
    let same : token_text p result signer verifier keys payload header parses ≡ token =
      ok_path (sym (signed p result signer verifier keys payload header parses) ∙ h) in
    rw (← same) (token_verified p result signer verifier keys payload header parses (rw same short))
