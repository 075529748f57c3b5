-- ===== src/Tokens.antt =====
-- src/result-token.ts: signed result tokens. A token is the list of its code units. What the
-- platform and the schema library do is a parameter.
pub mod External
pub mod Header
pub mod Framing
pub mod RoundTrip
use x.Prelude.{
  ℕ, String, Bool, true, false, ◌||◌, not, Option, none, some, List, [], ◌∷◌, ◌++◌, Result, ok, err,
  ◌>>=◌, ◌>>◌, throw_if, if◌then◌else◌, nat_beq, ltb, is_empty, length, ◌==◌, string_eq, any,
}
use x.Types.{HumanResult, Json, Members}
use x.Encoding.{encode_strict_base64url, decode_strict_base64url}
use x.Canonical.Values.{Value, Properties}
use x.Canonical.{canonical_json}
use x.Tokens.External.{Platform, KeyMaterial, key_object, pem, split, parse_canonical_json_bytes}

-- The header of a token with this key identifier, in the order of the source.
abbrev pub token_header : String → Value
token_header kid = Value.obj (
    Properties.property "alg" (Value.str "EdDSA") (
      Properties.property "typ" (Value.str "x424-result+jws")
        (Properties.property "kid" (Value.str kid) Properties.end)))

-- `header[name]`, for a name that no prototype has.
abbrev pub member_of : String → Members → Option Json
member_of name Members.end = none
member_of name (Members.member key j members) =
    if key == name then some j else member_of name members

-- A property of a parsed value: reading one of null throws.
abbrev pub property_of : String → Json → Result (Option Json)
property_of name Json.null = err "Cannot read properties of null"
property_of name (Json.obj members) = ok (member_of name members)
property_of name (Json.bool b) = ok none
property_of name (Json.num n) = ok none
property_of name (Json.str s) = ok none
property_of name (Json.arr items) = ok none

abbrev pub is_text : String → Option Json → Bool
is_text text (some (Json.str s)) = s == text
is_text text other = false

-- `typeof kid === "string"` and not empty.
abbrev pub kid_text : Option Json → Result String
kid_text (some (Json.str kid)) =
    if kid == "" then err "Unsupported x424 result token header" else ok kid
kid_text other = err "Unsupported x424 result token header"

-- A key beyond the three of a header.
abbrev pub has_other_field : Members → Bool
has_other_field Members.end = false
has_other_field (Members.member key j members) =
    not (key == "alg" || key == "typ" || key == "kid") || has_other_field members

abbrev pub other_field_in : Json → Bool
other_field_in (Json.obj members) = has_other_field members
other_field_in other = false

-- The key identifier of a header that is in order.
unfoldable pub checked_header : Json → Result String
checked_header header = do
  alg ← property_of "alg" header
  throw_if (not (is_text "EdDSA" alg)) "Unsupported x424 result token header"
  typ ← property_of "typ" header
  throw_if (not (is_text "x424-result+jws" typ)) "Unsupported x424 result token header"
  found ← property_of "kid" header
  kid ← kid_text found
  throw_if (other_field_in header) "Unsupported x424 result token header field"
  ok kid

module _ (p : Platform) where
  open p use {
    Key, encode_text, create_public_key, create_private_key, sign, verify, result_text, read_result,
  }

  pub record ResultSigner : Type 0 where
    pub key_id : String
    pub private_key : KeyMaterial Key

  -- One trusted key, or a map of them by identifier.
  pub data Verifier : Type 0 where
    single : (key_id : String) → KeyMaterial Key → Verifier
    key_set : (String → Option (KeyMaterial Key)) → Verifier

  unfoldable pub imported : (String → Result Key) → KeyMaterial Key → Result Key
  imported create (key_object key) = ok key
  imported create (pem text) = create text

  unfoldable pub sign_human_result : HumanResult → ResultSigner → Result (List ℕ)
  sign_human_result result signer = do
    header ← canonical_json (token_header signer.key_id)
    let protected_header = encode_strict_base64url (encode_text header)
    let payload = encode_strict_base64url (encode_text (result_text result))
    let signing_input = protected_header ++ (b'.' ∷ payload)
    private_key ← imported create_private_key signer.private_key
    ok (
        signing_input
        ++ (b'.' ∷ encode_strict_base64url (sign private_key (encode_text signing_input))))

  unfoldable pub parse_token_header : List ℕ → Result String
  parse_token_header protected_header = do
    bytes ← decode_strict_base64url protected_header "JWS header"
    header ← parse_canonical_json_bytes p bytes "JWS header"
    checked_header header

  unfoldable pub find_key : String → Verifier → Result (KeyMaterial Key)
  find_key kid (single key_id key) =
      if kid == key_id then ok key else err "Unsupported x424 result token header"
  find_key kid (key_set keys) = elim (keys kid) [
    | none ↦ err "Unknown x424 result token kid"
    | some key ↦ ok key
  ]

  unfoldable pub verify_parts :
      (protected_header payload signature : List ℕ) → Verifier → Result HumanResult
  verify_parts protected_header payload signature verifier = do
    throw_if (is_empty protected_header || is_empty payload || is_empty signature)
        "Malformed x424 result token"
    kid ← parse_token_header protected_header
    key_material ← find_key kid verifier
    public_key ← imported create_public_key key_material
    signature_bytes ← decode_strict_base64url signature "JWS signature"
    throw_if (not (nat_beq (length signature_bytes) 64))
        "Invalid x424 result token signature length"
    throw_if
        (not
          (verify public_key (encode_text (protected_header ++ (b'.' ∷ payload))) signature_bytes))
        "Invalid x424 result token signature"
    bytes ← decode_strict_base64url payload "JWS payload"
    value ← parse_canonical_json_bytes p bytes "JWS payload"
    read_result value

  -- The three parts of `token.split(".")`.
  unfoldable pub verify_split : List (List ℕ) → Verifier → Result HumanResult
  verify_split (protected_header ∷ payload ∷ signature ∷ []) verifier =
      verify_parts protected_header payload signature verifier
  verify_split other verifier = err "Malformed x424 result token"

  unfoldable pub verify_human_result_token : List ℕ → Verifier → Result HumanResult
  verify_human_result_token token verifier = do
    throw_if (is_empty token || ltb 65536 (length token)) "Malformed x424 result token"
    verify_split (split b'.' token) verifier
