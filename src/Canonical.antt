-- ===== src/Canonical.antt =====
-- src/canonical.ts, with the body inputs of src/canonical-json.ts: the digest of a request. The hash
-- of the platform, with its prefix `sha256:`, is a parameter.
pub mod Values
pub mod Print
pub mod Quoted
pub mod Normal
pub mod Preimage
pub mod Bound
pub mod Plain
pub mod Sorted
pub mod Dropped
use x.Prelude.{
  ℕ, String, Bool, true, false, not, ◌||◌, Option, none, some, List, [], ◌∷◌, Result, ok, err,
  ◌>>=◌, ◌>>◌, throw_if, is_empty, to_upper_case, ◌==◌, string_eq, ◌<>◌, if◌then◌else◌,
}
use x.Encoding.{assert_sha256_digest}
use x.Canonical.Values.{Value, Properties}
use x.Canonical.Normal.{normalize, is_plain_json_value}
use x.Canonical.Print.{print}

-- `canonicalJson`
unfoldable pub canonical_json : Value → Result (List ℕ)
canonical_json value = normalize value >>= λ j. ok (print j)

pub data RequestBodyDigestInput : Type 0 where
  absent empty stream : RequestBodyDigestInput
  json : Value → RequestBodyDigestInput
  opaque : List ℕ → RequestBodyDigestInput
  precomputed : String → RequestBodyDigestInput

abbrev not_json_object : String
not_json_object = "Non-JSON object bodies must use opaque bytes or a precomputed digest"

unfoldable pub body_input_from_plain_json_body : Value → Result RequestBodyDigestInput
body_input_from_plain_json_body Value.undefined = ok absent
body_input_from_plain_json_body (Value.str s) =
    if s == ""
    then ok empty
    else err "String bodies must be supplied as opaque bytes or precomputed digests"
body_input_from_plain_json_body (Value.bytes b) = ok (if is_empty b then empty else opaque b)
body_input_from_plain_json_body (Value.arr elements) = do
  throw_if (not (is_plain_json_value (Value.arr elements))) not_json_object
  ok (json (Value.arr elements))
body_input_from_plain_json_body (Value.obj properties) = do
  throw_if (not (is_plain_json_value (Value.obj properties))) not_json_object
  ok (json (Value.obj properties))
body_input_from_plain_json_body Value.instance_of_class = err not_json_object
body_input_from_plain_json_body Value.null = err "Unsupported request body type: object"
body_input_from_plain_json_body (Value.bool b) = err "Unsupported request body type: boolean"
body_input_from_plain_json_body (Value.num n) = err "Unsupported request body type: number"
body_input_from_plain_json_body Value.not_finite = err "Unsupported request body type: number"
body_input_from_plain_json_body (Value.other type) = err ("Unsupported request body type: " <> type)

-- A plain value whose `typeof` is `object` and that is not null.
abbrev is_json_object : Value → Bool
is_json_object (Value.arr elements) = is_plain_json_value (Value.arr elements)
is_json_object (Value.obj properties) = is_plain_json_value (Value.obj properties)
is_json_object value = false

-- What is hashed: a text, or bytes.
pub data Hashed : Type 0 where
  text : List ℕ → Hashed
  bytes : List ℕ → Hashed

-- A text that may be null.
abbrev pub nullable : Option String → Value
nullable none = Value.null
nullable (some s) = Value.str s

-- The object whose canonical JSON is hashed.
abbrev pub request_value : (method uri : String) → Option String → Value
request_value method uri body_digest = Value.obj (
    Properties.property "method" (Value.str (to_upper_case method)) (
      Properties.property "uri" (Value.str uri)
        (Properties.property "bodyDigest" (nullable body_digest) Properties.end)))

module _ (sha256 : Hashed → String) where
  unfoldable pub body_digest_from_input : RequestBodyDigestInput → Result (Option String)
  body_digest_from_input absent = ok none
  body_digest_from_input empty = ok none
  body_digest_from_input (json value) = do
    throw_if (not (is_json_object value)) "json bodyInput requires a plain JSON object or array"
    canonical ← canonical_json value
    ok (some (sha256 (text canonical)))
  body_digest_from_input (opaque b) = ok (if is_empty b then none else some (sha256 (bytes b)))
  body_digest_from_input (precomputed digest) = assert_sha256_digest digest >>= λ d. ok (some d)
  body_digest_from_input stream =
      err "Streamed bodies require a precomputed bodyDigest (fail closed)"

  -- `requestDigest`, where the caller gives a body input; without one it takes that of the body.
  unfoldable pub request_digest : (method uri : String) → RequestBodyDigestInput → Result String
  request_digest method uri body_input = do
    body_digest ← body_digest_from_input body_input
    canonical ← canonical_json (request_value method uri body_digest)
    ok (sha256 (text canonical))

  unfoldable pub request_digest_of_body : (method uri : String) → Value → Result String
  request_digest_of_body method uri body =
      body_input_from_plain_json_body body >>= λ body_input. request_digest method uri body_input
