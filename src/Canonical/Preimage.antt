-- ===== src/Canonical/Preimage.antt =====
-- The text that `requestDigest` of src/canonical.ts hashes.
use x.Prelude.{ℕ, String, Option, none, some, List, ◌++◌, ok, codes, to_upper_case, ◌≡◌, refl}
use x.Canonical.{
  canonical_json, request_value, Hashed, text, RequestBodyDigestInput, body_digest_from_input,
  request_digest,
}
use x.Canonical.Print.{print, quoted, escape_all, escape}
use x.Canonical.Normal.{normalize, sort_entries, key_le, collect, assign, add_member, comes_first}

abbrev pub null_or_quoted : Option String → List ℕ
null_or_quoted none = codes "null"
null_or_quoted (some s) = quoted s

abbrev pub uri_text : String → List ℕ
uri_text uri = codes ",\"uri\":" ++ (quoted uri ++ codes "}")

abbrev pub method_text : (method uri : String) → List ℕ
method_text method uri = codes ",\"method\":" ++ (quoted method ++ uri_text uri)

abbrev pub request_text : (method uri : String) → Option String → List ℕ
request_text method uri body_digest =
    codes "{\"bodyDigest\":" ++ (null_or_quoted body_digest ++ method_text method uri)

pub canonical_json-request_value :
    (method uri : String) (body_digest : Option String)
    → canonical_json (request_value method uri body_digest)
      ≡ ok (request_text (to_upper_case method) uri body_digest)
unfolding canonical_json normalize sort_entries key_le collect assign add_member comes_first print
    quoted escape_all escape
canonical_json-request_value method uri none = refl
canonical_json-request_value method uri (some digest) = refl

-- What `requestDigest` returns when the body has a digest, or needs none.
pub request_digest-eq_hash :
    (sha256 : Hashed → String) (method uri : String) (body_input : RequestBodyDigestInput)
    {body_digest : Option String}
    → body_digest_from_input sha256 body_input ≡ ok body_digest
    → request_digest sha256 method uri body_input
      ≡ ok (sha256 (text (request_text (to_upper_case method) uri body_digest)))
unfolding request_digest
request_digest-eq_hash sha256 method uri body_input {body_digest} h =
    rw h (rw (canonical_json-request_value method uri body_digest) refl)
