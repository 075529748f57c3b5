-- ===== src/Tests/Wire.antt =====
-- Tests of the encodings, of request digests, of new requirements and of the headers, and the
-- theorems about them at concrete inputs.
use x.Prelude.{
  ℕ, String, Option, none, some, List, [], ◌∷◌, ok, err, ◌≡◌, ◌≢◌, ◌↔◌, ◌⊎◌, ◌≤◌, ◌<◌, ◌+◌, ◌*◌,
  refl, arith, codes, All, to_upper_case, eq_iff,
}
use x.Types.{Json, HumanRequirement}
use x.Encoding.{encode_strict_base64url, decode_strict_base64url, assert_sha256_digest}
use x.Encoding.RoundTrip.{IsByte, base64url}
use x.Encoding.Accepted.{decode_iff}
use x.Canonical.{
  Hashed, text, json, RequestBodyDigestInput, body_digest_from_input, request_digest,
  canonical_json,
}
use x.Canonical.Values.{Value, Properties, Elements}
use x.Canonical.Bound.{request_digest_binds}
use x.Canonical.Dropped.{request_digest-proto}
use x.Transport.{merge_vary}
use x.Http.{human_required_response}
use x.Http.Challenge.{challenge_cases, size_of, in_header, in_body}
use x.Resource.Headers.{HeaderCall, set, remove, write, guarded_run}
use x.Resource.Protected.{guarded_run-IsProtected, IsProtected}
use x.Requirements.{RequirementInput, create_human_requirement, requirement_for}
use x.Requirements.Created.{HasConsistentKeys, create-HasConsistentKeys, create_current_iff}
use x.Validation.{assert_requirement_current}
use x.Tests.Data.{requirement, binding, method}

encode_test : encode_strict_base64url (251 ∷ 255 ∷ 1 ∷ 7 ∷ []) ≡ codes "-_8BBw"
unfolding encode_strict_base64url x.Encoding.trim_padding x.Encoding.Base64.btoa
encode_test = refl

decode_test : decode_strict_base64url (codes "-_8BBw") "text" ≡ ok (251 ∷ 255 ∷ 1 ∷ 7 ∷ [])
unfolding decode_strict_base64url x.Encoding.Base64.atob x.Encoding.padded encode_strict_base64url
    x.Encoding.trim_padding x.Encoding.Base64.btoa
decode_test = refl

trailing_bits_test : decode_strict_base64url (codes "-_8BBx") "text" ≡ err "Non-canonical text"
unfolding decode_strict_base64url x.Encoding.Base64.atob x.Encoding.padded encode_strict_base64url
    x.Encoding.trim_padding x.Encoding.Base64.btoa
trailing_bits_test = refl

single_character_test : decode_strict_base64url (codes "A") "text" ≡ err "Malformed text"
unfolding decode_strict_base64url x.Encoding.Base64.atob x.Encoding.padded
single_character_test = refl

abbrev one_byte : List ℕ
one_byte = 7 ∷ []

decode_example :
    (decode_strict_base64url (codes "Bw") "text" ≡ ok one_byte)
    ↔ ((one_byte ≢ []) × All IsByte one_byte × (codes "Bw" ≡ base64url one_byte))
decode_example = decode_iff (codes "Bw") one_byte "text"

canonical_test :
    canonical_json (
      Value.obj (
        Properties.property "b" (Value.num 10) (
          Properties.property "c" Value.undefined (
            Properties.property "a"
              (Value.arr (Elements.cons (Value.str "x\"") Elements.nil))
              (Properties.property "2" Value.null Properties.end)))))
    ≡ ok (codes "{\"2\":null,\"a\":[\"x\\\"\"],\"b\":10}")
unfolding canonical_json x.Canonical.Normal.normalize x.Canonical.Normal.collect
    x.Canonical.Normal.sort_entries x.Canonical.Normal.key_le x.Canonical.Print.print
    x.Canonical.Normal.assign x.Canonical.Normal.add_member x.Canonical.Normal.comes_first
    x.Canonical.Print.quoted x.Canonical.Print.escape_all x.Canonical.Print.escape
canonical_test = refl

abbrev constant_hash : Hashed → String
constant_hash input = "sha256:AAAAAAAAAAAAAAAAAAAAAAAAAAAAAAAAAAAAAAAAAAA"

abbrev path : String
path = "/a"

abbrev some_digest : Option String
some_digest = some (constant_hash (text []))

abbrev small_body : RequestBodyDigestInput
small_body = json (Value.obj (Properties.property "a" (Value.num 2) Properties.end))

binds_example :
    (to_upper_case "get" ≡ to_upper_case "GET") × (path ≡ path) × (some_digest ≡ some_digest)
unfolding to_upper_case body_digest_from_input canonical_json x.Canonical.Normal.normalize
    x.Canonical.Normal.collect x.Canonical.Normal.sort_entries request_digest
binds_example =
    request_digest_binds constant_hash "get" "GET" path path small_body small_body some_digest
      some_digest refl refl (λ same. refl) refl

-- A body whose property `__proto__` stands between two others.
abbrev with_proto : Properties
with_proto = Properties.property "b" (Value.num 3) (
    Properties.property "__proto__" (Value.num 1)
      (Properties.property "a" (Value.num 2) Properties.end))

proto_example :
    request_digest constant_hash "POST" "/a" (json (Value.obj with_proto))
    ≡ request_digest constant_hash "POST" "/a" (
        json (
          Value.obj (
            Properties.property "b"
              (Value.num 3)
              (Properties.property "a" (Value.num 2) Properties.end))))
proto_example = request_digest-proto constant_hash "POST" "/a" with_proto refl

vary_test :
    merge_vary (some (codes "Origin, human-proof,")) (codes "HUMAN-PROOF" ∷ [])
    ≡ codes "Origin, human-proof"
unfolding merge_vary x.Transport.vary_tokens x.Tokens.External.split x.Transport.trim
    x.Transport.join_list x.Transport.first_of_each
vary_test = refl

abbrev some_calls : List HeaderCall
some_calls =
    set (codes "Cache-Control") (codes "public")
    ∷ remove (codes "Vary")
    ∷ write ((codes "vary", codes "Accept") ∷ [])
    ∷ []

guarded_example : IsProtected (guarded_run some_calls (λ name. none))
guarded_example = guarded_run-IsProtected some_calls (λ name. none)

abbrev two_bytes_of : HumanRequirement → List ℕ
two_bytes_of r = 1 ∷ 2 ∷ []

challenge_example :
    ((size_of two_bytes_of requirement ≤ 8192)
      × (human_required_response two_bytes_of requirement
          ≡ ok (in_header two_bytes_of requirement)))
    ⊎ (((8192 < size_of two_bytes_of requirement)
          × (size_of two_bytes_of requirement ≤ 65536)
          × (human_required_response two_bytes_of requirement ≡ ok (in_body requirement)))
        ⊎ ((65536 < size_of two_bytes_of requirement)
            × (human_required_response two_bytes_of requirement
                ≡ err "x424 requirement exceeds absolute transport maximum")))
challenge_example = challenge_cases two_bytes_of requirement

abbrev input : RequirementInput
input = record {
  purpose = "post";
  method = "post";
  uri = "/post";
  audience = "aud";
  body = Value.undefined;
  body_input = some small_body;
  binding = binding;
  accepts = method ∷ [];
  provider_requests = some (("acme:face", Json.null) ∷ []);
  ttl_seconds = none;
  dependency_id = none;
  nonce = none;
}

abbrev created : HumanRequirement
created = requirement_for constant_hash "uuid" "nonce" 1000 input (constant_hash (text [])) 300

created_test : create_human_requirement constant_hash "uuid" "nonce" 1000 input ≡ ok created
unfolding create_human_requirement x.Requirements.add_accepted x.Catalog.is_human_method_identifier
    x.Requirements.check_request_keys x.Requirements.resolved_body_input request_digest
    body_digest_from_input canonical_json x.Canonical.Normal.normalize x.Canonical.Normal.collect
    x.Canonical.Normal.sort_entries x.Canonical.Normal.key_le
created_test = refl

keys_example : HasConsistentKeys created
keys_example = create-HasConsistentKeys constant_hash "uuid" "nonce" 1000 input created created_test

ttl_example :
    ((assert_requirement_current created 2000 ≡ ok tt)
      ↔ ((1000 ≤ 2000) × (2000 < 1000 + 300 * 1000)))
    × (30 ≤ 300)
    × (300 ≤ 900)
ttl_example =
    create_current_iff constant_hash "uuid" "nonce" 1000 input created created_test 2000
      (ground (arith, eq_iff created.dependency_id "")) (ground (arith, eq_iff created.nonce ""))
