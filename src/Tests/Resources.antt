-- ===== src/Tests/Resources.antt =====
-- A token, and a request that is let through with it.
use x.Prelude.{
  ℕ, zero, suc, String, true, false, Option, none, some, List, [], ◌∷◌, Result, ok, err, ◌≡◌, ◌≢◌,
  ◌≤◌, ◌<◌, ◌⊎◌, inl, inr, refl, arith, codes, All, length, same_list, nat_eq, if◌then◌else◌,
  nat_beq, eq_iff, ◌+◌, to_upper_case,
}
use x.Types.{Json, Members, new}
use x.Encoding.{equals_signs}
use x.Encoding.RoundTrip.{IsByte}
use x.Canonical.{
  Hashed, absent, request_digest, body_digest_from_input, body_input_from_plain_json_body,
}
use x.Canonical.Values.{Value}
use x.Tokens.{
  ResultSigner, Verifier, single, imported, find_key, sign_human_result, verify_human_result_token,
}
use x.Tokens.External.{Platform, key_object, parse_canonical_json_bytes}
use x.Canonical.Print.{quoted, escape_all, escape}
use x.Tokens.Header.{header_text, header_json, IsReadable}
use x.Tokens.RoundTrip.{IsKeyPair, HasReadablePayload, verify-sign}
use x.Transport.Urls.{Url, UrlParser}
use x.Resource.Options.{ProtectOptions, prod_ha, Accept}
use x.Resource.Flow.{
  IncomingRequest, Extractors, passed, express, express_protected, early_answer, cors_answer,
  check_or_challenge, check_proof, resolve_body_input,
}
use x.Resource.Passed.{IsPassed, passed-IsPassed}
use x.Transport.Urls.{resolve_public_absolute_uri}
use x.Http.{verify_human_proof_header, consume_once}
use x.Resource.{
  CurrentRequest, accept_human_proof, accept_operation, delete_unless,
  assert_current_matches_stored, match_stored,
}
use x.Resource.Proofs.{current_of}
use x.Policy.{evaluate_human_result}
use x.Tests.Data.{requirement, binding, method, catalog, issued}

abbrev payload_json : Json
payload_json = Json.obj (Members.member "a" (Json.num 1) Members.end)

abbrev payload_text : List ℕ
payload_text = codes "{\"a\":1}"

abbrev parse_one : List ℕ → Option Json
parse_one text =
    if same_list text (header_text "k")
    then some (header_json "k")
    else if same_list text payload_text
    then some payload_json
    else none

-- Texts of ASCII, one key, and one result.
abbrev platform : Platform
platform = record {
  Key = ℕ;
  encode_text = λ text. text;
  decode_text = λ bytes. some bytes;
  json_parse = parse_one;
  create_public_key = λ text. err "no key";
  create_private_key = λ text. err "no key";
  sign = λ key message. equals_signs 64;
  verify = λ key message signature. nat_beq key 1;
  result_text = λ result. payload_text;
  read_result = λ value. ok issued;
}

abbrev signer : ResultSigner platform
signer = record { key_id = "k"; private_key = key_object 1 }

abbrev verifier : Verifier platform
verifier = single "k" (key_object 1)

abbrev token : String
token =
    "eyJhbGciOiJFZERTQSIsImtpZCI6ImsiLCJ0eXAiOiJ4NDI0LXJlc3VsdCtqd3MifQ.eyJhIjoxfQ.PT09PT09PT09PT09PT09PT09PT09PT09PT09PT09PT09PT09PT09PT09PT09PT09PT09PT09PT09PT09PT09PQ"

token_test : sign_human_result platform issued signer ≡ ok (codes token)
unfolding sign_human_result x.Canonical.canonical_json x.Canonical.Normal.normalize
    x.Canonical.Normal.collect x.Canonical.Normal.sort_entries x.Canonical.Normal.key_le imported
    x.Encoding.encode_strict_base64url x.Encoding.trim_padding x.Encoding.Base64.btoa
    x.Canonical.Print.print x.Canonical.Normal.assign x.Canonical.Normal.add_member
    x.Canonical.Normal.comes_first quoted escape_all escape
token_test = refl

equals_signs-IsByte : (n : ℕ) → All IsByte (equals_signs n)
equals_signs-IsByte zero = tt
equals_signs-IsByte (suc n) = (omega arith, equals_signs-IsByte n)

keys : IsKeyPair platform signer verifier
unfolding imported find_key
keys = record {
  private_key = 1;
  public_key = 1;
  material = key_object 1;
  named = ground (arith, eq_iff "k" "");
  imports = refl;
  found = refl;
  trusted = refl;
  size = λ message. refl;
  whole = λ message. equals_signs-IsByte 64;
  accepts = λ message. refl;
}

header_text-IsReadable : IsReadable platform (header_text "k")
unfolding quoted escape_all escape
header_text-IsReadable = record {
  whole = omega arith;
  some_bytes = λ h. ground arith;
  decodes = refl;
}

payload : HasReadablePayload platform issued
unfolding parse_canonical_json_bytes x.Canonical.canonical_json x.Canonical.Normal.normalize
    x.Canonical.Normal.collect x.Canonical.Normal.sort_entries x.Canonical.Print.print
    x.Canonical.Normal.assign x.Canonical.Normal.add_member quoted escape_all escape
payload = record {
  readable = record { whole = omega arith; some_bytes = λ h. ground arith; decodes = refl };
  value = payload_json;
  parses = refl;
  reads = refl;
}

parsed_header : platform.json_parse (header_text "k") ≡ some (header_json "k")
unfolding quoted escape_all escape
parsed_header = refl

verify-sign_example : verify_human_result_token platform (codes token) verifier ≡ ok issued
verify-sign_example =
    verify-sign platform issued signer verifier (codes token) keys payload header_text-IsReadable
      parsed_header token_test (omega arith)

-- Stores that remember how many operations were accepted.
abbrev accept : Accept ℕ
accept input now count = (count + 1, ok new)

abbrev options : ProtectOptions ℕ platform
options = record {
  deployment_profile = prod_ha;
  purpose = "post";
  audience = "aud";
  accepts = method ∷ [];
  catalog = catalog;
  verifier = verifier;
  get_requirement = λ dependency_id now count. (count, ok (some requirement));
  put_requirement = λ stored count. (count, ok tt);
  delete_requirement = λ dependency_id count. (count, ok tt);
  requirement_store_in_memory = false;
  requirement_issuer = none;
  replay_store = some (λ result_id expires_at now count. (count, ok true));
  replay_store_in_memory = false;
  result_acceptance_store = some accept;
  result_acceptance_store_in_memory = false;
  public_origin = record { public_origin = "https://api"; allow_matching_forwarded_host = false };
  ttl_seconds = none;
  require_idempotency_key = none;
  provider_requests = none;
  cors = none;
}

abbrev origin : Url
origin = record {
  href = "/post";
  origin = "https://api";
  protocol = "https:";
  host = "api";
  hostname = "api";
  pathname = "/";
  search = "";
  hash = "";
  username = "";
  password = "";
}

abbrev urls : UrlParser
urls = record { parse = λ text. some origin; resolve = λ path base. some origin }

abbrev extractors : Extractors ℕ
extractors = record {
  extract_binding = λ request uri count. (count, ok binding);
  extract_body_input = none;
  requirement_bytes = λ r. [];
  random_uuid = "uuid";
  random_nonce = "nonce";
}

abbrev incoming : IncomingRequest
incoming = record {
  method = "POST";
  url = "/post";
  origin = none;
  idempotency_key = some "key";
  human_proof = some token;
  forwarded_host = none;
  forwarded_proto = none;
  body = Value.undefined;
  body_input = none;
}

abbrev hash : Hashed → String
hash input = "d"

verified_test : verify_human_result_token platform (codes token) verifier ≡ ok issued
verified_test =
    verify-sign platform issued signer verifier (codes token) keys payload header_text-IsReadable
      parsed_header token_test (omega arith)

abbrev current : CurrentRequest
current = current_of incoming "/post" binding absent

matched_test : assert_current_matches_stored hash requirement current "post" "aud" ≡ ok tt
unfolding assert_current_matches_stored match_stored to_upper_case request_digest
    body_digest_from_input x.Canonical.canonical_json x.Canonical.Normal.normalize
    x.Canonical.Normal.collect x.Canonical.Normal.sort_entries x.Canonical.Normal.key_le
matched_test = refl

satisfied_test : (evaluate_human_result requirement issued catalog 2500).satisfied ≡ true
unfolding evaluate_human_result x.Policy.collect x.Policy.checks x.Policy.binding_differs
    x.Prelude.get x.Policy.version_differs x.Policy.scope_refused x.Policy.mode_refused
    x.Policy.assurance_refused x.Policy.claim_differs x.Policy.timestamps_invalid
    x.Policy.result_expired x.Policy.window_invalid x.Policy.proof_too_old
satisfied_test = refl

header_test :
    verify_human_proof_header {S = ℕ} platform
      (codes token)
      requirement
      verifier
      catalog
      none
      false
      2500
      0
    ≡ (0, ok issued)
unfolding verify_human_proof_header consume_once
header_test = rw verified_test (rw satisfied_test refl)

accept_test :
    accept_human_proof platform hash options (codes token) current 2500 0
    ≡ (1, ok (requirement, issued))
unfolding accept_human_proof accept_operation delete_unless to_upper_case
accept_test = rw verified_test (rw matched_test (rw header_test refl))

express_test :
    express platform hash urls options extractors 2500 incoming 0 ≡ (1, ok (passed issued))
unfolding express express_protected early_answer cors_answer check_or_challenge check_proof
    resolve_body_input resolve_public_absolute_uri body_input_from_plain_json_body
    x.Prelude.starts_with
express_test = rw accept_test refl

passed_example : IsPassed hash options 2500 incoming issued
passed_example =
    passed-IsPassed platform hash urls options extractors 2500 incoming 0 1 issued
      (inl express_test)
