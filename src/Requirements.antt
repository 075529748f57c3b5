-- ===== src/Requirements.antt =====
-- src/requirements.ts: a new requirement. The random identifiers and the clock are arguments.
pub mod Accepted
pub mod Created
use x.Prelude.{
  ℕ, String, Bool, true, false, ◌&&◌, ◌||◌, not, Option, none, some, List, [], ◌∷◌, map, Result, ok,
  err, ◌>>=◌, ◌>>◌, throw_if, ◌==◌, string_eq, is_empty, includes, ltb, StringMap, IsoTimestamp,
  instant, ◌<>◌, to_upper_case, ◌+◌, ◌*◌,
}
use x.Types.{
  Json, HumanBinding, HumanMethodRequirement, HumanRequirement, ProtectedResource, x424_version,
}
use x.Catalog.{is_human_method_identifier, method_key}
use x.Canonical.Values.{Value}
use x.Canonical.{
  Hashed, RequestBodyDigestInput, absent, body_input_from_plain_json_body, request_digest,
}

-- `dependencyId` and `nonce` may be left out, and so may the TTL. A body that is not given is
-- `undefined`.
pub record RequirementInput : Type 0 where
  pub purpose : String
  pub method : String
  pub uri : String
  pub audience : String
  pub body : Value
  pub body_input : Option RequestBodyDigestInput
  pub binding : HumanBinding
  pub accepts : List HumanMethodRequirement
  pub provider_requests : Option (StringMap Json)
  pub ttl_seconds : Option ℕ
  pub dependency_id : Option String
  pub nonce : Option String

-- `a ?? b`
abbrev pub given_or {ℓ} : {A : Type ℓ} → Option A → A → A
given_or none b = b
given_or (some a) b = a

-- The loop over the accepted methods, with the keys so far.
unfoldable pub add_accepted : List String → List HumanMethodRequirement → Result (List String)
add_accepted keys [] = ok keys
add_accepted keys (accepted ∷ accepts) = do
  throw_if
      (not (is_human_method_identifier accepted.provider_id)
        || not (is_human_method_identifier accepted.method_id))
      "Accepted human method identifiers are invalid"
  throw_if (includes keys (method_key accepted.provider_id accepted.method_id))
      ("Duplicate accepted human method: " <> method_key accepted.provider_id accepted.method_id)
  add_accepted (method_key accepted.provider_id accepted.method_id ∷ keys) accepts

-- The loop over the keys of the provider requests.
unfoldable pub check_request_keys : List String → List String → Result (Unit {0})
check_request_keys accepted [] = ok tt
check_request_keys accepted (key ∷ keys) = do
  throw_if (not (includes accepted key))
      ("Provider request material names an unaccepted method: " <> key)
  check_request_keys accepted keys

-- `Object.keys(providerRequests ?? {})`
abbrev pub request_keys_of : Option (StringMap Json) → List String
request_keys_of none = []
request_keys_of (some requests) = map (λ (entry : String × Json). entry.0) requests

-- The body input that is given, or that of the body.
unfoldable pub resolved_body_input :
    Option RequestBodyDigestInput → Value → Result RequestBodyDigestInput
resolved_body_input (some body_input) body = ok body_input
resolved_body_input none body = body_input_from_plain_json_body body

module _ (sha256 : Hashed → String) (random_uuid random_nonce : String) (now : ℕ) where
  -- The object that is returned.
  abbrev pub requirement_for : RequirementInput → String → ℕ → HumanRequirement
  requirement_for input digest ttl_seconds = record {
    version = x424_version;
    dependency_id = given_or input.dependency_id ("x424_dep_" <> random_uuid);
    purpose = input.purpose;
    resource = record {
      method = to_upper_case input.method;
      uri = input.uri;
      audience = input.audience;
      request_digest = digest;
    };
    nonce = given_or input.nonce random_nonce;
    binding = input.binding;
    created_at = instant now;
    expires_at = instant (now + ttl_seconds * 1000);
    accepts = input.accepts;
    provider_requests = input.provider_requests;
  }

  unfoldable pub create_human_requirement : RequirementInput → Result HumanRequirement
  create_human_requirement input = do
    throw_if (input.purpose == "" || input.audience == "" || is_empty input.accepts)
        "Purpose, audience, and one accepted method are required"
    accepted ← add_accepted [] input.accepts
    check_request_keys accepted (request_keys_of input.provider_requests)
    throw_if (ltb (given_or input.ttl_seconds 300) 30 || ltb 900 (given_or input.ttl_seconds 300))
        "Requirement TTL must be between 30 and 900 seconds"
    body_input ← resolved_body_input input.body_input input.body
    digest ← request_digest sha256 input.method input.uri body_input
    ok (requirement_for input digest (given_or input.ttl_seconds 300))
