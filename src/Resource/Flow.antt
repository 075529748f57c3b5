-- ===== src/Resource/Flow.antt =====
-- The two entry points of src/middleware/resource.ts: the middleware of Express and
-- `protectFetchResource`. An answer is told by what it says; its headers are in `Headers`.
use x.Prelude.{
  ℕ, String, Bool, true, ◌&&◌, not, Option, none, some, List, Result, ok, err, is_some, ◌==◌,
  string_eq, if◌then◌else◌, codes, ◌<>◌,
}
use x.Types.{HumanBinding, HumanRequirement, HumanResult}
use x.Effects.{Eff, ◌>>=◌, ◌>>◌, lift}
use x.Canonical.{Hashed, RequestBodyDigestInput, body_input_from_plain_json_body}
use x.Canonical.Values.{Value}
use x.Tokens.External.{Platform}
use x.Transport.{CorsPolicy, build_cors_headers}
use x.Transport.Urls.{UrlParser, resolve_public_absolute_uri}
use x.Http.{HumanRequiredChallenge, human_required_response}
use x.Resource.Options.{ProtectOptions, assert_protect_options}
use x.Resource.{is_mutation, is_given, issue_challenge, accept_human_proof}

-- What a request brings along: the headers that the code reads, the path that Express gives or the
-- URL of a `Request`, and the body.
pub record IncomingRequest : Type 0 where
  pub method : String
  pub url : String
  pub origin : Option String
  pub idempotency_key : Option String
  pub human_proof : Option String
  pub forwarded_host : Option String
  pub forwarded_proto : Option String
  pub body : Value
  pub body_input : Option RequestBodyDigestInput

-- The answers: 403, 204, 400, 424 and 401, or the request is let through.
pub data Answer : Type 0 where
  cors_origin_denied preflight idempotency_key_required human_proof_rejected : Answer
  challenged : HumanRequiredChallenge → Answer
  passed : HumanResult → Answer

-- What the embedder supplies, and the random identifiers of a call.
pub record Extractors (S : Type 0) : Type 0 where
  pub extract_binding : IncomingRequest → (uri : String) → Eff S HumanBinding
  pub extract_body_input : Option (IncomingRequest → (uri : String) → Eff S RequestBodyDigestInput)
  pub requirement_bytes : HumanRequirement → List ℕ
  pub random_uuid : String
  pub random_nonce : String

-- An answer that is given before the proof is looked at.
unfoldable pub cors_answer : Option CorsPolicy → IncomingRequest → Option Answer
cors_answer none request = none
cors_answer (some policy) request =
    if not (is_some (build_cors_headers request.origin policy)) && is_given request.origin
    then some cors_origin_denied
    else if request.method == "OPTIONS"
    then some preflight
    else none

-- `requireIdempotencyKey !== false`
abbrev pub key_is_required : Option Bool → Bool
key_is_required none = true
key_is_required (some required) = required

unfoldable pub early_answer :
    {S : Type 0} {p : Platform} → ProtectOptions S p → IncomingRequest → Option Answer
early_answer options request = elim (cors_answer options.cors request) [
  | some answer ↦ some answer
  | none ↦
      if is_mutation request.method
        && key_is_required options.require_idempotency_key
        && not (is_given request.idempotency_key)
      then some idempotency_key_required
      else none
]

-- `request.get("idempotency-key") ? { operationId } : {}`
abbrev pub given_key : Option String → Option String
given_key key = if is_given key then key else none

abbrev pub answer_with : {S : Type 0} → Option Answer → Eff S Answer → Eff S Answer
answer_with none rest = rest
answer_with (some answer) rest = lift (ok answer)

-- `catch (error)` of the middleware.
abbrev pub rejected_if_thrown : {S : Type 0} → S × Result Answer → S × Result Answer
rejected_if_thrown (s, ok answer) = (s, ok answer)
rejected_if_thrown (s, err message) = (s, ok human_proof_rejected)

module _ {S : Type 0} (p : Platform) (sha256 : Hashed → String) (urls : UrlParser)
    (options : ProtectOptions S p) (extractors : Extractors S) (now : ℕ) where
  unfoldable pub resolve_body_input :
      IncomingRequest → (uri : String) → Eff S RequestBodyDigestInput
  resolve_body_input request uri = elim extractors.extract_body_input [
    | some extract ↦ extract request uri
    | none ↦ lift (body_input_from_plain_json_body request.body)
  ]

  -- A request that brings no proof is asked for one.
  unfoldable pub challenge :
      IncomingRequest → (uri : String) → HumanBinding → RequestBodyDigestInput → Eff S Answer
  challenge request uri binding body_input = do
    requirement ←
        issue_challenge p sha256 options extractors.random_uuid extractors.random_nonce now
          request.method uri binding body_input
    response ← lift (human_required_response extractors.requirement_bytes requirement)
    lift (ok (challenged response))

  unfoldable pub check_proof :
      (proof : String)
      → IncomingRequest
      → (uri : String) → HumanBinding
      → RequestBodyDigestInput
      → Eff S Answer
  check_proof proof request uri binding body_input = do
    (requirement, result) ←
        accept_human_proof p sha256 options (codes proof)
          (record {
            method = request.method;
            uri = uri;
            binding = binding;
            body_input = body_input;
            operation_id = given_key request.idempotency_key;
          })
          now
    lift (ok (passed result))

  unfoldable pub check_or_challenge :
      Option String
      → IncomingRequest
      → (uri : String) → HumanBinding
      → RequestBodyDigestInput
      → Eff S Answer
  check_or_challenge none request uri binding body_input = challenge request uri binding body_input
  check_or_challenge (some proof) request uri binding body_input =
      if proof == ""
      then challenge request uri binding body_input
      else check_proof proof request uri binding body_input

  -- What the middleware of Express does inside `try`, after the early answers.
  unfoldable pub express_protected : IncomingRequest → Eff S Answer
  express_protected request = do
    uri ← lift (
        resolve_public_absolute_uri urls options.public_origin request.url request.forwarded_host
          request.forwarded_proto)
    binding ← extractors.extract_binding request uri
    body_input ← resolve_body_input request uri
    check_or_challenge request.human_proof request uri binding body_input

  -- `next()` is the answer `passed`.
  unfoldable pub express : IncomingRequest → Eff S Answer
  express request s =
      rejected_if_thrown (answer_with (early_answer options request) (express_protected request) s)

  -- `createExpressHumanDependencyMiddleware`
  unfoldable pub create_express : Result (IncomingRequest → Eff S Answer)
  create_express = elim (assert_protect_options urls options) [
    | err message ↦ err message
    | ok done ↦ ok express
  ]

  unfoldable pub fetch_uri : IncomingRequest → Result String
  fetch_uri request = elim (urls.parse request.url) [
    | none ↦ err "Invalid URL"
    | some parsed ↦ elim (urls.parse options.public_origin.public_origin) [
      | none ↦ err "Invalid URL"
      | some configured ↦
          if parsed.origin == configured.origin
          then ok parsed.href
          else resolve_public_absolute_uri urls options.public_origin
              (parsed.pathname <> parsed.search) none none
    ]
  ]

  -- Only `acceptHumanProof` stands inside `try`.
  unfoldable pub fetch_check_or_challenge :
      Option String
      → IncomingRequest
      → (uri : String) → HumanBinding
      → RequestBodyDigestInput
      → Eff S Answer
  fetch_check_or_challenge none request uri binding body_input s =
      challenge request uri binding body_input s
  fetch_check_or_challenge (some proof) request uri binding body_input s =
      if proof == ""
      then challenge request uri binding body_input s
      else rejected_if_thrown (check_proof proof request uri binding body_input s)

  unfoldable pub given_body_input :
      Option RequestBodyDigestInput
      → IncomingRequest
      → (uri : String) → Eff S RequestBodyDigestInput
  given_body_input none request uri = resolve_body_input request uri
  given_body_input (some body_input) request uri = lift (ok body_input)

  unfoldable pub fetch_protected : IncomingRequest → Eff S Answer
  fetch_protected request = do
    uri ← lift (fetch_uri request)
    binding ← extractors.extract_binding request uri
    body_input ← given_body_input request.body_input request uri
    fetch_check_or_challenge request.human_proof request uri binding body_input

  unfoldable pub protect_fetch_resource : IncomingRequest → Eff S Answer
  protect_fetch_resource request = do
    lift (assert_protect_options urls options)
    answer_with (early_answer options request) (fetch_protected request)
