-- ===== src/Resource.antt =====
-- src/middleware/resource.ts: the protection of a resource. The stores are interfaces: a call of a
-- store takes in what other requests do to the state while it is awaited.
pub mod Options
pub mod Headers
pub mod Flow
pub mod Matching
pub mod Accepted
pub mod Proofs
pub mod Passed
pub mod Protected
use x.Prelude.{
  ℕ, String, Bool, true, false, ◌&&◌, ◌||◌, not, Option, none, some, List, Result, ok, err, is_some,
  ◌==◌, string_eq, if◌then◌else◌, to_upper_case, StringMap, IsoTimestamp,
}
use x.Prelude
use x.Types.{
  Json, HumanBinding, HumanMethodRequirement, HumanRequirement, HumanResult, ResultAcceptanceInput,
  ResultAcceptanceStatus, new, same_operation, replay, binding_eq,
}
use x.Effects.{Eff, continue, ◌>>=◌, ◌>>◌, lift, throw_when}
use x.Canonical.{Hashed, RequestBodyDigestInput, request_digest}
use x.Canonical.Values.{Value}
use x.Tokens.{verify_human_result_token}
use x.Tokens.External.{Platform}
use x.Requirements.{RequirementInput, create_human_requirement, given_or}
use x.Http.{verify_human_proof_header, Consume}
use x.Validation.{found_or_throw}
use x.Resource.Options.{
  DeploymentProfile, dev_local, is_dev_local, ProtectOptions, Accept, RequirementIssuanceInput,
}

-- What a request names: the arguments of `acceptHumanProof`.
pub record CurrentRequest : Type 0 where
  pub method : String
  pub uri : String
  pub binding : HumanBinding
  pub body_input : RequestBodyDigestInput
  pub operation_id : Option String

-- `!["GET", "HEAD", "OPTIONS"].includes(method)`
abbrev pub is_mutation : String → Bool
is_mutation method = not (method == "GET" || method == "HEAD" || method == "OPTIONS")

-- A text that is missing or empty is false.
abbrev pub is_given : Option String → Bool
is_given none = false
is_given (some text) = not (text == "")

-- The last two comparisons of `assertCurrentMatchesStored`; the digest is that of the request.
unfoldable pub match_stored :
    HumanRequirement → CurrentRequest → (digest : String) → Result (Unit {0})
match_stored requirement current digest =
    if not (requirement.resource.request_digest == digest)
    then err "Request body digest does not match the stored dependency"
    else if not (requirement.binding.kind == current.binding.kind)
        || not (requirement.binding.value == current.binding.value)
    then err "Caller binding does not match the stored dependency"
    else ok tt

unfoldable pub assert_current_matches_stored :
    (Hashed → String)
    → HumanRequirement
    → CurrentRequest
    → (purpose audience : String) → Result (Unit {0})
assert_current_matches_stored sha256 requirement current purpose audience =
    if not (requirement.purpose == purpose)
    then err "Purpose does not match the stored dependency"
    else if not (requirement.resource.audience == audience)
    then err "Audience does not match the stored dependency"
    else if not (requirement.resource.method == to_upper_case current.method)
    then err "HTTP method does not match the stored dependency"
    else if not (requirement.resource.uri == current.uri)
    then err "Request URI does not match the stored dependency"
    else Prelude.◌>>=◌ (request_digest sha256 current.method current.uri current.body_input)
        (match_stored requirement current)

-- The store and the key of an operation that is accepted: only for a mutation.
abbrev pub acceptance_of :
    {S : Type 0} → Bool → Option (Accept S) → Option String → Option (Accept S × String)
acceptance_of true (some accept) (some operation_id) = some (accept, operation_id)
acceptance_of true (some accept) none = none
acceptance_of true none operation_id = none
acceptance_of false accept operation_id = none

abbrev pub is_replay : ResultAcceptanceStatus → Bool
is_replay new = false
is_replay same_operation = false
is_replay replay = true

-- A result is bound to one operation.
unfoldable pub accept_operation :
    {S : Type 0} → Option (Accept S × String) → HumanResult → ℕ → Eff S (Unit {0})
accept_operation none result now = lift (ok tt)
accept_operation (some (accept, operation_id)) result now = do
  status ←
      accept
        (record {
          result_id = result.result_id;
          operation_id = operation_id;
          request_digest = result.request_digest;
          expires_at = result.expires_at;
        })
        now
  throw_when (is_replay status) "x424 result token was replayed for another operation"

-- `useAcceptance ? undefined : replayStore`
abbrev pub without_acceptance {ℓ} : {A : Type ℓ} → Bool → Option A → Option A
without_acceptance true store = none
without_acceptance false store = store

module _ {S : Type 0} (p : Platform) (sha256 : Hashed → String) (options : ProtectOptions S p) where
  -- The eager removal of a requirement that was read once.
  unfoldable pub delete_unless : Bool → String → Eff S (Unit {0})
  delete_unless true dependency_id = lift (ok tt)
  delete_unless false dependency_id = options.delete_requirement dependency_id

  unfoldable pub accept_human_proof :
      (human_proof : List ℕ) → CurrentRequest → ℕ → Eff S (HumanRequirement × HumanResult)
  accept_human_proof human_proof current now = do
    let mutation = is_mutation (to_upper_case current.method)
    let local = is_dev_local options.deployment_profile
    throw_when (not local && not (is_some options.replay_store))
        "ResultReplayStore is required for this profile"
    throw_when
        (mutation
          && not local
          && (not (is_some options.result_acceptance_store) || not (is_given current.operation_id)))
        "ResultAcceptanceStore and Idempotency-Key are required for mutations"
    preview ← lift (verify_human_result_token p human_proof options.verifier)
    found ← options.get_requirement preview.dependency_id now
    requirement ← lift (found_or_throw "Unknown or expired human dependency" found)
    lift (assert_current_matches_stored sha256 requirement current options.purpose options.audience)
    let acceptance = acceptance_of mutation options.result_acceptance_store current.operation_id
    result ←
        verify_human_proof_header p human_proof requirement options.verifier options.catalog
          (without_acceptance (is_some acceptance) options.replay_store)
          (not (is_some acceptance) && (mutation || not local)) now
    accept_operation acceptance result now
    delete_unless mutation requirement.dependency_id
    lift (ok (requirement, result))

  -- The provider requests that an option computes.
  unfoldable pub requests_for : HumanBinding → ℕ → Eff S (Option (StringMap Json))
  requests_for binding ttl_seconds = elim options.provider_requests [
    | none ↦ lift (ok none)
    | some requests ↦ requests binding ttl_seconds >>= λ r. lift (ok (some r))
  ]

  -- The issuance input as `createHumanRequirement` takes it.
  abbrev pub input_of : RequirementIssuanceInput → RequirementInput
  input_of issuance = record {
    purpose = issuance.purpose;
    method = issuance.method;
    uri = issuance.uri;
    audience = issuance.audience;
    body = Value.undefined;
    body_input = some issuance.body_input;
    binding = issuance.binding;
    accepts = issuance.accepts;
    provider_requests = issuance.provider_requests;
    ttl_seconds = some issuance.ttl_seconds;
    dependency_id = none;
    nonce = none;
  }

  -- A remote issuer, or a requirement of one's own.
  unfoldable pub create_requirement :
      (random_uuid random_nonce : String) → ℕ → RequirementIssuanceInput → Eff S HumanRequirement
  create_requirement random_uuid random_nonce now issuance = elim options.requirement_issuer [
    | some issue ↦ issue issuance
    | none ↦ lift (create_human_requirement sha256 random_uuid random_nonce now (input_of issuance))
  ]

  -- A remote issuer owns the requirement; one's own is stored.
  unfoldable pub store_requirement : HumanRequirement → Eff S (Unit {0})
  store_requirement requirement =
      if is_some options.requirement_issuer
      then lift (ok tt)
      else options.put_requirement requirement

  unfoldable pub issue_challenge :
      (random_uuid random_nonce : String)
      → ℕ
      → (method uri : String) → HumanBinding
      → RequestBodyDigestInput
      → Eff S HumanRequirement
  issue_challenge random_uuid random_nonce now method uri binding body_input = do
    let ttl_seconds = given_or options.ttl_seconds 300
    provider_requests ← requests_for binding ttl_seconds
    requirement ← create_requirement random_uuid random_nonce now (record {
      purpose = options.purpose;
      method = method;
      uri = uri;
      audience = options.audience;
      body_input = body_input;
      binding = binding;
      accepts = options.accepts;
      ttl_seconds = ttl_seconds;
      provider_requests = provider_requests;
    })
    let current : CurrentRequest = record {
      method = method;
      uri = uri;
      binding = binding;
      body_input = body_input;
      operation_id = none;
    }
    lift (assert_current_matches_stored sha256 requirement current options.purpose options.audience)
    store_requirement requirement
    lift (ok requirement)
