-- ===== src/Resource/Passed.antt =====
-- Which requests the entry points of src/middleware/resource.ts let through.
use x.Prelude.{
  ℕ, String, false, ◌&&◌, not, Option, none, some, ok, ◌≡◌, ◌⊎◌, inl, inr, ◌≢◌, ◌∙◌, refl, arith,
  string_eq, codes, Option-cases,
}
use x.Types.{HumanBinding, HumanRequirement, HumanResult}
use x.Effects.{Eff, >>=-eq-ok, lift-eq-ok}
use x.Canonical.{Hashed, RequestBodyDigestInput}
use x.Tokens.External.{Platform}
use x.Transport.{CorsPolicy}
use x.Transport.Urls.{UrlParser, resolve_public_absolute_uri}
use x.Resource.Options.{ProtectOptions, assert_protect_options}
use x.Resource.Accepted.{IsAccepted}
use x.Resource.{is_mutation, is_given}
use x.Resource.Proofs.{current_of, check_passed, caught, proof_of, fetch_proof_of}
use x.Resource.Flow.{
  key_is_required, IncomingRequest, Answer, passed, Extractors, early_answer, answer_with,
  cors_answer, resolve_body_input, express_protected, express, fetch_uri, given_body_input,
  fetch_protected, protect_fetch_resource,
}

-- A request that is let through comes from an origin that is allowed, has the idempotency key that
-- it needs, and brought a proof that is accepted for it.
pub record IsPassed {S : Type 0} {p : Platform} (sha256 : Hashed → String)
    (options : ProtectOptions S p) (now : ℕ) (request : IncomingRequest) (result : HumanResult)
    : Type 0 where
  pub origin_allowed : cors_answer options.cors request ≡ none
  pub keyed :
      (is_mutation request.method
        && key_is_required options.require_idempotency_key
        && not (is_given request.idempotency_key))
      ≡ false
  pub proof : String
  pub brought : request.human_proof ≡ some proof
  pub uri : String
  pub binding : HumanBinding
  pub body_input : RequestBodyDigestInput
  pub requirement : HumanRequirement
  pub accepted :
      IsAccepted sha256 options
        (codes proof)
        (current_of request uri binding body_input)
        now
        requirement
        result

module _ {S : Type 0} (p : Platform) (sha256 : Hashed → String) (urls : UrlParser)
    (options : ProtectOptions S p) (extractors : Extractors S) (now : ℕ) where
  -- Early answers let nothing through either.
  no_answer :
      (early : Option Answer) (rest : Eff S Answer) (s t : S) (result : HumanResult)
      → answer_with early rest s ≡ (t, ok (passed result))
      → (early ≢ some (passed result))
      → (early ≡ none) × (rest s ≡ (t, ok (passed result)))
  no_answer none rest s t result h k = (refl, h)
  no_answer (some answer) rest s t result h k = absurd (k (ground arith))

  cors_not_passed :
      (cors : Option CorsPolicy) (request : IncomingRequest) (result : HumanResult)
      → cors_answer cors request ≢ some (passed result)
  unfolding cors_answer
  cors_not_passed none request result = λ h. ground arith
  cors_not_passed (some policy) request result = λ h. ground arith

  early_not_passed :
      (request : IncomingRequest) (result : HumanResult)
      → early_answer options request ≢ some (passed result)
  unfolding early_answer
  early_not_passed request result = elim (Option-cases (cors_answer options.cors request)) [
    | inl e ↦ rw (e, early_answer) (λ h. ground arith)
    | inr (answer, e) ↦
        rw (e, early_answer) (λ h. cors_not_passed options.cors request result (e ∙ h))
  ]

  early_none :
      (request : IncomingRequest)
      → early_answer options request ≡ none
      → (cors_answer options.cors request ≡ none)
        × ((is_mutation request.method
              && key_is_required options.require_idempotency_key
              && not (is_given request.idempotency_key))
            ≡ false)
  unfolding early_answer
  early_none request h = elim (Option-cases (cors_answer options.cors request)) [
    | inl e ↦ (e, let k = rw (e, early_answer) at h in ground arith)
    | inr (answer, e) ↦ absurd (let k = rw (e, early_answer) at h in ground arith)
  ]

  express_passed :
      (request : IncomingRequest) (s t : S) (result : HumanResult)
      → express p sha256 urls options extractors now request s ≡ (t, ok (passed result))
      → IsPassed sha256 options now request result
  unfolding express express_protected
  express_passed request s t result h =
      let (early, h1) =
        no_answer (early_answer options request)
          (express_protected p sha256 urls options extractors now request) s t result
          (caught p sha256 urls options extractors now _ t result h)
          (early_not_passed request result) in
      let (allowed, keyed) = early_none request early in
      let (uri, _, h2) =
        lift-eq-ok {A = String}
          (resolve_public_absolute_uri urls options.public_origin request.url request.forwarded_host
            request.forwarded_proto)
          _ s h1 in
      let (s1, binding, _, h3) =
        >>=-eq-ok {A = HumanBinding} (extractors.extract_binding request uri) _ s h2 in
      let (s2, body_input, _, h4) =
        >>=-eq-ok {A = RequestBodyDigestInput}
          (resolve_body_input p sha256 urls options extractors now request uri) _ s1 h3 in
      let (proof, brought, h5) =
        proof_of p sha256 urls options extractors now request.human_proof request uri binding
          body_input s2 t result h4 in
      let (requirement, accepted) =
        check_passed p sha256 urls options extractors now proof request uri binding body_input s2 t
          result h5 in
      record {
        origin_allowed = allowed;
        keyed = keyed;
        proof = proof;
        brought = brought;
        uri = uri;
        binding = binding;
        body_input = body_input;
        requirement = requirement;
        accepted = accepted;
      }

  fetch_passed :
      (request : IncomingRequest) (s t : S) (result : HumanResult)
      → protect_fetch_resource p sha256 urls options extractors now request s
        ≡ (t, ok (passed result))
      → IsPassed sha256 options now request result
  unfolding protect_fetch_resource fetch_protected
  fetch_passed request s t result h =
      let (_, _, h0) = lift-eq-ok {A = Unit} (assert_protect_options urls options) _ s h in
      let (early, h1) =
        no_answer (early_answer options request)
          (fetch_protected p sha256 urls options extractors now request) s t result h0
          (early_not_passed request result) in
      let (allowed, keyed) = early_none request early in
      let (uri, _, h2) =
        lift-eq-ok {A = String} (fetch_uri p sha256 urls options extractors now request) _ s h1 in
      let (s1, binding, _, h3) =
        >>=-eq-ok {A = HumanBinding} (extractors.extract_binding request uri) _ s h2 in
      let (s2, body_input, _, h4) =
        >>=-eq-ok {A = RequestBodyDigestInput}
          (given_body_input p sha256 urls options extractors now request.body_input request uri) _
          s1 h3 in
      let (proof, brought, h5) =
        fetch_proof_of p sha256 urls options extractors now request.human_proof request uri binding
          body_input s2 t result h4 in
      let (requirement, accepted) =
        check_passed p sha256 urls options extractors now proof request uri binding body_input s2 t
          result h5 in
      record {
        origin_allowed = allowed;
        keyed = keyed;
        proof = proof;
        brought = brought;
        uri = uri;
        binding = binding;
        body_input = body_input;
        requirement = requirement;
        accepted = accepted;
      }

-- If the middleware of Express calls `next()`, or `protectFetchResource` returns a result, then the
-- request was not turned away or answered for CORS; a mutation had an idempotency key unless the
-- options require none; the request brought a proof; and `acceptHumanProof` accepted this proof for the request's method, some URI,
-- binding and body input, and its idempotency key.
pub passed-IsPassed :
    {S : Type 0} (p : Platform) (sha256 : Hashed → String) (urls : UrlParser)
    (options : ProtectOptions S p) (extractors : Extractors S) (now : ℕ) (request : IncomingRequest)
    (s t : S) (result : HumanResult)
    → (express p sha256 urls options extractors now request s ≡ (t, ok (passed result)))
      ⊎ (protect_fetch_resource p sha256 urls options extractors now request s
          ≡ (t, ok (passed result)))
    → IsPassed sha256 options now request result
passed-IsPassed p sha256 urls options extractors now request s t result (inl h) =
    express_passed p sha256 urls options extractors now request s t result h
passed-IsPassed p sha256 urls options extractors now request s t result (inr h) =
    fetch_passed p sha256 urls options extractors now request s t result h
