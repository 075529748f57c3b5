-- ===== src/Resource/Proofs.antt =====
-- The last part of the entry points of src/middleware/resource.ts: only a proof that is accepted
-- leads to the answer `passed`.
use x.Prelude.{
  ℕ, String, Option, none, some, Result, ok, err, ◌≡◌, inl, inr, refl, arith, ◌==◌, string_eq,
  codes, Bool-cases,
}
use x.Types.{HumanBinding, HumanRequirement, HumanResult}
use x.Effects.{>>=-eq-ok, lift-eq-ok}
use x.Canonical.{Hashed, RequestBodyDigestInput}
use x.Tokens.External.{Platform}
use x.Transport.Urls.{UrlParser}
use x.Resource.Options.{ProtectOptions}
use x.Resource.Accepted.{IsAccepted, accept_human_proof-IsAccepted}
use x.Resource.{CurrentRequest, issue_challenge, accept_human_proof}
use x.Http.{HumanRequiredChallenge, human_required_response}
use x.Resource.Flow.{
  IncomingRequest, Answer, passed, Extractors, given_key, rejected_if_thrown, challenge,
  check_proof, check_or_challenge, fetch_check_or_challenge,
}

abbrev pub current_of :
    IncomingRequest → (uri : String) → HumanBinding → RequestBodyDigestInput → CurrentRequest
current_of request uri binding body_input = record {
  method = request.method;
  uri = uri;
  binding = binding;
  body_input = body_input;
  operation_id = given_key request.idempotency_key;
}

module _ {S : Type 0} (p : Platform) (sha256 : Hashed → String) (urls : UrlParser)
    (options : ProtectOptions S p) (extractors : Extractors S) (now : ℕ) where
  -- A challenge lets nothing through.
  pub challenge_not_passed :
      (request : IncomingRequest) (uri : String) (binding : HumanBinding)
      (body_input : RequestBodyDigestInput) (s t : S) (result : HumanResult)
      → challenge p sha256 urls options extractors now request uri binding body_input s
        ≡ (t, ok (passed result))
      → ⊥
  unfolding challenge
  challenge_not_passed request uri binding body_input s t result h =
      let (u, requirement, _, h1) =
        >>=-eq-ok {A = HumanRequirement}
          (issue_challenge p sha256 options extractors.random_uuid extractors.random_nonce now
            request.method uri binding body_input)
          _ s h in
      let (response, _, h2) =
        lift-eq-ok {A = HumanRequiredChallenge}
          (human_required_response extractors.requirement_bytes requirement) _ u h1 in
      ground arith

  pub check_passed :
      (proof : String) (request : IncomingRequest) (uri : String) (binding : HumanBinding)
      (body_input : RequestBodyDigestInput) (s t : S) (result : HumanResult)
      → check_proof p sha256 urls options extractors now proof request uri binding body_input s
        ≡ (t, ok (passed result))
      → (requirement : HumanRequirement) × IsAccepted sha256 options
          (codes proof)
          (current_of request uri binding body_input)
          now
          requirement
          result
  unfolding check_proof
  check_passed proof request uri binding body_input s t result h =
      let (u, (requirement, found), accepted, h1) =
        >>=-eq-ok {A = HumanRequirement × HumanResult}
          (accept_human_proof p sha256 options (codes proof)
            (current_of request uri binding body_input) now)
          _ s h in
      let same : found ≡ result = ground arith in
      (
        requirement,
        rw (← same) (
            accept_human_proof-IsAccepted p sha256 options (codes proof)
              (current_of request uri binding body_input) now s u requirement found accepted),
      )

  pub caught :
      (w : S × Result Answer) (t : S) (result : HumanResult)
      → rejected_if_thrown w ≡ (t, ok (passed result))
      → w ≡ (t, ok (passed result))
  caught (s, ok answer) t result h = h
  caught (s, err message) t result h = absurd (ground arith)

  pub proof_of :
      (human_proof : Option String) (request : IncomingRequest) (uri : String)
      (binding : HumanBinding) (body_input : RequestBodyDigestInput) (s t : S)
      (result : HumanResult)
      → check_or_challenge p sha256 urls options extractors now human_proof request uri binding
          body_input s
        ≡ (t, ok (passed result))
      → (proof : String) × (human_proof ≡ some proof)
        × (check_proof p sha256 urls options extractors now proof request uri binding body_input s
            ≡ (t, ok (passed result)))
  unfolding check_or_challenge
  proof_of none request uri binding body_input s t result h =
      absurd (challenge_not_passed request uri binding body_input s t result h)
  proof_of (some proof) request uri binding body_input s t result h =
      elim (Bool-cases (proof == "")) [
        | inl none_given ↦
            absurd
              (challenge_not_passed request uri binding body_input s t result (rw none_given at h))
        | inr given ↦ (proof, refl, rw given at h)
      ]

  pub fetch_proof_of :
      (human_proof : Option String) (request : IncomingRequest) (uri : String)
      (binding : HumanBinding) (body_input : RequestBodyDigestInput) (s t : S)
      (result : HumanResult)
      → fetch_check_or_challenge p sha256 urls options extractors now human_proof request uri
          binding body_input s
        ≡ (t, ok (passed result))
      → (proof : String) × (human_proof ≡ some proof)
        × (check_proof p sha256 urls options extractors now proof request uri binding body_input s
            ≡ (t, ok (passed result)))
  unfolding fetch_check_or_challenge
  fetch_proof_of none request uri binding body_input s t result h =
      absurd (challenge_not_passed request uri binding body_input s t result h)
  fetch_proof_of (some proof) request uri binding body_input s t result h =
      elim (Bool-cases (proof == "")) [
        | inl none_given ↦
            absurd
              (challenge_not_passed request uri binding body_input s t result (rw none_given at h))
        | inr given ↦ (proof, refl, caught _ t result (rw given at h))
      ]
