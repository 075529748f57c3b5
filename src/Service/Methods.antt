-- ===== src/Service/Methods.antt =====
-- `register` and `satisfy` of `X424Service`. The clock's readings are arguments, and so is the
-- random part of a result ID. `sign` stands for the signing of src/result-token.ts. A call's steps
-- between two awaits are one step here; the stores' own modules treat calls that interleave.
pub mod Parts
pub mod Checked
pub mod Accepted
pub mod Once
use x.Prelude.{
  ℕ, String, Bool, true, false, ◌&&◌, ◌||◌, not, Option, none, some, List, [], ◌∷◌, Result, ok, err,
  throw_if, ◌==◌, string_eq, is_some, includes, StringMap, get, map, ◌<>◌, if◌then◌else◌,
  IsoTimestamp, ltb, utf16_length, starts_with, is_digest,
}
use x.Prelude
use x.Effects.{Eff, ◌>>=◌, ◌>>◌, lift, throw_when}
use x.Types.{
  HumanMethodDescriptor, HumanMethodRequirement, HumanRequirement, HumanProofSubmission,
  ProviderVerifiedHuman, HumanResult, Json, ProviderReplayMode, provider, verifier, enabled,
  status_eq, ProviderReplayEntry,
}
use x.Catalog.{method_key}
use x.Validation.{accepted_method_for_proof, assert_requirement_current, found_or_throw}
use x.Providers.{HumanProviderAdapter}
use x.Service.Backends.{NonceBackend, ReplayBackend}
use x.Service.Setup.{X424Service}
use x.Service.Output.{assert_verified_output, result_expiry, to_iso_string, build_result}

-- What `satisfy` has looked up before it consumes the nonce.
pub record Admitted : Type 0 where
  pub method : HumanMethodRequirement
  pub descriptor : HumanMethodDescriptor
  pub adapter : HumanProviderAdapter

-- A descriptor that is there and enabled.
abbrev pub enabled_or_throw : String → Option HumanMethodDescriptor → Result HumanMethodDescriptor
enabled_or_throw message none = err message
enabled_or_throw message (some descriptor) =
    if descriptor.status == enabled then ok descriptor else err message

unfoldable pub admit : X424Service → HumanRequirement → HumanProofSubmission → ℕ → Result Admitted
admit service requirement proof challenge_checked_at =
    Prelude.◌>>=◌ (assert_requirement_current requirement challenge_checked_at) λ _.
      Prelude.◌>>=◌ (accepted_method_for_proof requirement proof) λ method.
        Prelude.◌>>=◌
          (enabled_or_throw "Human method is unknown or disabled"
            (get (method_key proof.provider_id proof.method_id) service.catalog))
          λ descriptor.
            Prelude.◌>>=◌
              (throw_if (not (descriptor.version == method.descriptor_version))
                "Human method descriptor version does not match")
              λ _.
                Prelude.◌>>=◌
                  (found_or_throw ("No adapter for provider: " <> proof.provider_id)
                    (get proof.provider_id service.adapters))
                  λ adapter.
                    ok (record { method = method; descriptor = descriptor; adapter = adapter })

abbrev pub replayed_by_verifier : Option ProviderReplayMode → Bool
replayed_by_verifier (some verifier) = true
replayed_by_verifier _ = false

-- The keys of an optional record of provider requests.
abbrev request_keys : Option (StringMap Json) → List String
request_keys none = []
request_keys (some requests) = map (λ entry. entry.0) requests

abbrev pub request_for : String → Option (StringMap Json) → Option Json
request_for key none = none
request_for key (some requests) = get key requests

unfoldable pub check_request_keys : List String → List String → Result (Unit {0})
check_request_keys accepted_keys [] = ok tt
check_request_keys accepted_keys (key ∷ keys) =
    let rest = check_request_keys accepted_keys keys in
    if includes accepted_keys key
    then rest
    else err ("Provider request material names an unaccepted method: " <> key)

-- One round of the loop over the accepted methods.
unfoldable pub check_accepted :
    X424Service → HumanRequirement → HumanMethodRequirement → Result (Unit {0})
check_accepted service requirement accepted =
    let key = method_key accepted.provider_id accepted.method_id in
    Prelude.◌>>=◌
      (enabled_or_throw ("Human method is unknown or disabled: " <> key) (get key service.catalog))
      λ descriptor.
        Prelude.◌>>=◌
          (throw_if (not (descriptor.version == accepted.descriptor_version))
            ("Human method descriptor version does not match: " <> key))
          λ _.
            Prelude.◌>>=◌
              (found_or_throw ("No adapter for provider: " <> accepted.provider_id)
                (get accepted.provider_id service.adapters))
              λ adapter.
                adapter.validate_provider_request requirement accepted
                  (request_for key requirement.provider_requests)

unfoldable pub check_all_accepted :
    X424Service → HumanRequirement → List HumanMethodRequirement → Result (Unit {0})
check_all_accepted service requirement [] = ok tt
check_all_accepted service requirement (accepted ∷ rest) =
    Prelude.◌>>=◌ (check_accepted service requirement accepted)
      λ _. check_all_accepted service requirement rest

-- What `register` checks before it stores the nonce.
unfoldable pub check_registration : X424Service → HumanRequirement → ℕ → Result (Unit {0})
check_registration service requirement now =
    let accepted_keys = map (λ a. method_key a.provider_id a.method_id) requirement.accepts in
    Prelude.◌>>=◌ (assert_requirement_current requirement now) λ _.
      Prelude.◌>>=◌ (check_request_keys accepted_keys (request_keys requirement.provider_requests))
        λ _. check_all_accepted service requirement requirement.accepts

module _ (nonces : NonceBackend) (replays : ReplayBackend)
    (sign : HumanResult → Result String) where
  put_nonce : HumanRequirement → Eff (nonces.State × replays.State) (Unit {0})
  put_nonce r (n, p) =
      let (n', result) = nonces.put r.dependency_id r.nonce r.expires_at n in ((n', p), result)

  consume_nonce : HumanRequirement → ℕ → Eff (nonces.State × replays.State) Bool
  consume_nonce r now (n, p) =
      let (n', consumed) = nonces.consume r.dependency_id r.nonce now n in ((n', p), ok consumed)

  consume_subject : ProviderReplayEntry → Eff (nonces.State × replays.State) Bool
  consume_subject entry (n, p) =
      let (p', consumed) = replays.consume entry p in ((n, p'), ok consumed)

  unfoldable pub register :
      X424Service → HumanRequirement → ℕ → Eff (nonces.State × replays.State) (Unit {0})
  unfolding put_nonce
  register service requirement now = do
    lift (check_registration service requirement now)
    put_nonce requirement

  -- The block on `providerReplayMode === "verifier"`.
  replay_once : X424Service → ProviderVerifiedHuman → Eff (nonces.State × replays.State) (Unit {0})
  replay_once service verified = do
    subject_digest ← lift (
        service.deriver.derive_provider_replay_digest verified.provider_id verified.method_id
          verified.uniqueness_scope.kind verified.uniqueness_scope.id verified.provider_subject)
    throw_when (not (is_digest "hmac-sha256:" subject_digest))
        "Pairwise deriver returned an invalid replay digest"
    fresh ← consume_subject (record {
      provider_id = verified.provider_id;
      method_id = verified.method_id;
      uniqueness_scope = verified.uniqueness_scope;
      subject_digest = subject_digest;
    })
    throw_when (not fresh) "Provider uniqueness subject was already consumed"

  unfoldable pub check_replay :
      X424Service → ProviderVerifiedHuman → Eff (nonces.State × replays.State) (Unit {0})
  unfolding replay_once consume_subject
  check_replay service verified =
      if replayed_by_verifier verified.provider_replay_mode
      then replay_once service verified
      else lift (ok tt)

  -- `satisfy` after the provider has answered, up to the result.
  unfoldable pub issue :
      X424Service
      → HumanRequirement
      → ProviderVerifiedHuman
      → HumanMethodDescriptor
      → ℕ
      → String
      → Result (HumanResult × String)
  issue service requirement verified descriptor issued_at uuid =
      Prelude.◌>>=◌
        (service.deriver.derive_pairwise_human_id requirement.resource.audience verified.provider_id
          verified.method_id verified.provider_subject)
        λ human_id.
          Prelude.◌>>=◌
            (throw_if (not (starts_with human_id "x424_human_") || ltb 512 (utf16_length human_id))
              "Pairwise deriver returned an invalid identifier")
            λ _.
              Prelude.◌>>=◌
                (to_iso_string
                  (result_expiry requirement verified service.maximum_result_ttl_seconds issued_at))
                λ expires_at.
                  let result =
                    build_result requirement verified descriptor ("x424_result_" <> uuid) human_id
                      issued_at expires_at in
                  Prelude.◌>>=◌ (sign result) λ token. ok (result, token)

  -- `satisfy` after the nonce is consumed.
  unfoldable pub answer :
      X424Service
      → HumanRequirement
      → HumanProofSubmission
      → Admitted
      → ℕ
      → String
      → Eff (nonces.State × replays.State) (HumanResult × String)
  answer service requirement proof admitted issued_at uuid = do
    verified ← lift (admitted.adapter.verify requirement admitted.method proof)
    lift (assert_requirement_current requirement issued_at)
    lift (assert_verified_output verified requirement proof admitted.descriptor issued_at)
    check_replay service verified
    lift (issue service requirement verified admitted.descriptor issued_at uuid)

  unfoldable pub satisfy :
      X424Service
      → HumanRequirement
      → HumanProofSubmission
      → (challenge_checked_at issued_at : ℕ) → String
      → Eff (nonces.State × replays.State) (HumanResult × String)
  unfolding consume_nonce
  satisfy service requirement proof challenge_checked_at issued_at uuid = do
    admitted ← lift (admit service requirement proof challenge_checked_at)
    consumed ← consume_nonce requirement challenge_checked_at
    throw_when (not consumed) "Human dependency nonce is unknown, expired, or already used"
    answer service requirement proof admitted issued_at uuid
