-- ===== src/Requirements/Created.antt =====
-- What a requirement that `createHumanRequirement` of src/requirements.ts returns is.
use x.Prelude.{
  ℕ, String, Bool, true, false, ◌&&◌, not, List, [], map, ok, throw_if, Result-cases, includes,
  string_eq, All, ◌≡◌, ◌≢◌, ◌↔◌, refl, arith, ◌≤◌, ◌<◌, ◌+◌, ◌*◌, eq_iff, inl, inr, ltb, instant,
  is_empty, leb,
}
use x.Types.{HumanRequirement, x424_version}
use x.Validation.{assert_requirement_current, requirement_invalid}
use x.Canonical.{Hashed, RequestBodyDigestInput, request_digest}
use x.Requirements.{
  RequirementInput, add_accepted, check_request_keys, request_keys_of, resolved_body_input,
  create_human_requirement, requirement_for, given_or,
}
use x.Requirements.Accepted.{
  key_of, HasValidIdentifiers, NoRepeats, add_accepted_keys, add_accepted_checked,
  check_request_keys_checked, keys_are_accepted,
}

-- The parts of a call that returned.
record Parts (sha256 : Hashed → String) (random_uuid random_nonce : String) (now : ℕ)
    (input : RequirementInput) (r : HumanRequirement) : Type 0 where
  accepted : List String
  loop : add_accepted [] input.accepts ≡ ok accepted
  keys : check_request_keys accepted (request_keys_of input.provider_requests) ≡ ok tt
  body_input : RequestBodyDigestInput
  resolved : resolved_body_input input.body_input input.body ≡ ok body_input
  digest : String
  digested : request_digest sha256 input.method input.uri body_input ≡ ok digest
  nonempty : is_empty input.accepts ≡ false
  ttl : (30 ≤ given_or input.ttl_seconds 300) × (given_or input.ttl_seconds 300 ≤ 900)
  returned :
      r
      ≡ requirement_for sha256 random_uuid random_nonce now input digest
          (given_or input.ttl_seconds 300)

parts :
    (sha256 : Hashed → String) (random_uuid random_nonce : String) (now : ℕ)
    (input : RequirementInput) (r : HumanRequirement)
    → create_human_requirement sha256 random_uuid random_nonce now input ≡ ok r
    → Parts sha256 random_uuid random_nonce now input r
unfolding create_human_requirement
parts sha256 random_uuid random_nonce now input r h =
    elim (Result-cases (add_accepted [] input.accepts)) [
      | inr (message, e) ↦ absurd (let k = rw e at h in ground arith)
      | inl (accepted, e) ↦
          let h1 = rw e at h in
          elim (Result-cases
            (check_request_keys accepted (request_keys_of input.provider_requests))) [
              | inr (message, e1) ↦ absurd (let k = rw e1 at h1 in ground arith)
              | inl (tt, e1) ↦
                  let h2 = rw e1 at h1 in
                  elim (Result-cases (resolved_body_input input.body_input input.body)) [
                    | inr (message, e2) ↦ absurd (let k = rw e2 at h2 in ground arith)
                    | inl (body_input, e2) ↦
                        let h3 = rw e2 at h2 in
                        elim (Result-cases
                          (request_digest sha256 input.method input.uri body_input)) [
                            | inr (message, e3) ↦ absurd (let k = rw e3 at h3 in ground arith)
                            | inl (digest, e3) ↦
                                let h4 = rw e3 at h3 in
                                record {
                                  accepted = accepted;
                                  loop = e;
                                  keys = e1;
                                  body_input = body_input;
                                  resolved = e2;
                                  digest = digest;
                                  digested = e3;
                                  nonempty = ground arith;
                                  ttl = ground arith;
                                  returned = ground arith;
                                }
                          ]
                  ]
            ]
    ]

current_between :
    (r : HumanRequirement) (now span t : ℕ)
    → r.version ≡ x424_version
    → r.dependency_id ≢ ""
    → r.nonce ≢ ""
    → is_empty r.accepts ≡ false
    → r.created_at ≡ instant now
    → r.expires_at ≡ instant (now + span)
    → 0 < span
    → requirement_invalid r t ≡ not (leb now t && ltb t (now + span))
unfolding requirement_invalid
current_between r now span t version id nonce accepts created expires positive =
    rw (version, accepts, created, expires)
      (ground (arith, eq_iff r.dependency_id "", eq_iff r.nonce ""))

throw_if_iff : (b : Bool) (message : String) → (throw_if (not b) message ≡ ok tt) ↔ (b ≡ true)
throw_if_iff true message = (λ h. refl, λ h. refl)
throw_if_iff false message = (λ h. ground arith, λ h. ground arith)

-- What a requirement says of its methods and its provider requests.
pub record HasConsistentKeys (r : HumanRequirement) : Type 0 where
  pub some_accepted : is_empty r.accepts ≡ false
  pub valid : All HasValidIdentifiers r.accepts
  pub distinct : NoRepeats (map key_of r.accepts)
  pub requested :
      All (λ key. includes (map key_of r.accepts) key ≡ true) (request_keys_of r.provider_requests)

module _ (sha256 : Hashed → String) (random_uuid random_nonce : String) (now : ℕ)
    (input : RequirementInput) (r : HumanRequirement)
    (created : create_human_requirement sha256 random_uuid random_nonce now input ≡ ok r) where
  -- A requirement that is returned accepts at least one method, its methods have valid identifiers
  -- and no two of them the same key, and its provider requests name accepted methods only.
  pub create-HasConsistentKeys : HasConsistentKeys r
  create-HasConsistentKeys =
      let p = parts sha256 random_uuid random_nonce now input r created in
      let (valid, distinct, apart) = add_accepted_checked [] input.accepts p.loop in
      rw p.returned (record {
        some_accepted = p.nonempty;
        valid = valid;
        distinct = distinct;
        requested =
            keys_are_accepted p.accepted (map key_of input.accepts)
              (request_keys_of input.provider_requests) (add_accepted_keys [] input.accepts p.loop)
              (check_request_keys_checked p.accepted (request_keys_of input.provider_requests)
                p.keys);
      })

  -- If the identifiers of a requirement that is returned are not empty, the verifier takes it for
  -- current exactly from the instant of its creation until its time to live, 300 seconds if none
  -- is asked for, is over; that time is between 30 and 900 seconds.
  pub create_current_iff :
      (t : ℕ)
      → r.dependency_id ≢ ""
      → r.nonce ≢ ""
      → ((assert_requirement_current r t ≡ ok tt)
          ↔ ((now ≤ t) × (t < now + given_or input.ttl_seconds 300 * 1000)))
        × (30 ≤ given_or input.ttl_seconds 300)
        × (given_or input.ttl_seconds 300 ≤ 900)
  unfolding assert_requirement_current
  create_current_iff t some_id some_nonce =
      let p = parts sha256 random_uuid random_nonce now input r created in
      let ttl = given_or input.ttl_seconds 300 in
      let e : requirement_invalid r t ≡ not (leb now t && ltb t (now + ttl * 1000)) =
        current_between r now (ttl * 1000) t (ground (arith, p.returned)) some_id some_nonce
          (ground (arith, p.returned, p.nonempty)) (ground (arith, p.returned))
          (ground (arith, p.returned)) (ground (arith, p.ttl)) in
      let (back, forth) =
        throw_if_iff (leb now t && ltb t (now + ttl * 1000))
          "Human requirement is invalid or expired" in
      (rw e (λ h. ground (arith, back h), λ h. forth (ground arith)), p.ttl.0, p.ttl.1)
