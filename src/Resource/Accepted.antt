-- ===== src/Resource/Accepted.antt =====
-- What a call of `acceptHumanProof` in src/middleware/resource.ts that returns has checked.
use x.Prelude.{
  ℕ, String, Bool, true, false, not, ◌&&◌, ◌||◌, Option, none, some, List, ok, ◌≡◌, refl, sym, ap,
  ◌∙◌, arith, is_some, to_upper_case,
}
use x.Types.{HumanRequirement, HumanResult, ResultAcceptanceInput, ResultAcceptanceStatus}
use x.Policy.{evaluate_human_result}
use x.Validation.{found_or_throw}
use x.Effects.{lift, >>=-eq-ok, throw_when-eq-ok, lift-eq-ok}
use x.Canonical.{Hashed}
use x.Tokens.{verify_human_result_token}
use x.Tokens.External.{Platform}
use x.Http.{Consume, verify_human_proof_header}
use x.Http.Verified.{WasUnused, first_use, verify_human_proof_header_returned}
use x.Resource.Options.{ProtectOptions, Accept, is_dev_local}
use x.Resource.Matching.{NamesRequest, assert_current-NamesRequest}
use x.Resource.{
  CurrentRequest, accept_human_proof, accept_operation, acceptance_of, is_mutation, is_given,
  is_replay, without_acceptance, assert_current_matches_stored, delete_unless,
}

-- The acceptance input for a result and an operation.
abbrev pub acceptance_input : HumanResult → String → ResultAcceptanceInput
acceptance_input result operation_id = record {
  result_id = result.result_id;
  operation_id = operation_id;
  request_digest = result.request_digest;
  expires_at = result.expires_at;
}

module _ {S : Type 0} {p : Platform} (options : ProtectOptions S p) where
  -- Why a result may not be used again: a mutation with a key and an acceptance store is bound to
  -- its operation; any other request used a result for the first time in the replay store; and only
  -- a read in local development may do without.
  pub data IsGated (current : CurrentRequest) (result : HumanResult) (now : ℕ) : Type 0 where
    by_operation :
        (accept : Accept S) (operation_id : String) (status : ResultAcceptanceStatus) (s : S)
        → is_mutation (to_upper_case current.method) ≡ true
        → options.result_acceptance_store ≡ some accept
        → current.operation_id ≡ some operation_id
        → (accept (acceptance_input result operation_id) now s).1 ≡ ok status
        → is_replay status ≡ false
        → IsGated current result now
    by_first_use :
        (consume : Consume S) (s : S)
        → (is_mutation (to_upper_case current.method)
            && not (is_dev_local options.deployment_profile))
          ≡ false
        → options.replay_store ≡ some consume
        → (consume result.result_id result.expires_at now s).1 ≡ ok true
        → IsGated current result now
    local_read :
        is_mutation (to_upper_case current.method) ≡ false
        → is_dev_local options.deployment_profile ≡ true
        → options.replay_store ≡ none
        → IsGated current result now

accept_operation_bound :
    {S : Type 0} (accept : Accept S) (operation_id : String) (result : HumanResult) (now : ℕ)
    (s t : S)
    → accept_operation (some (accept, operation_id)) result now s ≡ (t, ok tt)
    → (status : ResultAcceptanceStatus) × ((accept (acceptance_input result operation_id) now s).1
        ≡ ok status)
      × (is_replay status ≡ false)
unfolding accept_operation
accept_operation_bound accept operation_id result now s t h =
    let (u, status, e, h1) =
      >>=-eq-ok {A = ResultAcceptanceStatus} (accept (acceptance_input result operation_id) now) _ s
        h in
    (status, ground arith, ground arith)

-- The gate, by what the request has.
gated :
    {S : Type 0} {p : Platform} (options : ProtectOptions S p) (current : CurrentRequest)
    (result : HumanResult) (now : ℕ) (mutation : Bool) (store : Option (Accept S))
    (operation_id : Option String) (replay : Option (Consume S)) (s t : S)
    → is_mutation (to_upper_case current.method) ≡ mutation
    → options.result_acceptance_store ≡ store
    → current.operation_id ≡ operation_id
    → options.replay_store ≡ replay
    → (mutation
        && not (is_dev_local options.deployment_profile)
        && (not (is_some store) || not (is_given operation_id)))
      ≡ false
    → (not (is_some (acceptance_of mutation store operation_id))
        && (mutation || not (is_dev_local options.deployment_profile))
        && not (
            is_some
              (without_acceptance (is_some (acceptance_of mutation store operation_id)) replay)))
      ≡ false
    → WasUnused result now
        (without_acceptance (is_some (acceptance_of mutation store operation_id)) replay)
    → accept_operation (acceptance_of mutation store operation_id) result now s ≡ (t, ok tt)
    → IsGated options current result now
gated options current result now true (some accept) (some op) replay s t em es eo er g r w h =
    let (status, answered, fresh) = accept_operation_bound accept op result now s t h in
    by_operation accept op status s em es eo answered fresh
gated options current result now true (some accept) none (some consume) s t em es eo er g r
      (first_use u used) h =
    by_first_use consume u (ground arith) er used
gated options current result now true (some accept) none none s t em es eo er g r w h =
    absurd (ground arith)
gated options current result now true none op (some consume) s t em es eo er g r (first_use u used)
      h =
    by_first_use consume u (ground arith) er used
gated options current result now true none op none s t em es eo er g r w h = absurd (ground arith)
gated options current result now false store op (some consume) s t em es eo er g r
      (first_use u used) h =
    by_first_use consume u (ground arith) er used
gated options current result now false store op none s t em es eo er g r w h =
    local_read em (ground arith) er

-- What holds of a request that is let through with a requirement and a result.
pub record IsAccepted {S : Type 0} {p : Platform} (sha256 : Hashed → String)
    (options : ProtectOptions S p) (human_proof : List ℕ) (current : CurrentRequest) (now : ℕ)
    (requirement : HumanRequirement) (result : HumanResult) : Type 0 where
  pub signed : verify_human_result_token p human_proof options.verifier ≡ ok result
  pub stored :
      (s : S) × ((options.get_requirement result.dependency_id now s).1 ≡ ok (some requirement))
  pub named : NamesRequest sha256 requirement current options.purpose options.audience
  pub satisfied : (evaluate_human_result requirement result options.catalog now).satisfied ≡ true
  pub gate : IsGated options current result now

found_some :
    {A : Type 0} (message : String) (o : Option A) (a : A)
    → found_or_throw message o ≡ ok a
    → o ≡ some a
found_some message none a h = cc
found_some message (some b) a h = cc

-- The steps of a call that returned.
record Steps {S : Type 0} (p : Platform) (sha256 : Hashed → String) (options : ProtectOptions S p)
    (human_proof : List ℕ) (current : CurrentRequest) (now : ℕ) (s : S)
    (requirement : HumanRequirement) (result : HumanResult) : Type 0 where
  preview : HumanResult
  found : Option HumanRequirement
  before : S
  checked : S
  after : S
  keyed :
      (is_mutation (to_upper_case current.method)
        && not (is_dev_local options.deployment_profile)
        && (not (is_some options.result_acceptance_store) || not (is_given current.operation_id)))
      ≡ false
  previewed : verify_human_result_token p human_proof options.verifier ≡ ok preview
  got : options.get_requirement preview.dependency_id now s ≡ (before, ok found)
  is_found : found_or_throw "Unknown or expired human dependency" found ≡ ok requirement
  matched :
      assert_current_matches_stored sha256 requirement current options.purpose options.audience
      ≡ ok tt
  verified :
      verify_human_proof_header p human_proof requirement options.verifier options.catalog
        (without_acceptance
          (is_some (
            acceptance_of
              (is_mutation (to_upper_case current.method))
              options.result_acceptance_store
              current.operation_id))
          options.replay_store)
        (not (
            is_some (
              acceptance_of
                (is_mutation (to_upper_case current.method))
                options.result_acceptance_store
                current.operation_id))
          && (is_mutation (to_upper_case current.method)
              || not (is_dev_local options.deployment_profile)))
        now
        before
      ≡ (checked, ok result)
  bound :
      accept_operation
        (acceptance_of
          (is_mutation (to_upper_case current.method))
          options.result_acceptance_store
          current.operation_id)
        result
        now
        checked
      ≡ (after, ok tt)

module _ {S : Type 0} (p : Platform) (sha256 : Hashed → String) (options : ProtectOptions S p)
    (human_proof : List ℕ) (current : CurrentRequest) (now : ℕ) (s t : S)
    (requirement : HumanRequirement) (result : HumanResult) where
  -- The answer names what was found and checked.
  last_step :
      (final : S) (kept : HumanRequirement) (given : HumanResult)
      → Steps p sha256 options human_proof current now s kept given
      → lift {S = S} {A = HumanRequirement × HumanResult} (ok (kept, given)) final
        ≡ (t, ok (requirement, result))
      → Steps p sha256 options human_proof current now s requirement result
  last_step final kept given steps h =
      let kept_same : kept ≡ requirement = ground arith in
      let given_same : given ≡ result = ground arith in rw (← kept_same) (rw (← given_same) steps)

steps :
    {S : Type 0} (p : Platform) (sha256 : Hashed → String) (options : ProtectOptions S p)
    (human_proof : List ℕ) (current : CurrentRequest) (now : ℕ) (s t : S)
    (requirement : HumanRequirement) (result : HumanResult)
    → accept_human_proof p sha256 options human_proof current now s ≡ (t, ok (requirement, result))
    → Steps p sha256 options human_proof current now s requirement result
unfolding accept_human_proof
steps {S} p sha256 options human_proof current now s t requirement result h =
    let mutation = is_mutation (to_upper_case current.method) in
    let local = is_dev_local options.deployment_profile in
    let acceptance = acceptance_of mutation options.result_acceptance_store current.operation_id in
    let store = without_acceptance (is_some acceptance) options.replay_store in
    let require = not (is_some acceptance) && (mutation || not local) in
    let (_, h1) = throw_when-eq-ok (not local && not (is_some options.replay_store)) _ _ s h in
    let (keyed, h2) =
      throw_when-eq-ok
        (mutation
          && not local
          && (not (is_some options.result_acceptance_store) || not (is_given current.operation_id)))
        _ _ s h1 in
    let (preview, previewed, h3) =
      lift-eq-ok {A = HumanResult} (verify_human_result_token p human_proof options.verifier) _ s
        h2 in
    let (s1, found, got, h4) =
      >>=-eq-ok {A = Option HumanRequirement} (options.get_requirement preview.dependency_id now) _
        s h3 in
    let (kept, is_found, h5) =
      lift-eq-ok {A = HumanRequirement} (found_or_throw "Unknown or expired human dependency" found)
        _ s1 h4 in
    let (_, matched, h6) =
      lift-eq-ok {A = Unit}
        (assert_current_matches_stored sha256 kept current options.purpose options.audience) _ s1
        h5 in
    let (s2, checked, verified, h7) =
      >>=-eq-ok {A = HumanResult}
        (verify_human_proof_header p human_proof kept options.verifier options.catalog store require
          now)
        _ s1 h6 in
    let (s3, _, bound, h8) =
      >>=-eq-ok {A = Unit} (accept_operation acceptance checked now) _ s2 h7 in
    let (s4, _, _, h9) =
      >>=-eq-ok {A = Unit} (delete_unless p sha256 options mutation kept.dependency_id) _ s3 h8 in
    last_step p sha256 options human_proof current now s t requirement result s4 kept checked
      (record {
        preview = preview;
        found = found;
        before = s1;
        checked = s2;
        after = s3;
        keyed = keyed;
        previewed = previewed;
        got = got;
        is_found = is_found;
        matched = matched;
        verified = verified;
        bound = bound;
      })
      h9

same_ok : {a b : HumanResult} → ok a ≡ ok b → a ≡ b
same_ok h = ground arith

-- If `acceptHumanProof` returns, then the proof is a token that verifies and carries the result; the
-- requirement is the one that the store gave for the result's dependency; it names the purpose and
-- audience of the resource, and the method, URI, body digest and binding of the request; the result
-- is evaluated as satisfied; and the result is bound to the operation of a mutation, or was not
-- used before, or the request is a read in local development without a replay store.
pub accept_human_proof-IsAccepted :
    {S : Type 0} (p : Platform) (sha256 : Hashed → String) (options : ProtectOptions S p)
    (human_proof : List ℕ) (current : CurrentRequest) (now : ℕ) (s t : S)
    (requirement : HumanRequirement) (result : HumanResult)
    → accept_human_proof p sha256 options human_proof current now s ≡ (t, ok (requirement, result))
    → IsAccepted sha256 options human_proof current now requirement result
accept_human_proof-IsAccepted p sha256 options human_proof current now s t requirement result h =
    let k = steps p sha256 options human_proof current now s t requirement result h in
    let (required, token, satisfied, unused) =
      verify_human_proof_header_returned p human_proof requirement options.verifier options.catalog
        _ _ now k.before k.checked result k.verified in
    let preview_same : k.preview ≡ result = same_ok (sym k.previewed ∙ token) in
    record {
      signed = token;
      stored = (
        s,
        rw (← preview_same)
            (rw (← found_some _ k.found requirement k.is_found) (ap (λ w. w.1) k.got)),
      );
      named =
          assert_current-NamesRequest sha256 requirement current options.purpose options.audience
            k.matched;
      satisfied = satisfied;
      gate =
          gated options current result now _ options.result_acceptance_store current.operation_id
            options.replay_store k.checked k.after refl refl refl refl k.keyed required unused
            k.bound;
    }
