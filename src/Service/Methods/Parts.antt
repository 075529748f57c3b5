-- ===== src/Service/Methods/Parts.antt =====
-- What the parts of a call of `satisfy` did.
use x.Prelude.{
  ℕ, String, true, ◌≡◌, refl, Result, ok, err, Bool-cases, inl, inr, ◌⊎◌, arith, ap, ◌∙◌, sym,
}
use x.Types.{HumanRequirement, HumanProofSubmission, ProviderVerifiedHuman, HumanResult}
use x.Validation.{assert_requirement_current}
use x.Service.Backends.{NonceBackend, ReplayBackend}
use x.Service.Setup.{X424Service}
use x.Service.Output.{assert_verified_output}
use x.Service.Methods.{
  Admitted, admit, replayed_by_verifier, replay_once, check_replay, issue, answer, satisfy,
  consume_subject,
}

module _ (nonces : NonceBackend) (replays : ReplayBackend)
    (sign : HumanResult → Result String) where
  replay_once-nonces :
      (service : X424Service) (v : ProviderVerifiedHuman) (s : nonces.State × replays.State)
      → (replay_once nonces replays sign service v s).0.0 ≡ s.0
  unfolding replay_once consume_subject
  replay_once-nonces service v s = ground arith

  check_replay-nonces :
      (service : X424Service) (v : ProviderVerifiedHuman) (s : nonces.State × replays.State)
      → (check_replay nonces replays sign service v s).0.0 ≡ s.0
  unfolding check_replay
  check_replay-nonces service v s =
      elim (Bool-cases (replayed_by_verifier v.provider_replay_mode)) [
        | inl here ↦ rw (here, check_replay) (replay_once-nonces service v s)
        | inr there ↦ rw (there, check_replay) refl
      ]

  module _ (service : X424Service) (r : HumanRequirement) (p : HumanProofSubmission) (t2 : ℕ)
      (uuid : String) where
    answer-nonces :
        (a : Admitted) (s : nonces.State × replays.State)
        → (answer nonces replays sign service r p a t2 uuid s).0.0 ≡ s.0
    unfolding answer
    answer-nonces a s = go (a.adapter.verify r a.method p) refl
      where
        go :
            (v : Result ProviderVerifiedHuman)
            → a.adapter.verify r a.method p ≡ v
            → (answer nonces replays sign service r p a t2 uuid s).0.0 ≡ s.0
        go (err m) e = rw (e, answer) refl
        go (ok v) e = ground (arith, e, check_replay-nonces service v s)

    -- Whatever comes of a call, the nonces are as they were or as the consumption left them.
    pub satisfy-nonces :
        (t1 : ℕ) (s : nonces.State × replays.State)
        → ((satisfy nonces replays sign service r p t1 t2 uuid s).0.0 ≡ s.0)
          ⊎ ((satisfy nonces replays sign service r p t1 t2 uuid s).0.0
              ≡ (nonces.consume r.dependency_id r.nonce t1 s.0).0)
    unfolding satisfy
    satisfy-nonces t1 s = go (admit service r p t1) refl
      where
        go :
            (a : Result Admitted)
            → admit service r p t1 ≡ a
            → ((satisfy nonces replays sign service r p t1 t2 uuid s).0.0 ≡ s.0)
              ⊎ ((satisfy nonces replays sign service r p t1 t2 uuid s).0.0
                  ≡ (nonces.consume r.dependency_id r.nonce t1 s.0).0)
        go (err m) e = inl (rw (e, satisfy) refl)
        go (ok a) e = inr (
            ground
              (arith, e, answer-nonces a ((nonces.consume r.dependency_id r.nonce t1 s.0).0, s.1)))

    -- What a call that returned did.
    pub record Issued (t1 : ℕ) (s t : nonces.State × replays.State) (result : HumanResult)
        (token : String) : Type 0 where
      pub admitted : Admitted
      pub admits : admit service r p t1 ≡ ok admitted
      pub consumed : (nonces.consume r.dependency_id r.nonce t1 s.0).1 ≡ true
      pub nonces_after : t.0 ≡ (nonces.consume r.dependency_id r.nonce t1 s.0).0
      pub verified : ProviderVerifiedHuman
      pub answers : admitted.adapter.verify r admitted.method p ≡ ok verified
      pub current : assert_requirement_current r t2 ≡ ok tt
      pub checked : assert_verified_output verified r p admitted.descriptor t2 ≡ ok tt
      pub issues :
          issue nonces replays sign service r verified admitted.descriptor t2 uuid
          ≡ ok (result, token)

    answer_parts :
        (a : Admitted) (s t : nonces.State × replays.State) (result : HumanResult) (token : String)
        → answer nonces replays sign service r p a t2 uuid s ≡ (t, ok (result, token))
        → (v : ProviderVerifiedHuman) × (a.adapter.verify r a.method p ≡ ok v)
          × (assert_requirement_current r t2 ≡ ok tt)
          × (assert_verified_output v r p a.descriptor t2 ≡ ok tt)
          × (issue nonces replays sign service r v a.descriptor t2 uuid ≡ ok (result, token))
    unfolding answer
    answer_parts a s t result token h = go (a.adapter.verify r a.method p) refl
      where
        go :
            (w : Result ProviderVerifiedHuman)
            → a.adapter.verify r a.method p ≡ w
            → (v : ProviderVerifiedHuman) × (a.adapter.verify r a.method p ≡ ok v)
              × (assert_requirement_current r t2 ≡ ok tt)
              × (assert_verified_output v r p a.descriptor t2 ≡ ok tt)
              × (issue nonces replays sign service r v a.descriptor t2 uuid ≡ ok (result, token))
        go (err m) e = absurd (ground (arith, e))
        go (ok v) e = (v, e, ground (arith, e), ground (arith, e), ground (arith, e))

    pub satisfy-Issued :
        (t1 : ℕ) (s t : nonces.State × replays.State) (result : HumanResult) (token : String)
        → satisfy nonces replays sign service r p t1 t2 uuid s ≡ (t, ok (result, token))
        → Issued t1 s t result token
    unfolding satisfy
    satisfy-Issued t1 s t result token h = go (admit service r p t1) refl
      where
        go : (w : Result Admitted) → admit service r p t1 ≡ w → Issued t1 s t result token
        go (err m) e = absurd (ground (arith, e))
        go (ok a) e =
            let won : (nonces.consume r.dependency_id r.nonce t1 s.0).1 ≡ true =
              ground (arith, e) in
            let s' : nonces.State × replays.State =
              ((nonces.consume r.dependency_id r.nonce t1 s.0).0, s.1) in
            let rest : answer nonces replays sign service r p a t2 uuid s'
                ≡ (t, ok (result, token)) =
              ground (arith, e, won) in
            let (v, answers, current, checked, issues) = answer_parts a s' t result token rest in
            record {
              admitted = a;
              admits = e;
              consumed = won;
              nonces_after = ap (λ w. w.0.0) (sym rest) ∙ answer-nonces a s';
              verified = v;
              answers = answers;
              current = current;
              checked = checked;
              issues = issues;
            }
