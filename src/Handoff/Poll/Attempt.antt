-- ===== src/Handoff/Poll/Attempt.antt =====
-- When the `try` block of `poll` in src/handoff.ts returns a proof.
use x.Prelude.{
  String, Bool, true, false, ◌≡◌, refl, sym, ap, ◌∙◌, Option, none, some, Result, ok, err, arith,
  IsoTimestamp,
}
use x.Effects.{lift, >>=-eq-ok}
use x.Types.{HumanRequirement, HumanResult, Json, str, obj, end, member}
use x.Service.Backends.{NonceBackend, ReplayBackend}
use x.Service.Setup.{X424Service}
use x.Service.Methods.{satisfy}
use x.Handoff.{
  StoredHumanHandoff, HumanHandoffView, completed_view, handoff_status_eq, HumanHandoffService,
  HumanProviderHandoffAdapter, ProviderPoll, provider_pending, provider_completed, provider_failed,
}
use x.Handoff.Store.{HandoffStore, update}
use x.Handoff.Transitions.{completed_with}
use x.Handoff.Claim.{fail_claimed}
use x.Handoff.Poll.{
  PollReadings, PollState, proof_for, on_handoffs, get_requirement, satisfy_proof, complete,
  held_or_throw, satisfy_found, settle, attempt,
}

abbrev completion : String → Json
completion token = obj (member "humanProof" (str token) end)

module _ (nonces : NonceBackend) (replays : ReplayBackend) (sign : HumanResult → Result String)
    (sha256 : String → String) (verifier : X424Service) (service : HumanHandoffService) where
  abbrev State : Type 0
  State = PollState nonces replays sign sha256 verifier service

  -- The verifier has satisfied a requirement with a proof of the handoff's method, and the record is
  -- stored as completed with the token, for later polls.
  pub record IsCompleted (c : StoredHumanHandoff) (readings : PollReadings) (s : HandoffStore)
      (t : State) (view : HumanHandoffView) : Type 0 where
    pub requirement : HumanRequirement
    pub native_proof : Json
    pub before : nonces.State × replays.State
    pub result : HumanResult
    pub token : String
    pub protected : String
    pub satisfied :
        (satisfy nonces replays sign verifier requirement
          (proof_for requirement c native_proof)
          readings.challenge_checked_at
          readings.issued_at
          readings.uuid
          before).1
        ≡ ok (result, token)
    pub kept : service.protect (completion token) ≡ ok protected
    pub won : update c (completed_with protected c) s ≡ (t.0, true)
    pub answer : view ≡ completed_view c.handoff_id token c.expires_at

  abbrev answer_of :
      StoredHumanHandoff → String → HandoffStore × Bool → HandoffStore × Result HumanHandoffView
  answer_of c token (s, true) = (s, ok (completed_view c.handoff_id token c.expires_at))
  answer_of c token (s, false) = (s, err "Handoff completion lost its atomic state claim")

  complete-won :
      (c : StoredHumanHandoff) (protected token : String) (s t : HandoffStore)
      (view : HumanHandoffView)
      → complete nonces replays sign sha256 verifier service protected token c s ≡ (t, ok view)
      → (update c (completed_with protected c) s ≡ (t, true))
        × (view ≡ completed_view c.handoff_id token c.expires_at)
  unfolding complete held_or_throw
  complete-won c protected token s t view h =
      go (update c (completed_with protected c) s) refl (ground (arith, h))
    where
      go :
          (w : HandoffStore × Bool)
          → update c (completed_with protected c) s ≡ w
          → answer_of c token w ≡ (t, ok view)
          → (update c (completed_with protected c) s ≡ (t, true))
            × (view ≡ completed_view c.handoff_id token c.expires_at)
      go (u, true) e h = (ground (arith, e, h), ground (arith, h))
      go (u, false) e h = absurd (ground (arith, h))

  pub failed-not-completed :
      (c : StoredHumanHandoff) (failure : String) (s t : HandoffStore) (id token : String)
      (e : IsoTimestamp)
      → fail_claimed failure c s ≡ (t, ok (completed_view id token e))
      → ⊥
  unfolding fail_claimed
  failed-not-completed c failure s t id token e h = ground (arith, h)

  pub on_handoffs-fst :
      (m : HandoffStore → HandoffStore × Result HumanHandoffView) (st t : State)
      (view : HumanHandoffView)
      → on_handoffs nonces replays sign sha256 verifier service m st ≡ (t, ok view)
      → m st.0 ≡ (t.0, ok view)
  unfolding on_handoffs
  on_handoffs-fst m st t view h = ap (λ w. (w.0.0, w.1)) h

  satisfy_found-IsCompleted :
      (found : Option HumanRequirement) (c : StoredHumanHandoff) (native_proof : Json)
      (readings : PollReadings) (st t : State) (id token : String) (e : IsoTimestamp)
      → satisfy_found nonces replays sign sha256 verifier service found c native_proof readings st
        ≡ (t, ok (completed_view id token e))
      → IsCompleted c readings st.0 t (completed_view id token e)
  unfolding satisfy_found satisfy_proof
  satisfy_found-IsCompleted none c native_proof readings st t id token e h = absurd (
      failed-not-completed c "DEPENDENCY_NOT_FOUND" st.0 t.0 id token e (
        on_handoffs-fst (fail_claimed "DEPENDENCY_NOT_FOUND" c) st t (completed_view id token e) h))
  satisfy_found-IsCompleted (some r) c native_proof readings st t id token e h =
      let (u, (result, signed), e1, h1) =
        >>=-eq-ok {A = HumanResult × String}
          (satisfy_proof nonces replays sign sha256 verifier service r (proof_for r c native_proof)
            readings)
          _ st h in
      let (w, protected, e2, h2) =
        >>=-eq-ok {A = String} (lift (service.protect (completion signed))) _ u h1 in
      let done = complete-won c protected signed w.0 t.0 (completed_view id token e) (
        on_handoffs-fst (complete nonces replays sign sha256 verifier service protected signed c) w
          t (completed_view id token e) h2) in
      let kept_first : st.0 ≡ u.0 = ap (λ p. p.0.0) e1 in
      let kept_second : u.0 ≡ w.0 = ap (λ p. p.0.0) e2 in
      record {
        requirement = r;
        native_proof = native_proof;
        before = st.1.1;
        result = result;
        token = signed;
        protected = protected;
        satisfied = ap (λ p. p.1) e1;
        kept = ap (λ p. p.1) e2;
        won = ap (update c (completed_with protected c)) (kept_first ∙ kept_second) ∙ done.0;
        answer = done.1;
      }

  settle-IsCompleted :
      (answer : ProviderPoll) (c : StoredHumanHandoff) (readings : PollReadings) (st t : State)
      (id token : String) (e : IsoTimestamp)
      → settle nonces replays sign sha256 verifier service answer c readings st
        ≡ (t, ok (completed_view id token e))
      → IsCompleted c readings st.0 t (completed_view id token e)
  unfolding settle get_requirement
  settle-IsCompleted provider_pending c readings st t id token e h = absurd (ground (arith, h))
  settle-IsCompleted (provider_failed failure) c readings st t id token e h = absurd (
      failed-not-completed c failure st.0 t.0 id token e
        (on_handoffs-fst (fail_claimed failure c) st t (completed_view id token e) h))
  settle-IsCompleted (provider_completed proof) c readings st t id token e h =
      let (u, found, e1, h1) =
        >>=-eq-ok {A = Option HumanRequirement}
          (get_requirement nonces replays sign sha256 verifier service c.dependency_id
            readings.requirement_at)
          (λ found.
            satisfy_found nonces replays sign sha256 verifier service found c proof readings)
          st h in
      let kept : u.0 ≡ st.0 = ap (λ p. p.0.0) (sym e1) in
      let done = satisfy_found-IsCompleted found c proof readings u t id token e h1 in
      rw (← kept) done

  pub attempt-IsCompleted :
      (adapter : HumanProviderHandoffAdapter) (c : StoredHumanHandoff) (readings : PollReadings)
      (st t : State) (id token : String) (e : IsoTimestamp)
      → attempt nonces replays sign sha256 verifier service adapter c readings st
        ≡ (t, ok (completed_view id token e))
      → IsCompleted c readings st.0 t (completed_view id token e)
  unfolding attempt
  attempt-IsCompleted adapter c readings st t id token e h =
      let (u, session, e1, h1) =
        >>=-eq-ok {A = Json} (lift (service.unprotect c.protected_state)) _ st h in
      let (w, answer, e2, h2) =
        >>=-eq-ok {A = ProviderPoll} (lift (adapter.poll_handoff session)) _ u h1 in
      let kept : w.0 ≡ st.0 = ap (λ p. p.0.0) (sym e2) ∙ ap (λ p. p.0.0) (sym e1) in
      rw (← kept) (settle-IsCompleted answer c readings w t id token e h2)
