-- ===== src/Handoff/Poll/Completed.antt =====
-- When `poll` of src/handoff.ts hands out a proof.
use x.Prelude.{
  String, ◌≡◌, refl, ap, ◌∙◌, Option, none, some, Result, ok, err, arith, IsoTimestamp, ◌⊎◌, inl,
  inr, get,
}
use x.Effects.{continue}
use x.Types.{HumanResult}
use x.Service.Backends.{NonceBackend, ReplayBackend}
use x.Service.Setup.{X424Service}
use x.Handoff.{
  StoredHumanHandoff, HumanHandoffView, completed_view, handoff_status_eq, HumanHandoffService,
  HumanProviderHandoffAdapter,
}
use x.Handoff.Store.{HandoffStore, get_authorized}
use x.Handoff.Claim.{Taken, answered, holding, take_claim, fail_claimed, terminal_view}
use x.Handoff.Poll.{
  PollReadings, PollState, on_handoffs, attempt, or_fail, poll_provider, finish_poll, poll_open,
  poll_found, poll,
}
use x.Handoff.Poll.Waits.{taken-not-completed}
use x.Handoff.Poll.Attempt.{IsCompleted, on_handoffs-fst, failed-not-completed, attempt-IsCompleted}

module _ (nonces : NonceBackend) (replays : ReplayBackend) (sign : HumanResult → Result String)
    (sha256 : String → String) (verifier : X424Service) (service : HumanHandoffService) where
  abbrev State : Type 0
  State = PollState nonces replays sign sha256 verifier service

  or_fail-IsCompleted :
      (c : StoredHumanHandoff) (readings : PollReadings) (s : HandoffStore)
      (r : State × Result HumanHandoffView) (t : State) (id token : String) (e : IsoTimestamp)
      → ((u : State)
          → r ≡ (u, ok (completed_view id token e))
          → IsCompleted nonces replays sign sha256 verifier service c readings s u
              (completed_view id token e))
      → or_fail nonces replays sign sha256 verifier service c r
        ≡ (t, ok (completed_view id token e))
      → IsCompleted nonces replays sign sha256 verifier service c readings s t
          (completed_view id token e)
  unfolding or_fail
  or_fail-IsCompleted c readings s (st, ok view) t id token e tried h = tried t h
  or_fail-IsCompleted c readings s (st, err message) t id token e tried h = absurd (
      failed-not-completed nonces replays sign sha256 verifier service c "HANDOFF_POLL_FAILED" st.0
        t.0 id token e
        (on_handoffs-fst nonces replays sign sha256 verifier service
          (fail_claimed "HANDOFF_POLL_FAILED" c) st t (completed_view id token e) h))

  -- A record that a poll holds gives a proof only if it is completed by this poll.
  poll_provider-IsCompleted :
      (found : Option HumanProviderHandoffAdapter) (c : StoredHumanHandoff)
      (readings : PollReadings) (st t : State) (id token : String) (e : IsoTimestamp)
      → poll_provider nonces replays sign sha256 verifier service found c readings st
        ≡ (t, ok (completed_view id token e))
      → IsCompleted nonces replays sign sha256 verifier service c readings st.0 t
          (completed_view id token e)
  unfolding poll_provider
  poll_provider-IsCompleted none c readings st t id token e h = absurd (
      failed-not-completed nonces replays sign sha256 verifier service c
        "HANDOFF_ADAPTER_UNAVAILABLE" st.0 t.0 id token e
        (on_handoffs-fst nonces replays sign sha256 verifier service
          (fail_claimed "HANDOFF_ADAPTER_UNAVAILABLE" c) st t (completed_view id token e) h))
  poll_provider-IsCompleted (some adapter) c readings st t id token e h =
      or_fail-IsCompleted c readings st.0
        (attempt nonces replays sign sha256 verifier service adapter c readings st) t id token e
        (λ u tried.
          attempt-IsCompleted nonces replays sign sha256 verifier service adapter c readings st u id
            token e tried)
        h

  pub held-IsCompleted :
      (c : StoredHumanHandoff) (readings : PollReadings) (st t : State) (id token : String)
      (e : IsoTimestamp)
      → finish_poll nonces replays sign sha256 verifier service (holding c) readings st
        ≡ (t, ok (completed_view id token e))
      → IsCompleted nonces replays sign sha256 verifier service c readings st.0 t
          (completed_view id token e)
  unfolding finish_poll
  held-IsCompleted c readings st t id token e h =
      poll_provider-IsCompleted (get c.provider_id service.adapters) c readings st t id token e h

  take-IsCompleted :
      (r : Result Taken) (readings : PollReadings) (st t : State) (id token : String)
      (e : IsoTimestamp)
      → continue
          (st, r)
          (λ taken. finish_poll nonces replays sign sha256 verifier service taken readings)
        ≡ (t, ok (completed_view id token e))
      → (¬ (r ≡ ok (answered (completed_view id token e))))
      → (c : StoredHumanHandoff) × IsCompleted nonces replays sign sha256 verifier service c
          readings st.0 t
          (completed_view id token e)
  unfolding finish_poll
  take-IsCompleted (err message) readings st t id token e h other = absurd (ground (arith, h))
  take-IsCompleted (ok (answered view)) readings st t id token e h other =
      absurd (other (ap (λ v. ok (answered v)) (ground (arith, h))))
  take-IsCompleted (ok (holding c)) readings st t id token e h other =
      (c, held-IsCompleted c readings st t id token e h)

  -- What `poll` hands out comes from a record that was read as completed, or from this very poll.
  abbrev pub IsAnswered :
      Option StoredHumanHandoff → PollReadings → State → HumanHandoffView → Type 0
  IsAnswered found readings t view =
      ((c : StoredHumanHandoff) × (found ≡ some c) × (terminal_view service c ≡ some (ok view)))
      ⊎ ((c : StoredHumanHandoff) × (s : HandoffStore) × IsCompleted nonces replays sign sha256
            verifier service c readings s t view)

  poll_open-IsAnswered :
      (view : Option (Result HumanHandoffView)) (c : StoredHumanHandoff) (readings : PollReadings)
      (st t : State) (id token : String) (e : IsoTimestamp)
      → terminal_view service c ≡ view
      → poll_open nonces replays sign sha256 verifier service view c readings st
        ≡ (t, ok (completed_view id token e))
      → IsAnswered (some c) readings t (completed_view id token e)
  unfolding poll_open on_handoffs
  poll_open-IsAnswered (some view) c readings st t id token e seen h =
      inl (c, refl, seen ∙ ap some (ap (λ w. w.1) h))
  poll_open-IsAnswered none c readings st t id token e seen h =
      let taken = take_claim c readings.checked_at readings.claimed_at st.0 in
      let (held, done) =
        take-IsCompleted taken.1 readings (taken.0, st.1) t id token e h
          (taken-not-completed c readings.checked_at readings.claimed_at st.0 id token e) in
      inr (held, taken.0, done)

  poll_found-IsAnswered :
      (found : Option StoredHumanHandoff) (readings : PollReadings) (st t : State)
      (id token : String) (e : IsoTimestamp)
      → poll_found nonces replays sign sha256 verifier service found readings st
        ≡ (t, ok (completed_view id token e))
      → IsAnswered found readings t (completed_view id token e)
  unfolding poll_found
  poll_found-IsAnswered none readings st t id token e h = absurd (ground (arith, h))
  poll_found-IsAnswered (some c) readings st t id token e h =
      poll_open-IsAnswered (terminal_view service c) c readings st t id token e refl h

  -- If `poll` answers with a proof, then either the record that it read is completed, and its
  -- terminal view is this answer; or there is a record c such that the verifier has satisfied a
  -- requirement with a proof for the provider and method of c, the answer is for the handoff of c
  -- and its proof is the token that the verifier issued, and the compare-and-swap of c with its
  -- completed form, which holds this token under the protector, has succeeded in some store and
  -- has left the store that the poll leaves.
  pub poll-IsAnswered :
      (handoff_id access_token : String) (readings : PollReadings) (st t : State)
      (id token : String) (e : IsoTimestamp)
      → poll nonces replays sign sha256 verifier service handoff_id access_token readings st
        ≡ (t, ok (completed_view id token e))
      → IsAnswered
          (get_authorized handoff_id (sha256 access_token) readings.read_at st.0).1
          readings
          t
          (completed_view id token e)
  unfolding poll
  poll-IsAnswered handoff_id access_token readings st t id token e h =
      let read = get_authorized handoff_id (sha256 access_token) readings.read_at st.0 in
      poll_found-IsAnswered read.1 readings (read.0, st.1) t id token e h
