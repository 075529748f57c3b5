-- ===== src/Handoff/Poll/Interleaved.antt =====
-- `poll` of src/handoff.ts and the steps of Handoff/Interleaving.antt.
use x.Prelude.{
  ℕ, ◌≤◌, ◌++◌, [], String, false, ◌≡◌, refl, Option, none, some, List, ◌∷◌, Result, ok, err, arith,
  get, inl,
}
use x.Effects.{Eff, continue}
use x.Types.{HumanRequirement, HumanResult, Json, str, obj, end, member}
use x.Service.Backends.{NonceBackend, ReplayBackend}
use x.Service.Setup.{X424Service}
use x.Handoff.{
  StoredHumanHandoff, HumanHandoffView, is_terminal, HumanHandoffService,
  HumanProviderHandoffAdapter, ProviderPoll, provider_pending, provider_completed, provider_failed,
}
use x.Handoff.Store.{HandoffStore, get_authorized}
use x.Handoff.Transitions.{released, failed_with, completed_with}
use x.Handoff.Claim.{Taken, answered, holding, take_claim, fail_claimed, terminal_view}
use x.Handoff.Poll
use x.Handoff.Poll.{
  PollReadings, PollState, on_handoffs, get_requirement, satisfy_proof, complete, satisfy_found,
  settle, attempt, or_fail, poll_provider, finish_poll, poll_open, poll_found, poll,
}
use x.Handoff.Poll.Swaps.{Swaps, done, number, swaps_trans, Swaps-Run}
use x.Handoff.Poll.Reach.{
  Reaches, Takes, reach_none, reach_trans, reach_update, take_claim-Takes, trans_bound,
}
use x.Handoff.Interleaving.{Change, release, fail, reads, Run, stop, next, World, Known, with_read}
use x.Handoff.Interleaving

module _ (nonces : NonceBackend) (replays : ReplayBackend) (sign : HumanResult → Result String)
    (sha256 : String → String) (verifier : X424Service) (service : HumanHandoffService) where
  abbrev State : Type 0
  State = PollState nonces replays sign sha256 verifier service

  -- A part of a call that makes at most one swap, for a caller that holds a record.
  abbrev IsStepping : {A : Type 0} → StoredHumanHandoff → Eff State A → Type 0
  IsStepping c m =
      (st : State) (ps : List StoredHumanHandoff) → Known c ps → Reaches 1 c st.0 ps (m st).0.0

  continue-Reaches :
      {A B : Type 0} (c : StoredHumanHandoff) (s : HandoffStore) (ps : List StoredHumanHandoff)
      → (r : State × Result A) (f : A → Eff State B) → Reaches 0 c s ps r.0.0
      → ((a : A) → IsStepping c (f a))
      → Reaches 1 c s ps (continue r f).0.0
  continue-Reaches c s ps (st, err message) f reach steps = record {
    after = reach.after;
    run = reach.run;
    bound = omega (arith, reach.bound);
    kept = reach.kept;
  }
  continue-Reaches c s ps (st, ok a) f reach steps =
      reach_trans 0 1 c s st.0 (f a st).0.0 ps reach (steps a st reach.after reach.kept)

  fail-IsStepping :
      (c : StoredHumanHandoff) (failure : String)
      → is_terminal c.status ≡ false
      → (st : State) (ps : List StoredHumanHandoff) → Known c ps
      → Reaches 1 c st.0 ps (fail_claimed failure c st.0).0
  unfolding fail_claimed
  fail-IsStepping c failure live st ps known =
      reach_update c (failed_with failure c) st.0 ps known (fail c failure live) refl

  complete-IsStepping :
      (c : StoredHumanHandoff) (protected token : String)
      → is_terminal c.status ≡ false
      → (st : State) (ps : List StoredHumanHandoff) → Known c ps
      → Reaches 1 c st.0 ps
          (complete nonces replays sign sha256 verifier service protected token c st.0).0
  unfolding complete
  complete-IsStepping c protected token live st ps known =
      reach_update c (completed_with protected c) st.0 ps known
        (Interleaving.Change.complete c protected live) refl

  satisfy_found-IsStepping :
      (found : Option HumanRequirement) (c : StoredHumanHandoff) (proof : Json)
      (readings : PollReadings)
      → is_terminal c.status ≡ false
      → IsStepping c
          (satisfy_found nonces replays sign sha256 verifier service found c proof readings)
  unfolding satisfy_found on_handoffs satisfy_proof
  satisfy_found-IsStepping none c proof readings live st ps known =
      fail-IsStepping c "DEPENDENCY_NOT_FOUND" live st ps known
  satisfy_found-IsStepping (some r) c proof readings live st ps known =
      continue-Reaches c st.0 ps
        (satisfy_proof nonces replays sign sha256 verifier service r (Poll.proof_for r c proof)
          readings st)
        _ (reach_none 0 c st.0 ps known)
        λ satisfied st' ps' known'.
          continue-Reaches c st'.0 ps'
            (st', service.protect (obj (member "humanProof" (str satisfied.1) end))) _
            (reach_none 0 c st'.0 ps' known')
            λ protected st'' ps'' known''.
              complete-IsStepping c protected satisfied.1 live st'' ps'' known''

  settle-IsStepping :
      (answer : ProviderPoll) (c : StoredHumanHandoff) (readings : PollReadings)
      → is_terminal c.status ≡ false
      → IsStepping c (settle nonces replays sign sha256 verifier service answer c readings)
  unfolding settle on_handoffs get_requirement
  settle-IsStepping provider_pending c readings live st ps known =
      reach_update c (released c) st.0 ps known (release c live) refl
  settle-IsStepping (provider_failed failure) c readings live st ps known =
      fail-IsStepping c failure live st ps known
  settle-IsStepping (provider_completed proof) c readings live st ps known =
      continue-Reaches c st.0 ps
        (get_requirement nonces replays sign sha256 verifier service c.dependency_id
          readings.requirement_at st)
        (λ found. satisfy_found nonces replays sign sha256 verifier service found c proof readings)
        (reach_none 0 c st.0 ps known) λ found. satisfy_found-IsStepping found c proof readings live

  attempt-IsStepping :
      (adapter : HumanProviderHandoffAdapter) (c : StoredHumanHandoff) (readings : PollReadings)
      → is_terminal c.status ≡ false
      → IsStepping c (attempt nonces replays sign sha256 verifier service adapter c readings)
  unfolding attempt
  attempt-IsStepping adapter c readings live st ps known =
      continue-Reaches c st.0 ps (st, service.unprotect c.protected_state) _
        (reach_none 0 c st.0 ps known)
        λ provider_session st' ps' known'.
          continue-Reaches c st'.0 ps' (st', adapter.poll_handoff provider_session) _
            (reach_none 0 c st'.0 ps' known') λ answer. settle-IsStepping answer c readings live

  or_fail-Reaches :
      (c : StoredHumanHandoff) (s : HandoffStore) (ps : List StoredHumanHandoff)
      (r : State × Result HumanHandoffView)
      → is_terminal c.status ≡ false
      → Reaches 1 c s ps r.0.0
      → Reaches 2 c s ps (or_fail nonces replays sign sha256 verifier service c r).0.0
  unfolding or_fail on_handoffs
  or_fail-Reaches c s ps (st, ok view) live reach = record {
    after = reach.after;
    run = reach.run;
    bound = omega (arith, reach.bound);
    kept = reach.kept;
  }
  or_fail-Reaches c s ps (st, err message) live reach =
      reach_trans 1 1 c s st.0 (fail_claimed "HANDOFF_POLL_FAILED" c st.0).0 ps reach
        (fail-IsStepping c "HANDOFF_POLL_FAILED" live st reach.after reach.kept)

  poll_provider-Reaches :
      (found : Option HumanProviderHandoffAdapter) (c : StoredHumanHandoff)
      (readings : PollReadings)
      → is_terminal c.status ≡ false
      → (st : State) (ps : List StoredHumanHandoff) → Known c ps
      → Reaches 2 c st.0 ps
          (poll_provider nonces replays sign sha256 verifier service found c readings st).0.0
  unfolding poll_provider on_handoffs
  poll_provider-Reaches none c readings live st ps known =
      let reach = fail-IsStepping c "HANDOFF_ADAPTER_UNAVAILABLE" live st ps known in
      record {
        after = reach.after;
        run = reach.run;
        bound = omega (arith, reach.bound);
        kept = reach.kept;
      }
  poll_provider-Reaches (some adapter) c readings live st ps known =
      or_fail-Reaches c st.0 ps
        (attempt nonces replays sign sha256 verifier service adapter c readings st) live
        (attempt-IsStepping adapter c readings live st ps known)

  -- The swaps of one poll, from a store and the records that it has read.
  pub record IsSwapped (most : ℕ) (s : HandoffStore) (own : List StoredHumanHandoff)
      (t : HandoffStore) : Type 0 where
    pub after : List StoredHumanHandoff
    pub run : Swaps (s, own) (t, after)
    pub bound : number run ≤ most

  finish_poll-IsSwapped :
      (r : Result Taken) (st : State) (s : HandoffStore) (ps : List StoredHumanHandoff)
      (readings : PollReadings)
      → Takes 2 s ps st.0 r
      → IsSwapped 4 s ps
          (continue
            (st, r)
            (λ taken. finish_poll nonces replays sign sha256 verifier service taken readings)).0.0
  unfolding finish_poll
  finish_poll-IsSwapped (err message) st s ps readings taken = record {
    after = taken.after;
    run = taken.run;
    bound = omega (arith, taken.bound);
  }
  finish_poll-IsSwapped (ok (answered view)) st s ps readings taken = record {
    after = taken.after;
    run = taken.run;
    bound = omega (arith, taken.bound);
  }
  finish_poll-IsSwapped (ok (holding c)) st s ps readings taken =
      let reach =
        poll_provider-Reaches (get c.provider_id service.adapters) c readings taken.held.1 st
          taken.after taken.held.0 in
      record {
        after = reach.after;
        run = swaps_trans taken.run reach.run;
        bound = trans_bound taken.run reach.run 2 2 4 taken.bound reach.bound (omega arith);
      }

  terminal_view-none :
      (c : StoredHumanHandoff) → terminal_view service c ≡ none → is_terminal c.status ≡ false
  unfolding terminal_view
  terminal_view-none c h = ground arith

  no_swap : (s : HandoffStore) (own : List StoredHumanHandoff) → IsSwapped 4 s own s
  unfolding number
  no_swap s own = record { after = own; run = done (s, own); bound = omega arith }

  poll_open-IsSwapped :
      (view : Option (Result HumanHandoffView)) (c : StoredHumanHandoff) (readings : PollReadings)
      (st : State)
      → terminal_view service c ≡ view
      → IsSwapped 4 st.0
          (c ∷ [])
          (poll_open nonces replays sign sha256 verifier service view c readings st).0.0
  unfolding poll_open on_handoffs
  poll_open-IsSwapped (some view) c readings st h = no_swap st.0 (c ∷ [])
  poll_open-IsSwapped none c readings st h =
      finish_poll-IsSwapped (take_claim c readings.checked_at readings.claimed_at st.0).1
        ((take_claim c readings.checked_at readings.claimed_at st.0).0, st.1) st.0 (c ∷ []) readings
        (take_claim-Takes c readings.checked_at readings.claimed_at st.0 (c ∷ []) (inl refl)
          (terminal_view-none c h))

  poll_found-IsSwapped :
      (found : Option StoredHumanHandoff) (readings : PollReadings) (st : State)
      → IsSwapped 4 st.0
          (with_read found [])
          (poll_found nonces replays sign sha256 verifier service found readings st).0.0
  unfolding poll_found
  poll_found-IsSwapped none readings st = no_swap st.0 []
  poll_found-IsSwapped (some c) readings st =
      poll_open-IsSwapped (terminal_view service c) c readings st refl

  poll_swaps :
      (id token : String) (readings : PollReadings) (st : State)
      → IsSwapped 4
          (get_authorized id (sha256 token) readings.read_at st.0).0
          (with_read (get_authorized id (sha256 token) readings.read_at st.0).1 [])
          (poll nonces replays sign sha256 verifier service id token readings st).0.0
  unfolding poll
  poll_swaps id token readings st =
      let read = get_authorized id (sha256 token) readings.read_at st.0 in
      poll_found-IsSwapped read.1 readings (read.0, st.1)

  with_read-append :
      (found : Option StoredHumanHandoff) (ps : List StoredHumanHandoff)
      → with_read found [] ++ ps ≡ with_read found ps
  with_read-append none ps = refl
  with_read-append (some c) ps = refl

  poll-Run :
      (id token : String) (readings : PollReadings) (st : State) (ps : List StoredHumanHandoff)
      → (after : List StoredHumanHandoff) × Run
          (st.0, ps)
          ((poll nonces replays sign sha256 verifier service id token readings st).0.0, after)
  poll-Run id token readings st ps =
      let read = get_authorized id (sha256 token) readings.read_at st.0 in
      let swapped = poll_swaps id token readings st in
      let run : Run (read.0, with_read read.1 ps)
          (
            (poll nonces replays sign sha256 verifier service id token readings st).0.0,
            swapped.after ++ ps,
          ) =
        rw (with_read-append read.1 ps) at (Swaps-Run ps swapped.run) in
      (swapped.after ++ ps, next (reads id (sha256 token) readings.read_at st.0 ps) run)

  -- Whatever the stores of the verifier, the protector, the adapters and the service do, a call of
  -- `poll` from any state changes the handoff store by one read and at most four compare-and-swaps
  -- after it. Each of these is of an open record that the call has read or written itself, with the
  -- released, the claimed, the failed or the completed form of that record; the call creates and
  -- cancels nothing. With any records in the hands of other calls, these are steps of the
  -- interleaving.
  pub poll-IsSwapped :
      (id token : String) (readings : PollReadings) (st : State) (ps : List StoredHumanHandoff)
      → IsSwapped 4
          (get_authorized id (sha256 token) readings.read_at st.0).0
          (with_read (get_authorized id (sha256 token) readings.read_at st.0).1 [])
          (poll nonces replays sign sha256 verifier service id token readings st).0.0
        × ((after : List StoredHumanHandoff) × Run
              (st.0, ps)
              ((poll nonces replays sign sha256 verifier service id token readings st).0.0, after))
  poll-IsSwapped id token readings st ps =
      (poll_swaps id token readings st, poll-Run id token readings st ps)
