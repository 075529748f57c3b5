-- ===== src/Handoff/Poll.antt =====
-- `poll` of `HumanHandoffService`. The state is the handoffs, the requirements, and the stores of
-- the verifier. The readings of the clock are an argument. `sha256` stands for the hash of Node.
pub mod Swaps
pub mod Reach
pub mod Interleaved
pub mod Waits
pub mod Attempt
pub mod Completed
pub mod Held
pub mod Again
use x.Prelude
use x.Prelude.{
  ℕ, String, Bool, true, false, not, Option, none, some, ◌==◌, string_eq, nat_eq, Result, ok, err,
  is_some, get, if◌then◌else◌, StringMap,
}
use x.Effects.{Eff, ◌>>=◌, ◌>>◌, lift, throw_when}
use x.Types.{
  HumanRequirement, HumanProofSubmission, HumanResult, Json, str, obj, Members, end, member,
}
use x.Service.Backends.{NonceBackend, ReplayBackend}
use x.Service.Setup.{X424Service}
use x.Service.Methods.{satisfy}
use x.Stores.Requirements
use x.Handoff.{
  StoredHumanHandoff, HumanHandoffView, HandoffStatus, handoff_status_eq, pending, polling,
  completed, failed, expired, cancelled, completed_view, failed_view, closed_view,
  HumanHandoffService, HumanProviderHandoffAdapter, ProviderPoll, provider_pending,
  provider_completed, provider_failed,
}
use x.Handoff.Claim.{Taken, answered, holding, terminal_view, take_claim, fail_claimed}
use x.Handoff.Store.{HandoffStore, get_authorized, update}
use x.Handoff.Transitions.{
  released, claimed_until, claim_end, is_claimed, failed_with, failure_code_of, completed_with,
  view_of_pending,
}

-- What the calls of one poll read from the clock, and the random part of a result ID.
pub record PollReadings : Type 0 where
  pub read_at : ℕ
  pub checked_at : ℕ
  pub claimed_at : ℕ
  pub requirement_at : ℕ
  pub challenge_checked_at : ℕ
  pub issued_at : ℕ
  pub uuid : String

unfoldable pub proof_for : HumanRequirement → StoredHumanHandoff → Json → HumanProofSubmission
proof_for requirement claimed native_proof = record {
  version = "0.1";
  dependency_id = requirement.dependency_id;
  provider_id = claimed.provider_id;
  method_id = claimed.method_id;
  binding = requirement.binding;
  native_proof = native_proof;
}

held_or_throw : Bool → StoredHumanHandoff → String → Result HumanHandoffView
held_or_throw true claimed token = ok (completed_view claimed.handoff_id token claimed.expires_at)
held_or_throw false claimed token = err "Handoff completion lost its atomic state claim"

module _ (nonces : NonceBackend) (replays : ReplayBackend) (sign : HumanResult → Result String)
    (sha256 : String → String) (verifier : X424Service) (service : HumanHandoffService) where
  abbrev pub PollState : Type 0
  PollState = HandoffStore × (Requirements.RequirementStore × (nonces.State × replays.State))

  unfoldable pub on_handoffs : {A : Type 0} → Eff HandoffStore A → Eff PollState A
  on_handoffs m (store, rest) = let (store', result) = m store in ((store', rest), result)

  get_requirement : String → ℕ → Eff PollState (Option HumanRequirement)
  get_requirement dependency_id now (store, (requirements, rest)) =
      let (requirements', found) = Requirements.get dependency_id now requirements in
      ((store, (requirements', rest)), ok found)

  satisfy_proof :
      HumanRequirement → HumanProofSubmission → PollReadings → Eff PollState (HumanResult × String)
  satisfy_proof requirement proof readings (store, (requirements, rest)) =
      let (rest', result) =
        satisfy nonces replays sign verifier requirement proof readings.challenge_checked_at
          readings.issued_at readings.uuid rest in
      ((store, (requirements, rest')), result)

  -- The compare-and-swap to `completed`, and what it returns. The source answers with the ID that it
  -- was called with, which is the record's in a store that keeps records under their own IDs.
  unfoldable pub complete : String → String → StoredHumanHandoff → Eff HandoffStore HumanHandoffView
  unfolding held_or_throw
  complete protected token claimed store =
      let (store', held) = update claimed (completed_with protected claimed) store in
      (store', held_or_throw held claimed token)

  satisfy_found :
      Option HumanRequirement
      → StoredHumanHandoff
      → Json
      → PollReadings
      → Eff PollState HumanHandoffView
  satisfy_found none claimed native_proof readings =
      on_handoffs (fail_claimed "DEPENDENCY_NOT_FOUND" claimed)
  satisfy_found (some requirement) claimed native_proof readings = do
    satisfied ← satisfy_proof requirement (proof_for requirement claimed native_proof) readings
    protected ← lift (service.protect (obj (member "humanProof" (str satisfied.1) end)))
    on_handoffs (complete protected satisfied.1 claimed)

  unfoldable pub settle :
      ProviderPoll → StoredHumanHandoff → PollReadings → Eff PollState HumanHandoffView
  unfolding on_handoffs get_requirement satisfy_found satisfy_proof
  settle provider_pending claimed readings (store, rest) =
      (((update claimed (released claimed) store).0, rest), ok (view_of_pending claimed))
  settle (provider_failed failure) claimed readings state =
      on_handoffs (fail_claimed failure claimed) state
  settle (provider_completed native_proof) claimed readings state =
      (get_requirement claimed.dependency_id readings.requirement_at >>= λ found.
      satisfy_found found claimed native_proof readings)
        state

  -- The `try` block.
  unfoldable pub attempt :
      HumanProviderHandoffAdapter
      → StoredHumanHandoff
      → PollReadings
      → Eff PollState HumanHandoffView
  attempt adapter claimed readings = do
    provider_session ← lift (service.unprotect claimed.protected_state)
    answer ← lift (adapter.poll_handoff provider_session)
    settle answer claimed readings

  -- `catch`
  or_fail :
      StoredHumanHandoff → PollState × Result HumanHandoffView → PollState × Result HumanHandoffView
  or_fail claimed (state, ok view) = (state, ok view)
  or_fail claimed (state, err message) =
      on_handoffs (fail_claimed "HANDOFF_POLL_FAILED" claimed) state

  poll_provider :
      Option HumanProviderHandoffAdapter
      → StoredHumanHandoff
      → PollReadings
      → Eff PollState HumanHandoffView
  poll_provider none claimed readings state =
      on_handoffs (fail_claimed "HANDOFF_ADAPTER_UNAVAILABLE" claimed) state
  poll_provider (some adapter) claimed readings state =
      or_fail claimed (attempt adapter claimed readings state)

  -- `poll` after the claim.
  unfoldable pub finish_poll : Taken → PollReadings → Eff PollState HumanHandoffView
  unfolding poll_provider or_fail on_handoffs
  finish_poll (answered view) readings = lift (ok view)
  finish_poll (holding claimed) readings =
      poll_provider (get claimed.provider_id service.adapters) claimed readings

  poll_open :
      Option (Result HumanHandoffView)
      → StoredHumanHandoff
      → PollReadings
      → Eff PollState HumanHandoffView
  poll_open (some view) current readings = lift view
  poll_open none current readings = do
    taken ← on_handoffs (take_claim current readings.checked_at readings.claimed_at)
    finish_poll taken readings

  poll_found : Option StoredHumanHandoff → PollReadings → Eff PollState HumanHandoffView
  poll_found none readings = lift (err "Unknown handoff capability")
  poll_found (some current) readings = poll_open (terminal_view service current) current readings

  unfoldable pub poll : String → String → PollReadings → Eff PollState HumanHandoffView
  unfolding poll_found poll_open on_handoffs
  poll handoff_id access_token readings (store, rest) =
      let (store', found) =
        get_authorized handoff_id (sha256 access_token) readings.read_at store in
      poll_found found readings (store', rest)
