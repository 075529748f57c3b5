-- ===== src/Handoff/Start.antt =====
-- The constructor and `start` of `HumanHandoffService`. The clock's two readings and the random
-- texts are arguments; `sha256` stands for the hash of Node.
pub mod Prepared
pub mod Interleaved
pub mod Outcome
use x.Prelude.{
  ℕ, String, Bool, true, false, ◌&&◌, ◌||◌, not, Option, none, some, List, [], ◌∷◌, ◌==◌, string_eq,
  Result, ok, err, ◌>>=◌, ◌>>◌, throw_if, find, includes, get, set, has, num_min, num_le,
  date_parse, leb, if◌then◌else◌, ◌<>◌, StringMap, IsoTimestamp,
}
use x.Types.{HumanRequirement, HumanMethodRequirement, Json}
use x.Catalog.{method_key}
use x.Validation.{found_or_throw}
use x.Service.Output.{to_iso_string}
use x.Service.Methods.{request_for}
use x.Stores.Requirements
use x.Handoff.{
  StoredHumanHandoff, HumanHandoffPresentation, pending, HumanHandoffService,
  HumanProviderHandoffAdapter, StartedByProvider,
}
use x.Handoff.Store.{HandoffStore, create}
use x.Handoff.Transitions.{max}

-- The loop of the constructor over the adapters.
unfoldable pub install :
    List HumanProviderHandoffAdapter
    → StringMap HumanProviderHandoffAdapter
    → Result (StringMap HumanProviderHandoffAdapter)
install [] installed = ok installed
install (adapter ∷ adapters) installed = do
  throw_if (has adapter.provider_id installed)
      ("Duplicate handoff adapter: " <> adapter.provider_id)
  install adapters (set adapter.provider_id adapter installed)

pub record StartHumanHandoffInput : Type 0 where
  pub dependency_id : String
  pub nonce : String
  pub provider_id : String
  pub method_id : String

-- What one start reads from the clock and draws at random.
pub record StartReadings : Type 0 where
  pub requirement_at : ℕ
  pub checked_at : ℕ
  pub uuid : String
  pub access_token : String

pub record StartedHumanHandoff : Type 0 where
  pub handoff_id : String
  pub access_token : String
  pub provider_id : String
  pub method_id : String
  pub presentation : HumanHandoffPresentation
  pub expires_at : IsoTimestamp
  pub poll_after_ms : ℕ

abbrev pub min : ℕ → ℕ → ℕ
min a b = if leb a b then a else b

abbrev pub number_or : ℕ → Option ℕ → ℕ
number_or otherwise none = otherwise
number_or otherwise (some n) = n

-- `Math.max(500, Math.min(10_000, started.pollAfterMs ?? 1_000))`
unfoldable pub poll_delay : Option ℕ → ℕ
poll_delay asked = max 500 (min 10000 (number_or 1000 asked))

abbrev pub with_nonce : String → Option HumanRequirement → Option HumanRequirement
with_nonce nonce none = none
with_nonce nonce (some requirement) = if requirement.nonce == nonce then some requirement else none

abbrev pub with_method :
    String → Option HumanProviderHandoffAdapter → Option HumanProviderHandoffAdapter
with_method method_id none = none
with_method method_id (some adapter) =
    if includes adapter.method_ids method_id then some adapter else none

module _ (sha256 : String → String) where
  -- `start` from what the adapter gave to the record that it stores.
  unfoldable pub check_started :
      HumanHandoffService
      → StartHumanHandoffInput
      → StartReadings
      → HumanRequirement
      → StartedByProvider
      → Result StoredHumanHandoff
  check_started service input readings requirement started = do
    expires_at ←
        to_iso_string (num_min (date_parse requirement.expires_at) (date_parse started.expires_at))
    throw_if (num_le (date_parse expires_at) (some readings.checked_at))
        "Provider handoff already expired"
    protected ← service.protect started.provider_session
    ok (record {
      handoff_id = "x424_handoff_" <> readings.uuid;
      dependency_id = requirement.dependency_id;
      provider_id = input.provider_id;
      method_id = input.method_id;
      access_token_digest = sha256 readings.access_token;
      status = pending;
      poll_claim_expires_at = none;
      presentation = started.presentation;
      protected_state = protected;
      protected_completion = none;
      failure_code = none;
      poll_after_ms = poll_delay started.poll_after_ms;
      expires_at = expires_at;
      version = 1;
    })

  -- `start` from the requirement that it got.
  unfoldable pub prepare :
      HumanHandoffService
      → StartHumanHandoffInput
      → StartReadings
      → Option HumanRequirement
      → Result StoredHumanHandoff
  prepare service input readings got = do
    requirement ←
        found_or_throw "Unknown, expired, or mismatched human dependency"
          (with_nonce input.nonce got)
    accepted ← found_or_throw "Human method is not accepted" (
        find
          (λ candidate.
            candidate.provider_id == input.provider_id && candidate.method_id == input.method_id)
          requirement.accepts)
    adapter ←
        found_or_throw "Human handoff method is unavailable"
          (with_method input.method_id (get input.provider_id service.adapters))
    started ←
        adapter.start_handoff requirement accepted
          (request_for (method_key input.provider_id input.method_id) requirement.provider_requests)
    check_started service input readings requirement started

  view_of_started : StoredHumanHandoff → String → StartedHumanHandoff
  view_of_started made access_token = record {
    handoff_id = made.handoff_id;
    access_token = access_token;
    provider_id = made.provider_id;
    method_id = made.method_id;
    presentation = made.presentation;
    expires_at = made.expires_at;
    poll_after_ms = made.poll_after_ms;
  }

  created :
      StoredHumanHandoff → String → HandoffStore × Bool → HandoffStore × Result StartedHumanHandoff
  created made access_token (store, true) = (store, ok (view_of_started made access_token))
  created made access_token (store, false) = (store, err "Dependency already has an active handoff")

  store_prepared :
      String → Result StoredHumanHandoff → HandoffStore → HandoffStore × Result StartedHumanHandoff
  store_prepared access_token (err message) store = (store, err message)
  store_prepared access_token (ok made) store = created made access_token (create made store)

  unfoldable pub start :
      HumanHandoffService
      → StartHumanHandoffInput
      → StartReadings
      → HandoffStore × Requirements.RequirementStore
      → (HandoffStore × Requirements.RequirementStore) × Result StartedHumanHandoff
  unfolding store_prepared created view_of_started
  start service input readings (store, requirements) =
      let (requirements', got) =
        Requirements.get input.dependency_id readings.requirement_at requirements in
      let (store', result) =
        store_prepared readings.access_token (prepare service input readings got) store in
      ((store', requirements'), result)
