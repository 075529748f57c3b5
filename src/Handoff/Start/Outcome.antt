-- ===== src/Handoff/Start/Outcome.antt =====
-- What a call of `start` in src/handoff.ts leaves and answers.
use x.Prelude.{
  String, true, false, ◌≡◌, ◌||◌, ◌⊎◌, refl, Option, none, some, List, Result, ok, err, inl, inr,
  arith, get, set, has, Bool-cases, >>=-eq-ok, throw_if, find, num_min, num_le, date_parse, ◌==◌,
  ◌&&◌, string_eq, IsoTimestamp,
}
use x.Types.{HumanRequirement, HumanMethodRequirement}
use x.Catalog.{method_key}
use x.Validation.{found_or_throw}
use x.Service.Output.{to_iso_string}
use x.Service.Methods.{request_for}
use x.Stores.Requirements
use x.Handoff.{
  StoredHumanHandoff, HumanHandoffService, HumanProviderHandoffAdapter, StartedByProvider,
}
use x.Handoff.Store.{HandoffStore, create}
use x.Handoff.Start.{
  StartHumanHandoffInput, StartReadings, StartedHumanHandoff, prepare, check_started, with_nonce,
  with_method, created, store_prepared, start, view_of_started,
}
use x.Handoff.Start.Prepared.{IsPreparedFor, prepare-IsPreparedFor}
use x.Handoff.Start.Interleaved.{start-Run}
use x.Handoff.Interleaving.{Run}

absent : {V : Type 0} (k : String) (m : List (String × V)) → has k m ≡ false → get k m ≡ none
unfolding has
absent k m h = ground (arith, h)

module _ (sha256 : String → String) where
  check_started_digest :
      (service : HumanHandoffService) (input : StartHumanHandoffInput) (readings : StartReadings)
      (r : HumanRequirement) (started : StartedByProvider) (made : StoredHumanHandoff)
      → check_started sha256 service input readings r started ≡ ok made
      → made.access_token_digest ≡ sha256 readings.access_token
  unfolding check_started
  check_started_digest service input readings r started made h0 =
      let (expires_at, e5, h5) =
        >>=-eq-ok {A = IsoTimestamp}
          (to_iso_string (num_min (date_parse r.expires_at) (date_parse started.expires_at))) _
          h0 in
      let (_, e6, h6) =
        >>=-eq-ok {A = Unit {0}}
          (throw_if (num_le (date_parse expires_at) (some readings.checked_at))
            "Provider handoff already expired")
          _ h5 in
      let (protected, e7, h7) =
        >>=-eq-ok {A = String} (service.protect started.provider_session) _ h6 in
      ground (arith, h7)

  prepare_digest :
      (service : HumanHandoffService) (input : StartHumanHandoffInput) (readings : StartReadings)
      (got : Option HumanRequirement) (made : StoredHumanHandoff)
      → prepare sha256 service input readings got ≡ ok made
      → made.access_token_digest ≡ sha256 readings.access_token
  unfolding prepare
  prepare_digest service input readings got made h0 =
      let (r, e1, h1) =
        >>=-eq-ok {A = HumanRequirement}
          (found_or_throw "Unknown, expired, or mismatched human dependency"
            (with_nonce input.nonce got))
          _ h0 in
      let (m, e2, h2) =
        >>=-eq-ok {A = HumanMethodRequirement}
          (found_or_throw "Human method is not accepted" (
            find
              (λ candidate.
                candidate.provider_id == input.provider_id
                && candidate.method_id == input.method_id)
              r.accepts))
          _ h1 in
      let (adapter, e3, h3) =
        >>=-eq-ok {A = HumanProviderHandoffAdapter}
          (found_or_throw "Human handoff method is unavailable"
            (with_method input.method_id (get input.provider_id service.adapters)))
          _ h2 in
      let (started, e4, h4) =
        >>=-eq-ok {A = StartedByProvider}
          (adapter.start_handoff r m
            (request_for (method_key input.provider_id input.method_id) r.provider_requests))
          _ h3 in
      check_started_digest service input readings r started made h4

  -- One record was made for the input, its ID and its dependency were free, and it alone was added.
  pub record IsStarted (service : HumanHandoffService) (input : StartHumanHandoffInput)
      (readings : StartReadings) (got : Option HumanRequirement) (s t : HandoffStore)
      (answer : Result StartedHumanHandoff) : Type 0 where
    pub view : StartedHumanHandoff
    pub answered : answer ≡ ok view
    pub made : StoredHumanHandoff
    pub prepared : IsPreparedFor input readings.checked_at got made
    pub free_id : get made.handoff_id s.records ≡ none
    pub free_dependency : get made.dependency_id s.active_dependencies ≡ none
    pub stored : t.records ≡ set made.handoff_id made s.records
    pub active :
        t.active_dependencies ≡ set made.dependency_id made.handoff_id s.active_dependencies
    pub view_id : view.handoff_id ≡ made.handoff_id
    pub capability : made.access_token_digest ≡ sha256 view.access_token

  -- The call threw before it stored anything, or the store had the ID or an active handoff.
  pub record IsRejected (service : HumanHandoffService) (input : StartHumanHandoffInput)
      (readings : StartReadings) (got : Option HumanRequirement) (s t : HandoffStore)
      (answer : Result StartedHumanHandoff) : Type 0 where
    pub message : String
    pub answered : answer ≡ err message
    pub unchanged : t ≡ s
    pub reason :
        (prepare sha256 service input readings got ≡ err message)
        ⊎ ((made : StoredHumanHandoff) × (prepare sha256 service input readings got ≡ ok made)
            × ((has made.handoff_id s.records || has made.dependency_id s.active_dependencies)
                ≡ true))

  module _ (service : HumanHandoffService) (input : StartHumanHandoffInput)
      (readings : StartReadings) where
    abbrev pub StartOutcome :
        Option HumanRequirement → HandoffStore → HandoffStore × Result StartedHumanHandoff → Type 0
    StartOutcome got s (t, answer) =
        IsStarted service input readings got s t answer
        ⊎ IsRejected service input readings got s t answer

    store_prepared-outcome :
        (got : Option HumanRequirement) (s : HandoffStore) (prepared : Result StoredHumanHandoff)
        → prepare sha256 service input readings got ≡ prepared
        → StartOutcome got s (store_prepared sha256 readings.access_token prepared s)
    unfolding store_prepared created create view_of_started
    store_prepared-outcome got s (err message) e =
        inr (record { message = message; answered = refl; unchanged = refl; reason = inl e })
    store_prepared-outcome got s (ok made) e =
        elim (Bool-cases
          (has made.handoff_id s.records || has made.dependency_id s.active_dependencies)) [
            | inl taken ↦ rw taken (
                inr (record {
                  message = "Dependency already has an active handoff";
                  answered = refl;
                  unchanged = refl;
                  reason = inr (made, e, taken);
                }))
            | inr free ↦ rw free (
                inl (record {
                  view = view_of_started sha256 made readings.access_token;
                  answered = refl;
                  made = made;
                  prepared = prepare-IsPreparedFor sha256 service input readings got made e;
                  free_id = absent made.handoff_id s.records (ground (arith, free));
                  free_dependency =
                      absent made.dependency_id s.active_dependencies (ground (arith, free));
                  stored = refl;
                  active = refl;
                  view_id = refl;
                  capability = prepare_digest service input readings got made e;
                }))
          ]

    -- `start` has one of two outcomes. Either it adds one record to the handoff store and changes
    -- nothing else there: the record is prepared for the input, its ID was not stored and its
    -- dependency had no active handoff, and the answer has its ID and the access token of which it
    -- has the digest. Or it throws and leaves the handoff store as it was, because the preparation
    -- threw, or because the ID was stored or the dependency had an active handoff. With any records
    -- in the hands of other calls, the call makes steps of the interleaving.
    pub start-outcome :
        (s : HandoffStore) (requirements : Requirements.RequirementStore)
        (ps : List StoredHumanHandoff)
        → StartOutcome
            (Requirements.get input.dependency_id readings.requirement_at requirements).1
            s
            (
              (start sha256 service input readings (s, requirements)).0.0,
              (start sha256 service input readings (s, requirements)).1,
            )
          × Run (s, ps) ((start sha256 service input readings (s, requirements)).0.0, ps)
    unfolding start
    start-outcome s requirements ps =
        let got = (Requirements.get input.dependency_id readings.requirement_at requirements).1 in
        (
          store_prepared-outcome got s (prepare sha256 service input readings got) refl,
          start-Run sha256 service input readings s requirements ps,
        )
