-- ===== src/Handoff/Start/Prepared.antt =====
-- What a handoff is when `start` of src/handoff.ts stores it.
use x.Prelude.{
  ℕ, String, Bool, true, false, ◌≡◌, ◌≤◌, Option, none, some, ok, arith, >>=-eq-ok, throw_if-eq-ok,
  throw_if, find, get, num_min, num_le, date_parse, ◌==◌, string_eq, eq_iff, Bool-cases, inl, inr,
  ◌&&◌, IsoTimestamp,
}
use mathlib.Core.List.{Mem}
use x.Types.{HumanRequirement, HumanMethodRequirement}
use x.Catalog.{method_key}
use x.Validation.{found_or_throw}
use x.Validation.Accepted.{find-Mem, find-true}
use x.Service.Output.{to_iso_string}
use x.Service.Methods.{request_for}
use x.Handoff.{
  StoredHumanHandoff, HumanHandoffService, HumanProviderHandoffAdapter, StartedByProvider, pending,
}
use x.Handoff.Start.{
  StartHumanHandoffInput, StartReadings, prepare, check_started, poll_delay, with_nonce,
  with_method,
}

-- The stored handoff belongs to the requirement, and to a method that it accepts.
pub record IsPreparedFor (input : StartHumanHandoffInput) (now : ℕ) (got : Option HumanRequirement)
    (made : StoredHumanHandoff) : Type 0 where
  pub requirement : HumanRequirement
  pub method : HumanMethodRequirement
  pub found : got ≡ some requirement
  pub nonce : requirement.nonce ≡ input.nonce
  pub dependency : made.dependency_id ≡ requirement.dependency_id
  pub accepted : Mem method requirement.accepts
  pub provider : method.provider_id ≡ made.provider_id
  pub method_id : method.method_id ≡ made.method_id
  pub not_expired : num_le (date_parse made.expires_at) (some now) ≡ false
  pub within : num_le (date_parse made.expires_at) (date_parse requirement.expires_at) ≡ true
  pub poll_lower : 500 ≤ made.poll_after_ms
  pub poll_upper : made.poll_after_ms ≤ 10000
  pub status : made.status ≡ pending
  pub version : made.version ≡ 1

-- The test of `start` on the accepted methods.
abbrev is_wanted : StartHumanHandoffInput → HumanMethodRequirement → Bool
is_wanted input candidate =
    candidate.provider_id == input.provider_id && candidate.method_id == input.method_id

found_or_throw-some :
    {A : Type 0} (message : String) (found : Option A) (a : A)
    → found_or_throw message found ≡ ok a
    → found ≡ some a
found_or_throw-some message found a h = ground arith

with_nonce-some :
    (nonce : String) (got : Option HumanRequirement) (r : HumanRequirement)
    → with_nonce nonce got ≡ some r
    → (got ≡ some r) × (r.nonce ≡ nonce)
with_nonce-some nonce none r h = absurd (ground arith)
with_nonce-some nonce (some q) r h = elim (Bool-cases (q.nonce == nonce)) [
  | inl same ↦ let e : some q ≡ some r = ground arith in (e, ground (arith, eq_iff q.nonce nonce))
  | inr other ↦ absurd (ground arith)
]

poll_delay_bounds : (asked : Option ℕ) → (500 ≤ poll_delay asked) × (poll_delay asked ≤ 10000)
unfolding poll_delay
poll_delay_bounds asked = (ground arith, ground arith)

iso_within :
    (a b : Option ℕ) (e : IsoTimestamp)
    → to_iso_string (num_min a b) ≡ ok e
    → num_le (date_parse e) a ≡ true
unfolding to_iso_string
iso_within a b e h = ground arith

module _ (sha256 : String → String) where
  abbrev IsBuiltFrom :
      StartHumanHandoffInput
      → ℕ
      → HumanRequirement
      → StartedByProvider
      → StoredHumanHandoff
      → Type 0
  IsBuiltFrom input now r started made =
      (made.dependency_id ≡ r.dependency_id)
      × (made.provider_id ≡ input.provider_id)
      × (made.method_id ≡ input.method_id)
      × (num_le (date_parse made.expires_at) (some now) ≡ false)
      × (num_le (date_parse made.expires_at) (date_parse r.expires_at) ≡ true)
      × (made.poll_after_ms ≡ poll_delay started.poll_after_ms)
      × (made.status ≡ pending)
      × (made.version ≡ 1)

  check_started-IsBuiltFrom :
      (service : HumanHandoffService) (input : StartHumanHandoffInput) (readings : StartReadings)
      (r : HumanRequirement) (started : StartedByProvider) (made : StoredHumanHandoff)
      → check_started sha256 service input readings r started ≡ ok made
      → IsBuiltFrom input readings.checked_at r started made
  unfolding check_started
  check_started-IsBuiltFrom service input readings r started made h0 =
      let (expires_at, e5, h5) =
        >>=-eq-ok {A = IsoTimestamp}
          (to_iso_string (num_min (date_parse r.expires_at) (date_parse started.expires_at))) _
          h0 in
      let (_, e6, h6) =
        >>=-eq-ok {A = Unit {0}}
          (throw_if (num_le (date_parse expires_at) (some readings.checked_at))
            "Provider handoff already expired")
          _ h5 in
      let (protected, e7, h7) =
        >>=-eq-ok {A = String} (service.protect started.provider_session) _ h6 in
      let within =
        iso_within (date_parse r.expires_at) (date_parse started.expires_at) expires_at e5 in
      let late = throw_if-eq-ok (num_le (date_parse expires_at) (some readings.checked_at)) _ e6 in
      ground (arith, h7, within, late)

  -- What `start` stores: if `prepare` returns a record for the requirement that the store gave, then
  -- there is one, with the nonce of the call; the record is for its dependency and for a method
  -- that it accepts; the record has not expired at the second reading of the clock, and does not
  -- expire after the requirement; polls are asked for every 500 ms to 10 s; and the record is
  -- pending, at version 1.
  pub prepare-IsPreparedFor :
      (service : HumanHandoffService) (input : StartHumanHandoffInput) (readings : StartReadings)
      (got : Option HumanRequirement) (made : StoredHumanHandoff)
      → prepare sha256 service input readings got ≡ ok made
      → IsPreparedFor input readings.checked_at got made
  unfolding prepare
  prepare-IsPreparedFor service input readings got made h0 =
      let (r, e1, h1) =
        >>=-eq-ok {A = HumanRequirement}
          (found_or_throw "Unknown, expired, or mismatched human dependency"
            (with_nonce input.nonce got))
          _ h0 in
      let (m, e2, h2) =
        >>=-eq-ok {A = HumanMethodRequirement}
          (found_or_throw "Human method is not accepted" (find (is_wanted input) r.accepts)) _ h1 in
      let (adapter, e3, h3) =
        >>=-eq-ok {A = HumanProviderHandoffAdapter}
          (found_or_throw "Human handoff method is unavailable"
            (with_method input.method_id (get input.provider_id service.adapters)))
          _ h2 in
      let (started, e4, h4) =
        >>=-eq-ok {A = StartedByProvider}
          (adapter.start_handoff r m
            (request_for (method_key input.provider_id input.method_id) r.provider_requests))
          _ h3 in
      let (found, nonce) =
        with_nonce-some input.nonce got r
          (found_or_throw-some _ (with_nonce input.nonce got) r e1) in
      let listed = found_or_throw-some _ (find (is_wanted input) r.accepts) m e2 in
      let wanted = find-true (is_wanted input) r.accepts m listed in
      let bounds = poll_delay_bounds started.poll_after_ms in
      let built = check_started-IsBuiltFrom service input readings r started made h4 in
      record {
        requirement = r;
        method = m;
        found = found;
        nonce = nonce;
        dependency = built.0;
        accepted = find-Mem (is_wanted input) r.accepts m listed;
        provider = ground (arith, eq_iff m.provider_id input.provider_id, wanted, built);
        method_id = ground (arith, eq_iff m.method_id input.method_id, wanted, built);
        not_expired = built.3;
        within = built.4;
        poll_lower = ground (arith, bounds, built);
        poll_upper = ground (arith, bounds, built);
        status = ground (arith, built);
        version = ground (arith, built);
      }
