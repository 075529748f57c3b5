-- ===== src/Tests/Verifier.antt =====
-- The verifier at the examples, on the in-memory stores.
use x.Prelude.{
  none, ℕ, String, ◌≡◌, ◌≤◌, ◌*◌, ◌-◌, refl, true, false, List, [], ◌∷◌, some, ok, arith, get,
  includes, Bool-cases, inl, inr, string_eq, ◌==◌, ap, ◌∙◌, set, is_digest, starts_with,
  utf16_length,
}
use x.Types.{HumanMethodRequirement, HumanMethodDescriptor}
use x.Validation.{assert_requirement_current, accepted_method_for_proof}
use x.Stores.Nonce.{consume as consume_nonce}
use x.Stores.Provider.{entry_key, consume as consume_subject}
use x.Service.Output.{
  assert_verified_output, incompatible, unsatisfying, unknown_assurance, times_invalid, given_time,
  build_result, given_label, result_expiry, to_iso_string,
}
use x.Service.Backends.{memory_nonces, memory_replays}
use x.Service.Methods.{satisfy, admit, answer, issue, check_replay}
use x.Service.Methods.Once.{Call, register_call, satisfy_call, count_wins, satisfied-le-one}
use x.Service.Methods.Accepted.{satisfy-satisfied}
use x.Policy.{evaluate_human_result, matching_method}
use x.Catalog.{is_human_method_identifier, define_method_catalog, add_method}
use x.Providers.{
  assert_human_provider_adapter_conformance, inspect_human_provider_adapter, foreign_methods,
}
use x.Service.Setup.{
  X424ServiceOptions, create, install_adapters, install_methods, check_enabled, adapter_map,
}
use x.Service.Setup.Installed.{IsServed, create-IsServed}
use x.Tests.Data.{adapter, deriver}
use x.Tests.Data.{requirement, proof, service, sign, issued, entry, catalog, descriptor, method}

abbrev calls : List Call
calls =
    register_call requirement 1500
    ∷ satisfy_call requirement proof 2000 2000 "u"
    ∷ satisfy_call requirement proof 2001 2001 "v"
    ∷ []

abbrev State : Type 0
State = memory_nonces.State × memory_replays.State

unfoldable initial : State
unfolding memory_nonces memory_replays
initial = ([], [])

once_example : count_wins memory_nonces memory_replays sign service "dep" initial calls ≤ 1
once_example = satisfied-le-one memory_nonces memory_replays sign service "dep" initial calls

unfoldable before : State
unfolding memory_nonces memory_replays
before = (("dep", record { nonce = "n"; expires_at_ms = 301000; used = false }) ∷ [], [])

unfoldable after : State
unfolding memory_nonces memory_replays entry_key
after = (
  ("dep", record { nonce = "n"; expires_at_ms = 301000; used = true }) ∷ [],
  entry_key entry ∷ [],
)

labels :
    (key : String) (d : HumanMethodDescriptor)
    → get key catalog ≡ some d
    → includes d.assurance_levels "" ≡ false
unfolding get
labels key d h = elim (Bool-cases ("acme:face" == key)) [
  | inl same ↦ let e : descriptor ≡ d = ground arith in rw (← e) refl
  | inr other ↦ absurd (ground arith)
]

satisfied_run :
    satisfy memory_nonces memory_replays sign service requirement proof 2000 2000 "u" before
    ≡ (after, ok (issued, "token"))
unfolding memory_nonces memory_replays satisfy admit assert_requirement_current
    accepted_method_for_proof get consume_nonce before answer assert_verified_output incompatible
    unsatisfying unknown_assurance times_invalid given_time check_replay is_digest consume_subject
    after issue set starts_with utf16_length build_result given_label result_expiry to_iso_string
    entry_key
satisfied_run = refl

age :
    (m : HumanMethodRequirement) (limit : ℕ)
    → matching_method requirement issued ≡ some m
    → m.maximum_proof_age_seconds ≡ some limit
    → 2500 - 1500 ≤ limit * 1000
age m limit e a =
    let same : method ≡ m = ground arith in
    let given : some 60 ≡ some limit = ap (λ r. r.maximum_proof_age_seconds) same ∙ a in
    ground arith

satisfied_example : (evaluate_human_result requirement issued catalog 2500).satisfied ≡ true
satisfied_example =
    satisfy-satisfied memory_nonces memory_replays sign service requirement proof 2000 2000 2500 "u"
      before after issued "token" labels satisfied_run (omega arith) (omega arith) age

abbrev hash : List ℕ → List ℕ → String
hash secret message = "0123456789012345678901234567890123456789012"

abbrev options : X424ServiceOptions
options = record {
  catalog = catalog;
  adapters = adapter ∷ [];
  pairwise_secret = none;
  pairwise_deriver = some deriver;
  maximum_result_ttl_seconds = none;
}

constructor_example : IsServed "acme:face" (adapter ∷ [])
unfolding create install_adapters install_methods check_enabled get set adapter_map
    assert_human_provider_adapter_conformance inspect_human_provider_adapter
    is_human_method_identifier define_method_catalog add_method foreign_methods
constructor_example = create-IsServed hash options service "acme:face" descriptor refl refl refl
