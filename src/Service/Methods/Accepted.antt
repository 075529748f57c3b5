-- ===== src/Service/Methods/Accepted.antt =====
-- A result that `satisfy` issues is one that src/policy.ts accepts.
use x.Prelude.{
  ◌<>◌, ◌∙◌, ℕ, String, true, false, ◌≡◌, ◌≢◌, ◌≤◌, ◌<◌, ◌*◌, ◌-◌, refl, ap, Option, none, some,
  Result, ok, err, Option-cases, inl, inr, arith, eq_iff, string_eq, find, includes, get,
  date_parse, time_ms, instant,
}
use x.Types.{
  HumanRequirement, HumanProofSubmission, ProviderVerifiedHuman, HumanResult, HumanMethodDescriptor,
  HumanMethodRequirement, enabled, scope_eq, mode_eq,
}
use x.Validation.{accepted_method_for_proof, is_method}
use x.Validation.Current.{IsCurrent, IsCurrent-sound}
use x.Catalog.{Catalog, method_key}
use x.Policy.{matching_method, evaluate_human_result}
use x.Policy.Acceptable.{IsAcceptable}
use x.Policy.Decision.{evaluate_human_result_iff}
use x.Service.Backends.{NonceBackend, ReplayBackend}
use x.Service.Setup.{X424Service}
use x.Service.Output.{build_result, result_expiry, given_label, given_time, to_iso_string}
use x.Service.Methods.{issue, satisfy}
use x.Service.Methods.Checked.{found_of_accepted, admit-Lookups, Output, verified-Output}
use x.Service.Methods.Parts.{satisfy-Issued}

-- The expiry of a result is no later than the requirement's.
result_expiry-le :
    (r : HumanRequirement) (v : ProviderVerifiedHuman) (ttl : Option ℕ) (t2 ms : ℕ)
    → result_expiry r v ttl t2 ≡ some ms
    → date_parse r.expires_at ≡ some (time_ms r.expires_at)
    → ms ≤ time_ms r.expires_at
unfolding result_expiry
result_expiry-le r v ttl t2 ms h readable = elim (Option-cases (given_time v.expires_at)) [
  | inl absent ↦ ground (arith, absent)
  | inr (e, given) ↦ ground (arith, given)
]

-- The label that is put into a result.
label_kept :
    (o : Option String) (level : String) → o ≡ some level → level ≢ "" → given_label o ≡ some level
unfolding given_label
label_kept o level h named = ground (arith, eq_iff level "")

label_given : (o : Option String) (level : String) → given_label o ≡ some level → o ≡ some level
unfolding given_label
label_given none level h = absurd (ground arith)
label_given (some other) level h = ground (arith, eq_iff other "")

-- What is built from a checked answer is acceptable.
built-IsAcceptable :
    (c : Catalog) (r : HumanRequirement) (p : HumanProofSubmission) (m : HumanMethodRequirement)
    (d : HumanMethodDescriptor) (v : ProviderVerifiedHuman) (t2 now ms : ℕ)
    (result_id human_id : String)
    → accepted_method_for_proof r p ≡ ok m
    → get (method_key p.provider_id p.method_id) c ≡ some d
    → d.status ≡ enabled
    → d.version ≡ m.descriptor_version
    → includes d.assurance_levels "" ≡ false
    → Output v p m d t2
    → IsCurrent r t2
    → ms ≤ time_ms r.expires_at
    → t2 ≤ now
    → now < ms
    → ((limit : ℕ)
        → m.maximum_proof_age_seconds ≡ some limit
        → now - time_ms v.verified_at ≤ limit * 1000)
    → IsAcceptable r (build_result r v d result_id human_id t2 (instant ms)) c now
unfolding build_result
built-IsAcceptable c r p m d v t2 now ms result_id human_id accepted installed on version labelled o
      cur within issued running young =
    record {
      dependency = refl;
      purpose = refl;
      audience = refl;
      digest = refl;
      binding_kind = refl;
      binding_value = refl;
      method = m;
      descriptor = d;
      accepted = rw o.provider (rw o.method (found_of_accepted r p m accepted));
      installed = rw o.provider (rw o.method installed);
      fits = record {
        enabled_now = on;
        version_accepted = o.version ∙ version;
        version_installed = o.version;
        scope_accepted = o.scope_accepted;
        scope_native = o.scope_native;
        mode_accepted = o.mode_accepted;
        mode_installed = o.mode_installed;
        assurance_accepted = λ level wanted.
            let there = o.assurance_accepted level wanted in
            label_kept v.assurance_level level there (named level (o.assurance_known level there));
        assurance_known =
            λ level given. o.assurance_known level (label_given v.assurance_level level given);
        claim = refl;
        non_claims = refl;
        fresh = young;
      };
      timely = record {
        created_at = cur.created_at;
        deadline = cur.expires_at;
        verified_at = o.readable;
        issued_at = refl;
        expires_at = refl;
        verified_first = o.verified_past;
        created_first = cur.begun;
        issued_past = issued;
        running = running;
        issued_in_time = cur.running;
        within = within;
      };
    }
  where
    named : (level : String) → includes d.assurance_levels level ≡ true → level ≢ ""
    named level known empty = ground (arith, labelled, rw empty at known)

module _ (nonces : NonceBackend) (replays : ReplayBackend)
    (sign : HumanResult → Result String) where
  module _ (service : X424Service) (r : HumanRequirement) (v : ProviderVerifiedHuman)
      (d : HumanMethodDescriptor) (t2 : ℕ) (uuid : String) (result : HumanResult)
      (token : String) where
    -- The result is the one that is built, with an identifier and an expiry.
    record Built : Type 0 where
      human_id : String
      expiry : ℕ
      is_expiry : result_expiry r v service.maximum_result_ttl_seconds t2 ≡ some expiry
      is_result : result ≡ build_result r v d ("x424_result_" <> uuid) human_id t2 (instant expiry)

    issue-Built : issue nonces replays sign service r v d t2 uuid ≡ ok (result, token) → Built
    unfolding issue to_iso_string
    issue-Built h =
        go
          (service.deriver.derive_pairwise_human_id r.resource.audience v.provider_id v.method_id
            v.provider_subject)
          refl (result_expiry r v service.maximum_result_ttl_seconds t2) refl
      where
        go :
            (i : Result String)
            → service.deriver.derive_pairwise_human_id r.resource.audience v.provider_id v.method_id
                v.provider_subject
              ≡ i
            → (o : Option ℕ) → result_expiry r v service.maximum_result_ttl_seconds t2 ≡ o
            → Built
        go (err m) e o f = absurd (ground (arith, e))
        go (ok id) e none f = absurd (ground (arith, e, f))
        go (ok id) e (some ms) f = record {
          human_id = id;
          expiry = ms;
          is_expiry = f;
          is_result = ground (arith, e, f);
        }

    built_times :
        (b : Built)
        → (time_ms result.issued_at ≡ t2)
          × (time_ms result.expires_at ≡ b.expiry)
          × (time_ms result.verified_at ≡ time_ms v.verified_at)
    unfolding build_result
    built_times b = (
      ap (λ q. time_ms q.issued_at) b.is_result,
      ap (λ q. time_ms q.expires_at) b.is_result,
      ap (λ q. time_ms q.verified_at) b.is_result,
    )

    built_method :
        (b : Built)
        → matching_method r result ≡ find (is_method v.provider_id v.method_id) r.accepts
    unfolding build_result
    built_method b = ap (λ q. matching_method r q) b.is_result

  -- Where no label of the catalog is empty, a result that `satisfy` issues is evaluated as
  -- satisfied against the same requirement and catalog, from its issue up to its expiry, as long as
  -- the proof is not older than the accepted method allows.
  pub satisfy-satisfied :
      (service : X424Service) (r : HumanRequirement) (p : HumanProofSubmission) (t1 t2 now : ℕ)
      (uuid : String) (s t : nonces.State × replays.State) (result : HumanResult) (token : String)
      → ((key : String) (d : HumanMethodDescriptor)
          → get key service.catalog ≡ some d
          → includes d.assurance_levels "" ≡ false)
      → satisfy nonces replays sign service r p t1 t2 uuid s ≡ (t, ok (result, token))
      → time_ms result.issued_at ≤ now
      → now < time_ms result.expires_at
      → ((m : HumanMethodRequirement) (limit : ℕ)
          → matching_method r result ≡ some m
          → m.maximum_proof_age_seconds ≡ some limit
          → now - time_ms result.verified_at ≤ limit * 1000)
      → (evaluate_human_result r result service.catalog now).satisfied ≡ true
  satisfy-satisfied service r p t1 t2 now uuid s t result token labelled done issued running young =
      let i = satisfy-Issued nonces replays sign service r p t2 uuid t1 s t result token done in
      let a = i.admitted in
      let v = i.verified in
      let l = admit-Lookups service r p t1 a i.admits in
      let o = verified-Output v r p a.method a.descriptor t2 l.accepted i.checked in
      let c = IsCurrent-sound r t2 i.current in
      let b = issue-Built service r v a.descriptor t2 uuid result token i.issues in
      let (issued', running', verified') =
        built_times service r v a.descriptor t2 uuid result token b in
      (evaluate_human_result_iff r result service.catalog now).1 (
        rw b.is_result (
          built-IsAcceptable service.catalog r p a.method a.descriptor v t2 now b.expiry
            ("x424_result_" <> uuid) b.human_id l.accepted l.installed l.enabled_now l.version
            (labelled (method_key p.provider_id p.method_id) a.descriptor l.installed) o c
            (result_expiry-le r v service.maximum_result_ttl_seconds t2 b.expiry b.is_expiry
              c.expires_at)
            (rw issued' at issued) (rw running' at running)
            (λ limit wanted. rw verified' at (
              young a.method limit
                (built_method service r v a.descriptor t2 uuid result token b
                  ∙ rw o.provider (rw o.method (found_of_accepted r p a.method l.accepted)))
                wanted))))
