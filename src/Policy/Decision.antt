-- ===== src/Policy/Decision.antt =====
-- The evaluation decides acceptability.
use x.Prelude.{
  not, ◌==◌, ℕ, true, false, ◌≡◌, ◌↔◌, refl, Option, none, some, get, arith, eq_iff, All, string_eq,
}
use x.Types.{
  HumanRequirement, HumanResult, HumanMethodRequirement, HumanMethodDescriptor, enabled, scope_eq,
  mode_eq, status_eq,
}
use x.Catalog.{Catalog, method_key}
use x.Policy.{matching_method, binding_differs, checks, evaluate_human_result}
use x.Policy.Acceptable.{IsAcceptable}
use x.Policy.Checks.{
  Passes, collect-nil, nil-collect, version_iff, scope_iff, mode_iff, assurance_iff, claim_iff,
  IsTimely-sound, timely_complete, fresh_iff,
}

-- All tests pass, with the method and the descriptor that were found.
module _ (r : HumanRequirement) (q : HumanResult) (c : Catalog) (now : ℕ) where
  passing_sound :
      (accepted : Option HumanMethodRequirement) (descriptor : Option HumanMethodDescriptor)
      → matching_method r q ≡ accepted
      → get (method_key q.provider_id q.method_id) c ≡ descriptor
      → All Passes (checks r q accepted descriptor now)
      → IsAcceptable r q c now
  unfolding checks binding_differs
  passing_sound none descriptor e f (_, (_, (_, (_, (_, (absent, _)))))) = absurd (ground arith)
  passing_sound (some m) none e f (_, (_, (_, (_, (_, (_, (absent, _))))))) = absurd (ground arith)
  passing_sound (some m) (some d) e f
        (
          dep,
          (
            pur,
            (
              aud,
              (
                dig,
                (
                  bind,
                  (
                    present,
                    (
                      known,
                      (
                        dis,
                        (ver, (scope, (mode, (level, (same, (ts, (over, (win, (old, end))))))))),
                      ),
                    ),
                  ),
                ),
              ),
            ),
          ),
        ) =
      let timely = IsTimely-sound r q m d now ts over win in
      let (version_accepted, version_installed) = (version_iff r q m d now).0 ver in
      let (scope_accepted, scope_native) = (scope_iff r q m d now).0 scope in
      let (mode_accepted, mode_installed) = (mode_iff r q m d now).0 mode in
      let (assurance_accepted, assurance_known) = (assurance_iff r q m d now).0 level in
      let (claim, non_claims) = (claim_iff r q m d now).0 same in
      record {
        dependency = ground (arith, eq_iff q.dependency_id r.dependency_id);
        purpose = ground (arith, eq_iff q.purpose r.purpose);
        audience = ground (arith, eq_iff q.audience r.resource.audience);
        digest = ground (arith, eq_iff q.request_digest r.resource.request_digest);
        binding_kind = binding_same.0;
        binding_value = binding_same.1;
        method = m;
        descriptor = d;
        accepted = e;
        installed = f;
        fits = record {
          enabled_now = status_is dis;
          version_accepted = version_accepted;
          version_installed = version_installed;
          scope_accepted = scope_accepted;
          scope_native = scope_native;
          mode_accepted = mode_accepted;
          mode_installed = mode_installed;
          assurance_accepted = assurance_accepted;
          assurance_known = assurance_known;
          claim = claim;
          non_claims = non_claims;
          fresh = (fresh_iff r q m d now timely.verified_at).0 old;
        };
        timely = timely;
      }
    where
      binding_same : (q.binding.kind ≡ r.binding.kind) × (q.binding.value ≡ r.binding.value)
      binding_same = (ground arith, ground (arith, eq_iff q.binding.value r.binding.value))

      status_is : not (d.status == enabled) ≡ false → d.status ≡ enabled
      status_is h = ground arith

  passing_complete :
      (a : IsAcceptable r q c now) → All Passes (checks r q (some a.method) (some a.descriptor) now)
  unfolding checks binding_differs
  passing_complete a =
      let m = a.method in
      let d = a.descriptor in
      let fits = a.fits in
      let (ts, over, win) = timely_complete r q m d now a.timely in
      (
        ground (arith, eq_iff q.dependency_id r.dependency_id, a.dependency),
        (
          ground (arith, eq_iff q.purpose r.purpose, a.purpose),
          (
            ground (arith, eq_iff q.audience r.resource.audience, a.audience),
            (
              ground (arith, eq_iff q.request_digest r.resource.request_digest, a.digest),
              (
                ground (
                  arith,
                  eq_iff q.binding.value r.binding.value,
                  a.binding_kind,
                  a.binding_value,
                ),
                (
                  refl,
                  (
                    refl,
                    (
                      ground (arith, fits.enabled_now),
                      (
                        (version_iff r q m d now).1 (fits.version_accepted, fits.version_installed),
                        (
                          (scope_iff r q m d now).1 (fits.scope_accepted, fits.scope_native),
                          (
                            (mode_iff r q m d now).1 (fits.mode_accepted, fits.mode_installed),
                            (
                              (assurance_iff r q m d now).1
                                  (fits.assurance_accepted, fits.assurance_known),
                              (
                                (claim_iff r q m d now).1 (fits.claim, fits.non_claims),
                                (
                                  ts,
                                  (
                                    over,
                                    (
                                      win,
                                      (
                                        (fresh_iff r q m d now a.timely.verified_at).1 fits.fresh,
                                        tt,
                                      ),
                                    ),
                                  ),
                                ),
                              ),
                            ),
                          ),
                        ),
                      ),
                    ),
                  ),
                ),
              ),
            ),
          ),
        ),
      )

-- A result is satisfied exactly if it is acceptable: it names the requirement's dependency,
-- purpose, audience, request digest and binding; its method is accepted, installed and enabled,
-- with the same version, claim and non-claims, an accepted scope, mode and assurance level; its
-- times lie in the requirement's window and around the present, and its proof is not too old.
pub evaluate_human_result_iff :
    (r : HumanRequirement) (q : HumanResult) (c : Catalog) (now : ℕ)
    → ((evaluate_human_result r q c now).satisfied ≡ true) ↔ IsAcceptable r q c now
unfolding evaluate_human_result
evaluate_human_result_iff r q c now = (
  λ h.
      passing_sound r q c now (matching_method r q) (get (method_key q.provider_id q.method_id) c)
        refl refl (collect-nil _ h),
  λ a. rw a.accepted (rw a.installed (nil-collect _ (passing_complete r q c now a))),
)
