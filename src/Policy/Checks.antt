-- ===== src/Policy/Checks.antt =====
-- Each test of src/policy.ts against what it is to refuse.
use x.Prelude.{
  ℕ, String, Bool, true, false, ◌≡◌, ◌≤◌, ◌*◌, ◌-◌, ◌↔◌, refl, some, List, [], ◌∷◌, includes, arith,
  eq_iff, All, is_empty, date_parse, time_ms, same_list_iff, string_eq, Option-cases, inl, inr,
}
use x.Types.{
  VerificationMode, HumanRequirement, HumanResult, HumanMethodRequirement, HumanMethodDescriptor,
  HumanFailure, scope_eq, mode_eq,
}
use x.Policy.{
  version_differs, scope_refused, mode_refused, assurance_refused, claim_differs,
  timestamps_invalid, result_expired, window_invalid, proof_too_old, collect,
}
use x.Policy.Acceptable.{IsTimely}

abbrev pub Passes : Bool × HumanFailure → Type 0
Passes (violated, failure) = violated ≡ false

pub collect-nil : (l : List (Bool × HumanFailure)) → is_empty (collect l) ≡ true → All Passes l
unfolding collect
collect-nil [] h = tt
collect-nil ((violated, failure) ∷ l) h = (ground arith, collect-nil l (ground arith))

pub nil-collect : (l : List (Bool × HumanFailure)) → All Passes l → is_empty (collect l) ≡ true
unfolding collect
nil-collect [] h = refl
nil-collect ((violated, failure) ∷ l) (passed, h) = ground (arith, nil-collect l h)

-- The tests on the method and the descriptor together.
module _ (r : HumanRequirement) (q : HumanResult) (m : HumanMethodRequirement)
    (d : HumanMethodDescriptor) (now : ℕ) where
  pub version_iff :
      (version_differs (some m) (some d) q ≡ false)
      ↔ ((q.descriptor_version ≡ m.descriptor_version) × (q.descriptor_version ≡ d.version))
  unfolding version_differs
  version_iff = (
    λ h. ground (
      arith,
      eq_iff q.descriptor_version m.descriptor_version,
      eq_iff q.descriptor_version d.version,
    ),
    λ h. ground (
      arith,
      eq_iff q.descriptor_version m.descriptor_version,
      eq_iff q.descriptor_version d.version,
    ),
  )

  pub scope_iff : (scope_refused (some m) (some d) q ≡ false) ↔ (
      (includes m.accepted_scope_kinds q.uniqueness_scope.kind ≡ true)
      × (includes d.native_scope_kinds q.uniqueness_scope.kind ≡ true))
  unfolding scope_refused
  scope_iff = (λ h. ground arith, λ h. ground arith)

  pub mode_iff : (mode_refused (some m) (some d) q ≡ false) ↔ (
      ((modes : List VerificationMode)
        → m.verification_modes ≡ some modes
        → includes modes q.verification_mode ≡ true)
      × (includes d.verification_modes q.verification_mode ≡ true))
  unfolding mode_refused
  mode_iff = (
    λ h. (λ modes e. ground arith, ground arith),
    λ (accepted, installed). elim (Option-cases m.verification_modes) [
      | inl e ↦ ground arith
      | inr (modes, e) ↦ ground (arith, accepted modes e)
    ],
  )

  pub assurance_iff : (assurance_refused (some m) (some d) q ≡ false) ↔ (
      ((level : String) → m.assurance_level ≡ some level → q.assurance_level ≡ some level)
      × ((level : String)
          → q.assurance_level ≡ some level
          → includes d.assurance_levels level ≡ true))
  unfolding assurance_refused
  assurance_iff = (
    λ h. (
      λ level e. elim (Option-cases q.assurance_level) [
        | inl absent ↦ absurd (ground arith)
        | inr (other, there) ↦ ground (arith, eq_iff level other)
      ],
      λ level e. ground arith,
    ),
    λ (accepted, known). elim (Option-cases q.assurance_level) [
      | inl absent ↦ elim (Option-cases m.assurance_level) [
        | inl any ↦ ground arith
        | inr (level, wanted) ↦ ground (arith, accepted level wanted)
      ]
      | inr (other, there) ↦ elim (Option-cases m.assurance_level) [
        | inl any ↦ ground (arith, known other there)
        | inr (level, wanted) ↦
            ground (arith, accepted level wanted, known other there, eq_iff level other)
      ]
    ],
  )

  pub claim_iff :
      (claim_differs (some d) q ≡ false) ↔ ((q.claim ≡ d.claim) × (q.non_claims ≡ d.non_claims))
  unfolding claim_differs
  claim_iff = (
    λ h. ground (arith, eq_iff q.claim d.claim, same_list_iff q.non_claims d.non_claims),
    λ h. ground (arith, eq_iff q.claim d.claim, same_list_iff q.non_claims d.non_claims),
  )

  pub IsTimely-sound :
      timestamps_invalid q now ≡ false
      → result_expired q now ≡ false
      → window_invalid r q ≡ false
      → IsTimely r q now
  unfolding timestamps_invalid result_expired window_invalid
  IsTimely-sound a b w = ground arith

  pub timely_complete :
      IsTimely r q now
      → (timestamps_invalid q now ≡ false)
        × (result_expired q now ≡ false)
        × (window_invalid r q ≡ false)
  unfolding timestamps_invalid result_expired window_invalid
  timely_complete t = ground arith

  pub fresh_iff :
      date_parse q.verified_at ≡ some (time_ms q.verified_at)
      → (proof_too_old (some m) q now ≡ false) ↔ (
          (limit : ℕ)
          → m.maximum_proof_age_seconds ≡ some limit
          → now - time_ms q.verified_at ≤ limit * 1000)
  unfolding proof_too_old
  fresh_iff readable = (
    λ h limit e. ground arith,
    λ h. elim (Option-cases m.maximum_proof_age_seconds) [
      | inl any ↦ ground arith
      | inr (limit, e) ↦ ground (arith, h limit e)
    ],
  )
