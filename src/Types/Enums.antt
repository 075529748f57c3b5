-- ===== src/Types/Enums.antt =====
-- The string unions of src/types.ts and src/handoff.ts, with the comparison `===`.
use x.Prelude.{Bool, true, false, ◌≡◌, ◌↔◌, arith, Eq}

pub data VerificationMode : Type 0 where
  backend offchain onchain hybrid : VerificationMode

pub data UniquenessScopeKind : Type 0 where
  global relying_party action session : UniquenessScopeKind

pub data MethodStatus : Type 0 where
  enabled disabled : MethodStatus

pub data BindingKind : Type 0 where
  request wallet agent_key session : BindingKind

pub data ProviderReplayMode : Type 0 where
  provider verifier : ProviderReplayMode

abbrev mode_beq : VerificationMode → VerificationMode → Bool
mode_beq backend backend = true
mode_beq offchain offchain = true
mode_beq onchain onchain = true
mode_beq hybrid hybrid = true
mode_beq _ _ = false

pub mode_beq_iff : (a b : VerificationMode) → (mode_beq a b ≡ true) ↔ (a ≡ b)
mode_beq_iff a b = (λ h. ground arith, λ h. ground arith)

abbrev scope_beq : UniquenessScopeKind → UniquenessScopeKind → Bool
scope_beq global global = true
scope_beq relying_party relying_party = true
scope_beq action action = true
scope_beq UniquenessScopeKind.session UniquenessScopeKind.session = true
scope_beq _ _ = false

pub scope_beq_iff : (a b : UniquenessScopeKind) → (scope_beq a b ≡ true) ↔ (a ≡ b)
scope_beq_iff a b = (λ h. ground arith, λ h. ground arith)

abbrev status_beq : MethodStatus → MethodStatus → Bool
status_beq enabled enabled = true
status_beq disabled disabled = true
status_beq _ _ = false

pub status_beq_iff : (a b : MethodStatus) → (status_beq a b ≡ true) ↔ (a ≡ b)
status_beq_iff a b = (λ h. ground arith, λ h. ground arith)

abbrev binding_beq : BindingKind → BindingKind → Bool
binding_beq request request = true
binding_beq wallet wallet = true
binding_beq agent_key agent_key = true
binding_beq BindingKind.session BindingKind.session = true
binding_beq _ _ = false

pub binding_beq_iff : (a b : BindingKind) → (binding_beq a b ≡ true) ↔ (a ≡ b)
binding_beq_iff a b = (λ h. ground arith, λ h. ground arith)

instance abbrev pub mode_eq : Eq VerificationMode
mode_eq = record { beq = mode_beq; beq_iff = mode_beq_iff }

instance abbrev pub scope_eq : Eq UniquenessScopeKind
scope_eq = record { beq = scope_beq; beq_iff = scope_beq_iff }

instance abbrev pub status_eq : Eq MethodStatus
status_eq = record { beq = status_beq; beq_iff = status_beq_iff }

instance abbrev pub binding_eq : Eq BindingKind
binding_eq = record { beq = binding_beq; beq_iff = binding_beq_iff }
