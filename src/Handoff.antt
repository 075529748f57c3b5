-- ===== src/Handoff.antt =====
-- src/handoff.ts: the record of a handoff, its store, and the service that starts, polls and
-- cancels handoffs. A timestamp that the code writes is one that `toISOString` gives.
pub mod Store
pub mod Transitions
pub mod Claim
pub mod Poll
pub mod Cancel
pub mod Start
pub mod Interleaving
use x.Prelude.{
  ℕ, String, Bool, true, false, Option, Eq, ◌≡◌, ◌↔◌, arith, IsoTimestamp, StringMap, List, Result,
}
use x.Types.{HumanRequirement, HumanMethodRequirement, Json}

pub data HandoffStatus : Type 0 where
  pending polling completed failed expired cancelled : HandoffStatus

abbrev same_status : HandoffStatus → HandoffStatus → Bool
same_status pending pending = true
same_status polling polling = true
same_status completed completed = true
same_status failed failed = true
same_status expired expired = true
same_status cancelled cancelled = true
same_status a b = false

pub same_status_iff : (a b : HandoffStatus) → (same_status a b ≡ true) ↔ (a ≡ b)
same_status_iff a b = ground arith

instance abbrev pub handoff_status_eq : Eq HandoffStatus
handoff_status_eq = record { beq = same_status; beq_iff = same_status_iff }

pub record HumanHandoffPresentation : Type 0 where
  pub uri : String
  pub user_code : Option String

pub record StoredHumanHandoff : Type 0 where
  pub handoff_id : String
  pub dependency_id : String
  pub provider_id : String
  pub method_id : String
  pub access_token_digest : String
  pub status : HandoffStatus
  pub poll_claim_expires_at : Option IsoTimestamp
  pub presentation : HumanHandoffPresentation
  pub protected_state : String
  pub protected_completion : Option String
  pub failure_code : Option String
  pub poll_after_ms : ℕ
  pub expires_at : IsoTimestamp
  pub version : ℕ

pub data HumanHandoffView : Type 0 where
  pending_view :
      (handoff_id : String) (poll_after_ms : ℕ) (expires_at : IsoTimestamp) → HumanHandoffView
  completed_view : (handoff_id human_proof : String) (expires_at : IsoTimestamp) → HumanHandoffView
  failed_view : (handoff_id code : String) (expires_at : IsoTimestamp) → HumanHandoffView
  closed_view :
      (handoff_id : String) (status : HandoffStatus) (expires_at : IsoTimestamp) → HumanHandoffView

-- `["completed", "failed", "expired", "cancelled"].includes(status)`
abbrev pub is_terminal : HandoffStatus → Bool
is_terminal completed = true
is_terminal failed = true
is_terminal expired = true
is_terminal cancelled = true
is_terminal _ = false

-- What `startHandoff` of an adapter returns.
pub record StartedByProvider : Type 0 where
  pub provider_session : Json
  pub presentation : HumanHandoffPresentation
  pub expires_at : IsoTimestamp
  pub poll_after_ms : Option ℕ

-- What `pollHandoff` of an adapter returns.
pub data ProviderPoll : Type 0 where
  provider_pending : ProviderPoll
  provider_completed : (native_proof : Json) → ProviderPoll
  provider_failed : (failure : String) → ProviderPoll

pub record HumanProviderHandoffAdapter : Type 0 where
  pub provider_id : String
  pub method_ids : List String
  pub start_handoff :
      HumanRequirement → HumanMethodRequirement → Option Json → Result StartedByProvider
  pub poll_handoff : Json → Result ProviderPoll
  pub cancel_handoff : Option (Json → Result (Unit {0}))

-- What the service keeps, apart from its stores: `protect` and `unprotect` are the protector's.
pub record HumanHandoffService : Type 0 where
  pub adapters : StringMap HumanProviderHandoffAdapter
  pub protect : Json → Result String
  pub unprotect : String → Result Json
