-- ===== src/Types/Stores.antt =====
-- What the stores of src/types.ts take and return.
use x.Prelude.{String, IsoTimestamp}
use x.Types.Wire.{UniquenessScope}

pub record ProviderReplayEntry : Type 0 where
  pub provider_id : String
  pub method_id : String
  pub uniqueness_scope : UniquenessScope
  pub subject_digest : String

pub data ResultAcceptanceStatus : Type 0 where
  new same_operation replay : ResultAcceptanceStatus

pub record ResultAcceptanceInput : Type 0 where
  pub result_id : String
  pub operation_id : String
  pub request_digest : String
  pub expires_at : IsoTimestamp
