-- ===== src/Stores/Acceptance.antt =====
-- `InMemoryResultAcceptanceStore` of src/nonce-store.ts: one idempotent operation to a result.
pub mod Laws
pub mod Runs
use x.Prelude.{
  ℕ, String, Bool, true, false, ◌&&◌, ◌||◌, not, Option, none, some, StringMap, get, set, retain,
  time_ms, ltb, ◌==◌, string_eq, if◌then◌else◌, utf16_length, is_digest,
}
use x.Types.{ResultAcceptanceInput, ResultAcceptanceStatus, new, same_operation, replay}
use x.Stores.Replay.{is_over}

pub record AcceptanceEntry : Type 0 where
  pub operation_id : String
  pub request_digest : String
  pub expires_at_ms : ℕ

abbrev pub AcceptanceStore : Type 0
AcceptanceStore = StringMap AcceptanceEntry

-- The tests on the input that both methods make.
unfoldable pub input_invalid : ResultAcceptanceInput → ℕ → Bool
input_invalid input now =
    input.result_id == ""
    || ltb 200 (utf16_length input.result_id)
    || input.operation_id == ""
    || ltb 512 (utf16_length input.operation_id)
    || not (is_digest "sha256:" input.request_digest)
    || is_over input.expires_at now

unfoldable pub prune : ℕ → AcceptanceStore → AcceptanceStore
prune now accepted = retain (λ entry. ltb now entry.expires_at_ms) accepted

abbrev pub entry_for : ResultAcceptanceInput → AcceptanceEntry
entry_for input = record {
  operation_id = input.operation_id;
  request_digest = input.request_digest;
  expires_at_ms = time_ms input.expires_at;
}

-- The answer for an entry that is there, or a new entry.
settle :
    Option AcceptanceEntry
    → ResultAcceptanceInput
    → AcceptanceStore
    → AcceptanceStore × ResultAcceptanceStatus
settle (some existing) input accepted = (
  accepted,
  if existing.operation_id == input.operation_id && existing.request_digest == input.request_digest
      then same_operation
      else replay,
)
settle none input accepted = (set input.result_id (entry_for input) accepted, new)

unfoldable pub accept :
    ResultAcceptanceInput → ℕ → AcceptanceStore → AcceptanceStore × ResultAcceptanceStatus
unfolding settle
accept input now accepted =
    if input_invalid input now
    then (accepted, replay)
    else settle (get input.result_id (prune now accepted)) input (prune now accepted)

-- `a ?? b`
abbrev or_else {ℓ} : {A : Type ℓ} → Option A → Option A → Option A
or_else (some a) b = some a
or_else none b = b

unfoldable pub accept_with_legacy :
    ResultAcceptanceInput → String → ℕ → AcceptanceStore → AcceptanceStore × ResultAcceptanceStatus
unfolding settle
accept_with_legacy input legacy_result_id now accepted =
    if input_invalid input now || legacy_result_id == "" || ltb 200 (utf16_length legacy_result_id)
    then (accepted, replay)
    else settle
        (or_else (get legacy_result_id (prune now accepted))
          (get input.result_id (prune now accepted)))
        input (prune now accepted)
