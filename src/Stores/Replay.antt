-- ===== src/Stores/Replay.antt =====
-- `InMemoryResultReplayStore` of src/nonce-store.ts: the expiry of each result ID that is used.
pub mod Laws
pub mod Runs
use x.Prelude.{
  ℕ, String, Bool, true, false, ◌||◌, not, Option, some, StringMap, set, has, retain, IsoTimestamp,
  date_parse, time_ms, is_some, num_le, ltb, ◌==◌, string_eq, if◌then◌else◌,
}

abbrev pub ReplayStore : Type 0
ReplayStore = StringMap ℕ

-- An expiry that is not a finite number, or that is past.
abbrev pub is_over : IsoTimestamp → ℕ → Bool
is_over expires_at now =
    let expires_at_ms = date_parse expires_at in
    not (is_some expires_at_ms) || num_le expires_at_ms (some now)

-- The loop that deletes the entries that have expired.
unfoldable pub prune : ℕ → ReplayStore → ReplayStore
prune now used = retain (λ expiry. ltb now expiry) used

unfoldable pub consume : String → IsoTimestamp → ℕ → ReplayStore → ReplayStore × Bool
unfolding has
consume result_id expires_at now used =
    if result_id == "" || is_over expires_at now
    then (used, false)
    else if has result_id (prune now used)
    then (prune now used, false)
    else (set result_id (time_ms expires_at) (prune now used), true)

unfoldable pub consume_with_legacy :
    String → String → IsoTimestamp → ℕ → ReplayStore → ReplayStore × Bool
unfolding has
consume_with_legacy result_id legacy_result_id expires_at now used =
    if result_id == "" || legacy_result_id == "" || is_over expires_at now
    then (used, false)
    else if has legacy_result_id (prune now used) || has result_id (prune now used)
    then (prune now used, false)
    else (set result_id (time_ms expires_at) (prune now used), true)
