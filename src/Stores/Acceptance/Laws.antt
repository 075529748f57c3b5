-- ===== src/Stores/Acceptance/Laws.antt =====
-- Single calls of the acceptance store.
use x.Prelude.{
  ℕ, String, false, ◌≡◌, ◌<◌, ◌⊎◌, some, get, get-set, get-retain, keep_if, ltb, arith, eq_iff,
  time_ms, HasDistinctKeys, set-HasDistinctKeys, retain-HasDistinctKeys,
}
use x.Types.{ResultAcceptanceInput, new, same_operation, replay}
use x.Stores.Acceptance.{
  AcceptanceEntry, AcceptanceStore, input_invalid, prune, entry_for, accept, accept_with_legacy,
}

pub get-prune :
    (s : AcceptanceStore) (id : String) (now : ℕ)
    → HasDistinctKeys s
    → get id (prune now s) ≡ keep_if (λ entry. ltb now entry.expires_at_ms) (get id s)
unfolding prune
get-prune s id now d = get-retain (λ entry. ltb now entry.expires_at_ms) id s d

pub prune-HasDistinctKeys :
    (s : AcceptanceStore) (now : ℕ) → HasDistinctKeys s → HasDistinctKeys (prune now s)
unfolding prune
prune-HasDistinctKeys s now d = retain-HasDistinctKeys (λ entry. ltb now entry.expires_at_ms) s d

pub accept-HasDistinctKeys :
    (s : AcceptanceStore) (i : ResultAcceptanceInput) (now : ℕ)
    → HasDistinctKeys s
    → HasDistinctKeys (accept i now s).0
unfolding accept
accept-HasDistinctKeys s i now d = ground (
  arith,
  prune-HasDistinctKeys s now d,
  set-HasDistinctKeys i.result_id (entry_for i) (prune now s),
)

pub accept_with_legacy-HasDistinctKeys :
    (s : AcceptanceStore) (i : ResultAcceptanceInput) (old : String) (now : ℕ)
    → HasDistinctKeys s
    → HasDistinctKeys (accept_with_legacy i old now s).0
unfolding accept_with_legacy
accept_with_legacy-HasDistinctKeys s i old now d = ground (
  arith,
  prune-HasDistinctKeys s now d,
  set-HasDistinctKeys i.result_id (entry_for i) (prune now s),
)

pub valid-running :
    (i : ResultAcceptanceInput) (now : ℕ) → input_invalid i now ≡ false → now < time_ms i.expires_at
unfolding input_invalid
valid-running i now h = ground arith

-- The entry is there for this result, and has not expired.
pub record IsBound (s : AcceptanceStore) (id : String) (entry : AcceptanceEntry) (now : ℕ)
    : Type 0 where
  pub stored : get id s ≡ some entry
  pub running : now < entry.expires_at_ms

-- A valid call for a result that is bound answers `same_operation` if both the operation and the
-- request digest are those of the entry, and `replay` otherwise.
pub accept_bound :
    (s : AcceptanceStore) (i : ResultAcceptanceInput) (entry : AcceptanceEntry) (now : ℕ)
    → HasDistinctKeys s
    → IsBound s i.result_id entry now
    → input_invalid i now ≡ false
    → ((accept i now s).1 ≡ same_operation)
        × (i.operation_id ≡ entry.operation_id)
        × (i.request_digest ≡ entry.request_digest)
      ⊎ ((accept i now s).1 ≡ replay)
        × (¬ ((i.operation_id ≡ entry.operation_id) × (i.request_digest ≡ entry.request_digest)))
unfolding accept
accept_bound s i entry now d b valid = ground (
  arith,
  get-prune s i.result_id now d,
  b.stored,
  b.running,
  eq_iff entry.operation_id i.operation_id,
  eq_iff entry.request_digest i.request_digest,
)

-- `new` is answered only where the result has no entry that is running, and then the result is
-- bound to this operation and digest.
pub accept_new :
    (s : AcceptanceStore) (i : ResultAcceptanceInput) (now : ℕ)
    → HasDistinctKeys s
    → (accept i now s).1 ≡ new
    → IsBound (accept i now s).0 i.result_id (entry_for i) now
      × ((entry : AcceptanceEntry) → ¬ IsBound s i.result_id entry now)
unfolding accept
accept_new s i now d h = (
  record {
    stored = ground (
      arith,
      get-set i.result_id i.result_id (entry_for i) (prune now s),
      eq_iff i.result_id i.result_id,
    );
    running = valid-running i now (ground arith);
  },
  λ entry b. ground (arith, get-prune s i.result_id now d, b.stored, b.running),
)
