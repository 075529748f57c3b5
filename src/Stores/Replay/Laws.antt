-- ===== src/Stores/Replay/Laws.antt =====
-- Single calls of the replay store.
use x.Prelude.{
  ℕ, String, true, ◌≡◌, ◌≢◌, ◌<◌, ◌≤◌, ◌↔◌, inl, inr, some, get, get-retain, keep_if, ltb, arith,
  eq_iff, IsoTimestamp, time_ms, date_parse, HasDistinctKeys, set-HasDistinctKeys,
  retain-HasDistinctKeys, Option-cases,
}
use x.Stores.Replay.{ReplayStore, prune, consume, consume_with_legacy}

pub get-prune :
    (s : ReplayStore) (id : String) (now : ℕ)
    → HasDistinctKeys s
    → get id (prune now s) ≡ keep_if (λ expiry. ltb now expiry) (get id s)
unfolding prune
get-prune s id now d = get-retain (λ expiry. ltb now expiry) id s d

pub prune-HasDistinctKeys :
    (s : ReplayStore) (now : ℕ) → HasDistinctKeys s → HasDistinctKeys (prune now s)
unfolding prune
prune-HasDistinctKeys s now d = retain-HasDistinctKeys (λ expiry. ltb now expiry) s d

pub consume-HasDistinctKeys :
    (s : ReplayStore) (id : String) (e : IsoTimestamp) (now : ℕ)
    → HasDistinctKeys s
    → HasDistinctKeys (consume id e now s).0
unfolding consume
consume-HasDistinctKeys s id e now d =
    ground (arith, prune-HasDistinctKeys s now d, set-HasDistinctKeys id (time_ms e) (prune now s))

pub consume_with_legacy-HasDistinctKeys :
    (s : ReplayStore) (id old : String) (e : IsoTimestamp) (now : ℕ)
    → HasDistinctKeys s
    → HasDistinctKeys (consume_with_legacy id old e now s).0
unfolding consume_with_legacy
consume_with_legacy-HasDistinctKeys s id old e now d =
    ground (arith, prune-HasDistinctKeys s now d, set-HasDistinctKeys id (time_ms e) (prune now s))

-- A result ID is free at a time if it has no entry, or one that has expired.
abbrev pub IsFree : ReplayStore → String → ℕ → Type 0
IsFree s id now = (expiry : ℕ) → get id s ≡ some expiry → expiry ≤ now

-- `consume` gives true exactly if the ID is not empty, the expiry is readable and later than now,
-- and the ID has no entry that is still running.
pub consume_iff :
    (s : ReplayStore) (id : String) (e : IsoTimestamp) (now : ℕ)
    → HasDistinctKeys s
    → ((consume id e now s).1 ≡ true)
      ↔ ((id ≢ "") × (date_parse e ≡ some (time_ms e)) × (now < time_ms e) × IsFree s id now)
unfolding consume
consume_iff s id e now d = (
  λ h. (
    ground (arith, eq_iff id ""),
    ground arith,
    ground arith,
    λ expiry stored. ground (arith, get-prune s id now d),
  ),
  λ (named, readable, running, free). elim (Option-cases (get id s)) [
    | inl missing ↦ ground (arith, get-prune s id now d, eq_iff id "")
    | inr (expiry, stored) ↦ ground (arith, get-prune s id now d, eq_iff id "", free expiry stored)
  ],
)
