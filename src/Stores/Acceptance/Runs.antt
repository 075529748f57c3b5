-- ===== src/Stores/Acceptance/Runs.antt =====
-- Calls of an acceptance store in any order, under a clock that does not run backwards.
use x.Prelude.{
  ℕ, String, false, ◌≡◌, ◌≤◌, ◌<◌, ◌⊎◌, inl, inr, some, List, [], ◌∷◌, arith, eq_iff, get, get-set,
  time_ms, HasDistinctKeys, string_eq,
}
use x.Types.{ResultAcceptanceInput, new, same_operation, replay}
use x.Stores.Acceptance.{
  AcceptanceEntry, AcceptanceStore, input_invalid, prune, entry_for, accept, accept_with_legacy,
}
use x.Stores.Acceptance.Laws.{
  get-prune, accept-HasDistinctKeys, accept_with_legacy-HasDistinctKeys, accept_bound, accept_new,
  valid-running,
}

pub data Call : Type 0 where
  plain : ResultAcceptanceInput → ℕ → Call
  with_legacy : ResultAcceptanceInput → String → ℕ → Call

abbrev pub time_of : Call → ℕ
time_of (plain i now) = now
time_of (with_legacy i old now) = now

unfoldable pub step : AcceptanceStore → Call → AcceptanceStore
step s (plain i now) = (accept i now s).0
step s (with_legacy i old now) = (accept_with_legacy i old now s).0

unfoldable pub run : List Call → AcceptanceStore → AcceptanceStore
run [] s = s
run (c ∷ cs) s = run cs (step s c)

-- The clock does not run backwards, from `t` to `u`.
abbrev pub Ascending : ℕ → List Call → ℕ → Type 0
Ascending t [] u = t ≤ u
Ascending t (c ∷ cs) u = (t ≤ time_of c) × Ascending (time_of c) cs u

abbrev Held : AcceptanceStore → String → AcceptanceEntry → ℕ → Type 0
Held s id entry t = (get id s ≡ some entry) ⊎ (entry.expires_at_ms ≤ t)

step-HasDistinctKeys :
    (s : AcceptanceStore) (c : Call) → HasDistinctKeys s → HasDistinctKeys (step s c)
unfolding step
step-HasDistinctKeys s (plain i now) d = accept-HasDistinctKeys s i now d
step-HasDistinctKeys s (with_legacy i old now) d = accept_with_legacy-HasDistinctKeys s i old now d

Held-step :
    (s : AcceptanceStore) (id : String) (entry : AcceptanceEntry) (t : ℕ) (c : Call)
    → HasDistinctKeys s
    → Held s id entry t
    → t ≤ time_of c
    → Held (step s c) id entry (time_of c)
unfolding step accept accept_with_legacy
Held-step s id entry t c d (inr past) later = inr (omega arith)
Held-step s id entry t (plain i now) d (inl stored) later = ground (
  arith,
  get-prune s id now d,
  get-set i.result_id id (entry_for i) (prune now s),
  eq_iff i.result_id id,
)
Held-step s id entry t (with_legacy i old now) d (inl stored) later = ground (
  arith,
  get-prune s id now d,
  get-set i.result_id id (entry_for i) (prune now s),
  eq_iff i.result_id id,
)

Held-run :
    (s : AcceptanceStore) (id : String) (entry : AcceptanceEntry) (t u : ℕ) (cs : List Call)
    → HasDistinctKeys s
    → Held s id entry t
    → Ascending t cs u
    → HasDistinctKeys (run cs s) × Held (run cs s) id entry u
unfolding run
Held-run s id entry t u [] d (inl stored) up = (d, inl stored)
Held-run s id entry t u [] d (inr past) up = (d, inr (omega arith))
Held-run s id entry t u (c ∷ cs) d held (later, up) =
    Held-run (step s c) id entry (time_of c) u cs (step-HasDistinctKeys s c d)
      (Held-step s id entry t c d held later) up

-- Once `accept` has taken a result as new, then whatever calls of `accept` and `acceptWithLegacy`
-- follow under a clock that does not run backwards, a valid call of `accept` for the same result and
-- expiry is never new: it is `same_operation` if the operation and the request digest are the first
-- call's, and `replay` otherwise.
pub accept_after_run :
    (s : AcceptanceStore) (i j : ResultAcceptanceInput) (t u : ℕ) (cs : List Call)
    → HasDistinctKeys s
    → (accept i t s).1 ≡ new
    → Ascending t cs u
    → j.result_id ≡ i.result_id
    → time_ms j.expires_at ≡ time_ms i.expires_at
    → input_invalid j u ≡ false
    → ((accept j u (run cs (accept i t s).0)).1 ≡ same_operation)
        × (j.operation_id ≡ i.operation_id)
        × (j.request_digest ≡ i.request_digest)
      ⊎ ((accept j u (run cs (accept i t s).0)).1 ≡ replay)
        × (¬ ((j.operation_id ≡ i.operation_id) × (j.request_digest ≡ i.request_digest)))
accept_after_run s i j t u cs d first up same_id same_expiry valid =
    let (bound, _) = accept_new s i t d first in
    let (d', held) =
      Held-run (accept i t s).0 i.result_id (entry_for i) t u cs (accept-HasDistinctKeys s i t d)
        (inl bound.stored) up in
    let running : u < time_ms i.expires_at = rw (← same_expiry) (valid-running j u valid) in
    accept_bound (run cs (accept i t s).0) j (entry_for i) u d'
      (record { stored = rw same_id (still held running); running = running }) valid
  where
    still :
        Held (run cs (accept i t s).0) i.result_id (entry_for i) u
        → u < time_ms i.expires_at
        → get i.result_id (run cs (accept i t s).0) ≡ some (entry_for i)
    still (inl stored) r = stored
    still (inr past) r = absurd (omega arith)
