-- ===== src/Stores/Replay/Runs.antt =====
-- Calls of a replay store in any order, under a clock that does not run backwards.
use x.Prelude.{
  ℕ, String, Bool, true, false, ◌≡◌, ◌≤◌, ◌+◌, ◌⊎◌, inl, inr, refl, some, List, [], ◌∷◌, ◌&&◌, ◌==◌,
  string_eq, nat_beq, if◌then◌else◌, Bool-cases, arith, eq_iff, get, get-set, IsoTimestamp, time_ms,
  HasDistinctKeys,
}
use x.Stores.Replay.{ReplayStore, prune, consume, consume_with_legacy}
use x.Stores.Replay.Laws.{get-prune, consume-HasDistinctKeys, consume_with_legacy-HasDistinctKeys}

-- A call has the result ID, the legacy ID if it is given, the expiry and the time of the call.
pub data Call : Type 0 where
  plain : String → IsoTimestamp → ℕ → Call
  with_legacy : String → String → IsoTimestamp → ℕ → Call

abbrev pub time_of : Call → ℕ
time_of (plain id e now) = now
time_of (with_legacy id old e now) = now

unfoldable pub perform : Call → ReplayStore → ReplayStore × Bool
perform (plain id e now) s = consume id e now s
perform (with_legacy id old e now) s = consume_with_legacy id old e now s

abbrev is_for : String → ℕ → Call → Bool
is_for id expiry (plain j e now) = j == id && nat_beq (time_ms e) expiry
is_for id expiry (with_legacy j old e now) = j == id && nat_beq (time_ms e) expiry

-- Whether a call for this result ID and expiry succeeds.
unfoldable pub wins : String → ℕ → ReplayStore → Call → Bool
wins id expiry s c = is_for id expiry c && (perform c s).1

unfoldable pub count_wins : String → ℕ → ReplayStore → List Call → ℕ
count_wins id expiry s [] = 0
count_wins id expiry s (c ∷ cs) =
    (if wins id expiry s c then 1 else 0) + count_wins id expiry (perform c s).0 cs

abbrev pub Ascending : ℕ → List Call → Type 0
Ascending t [] = Unit
Ascending t (c ∷ cs) = (t ≤ time_of c) × Ascending (time_of c) cs

-- At time `t` the ID is stored with this expiry, or the expiry is past.
abbrev Held : ReplayStore → String → ℕ → ℕ → Type 0
Held s id expiry t = (get id s ≡ some expiry) ⊎ (expiry ≤ t)

perform-HasDistinctKeys :
    (s : ReplayStore) (c : Call) → HasDistinctKeys s → HasDistinctKeys (perform c s).0
unfolding perform
perform-HasDistinctKeys s (plain id e now) d = consume-HasDistinctKeys s id e now d
perform-HasDistinctKeys s (with_legacy id old e now) d =
    consume_with_legacy-HasDistinctKeys s id old e now d

Held-perform :
    (s : ReplayStore) (id : String) (expiry t : ℕ) (c : Call)
    → HasDistinctKeys s
    → Held s id expiry t
    → t ≤ time_of c
    → Held (perform c s).0 id expiry (time_of c)
unfolding perform consume consume_with_legacy
Held-perform s id expiry t c d (inr past) later = inr (omega arith)
Held-perform s id expiry t (plain j e now) d (inl stored) later = ground (
  arith,
  get-prune s id now d,
  get-prune s j now d,
  get-set j id (time_ms e) (prune now s),
  eq_iff j id,
)
Held-perform s id expiry t (with_legacy j old e now) d (inl stored) later = ground (
  arith,
  get-prune s id now d,
  get-prune s j now d,
  get-set j id (time_ms e) (prune now s),
  eq_iff j id,
)

wins-Held' :
    (s : ReplayStore) (id : String) (expiry t : ℕ) (c : Call)
    → HasDistinctKeys s
    → Held s id expiry t
    → t ≤ time_of c
    → wins id expiry s c ≡ false
unfolding wins perform consume consume_with_legacy
wins-Held' s id expiry t (plain j e now) d held later =
    ground (arith, get-prune s id now d, get-prune s j now d, eq_iff j id)
wins-Held' s id expiry t (with_legacy j old e now) d held later =
    ground (arith, get-prune s id now d, get-prune s j now d, eq_iff j id)

wins-Held :
    (s : ReplayStore) (id : String) (expiry : ℕ) (c : Call)
    → wins id expiry s c ≡ true
    → Held (perform c s).0 id expiry (time_of c)
unfolding wins perform consume consume_with_legacy
wins-Held s id expiry (plain j e now) won =
    inl (ground (arith, eq_iff j id, get-set j id (time_ms e) (prune now s)))
wins-Held s id expiry (with_legacy j old e now) won =
    inl (ground (arith, eq_iff j id, get-set j id (time_ms e) (prune now s)))

count_wins-Held :
    (s : ReplayStore) (id : String) (expiry t : ℕ) (cs : List Call)
    → HasDistinctKeys s
    → Held s id expiry t
    → Ascending t cs
    → count_wins id expiry s cs ≡ 0
unfolding count_wins
count_wins-Held s id expiry t [] d held up = refl
count_wins-Held s id expiry t (c ∷ cs) d held (later, up) = ground (
  arith,
  wins-Held' s id expiry t c d held later,
  count_wins-Held (perform c s).0 id expiry (time_of c) cs (perform-HasDistinctKeys s c d)
      (Held-perform s id expiry t c d held later) up,
)

-- From any store with distinct keys, under a clock that does not run backwards, at most one call
-- for a given result ID and expiry succeeds, with or without a legacy ID.
pub replay_wins-le-one :
    (s : ReplayStore) (id : String) (expiry t : ℕ) (cs : List Call)
    → HasDistinctKeys s
    → Ascending t cs
    → count_wins id expiry s cs ≤ 1
unfolding count_wins
replay_wins-le-one s id expiry t [] d up = omega arith
replay_wins-le-one s id expiry t (c ∷ cs) d (later, up) =
    let d' = perform-HasDistinctKeys s c d in
    elim (Bool-cases (wins id expiry s c)) [
      | inl won ↦ ground (
        arith,
        count_wins-Held (perform c s).0 id expiry (time_of c) cs d' (wins-Held s id expiry c won)
            up,
      )
      | inr lost ↦ ground (arith, replay_wins-le-one (perform c s).0 id expiry (time_of c) cs d' up)
    ]
