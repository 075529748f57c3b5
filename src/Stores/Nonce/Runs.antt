-- ===== src/Stores/Nonce/Runs.antt =====
-- Calls of a nonce store in any order, from any number of clients.
use x.Prelude.{
  ℕ, String, Bool, true, false, ◌≡◌, ◌≤◌, ◌+◌, refl, Result, ok, err, arith, eq_iff, List, [], ◌∷◌,
  IsoTimestamp, ◌&&◌, ◌==◌, string_eq, if◌then◌else◌, Bool-cases, inl, inr,
}
use x.Stores.Nonce.{NonceStore, put, consume}
use x.Stores.Nonce.Laws.{IsSpent, consume-IsSpent, consume_spent, IsSpent-consume, IsSpent-put}

pub data Call : Type 0 where
  put_call : String → String → IsoTimestamp → Call
  consume_call : String → String → ℕ → Call

-- A call that throws leaves the store as it is.
abbrev or_same : NonceStore → Result NonceStore → NonceStore
or_same s (ok t) = t
or_same s (err e) = s

unfoldable pub step : NonceStore → Call → NonceStore
step s (put_call id nonce e) = or_same s (put id nonce e s)
step s (consume_call id nonce now) = (consume id nonce now s).0

-- Whether a call is a consumption of this dependency that succeeds.
unfoldable pub wins : String → NonceStore → Call → Bool
wins id s (put_call j nonce e) = false
wins id s (consume_call j nonce now) = j == id && (consume j nonce now s).1

-- How many calls of a run consume this dependency with success.
unfoldable pub count_wins : String → NonceStore → List Call → ℕ
count_wins id s [] = 0
count_wins id s (c ∷ cs) = (if wins id s c then 1 else 0) + count_wins id (step s c) cs

IsSpent-step : (s : NonceStore) (id : String) (c : Call) → IsSpent s id → IsSpent (step s c) id
unfolding step
IsSpent-step s id (put_call j nonce e) sp = go (put j nonce e s) refl
  where
    go : (r : Result NonceStore) → put j nonce e s ≡ r → IsSpent (or_same s r) id
    go (ok t) h = IsSpent-put s t id j nonce e sp h
    go (err m) h = sp
IsSpent-step s id (consume_call j nonce now) sp = IsSpent-consume s id j nonce now sp

wins_spent : (s : NonceStore) (id : String) (c : Call) → IsSpent s id → wins id s c ≡ false
unfolding wins
wins_spent s id (put_call j nonce e) sp = refl
wins_spent s id (consume_call j nonce now) sp = elim (Bool-cases (j == id)) [
  | inl same ↦
      let e : j ≡ id = ground (arith, eq_iff j id) in
      rw (e, consume_spent s id nonce now sp) (ground arith)
  | inr other ↦ ground arith
]

wins-IsSpent :
    (s : NonceStore) (id : String) (c : Call) → wins id s c ≡ true → IsSpent (step s c) id
unfolding wins step
wins-IsSpent s id (put_call j nonce e) h = absurd (ground arith)
wins-IsSpent s id (consume_call j nonce now) h =
    let e : j ≡ id = ground (arith, eq_iff j id) in
    rw (← e) (consume-IsSpent s j nonce now (ground arith))

count_wins_spent :
    (id : String) (s : NonceStore) (cs : List Call) → IsSpent s id → count_wins id s cs ≡ 0
unfolding count_wins
count_wins_spent id s [] sp = refl
count_wins_spent id s (c ∷ cs) sp =
    ground (arith, wins_spent s id c sp, count_wins_spent id (step s c) cs (IsSpent-step s id c sp))

-- From any state, whatever calls are made and in whatever order, at most one of them consumes a
-- given dependency with success.
pub nonce_wins-le-one : (id : String) (s : NonceStore) (cs : List Call) → count_wins id s cs ≤ 1
unfolding count_wins
nonce_wins-le-one id s [] = omega arith
nonce_wins-le-one id s (c ∷ cs) = elim (Bool-cases (wins id s c)) [
  | inl won ↦ ground (arith, count_wins_spent id (step s c) cs (wins-IsSpent s id c won))
  | inr lost ↦ ground (arith, nonce_wins-le-one id (step s c) cs)
]
