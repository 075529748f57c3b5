-- ===== src/Service/Backends.antt =====
-- The stores that src/service.ts is given, as interfaces, and the in-memory stores as
-- implementations of them.
use x.Prelude.{ℕ, String, Bool, true, false, ◌≡◌, refl, ap, includes, Result, ok, err, IsoTimestamp}
use x.Types.{ProviderReplayEntry}
use x.Stores.Nonce
use x.Stores.Nonce.Laws
use x.Stores.Provider
use x.Stores.Provider.{codes_eq}
use x.Stores.Provider.Runs

-- `NonceStore` of src/types.ts. A dependency that is spent is refused from then on.
pub record NonceBackend : Type 1 where
  pub State : Type 0
  pub put : String → String → IsoTimestamp → State → State × Result (Unit {0})
  pub consume : String → String → ℕ → State → State × Bool
  pub IsSpent : State → String → Type 0
  pub consume-IsSpent :
      (s : State) (id nonce : String) (now : ℕ)
      → (consume id nonce now s).1 ≡ true
      → IsSpent (consume id nonce now s).0 id
  pub consume_spent :
      (s : State) (id nonce : String) (now : ℕ) → IsSpent s id → (consume id nonce now s).1 ≡ false
  pub IsSpent-consume :
      (s : State) (id j nonce : String) (now : ℕ)
      → IsSpent s id
      → IsSpent (consume j nonce now s).0 id
  pub IsSpent-put :
      (s : State) (id j nonce : String) (e : IsoTimestamp)
      → IsSpent s id
      → IsSpent (put j nonce e s).0 id

-- `ProviderReplayStore` of src/types.ts. A subject that is used is refused from then on.
pub record ReplayBackend : Type 1 where
  pub State : Type 0
  pub consume : ProviderReplayEntry → State → State × Bool
  pub IsUsed : State → ProviderReplayEntry → Type 0
  pub consume-IsUsed :
      (s : State) (e : ProviderReplayEntry) → (consume e s).1 ≡ true → IsUsed (consume e s).0 e
  pub consume_used : (s : State) (e : ProviderReplayEntry) → IsUsed s e → (consume e s).1 ≡ false
  pub IsUsed-consume :
      (s : State) (e f : ProviderReplayEntry) → IsUsed s e → IsUsed (consume f s).0 e

-- A call that throws leaves the in-memory store as it is.
abbrev put_result :
    Nonce.NonceStore → Result Nonce.NonceStore → Nonce.NonceStore × Result (Unit {0})
put_result s (ok t) = (t, ok tt)
put_result s (err message) = (s, err message)

put_result-IsSpent :
    (s : Nonce.NonceStore) (id j nonce : String) (e : IsoTimestamp) (r : Result Nonce.NonceStore)
    → Nonce.put j nonce e s ≡ r
    → Laws.IsSpent s id
    → Laws.IsSpent (put_result s r).0 id
put_result-IsSpent s id j nonce e (ok t) h sp = Laws.IsSpent-put s t id j nonce e sp h
put_result-IsSpent s id j nonce e (err m) h sp = sp

abbrev put_memory :
    String → String → IsoTimestamp → Nonce.NonceStore → Nonce.NonceStore × Result (Unit {0})
put_memory id nonce e s = put_result s (Nonce.put id nonce e s)

consume_spent_memory :
    (s : Nonce.NonceStore) (id nonce : String) (now : ℕ)
    → Laws.IsSpent s id
    → (Nonce.consume id nonce now s).1 ≡ false
consume_spent_memory s id nonce now sp = ap (λ w. w.1) (Laws.consume_spent s id nonce now sp)

IsSpent-put_memory :
    (s : Nonce.NonceStore) (id j nonce : String) (e : IsoTimestamp)
    → Laws.IsSpent s id
    → Laws.IsSpent (put_memory j nonce e s).0 id
IsSpent-put_memory s id j nonce e sp =
    put_result-IsSpent s id j nonce e (Nonce.put j nonce e s) refl sp

-- `InMemoryNonceStore` keeps the interface's promise.
unfoldable pub memory_nonces : NonceBackend
unfolding consume_spent_memory IsSpent-put_memory put_result-IsSpent
memory_nonces = record {
  State = Nonce.NonceStore;
  put = put_memory;
  consume = Nonce.consume;
  IsSpent = Laws.IsSpent;
  consume-IsSpent = Laws.consume-IsSpent;
  consume_spent = consume_spent_memory;
  IsSpent-consume = Laws.IsSpent-consume;
  IsSpent-put = IsSpent-put_memory;
}

-- `InMemoryProviderReplayStore` keeps the interface's promise.
unfoldable pub memory_replays : ReplayBackend
memory_replays = record {
  State = Provider.ProviderStore;
  consume = Provider.consume;
  IsUsed = λ s e. includes s (Provider.entry_key e) ≡ true;
  consume-IsUsed = Runs.consume-includes;
  consume_used = Runs.consume_included;
  IsUsed-consume = λ s e f used. Runs.includes-consume s f (Provider.entry_key e) used;
}
