-- ===== src/Stores/Nonce.antt =====
-- `InMemoryNonceStore` of src/nonce-store.ts. A method is one step: it awaits nothing.
pub mod Laws
pub mod Runs
use x.Prelude.{
  ℕ, String, Bool, true, false, ◌||◌, not, Option, none, some, Result, ok, err, StringMap, get, set,
  has, IsoTimestamp, date_parse, is_some, leb, ◌==◌, string_eq, if◌then◌else◌, time_ms,
}

pub record NonceEntry : Type 0 where
  pub nonce : String
  pub expires_at_ms : ℕ
  pub used : Bool

abbrev pub NonceStore : Type 0
NonceStore = StringMap NonceEntry

put_at : Option ℕ → String → String → NonceStore → Result NonceStore
put_at none dependency_id nonce entries = err "Invalid nonce entry"
put_at (some expires_at_ms) dependency_id nonce entries =
    if dependency_id == "" || nonce == ""
    then err "Invalid nonce entry"
    else if has dependency_id entries
    then err "Dependency ID already exists"
    else ok (
        set dependency_id (record { nonce = nonce; expires_at_ms = expires_at_ms; used = false })
          entries)

unfoldable pub put : String → String → IsoTimestamp → NonceStore → Result NonceStore
unfolding put_at has
put dependency_id nonce expires_at entries =
    put_at (date_parse expires_at) dependency_id nonce entries

-- The guard of `consume`, on the entry that is there.
abbrev refuses : NonceEntry → String → ℕ → Bool
refuses entry nonce now = entry.used || not (entry.nonce == nonce) || leb entry.expires_at_ms now

consume_entry : Option NonceEntry → String → String → ℕ → NonceStore → NonceStore × Bool
consume_entry none dependency_id nonce now entries = (entries, false)
consume_entry (some entry) dependency_id nonce now entries =
    if refuses entry nonce now
    then (entries, false)
    else (set dependency_id (record entry { used = true }) entries, true)

unfoldable pub consume : String → String → ℕ → NonceStore → NonceStore × Bool
unfolding consume_entry
consume dependency_id nonce now entries =
    consume_entry (get dependency_id entries) dependency_id nonce now entries
