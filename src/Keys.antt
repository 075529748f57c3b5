-- ===== src/Keys.antt =====
-- src/keys/managed.ts: the life of a key, the choice of the issuing secret, and the derivation of
-- pairwise identifiers. HMAC-SHA-256 in base64url is the parameter `hmac`, on a secret's bytes and
-- a message's code points.
pub mod Laws
use x.Prelude.{
  join, ℕ, String, Bool, true, false, ◌&&◌, ◌||◌, not, Option, none, some, List, [], ◌∷◌, Result,
  ok, err, ◌>>=◌, ◌>>◌, throw_if, IsoTimestamp, date_parse, is_some, num_le, num_lt, keep, is_ok,
  length, ltb, ◌<>◌, if◌then◌else◌, codes, ◌==◌, Eq, ◌≡◌, ◌↔◌, arith,
}
use x.Stores.Provider.{scope_kind_name}
use x.Types.{UniquenessScopeKind}

pub data KeyLifecycleStatus : Type 0 where
  pending active retired revoked : KeyLifecycleStatus

abbrev pub is_active : KeyLifecycleStatus → Bool
is_active active = true
is_active _ = false

-- The fields of a managed key that its use depends on, and those of a secret version.
pub record PairwiseSecretVersion : Type 0 where
  pub version : String
  pub status : KeyLifecycleStatus
  pub not_before : IsoTimestamp
  pub not_after : IsoTimestamp
  pub secret : List ℕ

status_check : KeyLifecycleStatus → Result (Unit {0})
status_check revoked = err "Key revoked"
status_check pending = err "Key not yet active"
status_check _ = ok tt

unfoldable pub assert_key_usable :
    KeyLifecycleStatus → IsoTimestamp → IsoTimestamp → ℕ → Result (Unit {0})
unfolding status_check
assert_key_usable status not_before not_after now = do
  status_check status
  let nbf = date_parse not_before
  let exp = date_parse not_after
  throw_if
      (not (is_some nbf) || not (is_some exp) || num_lt (some now) nbf || num_le exp (some now))
      "Key outside validity interval"

-- The test of the `filter`: a key that is not usable is left out.
unfoldable pub is_issuing : ℕ → PairwiseSecretVersion → Bool
is_issuing now version =
    is_ok (assert_key_usable version.status version.not_before version.not_after now)
    && is_active version.status

only : List PairwiseSecretVersion → Result PairwiseSecretVersion
only [] = err "Exactly one active pairwise secret version is required"
only (version ∷ []) = ok version
only (version ∷ other ∷ rest) = err "Exactly one active pairwise secret version is required"

unfoldable pub select_issuing_pairwise_secret :
    List PairwiseSecretVersion → ℕ → Result PairwiseSecretVersion
unfolding only
select_issuing_pairwise_secret versions now = only (keep (is_issuing now) versions)

pub record ExternalPairwiseDeriver : Type 0 where
  pub derive_pairwise_human_id :
      (audience provider_id method_id provider_subject : String) → Result String
  pub derive_provider_replay_digest :
      (provider_id method_id : String) (scope_kind : UniquenessScopeKind)
      (scope_id provider_subject : String)
      → Result String

module _ (hmac : List ℕ → List ℕ → String) where
  unfoldable pub local_human_id :
      List ℕ → (audience provider_id method_id provider_subject : String) → String
  local_human_id secret audience provider_id method_id provider_subject =
      "x424_human_"
      <> hmac secret (join 0 (audience ∷ provider_id ∷ method_id ∷ provider_subject ∷ []))

  unfoldable pub local_replay_digest :
      List ℕ
      → (provider_id method_id : String) → UniquenessScopeKind
      → (scope_id provider_subject : String) → String
  local_replay_digest secret provider_id method_id scope_kind scope_id provider_subject =
      "hmac-sha256:"
      <> hmac secret (
          join 0 (
            "provider-replay"
            ∷ provider_id
            ∷ method_id
            ∷ scope_kind_name scope_kind
            ∷ scope_id
            ∷ provider_subject
            ∷ []))

  unfoldable pub create_local_pairwise_deriver : List ℕ → Result ExternalPairwiseDeriver
  create_local_pairwise_deriver secret =
      if ltb (length secret) 32
      then err "Pairwise secret must contain at least 32 random bytes"
      else ok (record {
        derive_pairwise_human_id = λ a p m s. ok (local_human_id secret a p m s);
        derive_provider_replay_digest = λ p m k i s. ok (local_replay_digest secret p m k i s);
      })

  unfoldable pub derive_pairwise_human_id :
      PairwiseSecretVersion
      → (audience provider_id method_id provider_subject : String) → (now : ℕ) → Result String
  derive_pairwise_human_id secret audience provider_id method_id provider_subject now = do
    assert_key_usable secret.status secret.not_before secret.not_after now
    ok (
        "x424_human_"
        <> secret.version
        <> "_"
        <> hmac secret.secret
            (join 10 (secret.version ∷ audience ∷ provider_id ∷ method_id ∷ provider_subject ∷ [])))
