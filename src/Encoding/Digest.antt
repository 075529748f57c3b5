-- ===== src/Encoding/Digest.antt =====
-- Which digests `assertSha256Digest` of src/encoding.ts accepts.
use x.Prelude.{
  ℕ, String, true, List, [], ◌∷◌, ◌++◌, ok, Result-cases, length, drop, codes, starts_with,
  is_digest, starts_with_rest, starts_with-append, is_digest-append, All, inl, inr, ◌≡◌, ◌≢◌, ◌↔◌,
  refl, arith, ◌+◌, ◌*◌,
}
use Prim.Native.Nat.{◌/◌}
use x.Encoding.{assert_sha256_digest, decode_strict_base64url}
use x.Encoding.RoundTrip.{IsByte, base64url}
use x.Encoding.Accepted.{decode_iff, base64url-is_base64url}

length-base64url : (bytes : List ℕ) → length (base64url bytes) ≡ (4 * length bytes + 2) / 3
unfolding base64url
length-base64url [] = omega arith
length-base64url (a ∷ []) = omega arith
length-base64url (a ∷ b ∷ []) = omega arith
length-base64url (a ∷ b ∷ c ∷ rest) = omega (arith, length-base64url rest)

-- `sha256:` and the text of 32 bytes.
pub record IsSha256 (digest : String) : Type 0 where
  pub bytes : List ℕ
  pub whole : All IsByte bytes
  pub size : length bytes ≡ 32
  pub text : codes digest ≡ codes "sha256:" ++ base64url bytes

digest_returned :
    (digest : String)
    → assert_sha256_digest digest ≡ ok digest
    → (starts_with digest "sha256:" ≡ true)
      × ((bytes : List ℕ) × (decode_strict_base64url (drop 7 (codes digest)) "sha256 digest"
            ≡ ok bytes)
          × (length bytes ≡ 32))
unfolding assert_sha256_digest
digest_returned digest h =
    elim (Result-cases (decode_strict_base64url (drop 7 (codes digest)) "sha256 digest")) [
      | inl (bytes, e) ↦ let r = rw e at h in (ground arith, (bytes, e, ground arith))
      | inr (message, e) ↦ absurd (let r = rw e at h in ground arith)
    ]

digest_text : (bytes : List ℕ) → drop 7 (codes "sha256:" ++ base64url bytes) ≡ base64url bytes
digest_text bytes = refl

some_bytes : (bytes : List ℕ) → length bytes ≡ 32 → bytes ≢ []
some_bytes [] h = absurd (omega arith)
some_bytes (a ∷ bytes) h = λ p. ground arith

IsSha256-returned : (digest : String) → IsSha256 digest → assert_sha256_digest digest ≡ ok digest
unfolding assert_sha256_digest
IsSha256-returned digest v = rw (starts_with-append digest "sha256:" _ v.text) (
    rw v.text (
      rw
        ((decode_iff (base64url v.bytes) v.bytes "sha256 digest").1
          (some_bytes v.bytes v.size, v.whole, refl))
        (rw v.size refl)))

-- `assertSha256Digest` returns its argument exactly for the text `sha256:` followed by the
-- canonical base64url of 32 bytes.
pub assert_sha256_digest_iff :
    (digest : String) → (assert_sha256_digest digest ≡ ok digest) ↔ IsSha256 digest
assert_sha256_digest_iff digest = (
  λ h.
      let (prefix, (bytes, decoded, size)) = digest_returned digest h in
      let (_, whole, same) = (decode_iff (drop 7 (codes digest)) bytes "sha256 digest").0 decoded in
      record {
        bytes = bytes;
        whole = whole;
        size = size;
        text = rw (← same) (starts_with_rest digest "sha256:" prefix);
      },
  IsSha256-returned digest,
)

-- Such a digest passes the regular expression that the stores test digests with.
pub IsSha256-is_digest : (digest : String) → IsSha256 digest → is_digest "sha256:" digest ≡ true
IsSha256-is_digest digest v =
    rw (is_digest-append digest "sha256:" (base64url v.bytes) v.text)
      (rw (length-base64url v.bytes) (rw v.size (base64url-is_base64url v.bytes)))
