-- ===== src/Encoding.antt =====
-- src/encoding.ts: unpadded base64url and the digests on the wire. A text is the list of its code
-- units, and a byte is a number below 256. `atob` and `btoa` are the platform's.
pub mod Base64
pub mod RoundTrip
pub mod Accepted
pub mod Digest
use x.Prelude.{
  ℕ, zero, suc, String, Bool, true, false, ◌&&◌, not, Option, none, some, List, [], ◌∷◌, ◌++◌, map,
  Result, ok, err, ◌>>=◌, ◌>>◌, throw_if, nat_beq, if◌then◌else◌, is_empty, all, any, length, drop,
  is_base64url, codes, starts_with, ◌<>◌, same_list, nat_eq, ◌-◌, ◌+◌,
}
use Prim.Native.Nat.{◌%◌}
use x.Encoding.Base64.{atob, btoa}

-- `replaceAll("-", "+").replaceAll("_", "/")`, one character.
abbrev pub to_standard : ℕ → ℕ
to_standard c = if nat_beq c b'-' then b'+' else if nat_beq c b'_' then b'/' else c

-- `replaceAll("+", "-").replaceAll("/", "_")`, one character.
abbrev pub to_url : ℕ → ℕ
to_url c = if nat_beq c b'+' then b'-' else if nat_beq c b'/' then b'_' else c

-- `"=".repeat(count)`
abbrev pub equals_signs : ℕ → List ℕ
equals_signs zero = []
equals_signs (suc count) = b'=' ∷ equals_signs count

-- `(4 - (length % 4)) % 4`
abbrev pub padding : ℕ → ℕ
padding n = (4 - n % 4) % 4

abbrev without_sign : ℕ → List ℕ → List ℕ
without_sign c rest = if nat_beq c b'=' && is_empty rest then [] else c ∷ rest

-- `replace(/=+$/u, "")`
unfoldable pub trim_padding : List ℕ → List ℕ
trim_padding [] = []
trim_padding (c ∷ cs) = without_sign c (trim_padding cs)

unfoldable pub encode_strict_base64url : List ℕ → List ℕ
encode_strict_base64url bytes = trim_padding (map to_url (btoa bytes))

-- The text that `atob` reads.
unfoldable pub padded : List ℕ → List ℕ
padded value = map to_standard value ++ equals_signs (padding (length value))

abbrev pub decoded_or_throw : String → Option (List ℕ) → Result (List ℕ)
decoded_or_throw label none = err ("Malformed " <> label)
decoded_or_throw label (some bytes) = ok bytes

unfoldable pub decode_strict_base64url : List ℕ → String → Result (List ℕ)
decode_strict_base64url value label = do
  throw_if (is_empty value) ("Empty " <> label)
  throw_if (any (λ c. nat_beq c b'=') value) (label <> " must not include padding")
  throw_if (not (all is_base64url value)) ("Invalid " <> label <> " alphabet")
  bytes ← decoded_or_throw label (atob (padded value))
  throw_if (not (same_list (encode_strict_base64url bytes) value)) ("Non-canonical " <> label)
  ok bytes

unfoldable pub assert_sha256_digest : String → Result String
assert_sha256_digest digest = do
  throw_if (not (starts_with digest "sha256:")) "Digest must use sha256: prefix"
  bytes ← decode_strict_base64url (drop 7 (codes digest)) "sha256 digest"
  throw_if (not (nat_beq (length bytes) 32)) "SHA-256 digest must decode to 32 bytes"
  ok digest
