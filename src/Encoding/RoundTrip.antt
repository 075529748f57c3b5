-- ===== src/Encoding/RoundTrip.antt =====
-- What `decodeStrictBase64Url` and `encodeStrictBase64Url` of src/encoding.ts do to one another.
use x.Prelude.{
  ℕ, suc, true, false, some, List, [], ◌∷◌, nat_beq, length, is_base64url, ◌+◌, ◌*◌, ◌<◌, ◌≡◌, refl,
  arith, All, nat_eq,
}
use Prim.Native.Nat.{◌/◌, ◌%◌}
use x.Encoding.Base64.{character, sextet, btoa, atob, three_bytes}
use x.Encoding.{to_standard, to_url, padding, trim_padding, encode_strict_base64url, padded}

abbrev pub IsByte : ℕ → Type 0
IsByte b = b < 256

-- RFC 4648, section 5, without padding: the text of some bytes, written directly.
abbrev pub url_character : ℕ → ℕ
url_character n = to_url (character n)

unfoldable pub base64url : List ℕ → List ℕ
base64url [] = []
base64url (a ∷ []) = url_character (a / 4) ∷ url_character (a % 4 * 16) ∷ []
base64url (a ∷ b ∷ []) =
    url_character (a / 4) ∷ url_character (a % 4 * 16 + b / 16) ∷ url_character (b % 16 * 4) ∷ []
base64url (a ∷ b ∷ c ∷ rest) =
    url_character (a / 4)
    ∷ url_character (a % 4 * 16 + b / 16)
    ∷ url_character (b % 16 * 4 + c / 64)
    ∷ url_character (c % 64)
    ∷ base64url rest

pub url_character-ne : (n : ℕ) → nat_beq (url_character n) b'=' ≡ false
url_character-ne n = ground arith

pub url_character-is_base64url : (n : ℕ) → is_base64url (url_character n) ≡ true
url_character-is_base64url n = ground arith

to_standard-url_character : (n : ℕ) → to_standard (url_character n) ≡ character n
to_standard-url_character n = ground arith

sextet-character : (n : ℕ) → n < 64 → sextet (character n) ≡ some n
sextet-character n h = ground arith

character-ne : (n : ℕ) → nat_beq (character n) b'=' ≡ false
character-ne n = ground arith

-- A character that is not an equals sign stays.
trim_padding-character :
    (n : ℕ) (cs : List ℕ) → trim_padding (url_character n ∷ cs) ≡ url_character n ∷ trim_padding cs
unfolding trim_padding
trim_padding-character n cs = rw (url_character-ne n) refl

pub encode-base64url : (bytes : List ℕ) → encode_strict_base64url bytes ≡ base64url bytes
unfolding encode_strict_base64url base64url btoa
encode-base64url [] = unfold trim_padding in refl
encode-base64url (a ∷ []) =
    rw (trim_padding-character (a / 4))
      (rw (trim_padding-character (a % 4 * 16)) (unfold trim_padding in refl))
encode-base64url (a ∷ b ∷ []) = rw (trim_padding-character (a / 4)) (
    rw (trim_padding-character (a % 4 * 16 + b / 16))
      (rw (trim_padding-character (b % 16 * 4)) (unfold trim_padding in refl)))
encode-base64url (a ∷ b ∷ c ∷ rest) = rw (trim_padding-character (a / 4)) (
    rw (trim_padding-character (a % 4 * 16 + b / 16)) (
      rw (trim_padding-character (b % 16 * 4 + c / 64))
        (rw (trim_padding-character (c % 64)) (cc (encode-base64url rest)))))

-- A group of four that ends with no equals sign.
atob_group :
    (c d e f : ℕ) (rest : List ℕ)
    → nat_beq f b'=' ≡ false
    → atob (c ∷ d ∷ e ∷ f ∷ rest)
      ≡ three_bytes (sextet c) (sextet d) (sextet e) (sextet f) (atob rest)
unfolding atob
atob_group c d e f [] h = rw h refl
atob_group c d e f (g ∷ rest) h = refl

padding_group : (n : ℕ) → padding (suc (suc (suc (suc n)))) ≡ padding n
padding_group n = omega arith

-- The number of a character of the encoding.
sextet-url_character : (n : ℕ) → n < 64 → sextet (to_standard (url_character n)) ≡ some n
sextet-url_character n h = rw (to_standard-url_character n) (sextet-character n h)

last_not_sign : (n : ℕ) → nat_beq (to_standard (url_character n)) b'=' ≡ false
last_not_sign n = rw (to_standard-url_character n) (character-ne n)

atob_one : (a : ℕ) → IsByte a → atob (padded (base64url (a ∷ []))) ≡ some (a ∷ [])
unfolding base64url padded atob
atob_one a h =
    rw (sextet-url_character (a / 4) (omega arith))
      (rw (sextet-url_character (a % 4 * 16) (omega arith)) (ground arith))

atob_two :
    (a b : ℕ) → IsByte a → IsByte b → atob (padded (base64url (a ∷ b ∷ []))) ≡ some (a ∷ b ∷ [])
unfolding base64url padded atob
atob_two a b h k = rw (last_not_sign (b % 16 * 4)) (
    rw (sextet-url_character (a / 4) (omega arith)) (
      rw (sextet-url_character (a % 4 * 16 + b / 16) (omega arith))
        (rw (sextet-url_character (b % 16 * 4) (omega arith)) (ground arith))))

atob_three :
    (a b c : ℕ) (rest text : List ℕ)
    → IsByte a
    → IsByte b
    → IsByte c
    → atob text ≡ some rest
    → atob (
        to_standard (url_character (a / 4))
        ∷ to_standard (url_character (a % 4 * 16 + b / 16))
        ∷ to_standard (url_character (b % 16 * 4 + c / 64))
        ∷ to_standard (url_character (c % 64))
        ∷ text)
      ≡ some (a ∷ b ∷ c ∷ rest)
atob_three a b c rest text ha hb hc e = rw (atob_group _ _ _ _ text (last_not_sign (c % 64))) (
    rw e (
      rw (sextet-url_character (a / 4) (omega arith)) (
        rw (sextet-url_character (a % 4 * 16 + b / 16) (omega arith)) (
          rw (sextet-url_character (b % 16 * 4 + c / 64) (omega arith))
            (rw (sextet-url_character (c % 64) (omega arith)) (ground arith))))))

pub atob-base64url :
    (bytes : List ℕ) → All IsByte bytes → atob (padded (base64url bytes)) ≡ some bytes
unfolding base64url padded
atob-base64url [] h = unfold atob in refl
atob-base64url (a ∷ []) (ha, _) = atob_one a ha
atob-base64url (a ∷ b ∷ []) (ha, (hb, _)) = atob_two a b ha hb
atob-base64url (a ∷ b ∷ c ∷ rest) (ha, (hb, (hc, h))) =
    rw (padding_group (length (base64url rest)))
      (atob_three a b c rest _ ha hb hc (atob-base64url rest h))
