-- ===== src/Encoding/Accepted.antt =====
-- Which texts `decodeStrictBase64Url` of src/encoding.ts accepts, and what it gives for them.
use x.Prelude.{
  ℕ, String, true, false, Option, none, some, List, [], ◌∷◌, ok, nat_beq, is_empty, all, any,
  is_base64url, ◌+◌, ◌*◌, ◌<◌, ◌≡◌, ◌↔◌, Bool-cases, inl, inr, ◌≢◌, refl, sym, ◌∙◌, arith, All,
  nat_eq, same_list_iff,
}
use Prim.Native.Nat.{◌/◌, ◌%◌}
use x.Encoding.Base64.{sextet, atob, one_byte, two_bytes, three_bytes}
use x.Encoding.{encode_strict_base64url, padded, decode_strict_base64url, decoded_or_throw}
use x.Encoding.RoundTrip.{
  IsByte, base64url, url_character-is_base64url, encode-base64url, atob-base64url,
}

abbrev Small : Option ℕ → Type 0
Small none = Unit
Small (some n) = n < 64

abbrev AllBytes : Option (List ℕ) → Type 0
AllBytes none = Unit
AllBytes (some bytes) = All IsByte bytes

sextet-Small : (c : ℕ) → Small (sextet c)
sextet-Small c = ground arith

one_byte-AllBytes : (s t : Option ℕ) → Small s → Small t → AllBytes (one_byte s t)
one_byte-AllBytes (some s) (some t) hs ht = omega arith
one_byte-AllBytes (some s) none hs ht = tt
one_byte-AllBytes none t hs ht = tt

two_bytes-AllBytes : (s t u : Option ℕ) → Small s → Small t → Small u → AllBytes (two_bytes s t u)
two_bytes-AllBytes (some s) (some t) (some u) hs ht hu = omega arith
two_bytes-AllBytes (some s) (some t) none hs ht hu = tt
two_bytes-AllBytes (some s) none u hs ht hu = tt
two_bytes-AllBytes none t u hs ht hu = tt

three_bytes-AllBytes :
    (s t u v : Option ℕ) (rest : Option (List ℕ))
    → Small s
    → Small t
    → Small u
    → Small v
    → AllBytes rest
    → AllBytes (three_bytes s t u v rest)
three_bytes-AllBytes (some s) (some t) (some u) (some v) (some rest) hs ht hu hv h =
    (omega arith, (omega arith, (omega arith, h)))
three_bytes-AllBytes (some s) (some t) (some u) (some v) none hs ht hu hv h = tt
three_bytes-AllBytes (some s) (some t) (some u) none rest hs ht hu hv h = tt
three_bytes-AllBytes (some s) (some t) none v rest hs ht hu hv h = tt
three_bytes-AllBytes (some s) none u v rest hs ht hu hv h = tt
three_bytes-AllBytes none t u v rest hs ht hu hv h = tt

atob-AllBytes : (text : List ℕ) → AllBytes (atob text)
unfolding atob
atob-AllBytes [] = tt
atob-AllBytes (c ∷ []) = tt
atob-AllBytes (c ∷ d ∷ []) = one_byte-AllBytes _ _ (sextet-Small c) (sextet-Small d)
atob-AllBytes (c ∷ d ∷ e ∷ []) =
    two_bytes-AllBytes _ _ _ (sextet-Small c) (sextet-Small d) (sextet-Small e)
atob-AllBytes (c ∷ d ∷ e ∷ f ∷ []) = elim (Bool-cases (nat_beq f b'=')) [
  | inl sign ↦ elim (Bool-cases (nat_beq e b'=')) [
    | inl signs ↦ rw (sign, signs) (one_byte-AllBytes _ _ (sextet-Small c) (sextet-Small d))
    | inr one ↦
        rw (sign, one) (two_bytes-AllBytes _ _ _ (sextet-Small c) (sextet-Small d) (sextet-Small e))
  ]
  | inr full ↦ rw full (
      three_bytes-AllBytes _ _ _ _ (some []) (sextet-Small c) (sextet-Small d) (sextet-Small e)
        (sextet-Small f) tt)
]
atob-AllBytes (c ∷ d ∷ e ∷ f ∷ g ∷ rest) =
    three_bytes-AllBytes _ _ _ _ _ (sextet-Small c) (sextet-Small d) (sextet-Small e)
      (sextet-Small f) (atob-AllBytes (g ∷ rest))

base64url-All : (bytes : List ℕ) → All (λ c. is_base64url c ≡ true) (base64url bytes)
unfolding base64url
base64url-All [] = tt
base64url-All (a ∷ []) =
    (url_character-is_base64url (a / 4), (url_character-is_base64url (a % 4 * 16), tt))
base64url-All (a ∷ b ∷ []) = (
  url_character-is_base64url (a / 4),
  (url_character-is_base64url (a % 4 * 16 + b / 16), (url_character-is_base64url (b % 16 * 4), tt)),
)
base64url-All (a ∷ b ∷ c ∷ rest) = (
  url_character-is_base64url (a / 4),
  (
    url_character-is_base64url (a % 4 * 16 + b / 16),
    (
      url_character-is_base64url (b % 16 * 4 + c / 64),
      (url_character-is_base64url (c % 64), base64url-All rest),
    ),
  ),
)

all-All : (text : List ℕ) → All (λ c. is_base64url c ≡ true) text → all is_base64url text ≡ true
all-All [] h = refl
all-All (c ∷ cs) (first, h) = rw first (all-All cs h)

pub base64url-is_base64url : (bytes : List ℕ) → all is_base64url (base64url bytes) ≡ true
base64url-is_base64url bytes = all-All _ (base64url-All bytes)

no_sign : (text : List ℕ) → all is_base64url text ≡ true → any (λ c. nat_beq c b'=') text ≡ false
no_sign [] h = refl
no_sign (c ∷ cs) h = ground (arith, no_sign cs)

base64url-is_empty : (bytes : List ℕ) → bytes ≢ [] → is_empty (base64url bytes) ≡ false
unfolding base64url
base64url-is_empty [] h = absurd (h refl)
base64url-is_empty (a ∷ []) h = refl
base64url-is_empty (a ∷ b ∷ []) h = refl
base64url-is_empty (a ∷ b ∷ c ∷ rest) h = refl

decode-base64url :
    (bytes : List ℕ) (label : String)
    → bytes ≢ []
    → All IsByte bytes
    → decode_strict_base64url (base64url bytes) label ≡ ok bytes
unfolding decode_strict_base64url
decode-base64url bytes label nonempty h =
    rw
      (
        base64url-is_empty bytes nonempty,
        no_sign _ (base64url-is_base64url bytes),
        base64url-is_base64url bytes,
        atob-base64url bytes h,
        encode-base64url bytes,
        (same_list_iff (base64url bytes) (base64url bytes)).1 refl,
      )
      refl

decoded :
    (label : String) (o : Option (List ℕ)) {bytes : List ℕ}
    → decoded_or_throw label o ≡ ok bytes
    → o ≡ some bytes
decoded label none h = cc
decoded label (some bytes) h = cc

pub decode_returned :
    (value bytes : List ℕ) (label : String)
    → decode_strict_base64url value label ≡ ok bytes
    → (is_empty value ≡ false)
      × (atob (padded value) ≡ some bytes)
      × (encode_strict_base64url bytes ≡ value)
unfolding decode_strict_base64url
decode_returned value bytes label h =
    ground (arith, same_list_iff (encode_strict_base64url bytes) value)

not_empty : (bytes : List ℕ) → is_empty (base64url bytes) ≡ false → bytes ≢ []
unfolding base64url
not_empty [] h = cc
not_empty (a ∷ bytes) h = λ p. ground arith

-- `decodeStrictBase64Url` returns some bytes exactly for the text that RFC 4648 gives for them:
-- the bytes are not empty, each is below 256, and no other text decodes to them.
pub decode_iff :
    (value bytes : List ℕ) (label : String)
    → (decode_strict_base64url value label ≡ ok bytes)
      ↔ ((bytes ≢ []) × All IsByte bytes × (value ≡ base64url bytes))
decode_iff value bytes label = (
  λ h.
      let (nonempty, found, e) = decode_returned value bytes label h in
      let same : value ≡ base64url bytes = sym e ∙ encode-base64url bytes in
      let whole : AllBytes (some bytes) = rw found at (atob-AllBytes (padded value)) in
      (not_empty bytes (rw same at nonempty), whole, same),
  λ (nonempty, whole, same). rw same (decode-base64url bytes label nonempty whole),
)

pub encode-nonempty :
    (bytes : List ℕ) → bytes ≢ [] → is_empty (encode_strict_base64url bytes) ≡ false
encode-nonempty bytes h = rw (encode-base64url bytes) (base64url-is_empty bytes h)
