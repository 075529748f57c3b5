-- ===== src/Tokens/Framing.antt =====
-- The three parts of a token of src/result-token.ts, joined by points and split again.
use x.Prelude.{
  ℕ, true, false, List, [], ◌∷◌, ◌++◌, ◌≡◌, refl, arith, All, all, is_base64url, nat_beq,
}
use x.Encoding.{encode_strict_base64url}
use x.Encoding.RoundTrip.{encode-base64url, base64url}
use x.Encoding.Accepted.{base64url-is_base64url}
use x.Tokens.External.{split}

-- No point stands in the text.
abbrev pub HasNoPoint : List ℕ → Type 0
HasNoPoint text = All (λ c. nat_beq c b'.' ≡ false) text

no_point : (text : List ℕ) → all is_base64url text ≡ true → HasNoPoint text
no_point [] h = tt
no_point (c ∷ text) h = (ground arith, no_point text (ground arith))

pub encode-HasNoPoint : (bytes : List ℕ) → HasNoPoint (encode_strict_base64url bytes)
encode-HasNoPoint bytes =
    rw (encode-base64url bytes) (no_point (base64url bytes) (base64url-is_base64url bytes))

split_last : (text : List ℕ) → HasNoPoint text → split b'.' text ≡ text ∷ []
unfolding split
split_last [] h = refl
split_last (c ∷ text) (first, h) = rw first (rw (split_last text h) refl)

split_part :
    (text rest : List ℕ)
    → HasNoPoint text
    → split b'.' (text ++ (b'.' ∷ rest)) ≡ text ∷ split b'.' rest
unfolding split
split_part [] rest h = refl
split_part (c ∷ text) rest (first, h) = rw first (rw (split_part text rest h) refl)

append_again : (a b c : List ℕ) → (a ++ b) ++ c ≡ a ++ (b ++ c)
append_again [] b c = refl
append_again (x ∷ a) b c = cc (append_again a b c)

pub split_three :
    (header payload signature : List ℕ)
    → HasNoPoint header
    → HasNoPoint payload
    → HasNoPoint signature
    → split b'.' ((header ++ (b'.' ∷ payload)) ++ (b'.' ∷ signature))
      ≡ header ∷ payload ∷ signature ∷ []
split_three header payload signature hh hp hs =
    rw (append_again header (b'.' ∷ payload) (b'.' ∷ signature)) (
      rw (split_part header (payload ++ (b'.' ∷ signature)) hh)
        (rw (split_part payload signature hp) (rw (split_last signature hs) refl)))
