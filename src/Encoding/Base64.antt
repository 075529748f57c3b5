-- ===== src/Encoding/Base64.antt =====
-- `btoa` and `atob` of the platform, as src/encoding.ts uses them: the standard alphabet, four
-- characters for three bytes, and the final group filled up with equals signs. `atob` also takes a
-- final group that is not filled up; white space does not come before it, so it is not skipped.
use x.Prelude.{
  ℕ, Option, none, some, List, [], ◌∷◌, nat_beq, ltb, is_upper, is_lower, is_digit, if◌then◌else◌,
  ◌+◌, ◌-◌, ◌*◌,
}
use Prim.Native.Nat.{◌/◌, ◌%◌}

-- The character of a number below 64.
abbrev pub character : ℕ → ℕ
character n =
    if ltb n 26
    then n + 65
    else if ltb n 52
    then n + 71
    else if ltb n 62
    then n - 4
    else if nat_beq n 62
    then b'+'
    else b'/'

-- The number of a character of the alphabet.
abbrev pub sextet : ℕ → Option ℕ
sextet c =
    if is_upper c
    then some (c - 65)
    else if is_lower c
    then some (c - 71)
    else if is_digit c
    then some (c + 4)
    else if nat_beq c b'+'
    then some 62
    else if nat_beq c b'/'
    then some 63
    else none

unfoldable pub btoa : List ℕ → List ℕ
btoa [] = []
btoa (a ∷ []) = character (a / 4) ∷ character (a % 4 * 16) ∷ b'=' ∷ b'=' ∷ []
btoa (a ∷ b ∷ []) =
    character (a / 4) ∷ character (a % 4 * 16 + b / 16) ∷ character (b % 16 * 4) ∷ b'=' ∷ []
btoa (a ∷ b ∷ c ∷ rest) =
    character (a / 4)
    ∷ character (a % 4 * 16 + b / 16)
    ∷ character (b % 16 * 4 + c / 64)
    ∷ character (c % 64)
    ∷ btoa rest

-- The bytes of two, three and four characters; the bits that are left over are dropped.
abbrev pub one_byte : Option ℕ → Option ℕ → Option (List ℕ)
one_byte (some s) (some t) = some ((s * 4 + t / 16) ∷ [])
one_byte (some s) none = none
one_byte none t = none

abbrev pub two_bytes : Option ℕ → Option ℕ → Option ℕ → Option (List ℕ)
two_bytes (some s) (some t) (some u) = some ((s * 4 + t / 16) ∷ (t % 16 * 16 + u / 4) ∷ [])
two_bytes (some s) (some t) none = none
two_bytes (some s) none u = none
two_bytes none t u = none

abbrev pub three_bytes :
    Option ℕ → Option ℕ → Option ℕ → Option ℕ → Option (List ℕ) → Option (List ℕ)
three_bytes (some s) (some t) (some u) (some v) (some rest) =
    some ((s * 4 + t / 16) ∷ (t % 16 * 16 + u / 4) ∷ (u % 4 * 64 + v) ∷ rest)
three_bytes (some s) (some t) (some u) (some v) none = none
three_bytes (some s) (some t) (some u) none rest = none
three_bytes (some s) (some t) none v rest = none
three_bytes (some s) none u v rest = none
three_bytes none t u v rest = none

-- The final four characters, the last of which may be equals signs.
abbrev last_group : ℕ → ℕ → ℕ → ℕ → Option (List ℕ)
last_group c d e f =
    if nat_beq f b'='
    then if nat_beq e b'='
      then one_byte (sextet c) (sextet d)
      else two_bytes (sextet c) (sextet d) (sextet e)
    else three_bytes (sextet c) (sextet d) (sextet e) (sextet f) (some [])

unfoldable pub atob : List ℕ → Option (List ℕ)
atob [] = some []
atob (c ∷ []) = none
atob (c ∷ d ∷ []) = one_byte (sextet c) (sextet d)
atob (c ∷ d ∷ e ∷ []) = two_bytes (sextet c) (sextet d) (sextet e)
atob (c ∷ d ∷ e ∷ f ∷ []) = last_group c d e f
atob (c ∷ d ∷ e ∷ f ∷ g ∷ rest) =
    three_bytes (sextet c) (sextet d) (sextet e) (sextet f) (atob (g ∷ rest))
