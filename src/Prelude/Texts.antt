-- ===== src/Prelude/Texts.antt =====
-- What the source uses of strings: lengths in UTF-16 code units, prefixes, regular expressions.
use Prim.Native.Nat.{ℕ, ◌+◌, ◌-◌}
use Prim.Native.Char.{Char, char, code, IsScalar}
use Prim.Native.String
use Prim.Native.String.{String}
use mathlib.Core.Path.{◌≡◌, refl}
use mathlib.Core.Bool.{Bool, true, false, ◌&&◌, ◌||◌}
use mathlib.Core.List.{List, [], ◌∷◌, ◌++◌}
use x.Prelude.Tests.{ltb, leb, nat_beq, if◌then◌else◌}
use native.Mathlib.Omega.{arith}
use x.Prelude.Lists.{all, length, drop}

abbrev pub codes : String → List ℕ
codes String.[] = []
codes (String.◌∷◌ c s) = code c ∷ codes s

-- A character outside the basic plane counts as two, as `String.length` counts it.
units : List ℕ → ℕ
units [] = 0
units (c ∷ cs) = (if ltb c 65536 then 1 else 2) + units cs

unfoldable pub utf16_length : String → ℕ
unfolding units
utf16_length s = units (codes s)

abbrev pub is_lower : ℕ → Bool
is_lower c = leb b'a' c && leb c b'z'

abbrev pub is_upper : ℕ → Bool
is_upper c = leb b'A' c && leb c b'Z'

abbrev pub is_digit : ℕ → Bool
is_digit c = leb b'0' c && leb c b'9'

-- `[A-Za-z0-9_-]`
abbrev pub is_base64url : ℕ → Bool
is_base64url c = is_upper c || is_lower c || is_digit c || nat_beq c b'_' || nat_beq c b'-'

-- A prefix followed by exactly 43 characters of base64url.
after_prefix : List ℕ → List ℕ → Bool
after_prefix [] rest = nat_beq (length rest) 43 && all is_base64url rest
after_prefix (p ∷ ps) [] = false
after_prefix (p ∷ ps) (c ∷ cs) = nat_beq p c && after_prefix ps cs

unfoldable pub is_digest : String → String → Bool
unfolding after_prefix
is_digest prefix s = after_prefix (codes prefix) (codes s)

has_prefix : List ℕ → List ℕ → Bool
has_prefix [] cs = true
has_prefix (p ∷ ps) [] = false
has_prefix (p ∷ ps) (c ∷ cs) = nat_beq p c && has_prefix ps cs

-- `String.prototype.startsWith`
unfoldable pub starts_with : String → String → Bool
unfolding has_prefix
starts_with s prefix = has_prefix (codes prefix) (codes s)

-- `+` on strings.
infixr 65 ◌<>◌
abbrev pub ◌<>◌ : String → String → String
a <> b = String.◌++◌ a b

has_prefix_rest : (ps cs : List ℕ) → has_prefix ps cs ≡ true → cs ≡ ps ++ drop (length ps) cs
unfolding has_prefix
has_prefix_rest [] cs h = refl
has_prefix_rest (p ∷ ps) [] h = cc
has_prefix_rest (p ∷ ps) (c ∷ cs) h = ground (arith, has_prefix_rest ps cs)

has_prefix-append : (ps rest : List ℕ) → has_prefix ps (ps ++ rest) ≡ true
unfolding has_prefix
has_prefix-append [] rest = refl
has_prefix-append (p ∷ ps) rest = ground (arith, has_prefix-append ps rest)

after_prefix-append :
    (ps rest : List ℕ)
    → after_prefix ps (ps ++ rest) ≡ (nat_beq (length rest) 43 && all is_base64url rest)
unfolding after_prefix
after_prefix-append [] rest = refl
after_prefix-append (p ∷ ps) rest = ground (arith, after_prefix-append ps rest)

-- A text that starts with a prefix is the prefix and the rest.
pub starts_with_rest :
    (s prefix : String)
    → starts_with s prefix ≡ true
    → codes s ≡ codes prefix ++ drop (length (codes prefix)) (codes s)
unfolding starts_with
starts_with_rest s prefix h = has_prefix_rest (codes prefix) (codes s) h

pub starts_with-append :
    (s prefix : String) (rest : List ℕ)
    → codes s ≡ codes prefix ++ rest
    → starts_with s prefix ≡ true
unfolding starts_with
starts_with-append s prefix rest e = rw e (has_prefix-append (codes prefix) rest)

pub is_digest-append :
    (s prefix : String) (rest : List ℕ)
    → codes s ≡ codes prefix ++ rest
    → is_digest prefix s ≡ (nat_beq (length rest) 43 && all is_base64url rest)
unfolding is_digest
is_digest-append s prefix rest e = rw e (after_prefix-append (codes prefix) rest)

-- The capital of a small letter of ASCII is a character.
pub capital-IsScalar : (n : ℕ) → is_lower n ≡ true → IsScalar (n - 32)
capital-IsScalar n h = ground arith

capital_if : (c : Char) (small : Bool) → is_lower (code c) ≡ small → Char
capital_if c true h = char (code c - 32) (capital-IsScalar (code c) h)
capital_if c false h = c

-- `String.prototype.toUpperCase` on the letters of ASCII, which HTTP methods consist of.
unfoldable pub to_upper_case : String → String
unfolding capital_if
to_upper_case String.[] = String.[]
to_upper_case (String.◌∷◌ c s) =
    String.◌∷◌ (capital_if c (is_lower (code c)) refl) (to_upper_case s)
