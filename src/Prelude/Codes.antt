-- ===== src/Prelude/Codes.antt =====
-- Texts and their code points.
use Prim.Native.Nat.{ℕ}
use Prim.Native.Char.{code}
use Prim.Native.String.{String}
use mathlib.Core.Path.{◌≡◌, refl}
use mathlib.Core.Logic.{◌≢◌}
use mathlib.Core.List.{List, [], ◌∷◌, ◌++◌}
use native.Mathlib.Omega.{arith}
use text.Mathlib.TextEquality.{Char-path}
use text.Mathlib.TextLemmas.{nil-append, cons-append}
use x.Prelude.Texts.{codes, ◌<>◌}
use x.Prelude.Lists.{All}

pub codes_injective : (s t : String) → codes s ≡ codes t → s ≡ t
codes_injective String.[] String.[] h = refl
codes_injective String.[] (String.◌∷◌ d t) h = cc
codes_injective (String.◌∷◌ c s) String.[] h = cc
codes_injective (String.◌∷◌ c s) (String.◌∷◌ d t) h =
    let heads : code c ≡ code d = ground arith in
    let tails : codes s ≡ codes t = ground arith in
    cc (Char-path c d heads, codes_injective s t tails)

pub codes-append : (s t : String) → codes (s <> t) ≡ codes s ++ codes t
codes-append String.[] t = rw nil-append refl
codes-append (String.◌∷◌ c s) t = rw cons-append (rw (codes-append s t) refl)

-- Two lists are split in the same way at the first place where the mark stands.
pub split_at :
    (mark : ℕ) (a b r q : List ℕ)
    → All (λ c. c ≢ mark) a
    → All (λ c. c ≢ mark) b
    → a ++ (mark ∷ r) ≡ b ++ (mark ∷ q)
    → (a ≡ b) × (r ≡ q)
split_at mark [] [] r q h k e = (refl, ground arith)
split_at mark [] (d ∷ b) r q h k e = absurd (ground arith)
split_at mark (c ∷ a) [] r q h k e = absurd (ground arith)
split_at mark (c ∷ a) (d ∷ b) r q (_, h) (_, k) e = ground (arith, split_at mark a b r q h k)

-- `Array.prototype.join` with a separator of one character.
unfoldable pub join : ℕ → List String → List ℕ
join separator [] = []
join separator (s ∷ []) = codes s
join separator (s ∷ t ∷ l) = codes s ++ (separator ∷ join separator (t ∷ l))
