-- ===== src/Prelude/Lists.antt =====
-- Lists over the native numbers, and predicates on all elements.
use Prim.Native.Nat.{ℕ, zero, suc, ◌+◌}
use mathlib.Core.Path.{◌≡◌, refl}
use mathlib.Core.Logic.{◌↔◌}
use mathlib.Core.Bool.{Bool, true, false, ◌&&◌, ◌||◌}
use mathlib.Core.Option.{Option, none, some}
use mathlib.Core.List.{List, [], ◌∷◌, ◌++◌}
use native.Mathlib.Omega.{arith}
use x.Prelude.Tests.{Eq, ◌==◌, if◌then◌else◌}

module _ {ℓ} {A : Type ℓ} where
  abbrev pub length : List A → ℕ
  length [] = 0
  length (a ∷ as') = suc (length as')

  abbrev pub all : (A → Bool) → List A → Bool
  all p [] = true
  all p (a ∷ l) = p a && all p l

  abbrev pub is_empty : List A → Bool
  is_empty [] = true
  is_empty (a ∷ l) = false

  -- `Array.prototype.find`
  abbrev pub find : (A → Bool) → List A → Option A
  find p [] = none
  find p (a ∷ l) = if p a then some a else find p l

  -- `Array.prototype.filter`
  abbrev pub keep : (A → Bool) → List A → List A
  keep p [] = []
  keep p (a ∷ l) = if p a then a ∷ keep p l else keep p l

  -- `slice(count)`
  abbrev pub drop : ℕ → List A → List A
  drop zero l = l
  drop (suc count) [] = []
  drop (suc count) (a ∷ l) = drop count l

  pub length-append : (l m : List A) → length (l ++ m) ≡ length l + length m
  length-append [] m = omega arith
  length-append (a ∷ l) m = omega (arith, length-append l m)

module _ {ℓ} {A : Type ℓ} ⦃e : Eq A⦄ where
  -- `Array.prototype.includes`
  abbrev pub includes : List A → A → Bool
  includes [] a = false
  includes (b ∷ l) a = b == a || includes l a

  -- The same elements in the same order.
  abbrev pub same_list : List A → List A → Bool
  same_list [] [] = true
  same_list [] (b ∷ m) = false
  same_list (a ∷ l) [] = false
  same_list (a ∷ l) (b ∷ m) = a == b && same_list l m

abbrev pub All {ℓ κ} : {A : Type ℓ} → (A → Type κ) → List A → Type κ
All P [] = Unit
All P (a ∷ l) = P a × All P l

module _ {ℓ} {A : Type ℓ} ⦃e : Eq A⦄ where
  same_list_sound : (l m : List A) → same_list l m ≡ true → l ≡ m
  same_list_sound [] [] h = refl
  same_list_sound [] (b ∷ m) h = absurd (ground arith)
  same_list_sound (a ∷ l) [] h = absurd (ground arith)
  same_list_sound (a ∷ l) (b ∷ m) h = ground (arith, e.beq_iff a b, same_list_sound l m)

  same_list_self : (l : List A) → same_list l l ≡ true
  same_list_self [] = refl
  same_list_self (a ∷ l) = ground (arith, e.beq_iff a a, same_list_self l)

  pub same_list_iff : (l m : List A) → (same_list l m ≡ true) ↔ (l ≡ m)
  same_list_iff l m = (same_list_sound l m, λ p. rw p (same_list_self m))

  pub includes-append :
      (l m : List A) (a : A) → includes (l ++ m) a ≡ (includes l a || includes m a)
  includes-append [] m a = refl
  includes-append (b ∷ l) m a = ground (arith, includes-append l m a)

abbrev pub any {ℓ} : {A : Type ℓ} → (A → Bool) → List A → Bool
any p [] = false
any p (a ∷ l) = p a || any p l
