-- ===== src/Prelude/Results.antt =====
-- What a call returns or throws. An error is the message of the `Error` that the source throws.
use Prim.Native.String.{String}
use mathlib.Core.Path.{◌≡◌, refl}
use mathlib.Core.Logic.{◌⊎◌, inl, inr}
use mathlib.Core.Bool.{Bool, true, false}

pub data Result {ℓ} (A : Type ℓ) : Type ℓ where
  ok : A → Result A
  err : String → Result A

-- `if (refused) throw new Error(message)`
abbrev pub throw_if : Bool → String → Result (Unit {0})
throw_if refused message = elim refused [ true ↦ err message | false ↦ ok tt ]

infixl 5 ◌>>=◌
abbrev pub ◌>>=◌ {ℓ κ} :
    {A : Type ℓ} {B : Type κ} (first : Result A) (next : A → Result B) → Result B
ok value >>= next = next value
err message >>= next = err message

abbrev pub is_ok {ℓ} : {A : Type ℓ} → Result A → Bool
is_ok (ok a) = true
is_ok (err e) = false

infixl 5 ◌>>◌
abbrev pub ◌>>◌ {ℓ} : {B : Type ℓ} (first : Result (Unit {0})) (rest : Result B) → Result B
first >> rest = first >>= λ done. rest

-- What the first part of a call gave, if the call returned.
pub >>=-eq-ok {ℓ κ} :
    {A : Type ℓ} {B : Type κ} (first : Result A) (next : A → Result B) {last : B}
    → (first >>= next) ≡ ok last
    → (value : A) × (first ≡ ok value) × (next value ≡ ok last)
>>=-eq-ok (err message) next returned = cc
>>=-eq-ok (ok value) next returned = (value, refl, returned)

pub throw_if-eq-ok : (b : Bool) (message : String) → throw_if b message ≡ ok tt → b ≡ false
throw_if-eq-ok true message h = cc
throw_if-eq-ok false message h = refl

pub Result-cases {ℓ} :
    {A : Type ℓ} (r : Result A) → ((a : A) × (r ≡ ok a)) ⊎ ((message : String) × (r ≡ err message))
Result-cases (ok a) = inl (a, refl)
Result-cases (err message) = inr (message, refl)
