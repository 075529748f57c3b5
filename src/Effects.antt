-- ===== src/Effects.antt =====
-- Calls that change a state and may throw. A state that is changed before an error stays changed.
use x.Prelude.{String, Bool, true, false, ◌≡◌, refl, Result, ok, err, arith}

abbrev pub Eff : Type 0 → Type 0 → Type 0
Eff S A = S → S × Result A

abbrev pub continue : {S A B : Type 0} → S × Result A → (A → Eff S B) → S × Result B
continue (s, ok a) f = f a s
continue (s, err e) f = (s, err e)

infixl 5 ◌>>=◌ ◌>>◌
abbrev pub ◌>>=◌ : {S A B : Type 0} → Eff S A → (A → Eff S B) → Eff S B
◌>>=◌ m f s = continue (m s) f

abbrev pub ◌>>◌ : {S B : Type 0} → Eff S (Unit {0}) → Eff S B → Eff S B
m >> k = m >>= λ _. k

abbrev pub lift : {S A : Type 0} → Result A → Eff S A
lift r s = (s, r)

-- `if (refused) throw new Error(message)`
abbrev pub throw_when : {S : Type 0} → Bool → String → Eff S (Unit {0})
throw_when true message s = (s, err message)
throw_when false message s = (s, ok tt)

continue-eq-ok :
    {S A B : Type 0} (p : S × Result A) (f : A → Eff S B) {t : S} {b : B}
    → continue p f ≡ (t, ok b)
    → (s : S) × (a : A) × (p ≡ (s, ok a)) × (f a s ≡ (t, ok b))
continue-eq-ok (s, ok a) f h = (s, a, refl, h)
continue-eq-ok (s, err e) f h = absurd (ground arith)

-- What the parts of a call did that returned.
pub >>=-eq-ok :
    {S A B : Type 0} (m : Eff S A) (f : A → Eff S B) (s : S) {t : S} {b : B}
    → (m >>= f) s ≡ (t, ok b)
    → (u : S) × (a : A) × (m s ≡ (u, ok a)) × (f a u ≡ (t, ok b))
>>=-eq-ok m f s h = continue-eq-ok (m s) f h

-- A guard that did not throw.
pub throw_when-eq-ok :
    {S A : Type 0} (refused : Bool) (message : String) (rest : Unit {0} → Eff S A) (s : S) {t : S}
    {a : A}
    → (throw_when refused message >>= rest) s ≡ (t, ok a)
    → (refused ≡ false) × (rest tt s ≡ (t, ok a))
throw_when-eq-ok true message rest s h = absurd (ground arith)
throw_when-eq-ok false message rest s h = (refl, h)

-- A value that was found without a step.
pub lift-eq-ok :
    {S A B : Type 0} (r : Result A) (rest : A → Eff S B) (s : S) {t : S} {b : B}
    → (lift r >>= rest) s ≡ (t, ok b)
    → (a : A) × (r ≡ ok a) × (rest a s ≡ (t, ok b))
lift-eq-ok (ok a) rest s h = (a, refl, h)
lift-eq-ok (err message) rest s h = absurd (ground arith)
