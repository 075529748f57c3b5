-- ===== src/Requirements/Accepted.antt =====
-- The loops of `createHumanRequirement` in src/requirements.ts over the accepted methods and over
-- the keys of the provider requests.
use x.Prelude.{
  String, true, false, ◌||◌, List, [], ◌∷◌, map, ok, includes, string_eq, All, ◌≡◌, refl, arith,
  eq_iff, Bool-cases, inl, inr,
}
use x.Types.{HumanMethodRequirement}
use x.Catalog.{is_human_method_identifier, method_key}
use x.Requirements.{add_accepted, check_request_keys}

abbrev pub key_of : HumanMethodRequirement → String
key_of accepted = method_key accepted.provider_id accepted.method_id

abbrev pub HasValidIdentifiers : HumanMethodRequirement → Type 0
HasValidIdentifiers accepted =
    (is_human_method_identifier accepted.provider_id ≡ true)
    × (is_human_method_identifier accepted.method_id ≡ true)

-- No key stands in the list twice.
abbrev pub NoRepeats : List String → Type 0
NoRepeats [] = Unit
NoRepeats (key ∷ keys) = (includes keys key ≡ false) × NoRepeats keys

-- What one round of the loop has checked.
add_accepted_round :
    (keys : List String) (a : HumanMethodRequirement) (accepts : List HumanMethodRequirement)
    {accepted : List String}
    → add_accepted keys (a ∷ accepts) ≡ ok accepted
    → HasValidIdentifiers a
      × (includes keys (key_of a) ≡ false)
      × (add_accepted (key_of a ∷ keys) accepts ≡ ok accepted)
unfolding add_accepted
add_accepted_round keys a accepts h = ground arith

-- What the loop gives back has the keys that it had and those of the methods.
pub add_accepted_keys :
    (keys : List String) (accepts : List HumanMethodRequirement) {accepted : List String}
    → add_accepted keys accepts ≡ ok accepted
    → (key : String)
    → includes accepted key ≡ (includes (map key_of accepts) key || includes keys key)
add_accepted_keys keys [] {accepted} h key = ground (arith, same h)
  where
    same : add_accepted keys [] ≡ ok accepted → keys ≡ accepted
    same e = unfold add_accepted in ground arith
add_accepted_keys keys (a ∷ accepts) h key =
    let (_, _, rest) = add_accepted_round keys a accepts h in
    ground (arith, add_accepted_keys (key_of a ∷ keys) accepts rest key)

abbrev pub AreApart : List String → List String → Type 0
AreApart keys others = All (λ key. includes keys key ≡ false) others

AreApart-head :
    (key : String) (keys others : List String)
    → AreApart (key ∷ keys) others
    → includes others key ≡ false
AreApart-head key keys [] h = refl
AreApart-head key keys (other ∷ others) (first, h) =
    ground (arith, eq_iff key other, eq_iff other key, AreApart-head key keys others h)

AreApart-tail :
    (key : String) (keys others : List String) → AreApart (key ∷ keys) others → AreApart keys others
AreApart-tail key keys [] h = tt
AreApart-tail key keys (other ∷ others) (first, h) = (ground arith, AreApart-tail key keys others h)

pub add_accepted_checked :
    (keys : List String) (accepts : List HumanMethodRequirement) {accepted : List String}
    → add_accepted keys accepts ≡ ok accepted
    → All HasValidIdentifiers accepts
      × NoRepeats (map key_of accepts)
      × AreApart keys (map key_of accepts)
add_accepted_checked keys [] h = (tt, tt, tt)
add_accepted_checked keys (a ∷ accepts) h =
    let (valid, fresh, rest) = add_accepted_round keys a accepts h in
    let (valids, distinct, apart) = add_accepted_checked (key_of a ∷ keys) accepts rest in
    (
      (valid, valids),
      (AreApart-head (key_of a) keys (map key_of accepts) apart, distinct),
      (fresh, AreApart-tail (key_of a) keys (map key_of accepts) apart),
    )

pub check_request_keys_checked :
    (accepted keys : List String)
    → check_request_keys accepted keys ≡ ok tt
    → All (λ key. includes accepted key ≡ true) keys
unfolding check_request_keys
check_request_keys_checked accepted [] h = tt
check_request_keys_checked accepted (key ∷ keys) h = elim (Bool-cases (includes accepted key)) [
  | inl found ↦ (found, check_request_keys_checked accepted keys (rw found at h))
  | inr missing ↦ absurd (ground arith)
]

pub keys_are_accepted :
    (accepted given keys : List String)
    → ((key : String) → includes accepted key ≡ (includes given key || false))
    → All (λ key. includes accepted key ≡ true) keys
    → All (λ key. includes given key ≡ true) keys
keys_are_accepted accepted given [] same h = tt
keys_are_accepted accepted given (key ∷ keys) same (found, h) =
    (ground (arith, same key), keys_are_accepted accepted given keys same h)
