-- ===== src/Issuance/Reading.antt =====
-- The strings, the lists and the grants that src/auth/issuance.ts reads from a principal are valid.
use x.Prelude.{
  ℕ, String, ◌||◌, not, is_some, Option, none, some, List, Result, ok, throw_if, All, ◌≡◌, inl, inr,
  arith, Bool-cases, Option-cases, >>=-eq-ok,
}
use x.Canonical.Values.{Value, Elements}
use x.Transport.Urls.{found_or}
use x.Issuance.Principal.{
  ResourceUriGrant, own, exact_own_keys, is_principal_string, validated_principal_string, longest,
  validated_strings, validated_principal_string_array, invalid, validated_grant, validated_grants,
  validated_resources, validated_issuer, grant_keys,
}
use x.Issuance.Snapshot.{IsString, IsMissingOrString, IsValidGrant}

-- What is returned has the properties of what it was made of.
pub of_ok {ℓ} : {A : Type ℓ} (P : A → Type 0) {a b : A} → Result.ok a ≡ ok b → P a → P b
of_ok P {a} {b} h x = let e : a ≡ b = ground (arith, h) in rw (← e) x

found_or-eq-ok {ℓ} :
    {A : Type ℓ} (message : String) (o : Option A) {a : A} → found_or message o ≡ ok a → o ≡ some a
found_or-eq-ok message none h = cc
found_or-eq-ok message (some b) h = cc

validated-IsString :
    (maximum : ℕ) (value : Option Value) {s : String}
    → validated_principal_string maximum value ≡ some s
    → IsString maximum s
unfolding validated_principal_string
validated-IsString maximum none h = cc
validated-IsString maximum (some (Value.str t)) h =
    elim (Bool-cases (is_principal_string maximum t)) [
      | inl e ↦ let same : some t ≡ some _ = rw e at h in ground (arith, e, same)
      | inr e ↦ absurd (ground (arith, e, h))
    ]
validated-IsString maximum (some Value.undefined) h = cc
validated-IsString maximum (some Value.null) h = cc
validated-IsString maximum (some (Value.bool b)) h = cc
validated-IsString maximum (some (Value.num n)) h = cc
validated-IsString maximum (some Value.not_finite) h = cc
validated-IsString maximum (some (Value.arr e)) h = cc
validated-IsString maximum (some (Value.obj p)) h = cc
validated-IsString maximum (some (Value.bytes b)) h = cc
validated-IsString maximum (some Value.instance_of_class) h = cc
validated-IsString maximum (some (Value.other t)) h = cc

-- What holds of the value, if there is one.
abbrev WhenSome {ℓ} : {A : Type ℓ} → (A → Type 0) → Option A → Type 0
WhenSome P none = Unit
WhenSome P (some a) = P a

WhenSome-some {ℓ} :
    {A : Type ℓ} (P : A → Type 0) (o : Option A) {a : A} → WhenSome P o → o ≡ some a → P a
WhenSome-some P o h e = rw e at h

strings_valid :
    (elements : Elements) → WhenSome (All (IsString longest)) (validated_strings elements)
unfolding validated_strings
strings_valid Elements.nil = tt
strings_valid (Elements.cons value rest) =
    elim (Option-cases (validated_principal_string longest (some value))) [
      | inl e ↦ rw e tt
      | inr (s, e) ↦ elim (Option-cases (validated_strings rest)) [
        | inl d ↦ rw (e, d) tt
        | inr (strings, d) ↦
            rw (e, d)
              (
                validated-IsString longest (some value) e,
                WhenSome-some (All (IsString longest)) (validated_strings rest) (strings_valid rest)
                    d,
              )
      ]
    ]

pub array_valid :
    (value : Option Value) {strings : List String}
    → found_or invalid (validated_principal_string_array value) ≡ ok strings
    → All (IsString longest) strings
unfolding validated_principal_string_array
array_valid (some (Value.arr elements)) h =
    WhenSome-some (All (IsString longest)) (validated_strings elements) (strings_valid elements)
      (found_or-eq-ok invalid (validated_strings elements) h)
array_valid none h = cc
array_valid (some (Value.str t)) h = cc
array_valid (some Value.undefined) h = cc
array_valid (some Value.null) h = cc
array_valid (some (Value.bool b)) h = cc
array_valid (some (Value.num n)) h = cc
array_valid (some Value.not_finite) h = cc
array_valid (some (Value.obj p)) h = cc
array_valid (some (Value.bytes b)) h = cc
array_valid (some Value.instance_of_class) h = cc
array_valid (some (Value.other t)) h = cc

-- One string of a record that was read with success.
pub read_valid :
    (maximum : ℕ) (value : Option Value) {s : String}
    → found_or invalid (validated_principal_string maximum value) ≡ ok s
    → IsString maximum s
read_valid maximum value h =
    validated-IsString maximum value
      (found_or-eq-ok invalid (validated_principal_string maximum value) h)

pub issuer_valid :
    (value : Option Value) {issuer : Option String}
    → validated_issuer value ≡ ok issuer
    → IsMissingOrString issuer
unfolding validated_issuer
issuer_valid none h = of_ok IsMissingOrString h tt
issuer_valid (some value) h =
    let (s, read, same) =
      >>=-eq-ok (found_or invalid (validated_principal_string longest (some value))) _ h in
    of_ok IsMissingOrString same (read_valid longest (some value) read)

grant_valid :
    (value : Value) {grant : ResourceUriGrant}
    → validated_grant value ≡ ok grant
    → IsValidGrant grant
unfolding validated_grant
grant_valid (Value.obj entry) h =
    let (done, checked, h1) =
      >>=-eq-ok
        (throw_if
          (not (exact_own_keys entry grant_keys)
            || not (is_some (own "origin" entry))
            || not (is_some (own "pathPrefix" entry)))
          invalid)
        _ h in
    let (origin, o, h2) =
      >>=-eq-ok (found_or invalid (validated_principal_string longest (own "origin" entry))) _ h1 in
    let (path, q, same) =
      >>=-eq-ok (found_or invalid (validated_principal_string longest (own "pathPrefix" entry))) _
        h2 in
    of_ok IsValidGrant same
      (read_valid longest (own "origin" entry) o, read_valid longest (own "pathPrefix" entry) q)
grant_valid (Value.str t) h = cc
grant_valid Value.undefined h = cc
grant_valid Value.null h = cc
grant_valid (Value.bool b) h = cc
grant_valid (Value.num n) h = cc
grant_valid Value.not_finite h = cc
grant_valid (Value.arr p) h = cc
grant_valid (Value.bytes b) h = cc
grant_valid Value.instance_of_class h = cc
grant_valid (Value.other t) h = cc

grants_valid :
    (elements : Elements) {grants : List ResourceUriGrant}
    → validated_grants elements ≡ ok grants
    → All IsValidGrant grants
unfolding validated_grants
grants_valid Elements.nil h = of_ok (All IsValidGrant) h tt
grants_valid (Elements.cons entry rest) h =
    let (grant, g, h1) = >>=-eq-ok (validated_grant entry) _ h in
    let (grants, gs, same) = >>=-eq-ok (validated_grants rest) _ h1 in
    of_ok (All IsValidGrant) same (grant_valid entry g, grants_valid rest gs)

pub resources_valid :
    (value : Option Value) {grants : List ResourceUriGrant}
    → validated_resources value ≡ ok grants
    → All IsValidGrant grants
unfolding validated_resources
resources_valid (some (Value.arr elements)) h = grants_valid elements h
resources_valid none h = cc
resources_valid (some (Value.str t)) h = cc
resources_valid (some Value.undefined) h = cc
resources_valid (some Value.null) h = cc
resources_valid (some (Value.bool b)) h = cc
resources_valid (some (Value.num n)) h = cc
resources_valid (some Value.not_finite) h = cc
resources_valid (some (Value.obj p)) h = cc
resources_valid (some (Value.bytes b)) h = cc
resources_valid (some Value.instance_of_class) h = cc
resources_valid (some (Value.other t)) h = cc
