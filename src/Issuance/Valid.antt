-- ===== src/Issuance/Valid.antt =====
-- What `validateIssuancePrincipal` of src/auth/issuance.ts returns passes the same checks again, as
-- in `authorizeIssuance`.
use x.Prelude.{
  String, true, false, not, is_some, ◌∷◌, ok, ◌>>◌, throw_if, any, ◌≡◌, inl, inr, Bool-cases,
  >>=-eq-ok,
}
use x.Canonical.Values.{Value, Properties}
use x.Transport.Urls.{found_or}
use x.Issuance.Principal.{
  AnyIssuancePrincipal, own, exact_own_keys, validated_principal_string,
  validated_principal_string_array, invalid, validated_resources, validated_issuer, is_true,
  validated_scoped, validate_issuance_principal, wildcard_keys, required_keys,
}
use x.Issuance.Snapshot.{IsString, IsValid, snapshot, valid_again}
use x.Issuance.Reading.{of_ok, array_valid, read_valid, issuer_valid, resources_valid}

scoped-IsValid :
    (input : Properties) (subject : String) {p : AnyIssuancePrincipal}
    → IsString 512 subject
    → validated_scoped input subject ≡ ok p
    → IsValid p
unfolding validated_scoped
scoped-IsValid input subject valid h =
    let (t, k, h1) =
      >>=-eq-ok
        (throw_if (not (exact_own_keys input ("subject" ∷ "issuer" ∷ required_keys))) invalid) _
        h in
    let (u, m, h2) =
      >>=-eq-ok
        (throw_if (any (λ required. not (is_some (own required input))) required_keys) invalid) _
        h1 in
    let (issuer, i, h3) = >>=-eq-ok (validated_issuer (own "issuer" input)) _ h2 in
    let (pu, p, h4) =
      >>=-eq-ok (found_or invalid (validated_principal_string_array (own "allowedPurposes" input)))
        _ h3 in
    let (au, a, h5) =
      >>=-eq-ok (found_or invalid (validated_principal_string_array (own "allowedAudiences" input)))
        _ h4 in
    let (ht, b, h6) =
      >>=-eq-ok
        (found_or invalid (validated_principal_string_array (own "allowedHttpMethods" input))) _
        h5 in
    let (me, c, h7) =
      >>=-eq-ok (found_or invalid (validated_principal_string_array (own "allowedMethods" input))) _
        h6 in
    let (re, r, same) = >>=-eq-ok (validated_resources (own "allowedResources" input)) _ h7 in
    of_ok IsValid same (record {
      subject = valid;
      issuer = issuer_valid (own "issuer" input) i;
      purposes = array_valid (own "allowedPurposes" input) p;
      audiences = array_valid (own "allowedAudiences" input) a;
      http_methods = array_valid (own "allowedHttpMethods" input) b;
      methods = array_valid (own "allowedMethods" input) c;
      resources = resources_valid (own "allowedResources" input) r;
    })

branch-IsValid :
    (input : Properties) (subject : String) {p : AnyIssuancePrincipal}
    → IsString 512 subject
    → (elim (is_true (own "__devWildcardIssuance" input)) [
      | true ↦
          throw_if (not (exact_own_keys input wildcard_keys)) invalid
          >> ok (AnyIssuancePrincipal.dev_wildcard subject)
      | false ↦ validated_scoped input subject
    ])
      ≡ ok p
    → IsValid p
branch-IsValid input subject valid h =
    elim (Bool-cases (is_true (own "__devWildcardIssuance" input))) [
      | inl e ↦
          let (t, k, same) =
            >>=-eq-ok (throw_if (not (exact_own_keys input wildcard_keys)) invalid) _ (rw e at h) in
          of_ok IsValid same valid
      | inr e ↦ scoped-IsValid input subject valid (rw e at h)
    ]

validate-IsValid :
    (input : Value) {p : AnyIssuancePrincipal}
    → validate_issuance_principal input ≡ ok p
    → IsValid p
unfolding validate_issuance_principal
validate-IsValid (Value.obj input) h =
    let (subject, read, h1) =
      >>=-eq-ok (found_or invalid (validated_principal_string 512 (own "subject" input))) _ h in
    branch-IsValid input subject (read_valid 512 (own "subject" input) read) h1
validate-IsValid (Value.str t) h = cc
validate-IsValid Value.undefined h = cc
validate-IsValid Value.null h = cc
validate-IsValid (Value.bool b) h = cc
validate-IsValid (Value.num n) h = cc
validate-IsValid Value.not_finite h = cc
validate-IsValid (Value.arr p) h = cc
validate-IsValid (Value.bytes b) h = cc
validate-IsValid Value.instance_of_class h = cc
validate-IsValid (Value.other t) h = cc

-- A principal that `validateIssuancePrincipal` returned has no text that is empty, too long or with
-- a control character, and the call returns the same principal for its snapshot.
pub validate_again :
    (input : Value) {p : AnyIssuancePrincipal}
    → validate_issuance_principal input ≡ ok p
    → IsValid p × (validate_issuance_principal (snapshot p) ≡ ok p)
validate_again input h = let valid = validate-IsValid input h in (valid, valid_again _ valid)
