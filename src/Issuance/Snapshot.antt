-- ===== src/Issuance/Snapshot.antt =====
-- The snapshot that `validateIssuancePrincipal` of src/auth/issuance.ts returns, as a value.
use x.Prelude.{ℕ, String, true, Option, none, some, List, [], ◌∷◌, ok, All, ◌≡◌, refl}
use x.Canonical.Values.{Value, Elements, Properties}
use x.Issuance.Principal.{
  ResourceUriGrant, IssuancePrincipal, AnyIssuancePrincipal, exact_own_keys, is_principal_string,
  validated_principal_string, longest, validated_strings, validated_principal_string_array,
  validated_grant, validated_grants, validated_resources, validated_issuer, validated_scoped,
  validate_issuance_principal,
}

abbrev pub IsString : ℕ → String → Type 0
IsString maximum s = is_principal_string maximum s ≡ true

abbrev pub IsMissingOrString : Option String → Type 0
IsMissingOrString none = Unit
IsMissingOrString (some s) = IsString longest s

abbrev pub IsValidGrant : ResourceUriGrant → Type 0
IsValidGrant grant = IsString longest grant.origin × IsString longest grant.path_prefix

-- No text of the principal is empty, too long, or has a control character.
pub record HasValidTexts (p : IssuancePrincipal) : Type 0 where
  pub subject : IsString 512 p.subject
  pub issuer : IsMissingOrString p.issuer
  pub purposes : All (IsString longest) p.allowed_purposes
  pub audiences : All (IsString longest) p.allowed_audiences
  pub http_methods : All (IsString longest) p.allowed_http_methods
  pub methods : All (IsString longest) p.allowed_methods
  pub resources : All IsValidGrant p.allowed_resources

abbrev pub IsValid : AnyIssuancePrincipal → Type 0
IsValid (AnyIssuancePrincipal.scoped p) = HasValidTexts p
IsValid (AnyIssuancePrincipal.dev_wildcard subject) = IsString 512 subject

abbrev strings_value : List String → Elements
strings_value [] = Elements.nil
strings_value (s ∷ strings) = Elements.cons (Value.str s) (strings_value strings)

abbrev grant_value : ResourceUriGrant → Value
grant_value grant = Value.obj (
    Properties.property "origin" (Value.str grant.origin)
      (Properties.property "pathPrefix" (Value.str grant.path_prefix) Properties.end))

abbrev grants_value : List ResourceUriGrant → Elements
grants_value [] = Elements.nil
grants_value (grant ∷ grants) = Elements.cons (grant_value grant) (grants_value grants)

abbrev with_issuer : Option String → Properties → Properties
with_issuer none rest = rest
with_issuer (some issuer) rest = Properties.property "issuer" (Value.str issuer) rest

abbrev strings_property : String → List String → Properties → Properties
strings_property name strings = Properties.property name (Value.arr (strings_value strings))

-- The object that the call returns.
unfoldable pub snapshot : AnyIssuancePrincipal → Value
snapshot (AnyIssuancePrincipal.dev_wildcard subject) = Value.obj (
    Properties.property "subject" (Value.str subject)
      (Properties.property "__devWildcardIssuance" (Value.bool true) Properties.end))
snapshot (AnyIssuancePrincipal.scoped p) = Value.obj (
    Properties.property "subject" (Value.str p.subject) (
      with_issuer p.issuer (
        strings_property "allowedPurposes" p.allowed_purposes (
          strings_property "allowedAudiences" p.allowed_audiences (
            strings_property "allowedHttpMethods" p.allowed_http_methods (
              strings_property "allowedMethods" p.allowed_methods (
                Properties.property "allowedResources"
                  (Value.arr (grants_value p.allowed_resources)) Properties.end)))))))

string_again :
    (maximum : ℕ) (s : String)
    → IsString maximum s
    → validated_principal_string maximum (some (Value.str s)) ≡ some s
unfolding validated_principal_string
string_again maximum s h = rw h refl

strings_again :
    (strings : List String)
    → All (IsString longest) strings
    → validated_strings (strings_value strings) ≡ some strings
unfolding validated_strings
strings_again [] h = refl
strings_again (s ∷ strings) (hs, h) = rw (string_again longest s hs, strings_again strings h) refl

grants_again :
    (grants : List ResourceUriGrant)
    → All IsValidGrant grants
    → validated_grants (grants_value grants) ≡ ok grants
unfolding validated_grants validated_grant exact_own_keys
grants_again [] h = refl
grants_again (grant ∷ grants) ((origin, path_prefix), h) =
    rw
      (
        string_again longest grant.origin origin,
        string_again longest grant.path_prefix path_prefix,
        grants_again grants h,
      )
      refl

abbrev principal_of :
    (subject : String) (issuer : Option String) (purposes audiences http methods : List String)
    → List ResourceUriGrant
    → IssuancePrincipal
principal_of subject issuer purposes audiences http methods resources = record {
  subject = subject;
  issuer = issuer;
  allowed_purposes = purposes;
  allowed_audiences = audiences;
  allowed_http_methods = http;
  allowed_methods = methods;
  allowed_resources = resources;
}

scoped_again :
    (subject : String) (issuer : Option String) (purposes audiences http methods : List String)
    → (resources : List ResourceUriGrant)
    → HasValidTexts (principal_of subject issuer purposes audiences http methods resources)
    → validate_issuance_principal (
        snapshot (
          AnyIssuancePrincipal.scoped
            (principal_of subject issuer purposes audiences http methods resources)))
      ≡ ok (
          AnyIssuancePrincipal.scoped
            (principal_of subject issuer purposes audiences http methods resources))
unfolding validate_issuance_principal snapshot validated_scoped exact_own_keys validated_issuer
    validated_principal_string_array validated_resources
scoped_again subject none purposes audiences http methods resources h =
    rw
      (
        string_again 512 subject h.subject,
        strings_again purposes h.purposes,
        strings_again audiences h.audiences,
        strings_again http h.http_methods,
        strings_again methods h.methods,
        grants_again resources h.resources,
      )
      refl
scoped_again subject (some issuer) purposes audiences http methods resources h =
    rw
      (
        string_again 512 subject h.subject,
        string_again longest issuer h.issuer,
        strings_again purposes h.purposes,
        strings_again audiences h.audiences,
        strings_again http h.http_methods,
        strings_again methods h.methods,
        grants_again resources h.resources,
      )
      refl

-- A principal whose texts are valid is validated to itself.
pub valid_again :
    (p : AnyIssuancePrincipal) → IsValid p → validate_issuance_principal (snapshot p) ≡ ok p
unfolding validate_issuance_principal snapshot exact_own_keys
valid_again (AnyIssuancePrincipal.dev_wildcard subject) h = rw (string_again 512 subject h) refl
valid_again (AnyIssuancePrincipal.scoped p) h =
    scoped_again p.subject p.issuer p.allowed_purposes p.allowed_audiences p.allowed_http_methods
      p.allowed_methods p.allowed_resources h
