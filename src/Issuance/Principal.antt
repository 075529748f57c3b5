-- ===== src/Issuance/Principal.antt =====
-- The principals of src/auth/issuance.ts: `validateIssuancePrincipal` takes a snapshot of what an
-- authenticator returned. The error names its code, `UNAUTHENTICATED`, by its message.
use x.Prelude.{
  ℕ, String, Bool, true, false, ◌&&◌, ◌||◌, not, Option, none, some, List, [], ◌∷◌, Result, ok, err,
  ◌>>=◌, ◌>>◌, throw_if, if◌then◌else◌, ◌==◌, string_eq, ltb, nat_beq, any, includes, codes,
  is_some, utf16_length,
}
use x.Canonical.Values.{Value, Elements, Properties}
use x.Transport.Urls.{found_or}

pub record ResourceUriGrant : Type 0 where
  pub origin : String
  pub path_prefix : String

pub record IssuancePrincipal : Type 0 where
  pub subject : String
  pub issuer : Option String
  pub allowed_purposes : List String
  pub allowed_audiences : List String
  pub allowed_http_methods : List String
  pub allowed_methods : List String
  pub allowed_resources : List ResourceUriGrant

pub data AnyIssuancePrincipal : Type 0 where
  scoped : IssuancePrincipal → AnyIssuancePrincipal
  -- The principal of development that may issue everything: its subject.
  dev_wildcard : String → AnyIssuancePrincipal

-- `input[key]`, with `none` where `hasOwn(input, key)` is false.
abbrev pub own : String → Properties → Option Value
own key Properties.end = none
own key (Properties.property name value rest) = if name == key then some value else own key rest

unfoldable pub exact_own_keys : Properties → List String → Bool
exact_own_keys Properties.end allowed = true
exact_own_keys (Properties.property name value rest) allowed =
    includes allowed name && exact_own_keys rest allowed

-- `[\u0000-\u001f\u007f]`
abbrev pub is_control : ℕ → Bool
is_control c = ltb c 32 || nat_beq c 127

abbrev pub is_principal_string : ℕ → String → Bool
is_principal_string maximum s =
    not (s == "") && not (ltb maximum (utf16_length s)) && not (any is_control (codes s))

unfoldable pub validated_principal_string : ℕ → Option Value → Option String
validated_principal_string maximum (some (Value.str s)) =
    if is_principal_string maximum s then some s else none
validated_principal_string maximum value = none

-- The longest principal string, in code units.
abbrev pub longest : ℕ
longest = 2048

abbrev pub push : Option String → Option (List String) → Option (List String)
push none strings = none
push (some s) none = none
push (some s) (some strings) = some (s ∷ strings)

unfoldable pub validated_strings : Elements → Option (List String)
validated_strings Elements.nil = some []
validated_strings (Elements.cons value rest) =
    push (validated_principal_string longest (some value)) (validated_strings rest)

unfoldable pub validated_principal_string_array : Option Value → Option (List String)
validated_principal_string_array (some (Value.arr elements)) = validated_strings elements
validated_principal_string_array value = none

abbrev pub invalid : String
invalid = "Authenticated issuer principal is invalid"

abbrev pub grant_keys : List String
grant_keys = "origin" ∷ "pathPrefix" ∷ []

-- One turn of the loop over the resources.
unfoldable pub validated_grant : Value → Result ResourceUriGrant
validated_grant (Value.obj entry) = do
  throw_if
      (not (exact_own_keys entry grant_keys)
        || not (is_some (own "origin" entry))
        || not (is_some (own "pathPrefix" entry)))
      invalid
  origin ← found_or invalid (validated_principal_string longest (own "origin" entry))
  path_prefix ← found_or invalid (validated_principal_string longest (own "pathPrefix" entry))
  ok (record { origin = origin; path_prefix = path_prefix })
validated_grant value = err invalid

unfoldable pub validated_grants : Elements → Result (List ResourceUriGrant)
validated_grants Elements.nil = ok []
validated_grants (Elements.cons entry rest) = do
  grant ← validated_grant entry
  grants ← validated_grants rest
  ok (grant ∷ grants)

unfoldable pub validated_resources : Option Value → Result (List ResourceUriGrant)
validated_resources (some (Value.arr elements)) = validated_grants elements
validated_resources value = err invalid

-- `issuer`, if the input has it.
unfoldable pub validated_issuer : Option Value → Result (Option String)
validated_issuer none = ok none
validated_issuer (some value) =
    found_or invalid (validated_principal_string longest (some value)) >>= λ issuer.
    ok (some issuer)

abbrev pub required_keys : List String
required_keys =
    "allowedPurposes" ∷ "allowedAudiences" ∷ "allowedHttpMethods" ∷ "allowedMethods"
    ∷ "allowedResources" ∷ []

abbrev pub wildcard_keys : List String
wildcard_keys = "subject" ∷ "__devWildcardIssuance" ∷ []

abbrev pub is_true : Option Value → Bool
is_true (some (Value.bool b)) = b
is_true value = false

unfoldable pub validated_scoped : Properties → String → Result AnyIssuancePrincipal
validated_scoped input subject = do
  throw_if (not (exact_own_keys input ("subject" ∷ "issuer" ∷ required_keys))) invalid
  throw_if (any (λ required. not (is_some (own required input))) required_keys) invalid
  issuer ← validated_issuer (own "issuer" input)
  purposes ← found_or invalid (validated_principal_string_array (own "allowedPurposes" input))
  audiences ← found_or invalid (validated_principal_string_array (own "allowedAudiences" input))
  http_methods ←
      found_or invalid (validated_principal_string_array (own "allowedHttpMethods" input))
  methods ← found_or invalid (validated_principal_string_array (own "allowedMethods" input))
  resources ← validated_resources (own "allowedResources" input)
  ok (
      AnyIssuancePrincipal.scoped (record {
        subject = subject;
        issuer = issuer;
        allowed_purposes = purposes;
        allowed_audiences = audiences;
        allowed_http_methods = http_methods;
        allowed_methods = methods;
        allowed_resources = resources;
      }))

unfoldable pub validate_issuance_principal : Value → Result AnyIssuancePrincipal
validate_issuance_principal (Value.obj input) = do
  subject ← found_or invalid (validated_principal_string 512 (own "subject" input))
  elim (is_true (own "__devWildcardIssuance" input)) [
    | true ↦
        throw_if (not (exact_own_keys input wildcard_keys)) invalid
        >> ok (AnyIssuancePrincipal.dev_wildcard subject)
    | false ↦ validated_scoped input subject
  ]
validate_issuance_principal value = err invalid
