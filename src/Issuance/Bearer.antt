-- ===== src/Issuance/Bearer.antt =====
-- `createStaticBearerIssuanceAuthenticator` of src/auth/issuance.ts. The digest of a token is a
-- parameter; the configured tokens are the own properties of a plain record.
use x.Prelude.{
  ℕ, suc, ◌+◌, String, Bool, true, false, ◌&&◌, ◌||◌, not, Option, none, some, List, [], ◌∷◌,
  Result, ok, err, ◌>>=◌, ◌>>◌, throw_if, if◌then◌else◌, string_eq, ltb, leb, nat_beq, codes,
  is_lower, is_upper, is_digit, utf16_length, StringMap, has, set, get,
}
use x.Canonical.Values.{Value, Properties}
use x.Issuance.Principal.{AnyIssuancePrincipal, validate_issuance_principal}

-- `[A-Za-z0-9\-._~+/]`
abbrev pub is_token_code : ℕ → Bool
is_token_code c =
    is_upper c
    || is_lower c
    || is_digit c
    || nat_beq c b'-'
    || nat_beq c b'.'
    || nat_beq c b'_'
    || nat_beq c b'~'
    || nat_beq c b'+'
    || nat_beq c b'/'

-- The same class without regard to case: in Unicode the long s and the sign for kelvin have the small
-- letters s and k.
abbrev pub is_token_code_any_case : ℕ → Bool
is_token_code_any_case c = is_token_code c || nat_beq c 383 || nat_beq c 8490

-- `={0,2}` up to the end
abbrev pub is_padding : List ℕ → Bool
is_padding [] = true
is_padding (c ∷ []) = nat_beq c b'='
is_padding (c ∷ d ∷ []) = nat_beq c b'=' && nat_beq d b'='
is_padding (c ∷ d ∷ e ∷ cs) = false

-- Between 1 and 4096 characters of the class, of which some were read already, and the padding.
unfoldable pub is_token_after : (ℕ → Bool) → (read : ℕ) → List ℕ → Bool
is_token_after in_class read [] = ltb 0 read && leb read 4096
is_token_after in_class read (c ∷ cs) =
    if in_class c
    then is_token_after in_class (suc read) cs
    else (ltb 0 read && leb read 4096 && is_padding (c ∷ cs))

-- `BEARER_TOKEN_PATTERN`
unfoldable pub is_bearer_token : List ℕ → Bool
is_bearer_token token = is_token_after is_token_code 0 token

-- The rest behind a prefix of small letters and spaces, without regard to case.
unfoldable pub after_scheme : (scheme text : List ℕ) → Option (List ℕ)
after_scheme [] text = some text
after_scheme (p ∷ ps) [] = none
after_scheme (p ∷ ps) (c ∷ cs) =
    if nat_beq c p || (is_upper c && nat_beq (c + 32) p) then after_scheme ps cs else none

abbrev pub token_or_none : Option (List ℕ) → Option (List ℕ)
token_or_none none = none
token_or_none (some token) =
    if is_token_after is_token_code_any_case 0 token then some token else none

-- The token of a match with the header.
unfoldable pub matched_token : Option String → Option (List ℕ)
matched_token none = none
matched_token (some header) = token_or_none (after_scheme (codes "bearer ") (codes header))

abbrev pub principal_or_throw : Option AnyIssuancePrincipal → Result AnyIssuancePrincipal
principal_or_throw none = err "Bearer credentials are invalid"
principal_or_throw (some principal) = ok principal

module _ (bearer_credential_digest : List ℕ → String) where
  unfoldable pub add_credentials :
      StringMap AnyIssuancePrincipal → Properties → Result (StringMap AnyIssuancePrincipal)
  add_credentials credentials Properties.end = ok credentials
  add_credentials credentials (Properties.property token configured rest) = do
    throw_if (ltb 4096 (utf16_length token) || not (is_bearer_token (codes token)))
        "Static bearer credential contains an invalid token"
    throw_if (has (bearer_credential_digest (codes token)) credentials)
        "Static bearer credentials must be unique"
    principal ← validate_issuance_principal configured
    add_credentials (set (bearer_credential_digest (codes token)) principal credentials) rest

  unfoldable pub create_static_bearer_issuance_authenticator :
      Value → Result (StringMap AnyIssuancePrincipal)
  create_static_bearer_issuance_authenticator (Value.obj tokens) = add_credentials [] tokens
  create_static_bearer_issuance_authenticator tokens =
      err "Static bearer credentials must be a plain record"

  abbrev principal_of_token :
      StringMap AnyIssuancePrincipal → Option (List ℕ) → Result AnyIssuancePrincipal
  principal_of_token credentials none = err "Bearer credentials are invalid"
  principal_of_token credentials (some token) =
      principal_or_throw (get (bearer_credential_digest token) credentials)

  unfoldable pub authenticate :
      StringMap AnyIssuancePrincipal → Option String → Result AnyIssuancePrincipal
  authenticate credentials authorization_header =
      principal_of_token credentials (matched_token authorization_header)
