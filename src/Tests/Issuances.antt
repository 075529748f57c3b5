-- ===== src/Tests/Issuances.antt =====
-- The guards of issuance at one issuer, who may issue for the records of one origin.
use x.Prelude.{
  ℕ, String, Bool, true, false, none, some, List, [], ◌∷◌, Result, ok, err, ◌==◌, string_eq,
  if◌then◌else◌, ◌≡◌, ◌↔◌, refl, to_upper_case, codes, same_list, nat_eq,
}
use x.Canonical.Values.{Value, Elements, Properties}
use x.Resource.Options.{DeploymentProfile}
use x.Transport.Urls.{Url, UrlParser}
use x.Issuance.{
  IssuanceAuthorizationRequest, authorize_issuance, resource_uri_authorized,
  assert_issuance_router_config, assert_https, authorize_principal, authorize_scoped,
}
use x.Issuance.Principal.{
  ResourceUriGrant, IssuancePrincipal, AnyIssuancePrincipal, validate_issuance_principal,
}
use x.Issuance.Snapshot.{IsValid, snapshot}
use x.Issuance.Valid.{validate_again}
use x.Issuance.Bearer.{create_static_bearer_issuance_authenticator, add_credentials, authenticate}
use x.Issuance.Configured.{IsAdmitted, authenticate_iff}
use x.Issuance.Granted.{IsGranted, resource_uri_authorized_iff}
use x.Issuance.Authorized.{IsAuthorized, authorize_issuance_iff}

abbrev url_at : String → Url
url_at pathname = record {
  href = "https://api/";
  origin = "https://api";
  protocol = "https:";
  host = "api";
  hostname = "api";
  pathname = pathname;
  search = "";
  hash = "";
  username = "";
  password = "";
}

-- A parser of the URLs of the examples.
abbrev example_urls : UrlParser
example_urls = record {
  parse = λ text.
      if text == "https://api/records/1"
      then some (url_at "/records/1")
      else if text == "https://api/records-evil"
      then some (url_at "/records-evil")
      else if text == "https://api"
      then some (url_at "/")
      else none;
  resolve = λ path base. none;
}

abbrev grants : List ResourceUriGrant
grants = record { origin = "https://api"; path_prefix = "/records" } ∷ []

below_test : resource_uri_authorized example_urls "https://api/records/1" grants ≡ true
unfolding resource_uri_authorized x.Issuance.url_authorized x.Issuance.path_authorized
    x.Issuance.Paths.normalize_authorized_path x.Issuance.Paths.is_ambiguous
    x.Issuance.Paths.segments_of x.Tokens.External.split x.Issuance.grant_covers
    x.Issuance.is_bare_origin x.Issuance.prefix_covers x.Issuance.Paths.path_covered
below_test = refl

beside_test : resource_uri_authorized example_urls "https://api/records-evil" grants ≡ false
unfolding resource_uri_authorized x.Issuance.url_authorized x.Issuance.path_authorized
    x.Issuance.Paths.normalize_authorized_path x.Issuance.Paths.is_ambiguous
    x.Issuance.Paths.segments_of x.Tokens.External.split x.Issuance.grant_covers
    x.Issuance.is_bare_origin x.Issuance.prefix_covers x.Issuance.Paths.path_covered
beside_test = refl

uri_example :
    (resource_uri_authorized example_urls "https://api/records/1" grants ≡ true)
    ↔ IsGranted example_urls "https://api/records/1" grants
uri_example = resource_uri_authorized_iff example_urls "https://api/records/1" grants

abbrev one : String → Value
one text = Value.arr (Elements.cons (Value.str text) Elements.nil)

abbrev granted_resource : Value
granted_resource = Value.obj (
    Properties.property "origin" (Value.str "https://api")
      (Properties.property "pathPrefix" (Value.str "/records") Properties.end))

-- The principal of the issuer.
abbrev issuer : Value
issuer = Value.obj (
    Properties.property "subject" (Value.str "acme") (
      Properties.property "allowedPurposes" (one "read") (
        Properties.property "allowedAudiences" (one "https://api") (
          Properties.property "allowedHttpMethods" (one "GET") (
            Properties.property "allowedMethods" (one "acme:face") (
              Properties.property "allowedResources"
                (Value.arr (Elements.cons granted_resource Elements.nil)) Properties.end))))))

abbrev issuing : AnyIssuancePrincipal
issuing = AnyIssuancePrincipal.scoped (record {
  subject = "acme";
  issuer = none;
  allowed_purposes = "read" ∷ [];
  allowed_audiences = "https://api" ∷ [];
  allowed_http_methods = "GET" ∷ [];
  allowed_methods = "acme:face" ∷ [];
  allowed_resources = grants;
})

issuer_test : validate_issuance_principal issuer ≡ ok issuing
unfolding validate_issuance_principal x.Issuance.Principal.validated_principal_string
    x.Prelude.utf16_length x.Issuance.Principal.validated_scoped x.Issuance.Principal.exact_own_keys
    x.Issuance.Principal.validated_issuer x.Issuance.Principal.validated_principal_string_array
    x.Issuance.Principal.validated_strings x.Issuance.Principal.validated_resources
    x.Issuance.Principal.validated_grants x.Issuance.Principal.validated_grant
issuer_test = refl

snapshot_example : IsValid issuing × (validate_issuance_principal (snapshot issuing) ≡ ok issuing)
snapshot_example = validate_again issuer issuer_test

abbrev request : IssuanceAuthorizationRequest
request = record {
  purpose = "read";
  method = "get";
  uri = "https://api/records/1";
  audience = "https://api";
  accepts = record { provider_id = "acme"; method_id = "face" } ∷ [];
}

authorized_test : authorize_issuance example_urls issuer request DeploymentProfile.prod_ha ≡ ok tt
unfolding authorize_issuance assert_https authorize_principal authorize_scoped to_upper_case
authorized_test = rw (issuer_test, below_test) refl

issuance_example :
    (authorize_issuance example_urls issuer request DeploymentProfile.prod_ha ≡ ok tt)
    ↔ IsAuthorized example_urls issuer request DeploymentProfile.prod_ha
issuance_example = authorize_issuance_iff example_urls issuer request DeploymentProfile.prod_ha

router_test :
    assert_issuance_router_config (some DeploymentProfile.prod_ha) true true
    ≡ err "allowUnauthenticatedIssuance is forbidden outside dev-local-0.1"
unfolding assert_issuance_router_config
router_test = refl

-- A digest for the example.
abbrev example_digest : List ℕ → String
example_digest token = if same_list token (codes "secret") then "known" else "unknown"

abbrev tokens : Properties
tokens = Properties.property "secret" issuer Properties.end

created_test :
    create_static_bearer_issuance_authenticator example_digest (Value.obj tokens)
    ≡ ok (("known", issuing) ∷ [])
unfolding create_static_bearer_issuance_authenticator add_credentials x.Prelude.utf16_length
    x.Issuance.Bearer.is_bearer_token x.Issuance.Bearer.is_token_after x.Prelude.has x.Prelude.set
created_test = rw issuer_test refl

admitted_example :
    (authenticate example_digest (("known", issuing) ∷ []) (some "bearer secret") ≡ ok issuing)
    ↔ IsAdmitted example_digest tokens (some "bearer secret") issuing
admitted_example =
    authenticate_iff example_digest tokens created_test (some "bearer secret") issuing

admitted_test :
    authenticate example_digest (("known", issuing) ∷ []) (some "Bearer secret") ≡ ok issuing
unfolding authenticate x.Issuance.Bearer.matched_token x.Issuance.Bearer.after_scheme
    x.Issuance.Bearer.is_token_after x.Prelude.get
admitted_test = refl
