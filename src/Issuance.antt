-- ===== src/Issuance.antt =====
-- `authorizeIssuance` and `assertIssuanceRouterConfig` of src/auth/issuance.ts. The parser of URLs
-- is a parameter; an authenticator is known by the value that it returned.
pub mod Paths
pub mod Covered
pub mod Principal
pub mod Covering
pub mod Granted
pub mod Permitted
pub mod Snapshot
pub mod Reading
pub mod Valid
pub mod Bearer
pub mod Configured
pub mod Authorized
use x.Prelude.{
  ℕ, String, Bool, true, false, ◌&&◌, ◌||◌, not, Option, none, some, List, [], ◌∷◌, Result, ok, err,
  ◌>>=◌, ◌>>◌, throw_if, if◌then◌else◌, ◌==◌, string_eq, any, all, is_empty, includes, codes,
  to_upper_case, nat_beq, is_some,
}
use x.Canonical.Values.{Value}
use x.Catalog.{method_key}
use x.Resource.Options.{DeploymentProfile, is_dev_local}
use x.Transport.Urls.{Url, UrlParser, found_or}
use x.Issuance.Paths.{normalize_authorized_path, path_covered, has_code}
use x.Issuance.Principal.{
  ResourceUriGrant, IssuancePrincipal, AnyIssuancePrincipal, validate_issuance_principal,
}

pub record AcceptedMethod : Type 0 where
  pub provider_id : String
  pub method_id : String

pub record IssuanceAuthorizationRequest : Type 0 where
  pub purpose : String
  pub method : String
  pub uri : String
  pub audience : String
  pub accepts : List AcceptedMethod

abbrev pub has_credentials : Url → Bool
has_credentials url = not (url.username == "") || not (url.password == "")

unfoldable pub is_bare_origin : Url → Bool
is_bare_origin url =
    url.protocol == "https:"
    && url.pathname == "/"
    && url.search == ""
    && url.hash == ""
    && not (has_credentials url)

-- `grant.pathPrefix || "/"`
abbrev pub raw_prefix : String → String
raw_prefix path_prefix = if path_prefix == "" then "/" else path_prefix

abbrev pub covers : List ℕ → Option (List ℕ) → Bool
covers path none = false
covers path (some prefix) = path_covered path prefix

unfoldable pub prefix_covers : List ℕ → String → Bool
prefix_covers path prefix =
    not (has_code b'%' (codes prefix) || has_code 92 (codes prefix))
    && covers path (normalize_authorized_path (codes prefix))

-- One turn of the loop over the grants, once the origin of the grant is parsed.
unfoldable pub grant_covers : Url → List ℕ → String → Option Url → Bool
grant_covers parsed path path_prefix none = false
grant_covers parsed path path_prefix (some grant_origin) =
    is_bare_origin grant_origin
    && parsed.origin == grant_origin.origin
    && prefix_covers path (raw_prefix path_prefix)

module _ (urls : UrlParser) where
  unfoldable pub path_authorized : Url → List ResourceUriGrant → Option (List ℕ) → Bool
  path_authorized parsed grants none = false
  path_authorized parsed grants (some path) =
      any (λ grant. grant_covers parsed path grant.path_prefix (urls.parse grant.origin)) grants

  unfoldable pub url_authorized : List ResourceUriGrant → Option Url → Bool
  url_authorized grants none = false
  url_authorized grants (some parsed) =
      if has_credentials parsed || not (parsed.protocol == "https:")
      then false
      else path_authorized parsed grants (normalize_authorized_path (codes parsed.pathname))

  unfoldable pub resource_uri_authorized : String → List ResourceUriGrant → Bool
  resource_uri_authorized uri grants = url_authorized grants (urls.parse uri)

  -- What a profile other than the one of development asks of the two URLs.
  unfoldable pub assert_https : IssuanceAuthorizationRequest → Result (Unit {0})
  assert_https request = do
    resource ← found_or "Resource and audience must be valid HTTPS URLs" (urls.parse request.uri)
    audience ←
        found_or "Resource and audience must be valid HTTPS URLs" (urls.parse request.audience)
    throw_if (not (resource.protocol == "https:") || not (audience.protocol == "https:"))
        "Resource and audience must use HTTPS outside dev-local-0.1"

  unfoldable pub authorize_scoped :
      IssuancePrincipal → IssuanceAuthorizationRequest → Result (Unit {0})
  authorize_scoped principal request = do
    throw_if (is_empty principal.allowed_purposes) "Issuer has no allowed purposes"
    throw_if (not (includes principal.allowed_purposes request.purpose))
        "Issuer is not authorized for this purpose"
    throw_if (is_empty principal.allowed_audiences) "Issuer has no allowed audiences"
    throw_if (not (includes principal.allowed_audiences request.audience))
        "Issuer is not authorized for this audience"
    throw_if (is_empty principal.allowed_http_methods) "Issuer has no allowed HTTP methods"
    throw_if (not (includes principal.allowed_http_methods (to_upper_case request.method)))
        "Issuer is not authorized for this HTTP method"
    throw_if (is_empty principal.allowed_resources) "Issuer has no allowed resources"
    throw_if (not (resource_uri_authorized request.uri principal.allowed_resources))
        "Issuer is not authorized for this resource URI"
    throw_if (is_empty principal.allowed_methods) "Issuer has no allowed human methods"
    throw_if
        (any
          (λ method.
            not
              (includes principal.allowed_methods (method_key method.provider_id method.method_id)))
          request.accepts)
        "Issuer is not authorized for an accepted method"

  unfoldable pub authorize_principal :
      AnyIssuancePrincipal → IssuanceAuthorizationRequest → DeploymentProfile → Result (Unit {0})
  authorize_principal (AnyIssuancePrincipal.dev_wildcard subject) request profile =
      throw_if (not (is_dev_local profile))
        "Development wildcard issuance is forbidden outside dev-local-0.1"
  authorize_principal (AnyIssuancePrincipal.scoped principal) request profile =
      authorize_scoped principal request

  unfoldable pub authorize_issuance :
      Value → IssuanceAuthorizationRequest → DeploymentProfile → Result (Unit {0})
  authorize_issuance input request profile = do
    principal ← validate_issuance_principal input
    if is_dev_local profile then ok tt else assert_https request
    authorize_principal principal request profile

-- `assertIssuanceRouterConfig`: of the authenticator only whether there is one.
unfoldable pub assert_issuance_router_config :
    Option DeploymentProfile
    → (allow_unauthenticated has_authenticator : Bool) → Result DeploymentProfile
assert_issuance_router_config none allow_unauthenticated has_authenticator =
    err "deploymentProfile is required; omission does not select dev-local"
assert_issuance_router_config (some profile) allow_unauthenticated has_authenticator =
    if is_dev_local profile
    then (throw_if (not has_authenticator && not allow_unauthenticated)
          "dev-local-0.1 requires issuanceAuthenticator or explicit allowUnauthenticatedIssuance: true"
        >> ok profile)
    else do
      throw_if (not has_authenticator) "eval/prod deployment profiles require issuanceAuthenticator"
      throw_if allow_unauthenticated
          "allowUnauthenticatedIssuance is forbidden outside dev-local-0.1"
      ok profile
