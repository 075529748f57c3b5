-- ===== src/Issuance/Authorized.antt =====
-- What `authorizeIssuance` of src/auth/issuance.ts lets pass.
use x.Prelude.{
  String, Bool, true, false, ◌||◌, not, some, Result, ok, if◌then◌else◌, ◌==◌, string_eq, ◌≡◌, ◌↔◌,
  inl, inr, refl, arith, eq_iff, Option-cases, >>=-eq-ok, throw_if-eq-ok,
}
use x.Canonical.Values.{Value}
use x.Resource.Options.{DeploymentProfile, is_dev_local}
use x.Transport.Urls.{Url, UrlParser}
use x.Issuance.{IssuanceAuthorizationRequest, assert_https, authorize_principal, authorize_issuance}
use x.Issuance.Principal.{AnyIssuancePrincipal, validate_issuance_principal}
use x.Issuance.Permitted.{HasGrants, authorize-HasGrants, HasGrants-authorize}

-- The text parses to a URL with the protocol `https:`.
pub record IsHttps (urls : UrlParser) (text : String) : Type 0 where
  pub url : Url
  pub parsed : urls.parse text ≡ some url
  pub https : url.protocol ≡ "https:"

-- The profile of development takes everything from a wildcard; a principal with grants needs them.
abbrev pub Permits :
    UrlParser → AnyIssuancePrincipal → IssuanceAuthorizationRequest → DeploymentProfile → Type 0
Permits urls (AnyIssuancePrincipal.dev_wildcard subject) request profile =
    is_dev_local profile ≡ true
Permits urls (AnyIssuancePrincipal.scoped principal) request profile =
    HasGrants urls principal request

-- An issuance is authorized: the input is a principal, outside of development both URLs are
-- `https:` URLs, and the principal permits the request.
pub record IsAuthorized (urls : UrlParser) (input : Value) (request : IssuanceAuthorizationRequest)
    (profile : DeploymentProfile) : Type 0 where
  pub principal : AnyIssuancePrincipal
  pub valid : validate_issuance_principal input ≡ ok principal
  pub https :
      is_dev_local profile ≡ false → IsHttps urls request.uri × IsHttps urls request.audience
  pub permitted : Permits urls principal request profile

assert_https-IsHttps :
    (urls : UrlParser) (request : IssuanceAuthorizationRequest)
    → assert_https urls request ≡ ok tt
    → IsHttps urls request.uri × IsHttps urls request.audience
unfolding assert_https
assert_https-IsHttps urls request h = elim (Option-cases (urls.parse request.uri)) [
  | inl e ↦ absurd (ground (arith, e, h))
  | inr (r, e) ↦ elim (Option-cases (urls.parse request.audience)) [
    | inl d ↦ absurd (ground (arith, e, d, h))
    | inr (a, d) ↦
        let passed =
          throw_if-eq-ok (not (r.protocol == "https:") || not (a.protocol == "https:")) _
            (rw (e, d) at h) in
        (
          record {
            url = r;
            parsed = e;
            https = ground (arith, passed, eq_iff r.protocol "https:");
          },
          record {
            url = a;
            parsed = d;
            https = ground (arith, passed, eq_iff a.protocol "https:");
          },
        )
  ]
]

IsHttps-assert_https :
    (urls : UrlParser) (request : IssuanceAuthorizationRequest)
    → IsHttps urls request.uri
    → IsHttps urls request.audience
    → assert_https urls request ≡ ok tt
unfolding assert_https
IsHttps-assert_https urls request r a =
    rw (r.parsed, a.parsed)
      (ground
        (arith, r.https, a.https, eq_iff r.url.protocol "https:", eq_iff a.url.protocol "https:"))

abbrev https_step : UrlParser → IssuanceAuthorizationRequest → Bool → Result (Unit {0})
https_step urls request is_dev = if is_dev then ok tt else assert_https urls request

https_step-IsHttps :
    (urls : UrlParser) (request : IssuanceAuthorizationRequest) (is_dev : Bool)
    → https_step urls request is_dev ≡ ok tt
    → is_dev ≡ false
    → IsHttps urls request.uri × IsHttps urls request.audience
https_step-IsHttps urls request true h e = absurd (ground (arith, e))
https_step-IsHttps urls request false h e = assert_https-IsHttps urls request h

IsHttps-https_step :
    (urls : UrlParser) (request : IssuanceAuthorizationRequest) (is_dev : Bool)
    → (is_dev ≡ false → IsHttps urls request.uri × IsHttps urls request.audience)
    → https_step urls request is_dev ≡ ok tt
IsHttps-https_step urls request true f = refl
IsHttps-https_step urls request false f =
    let (uri, audience) = f refl in IsHttps-assert_https urls request uri audience

authorize_principal_iff :
    (urls : UrlParser) (principal : AnyIssuancePrincipal) (request : IssuanceAuthorizationRequest)
    (profile : DeploymentProfile)
    → (authorize_principal urls principal request profile ≡ ok tt)
      ↔ Permits urls principal request profile
unfolding authorize_principal
authorize_principal_iff urls (AnyIssuancePrincipal.dev_wildcard subject) request profile =
    (λ h. ground (arith, h), λ h. rw h refl)
authorize_principal_iff urls (AnyIssuancePrincipal.scoped principal) request profile =
    (authorize-HasGrants urls principal request, HasGrants-authorize urls principal request)

module _ (urls : UrlParser) (input : Value) (request : IssuanceAuthorizationRequest)
    (profile : DeploymentProfile) where
  authorize-IsAuthorized :
      authorize_issuance urls input request profile ≡ ok tt
      → IsAuthorized urls input request profile
  unfolding authorize_issuance
  authorize-IsAuthorized h =
      let (principal, valid, h1) = >>=-eq-ok (validate_issuance_principal input) _ h in
      let (done, https, h2) = >>=-eq-ok (https_step urls request (is_dev_local profile)) _ h1 in
      record {
        principal = principal;
        valid = valid;
        https = https_step-IsHttps urls request (is_dev_local profile) https;
        permitted = (authorize_principal_iff urls principal request profile).0 h2;
      }

  IsAuthorized-authorize :
      IsAuthorized urls input request profile
      → authorize_issuance urls input request profile ≡ ok tt
  unfolding authorize_issuance
  IsAuthorized-authorize a =
      rw (a.valid, IsHttps-https_step urls request (is_dev_local profile) a.https)
        ((authorize_principal_iff urls a.principal request profile).1 a.permitted)

  -- `authorizeIssuance` returns exactly when the issuance is authorized: the input is a valid
  -- principal; outside of development the resource and the audience are `https:` URLs; and either
  -- the principal is the wildcard, in the profile of development, or the purpose, the audience, the
  -- method of the request in capitals, the URI and the keys of all accepted methods are among the
  -- grants of the principal, which has some method.
  pub authorize_issuance_iff :
      (authorize_issuance urls input request profile ≡ ok tt)
      ↔ IsAuthorized urls input request profile
  authorize_issuance_iff = (authorize-IsAuthorized, IsAuthorized-authorize)
