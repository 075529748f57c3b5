-- ===== src/Issuance/Granted.antt =====
-- What `resourceUriAuthorized` of src/auth/issuance.ts asks of a URI and of the grants.
use x.Prelude.{
  String, true, false, ◌||◌, not, some, List, ◌≡◌, ◌↔◌, inl, inr, refl, ◌==◌, string_eq, codes,
  arith, eq_iff, Option-cases,
}
use x.Issuance.{has_credentials, path_authorized, url_authorized, resource_uri_authorized}
use x.Issuance.Paths.{normalize_authorized_path, is_ambiguous}
use x.Issuance.Principal.{ResourceUriGrant}
use x.Transport.Urls.{Url, UrlParser}
use x.Issuance.Covering.{Some, Covers, normalize_clear, normalize_some, path_authorized_iff}

-- A URI is granted: an `https:` URL without credentials and with an unambiguous path, which some
-- grant covers.
pub record IsGranted (urls : UrlParser) (uri : String) (grants : List ResourceUriGrant)
    : Type 0 where
  pub url : Url
  pub parsed : urls.parse uri ≡ some url
  pub no_username : url.username ≡ ""
  pub no_password : url.password ≡ ""
  pub https : url.protocol ≡ "https:"
  pub clear : is_ambiguous (codes url.pathname) ≡ false
  pub covered : Some (Covers urls url) grants

-- What a URL that is authorized has passed.
authorized_steps :
    (urls : UrlParser) (url : Url) (grants : List ResourceUriGrant)
    → url_authorized urls grants (some url) ≡ true
    → (has_credentials url ≡ false)
      × ((url.protocol == "https:") ≡ true)
      × (path_authorized urls url grants (normalize_authorized_path (codes url.pathname)) ≡ true)
unfolding url_authorized
authorized_steps urls url grants h = (ground (arith, h), ground (arith, h), ground (arith, h))

module _ (urls : UrlParser) (uri : String) (grants : List ResourceUriGrant) where
  parsed-IsGranted :
      (url : Url)
      → urls.parse uri ≡ some url
      → url_authorized urls grants (some url) ≡ true
      → IsGranted urls uri grants
  unfolding path_authorized
  parsed-IsGranted url e h =
      let (credentials, https, authorized) = authorized_steps urls url grants h in
      elim (Option-cases (normalize_authorized_path (codes url.pathname))) [
        | inl n ↦ absurd (ground (arith, n, authorized))
        | inr (path, n) ↦ record {
          url = url;
          parsed = e;
          no_username = ground (arith, credentials, eq_iff url.username "");
          no_password = ground (arith, credentials, eq_iff url.password "");
          https = ground (arith, https, eq_iff url.protocol "https:");
          clear = normalize_clear (codes url.pathname) n;
          covered = (path_authorized_iff urls url n grants).0 (rw n at authorized);
        }
      ]

  resource-IsGranted : resource_uri_authorized urls uri grants ≡ true → IsGranted urls uri grants
  unfolding resource_uri_authorized url_authorized
  resource-IsGranted h = elim (Option-cases (urls.parse uri)) [
    | inl e ↦ absurd (ground (arith, e, h))
    | inr (url, e) ↦ parsed-IsGranted url e (rw e at h)
  ]

  IsGranted-resource : IsGranted urls uri grants → resource_uri_authorized urls uri grants ≡ true
  unfolding resource_uri_authorized url_authorized
  IsGranted-resource g =
      let n = normalize_some (codes g.url.pathname) g.clear in
      let passed : (has_credentials g.url || not (g.url.protocol == "https:")) ≡ false =
        rw (g.no_username, g.no_password, g.https) refl in
      rw (g.parsed, passed, n) ((path_authorized_iff urls g.url n grants).1 g.covered)

  -- `resourceUriAuthorized` gives true exactly for a URI that is granted: an `https:` URL without a
  -- user and a password, with an unambiguous path, and one of the grants has the same origin, as a
  -- bare `https:` origin, and an unambiguous path with whose segments the path of the URI begins.
  pub resource_uri_authorized_iff :
      (resource_uri_authorized urls uri grants ≡ true) ↔ IsGranted urls uri grants
  resource_uri_authorized_iff = (resource-IsGranted, IsGranted-resource)
