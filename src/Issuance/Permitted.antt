-- ===== src/Issuance/Permitted.antt =====
-- What a principal with grants may issue, in src/auth/issuance.ts.
use x.Prelude.{
  String, Bool, true, false, not, List, [], ◌∷◌, Result, ok, ◌>>◌, throw_if, string_eq, any, All,
  is_empty, includes, to_upper_case, ◌≡◌, refl, arith, throw_if-eq-ok,
}
use x.Catalog.{method_key}
use x.Transport.Urls.{UrlParser}
use x.Issuance.{
  AcceptedMethod, IssuanceAuthorizationRequest, resource_uri_authorized, authorize_scoped,
}
use x.Issuance.Principal.{ResourceUriGrant, IssuancePrincipal}
use x.Issuance.Covering.{Some}
use x.Issuance.Granted.{IsGranted, resource_uri_authorized_iff}

-- Every part of the request is among what the principal may issue.
pub record HasGrants (urls : UrlParser) (principal : IssuancePrincipal)
    (request : IssuanceAuthorizationRequest) : Type 0 where
  pub purpose : includes principal.allowed_purposes request.purpose ≡ true
  pub audience : includes principal.allowed_audiences request.audience ≡ true
  pub http_method : includes principal.allowed_http_methods (to_upper_case request.method) ≡ true
  pub resource : IsGranted urls request.uri principal.allowed_resources
  pub some_method : is_empty principal.allowed_methods ≡ false
  pub methods :
      All
        (λ method.
          includes principal.allowed_methods (method_key method.provider_id method.method_id)
          ≡ true)
        request.accepts

-- A guard that returned, and what came after it.
guard {ℓ} :
    {B : Type ℓ} (refused : Bool) (message : String) {rest : Result B} {last : B}
    → (throw_if refused message >> rest) ≡ ok last
    → (refused ≡ false) × (rest ≡ ok last)
guard true message h = absurd (ground arith)
guard false message h = (refl, h)

includes_some : (l : List String) (a : String) → includes l a ≡ true → is_empty l ≡ false
includes_some [] a h = absurd (ground arith)
includes_some (b ∷ l) a h = refl

nonempty_of :
    (P : ResourceUriGrant → Type 0) (l : List ResourceUriGrant) → Some P l → is_empty l ≡ false
nonempty_of P [] h = absurd h
nonempty_of P (a ∷ l) h = refl

any-All :
    {A : Type 0} (p : A → Bool) (l : List A)
    → any (λ a. not (p a)) l ≡ false
    → All (λ a. p a ≡ true) l
any-All p [] h = tt
any-All p (a ∷ l) h = (ground (arith, h), any-All p l (ground (arith, h)))

All-any :
    {A : Type 0} (p : A → Bool) (l : List A)
    → All (λ a. p a ≡ true) l
    → any (λ a. not (p a)) l ≡ false
All-any p [] h = refl
All-any p (a ∷ l) (ha, h) = let rest = All-any p l h in ground arith

abbrev method_allowed : IssuancePrincipal → AcceptedMethod → Bool
method_allowed principal method =
    includes principal.allowed_methods (method_key method.provider_id method.method_id)

module _ (urls : UrlParser) (principal : IssuancePrincipal)
    (request : IssuanceAuthorizationRequest) where
  pub authorize-HasGrants :
      authorize_scoped urls principal request ≡ ok tt → HasGrants urls principal request
  unfolding authorize_scoped
  authorize-HasGrants h0 =
      let (some_purposes, h1) = guard (is_empty principal.allowed_purposes) _ h0 in
      let (purpose, h2) = guard (not (includes principal.allowed_purposes request.purpose)) _ h1 in
      let (some_audiences, h3) = guard (is_empty principal.allowed_audiences) _ h2 in
      let (audience, h4) =
        guard (not (includes principal.allowed_audiences request.audience)) _ h3 in
      let (some_http, h5) = guard (is_empty principal.allowed_http_methods) _ h4 in
      let (http, h6) =
        guard (not (includes principal.allowed_http_methods (to_upper_case request.method))) _ h5 in
      let (some_resources, h7) = guard (is_empty principal.allowed_resources) _ h6 in
      let (resource, h8) =
        guard (not (resource_uri_authorized urls request.uri principal.allowed_resources)) _ h7 in
      let (some_methods, h9) = guard (is_empty principal.allowed_methods) _ h8 in
      let methods =
        throw_if-eq-ok (any (λ method. not (method_allowed principal method)) request.accepts) _
          h9 in
      record {
        purpose = ground (arith, purpose);
        audience = ground (arith, audience);
        http_method = ground (arith, http);
        resource =
            (resource_uri_authorized_iff urls request.uri principal.allowed_resources).0
              (ground (arith, resource));
        some_method = some_methods;
        methods = any-All (method_allowed principal) request.accepts methods;
      }

  pub HasGrants-authorize :
      HasGrants urls principal request → authorize_scoped urls principal request ≡ ok tt
  unfolding authorize_scoped
  HasGrants-authorize g =
      rw
        (
          includes_some principal.allowed_purposes request.purpose g.purpose,
          g.purpose,
          includes_some principal.allowed_audiences request.audience g.audience,
          g.audience,
          includes_some principal.allowed_http_methods (to_upper_case request.method) g.http_method,
          g.http_method,
          nonempty_of _ principal.allowed_resources g.resource.covered,
          (resource_uri_authorized_iff urls request.uri principal.allowed_resources).1 g.resource,
          g.some_method,
          All-any (method_allowed principal) request.accepts g.methods,
        )
        refl
