-- ===== src/Issuance/Covering.antt =====
-- When a grant of src/auth/issuance.ts covers a URL: its origin and its path.
use x.Prelude.{
  ℕ, String, Bool, true, false, ◌&&◌, ◌||◌, not, some, List, [], ◌∷◌, ◌≡◌, ◌↔◌, ◌⊎◌, inl, inr, refl,
  sym, ◌∙◌, ◌==◌, string_eq, any, codes, arith, eq_iff, Bool-cases, Option-cases,
}
use x.Issuance.{is_bare_origin, raw_prefix, prefix_covers, grant_covers, path_authorized}
use x.Issuance.Paths.{
  normalize_authorized_path, is_ambiguous, segments_of, path_of, path_covered, has_code,
}
use x.Issuance.Covered.{starts_with_segments, path_covered-normalize}
use x.Issuance.Principal.{ResourceUriGrant}
use x.Transport.Urls.{Url, UrlParser}

-- Some element of the list has the property.
abbrev pub Some {ℓ} : {A : Type ℓ} → (A → Type 0) → List A → Type 0
Some P [] = ⊥
Some P (a ∷ l) = P a ⊎ Some P l

module _ {ℓ} {A : Type ℓ} (p : A → Bool) (P : A → Type 0) (f : (a : A) → (p a ≡ true) ↔ P a) where
  any-Some : (l : List A) → any p l ≡ true → Some P l
  any-Some [] h = absurd (ground arith)
  any-Some (a ∷ l) h = elim (Bool-cases (p a)) [
    | inl e ↦ inl ((f a).0 e)
    | inr e ↦ inr (any-Some l (ground arith))
  ]

  Some-any : (l : List A) → Some P l → any p l ≡ true
  Some-any [] h = absurd h
  Some-any (a ∷ l) (inl e) = let q = (f a).1 e in ground arith
  Some-any (a ∷ l) (inr e) = let q = Some-any l e in ground arith

  any_iff : (l : List A) → (any p l ≡ true) ↔ Some P l
  any_iff l = (any-Some l, Some-any l)

-- An `https:` URL without a user, a password, a path, a query or a fragment.
pub record IsBareOrigin (url : Url) : Type 0 where
  pub https : url.protocol ≡ "https:"
  pub no_path : url.pathname ≡ "/"
  pub no_search : url.search ≡ ""
  pub no_hash : url.hash ≡ ""
  pub no_username : url.username ≡ ""
  pub no_password : url.password ≡ ""

is_bare_origin_iff : (url : Url) → (is_bare_origin url ≡ true) ↔ IsBareOrigin url
unfolding is_bare_origin
is_bare_origin_iff url =
    let p = eq_iff url.protocol "https:" in
    let n = eq_iff url.pathname "/" in
    let s = eq_iff url.search "" in
    let a = eq_iff url.hash "" in
    let u = eq_iff url.username "" in
    let w = eq_iff url.password "" in
    (
      λ h. record {
        https = ground (arith, p);
        no_path = ground (arith, n);
        no_search = ground (arith, s);
        no_hash = ground (arith, a);
        no_username = ground (arith, u);
        no_password = ground (arith, w);
      },
      λ h. rw (h.https, h.no_path, h.no_search, h.no_hash, h.no_username, h.no_password) refl,
    )

-- The path of a grant covers a path that was accepted, of which this is the text.
pub record CoversPath (pathname prefix : List ℕ) : Type 0 where
  pub clear : is_ambiguous prefix ≡ false
  pub below : starts_with_segments (segments_of pathname) (segments_of prefix) ≡ true

pub normalize_clear :
    (p : List ℕ) {q : List ℕ} → normalize_authorized_path p ≡ some q → is_ambiguous p ≡ false
unfolding normalize_authorized_path
normalize_clear p h = ground (arith, h)

pub normalize_some :
    (p : List ℕ)
    → is_ambiguous p ≡ false
    → normalize_authorized_path p ≡ some (path_of (segments_of p))
unfolding normalize_authorized_path
normalize_some p h = rw h refl

clear_codes : (p : List ℕ) → is_ambiguous p ≡ false → (has_code b'%' p || has_code 92 p) ≡ false
unfolding is_ambiguous
clear_codes p h = ground (arith, h)

module _ (pathname : List ℕ) (prefix : String) {path : List ℕ}
    (accepted : normalize_authorized_path pathname ≡ some path) where
  prefix_covers-CoversPath : prefix_covers path prefix ≡ true → CoversPath pathname (codes prefix)
  unfolding prefix_covers
  prefix_covers-CoversPath h = elim (Option-cases (normalize_authorized_path (codes prefix))) [
    | inl e ↦ absurd (ground (arith, e, h))
    | inr (q, e) ↦
        let both : (not (has_code b'%' (codes prefix) || has_code 92 (codes prefix))
              && path_covered path q)
            ≡ true =
          rw e at h in
        record {
          clear = normalize_clear (codes prefix) e;
          below =
              sym (path_covered-normalize pathname (codes prefix) accepted e)
              ∙ ground (arith, both);
        }
  ]

  CoversPath-prefix_covers : CoversPath pathname (codes prefix) → prefix_covers path prefix ≡ true
  unfolding prefix_covers
  CoversPath-prefix_covers c =
      let e = normalize_some (codes prefix) c.clear in
      rw (clear_codes (codes prefix) c.clear, e)
        (path_covered-normalize pathname (codes prefix) accepted e ∙ c.below)

-- A grant covers a URL: its origin is a bare `https:` origin and the URL's, and its path, `/` if
-- it is empty, covers the URL's.
pub record Covers (urls : UrlParser) (url : Url) (grant : ResourceUriGrant) : Type 0 where
  pub grant_origin : Url
  pub parsed : urls.parse grant.origin ≡ some grant_origin
  pub bare : IsBareOrigin grant_origin
  pub same_origin : url.origin ≡ grant_origin.origin
  pub covered : CoversPath (codes url.pathname) (codes (raw_prefix grant.path_prefix))

module _ (urls : UrlParser) (url : Url) {path : List ℕ}
    (accepted : normalize_authorized_path (codes url.pathname) ≡ some path) where
  grant_covers-Covers :
      (grant : ResourceUriGrant)
      → grant_covers url path grant.path_prefix (urls.parse grant.origin) ≡ true
      → Covers urls url grant
  unfolding grant_covers
  grant_covers-Covers grant h = elim (Option-cases (urls.parse grant.origin)) [
    | inl e ↦ absurd (ground (arith, e, h))
    | inr (g, e) ↦
        let both : (is_bare_origin g
              && url.origin == g.origin
              && prefix_covers path (raw_prefix grant.path_prefix))
            ≡ true =
          rw e at h in
        record {
          grant_origin = g;
          parsed = e;
          bare = (is_bare_origin_iff g).0 (ground (arith, both));
          same_origin = ground (arith, both, eq_iff url.origin g.origin);
          covered =
              prefix_covers-CoversPath (codes url.pathname) (raw_prefix grant.path_prefix) accepted
                (ground (arith, both));
        }
  ]

  Covers-grant_covers :
      (grant : ResourceUriGrant)
      → Covers urls url grant
      → grant_covers url path grant.path_prefix (urls.parse grant.origin) ≡ true
  unfolding grant_covers
  Covers-grant_covers grant c =
      let bare = (is_bare_origin_iff c.grant_origin).1 c.bare in
      let covered =
        CoversPath-prefix_covers (codes url.pathname) (raw_prefix grant.path_prefix) accepted
          c.covered in
      rw (c.parsed, bare, covered)
        (ground (arith, c.same_origin, eq_iff url.origin c.grant_origin.origin))

  pub path_authorized_iff :
      (grants : List ResourceUriGrant)
      → (path_authorized urls url grants (some path) ≡ true) ↔ Some (Covers urls url) grants
  unfolding path_authorized
  path_authorized_iff grants =
      any_iff (λ grant. grant_covers url path grant.path_prefix (urls.parse grant.origin))
        (Covers urls url) (λ grant. (grant_covers-Covers grant, Covers-grant_covers grant)) grants
