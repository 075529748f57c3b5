-- ===== src/Issuance/Configured.antt =====
-- Whom the authenticator of src/auth/issuance.ts lets in.
use x.Prelude.{
  ℕ, String, true, false, ◌||◌, not, Option, some, List, [], ok, throw_if, ◌==◌, string_eq,
  if◌then◌else◌, ltb, codes, utf16_length, StringMap, has, set, get, get-set, eq_iff, ◌≡◌, ◌⊎◌, ◌↔◌,
  inl, inr, refl, arith, Bool-cases, Option-cases, >>=-eq-ok, throw_if-eq-ok,
}
use x.Canonical.Values.{Value, Properties}
use x.Issuance.Principal.{AnyIssuancePrincipal, validate_issuance_principal}
use x.Issuance.Snapshot.{IsValid}
use x.Issuance.Valid.{validate_again}
use x.Issuance.Bearer.{
  is_bearer_token, matched_token, add_credentials, create_static_bearer_issuance_authenticator,
  authenticate,
}

nothing_yet : (key : String) (p : AnyIssuancePrincipal) → get key [] ≡ some p → ⊥
unfolding get
nothing_yet key p h = ground (arith, h)

set_step :
    (d key : String) (q p : AnyIssuancePrincipal) (m : StringMap AnyIssuancePrincipal)
    → get key (set d q m) ≡ some p
    → (get key m ≡ some p) ⊎ ((d ≡ key) × (q ≡ p))
set_step d key q p m h =
    let now : (if d == key then some q else get key m) ≡ some p = rw (get-set d key q m) at h in
    elim (Bool-cases (d == key)) [
      | inl e ↦
          let same : some q ≡ some p = rw e at now in inr ((eq_iff d key).0 e, ground (arith, same))
      | inr e ↦ inl (rw e at now)
    ]

set_other :
    (d key : String) (q p : AnyIssuancePrincipal) (m : StringMap AnyIssuancePrincipal)
    → has d m ≡ false
    → get key m ≡ some p
    → get key (set d q m) ≡ some p
unfolding has
set_other d key q p m fresh h = rw (get-set d key q m) (elim (Bool-cases (d == key)) [
  | inl e ↦
      let same : d ≡ key = (eq_iff d key).0 e in
      let taken : get d m ≡ some p = rw same h in absurd (ground (arith, fresh, taken))
  | inr e ↦ rw e h
])

module _ (digest : List ℕ → String) where
  -- Some token of the record has the digest, and its value is validated to the principal.
  abbrev pub IsConfigured : String → AnyIssuancePrincipal → Properties → Type 0
  IsConfigured key p Properties.end = ⊥
  IsConfigured key p (Properties.property token configured rest) =
      ((digest (codes token) ≡ key)
        × (is_bearer_token (codes token) ≡ true)
        × (validate_issuance_principal configured ≡ ok p))
      ⊎ IsConfigured key p rest

  -- What one turn of the loop made sure of.
  record Turn (credentials made : StringMap AnyIssuancePrincipal) (token : String)
      (configured : Value) (rest : Properties) : Type 0 where
    wellformed : is_bearer_token (codes token) ≡ true
    fresh : has (digest (codes token)) credentials ≡ false
    principal : AnyIssuancePrincipal
    valid : validate_issuance_principal configured ≡ ok principal
    later : add_credentials digest (set (digest (codes token)) principal credentials) rest ≡ ok made

  turn :
      (credentials made : StringMap AnyIssuancePrincipal) (token : String) (configured : Value)
      → (rest : Properties)
      → add_credentials digest credentials (Properties.property token configured rest) ≡ ok made
      → Turn credentials made token configured rest
  unfolding add_credentials
  turn credentials made token configured rest h =
      let malformed = ltb 4096 (utf16_length token) || not (is_bearer_token (codes token)) in
      let taken = has (digest (codes token)) credentials in
      let (t, wellformed, h1) =
        >>=-eq-ok (throw_if malformed "Static bearer credential contains an invalid token") _ h in
      let (u, unique, h2) =
        >>=-eq-ok (throw_if taken "Static bearer credentials must be unique") _ h1 in
      let (q, valid, later) = >>=-eq-ok (validate_issuance_principal configured) _ h2 in
      let clear : malformed ≡ false = throw_if-eq-ok malformed _ wellformed in
      record {
        wellformed = ground (arith, clear);
        fresh = throw_if-eq-ok taken _ unique;
        principal = q;
        valid = valid;
        later = later;
      }

  add_credentials-IsConfigured :
      (credentials : StringMap AnyIssuancePrincipal) (tokens : Properties)
      → (key : String) (p : AnyIssuancePrincipal) {made : StringMap AnyIssuancePrincipal}
      → add_credentials digest credentials tokens ≡ ok made
      → get key made ≡ some p
      → (get key credentials ≡ some p) ⊎ IsConfigured key p tokens
  unfolding add_credentials
  add_credentials-IsConfigured credentials Properties.end key p {made} h e =
      let same : credentials ≡ made = ground (arith, h) in inl (rw same e)
  add_credentials-IsConfigured credentials (Properties.property token configured rest) key p {made}
        h e =
      let t = turn credentials made token configured rest h in
      elim (add_credentials-IsConfigured (set (digest (codes token)) t.principal credentials) rest
        key p t.later e) [
          | inr later ↦ inr (inr later)
          | inl now ↦ elim (set_step (digest (codes token)) key t.principal p credentials now) [
            | inl before ↦ inl before
            | inr (same, q) ↦ inr (inl (same, t.wellformed, rw q at t.valid))
          ]
        ]

  add_credentials_kept :
      (credentials : StringMap AnyIssuancePrincipal) (tokens : Properties)
      → (key : String) (p : AnyIssuancePrincipal) {made : StringMap AnyIssuancePrincipal}
      → add_credentials digest credentials tokens ≡ ok made
      → get key credentials ≡ some p
      → get key made ≡ some p
  unfolding add_credentials
  add_credentials_kept credentials Properties.end key p {made} h e =
      let same : credentials ≡ made = ground (arith, h) in rw (← same) e
  add_credentials_kept credentials (Properties.property token configured rest) key p {made} h e =
      let t = turn credentials made token configured rest h in
      add_credentials_kept (set (digest (codes token)) t.principal credentials) rest key p t.later
        (set_other (digest (codes token)) key t.principal p credentials t.fresh e)

  IsConfigured-get :
      (credentials : StringMap AnyIssuancePrincipal) (tokens : Properties)
      → (key : String) (p : AnyIssuancePrincipal) {made : StringMap AnyIssuancePrincipal}
      → add_credentials digest credentials tokens ≡ ok made
      → IsConfigured key p tokens
      → get key made ≡ some p
  IsConfigured-get credentials Properties.end key p h c = absurd c
  IsConfigured-get credentials (Properties.property token configured rest) key p {made} h
        (inr later) =
      let t = turn credentials made token configured rest h in
      IsConfigured-get (set (digest (codes token)) t.principal credentials) rest key p t.later later
  IsConfigured-get credentials (Properties.property token configured rest) key p {made} h
        (inl (same, wellformed, valid)) =
      let t = turn credentials made token configured rest h in
      let q : t.principal ≡ p = ground (arith, t.valid, valid) in
      let stored : get key (set (digest (codes token)) t.principal credentials) ≡ some p =
        rw
          (
            get-set (digest (codes token)) key t.principal credentials,
            (eq_iff (digest (codes token)) key).1 same,
            q,
          )
          refl in
      add_credentials_kept (set (digest (codes token)) t.principal credentials) rest key p t.later
        stored

  IsConfigured-IsValid :
      (tokens : Properties) (key : String) (p : AnyIssuancePrincipal)
      → IsConfigured key p tokens
      → IsValid p
  IsConfigured-IsValid Properties.end key p c = absurd c
  IsConfigured-IsValid (Properties.property token configured rest) key p (inl (d, w, valid)) =
      (validate_again configured valid).0
  IsConfigured-IsValid (Properties.property token configured rest) key p (inr later) =
      IsConfigured-IsValid rest key p later

  -- The header has a token, the record has a token with its digest, and the texts of the principal
  -- are valid.
  pub record IsAdmitted (tokens : Properties) (header : Option String) (p : AnyIssuancePrincipal)
      : Type 0 where
    pub token : List ℕ
    pub matched : matched_token header ≡ some token
    pub configured : IsConfigured (digest token) p tokens
    pub valid : IsValid p

  module _ (tokens : Properties) {made : StringMap AnyIssuancePrincipal}
      (created : create_static_bearer_issuance_authenticator digest (Value.obj tokens) ≡ ok made)
      (header : Option String) (p : AnyIssuancePrincipal) where
    authenticate-IsAdmitted : authenticate digest made header ≡ ok p → IsAdmitted tokens header p
    unfolding authenticate create_static_bearer_issuance_authenticator
    authenticate-IsAdmitted h = elim (Option-cases (matched_token header)) [
      | inl e ↦ absurd (ground (arith, e, h))
      | inr (token, e) ↦ elim (Option-cases (get (digest token) made)) [
        | inl d ↦ absurd (ground (arith, e, d, h))
        | inr (q, d) ↦
            let same : q ≡ p = ground (arith, e, d, h) in
            elim (add_credentials-IsConfigured [] tokens (digest token) p created (rw same at d)) [
              | inl none_yet ↦ absurd (nothing_yet (digest token) p none_yet)
              | inr c ↦ record {
                token = token;
                matched = e;
                configured = c;
                valid = IsConfigured-IsValid tokens (digest token) p c;
              }
            ]
      ]
    ]

    IsAdmitted-authenticate : IsAdmitted tokens header p → authenticate digest made header ≡ ok p
    unfolding authenticate create_static_bearer_issuance_authenticator
    IsAdmitted-authenticate a =
        rw (a.matched, IsConfigured-get [] tokens (digest a.token) p created a.configured) refl

    -- An authenticator that was created from a record of tokens returns a principal exactly if the
    -- header has a token with the digest of a token of the record, whose value is validated to that
    -- principal; all texts of that principal are then valid.
    pub authenticate_iff : (authenticate digest made header ≡ ok p) ↔ IsAdmitted tokens header p
    authenticate_iff = (authenticate-IsAdmitted, IsAdmitted-authenticate)
