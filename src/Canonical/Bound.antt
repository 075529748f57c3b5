-- ===== src/Canonical/Bound.antt =====
-- What the digest of a request in src/canonical.ts binds.
use x.Prelude.{
  ℕ, String, Option, none, some, List, [], ◌∷◌, ◌++◌, ok, codes, to_upper_case, ◌≡◌, sym, ◌∙◌,
  arith,
}
use x.Canonical.{Hashed, text, RequestBodyDigestInput, body_digest_from_input, request_digest}
use x.Canonical.Print.{quoted}
use x.Canonical.Quoted.{quoted_split}
use x.Canonical.Preimage.{
  null_or_quoted, uri_text, method_text, request_text, request_digest-eq_hash,
}

null_or_quoted_split :
    (a b : Option String) (r q : List ℕ)
    → null_or_quoted a ++ r ≡ null_or_quoted b ++ q
    → (a ≡ b) × (r ≡ q)
unfolding quoted
null_or_quoted_split none none r q h = ground arith
null_or_quoted_split none (some t) r q h = absurd (ground arith)
null_or_quoted_split (some s) none r q h = absurd (ground arith)
null_or_quoted_split (some s) (some t) r q h =
    let (same, rest) = quoted_split s t r q h in (cc, rest)

cancel : (p r q : List ℕ) → p ++ r ≡ p ++ q → r ≡ q
cancel [] r q h = h
cancel (c ∷ p) r q h = cancel p r q (ground arith)

uri_text_split : (u u' : String) → uri_text u ≡ uri_text u' → u ≡ u'
uri_text_split u u' h = (quoted_split u u' _ _ (cancel (codes ",\"uri\":") _ _ h)).0

method_text_split : (m m' u u' : String) → method_text m u ≡ method_text m' u' → (m ≡ m') × (u ≡ u')
method_text_split m m' u u' h =
    let (methods, rest) =
      quoted_split m m' (uri_text u) (uri_text u') (cancel (codes ",\"method\":") _ _ h) in
    (methods, uri_text_split u u' rest)

request_text_split :
    (m m' u u' : String) (b b' : Option String)
    → request_text m u b ≡ request_text m' u' b'
    → (m ≡ m') × (u ≡ u') × (b ≡ b')
request_text_split m m' u u' b b' h =
    let (bodies, rest) =
      null_or_quoted_split b b' (method_text m u) (method_text m' u')
        (cancel (codes "{\"bodyDigest\":") _ _ h) in
    let (methods, uris) = method_text_split m m' u u' rest in (methods, uris, bodies)

-- The hash tells two inputs apart, if they differ.
abbrev pub NoCollision : (Hashed → String) → Hashed → Hashed → Type 0
NoCollision sha256 a b = sha256 a ≡ sha256 b → a ≡ b

-- If the bodies of two requests have digests, and the hash does not give the same for the texts
-- that are hashed for the two requests while these differ, then equal request digests mean the
-- same method up to capitals, the same URI, and the same body digest.
pub request_digest_binds :
    (sha256 : Hashed → String) (method method' uri uri' : String)
    (body body' : RequestBodyDigestInput) (b b' : Option String)
    → body_digest_from_input sha256 body ≡ ok b
    → body_digest_from_input sha256 body' ≡ ok b'
    → NoCollision sha256
        (text (request_text (to_upper_case method) uri b))
        (text (request_text (to_upper_case method') uri' b'))
    → request_digest sha256 method uri body ≡ request_digest sha256 method' uri' body'
    → (to_upper_case method ≡ to_upper_case method') × (uri ≡ uri') × (b ≡ b')
request_digest_binds sha256 method method' uri uri' body body' b b' h h' no_collision same =
    let hashes =
      sym (request_digest-eq_hash sha256 method uri body h)
      ∙ same
      ∙ request_digest-eq_hash sha256 method' uri' body' h' in
    request_text_split _ _ _ _ _ _ (text_of (no_collision (ok_of hashes)))
  where
    ok_of : {s t : String} → ok s ≡ ok t → s ≡ t
    ok_of e = ground arith

    text_of : {s t : List ℕ} → text s ≡ text t → s ≡ t
    text_of e = ground arith
