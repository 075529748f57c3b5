-- ===== src/Transport/Urls.antt =====
-- The URLs of src/transport.ts. Parsing and resolving are the platform's.
use x.Prelude.{
  String, Bool, true, false, ◌&&◌, ◌||◌, not, Option, none, some, Result, ok, err, ◌>>=◌, ◌>>◌,
  throw_if, if◌then◌else◌, ◌==◌, string_eq, codes, any, nat_beq, starts_with, to_upper_case, ◌<>◌,
}

pub record Url : Type 0 where
  pub href : String
  pub origin : String
  -- with its colon
  pub protocol : String
  pub host : String
  pub hostname : String
  pub pathname : String
  pub search : String
  pub hash : String
  pub username : String
  pub password : String

-- `new URL(text)` and `new URL(text, base)`, with `none` for a `TypeError`.
pub record UrlParser : Type 0 where
  pub parse : String → Option Url
  pub resolve : String → Url → Option Url

pub record PublicOriginConfig : Type 0 where
  pub public_origin : String
  pub allow_matching_forwarded_host : Bool

abbrev pub found_or {ℓ} : {A : Type ℓ} → String → Option A → Result A
found_or message none = err message
found_or message (some a) = ok a

-- `a && a !== b`, where `a` may be missing or empty.
abbrev pub given_and_differs : Option String → String → Bool
given_and_differs none b = false
given_and_differs (some a) b = not (a == "") && not (a == b)

abbrev pub path_is_ambiguous : String → Bool
path_is_ambiguous path =
    not (starts_with path "/")
    || starts_with path "//"
    || any (λ c. nat_beq c 92) (codes path)
    || any (λ c. nat_beq c b'#') (codes path)

-- `proto && proto !== protocol.replace(":", "")`: a protocol ends with its only colon.
abbrev pub proto_differs : Option String → String → Bool
proto_differs none protocol = false
proto_differs (some proto) protocol = not (proto == "") && not (proto <> ":" == protocol)

unfoldable pub differ_in_origin : Option Url → Option Url → Bool
differ_in_origin (some from_url) (some to_url) = not (from_url.origin == to_url.origin)
differ_in_origin (some from_url) none = true
differ_in_origin none to_url = true

module _ (urls : UrlParser) where
  unfoldable pub resolve_public_absolute_uri :
      PublicOriginConfig
      → (path_with_query : String) → (forwarded_host forwarded_proto : Option String)
      → Result String
  resolve_public_absolute_uri config path_with_query forwarded_host forwarded_proto = do
    origin ←
        found_or "publicOrigin must be an absolute URL origin" (urls.parse config.public_origin)
    throw_if (not (origin.pathname == "/") || not (origin.search == "") || not (origin.hash == ""))
        "publicOrigin must not include path, query, or hash"
    throw_if (config.allow_matching_forwarded_host && given_and_differs forwarded_host origin.host)
        "Forwarded host does not match configured publicOrigin"
    throw_if (config.allow_matching_forwarded_host && proto_differs forwarded_proto origin.protocol)
        "Forwarded proto does not match configured publicOrigin"
    throw_if (path_is_ambiguous path_with_query)
        "Request path must be an unambiguous origin-relative path"
    resolved ← found_or "Invalid URL" (urls.resolve path_with_query origin)
    throw_if (not (resolved.origin == origin.origin)) "Request path escaped configured publicOrigin"
    ok resolved.href

  unfoldable pub assert_challenge_request_match :
      (request_method request_url challenge_url resource_method resource_uri : String)
      → Result (Unit {0})
  assert_challenge_request_match request_method request_url challenge_url resource_method
        resource_uri =
      do
        request ← found_or "x424 challenge URL is not absolute" (urls.parse request_url)
        challenge ← found_or "x424 challenge URL is not absolute" (urls.parse challenge_url)
        resource ← found_or "x424 challenge URL is not absolute" (urls.parse resource_uri)
        throw_if
            (not (request.origin == challenge.origin) || not (request.origin == resource.origin))
            "x424 challenge crossed an origin boundary"
        throw_if
            (not (resource_method == to_upper_case request_method)
              || not (resource.href == challenge.href))
            "Human dependency challenge names another HTTP request"

  unfoldable pub is_cross_origin_redirect : String → Option String → Bool
  is_cross_origin_redirect from_url none = false
  is_cross_origin_redirect from_url (some to_url) =
      if to_url == "" then false else differ_in_origin (urls.parse from_url) (urls.parse to_url)

unfoldable pub assert_trusted_https_url : Url → Bool → Result Url
assert_trusted_https_url parsed allow_http_localhost =
    if parsed.protocol == "https:"
    then ok parsed
    else if allow_http_localhost
        && parsed.protocol == "http:"
        && (parsed.hostname == "localhost" || parsed.hostname == "127.0.0.1")
    then ok parsed
    else err "Verifier URL must use https outside local development"
