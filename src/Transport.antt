-- ===== src/Transport.antt =====
-- src/transport.ts: how a requirement travels, the origins that may ask, and the URIs that are
-- named. A header value is the list of its code points. `URL` is the platform's, a parameter.
pub mod Vary
pub mod Urls
use x.Prelude.{
  ℕ, zero, suc, String, Bool, true, false, ◌&&◌, ◌||◌, not, Option, none, some, List, [], ◌∷◌, ◌++◌,
  map, Result, ok, err, ◌>>=◌, ◌>>◌, throw_if, if◌then◌else◌, nat_beq, ltb, leb, is_empty, length,
  ◌==◌, string_eq, nat_eq, any, keep, codes, includes, same_list, is_upper, ◌+◌, is_some, ◌<>◌,
}
use x.Tokens.External.{split}

abbrev pub header_absolute_max_bytes : ℕ
header_absolute_max_bytes = 65536

abbrev pub header_interop_envelope_bytes : ℕ
header_interop_envelope_bytes = 8192

pub data TransportMode : Type 0 where
  header body : TransportMode

-- The length in UTF-8.
abbrev width : ℕ → ℕ
width c = if ltb c 128 then 1 else if ltb c 2048 then 2 else if ltb c 65536 then 3 else 4

unfoldable pub encoded_header_byte_length : List ℕ → ℕ
encoded_header_byte_length [] = 0
encoded_header_byte_length (c ∷ cs) = width c + encoded_header_byte_length cs

unfoldable pub select_requirement_transport_mode : ℕ → Result TransportMode
select_requirement_transport_mode encoded_header_length =
    if ltb header_absolute_max_bytes encoded_header_length
    then err "x424 requirement exceeds absolute transport maximum"
    else if ltb header_interop_envelope_bytes encoded_header_length
    then ok body
    else ok header

unfoldable pub assert_header_size : List ℕ → String → Result (Unit {0})
assert_header_size value label = do
  throw_if (is_empty value) ("Invalid " <> label)
  throw_if (ltb header_absolute_max_bytes (encoded_header_byte_length value)) ("Invalid " <> label)

unfoldable pub assert_inline_header_envelope : List ℕ → Result (Unit {0})
assert_inline_header_envelope encoded =
    throw_if (ltb header_interop_envelope_bytes (encoded_header_byte_length encoded))
      "HUMAN-REQUIRED exceeds interop envelope; use body transport"

-- `String.prototype.toLowerCase` on the letters of ASCII.
abbrev pub to_lower_case : List ℕ → List ℕ
to_lower_case [] = []
to_lower_case (c ∷ cs) = (if is_upper c then c + 32 else c) ∷ to_lower_case cs

-- White space of ASCII, and the no-break space.
abbrev is_space : ℕ → Bool
is_space c = nat_beq c 32 || leb 9 c && leb c 13 || nat_beq c 160

unfoldable pub trim_start : List ℕ → List ℕ
trim_start [] = []
trim_start (c ∷ cs) = if is_space c then trim_start cs else c ∷ cs

abbrev without_space : ℕ → List ℕ → List ℕ
without_space c rest = if is_space c && is_empty rest then [] else c ∷ rest

unfoldable pub trim_end : List ℕ → List ℕ
trim_end [] = []
trim_end (c ∷ cs) = without_space c (trim_end cs)

unfoldable pub trim : List ℕ → List ℕ
unfolding trim_start trim_end
trim text = trim_start (trim_end text)

-- `join(", ")`
unfoldable pub join_list : List (List ℕ) → List ℕ
join_list [] = []
join_list (value ∷ []) = value
join_list (value ∷ value' ∷ values) = value ++ (b',' ∷ 32 ∷ join_list (value' ∷ values))

-- The trimmed values that are not empty.
unfoldable pub vary_tokens : Option (List ℕ) → List (List ℕ) → List (List ℕ)
vary_tokens none values = keep (λ value. not (is_empty value)) (map trim ([] ∷ values))
vary_tokens (some existing) values =
    keep (λ value. not (is_empty value)) (map trim (split b',' existing ++ values))

abbrev pub contains : List (List ℕ) → List ℕ → Bool
contains values value = any (λ other. same_list other value) values

-- The filter that keeps the first of the values that differ in capitals only.
unfoldable pub first_of_each : List (List ℕ) → List (List ℕ) → List (List ℕ)
first_of_each seen [] = []
first_of_each seen (value ∷ values) = elim (contains seen (to_lower_case value)) [
  | true ↦ first_of_each seen values
  | false ↦ value ∷ first_of_each (to_lower_case value ∷ seen) values
]

unfoldable pub merge_vary : Option (List ℕ) → List (List ℕ) → List ℕ
merge_vary existing values =
    let tokens = vary_tokens existing values in
    if contains tokens (b'*' ∷ []) then b'*' ∷ [] else join_list (first_of_each [] tokens)

pub record CorsPolicy : Type 0 where
  pub allowed_origins : List String
  pub allow_credentials : Bool
  pub max_age_seconds : Option ℕ

-- What the headers of an origin that is allowed say.
pub record CorsHeaders : Type 0 where
  pub allow_origin : String
  pub allow_credentials : Bool
  pub max_age : Option ℕ
  pub vary : String

unfoldable pub build_cors_headers : Option String → CorsPolicy → Option CorsHeaders
build_cors_headers none policy = none
build_cors_headers (some origin) policy =
    if origin == "" || not (includes policy.allowed_origins origin)
    then none
    else some (record {
      allow_origin = origin;
      allow_credentials = policy.allow_credentials;
      max_age = policy.max_age_seconds;
      vary = "Origin";
    })
