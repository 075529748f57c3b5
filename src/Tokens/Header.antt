-- ===== src/Tokens/Header.antt =====
-- The header of a token of src/result-token.ts, written and read back.
use x.Prelude.{
  ℕ, String, some, List, [], ◌++◌, ok, ◌≡◌, ◌≢◌, refl, arith, codes, All, nat_eq, same_list_iff,
  eq_iff, string_eq,
}
use x.Types.{Json, Members}
use x.Encoding.{encode_strict_base64url, decode_strict_base64url}
use x.Encoding.RoundTrip.{IsByte, base64url, encode-base64url}
use x.Encoding.Accepted.{decode_iff}
use x.Canonical.{canonical_json}
use x.Canonical.Normal.{normalize, sort_entries, key_le, collect, assign, add_member, comes_first}
use x.Canonical.Print.{print, quoted, escape, escape_all}
use x.Tokens.{token_header, checked_header, parse_token_header}
use x.Tokens.External.{Platform, of_json, parse_canonical_json_bytes}

-- The header as `JSON.parse` gives it, and its canonical text.
abbrev pub header_json : String → Json
header_json kid = Json.obj (
    Members.member "alg" (Json.str "EdDSA") (
      Members.member "kid" (Json.str kid)
        (Members.member "typ" (Json.str "x424-result+jws") Members.end)))

abbrev pub header_text : String → List ℕ
header_text kid =
    codes "{\"alg\":\"EdDSA\",\"kid\":" ++ (quoted kid ++ codes ",\"typ\":\"x424-result+jws\"}")

pub canonical_json-token_header :
    (kid : String) → canonical_json (token_header kid) ≡ ok (header_text kid)
unfolding canonical_json normalize sort_entries key_le collect assign add_member comes_first print
    quoted escape_all escape
canonical_json-token_header kid = refl

canonical_json-header_json :
    (kid : String) → canonical_json (of_json (header_json kid)) ≡ ok (header_text kid)
unfolding canonical_json normalize sort_entries key_le collect assign add_member comes_first print
    quoted escape_all escape
canonical_json-header_json kid = refl

checked_header-header_json : (kid : String) → kid ≢ "" → checked_header (header_json kid) ≡ ok kid
unfolding checked_header
checked_header-header_json kid h = ground (arith, eq_iff kid "")

-- What the platform does with one text: it writes it as bytes, at least one, and reads it back.
pub record IsReadable (p : Platform) (text : List ℕ) : Type 0 where
  pub whole : All IsByte (p.encode_text text)
  pub some_bytes : p.encode_text text ≢ []
  pub decodes : p.decode_text (p.encode_text text) ≡ some text

pub decode-encode_text :
    (p : Platform) (text : List ℕ) (label : String)
    → IsReadable p text
    → decode_strict_base64url (encode_strict_base64url (p.encode_text text)) label
      ≡ ok (p.encode_text text)
decode-encode_text p text label v = rw (encode-base64url (p.encode_text text)) (
    (decode_iff (base64url (p.encode_text text)) (p.encode_text text) label).1
      (v.some_bytes, v.whole, refl))

pub parse_token_header-encode :
    (p : Platform) (kid : String)
    → kid ≢ ""
    → IsReadable p (header_text kid)
    → p.json_parse (header_text kid) ≡ some (header_json kid)
    → parse_token_header p (encode_strict_base64url (p.encode_text (header_text kid))) ≡ ok kid
unfolding parse_token_header parse_canonical_json_bytes
parse_token_header-encode p kid named v parses =
    rw (decode-encode_text p (header_text kid) "JWS header" v) (
      rw v.decodes (
        rw parses (
          rw (canonical_json-header_json kid) (
            rw ((same_list_iff (header_text kid) (header_text kid)).1 refl)
              (checked_header-header_json kid named)))))
