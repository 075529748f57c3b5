-- ===== src/Tokens/External.antt =====
-- What src/result-token.ts calls of the platform and of the schema library, and
-- `parseCanonicalJsonBytes` of src/canonical-json.ts.
use x.Prelude.{
  ℕ, String, Bool, not, Option, none, some, List, [], ◌∷◌, Result, ok, err, ◌>>=◌, ◌>>◌, throw_if,
  same_list, nat_eq, nat_beq, if◌then◌else◌, ◌<>◌,
}
use x.Types.{HumanResult, Json, Items, Members}
use x.Canonical.Values.{Value, Elements, Properties}
use x.Canonical.{canonical_json}

-- A key object, or the text of a PEM file.
pub data KeyMaterial (Key : Type 0) : Type 0 where
  key_object : Key → KeyMaterial Key
  pem : String → KeyMaterial Key

pub record Platform : Type 1 where
  pub Key : Type 0
  -- `Buffer.from(text, "utf8")`, and a fatal `TextDecoder`
  pub encode_text : List ℕ → List ℕ
  pub decode_text : List ℕ → Option (List ℕ)
  -- `JSON.parse`, with `none` for a `SyntaxError`
  pub json_parse : List ℕ → Option Json
  pub create_public_key : String → Result Key
  pub create_private_key : String → Result Key
  pub sign : Key → List ℕ → List ℕ
  pub verify : Key → List ℕ → List ℕ → Bool
  -- The canonical JSON of a result, and the schema that reads it back.
  pub result_text : HumanResult → List ℕ
  pub read_result : Json → Result HumanResult

-- A parsed value as a value of the language.
abbrev mutual
  pub of_json : Json → Value
  of_json Json.null = Value.null
  of_json (Json.bool b) = Value.bool b
  of_json (Json.num n) = Value.num n
  of_json (Json.str s) = Value.str s
  of_json (Json.arr items) = Value.arr (of_items items)
  of_json (Json.obj members) = Value.obj (of_members members)

  pub of_items : Items → Elements
  of_items Items.nil = Elements.nil
  of_items (Items.cons j items) = Elements.cons (of_json j) (of_items items)

  pub of_members : Members → Properties
  of_members Members.end = Properties.end
  of_members (Members.member key j members) =
      Properties.property key (of_json j) (of_members members)

abbrev pub present_or {ℓ} : {A : Type ℓ} → String → Option A → Result A
present_or message none = err message
present_or message (some a) = ok a

unfoldable pub parse_canonical_json_bytes : Platform → List ℕ → String → Result Json
parse_canonical_json_bytes p bytes label = do
  text ← present_or ("Malformed " <> label) (p.decode_text bytes)
  value ← present_or ("Malformed " <> label) (p.json_parse text)
  canonical ← canonical_json (of_json value)
  throw_if (not (same_list canonical text)) ("Non-canonical " <> label)
  ok value

-- `split` by one character.
abbrev pub first_more : ℕ → List (List ℕ) → List (List ℕ)
first_more c [] = (c ∷ []) ∷ []
first_more c (part ∷ parts) = (c ∷ part) ∷ parts

unfoldable pub split : ℕ → List ℕ → List (List ℕ)
split mark [] = [] ∷ []
split mark (c ∷ cs) = if nat_beq c mark then [] ∷ split mark cs else first_more c (split mark cs)
