-- ===== src/Canonical/Normal.antt =====
-- `normalize` and `isPlainJsonValue` of src/canonical-json.ts.
use x.Prelude.{
  ℕ, String, Bool, true, false, ◌&&◌, ◌||◌, not, Option, none, some, List, [], ◌∷◌, ◌==◌, string_eq,
  if◌then◌else◌, nat_beq, ltb, codes, ◌+◌, ◌-◌, ◌*◌, is_digit, all, is_empty, Result, ok, err,
  ◌>>=◌, ◌<>◌,
}
use Prim.Native.Nat.{◌/◌, ◌%◌}
use x.Types.{Json, Items, Members}
use x.Canonical.Values.{Value, Elements, Properties}

abbrev mutual
  pub is_plain_json_value : Value → Bool
  is_plain_json_value Value.undefined = false
  is_plain_json_value Value.null = true
  is_plain_json_value (Value.bool b) = true
  is_plain_json_value (Value.num n) = true
  is_plain_json_value Value.not_finite = false
  is_plain_json_value (Value.str s) = true
  is_plain_json_value (Value.arr elements) = are_plain elements
  is_plain_json_value (Value.obj properties) = have_plain_values properties
  is_plain_json_value (Value.bytes b) = false
  is_plain_json_value Value.instance_of_class = false
  is_plain_json_value (Value.other type) = false

  pub are_plain : Elements → Bool
  are_plain Elements.nil = true
  are_plain (Elements.cons v elements) = is_plain_json_value v && are_plain elements

  pub have_plain_values : Properties → Bool
  have_plain_values Properties.end = true
  have_plain_values (Properties.property key v properties) =
      is_plain_json_value v && have_plain_values properties

-- The UTF-16 code units of a text, by which `sort` compares.
abbrev pub code_units : List ℕ → List ℕ
code_units [] = []
code_units (c ∷ cs) =
    if ltb c 65536
    then c ∷ code_units cs
    else (55296 + (c - 65536) / 1024) ∷ (56320 + (c - 65536) % 1024) ∷ code_units cs

abbrev pub list_le : List ℕ → List ℕ → Bool
list_le [] m = true
list_le (a ∷ l) [] = false
list_le (a ∷ l) (b ∷ m) = ltb a b || nat_beq a b && list_le l m

unfoldable pub key_le : String → String → Bool
key_le a b = list_le (code_units (codes a)) (code_units (codes b))

-- A key with what `normalize` makes of its value.
abbrev pub Entry : Type 0
Entry = String × Result Json

unfoldable pub insert_entry : Entry → List Entry → List Entry
insert_entry (key, r) [] = (key, r) ∷ []
insert_entry (key, r) ((key', r') ∷ entries) =
    if key_le key key'
    then (key, r) ∷ (key', r') ∷ entries
    else (key', r') ∷ insert_entry (key, r) entries

-- `Object.keys(value).sort()`, each key with its value.
unfoldable pub sort_entries : List Entry → List Entry
unfolding insert_entry
sort_entries [] = []
sort_entries (entry ∷ entries) = insert_entry entry (sort_entries entries)

abbrev number_from : ℕ → List ℕ → ℕ
number_from n [] = n
number_from n (c ∷ cs) = number_from (n * 10 + (c - 48)) cs

abbrev decimal_index : List ℕ → Option ℕ
decimal_index [] = none
decimal_index (c ∷ cs) =
    if all is_digit (c ∷ cs)
      && (not (nat_beq c b'0') || is_empty cs)
      && ltb (number_from 0 (c ∷ cs)) 4294967295
    then some (number_from 0 (c ∷ cs))
    else none

abbrev index_first : Option ℕ → Option ℕ → Bool
index_first (some a) (some b) = ltb a b
index_first (some a) none = true
index_first none b = false

-- An object keeps the keys that are array indices first, in ascending order, and then the other
-- keys in the order in which they were added.
unfoldable pub comes_first : String → String → Bool
comes_first key key' = index_first (decimal_index (codes key)) (decimal_index (codes key'))

unfoldable pub add_member : String → Json → Members → Members
add_member key j Members.end = Members.member key j Members.end
add_member key j (Members.member key' k members) =
    if comes_first key key'
    then Members.member key j (Members.member key' k members)
    else Members.member key' k (add_member key j members)

-- `output[key] = value`: a value for `__proto__` replaces the prototype, and is no member.
unfoldable pub assign : String → Json → Members → Members
assign key j output = if key == "__proto__" then output else add_member key j output

-- The loop over the sorted keys.
unfoldable pub collect : Members → List Entry → Result Members
collect output [] = ok output
collect output ((key, ok j) ∷ entries) = collect (assign key j output) entries
collect output ((key, err message) ∷ entries) = err message

-- `child === undefined`
abbrev pub is_undefined : Value → Bool
is_undefined Value.undefined = true
is_undefined value = false

unfoldable mutual
  pub normalize : Value → Result Json
  normalize Value.undefined = err "Value is not canonical JSON: undefined"
  normalize Value.null = ok Json.null
  normalize (Value.bool b) = ok (Json.bool b)
  normalize (Value.num n) = ok (Json.num n)
  normalize Value.not_finite = err "Non-finite JSON number"
  normalize (Value.str s) = ok (Json.str s)
  normalize (Value.arr elements) = normalize_elements elements >>= λ items. ok (Json.arr items)
  normalize (Value.obj properties) =
      collect Members.end (sort_entries (normalize_properties properties)) >>= λ members.
      ok (Json.obj members)
  normalize (Value.bytes b) =
      err "Value is not plain JSON; use opaque bytes or an explicit bodyInput kind"
  normalize Value.instance_of_class =
      err "Value is not plain JSON; use opaque bytes or an explicit bodyInput kind"
  normalize (Value.other type) = err ("Value is not canonical JSON: " <> type)

  pub normalize_elements : Elements → Result Items
  normalize_elements Elements.nil = ok Items.nil
  normalize_elements (Elements.cons v elements) =
      normalize v >>= λ j. (normalize_elements elements >>= λ items. ok (Items.cons j items))

  -- A value that is not defined is passed over.
  pub normalize_properties : Properties → List Entry
  normalize_properties Properties.end = []
  normalize_properties (Properties.property key v properties) =
      if is_undefined v
      then normalize_properties properties
      else (key, normalize v) ∷ normalize_properties properties
