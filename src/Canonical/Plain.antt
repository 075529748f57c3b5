-- ===== src/Canonical/Plain.antt =====
-- `normalize` of src/canonical-json.ts returns for each plain value.
use x.Prelude.{
  true, false, List, [], ◌∷◌, ok, err, ◌≡◌, refl, arith, All, and-true, Bool-cases, inl, inr,
}
use x.Types.{Json, Items, Members}
use x.Canonical.Values.{Value, Elements, Properties}
use x.Canonical.Normal.{
  normalize, normalize_elements, normalize_properties, is_plain_json_value, are_plain,
  have_plain_values, Entry, insert_entry, sort_entries, collect, assign, key_le, is_undefined,
}

abbrev Normal : Entry → Type 0
Normal (key, r) = (j : Json) × (r ≡ ok j)

insert_entry-All :
    (entry : Entry) (entries : List Entry)
    → Normal entry
    → All Normal entries
    → All Normal (insert_entry entry entries)
unfolding insert_entry
insert_entry-All (key, r) [] h hs = (h, tt)
insert_entry-All (key, r) ((key', r') ∷ entries) h (h', hs) = elim (Bool-cases (key_le key key')) [
  | inl before ↦ rw before (h, (h', hs))
  | inr after ↦ rw after (h', insert_entry-All (key, r) entries h hs)
]

sort_entries-All : (entries : List Entry) → All Normal entries → All Normal (sort_entries entries)
unfolding sort_entries
sort_entries-All [] h = tt
sort_entries-All (entry ∷ entries) (h, hs) =
    insert_entry-All entry (sort_entries entries) h (sort_entries-All entries hs)

collect-All :
    (output : Members) (entries : List Entry)
    → All Normal entries
    → (members : Members) × (collect output entries ≡ ok members)
unfolding collect
collect-All output [] h = (output, refl)
collect-All output ((key, ok j) ∷ entries) (h, hs) = collect-All (assign key j output) entries hs
collect-All output ((key, err message) ∷ entries) ((j, e), hs) = absurd (ground arith)

pub plain_is_defined : (v : Value) → is_plain_json_value v ≡ true → is_undefined v ≡ false
plain_is_defined Value.undefined h = cc
plain_is_defined Value.null h = refl
plain_is_defined (Value.bool b) h = refl
plain_is_defined (Value.num n) h = refl
plain_is_defined Value.not_finite h = refl
plain_is_defined (Value.str s) h = refl
plain_is_defined (Value.arr elements) h = refl
plain_is_defined (Value.obj properties) h = refl
plain_is_defined (Value.bytes b) h = refl
plain_is_defined Value.instance_of_class h = refl
plain_is_defined (Value.other type) h = refl

mutual
  unfolding normalize

  normalizes : (v : Value) → is_plain_json_value v ≡ true → (j : Json) × (normalize v ≡ ok j)
  normalizes Value.undefined h = absurd (ground arith)
  normalizes Value.null h = (Json.null, refl)
  normalizes (Value.bool b) h = (Json.bool b, refl)
  normalizes (Value.num n) h = (Json.num n, refl)
  normalizes Value.not_finite h = absurd (ground arith)
  normalizes (Value.str s) h = (Json.str s, refl)
  normalizes (Value.arr elements) h =
      let (items, e) = elements_normalize elements h in (Json.arr items, rw e refl)
  normalizes (Value.obj properties) h =
      let (members, e) =
        collect-All Members.end _ (sort_entries-All _ (properties_normalize properties h)) in
      (Json.obj members, rw e refl)
  normalizes (Value.bytes b) h = absurd (ground arith)
  normalizes Value.instance_of_class h = absurd (ground arith)
  normalizes (Value.other type) h = absurd (ground arith)

  elements_normalize :
      (elements : Elements)
      → are_plain elements ≡ true
      → (items : Items) × (normalize_elements elements ≡ ok items)
  elements_normalize Elements.nil h = (Items.nil, refl)
  elements_normalize (Elements.cons v elements) h =
      let (j, e) = normalizes v (ground arith) in
      let (items, e') = elements_normalize elements (ground arith) in
      (Items.cons j items, rw e (rw e' refl))

  properties_normalize :
      (properties : Properties)
      → have_plain_values properties ≡ true
      → All Normal (normalize_properties properties)
  properties_normalize Properties.end h = tt
  properties_normalize (Properties.property key v properties) h =
      let (plain, rest) = and-true _ _ h in
      rw (plain_is_defined v plain) (normalizes v plain, properties_normalize properties rest)

-- The headline.
pub normalize-returns :
    (v : Value) → is_plain_json_value v ≡ true → (j : Json) × (normalize v ≡ ok j)
normalize-returns v h = normalizes v h
