-- ===== src/Canonical/Dropped.antt =====
-- What `normalize` of src/canonical-json.ts does with the key `__proto__`.
use x.Prelude.{
  String, Bool, true, not, List, [], ◌∷◌, ◌≡◌, refl, ◌∙◌, ap, ◌==◌, string_eq, Bool-cases, and-true,
  inl, inr, keep, if◌then◌else◌,
}
use x.Types.{Members}
use x.Canonical.Values.{Value, Properties}
use x.Canonical.Normal.{
  normalize, normalize_properties, is_plain_json_value, have_plain_values, Entry, sort_entries,
  collect, assign, add_member,
}
use x.Canonical.Plain.{normalize-returns, plain_is_defined}
use x.Canonical.Sorted.{AreTaken, sort-keep, sort-AreTaken}
use x.Canonical.{canonical_json, Hashed, json, body_digest_from_input, request_digest}

-- The properties of an object but those called `__proto__`.
abbrev pub without_proto : Properties → Properties
without_proto Properties.end = Properties.end
without_proto (Properties.property key v properties) =
    if key == "__proto__"
    then without_proto properties
    else Properties.property key v (without_proto properties)

abbrev is_other : Entry → Bool
is_other entry = not (entry.0 == "__proto__")

-- The loop passes over the entry, wherever it stands.
collect-keep :
    (entries : List Entry) (output : Members)
    → AreTaken entries
    → collect output (keep is_other entries) ≡ collect output entries
unfolding collect assign
collect-keep [] output h = refl
collect-keep ((key, r) ∷ entries) output ((j, taken), rest) =
    elim (Bool-cases (key == "__proto__")) [
      | inl e ↦ rw (e, taken) (rw e (collect-keep entries output rest))
      | inr e ↦ rw (e, taken) (rw e (collect-keep entries (add_member key j output) rest))
    ]

properties-AreTaken :
    (properties : Properties)
    → have_plain_values properties ≡ true
    → AreTaken (normalize_properties properties)
unfolding normalize_properties
properties-AreTaken Properties.end h = tt
properties-AreTaken (Properties.property key v properties) h =
    let (plain, rest) = and-true (is_plain_json_value v) (have_plain_values properties) h in
    rw (plain_is_defined v plain) (normalize-returns v plain, properties-AreTaken properties rest)

properties-keep :
    (properties : Properties)
    → have_plain_values properties ≡ true
    → normalize_properties (without_proto properties)
      ≡ keep is_other (normalize_properties properties)
unfolding normalize_properties
properties-keep Properties.end h = refl
properties-keep (Properties.property key v properties) h =
    let (plain, rest) = and-true (is_plain_json_value v) (have_plain_values properties) h in
    elim (Bool-cases (key == "__proto__")) [
      | inl e ↦ rw (e, plain_is_defined v plain, e) (properties-keep properties rest)
      | inr e ↦
          rw (e, plain_is_defined v plain, e)
            (ap (λ l. (key, normalize v) ∷ l) (properties-keep properties rest))
    ]

without_proto-plain :
    (properties : Properties)
    → have_plain_values properties ≡ true
    → have_plain_values (without_proto properties) ≡ true
without_proto-plain Properties.end h = refl
without_proto-plain (Properties.property key v properties) h =
    let (plain, rest) = and-true (is_plain_json_value v) (have_plain_values properties) h in
    elim (Bool-cases (key == "__proto__")) [
      | inl e ↦ rw e (without_proto-plain properties rest)
      | inr e ↦ rw (e, plain) (without_proto-plain properties rest)
    ]

pub normalize-proto :
    (properties : Properties)
    → have_plain_values properties ≡ true
    → normalize (Value.obj (without_proto properties)) ≡ normalize (Value.obj properties)
unfolding normalize
normalize-proto properties h =
    let entries = normalize_properties properties in
    let same : collect Members.end (sort_entries (normalize_properties (without_proto properties)))
        ≡ collect Members.end (sort_entries entries) =
      ap (λ l. collect Members.end (sort_entries l)) (properties-keep properties h)
      ∙ ap (collect Members.end) (sort-keep is_other entries)
      ∙ collect-keep (sort_entries entries) Members.end
          (sort-AreTaken entries (properties-AreTaken properties h)) in
    rw same refl

-- The digest of a request with a plain object as its JSON body is the digest of the request whose
-- body lacks the object's own properties called `__proto__`, wherever among the properties they
-- stand and whatever their values are.
pub request_digest-proto :
    (sha256 : Hashed → String) (method uri : String) (properties : Properties)
    → is_plain_json_value (Value.obj properties) ≡ true
    → request_digest sha256 method uri (json (Value.obj properties))
      ≡ request_digest sha256 method uri (json (Value.obj (without_proto properties)))
unfolding request_digest body_digest_from_input canonical_json
request_digest-proto sha256 method uri properties h =
    rw (h, without_proto-plain properties h) (rw (normalize-proto properties h) refl)
