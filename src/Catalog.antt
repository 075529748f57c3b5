-- ===== src/Catalog.antt =====
-- src/catalog.ts: method identifiers, keys, and the construction of a catalog.
pub mod Laws
pub mod Keys
use x.Prelude.{
  ℕ, String, Bool, true, false, ◌&&◌, ◌||◌, List, [], ◌∷◌, Result, ok, err, ◌>>=◌, ◌>>◌, throw_if,
  ◌==◌, string_eq, nat_beq, leb, StringMap, get, set, has, codes, is_lower, is_digit, all, length,
  is_empty, not, ◌<>◌,
}
use x.Types.{HumanMethodDescriptor}

abbrev pub Catalog : Type 0
Catalog = StringMap HumanMethodDescriptor

abbrev pub method_key : String → String → String
method_key provider_id method_id = provider_id <> ":" <> method_id

-- `[a-z0-9]`
abbrev first_ok : ℕ → Bool
first_ok c = is_lower c || is_digit c

-- `[a-z0-9._-]`
abbrev rest_ok : ℕ → Bool
rest_ok c = first_ok c || nat_beq c b'.' || nat_beq c b'_' || nat_beq c b'-'

abbrev matches_identifier : List ℕ → Bool
matches_identifier [] = false
matches_identifier (c ∷ cs) = first_ok c && all rest_ok cs && leb (length cs) 99

unfoldable pub is_human_method_identifier : String → Bool
is_human_method_identifier value = matches_identifier (codes value)

-- The body of the loop, on the catalog so far. The frozen copy of a descriptor is the descriptor.
unfoldable pub add_method : Catalog → HumanMethodDescriptor → Result Catalog
unfolding has
add_method catalog descriptor = do
  let key = method_key descriptor.provider_id descriptor.method_id
  throw_if (has key catalog) ("Duplicate human method: " <> key)
  throw_if
      (not (is_human_method_identifier descriptor.provider_id)
        || not (is_human_method_identifier descriptor.method_id)
        || descriptor.version == "")
      ("Human method identifiers are invalid: " <> key)
  throw_if (descriptor.claim == "" || is_empty descriptor.non_claims)
      ("Human method must declare claim and non-claims: " <> key)
  throw_if (is_empty descriptor.native_scope_kinds || is_empty descriptor.verification_modes)
      ("Human method must declare scope and execution: " <> key)
  ok (set key descriptor catalog)

unfoldable pub add_methods : Catalog → List HumanMethodDescriptor → Result Catalog
add_methods catalog [] = ok catalog
add_methods catalog (descriptor ∷ descriptors) =
    add_method catalog descriptor >>= λ catalog'. add_methods catalog' descriptors

unfoldable pub define_method_catalog : List HumanMethodDescriptor → Result Catalog
unfolding add_methods
define_method_catalog descriptors = add_methods [] descriptors
