-- ===== src/Issuance/Paths.antt =====
-- The paths of src/auth/issuance.ts: `normalizeAuthorizedPath`, and the test of a prefix. A path is
-- the list of its code points.
use x.Prelude.{
  ℕ, Bool, true, false, ◌&&◌, ◌||◌, not, Option, none, some, List, [], ◌∷◌, ◌++◌, nat_beq, nat_eq,
  same_list, any, keep, is_empty, if◌then◌else◌,
}
use x.Tokens.External.{split}

-- `String.prototype.startsWith`
abbrev pub begins_with : (text prefix : List ℕ) → Bool
begins_with text [] = true
begins_with [] (p ∷ ps) = false
begins_with (c ∷ cs) (p ∷ ps) = nat_beq c p && begins_with cs ps

-- `includes("//")`
abbrev pub has_double_slash : List ℕ → Bool
has_double_slash [] = false
has_double_slash (c ∷ cs) = begins_with (c ∷ cs) (b'/' ∷ b'/' ∷ []) || has_double_slash cs

abbrev pub has_code : ℕ → List ℕ → Bool
has_code code text = any (λ c. nat_beq c code) text

-- `split("/").filter((segment) => segment.length > 0)`
unfoldable pub segments_of : List ℕ → List (List ℕ)
segments_of pathname = keep (λ segment. not (is_empty segment)) (split b'/' pathname)

abbrev pub is_dots : List ℕ → Bool
is_dots segment = same_list segment (b'.' ∷ []) || same_list segment (b'.' ∷ b'.' ∷ [])

-- A slash before each segment.
abbrev pub slashed : List (List ℕ) → List ℕ
slashed [] = []
slashed (segment ∷ segments) = b'/' ∷ (segment ++ slashed segments)

-- The path of these segments.
abbrev pub path_of : List (List ℕ) → List ℕ
path_of [] = b'/' ∷ []
path_of (segment ∷ segments) = slashed (segment ∷ segments)

unfoldable pub is_ambiguous : List ℕ → Bool
is_ambiguous pathname =
    not (begins_with pathname (b'/' ∷ []))
    || (has_code b'%' pathname || has_code 92 pathname || has_code 0 pathname)
    || has_double_slash pathname
    || any is_dots (segments_of pathname)

unfoldable pub normalize_authorized_path : List ℕ → Option (List ℕ)
normalize_authorized_path pathname =
    if is_ambiguous pathname then none else some (path_of (segments_of pathname))

-- `prefix.endsWith("/")`
abbrev pub ends_with_slash : List ℕ → Bool
ends_with_slash [] = false
ends_with_slash (c ∷ []) = nat_beq c b'/'
ends_with_slash (c ∷ d ∷ cs) = ends_with_slash (d ∷ cs)

-- The last tests of the loop over the grants.
unfoldable pub path_covered : (path prefix : List ℕ) → Bool
path_covered path prefix =
    same_list prefix (b'/' ∷ [])
    || same_list path prefix
    || begins_with path (if ends_with_slash prefix then prefix else prefix ++ (b'/' ∷ []))
