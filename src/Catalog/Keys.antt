-- ===== src/Catalog/Keys.antt =====
-- The key of a method tells providers and methods apart.
use x.Prelude.{
  ℕ, String, true, ◌≡◌, ◌≢◌, List, [], ◌∷◌, ◌++◌, all, All, arith, codes, ◌<>◌, codes_injective,
  codes-append, split_at, ap, ◌∙◌, sym,
}
use x.Catalog.{method_key, is_human_method_identifier, rest_ok, matches_identifier}

no_colon_rest : (cs : List ℕ) → all rest_ok cs ≡ true → All (λ c. c ≢ b':') cs
no_colon_rest [] h = tt
no_colon_rest (c ∷ cs) h = (ground arith, no_colon_rest cs (ground arith))

no_colon : (cs : List ℕ) → matches_identifier cs ≡ true → All (λ c. c ≢ b':') cs
no_colon [] h = tt
no_colon (c ∷ cs) h = (ground arith, no_colon_rest cs (ground arith))

key_codes : (a b : String) → codes (method_key a b) ≡ codes a ++ (b':' ∷ codes b)
key_codes a b = codes-append a (":" <> b) ∙ ap (λ cs. codes a ++ cs) (codes-append ":" b)

-- Two methods with valid provider identifiers have the same key only if provider and method are
-- the same.
pub method_key_injective :
    (p m q n : String)
    → is_human_method_identifier p ≡ true
    → is_human_method_identifier q ≡ true
    → method_key p m ≡ method_key q n
    → (p ≡ q) × (m ≡ n)
unfolding is_human_method_identifier
method_key_injective p m q n hp hq same =
    let (front, back) =
      split_at b':' (codes p) (codes q) (codes m) (codes n) (no_colon (codes p) hp)
        (no_colon (codes q) hq) (sym (key_codes p m) ∙ ap codes same ∙ key_codes q n) in
    (codes_injective p q front, codes_injective m n back)
