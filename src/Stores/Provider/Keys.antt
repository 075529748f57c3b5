-- ===== src/Stores/Provider/Keys.antt =====
-- The keys tell different subjects apart.
use x.Prelude.{
  codes_injective, split_at, ℕ, String, ◌≡◌, ◌≢◌, refl, ap, List, [], ◌∷◌, arith, codes, All,
}
use x.Types.{ProviderReplayEntry, UniquenessScopeKind, global, relying_party, action}
use x.Stores.Provider.{scope_kind_name, entry_key}

-- A text with no NUL character.
abbrev pub NulFree : String → Type 0
NulFree s = All (λ c. c ≢ 0) (codes s)

pub record IsNulFree (e : ProviderReplayEntry) : Type 0 where
  pub provider : NulFree e.provider_id
  pub method : NulFree e.method_id
  pub scope : NulFree e.uniqueness_scope.id
  pub subject : NulFree e.subject_digest

first_code : List ℕ → ℕ
first_code [] = 0
first_code (c ∷ l) = c

kind_of_name :
    (a b : UniquenessScopeKind) → codes (scope_kind_name a) ≡ codes (scope_kind_name b) → a ≡ b
unfolding first_code
kind_of_name global global h = refl
kind_of_name relying_party relying_party h = refl
kind_of_name action action h = refl
kind_of_name UniquenessScopeKind.session UniquenessScopeKind.session h = refl
kind_of_name _ _ h = absurd (omega (arith, ap first_code h))

kind_NulFree : (a : UniquenessScopeKind) → NulFree (scope_kind_name a)
kind_NulFree global = omega arith
kind_NulFree _ = omega arith

-- Two entries whose texts hold no NUL character have the same key only if they are equal.
pub entry_key_injective :
    (e f : ProviderReplayEntry) → IsNulFree e → IsNulFree f → entry_key e ≡ entry_key f → e ≡ f
unfolding entry_key
entry_key_injective e f he hf same =
    let (p1, r1) =
      split_at 0 (codes e.provider_id) (codes f.provider_id) _ _ he.provider hf.provider same in
    let (p2, r2) = split_at 0 (codes e.method_id) (codes f.method_id) _ _ he.method hf.method r1 in
    let (p3, r3) =
      split_at 0 (codes (scope_kind_name e.uniqueness_scope.kind))
        (codes (scope_kind_name f.uniqueness_scope.kind)) _ _ (kind_NulFree e.uniqueness_scope.kind)
        (kind_NulFree f.uniqueness_scope.kind) r2 in
    let (p4, r4) =
      split_at 0 (codes e.uniqueness_scope.id) (codes f.uniqueness_scope.id) _ _ he.scope hf.scope
        r3 in
    cc (
      codes_injective _ _ p1,
      codes_injective _ _ p2,
      kind_of_name _ _ p3,
      codes_injective _ _ p4,
      codes_injective _ _ r4,
    )
