-- ===== src/Stores/Provider.antt =====
-- `InMemoryProviderReplayStore` of src/nonce-store.ts: the keys of the provider subjects that are
-- used. A key is given by its code points.
pub mod Keys
pub mod Runs
use x.Prelude.{
  join, ℕ, String, Bool, true, false, ◌||◌, List, [], ◌∷◌, ◌++◌, includes, ◌==◌, string_eq,
  if◌then◌else◌, codes, Eq, same_list, nat_eq, ◌↔◌, ◌≡◌, same_list_iff,
}
use x.Types.{ProviderReplayEntry, UniquenessScopeKind, global, relying_party, action}

instance abbrev pub codes_eq : Eq (List ℕ)
codes_eq = record { beq = same_list; beq_iff = same_list_iff }

abbrev pub ProviderStore : Type 0
ProviderStore = List (List ℕ)

abbrev pub scope_kind_name : UniquenessScopeKind → String
scope_kind_name global = "global"
scope_kind_name relying_party = "relying_party"
scope_kind_name action = "action"
scope_kind_name UniquenessScopeKind.session = "session"

unfoldable pub entry_key : ProviderReplayEntry → List ℕ
unfolding join
entry_key entry = join 0 (
    entry.provider_id
    ∷ entry.method_id
    ∷ scope_kind_name entry.uniqueness_scope.kind
    ∷ entry.uniqueness_scope.id
    ∷ entry.subject_digest
    ∷ [])

unfoldable pub consume : ProviderReplayEntry → ProviderStore → ProviderStore × Bool
consume entry used =
    if entry.provider_id == ""
      || entry.method_id == ""
      || entry.uniqueness_scope.id == ""
      || entry.subject_digest == ""
      || includes used (entry_key entry)
    then (used, false)
    else (used ++ entry_key entry ∷ [], true)
