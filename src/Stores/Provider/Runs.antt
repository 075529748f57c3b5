-- ===== src/Stores/Provider/Runs.antt =====
-- Calls of the provider replay store in any order.
use x.Prelude.{
  ℕ, Bool, true, false, ◌≡◌, ◌≤◌, ◌+◌, refl, List, [], ◌∷◌, ◌&&◌, ◌==◌, if◌then◌else◌, includes,
  includes-append, Bool-cases, inl, inr, arith, nat_eq, same_list_iff,
}
use x.Types.{ProviderReplayEntry}
use x.Stores.Provider.{ProviderStore, entry_key, consume, codes_eq}

pub includes-consume :
    (s : ProviderStore) (e : ProviderReplayEntry) (k : List ℕ)
    → includes s k ≡ true
    → includes (consume e s).0 k ≡ true
unfolding consume
includes-consume s e k h = ground (arith, includes-append s (entry_key e ∷ []) k)

pub consume_included :
    (s : ProviderStore) (e : ProviderReplayEntry)
    → includes s (entry_key e) ≡ true
    → (consume e s).1 ≡ false
unfolding consume
consume_included s e h = ground arith

pub consume-includes :
    (s : ProviderStore) (e : ProviderReplayEntry)
    → (consume e s).1 ≡ true
    → includes (consume e s).0 (entry_key e) ≡ true
unfolding consume
consume-includes s e h = ground (
  arith,
  includes-append s (entry_key e ∷ []) (entry_key e),
  same_list_iff (entry_key e) (entry_key e),
)

unfoldable pub wins : List ℕ → ProviderStore → ProviderReplayEntry → Bool
wins k s e = entry_key e == k && (consume e s).1

-- How many calls of a run consume a subject with this key.
unfoldable pub count_wins : List ℕ → ProviderStore → List ProviderReplayEntry → ℕ
count_wins k s [] = 0
count_wins k s (e ∷ es) = (if wins k s e then 1 else 0) + count_wins k (consume e s).0 es

count_wins_included :
    (k : List ℕ) (s : ProviderStore) (es : List ProviderReplayEntry)
    → includes s k ≡ true
    → count_wins k s es ≡ 0
unfolding count_wins wins
count_wins_included k s [] h = refl
count_wins_included k s (e ∷ es) h = ground (
  arith,
  same_list_iff (entry_key e) k,
  consume_included s e,
  count_wins_included k (consume e s).0 es (includes-consume s e k h),
)

-- From any state, at most one call consumes a subject with a given key.
pub subject_wins-le-one :
    (k : List ℕ) (s : ProviderStore) (es : List ProviderReplayEntry) → count_wins k s es ≤ 1
unfolding count_wins wins
subject_wins-le-one k s [] = omega arith
subject_wins-le-one k s (e ∷ es) = elim (Bool-cases (wins k s e)) [
  | inl won ↦
      let same : entry_key e ≡ k = ground (arith, same_list_iff (entry_key e) k) in
      let there : includes (consume e s).0 k ≡ true =
        rw (← same) (consume-includes s e (ground arith)) in
      ground (arith, count_wins_included k (consume e s).0 es there)
  | inr lost ↦ ground (arith, subject_wins-le-one k (consume e s).0 es)
]
