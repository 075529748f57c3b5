-- ===== src/Prelude/Maps.antt =====
-- `Map<string, V>` as a list of entries in insertion order, with its laws.
use Prim.Native.Nat.{◌+◌, ◌≤◌}
use Prim.Native.String.{String}
use mathlib.Core.Path.{◌≡◌, refl}
use mathlib.Core.Bool.{Bool}
use mathlib.Core.Option.{Option, none, some}
use mathlib.Core.List.{List, [], ◌∷◌}
use native.Mathlib.Omega.{arith}
use text.Mathlib.TextEquality.{eq_iff}
use x.Prelude.Tests.{◌==◌, string_eq, if◌then◌else◌, is_some}
use x.Prelude.Lists.{length}

abbrev pub StringMap {ℓ} : Type ℓ → Type ℓ
StringMap V = List (String × V)

abbrev pub keep_if {ℓ} : {V : Type ℓ} → (V → Bool) → Option V → Option V
keep_if p none = none
keep_if p (some v) = if p v then some v else none

module _ {ℓ} {V : Type ℓ} where
  unfoldable pub get : String → StringMap V → Option V
  get k [] = none
  get k ((j, v) ∷ m) = if j == k then some v else get k m

  unfoldable pub has : String → StringMap V → Bool
  unfolding get
  has k m = is_some (get k m)

  -- `set` writes over an entry in its place, and adds a new key at the end.
  unfoldable pub set : String → V → StringMap V → StringMap V
  set k v [] = (k, v) ∷ []
  set k v ((j, w) ∷ m) = if j == k then (j, v) ∷ m else (j, w) ∷ set k v m

  unfoldable pub delete : String → StringMap V → StringMap V
  delete k [] = []
  delete k ((j, w) ∷ m) = if j == k then delete k m else (j, w) ∷ delete k m

  -- The loop `for (const [k, v] of map) if (!p(v)) map.delete(k)`.
  unfoldable pub retain : (V → Bool) → StringMap V → StringMap V
  retain p [] = []
  retain p ((j, w) ∷ m) = if p w then (j, w) ∷ retain p m else retain p m

  abbrev pub HasDistinctKeys : StringMap V → Type ℓ
  HasDistinctKeys [] = Unit
  HasDistinctKeys ((k, v) ∷ m) = (get k m ≡ none) × HasDistinctKeys m

  pub get-set :
      (k j : String) (v : V) (m : StringMap V)
      → get j (set k v m) ≡ (if k == j then some v else get j m)
  unfolding get set
  get-set k j v [] = refl
  get-set k j v ((i, w) ∷ m) = ground (arith, eq_iff k j, eq_iff i k, eq_iff i j, get-set k j v m)

  pub get-delete :
      (k j : String) (m : StringMap V) → get j (delete k m) ≡ (if k == j then none else get j m)
  unfolding get delete
  get-delete k j [] = ground arith
  get-delete k j ((i, w) ∷ m) = ground (arith, eq_iff k j, eq_iff i k, eq_iff i j, get-delete k j m)

  pub get-retain-none :
      (p : V → Bool) (k : String) (m : StringMap V) → get k m ≡ none → get k (retain p m) ≡ none
  unfolding get retain
  get-retain-none p k [] h = refl
  get-retain-none p k ((j, w) ∷ m) h = ground (arith, eq_iff j k, get-retain-none p k m)

  pub get-retain :
      (p : V → Bool) (k : String) (m : StringMap V)
      → HasDistinctKeys m
      → get k (retain p m) ≡ keep_if p (get k m)
  unfolding get retain
  get-retain p k [] d = refl
  get-retain p k ((j, w) ∷ m) (fresh, d) =
      ground
        (arith, eq_iff j k, get-retain p k m d, get-retain-none p k m, get-retain-none p j m fresh)

  pub set-HasDistinctKeys :
      (k : String) (v : V) (m : StringMap V) → HasDistinctKeys m → HasDistinctKeys (set k v m)
  unfolding get set
  set-HasDistinctKeys k v [] d = ground arith
  set-HasDistinctKeys k v ((j, w) ∷ m) (fresh, d) =
      ground (arith, eq_iff j k, eq_iff k j, get-set k j v m, set-HasDistinctKeys k v m d)

  pub retain-HasDistinctKeys :
      (p : V → Bool) (m : StringMap V) → HasDistinctKeys m → HasDistinctKeys (retain p m)
  unfolding retain
  retain-HasDistinctKeys p [] d = tt
  retain-HasDistinctKeys p ((j, w) ∷ m) (fresh, d) =
      ground (arith, get-retain-none p j m fresh, retain-HasDistinctKeys p m d)

  pub delete-HasDistinctKeys :
      (k : String) (m : StringMap V) → HasDistinctKeys m → HasDistinctKeys (delete k m)
  unfolding delete
  delete-HasDistinctKeys k [] d = tt
  delete-HasDistinctKeys k ((j, w) ∷ m) (fresh, d) =
      ground (arith, get-delete k j m, delete-HasDistinctKeys k m d)

  pub length-retain : (p : V → Bool) (m : StringMap V) → length (retain p m) ≤ length m
  unfolding retain
  length-retain p [] = omega arith
  length-retain p ((j, w) ∷ m) = ground (arith, length-retain p m)

  pub length-delete : (k : String) (m : StringMap V) → length (delete k m) ≤ length m
  unfolding delete
  length-delete k [] = omega arith
  length-delete k ((j, w) ∷ m) = ground (arith, length-delete k m)

  pub length-set : (k : String) (v : V) (m : StringMap V) → length (set k v m) ≤ length m + 1
  unfolding set
  length-set k v [] = omega arith
  length-set k v ((j, w) ∷ m) = ground (arith, length-set k v m)
