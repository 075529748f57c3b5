-- ===== src/Transport/Vary.antt =====
-- `mergeVary` of src/transport.ts loses none of the values that it is given.
use x.Prelude.{
  ℕ, Bool, true, false, Option, List, [], ◌∷◌, Bool-cases, inl, inr, ◌≡◌, refl, any, same_list,
  same_list_iff, nat_eq,
}
use x.Transport.{vary_tokens, first_of_each, contains, merge_vary, join_list, to_lower_case}

-- Some value is this one, capitals aside.
abbrev pub names : List (List ℕ) → List ℕ → Bool
names values value = any (λ other. same_list (to_lower_case other) (to_lower_case value)) values

-- A text that stands for all headers, or lists values of which one is this, capitals aside.
pub data Varies (value text : List ℕ) : Type 0 where
  by_all : text ≡ b'*' ∷ [] → Varies value text
  by_value :
      (values : List (List ℕ))
      → text ≡ join_list values
      → names values value ≡ true
      → Varies value text

-- What was seen is not this value, if the one says yes and the other no.
seen_differs :
    (seen : List (List ℕ)) (other value : List ℕ)
    → contains seen (to_lower_case other) ≡ true
    → contains seen (to_lower_case value) ≡ false
    → same_list (to_lower_case other) (to_lower_case value) ≡ false
seen_differs seen other value yes' no' =
    elim (Bool-cases (same_list (to_lower_case other) (to_lower_case value))) [
      | inr differ ↦ differ
      | inl same ↦
          let e = (same_list_iff (to_lower_case other) (to_lower_case value)).0 same in
          absurd (let k = rw e at yes' in cc)
    ]

-- A value that was not seen is kept.
names-first_of_each :
    (seen values : List (List ℕ)) (value : List ℕ)
    → contains seen (to_lower_case value) ≡ false
    → names values value ≡ true
    → names (first_of_each seen values) value ≡ true
unfolding first_of_each
names-first_of_each seen [] value fresh h = h
names-first_of_each seen (other ∷ values) value fresh h =
    elim (Bool-cases (contains seen (to_lower_case other))) [
      | inl old ↦
          let differ = seen_differs seen other value old fresh in
          rw (old, first_of_each) (names-first_of_each seen values value fresh (rw differ at h))
      | inr new ↦ elim (Bool-cases (same_list (to_lower_case other) (to_lower_case value))) [
        | inl same ↦ rw (new, first_of_each) (rw same refl)
        | inr differ ↦
            rw (new, first_of_each)
              (rw differ (
                names-first_of_each (to_lower_case other ∷ seen) values value (rw differ fresh)
                  (rw differ at h)))
      ]
    ]

-- Of the values that are put together, one names this: then the merged text varies with it.
pub merge_vary-Varies :
    (existing : Option (List ℕ)) (values : List (List ℕ)) (value : List ℕ)
    → names (vary_tokens existing values) value ≡ true
    → Varies value (merge_vary existing values)
unfolding merge_vary
merge_vary-Varies existing values value h =
    elim (Bool-cases (contains (vary_tokens existing values) (b'*' ∷ []))) [
      | inl all_headers ↦ by_all (rw all_headers refl)
      | inr listed ↦
          by_value (first_of_each [] (vary_tokens existing values)) (rw listed refl)
            (names-first_of_each [] (vary_tokens existing values) value refl h)
    ]
