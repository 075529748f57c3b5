-- ===== src/Canonical/Sorted.antt =====
-- The sorting of the keys in `normalize` of src/canonical-json.ts.
use x.Prelude.{
  ℕ, String, Bool, true, false, List, [], ◌∷◌, ok, ◌≡◌, refl, sym, ◌∙◌, ap, All, codes, string_eq,
  Bool-cases, inl, inr, arith, keep, if◌then◌else◌,
}
use x.Types.{Json}
use x.Canonical.Normal.{Entry, list_le, code_units, key_le, insert_entry, sort_entries}

list_le_trans : (a b c : List ℕ) → list_le a b ≡ true → list_le b c ≡ true → list_le a c ≡ true
list_le_trans [] b c h k = refl
list_le_trans (x ∷ a) [] c h k = absurd (ground (arith, h))
list_le_trans (x ∷ a) (y ∷ b) [] h k = absurd (ground (arith, k))
list_le_trans (x ∷ a) (y ∷ b) (z ∷ c) h k = ground (arith, list_le_trans a b c)

list_le_total : (a b : List ℕ) → list_le a b ≡ false → list_le b a ≡ true
list_le_total [] b h = absurd (ground (arith, h))
list_le_total (x ∷ a) [] h = refl
list_le_total (x ∷ a) (y ∷ b) h = ground (arith, list_le_total a b)

-- No key of the entries comes before the key.
abbrev IsFirst : String → List Entry → Type 0
IsFirst key entries = All (λ entry. key_le key entry.0 ≡ true) entries

abbrev IsSorted : List Entry → Type 0
IsSorted [] = Unit
IsSorted (entry ∷ entries) = IsFirst entry.0 entries × IsSorted entries

IsFirst-trans :
    (a b : String) (entries : List Entry)
    → key_le a b ≡ true
    → IsFirst b entries
    → IsFirst a entries
unfolding key_le
IsFirst-trans a b [] h k = tt
IsFirst-trans a b ((c, r) ∷ entries) h (k, rest) = (
  list_le_trans (code_units (codes a)) (code_units (codes b)) (code_units (codes c)) h k,
  IsFirst-trans a b entries h rest,
)

insert-IsFirst :
    (a : String) (entry : Entry) (entries : List Entry)
    → key_le a entry.0 ≡ true
    → IsFirst a entries
    → IsFirst a (insert_entry entry entries)
unfolding insert_entry
insert-IsFirst a (key, r) [] h k = (h, tt)
insert-IsFirst a (key, r) ((key', r') ∷ entries) h (k, rest) = elim (Bool-cases (key_le key key')) [
  | inl e ↦ rw e (h, (k, rest))
  | inr e ↦ rw e (k, insert-IsFirst a (key, r) entries h rest)
]

insert-IsSorted :
    (entry : Entry) (entries : List Entry)
    → IsSorted entries
    → IsSorted (insert_entry entry entries)
unfolding insert_entry key_le
insert-IsSorted (key, r) [] s = (tt, tt)
insert-IsSorted (key, r) ((key', r') ∷ entries) (f, s) = elim (Bool-cases (key_le key key')) [
  | inl e ↦ rw e ((e, IsFirst-trans key key' entries e f), (f, s))
  | inr e ↦ rw e (
    insert-IsFirst key' (key, r) entries
        (list_le_total (code_units (codes key)) (code_units (codes key')) e) f,
    insert-IsSorted (key, r) entries s,
  )
]

sort-IsSorted : (entries : List Entry) → IsSorted (sort_entries entries)
unfolding sort_entries
sort-IsSorted [] = tt
sort-IsSorted (entry ∷ entries) =
    insert-IsSorted entry (sort_entries entries) (sort-IsSorted entries)

insert_first :
    (entry : Entry) (entries : List Entry)
    → IsFirst entry.0 entries
    → insert_entry entry entries ≡ entry ∷ entries
unfolding insert_entry
insert_first (key, r) [] h = refl
insert_first (key, r) ((key', r') ∷ entries) (h, rest) = rw h refl

module _ (p : Entry → Bool) where
  keep-IsFirst :
      (a : String) (entries : List Entry) → IsFirst a entries → IsFirst a (keep p entries)
  keep-IsFirst a [] h = tt
  keep-IsFirst a (entry ∷ entries) (h, rest) = elim (Bool-cases (p entry)) [
    | inl e ↦ rw e (h, keep-IsFirst a entries rest)
    | inr e ↦ rw e (keep-IsFirst a entries rest)
  ]

  keep-insert_entry :
      (entry : Entry) (entries : List Entry)
      → IsSorted entries
      → keep p (insert_entry entry entries)
        ≡ (if p entry then insert_entry entry (keep p entries) else keep p entries)
  unfolding insert_entry
  keep-insert_entry (key, r) [] s = refl
  keep-insert_entry (key, r) ((key', r') ∷ entries) (f, s) = elim (Bool-cases (key_le key key')) [
    | inl e ↦
        let front =
          insert_first (key, r) (keep p ((key', r') ∷ entries))
            (keep-IsFirst key ((key', r') ∷ entries) (e, IsFirst-trans key key' entries e f)) in
        rw (e, front) refl
    | inr e ↦
        let later = keep-insert_entry (key, r) entries s in
        elim (Bool-cases (p (key', r'))) [
          | inl q ↦ elim (Bool-cases (p (key, r))) [
            | inl w ↦ rw (e, q, w, e) (ap (λ l. (key', r') ∷ l) (later ∙ rw w refl))
            | inr w ↦ rw (e, q, w) (ap (λ l. (key', r') ∷ l) (later ∙ rw w refl))
          ]
          | inr q ↦ rw (e, q) later
        ]
  ]

  -- What is sorted after a choice of the entries is the choice of what is sorted.
  pub sort-keep :
      (entries : List Entry) → sort_entries (keep p entries) ≡ keep p (sort_entries entries)
  unfolding sort_entries
  sort-keep [] = refl
  sort-keep (entry ∷ entries) =
      let inserted = keep-insert_entry entry (sort_entries entries) (sort-IsSorted entries) in
      elim (Bool-cases (p entry)) [
        | inl e ↦ rw e (ap (insert_entry entry) (sort-keep entries) ∙ sym (inserted ∙ rw e refl))
        | inr e ↦ rw e (sort-keep entries ∙ sym (inserted ∙ rw e refl))
      ]

-- Every value among the entries was taken without an error.
abbrev pub AreTaken : List Entry → Type 0
AreTaken entries = All (λ entry. (j : Json) × (entry.1 ≡ ok j)) entries

insert-AreTaken :
    (entry : Entry) (entries : List Entry)
    → (j : Json) × (entry.1 ≡ ok j)
    → AreTaken entries
    → AreTaken (insert_entry entry entries)
unfolding insert_entry
insert-AreTaken (key, r) [] h k = (h, tt)
insert-AreTaken (key, r) ((key', r') ∷ entries) h (k, rest) = elim (Bool-cases (key_le key key')) [
  | inl e ↦ rw e (h, (k, rest))
  | inr e ↦ rw e (k, insert-AreTaken (key, r) entries h rest)
]

pub sort-AreTaken : (entries : List Entry) → AreTaken entries → AreTaken (sort_entries entries)
unfolding sort_entries
sort-AreTaken [] h = tt
sort-AreTaken (entry ∷ entries) (h, rest) =
    insert-AreTaken entry (sort_entries entries) h (sort-AreTaken entries rest)
