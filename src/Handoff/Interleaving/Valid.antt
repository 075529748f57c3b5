-- ===== src/Handoff/Interleaving/Valid.antt =====
-- The handoff store keeps a record under its own ID, and an open record's dependency points to it.
use x.Prelude.{
  String, true, false, ◌≡◌, refl, sym, ap, ◌∙◌, some, arith, eq_iff, get, set, has, delete,
  StringMap, get-set, get-delete, ◌==◌, string_eq, nat_eq, Bool-cases, inl, inr, ◌||◌,
}
use x.Handoff.{StoredHumanHandoff, is_terminal}
use x.Handoff.Store.{HandoffStore, create}
use x.Handoff.Interleaving.Growth.{replace, some_inj}

abbrev pub IsKeyed : HandoffStore → Type 0
IsKeyed s = (id : String) (c : StoredHumanHandoff) → get id s.records ≡ some c → c.handoff_id ≡ id

-- `#activeDependencies` has the handoff of every record that is open.
abbrev pub IsExclusive : HandoffStore → Type 0
IsExclusive s =
    (id : String) (c : StoredHumanHandoff)
    → get id s.records ≡ some c
    → is_terminal c.status ≡ false
    → get c.dependency_id s.active_dependencies ≡ some id

pub record IsConsistent (s : HandoffStore) : Type 0 where
  pub keyed : IsKeyed s
  pub exclusive : IsExclusive s

pub replace-IsKeyed :
    (s : HandoffStore) (id : String) (new : StoredHumanHandoff) (active : StringMap String)
    → new.handoff_id ≡ id
    → IsKeyed s
    → IsKeyed (replace id new active s)
replace-IsKeyed s id new active own keyed i c h = elim (Bool-cases (id == i)) [
  | inl same ↦
      let e : id ≡ i = ground (arith, eq_iff id i) in
      let o : new ≡ c = ground (arith, get-set id i new s.records) in
      ap (λ r. r.handoff_id) (sym o) ∙ own ∙ e
  | inr other ↦ keyed i c (ground (arith, get-set id i new s.records))
]

-- An open record is replaced by one in a final state.
pub close-IsExclusive :
    (s : HandoffStore) (id : String) (old new : StoredHumanHandoff)
    → get id s.records ≡ some old
    → is_terminal old.status ≡ false
    → is_terminal new.status ≡ true
    → new.dependency_id ≡ old.dependency_id
    → IsExclusive s
    → IsExclusive (replace id new (delete new.dependency_id s.active_dependencies) s)
close-IsExclusive s id old new stored live closed dep exclusive i c h live_c =
    elim (Bool-cases (id == i)) [
      | inl same ↦
          let e : id ≡ i = ground (arith, eq_iff id i) in
          let o : new ≡ c = ground (arith, get-set id i new s.records) in
          absurd (ground (arith, ap (λ r. is_terminal r.status) o))
      | inr other ↦
          let kept : get i s.records ≡ some c = ground (arith, get-set id i new s.records) in
          let points = exclusive i c kept live_c in
          let points_old = exclusive id old stored live in
          elim (Bool-cases (old.dependency_id == c.dependency_id)) [
            | inl shared ↦
                let d : old.dependency_id ≡ c.dependency_id =
                  ground (arith, eq_iff old.dependency_id c.dependency_id) in
                let e : id ≡ i =
                  some_inj (sym points_old ∙ ap (λ k. get k s.active_dependencies) d ∙ points) in
                absurd (ground (arith, eq_iff id i))
            | inr apart ↦
                ground (
                  arith,
                  points,
                  get-delete old.dependency_id c.dependency_id s.active_dependencies,
                )
          ]
    ]

-- An open record is replaced by another open one of the same dependency.
pub keep-IsExclusive :
    (s : HandoffStore) (id : String) (old new : StoredHumanHandoff)
    → get id s.records ≡ some old
    → is_terminal old.status ≡ false
    → new.dependency_id ≡ old.dependency_id
    → IsExclusive s
    → IsExclusive (replace id new s.active_dependencies s)
keep-IsExclusive s id old new stored live dep exclusive i c h live_c = elim (Bool-cases (id == i)) [
  | inl same ↦
      let e : id ≡ i = ground (arith, eq_iff id i) in
      let o : new ≡ c = ground (arith, get-set id i new s.records) in
      let d : c.dependency_id ≡ old.dependency_id = ap (λ r. r.dependency_id) (sym o) ∙ dep in
      ap (λ k. get k s.active_dependencies) d ∙ exclusive id old stored live ∙ ap some e
  | inr other ↦ exclusive i c (ground (arith, get-set id i new s.records)) live_c
]

create-IsKeyed :
    (made : StoredHumanHandoff) (s : HandoffStore) → IsKeyed s → IsKeyed (create made s).0
unfolding create
create-IsKeyed made s keyed =
    elim (Bool-cases
      (has made.handoff_id s.records || has made.dependency_id s.active_dependencies)) [
        | inl refused ↦ rw (refused) keyed
        | inr fresh ↦ rw (fresh) (
            replace-IsKeyed s made.handoff_id made
              (set made.dependency_id made.handoff_id s.active_dependencies) refl keyed)
      ]

create-IsExclusive :
    (made : StoredHumanHandoff) (s : HandoffStore)
    → has made.dependency_id s.active_dependencies ≡ false
    → IsExclusive s
    → IsExclusive (
        replace made.handoff_id made
          (set made.dependency_id made.handoff_id s.active_dependencies)
          s)
unfolding has
create-IsExclusive made s fresh exclusive i c h live = elim (Bool-cases (made.handoff_id == i)) [
  | inl same ↦
      let e : made.handoff_id ≡ i = ground (arith, eq_iff made.handoff_id i) in
      let o : made ≡ c = ground (arith, get-set made.handoff_id i made s.records) in
      let d : made.dependency_id ≡ c.dependency_id = ap (λ r. r.dependency_id) o in
      ground (
        arith,
        d,
        e,
        eq_iff made.dependency_id c.dependency_id,
        get-set made.dependency_id c.dependency_id made.handoff_id s.active_dependencies,
      )
  | inr other ↦
      let points = exclusive i c (ground (arith, get-set made.handoff_id i made s.records)) live in
      elim (Bool-cases (made.dependency_id == c.dependency_id)) [
        | inl shared ↦
            let d : made.dependency_id ≡ c.dependency_id =
              ground (arith, eq_iff made.dependency_id c.dependency_id) in
            absurd (ground (arith, points, ap (λ k. get k s.active_dependencies) d))
        | inr apart ↦ ground (
          arith,
          points,
          get-set made.dependency_id c.dependency_id made.handoff_id s.active_dependencies,
        )
      ]
]

pub create-IsConsistent :
    (made : StoredHumanHandoff) (s : HandoffStore) → IsConsistent s → IsConsistent (create made s).0
unfolding create
create-IsConsistent made s valid = record {
  keyed = create-IsKeyed made s valid.keyed;
  exclusive =
      elim (Bool-cases
        (has made.handoff_id s.records || has made.dependency_id s.active_dependencies)) [
          | inl refused ↦ rw (refused) valid.exclusive
          | inr fresh ↦ rw (fresh) (create-IsExclusive made s (ground arith) valid.exclusive)
        ];
}
