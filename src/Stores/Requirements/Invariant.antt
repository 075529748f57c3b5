-- ===== src/Stores/Requirements/Invariant.antt =====
-- What holds of a requirement store between two calls.
use x.Prelude.{
  Bool-cases, leb, num_le, date_parse, has, ℕ, String, ◌≡◌, ◌≤◌, ◌<◌, refl, not, Option, none, some,
  [], ok, arith, eq_iff, length, get as entry_at, set, HasDistinctKeys, set-HasDistinctKeys,
  delete-HasDistinctKeys, retain-HasDistinctKeys, length-set, length-delete, length-retain,
  Option-cases, inl, inr, get-set, get-delete, get-retain,
}
use x.Types.{HumanRequirement}
use x.Stores.Requirements.{
  RequirementEntry, RequirementStore, create, has_expired, prune, put_entry, put, put_for_tenant,
  get_entry, get, get_for_tenant, delete, delete_for_tenant, put_pruned, tenant_id_invalid,
  owned_by,
}

-- No dependency twice, no more entries than the maximum, and each entry under its requirement's
-- dependency ID.
pub record IsValid (s : RequirementStore) : Type 0 where
  pub distinct : HasDistinctKeys s.entries
  pub bounded : length s.entries ≤ s.maximum_entries
  pub keyed :
      (id : String) (entry : RequirementEntry)
      → entry_at id s.entries ≡ some entry
      → entry.requirement.dependency_id ≡ id

pub prune-IsValid : (s : RequirementStore) (now : ℕ) → IsValid s → IsValid (prune now s)
unfolding prune
prune-IsValid s now v = record {
  distinct = retain-HasDistinctKeys _ s.entries v.distinct;
  bounded =
      omega (arith, length-retain (λ entry. not (has_expired entry now)) s.entries, v.bounded);
  keyed = λ id entry stored. elim (Option-cases (entry_at id s.entries)) [
    | inl missing ↦
        absurd (
          ground (arith, get-retain (λ entry. not (has_expired entry now)) id s.entries v.distinct))
    | inr (old, there) ↦ ground (
      arith,
      get-retain (λ entry. not (has_expired entry now)) id s.entries v.distinct,
      v.keyed id old there,
    )
  ];
}

delete-IsValid : (s : RequirementStore) (id : String) → IsValid s → IsValid (delete id s)
unfolding delete
delete-IsValid s id v = record {
  distinct = delete-HasDistinctKeys id s.entries v.distinct;
  bounded = omega (arith, length-delete id s.entries, v.bounded);
  keyed = λ j entry stored. ground (arith, get-delete id j s.entries, v.keyed j entry);
}

set-IsValid :
    (s : RequirementStore) (r : HumanRequirement) (tenant : Option String)
    → IsValid s
    → length s.entries < s.maximum_entries
    → IsValid (record s {
      entries = set r.dependency_id (record { requirement = r; tenant_id = tenant }) s.entries;
    })
set-IsValid s r tenant v room = record {
  distinct =
      set-HasDistinctKeys r.dependency_id (record { requirement = r; tenant_id = tenant }) s.entries
        v.distinct;
  bounded = omega (
    arith,
    length-set r.dependency_id
        (let e : RequirementEntry = record { requirement = r; tenant_id = tenant } in e) s.entries,
  );
  keyed = λ j entry stored. ground (
    arith,
    get-set r.dependency_id j (record { requirement = r; tenant_id = tenant }) s.entries,
    eq_iff r.dependency_id j,
    v.keyed j entry,
  );
}

put_pruned-IsValid :
    (s : RequirementStore) (r : HumanRequirement) (tenant : Option String) (later : ℕ)
    → IsValid s
    → IsValid (put_pruned r tenant later s).0
unfolding put_pruned
put_pruned-IsValid s r tenant later v = elim (Bool-cases (has r.dependency_id s.entries)) [
  | inl known ↦ rw known v
  | inr unknown ↦ rw unknown (elim (Bool-cases (leb s.maximum_entries (length s.entries))) [
    | inl full ↦ rw full v
    | inr room ↦ rw room (elim (Bool-cases (num_le (date_parse r.expires_at) (some later))) [
      | inl over ↦ rw over v
      | inr running ↦ rw running (set-IsValid s r tenant v (ground arith))
    ])
  ])
]

put_entry-IsValid :
    (s : RequirementStore) (r : HumanRequirement) (tenant : Option String) (now later : ℕ)
    → IsValid s
    → IsValid (put_entry r tenant now later s).0
unfolding put_entry
put_entry-IsValid s r tenant now later v =
    put_pruned-IsValid (prune now s) r tenant later (prune-IsValid s now v)

get_entry-IsValid :
    (s : RequirementStore) (id : String) (now : ℕ) → IsValid s → IsValid (get_entry id now s).0
unfolding get_entry delete
get_entry-IsValid s id now v = elim (Option-cases (entry_at id s.entries)) [
  | inl missing ↦ rw (missing, get_entry) v
  | inr (entry, stored) ↦ elim (Bool-cases (has_expired entry now)) [
    | inl over ↦ rw (stored, get_entry, over) (delete-IsValid s id v)
    | inr running ↦ rw (stored, get_entry, running) v
  ]
]

-- The calls of the store's public methods.
pub data Call : Type 0 where
  put_call : HumanRequirement → (now later : ℕ) → Call
  put_for_tenant_call : HumanRequirement → (tenant_id : String) → (now later : ℕ) → Call
  get_call : (dependency_id : String) → (now : ℕ) → Call
  get_for_tenant_call : (dependency_id tenant_id : String) → (now : ℕ) → Call
  delete_call : (dependency_id : String) → Call
  delete_for_tenant_call : (dependency_id tenant_id : String) → (now : ℕ) → Call

unfoldable pub step : RequirementStore → Call → RequirementStore
step s (put_call r now later) = (put r now later s).0
step s (put_for_tenant_call r t now later) = (put_for_tenant r t now later s).0
step s (get_call id now) = (get id now s).0
step s (get_for_tenant_call id t now) = (get_for_tenant id t now s).0
step s (delete_call id) = delete id s
step s (delete_for_tenant_call id t now) = (delete_for_tenant id t now s).0

-- Every method keeps the invariant, whether it throws or not, at any reading of the clock.
pub step-IsValid : (s : RequirementStore) (c : Call) → IsValid s → IsValid (step s c)
unfolding step put put_for_tenant get get_for_tenant delete_for_tenant
step-IsValid s (put_call r now later) v = put_entry-IsValid s r none now later v
step-IsValid s (put_for_tenant_call r t now later) v = elim (Bool-cases (tenant_id_invalid t)) [
  | inl bad ↦ rw (bad, step) v
  | inr good ↦ rw (good, step) (put_entry-IsValid s r (some t) now later v)
]
step-IsValid s (get_call id now) v = get_entry-IsValid s id now v
step-IsValid s (get_for_tenant_call id t now) v = elim (Bool-cases (tenant_id_invalid t)) [
  | inl bad ↦ rw (bad, step) v
  | inr good ↦ rw (good, step) (get_entry-IsValid s id now v)
]
step-IsValid s (delete_call id) v = delete-IsValid s id v
step-IsValid s (delete_for_tenant_call id t now) v = elim (Bool-cases (tenant_id_invalid t)) [
  | inl bad ↦ rw (bad, step) v
  | inr good ↦
      let w = get_entry-IsValid s id now v in
      rw (good, step)
        (elim (Bool-cases (owned_by t (get_entry id now s).1)) [
          | inl own ↦ rw own (delete-IsValid (get_entry id now s).0 id w)
          | inr other ↦ rw other w
        ])
]

-- A store that the constructor accepts is empty and valid, and has room for at least one entry.
pub create-IsValid :
    (n : ℕ) (s : RequirementStore)
    → create n ≡ ok s
    → IsValid s × (s.entries ≡ []) × (1 ≤ s.maximum_entries)
unfolding create entry_at
create-IsValid n s h =
    let same : s ≡ record { entries = []; maximum_entries = n } = ground arith in
    rw same (
      record {
        distinct = tt;
        bounded = omega arith;
        keyed = λ id entry stored. absurd (ground arith);
      },
      refl,
      ground arith,
    )
