-- ===== src/Stores/Requirements/Retention.antt =====
-- A stored requirement is neither replaced nor lost before it expires.
use x.Prelude.{
  ℕ, String, ◌≡◌, ◌≢◌, refl, false, not, Option, none, some, List, [], ◌∷◌, arith, eq_iff,
  Bool-cases, inl, inr, option_beq, eq-true, ◌==◌, string_eq, ap, get as entry_at, has, get-set,
  get-delete, get-retain,
}
use x.Types.{HumanRequirement}
use x.Stores.Requirements.{
  RequirementEntry, RequirementStore, has_expired, prune, put_pruned, put_entry, put,
  put_for_tenant, get_entry, get, get_for_tenant, delete, delete_for_tenant, tenant_id_invalid,
  delete_owned,
}
use x.Stores.Requirements.Invariant.{
  IsValid, Call, put_call, put_for_tenant_call, get_call, get_for_tenant_call, delete_call,
  delete_for_tenant_call, step, step-IsValid,
}

-- The dependency has this entry.
abbrev pub Holds : RequirementStore → String → RequirementEntry → Type 0
Holds s id entry = entry_at id s.entries ≡ some entry

Holds-prune :
    (s : RequirementStore) (id : String) (entry : RequirementEntry) (now : ℕ)
    → IsValid s
    → has_expired entry now ≡ false
    → Holds s id entry
    → Holds (prune now s) id entry
unfolding prune
Holds-prune s id entry now v running h =
    ground (arith, get-retain (λ e. not (has_expired e now)) id s.entries v.distinct)

Holds-put_pruned :
    (s : RequirementStore) (id : String) (entry : RequirementEntry) (r : HumanRequirement)
    (tenant : Option String) (later : ℕ)
    → Holds s id entry
    → Holds (put_pruned r tenant later s).0 id entry
unfolding put_pruned has
Holds-put_pruned s id entry r tenant later h = ground (
  arith,
  get-set r.dependency_id id (record { requirement = r; tenant_id = tenant }) s.entries,
  eq_iff r.dependency_id id,
)

Holds-put_entry :
    (s : RequirementStore) (id : String) (entry : RequirementEntry) (r : HumanRequirement)
    (tenant : Option String) (now later : ℕ)
    → IsValid s
    → has_expired entry now ≡ false
    → Holds s id entry
    → Holds (put_entry r tenant now later s).0 id entry
unfolding put_entry
Holds-put_entry s id entry r tenant now later v running h =
    Holds-put_pruned (prune now s) id entry r tenant later (Holds-prune s id entry now v running h)

Holds-get_entry :
    (s : RequirementStore) (id j : String) (entry : RequirementEntry) (now : ℕ)
    → has_expired entry now ≡ false
    → Holds s id entry
    → Holds (get_entry j now s).0 id entry
unfolding get_entry
Holds-get_entry s id j entry now running h = ground (arith, get-delete j id s.entries, eq_iff j id)

pub get_entry_held :
    (s : RequirementStore) (id : String) (entry : RequirementEntry) (now : ℕ)
    → has_expired entry now ≡ false
    → Holds s id entry
    → get_entry id now s ≡ (s, some entry)
unfolding get_entry
get_entry_held s id entry now running h = ground arith

-- The call reads the clock before the entry expires, and is no deletion of the dependency, by
-- anyone or by the entry's tenant.
abbrev pub Spares : String → RequirementEntry → Call → Type 0
Spares id entry (put_call r now later) = has_expired entry now ≡ false
Spares id entry (put_for_tenant_call r t now later) = has_expired entry now ≡ false
Spares id entry (get_call j now) = has_expired entry now ≡ false
Spares id entry (get_for_tenant_call j t now) = has_expired entry now ≡ false
Spares id entry (delete_call j) = j ≢ id
Spares id entry (delete_for_tenant_call j t now) =
    (has_expired entry now ≡ false) × (j ≡ id → entry.tenant_id ≢ some t)

pub other_tenant : (o : Option String) (t : String) → o ≢ some t → option_beq o (some t) ≡ false
other_tenant none t h = refl
other_tenant (some u) t h = elim (Bool-cases (u == t)) [
  | inl same ↦ absurd (h (ap some (eq-true u t same)))
  | inr other ↦ other
]

-- The part of `deleteForTenant` after the check of the tenant ID.
Holds-delete_owned :
    (s : RequirementStore) (id j t : String) (entry : RequirementEntry) (now : ℕ)
    → (has_expired entry now ≡ false) × (j ≡ id → entry.tenant_id ≢ some t)
    → Holds s id entry
    → Holds (delete_owned j t (get_entry j now s)).0 id entry
unfolding delete delete_owned
Holds-delete_owned s id j t entry now (running, foreign) h = elim (Bool-cases (j == id)) [
  | inl is_same ↦
      let same : j ≡ id = eq-true j id is_same in
      rw
        (
          same,
          get_entry_held s id entry now running h,
          other_tenant entry.tenant_id t (foreign same),
        )
        h
  | inr other ↦ ground (
    arith,
    Holds-get_entry s id j entry now running h,
    get-delete j id (get_entry j now s).0.entries,
  )
]

Holds-step :
    (s : RequirementStore) (id : String) (entry : RequirementEntry) (c : Call)
    → IsValid s
    → Spares id entry c
    → Holds s id entry
    → Holds (step s c) id entry
unfolding step put put_for_tenant get get_for_tenant delete_for_tenant delete
Holds-step s id entry (put_call r now later) v sp h =
    Holds-put_entry s id entry r none now later v sp h
Holds-step s id entry (put_for_tenant_call r t now later) v sp h =
    elim (Bool-cases (tenant_id_invalid t)) [
      | inl bad ↦ rw (bad, step) h
      | inr good ↦ rw (good, step) (Holds-put_entry s id entry r (some t) now later v sp h)
    ]
Holds-step s id entry (get_call j now) v sp h = Holds-get_entry s id j entry now sp h
Holds-step s id entry (get_for_tenant_call j t now) v sp h =
    elim (Bool-cases (tenant_id_invalid t)) [
      | inl bad ↦ rw (bad, step) h
      | inr good ↦ rw (good, step) (Holds-get_entry s id j entry now sp h)
    ]
Holds-step s id entry (delete_call j) v sp h =
    ground (arith, get-delete j id s.entries, eq_iff j id)
Holds-step s id entry (delete_for_tenant_call j t now) v sp h =
    elim (Bool-cases (tenant_id_invalid t)) [
      | inl bad ↦ rw (bad, step) h
      | inr good ↦ rw (good, step) (Holds-delete_owned s id j t entry now sp h)
    ]

unfoldable pub run : List Call → RequirementStore → RequirementStore
run [] s = s
run (c ∷ cs) s = run cs (step s c)

abbrev pub AllSpare : String → RequirementEntry → List Call → Type 0
AllSpare id entry [] = Unit
AllSpare id entry (c ∷ cs) = Spares id entry c × AllSpare id entry cs

-- Whatever calls follow before the entry expires, the dependency keeps the very entry that was
-- stored, unless it is deleted through the unscoped `delete` or by its own tenant.
pub Holds-run :
    (s : RequirementStore) (id : String) (entry : RequirementEntry) (cs : List Call)
    → IsValid s
    → AllSpare id entry cs
    → Holds s id entry
    → IsValid (run cs s) × Holds (run cs s) id entry
unfolding run
Holds-run s id entry [] v sp h = (v, h)
Holds-run s id entry (c ∷ cs) v (sp, later) h =
    Holds-run (step s c) id entry cs (step-IsValid s c v) later (Holds-step s id entry c v sp h)
