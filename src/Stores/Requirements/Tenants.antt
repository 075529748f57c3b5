-- ===== src/Stores/Requirements/Tenants.antt =====
-- Which tenant sees and deletes a requirement.
use x.Prelude.{
  ℕ, String, ◌≡◌, ◌≢◌, ◌<◌, refl, false, Option, none, some, List, ok, arith, Bool-cases, inl, inr,
  has, get-set, leb, length, num_le, date_parse, unreadable, eq_refl, sym,
}
use mathlib.Core.Option.{some-injective}
use x.Types.{HumanRequirement}
use x.Stores.Requirements.{
  RequirementEntry, RequirementStore, prune, put_pruned, put_entry, put, put_for_tenant, get_entry,
  get, get_for_tenant, delete_for_tenant, tenant_id_invalid,
}
use x.Stores.Requirements.Invariant.{IsValid, Call, step, step-IsValid, put_for_tenant_call}
use x.Stores.Requirements.Retention.{Holds, AllSpare, run, Holds-run, get_entry_held, other_tenant}

put_pruned-Holds :
    (s : RequirementStore) (r : HumanRequirement) (tenant : Option String) (later : ℕ)
    → (put_pruned r tenant later s).1 ≡ ok tt
    → Holds
        (put_pruned r tenant later s).0
        r.dependency_id
        (record { requirement = r; tenant_id = tenant })
unfolding put_pruned
put_pruned-Holds s r tenant later h = ground (
  arith,
  get-set r.dependency_id r.dependency_id (record { requirement = r; tenant_id = tenant })
      s.entries,
  eq_refl r.dependency_id,
)

pub put_entry-Holds :
    (s : RequirementStore) (r : HumanRequirement) (tenant : Option String) (now later : ℕ)
    → (put_entry r tenant now later s).1 ≡ ok tt
    → Holds
        (put_entry r tenant now later s).0
        r.dependency_id
        (record { requirement = r; tenant_id = tenant })
unfolding put_entry
put_entry-Holds s r tenant now later h = put_pruned-Holds (prune now s) r tenant later h

put_for_tenant-Holds :
    (s : RequirementStore) (r : HumanRequirement) (a : String) (now later : ℕ)
    → (put_for_tenant r a now later s).1 ≡ ok tt
    → (tenant_id_invalid a ≡ false)
      × Holds
          (put_for_tenant r a now later s).0
          r.dependency_id
          (record { requirement = r; tenant_id = some a })
unfolding put_for_tenant
put_for_tenant-Holds s r a now later h = elim (Bool-cases (tenant_id_invalid a)) [
  | inl bad ↦ absurd (ground arith)
  | inr good ↦ (
    good,
    rw (good, put_for_tenant)
        (put_entry-Holds s r (some a) now later (rw (good, put_for_tenant) at h)),
  )
]

-- What the two tenants get for a dependency that is there.
pub record IsIsolated (s : RequirementStore) (r : HumanRequirement) (a : String) (now : ℕ)
    : Type 0 where
  pub owner_gets : get_for_tenant r.dependency_id a now s ≡ (s, ok (some r))
  pub others_get_none :
      (b : String)
      → b ≢ a
      → tenant_id_invalid b ≡ false
      → get_for_tenant r.dependency_id b now s ≡ (s, ok none)
  pub others_delete_nothing :
      (b : String)
      → b ≢ a
      → tenant_id_invalid b ≡ false
      → delete_for_tenant r.dependency_id b now s ≡ (s, ok false)

Holds-IsIsolated :
    (s : RequirementStore) (r : HumanRequirement) (a : String) (now : ℕ)
    → tenant_id_invalid a ≡ false
    → num_le (date_parse r.expires_at) (some now) ≡ false
    → Holds s r.dependency_id (record { requirement = r; tenant_id = some a })
    → IsIsolated s r a now
unfolding get_for_tenant delete_for_tenant
Holds-IsIsolated s r a now good running h =
    let entry : RequirementEntry = record { requirement = r; tenant_id = some a } in
    let found : get_entry r.dependency_id now s ≡ (s, some entry) =
      get_entry_held s r.dependency_id entry now running h in
    record {
      owner_gets = rw (good, get_for_tenant) (rw found (rw (eq_refl a)));
      others_get_none = λ b other fine.
          rw (fine, get_for_tenant)
            (rw found (rw (other_tenant (some a) b (λ e. other (sym (some-injective a b e))))));
      others_delete_nothing = λ b other fine.
          rw (fine, delete_for_tenant)
            (rw found (rw (other_tenant (some a) b (λ e. other (sym (some-injective a b e))))));
    }

put_for_tenant-IsValid :
    (s : RequirementStore) (r : HumanRequirement) (a : String) (now later : ℕ)
    → IsValid s
    → IsValid (put_for_tenant r a now later s).0
unfolding step
put_for_tenant-IsValid s r a now later v = step-IsValid s (put_for_tenant_call r a now later) v

-- After a tenant has stored a requirement, whatever calls follow that spare it, and until it
-- expires: the tenant reads back this very requirement, and every other tenant reads nothing and
-- deletes nothing.
pub put_for_tenant-IsIsolated :
    (s : RequirementStore) (r : HumanRequirement) (a : String) (now later u : ℕ) (cs : List Call)
    → IsValid s
    → (put_for_tenant r a now later s).1 ≡ ok tt
    → AllSpare r.dependency_id (record { requirement = r; tenant_id = some a }) cs
    → num_le (date_parse r.expires_at) (some u) ≡ false
    → IsIsolated (run cs (put_for_tenant r a now later s).0) r a u
put_for_tenant-IsIsolated s r a now later u cs v done spared running =
    let (good, held) = put_for_tenant-Holds s r a now later done in
    let (_, kept) =
      Holds-run (put_for_tenant r a now later s).0 r.dependency_id
        (record { requirement = r; tenant_id = some a }) cs
        (put_for_tenant-IsValid s r a now later v) spared held in
    Holds-IsIsolated (run cs (put_for_tenant r a now later s).0) r a u good running kept

put_unreadable :
    (s : RequirementStore) (r : HumanRequirement) (text : String) (later : ℕ)
    → r.expires_at ≡ unreadable text
    → has r.dependency_id s.entries ≡ false
    → length s.entries < s.maximum_entries
    → (put_pruned r none later s).1 ≡ ok tt
unfolding put_pruned
put_unreadable s r text later bad absent room =
    let open_end : num_le (date_parse r.expires_at) (some later) ≡ false = rw bad refl in
    let free : leb s.maximum_entries (length s.entries) ≡ false = ground arith in
    rw absent (rw free (rw open_end refl))

put_entry_unreadable :
    (s : RequirementStore) (r : HumanRequirement) (text : String) (now later : ℕ)
    → r.expires_at ≡ unreadable text
    → has r.dependency_id (prune now s).entries ≡ false
    → length (prune now s).entries < (prune now s).maximum_entries
    → (put_entry r none now later s).1 ≡ ok tt
unfolding put_entry
put_entry_unreadable s r text now later bad absent room =
    put_unreadable (prune now s) r text later bad absent room

-- A requirement whose expiry is no readable time is stored, if there is room and the dependency is
-- new, and is then returned at every reading of the clock: it never expires.
pub get_unreadable :
    (s : RequirementStore) (r : HumanRequirement) (text : String) (now later u : ℕ)
    → r.expires_at ≡ unreadable text
    → has r.dependency_id (prune now s).entries ≡ false
    → length (prune now s).entries < (prune now s).maximum_entries
    → (get r.dependency_id u (put r now later s).0).1 ≡ some r
unfolding get put
get_unreadable s r text now later u bad absent room =
    let entry : RequirementEntry = record { requirement = r; tenant_id = none } in
    let stored =
      put_entry-Holds s r none now later
        (put_entry_unreadable s r text now later bad absent room) in
    let open_end : num_le (date_parse r.expires_at) (some u) ≡ false = rw bad refl in
    rw (get_entry_held (put_entry r none now later s).0 r.dependency_id entry u open_end stored)
      refl
