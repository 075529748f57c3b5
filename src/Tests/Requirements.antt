-- ===== src/Tests/Requirements.antt =====
-- The requirement store at the examples.
use x.Prelude.{
  ◌≡◌, refl, List, [], ◌∷◌, some, arith, unreadable, get as entry_at, has, retain, utf16_length,
  eq_iff,
}
use mathlib.Core.Option.{some-injective}
use x.Types.{HumanRequirement}
use x.Stores.Requirements.{
  RequirementStore, RequirementEntry, put, put_for_tenant, put_entry, put_pruned, prune, get,
  tenant_id_invalid,
}
use x.Stores.Requirements.Invariant.{
  IsValid, step, step-IsValid, put_call, get_for_tenant_call, delete_for_tenant_call, Call,
}
use x.Stores.Requirements.Retention.{Holds, run, AllSpare, Holds-run}
use x.Stores.Requirements.Tenants.{IsIsolated, put_for_tenant-IsIsolated, get_unreadable}
use x.Tests.Data.{requirement}

abbrev empty : RequirementStore
empty = record { entries = []; maximum_entries = 2 }

empty-IsValid : IsValid empty
unfolding entry_at
empty-IsValid = record {
  distinct = tt;
  bounded = omega arith;
  keyed = λ id entry stored. absurd (ground arith);
}

step_example : IsValid (step empty (put_call requirement 1500 1501))
step_example = step-IsValid empty (put_call requirement 1500 1501) empty-IsValid

abbrev held : RequirementEntry
held = record { requirement = requirement; tenant_id = some "a" }

abbrev full : RequirementStore
full = record { entries = ("dep", held) ∷ []; maximum_entries = 2 }

full-IsValid : IsValid full
unfolding entry_at
full-IsValid = record {
  distinct = (refl, tt);
  bounded = omega arith;
  keyed = λ id entry stored. ground (arith, eq_iff "dep" id);
}

-- Another tenant's deletion, and a read.
abbrev calls : List Call
calls = delete_for_tenant_call "dep" "b" 2000 ∷ get_for_tenant_call "dep" "a" 2001 ∷ []

calls-AllSpare : AllSpare "dep" held calls
calls-AllSpare =
    ((refl, λ same e. ground (arith, eq_iff "a" "b", some-injective "a" "b" e)), (refl, tt))

retention_example : IsValid (run calls full) × Holds (run calls full) "dep" held
unfolding entry_at
retention_example = Holds-run full "dep" held calls full-IsValid calls-AllSpare refl

isolation_example :
    IsIsolated (run calls (put_for_tenant requirement "a" 1500 1501 empty).0) requirement "a" 3000
unfolding put_for_tenant put_entry put_pruned prune retain has entry_at tenant_id_invalid
    utf16_length
isolation_example =
    put_for_tenant-IsIsolated empty requirement "a" 1500 1501 3000 calls empty-IsValid refl
      calls-AllSpare refl

abbrev unending : HumanRequirement
unending = record requirement { expires_at = unreadable "never" }

unreadable_example : (get "dep" 999999999 (put unending 1500 1501 empty).0).1 ≡ some unending
unfolding prune retain has entry_at
unreadable_example =
    get_unreadable empty unending "never" 1500 1501 999999999 refl refl (omega arith)
