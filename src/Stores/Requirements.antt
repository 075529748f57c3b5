-- ===== src/Stores/Requirements.antt =====
-- `InMemoryRequirementStore` of src/requirement-store.ts. A method is one step: what it awaits is
-- its own private method, which awaits nothing. `put` reads the clock twice.
pub mod Invariant
pub mod Tenants
pub mod Retention
use x.Prelude.{
  ℕ, String, Bool, true, false, ◌||◌, not, Option, none, some, StringMap, get as entry_at, set, has,
  delete as remove, retain, date_parse, num_le, ltb, ◌==◌, string_eq, if◌then◌else◌, utf16_length,
  codes, List, [], ◌∷◌, Result, ok, err, length, leb, nat_beq, option_beq, any,
}
use x.Types.{HumanRequirement}

pub record RequirementEntry : Type 0 where
  pub requirement : HumanRequirement
  pub tenant_id : Option String

pub record RequirementStore : Type 0 where
  pub entries : StringMap RequirementEntry
  pub maximum_entries : ℕ

-- The constructor; a number is an integer here.
unfoldable pub create : ℕ → Result RequirementStore
create maximum_entries =
    if ltb maximum_entries 1
    then err "maximumEntries must be a positive integer"
    else ok (record { entries = []; maximum_entries = maximum_entries })

-- `[\u0000-\u001f\u007f]`
abbrev is_control : ℕ → Bool
is_control c = leb c 31 || nat_beq c 127

-- `assertTenantId` throws.
unfoldable pub tenant_id_invalid : String → Bool
tenant_id_invalid tenant_id =
    tenant_id == "" || ltb 512 (utf16_length tenant_id) || any is_control (codes tenant_id)

-- `Date.parse(requirement.expiresAt) <= now`, which is false for a text that is not readable.
abbrev pub has_expired : RequirementEntry → ℕ → Bool
has_expired entry now = num_le (date_parse entry.requirement.expires_at) (some now)

unfoldable pub prune : ℕ → RequirementStore → RequirementStore
prune now store = record store {
  entries = retain (λ entry. not (has_expired entry now)) store.entries;
}

-- What the private `#put` does after pruning.
unfoldable pub put_pruned :
    HumanRequirement → Option String → ℕ → RequirementStore → RequirementStore × Result (Unit {0})
put_pruned requirement tenant_id later pruned =
    let entry : RequirementEntry = record { requirement = requirement; tenant_id = tenant_id } in
    if has requirement.dependency_id pruned.entries
    then (pruned, err "Dependency ID already exists")
    else if leb pruned.maximum_entries (length pruned.entries)
    then (pruned, err "Requirement store is full")
    else if has_expired entry later
    then (pruned, err "Cannot store an expired human requirement")
    else (record pruned { entries = set requirement.dependency_id entry pruned.entries }, ok tt)

-- The private `#put`: the store after the call, and what it throws.
unfoldable pub put_entry :
    HumanRequirement
    → Option String
    → ℕ
    → ℕ
    → RequirementStore
    → RequirementStore × Result (Unit {0})
put_entry requirement tenant_id now later store =
    put_pruned requirement tenant_id later (prune now store)

unfoldable pub put :
    HumanRequirement → ℕ → ℕ → RequirementStore → RequirementStore × Result (Unit {0})
put requirement now later store = put_entry requirement none now later store

unfoldable pub put_for_tenant :
    HumanRequirement → String → ℕ → ℕ → RequirementStore → RequirementStore × Result (Unit {0})
put_for_tenant requirement tenant_id now later store =
    if tenant_id_invalid tenant_id
    then (store, err "Invalid requirement tenant ID")
    else put_entry requirement (some tenant_id) now later store

drop_expired :
    Option RequirementEntry
    → String
    → ℕ
    → RequirementStore
    → RequirementStore × Option RequirementEntry
drop_expired none dependency_id now store = (store, none)
drop_expired (some entry) dependency_id now store =
    if has_expired entry now
    then (record store { entries = remove dependency_id store.entries }, none)
    else (store, some entry)

-- The private `#getEntry`: an entry that has expired is deleted.
unfoldable pub get_entry :
    String → ℕ → RequirementStore → RequirementStore × Option RequirementEntry
unfolding drop_expired
get_entry dependency_id now store =
    drop_expired (entry_at dependency_id store.entries) dependency_id now store

abbrev requirement_of : Option RequirementEntry → Option HumanRequirement
requirement_of none = none
requirement_of (some entry) = some entry.requirement

unfoldable pub get : String → ℕ → RequirementStore → RequirementStore × Option HumanRequirement
get dependency_id now store =
    let (store', found) = get_entry dependency_id now store in (store', requirement_of found)

-- `entry?.tenantId === tenantId`
abbrev pub owned_by : String → Option RequirementEntry → Bool
owned_by tenant_id none = false
owned_by tenant_id (some entry) = option_beq entry.tenant_id (some tenant_id)

unfoldable pub get_for_tenant :
    String → String → ℕ → RequirementStore → RequirementStore × Result (Option HumanRequirement)
get_for_tenant dependency_id tenant_id now store =
    if tenant_id_invalid tenant_id
    then (store, err "Invalid requirement tenant ID")
    else (let (store', found) = get_entry dependency_id now store in
        (store', ok (if owned_by tenant_id found then requirement_of found else none)))

unfoldable pub delete : String → RequirementStore → RequirementStore
delete dependency_id store = record store { entries = remove dependency_id store.entries }

-- What `deleteForTenant` does with the entry that it gets.
unfoldable pub delete_owned :
    String → String → RequirementStore × Option RequirementEntry → RequirementStore × Result Bool
delete_owned dependency_id tenant_id (store, found) =
    if owned_by tenant_id found
    then (delete dependency_id store, ok (has dependency_id store.entries))
    else (store, ok false)

unfoldable pub delete_for_tenant :
    String → String → ℕ → RequirementStore → RequirementStore × Result Bool
unfolding delete_owned
delete_for_tenant dependency_id tenant_id now store =
    if tenant_id_invalid tenant_id
    then (store, err "Invalid requirement tenant ID")
    else delete_owned dependency_id tenant_id (get_entry dependency_id now store)
