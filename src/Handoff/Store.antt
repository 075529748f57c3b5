-- ===== src/Handoff/Store.antt =====
-- `InMemoryHandoffStore` of src/handoff.ts.
use x.Prelude.{
  ℕ, String, Bool, true, false, ◌&&◌, ◌||◌, not, Option, none, some, StringMap, get, set, has,
  delete, date_parse, num_le, ◌==◌, string_eq, nat_eq, if◌then◌else◌, ◌+◌,
}
use x.Handoff.{StoredHumanHandoff, expired, is_terminal}

pub record HandoffStore : Type 0 where
  pub records : StringMap StoredHumanHandoff
  pub active_dependencies : StringMap String

unfoldable pub create : StoredHumanHandoff → HandoffStore → HandoffStore × Bool
unfolding has
create made store =
    if has made.handoff_id store.records || has made.dependency_id store.active_dependencies
    then (store, false)
    else (
      record {
        records = set made.handoff_id made store.records;
        active_dependencies = set made.dependency_id made.handoff_id store.active_dependencies;
      },
      true,
    )

abbrev pub expire : StoredHumanHandoff → StoredHumanHandoff
expire found = record found { status = expired; version = found.version + 1 }

-- The record is past its expiry, and not yet in a final state.
abbrev pub must_expire : StoredHumanHandoff → ℕ → Bool
must_expire found now =
    num_le (date_parse found.expires_at) (some now) && not (is_terminal found.status)

abbrev pub get_found :
    Option StoredHumanHandoff
    → String
    → String
    → ℕ
    → HandoffStore
    → HandoffStore × Option StoredHumanHandoff
get_found none handoff_id access_token_digest now store = (store, none)
get_found (some found) handoff_id access_token_digest now store =
    if not (found.access_token_digest == access_token_digest)
    then (store, none)
    else if must_expire found now
    then (
      record {
        records = set handoff_id (expire found) store.records;
        active_dependencies = delete found.dependency_id store.active_dependencies;
      },
      some (expire found),
    )
    else (store, some found)

unfoldable pub get_authorized :
    String → String → ℕ → HandoffStore → HandoffStore × Option StoredHumanHandoff
get_authorized handoff_id access_token_digest now store =
    get_found (get handoff_id store.records) handoff_id access_token_digest now store

-- The tests of the compare-and-swap.
abbrev pub may_update : StoredHumanHandoff → StoredHumanHandoff → StoredHumanHandoff → Bool
may_update current previous next =
    current.version == previous.version
    && current.access_token_digest == previous.access_token_digest
    && next.version == previous.version + 1

abbrev pub update_found :
    Option StoredHumanHandoff
    → StoredHumanHandoff
    → StoredHumanHandoff
    → HandoffStore
    → HandoffStore × Bool
update_found none previous next store = (store, false)
update_found (some current) previous next store =
    if may_update current previous next
    then (
      record {
        records = set next.handoff_id next store.records;
        active_dependencies =
            if is_terminal next.status
            then delete next.dependency_id store.active_dependencies
            else store.active_dependencies;
      },
      true,
    )
    else (store, false)

unfoldable pub update : StoredHumanHandoff → StoredHumanHandoff → HandoffStore → HandoffStore × Bool
update previous next store =
    update_found (get previous.handoff_id store.records) previous next store
