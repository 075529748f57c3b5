-- ===== src/Handoff/Cancel.antt =====
-- `cancel` of `HumanHandoffService`. What the adapter's `cancelHandoff` does or throws has no
-- effect on the stores of this code, and so it is left out.
pub mod Interleaved
pub mod Outcome
use x.Prelude.{String, ℕ, Bool, false, Option, none, some, ◌==◌, if◌then◌else◌}
use x.Handoff.{StoredHumanHandoff, cancelled, is_terminal, handoff_status_eq}
use x.Handoff.Store.{HandoffStore, get_authorized, update}
use x.Handoff.Transitions.{cancelled_from}

cancel_found : Option StoredHumanHandoff → HandoffStore → HandoffStore × Bool
cancel_found none store = (store, false)
cancel_found (some current) store =
    if is_terminal current.status
    then (store, current.status == cancelled)
    else update current (cancelled_from current) store

-- `digest` is the hash of the access token.
unfoldable pub cancel : String → String → ℕ → HandoffStore → HandoffStore × Bool
unfolding cancel_found
cancel handoff_id digest now store =
    let (store', found) = get_authorized handoff_id digest now store in cancel_found found store'
