-- ===== src/Handoff/Cancel/Outcome.antt =====
-- What a call of `cancel` in src/handoff.ts leaves and answers.
use x.Prelude.{
  ℕ, String, Bool, true, false, ◌≡◌, ◌≢◌, ◌⊎◌, Option, none, some, get, string_eq, nat_eq,
}
use x.Handoff.{StoredHumanHandoff, is_terminal, cancelled}
use x.Handoff.Store.{HandoffStore, get_authorized}
use x.Handoff.Transitions.{cancelled_from}
use x.Handoff.Interleaving.Valid.{IsKeyed}

-- An open record was read, and is stored as cancelled; its dependency has no active handoff.
pub record IsCancelled (id : String) (found : Option StoredHumanHandoff) (t : HandoffStore)
    (answer : Bool) : Type 0 where
  pub answered : answer ≡ true
  pub record_read : StoredHumanHandoff
  pub read : found ≡ some record_read
  pub open_before : is_terminal record_read.status ≡ false
  pub stored : get id t.records ≡ some (cancelled_from record_read)
  pub inactive : get record_read.dependency_id t.active_dependencies ≡ none

-- The record that was read is cancelled already, and nothing is changed but by the read.
pub record WasCancelled (found : Option StoredHumanHandoff) (s t : HandoffStore) (answer : Bool)
    : Type 0 where
  pub answered : answer ≡ true
  pub record_read : StoredHumanHandoff
  pub read : found ≡ some record_read
  pub cancelled_before : record_read.status ≡ cancelled
  pub unchanged : t ≡ s

-- No record was read, or one in another final state; nothing is changed but by the read.
pub record IsRefused (found : Option StoredHumanHandoff) (s t : HandoffStore) (answer : Bool)
    : Type 0 where
  pub answered : answer ≡ false
  pub unchanged : t ≡ s
  pub reason :
      (found ≡ none)
      ⊎ ((c : StoredHumanHandoff) × (found ≡ some c)
          × (is_terminal c.status ≡ true)
          × (c.status ≢ cancelled))

abbrev pub CancelOutcome :
    String → Option StoredHumanHandoff → HandoffStore → HandoffStore × Bool → Type 0
CancelOutcome id found s (t, answer) =
    IsCancelled id found t answer ⊎ (WasCancelled found s t answer ⊎ IsRefused found s t answer)

module _ (id digest : String) (now : ℕ) (s : HandoffStore) (keyed : IsKeyed s) where
  abbrev pub after_read : HandoffStore × Option StoredHumanHandoff
  after_read = get_authorized id digest now s
