-- ===== src/Handoff/Claim.antt =====
-- `poll` of `HumanHandoffService` up to its claim of the record, with the helpers that the private
-- methods and the end of the poll use.
use x.Prelude
use x.Prelude.{
  ℕ, String, Bool, true, false, not, Option, none, some, ◌==◌, string_eq, nat_eq, Result, ok, err,
  is_some, get, if◌then◌else◌, StringMap,
}
use x.Effects.{Eff, ◌>>=◌, lift}
use x.Types.{Json, str, obj, Members, end, member}
use x.Handoff.{
  StoredHumanHandoff, HumanHandoffView, HandoffStatus, handoff_status_eq, polling, completed,
  failed, expired, cancelled, completed_view, failed_view, closed_view, HumanHandoffService,
}
use x.Handoff.Store.{HandoffStore, update}
use x.Handoff.Transitions.{
  released, claimed_until, claim_end, is_claimed, failed_with, failure_code_of, view_of_pending,
}

abbrev pub text_or : String → Option String → String
text_or otherwise none = otherwise
text_or otherwise (some text) = text

abbrev text_or_empty : Option String → String
text_or_empty text = text_or "" text

abbrev string_or_throw : Option Json → Result String
string_or_throw (some (str human_proof)) = ok human_proof
string_or_throw _ = err "Invalid protected handoff completion"

-- The member of that name: `JSON.parse` keeps the last one.
proof_member : Members → Option Json → Option Json
proof_member end last = last
proof_member (member name value rest) last =
    proof_member rest (if name == "humanProof" then some value else last)

unfoldable pub completion_proof : Json → Result String
unfolding proof_member
completion_proof (obj members) = string_or_throw (proof_member members none)
completion_proof _ = err "Invalid protected handoff completion"

terminal_by_status :
    HumanHandoffService → StoredHumanHandoff → HandoffStatus → Option (Result HumanHandoffView)
terminal_by_status service found completed = some (
    Prelude.◌>>=◌ (service.unprotect (text_or_empty found.protected_completion)) λ completion.
      Prelude.◌>>=◌ (completion_proof completion)
        λ human_proof. ok (completed_view found.handoff_id human_proof found.expires_at))
terminal_by_status service found failed = some (
    ok
      (failed_view found.handoff_id (text_or "HANDOFF_FAILED" found.failure_code) found.expires_at))
terminal_by_status service found expired =
    some (ok (closed_view found.handoff_id expired found.expires_at))
terminal_by_status service found cancelled =
    some (ok (closed_view found.handoff_id cancelled found.expires_at))
terminal_by_status service found _ = none

unfoldable pub terminal_view :
    HumanHandoffService → StoredHumanHandoff → Option (Result HumanHandoffView)
unfolding terminal_by_status
terminal_view service found = terminal_by_status service found found.status

-- A poll that goes on holds a record; another one has its answer.
pub data Taken : Type 0 where
  answered : HumanHandoffView → Taken
  holding : StoredHumanHandoff → Taken

abbrev pub won :
    StoredHumanHandoff → StoredHumanHandoff → HandoffStore × Bool → HandoffStore × Result Taken
won current next (store, true) = (store, ok (holding next))
won current next (store, false) = (store, ok (answered (view_of_pending current)))

-- The compare-and-swap that takes the place of `current`.
unfoldable pub swap : StoredHumanHandoff → StoredHumanHandoff → Eff HandoffStore Taken
swap current next store = won current next (update current next store)

-- The block on `current.status === "polling"`.
unfoldable pub reclaim : StoredHumanHandoff → ℕ → Eff HandoffStore Taken
reclaim current now store =
    if current.status == polling
    then (if is_claimed current now
        then (store, ok (answered (view_of_pending current)))
        else swap current (released current) store)
    else (store, ok (holding current))

unfoldable pub claim : StoredHumanHandoff → ℕ → Eff HandoffStore Taken
claim current now = do
  claim_expires_at ← lift (claim_end current now)
  swap current (claimed_until claim_expires_at current)

abbrev pub claim_held : ℕ → Taken → Eff HandoffStore Taken
claim_held now (answered view) = lift (ok (answered view))
claim_held now (holding current) = claim current now

-- `poll` from the record it has read to the claim.
unfoldable pub take_claim : StoredHumanHandoff → ℕ → ℕ → Eff HandoffStore Taken
take_claim current checked_at claimed_at = do
  taken ← reclaim current checked_at
  claim_held claimed_at taken

unfoldable pub fail_claimed : String → StoredHumanHandoff → Eff HandoffStore HumanHandoffView
fail_claimed failure claimed store = (
  (update claimed (failed_with failure claimed) store).0,
  ok (failed_view claimed.handoff_id (failure_code_of 100 failure) claimed.expires_at),
)
