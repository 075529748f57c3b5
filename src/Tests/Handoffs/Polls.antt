-- ===== src/Tests/Handoffs/Polls.antt =====
-- A poll that completes a handoff, and a later one.
use x.Prelude.{
  String, Result, err, List, ◌==◌, string_eq, Bool-cases, eq_iff, inl, inr, arith, if◌then◌else◌,
  ◌≡◌, refl, false, [], ◌∷◌, none, ok, instant, get, set, delete,
}
use x.Types.{Json, null, str, obj, end, member}
use x.Service.Backends.{memory_nonces, memory_replays}
use x.Handoff.{StoredHumanHandoff, HumanHandoffService, handoff_status_eq}
use x.Handoff.Store.{get_authorized, update}
use x.Handoff.Poll.{poll, PollState, PollReadings}
use x.Service.Output.{to_iso_string}
use x.Handoff.{provider_completed, completed_view}
use x.Handoff.Poll.Completed.{IsAnswered, poll-IsAnswered}
use x.Handoff.Claim.{terminal_view, take_claim, reclaim, claim, swap}
use x.Handoff.Transitions.{claim_end}
use x.Handoff.Poll.{finish_poll, attempt, settle, on_handoffs, proof_for, complete}
use x.Stores.Requirements.{get as get_stored, get_entry}
use x.Service.Methods.{satisfy, admit, answer, check_replay, issue}
use x.Validation.{assert_requirement_current, accepted_method_for_proof}
use x.Stores.Nonce.{consume as consume_nonce}
use x.Stores.Provider.{entry_key, consume as consume_subject}
use x.Service.Output.{
  assert_verified_output, incompatible, unsatisfying, unknown_assurance, times_invalid, given_time,
  build_result, given_label, result_expiry,
}
use x.Prelude.{is_digest, starts_with, utf16_length}
use x.Handoff.Poll.Again.{IsFaithful, poll_again}
use x.Handoff.Poll.Interleaved.{poll-IsSwapped}
use x.Handoff.Interleaving.{Run, stop, initial}
use x.Handoff.Interleaving.Steps.{Run-trans}
use x.Tests.Data.{requirement, service, sign}
use x.Tests.Handoffs.{made, stored, adapter, readings, hash, held-Run}

-- A poll that is completed.
abbrev finishing : HumanHandoffService
finishing = record {
  adapters =
      ("acme", record adapter { poll_handoff = λ session. ok (provider_completed null) }) ∷ [];
  protect = λ value. ok "s";
  unprotect = λ text. ok null;
}

unfoldable open_state : PollState memory_nonces memory_replays sign hash service finishing
unfolding memory_nonces memory_replays
open_state = (
  stored,
  (
    record {
      entries = ("dep", record { requirement = requirement; tenant_id = none }) ∷ [];
      maximum_entries = 10;
    },
    (("dep", record { nonce = "n"; expires_at_ms = 301000; used = false }) ∷ [], []),
  ),
)

abbrev state_after : PollState memory_nonces memory_replays sign hash service finishing
state_after =
    (poll memory_nonces memory_replays sign hash service finishing "h" "t" readings open_state).0

completed_run :
    poll memory_nonces memory_replays sign hash service finishing "h" "t" readings open_state
    ≡ (state_after, ok (completed_view "h" "token" (instant 301000)))
unfolding memory_nonces memory_replays poll get_authorized get open_state terminal_view take_claim
    reclaim claim claim_end to_iso_string swap update finish_poll attempt settle get_stored
    get_entry on_handoffs proof_for complete satisfy admit assert_requirement_current
    accepted_method_for_proof consume_nonce answer assert_verified_output incompatible unsatisfying
    unknown_assurance times_invalid given_time check_replay is_digest consume_subject issue set
    delete starts_with utf16_length build_result given_label result_expiry entry_key
completed_run = refl

completed_example :
    IsAnswered memory_nonces memory_replays sign hash service finishing
      (get_authorized "h" "t" 2000 stored).1
      readings
      state_after
      (completed_view "h" "token" (instant 301000))
unfolding open_state
completed_example =
    poll-IsAnswered memory_nonces memory_replays sign hash service finishing "h" "t" readings
      open_state state_after "h" "token" (instant 301000) completed_run

-- A protector that keeps the token of a completion, and takes nothing else.
abbrev keep_token : Json → Result String
keep_token (obj (member name (str token) end)) =
    if name == "humanProof" then ok token else err "no completion"
keep_token value = err "no completion"

abbrev keeping : HumanHandoffService
keeping = record finishing {
  protect = keep_token;
  unprotect = λ token. ok (obj (member "humanProof" (str token) end));
}

named :
    (name token protected : String)
    → keep_token (obj (member name (str token) end)) ≡ ok protected
    → keeping.unprotect protected ≡ ok (obj (member name (str token) end))
named name token protected h = elim (Bool-cases (name == "humanProof")) [
  | inl same ↦
      let it : token ≡ protected = ground (arith, same, h) in
      let n : name ≡ "humanProof" = (eq_iff name "humanProof").0 same in rw (n, it) refl
  | inr other ↦ absurd (ground (arith, other, h))
]

keeping-IsFaithful : IsFaithful keeping
keeping-IsFaithful null protected h = cc
keeping-IsFaithful (Json.bool b) protected h = cc
keeping-IsFaithful (Json.num n) protected h = cc
keeping-IsFaithful (str s) protected h = cc
keeping-IsFaithful (Json.arr items) protected h = cc
keeping-IsFaithful (obj end) protected h = cc
keeping-IsFaithful (obj (member name null rest)) protected h = cc
keeping-IsFaithful (obj (member name (Json.bool b) rest)) protected h = cc
keeping-IsFaithful (obj (member name (Json.num n) rest)) protected h = cc
keeping-IsFaithful (obj (member name (Json.arr items) rest)) protected h = cc
keeping-IsFaithful (obj (member name (obj members) rest)) protected h = cc
keeping-IsFaithful (obj (member name (str token) (member other value rest))) protected h = cc
keeping-IsFaithful (obj (member name (str token) end)) protected h = named name token protected h

unfoldable kept_state : PollState memory_nonces memory_replays sign hash service keeping
unfolding open_state memory_nonces memory_replays
kept_state = open_state

abbrev kept_after : PollState memory_nonces memory_replays sign hash service keeping
kept_after =
    (poll memory_nonces memory_replays sign hash service keeping "h" "t" readings kept_state).0

kept_run :
    poll memory_nonces memory_replays sign hash service keeping "h" "t" readings kept_state
    ≡ (kept_after, ok (completed_view "h" "token" (instant 301000)))
unfolding memory_nonces memory_replays poll get_authorized get open_state kept_state terminal_view
    take_claim reclaim claim claim_end to_iso_string swap update finish_poll attempt settle
    get_stored get_entry on_handoffs proof_for complete satisfy admit assert_requirement_current
    accepted_method_for_proof consume_nonce answer assert_verified_output incompatible unsatisfying
    unknown_assurance times_invalid given_time check_replay is_digest consume_subject issue set
    delete starts_with utf16_length build_result given_label result_expiry entry_key
kept_run = refl

kept_swaps : (after : List StoredHumanHandoff) × Run (kept_state.0, made ∷ []) (kept_after.0, after)
kept_swaps =
    (poll-IsSwapped memory_nonces memory_replays sign hash service keeping "h" "t" readings
      kept_state (made ∷ [])).1

held_before : Run initial (kept_state.0, made ∷ [])
unfolding kept_state open_state
held_before = held-Run

-- A poll at another time, after the one that has completed the handoff.
abbrev later_readings : PollReadings
later_readings = record readings { read_at = 9000; checked_at = 9001 }

again_example :
    poll memory_nonces memory_replays sign hash service keeping "h" "t" later_readings kept_after
    ≡ (kept_after, ok (completed_view "h" "token" (instant 301000)))
again_example =
    poll_again memory_nonces memory_replays sign hash service keeping "h" "t" readings
      later_readings kept_state kept_after kept_after (made ∷ []) kept_swaps.0 kept_swaps.0 "h"
      "token" (instant 301000) keeping-IsFaithful held_before kept_run
      (Run-trans initial (kept_state.0, made ∷ []) (kept_after.0, kept_swaps.0) held_before
        kept_swaps.1)
      (stop (kept_after.0, kept_swaps.0))
