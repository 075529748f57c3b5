-- ===== src/Tests/Handoffs.antt =====
-- The handoffs at the examples.
mod Polls
use x.Prelude.{
  String, ◌≡◌, refl, false, List, [], ◌∷◌, some, none, ok, instant, get, set, has, delete, inl,
}
use x.Types.{null}
use x.Service.Backends.{memory_nonces, memory_replays}
use x.Handoff.{
  StoredHumanHandoff, HumanHandoffService, HumanProviderHandoffAdapter, pending, provider_pending,
  handoff_status_eq,
}
use x.Handoff.Store.{HandoffStore, create, get_authorized, update}
use x.Handoff.Transitions.{claimed_until, cancelled_from}
use x.Handoff.Poll.{poll, PollReadings, PollState}
use x.Handoff.Poll.Interleaved.{IsSwapped, poll-IsSwapped}
use x.Handoff.Cancel.{cancel}
use x.Handoff.Start.{prepare, check_started, poll_delay, StartHumanHandoffInput, StartReadings}
use x.Handoff.Start.Prepared.{IsPreparedFor, prepare-IsPreparedFor}
use x.Handoff.Interleaving.{
  Step, creates, reads, updates, Run, stop, next, World, initial, with_read, with_written, Known,
  Change,
}
use x.Handoff.Interleaving
use x.Handoff.Interleaving.Reached.{one_open_handoff, final_record_stays, swap_once}
use x.Service.Output.{to_iso_string}
use x.Handoff.{provider_completed, completed_view}
use x.Handoff.Poll.Completed.{IsAnswered, poll-IsAnswered}
use x.Handoff.Claim.{terminal_view, take_claim, reclaim, claim, swap}
use x.Handoff.Transitions.{claim_end}
use x.Handoff.Poll.{finish_poll, attempt, settle, on_handoffs, proof_for, complete}
use x.Stores.Requirements.{RequirementStore, get as get_stored, get_entry}
use x.Service.Methods.{satisfy, admit, answer, check_replay, issue}
use x.Validation.{assert_requirement_current, accepted_method_for_proof}
use x.Stores.Nonce.{consume as consume_nonce}
use x.Stores.Provider.{entry_key, consume as consume_subject}
use x.Service.Output.{
  assert_verified_output, incompatible, unsatisfying, unknown_assurance, times_invalid, given_time,
  build_result, given_label, result_expiry,
}
use x.Prelude.{is_digest, starts_with, utf16_length}
use x.Handoff.Start.{start}
use x.Handoff.Start.Outcome.{StartOutcome, start-outcome}
use x.Handoff.{HumanHandoffView}
use x.Handoff.Transitions.{completed_with}
use x.Handoff.Poll.Attempt.{IsCompleted}
use x.Tests.Data.{issued}
use x.Tests.Data.{requirement, service, sign}

abbrev made : StoredHumanHandoff
made = record {
  handoff_id = "h";
  dependency_id = "dep";
  provider_id = "acme";
  method_id = "face";
  access_token_digest = "t";
  status = pending;
  poll_claim_expires_at = none;
  presentation = record { uri = "https://acme.example/h"; user_code = none };
  protected_state = "s";
  protected_completion = none;
  failure_code = none;
  poll_after_ms = 1000;
  expires_at = instant 301000;
  version = 1;
}

-- After a start and a read.
abbrev stored : HandoffStore
stored = record { records = ("h", made) ∷ []; active_dependencies = ("dep", "h") ∷ [] }

abbrev pub held : World
held = (stored, made ∷ [])

pub held-Run : Run initial held
unfolding create has get set get_authorized
held-Run = next (creates made initial.0 []) (next (reads "h" "t" 2000 stored []) (stop held))

abbrev cancelled_record : StoredHumanHandoff
cancelled_record = cancelled_from made

abbrev closed : World
closed = (
  record { records = ("h", cancelled_record) ∷ []; active_dependencies = [] },
  cancelled_record ∷ made ∷ [],
)

abbrev h_id : String
h_id = "h"

one_open_example : h_id ≡ h_id
unfolding get
one_open_example = one_open_handoff held h_id h_id made made held-Run refl refl refl refl refl

to_closed : Run initial closed
unfolding create has get set get_authorized update delete
to_closed = next (creates made initial.0 []) (
    next (reads "h" "t" 2000 stored []) (
      next
        (updates made cancelled_record stored (made ∷ []) (inl refl)
          (Interleaving.Change.cancel made refl))
        (stop closed)))

-- A read of the record that is cancelled.
read_after : Run closed (closed.0, cancelled_record ∷ closed.1)
unfolding get_authorized get
read_after =
    next (reads "h" "t" 999999 closed.0 closed.1) (stop (closed.0, cancelled_record ∷ closed.1))

final_example : get "h" closed.0.records ≡ some cancelled_record
unfolding get
final_example =
    final_record_stays closed (closed.0, cancelled_record ∷ closed.1) "h" cancelled_record to_closed
      read_after refl refl

swap_example : (update made (claimed_until (instant 5000) made) closed.0).1 ≡ false
unfolding update get set delete
swap_example =
    swap_once held closed made cancelled_record (claimed_until (instant 5000) made) held-Run
      (inl refl) (Interleaving.Change.cancel made refl) refl (stop closed)

abbrev adapter : HumanProviderHandoffAdapter
adapter = record {
  provider_id = "acme";
  method_ids = "face" ∷ [];
  start_handoff = λ r m q. ok (record {
    provider_session = null;
    presentation = made.presentation;
    expires_at = instant 200000;
    poll_after_ms = none;
  });
  poll_handoff = λ session. ok provider_pending;
  cancel_handoff = none;
}

abbrev handoffs : HumanHandoffService
handoffs = record {
  adapters = ("acme", adapter) ∷ [];
  protect = λ value. ok "s";
  unprotect = λ text. ok null;
}

abbrev readings : PollReadings
readings = record {
  read_at = 2000;
  checked_at = 2001;
  claimed_at = 2002;
  requirement_at = 2003;
  challenge_checked_at = 2004;
  issued_at = 2005;
  uuid = "u";
}

abbrev hash : String → String
hash text = text

unfoldable state : PollState memory_nonces memory_replays sign hash service handoffs
unfolding memory_nonces memory_replays
state = (stored, (record { entries = []; maximum_entries = 10 }, ([], [])))

poll_example :
    IsSwapped memory_nonces memory_replays sign hash service handoffs 4
      (get_authorized "h" "t" 2000 state.0).0
      (with_read (get_authorized "h" "t" 2000 state.0).1 [])
      (poll memory_nonces memory_replays sign hash service handoffs "h" "t" readings state).0.0
    × ((after : List StoredHumanHandoff) × Run
          (state.0, [])
          (
            (poll memory_nonces memory_replays sign hash service handoffs "h" "t" readings
                state).0.0,
            after,
          ))
poll_example =
    poll-IsSwapped memory_nonces memory_replays sign hash service handoffs "h" "t" readings state []

abbrev input : StartHumanHandoffInput
input = record { dependency_id = "dep"; nonce = "n"; provider_id = "acme"; method_id = "face" }

abbrev start_readings : StartReadings
start_readings = record { requirement_at = 2000; checked_at = 2001; uuid = "u"; access_token = "t" }

abbrev prepared : StoredHumanHandoff
prepared = record made { handoff_id = "x424_handoff_u"; expires_at = instant 200000 }

prepare_example : IsPreparedFor input 2001 (some requirement) prepared
unfolding prepare check_started get poll_delay to_iso_string
prepare_example =
    prepare-IsPreparedFor hash handoffs input start_readings (some requirement) prepared refl

abbrev requirements : RequirementStore
requirements = record {
  entries = ("dep", record { requirement = requirement; tenant_id = none }) ∷ [];
  maximum_entries = 10;
}

start_example :
    StartOutcome hash handoffs input start_readings
      (get_stored "dep" 2000 requirements).1
      initial.0
      (
        (start hash handoffs input start_readings (initial.0, requirements)).0.0,
        (start hash handoffs input start_readings (initial.0, requirements)).1,
      )
    × Run
        (initial.0, [])
        ((start hash handoffs input start_readings (initial.0, requirements)).0.0, [])
start_example = start-outcome hash handoffs input start_readings initial.0 requirements []
