-- ===== src/Handoff/Transitions.antt =====
-- The records that `HumanHandoffService` of src/handoff.ts writes, each made from the record that
-- the caller has read.
use Prim.Native.Char.{Char, code}
use x.Prelude.{
  ℕ, zero, suc, String, Bool, ◌||◌, Option, none, some, Result, IsoTimestamp, date_parse, num_lt,
  num_min, if◌then◌else◌, nat_eq, ◌+◌, leb, is_upper, is_digit, nat_beq, ◌*◌, ◌<>◌,
}
use x.Service.Output.{to_iso_string}
use x.Handoff.{
  StoredHumanHandoff, HumanHandoffView, pending, polling, completed, failed, cancelled,
  pending_view,
}

abbrev pub max : ℕ → ℕ → ℕ
max a b = if leb a b then b else a

-- `[A-Z0-9_]`
abbrev pub is_code_character : Char → Bool
is_code_character c = is_upper (code c) || is_digit (code c) || nat_beq (code c) b'_'

-- `code.replace(/[^A-Z0-9_]/gu, "_").slice(0, n)`: what it has replaced is one unit a character.
unfoldable pub failure_code_of : ℕ → String → String
failure_code_of zero text = ""
failure_code_of (suc n) String.[] = ""
failure_code_of (suc n) (String.◌∷◌ c text) =
    (if is_code_character c then String.◌∷◌ c "" else "_") <> failure_code_of n text

abbrev pub without_poll_claim : StoredHumanHandoff → StoredHumanHandoff
without_poll_claim found = record found { poll_claim_expires_at = none }

-- `pending` and `reclaimed` in `poll`.
abbrev pub released : StoredHumanHandoff → StoredHumanHandoff
released found = record (without_poll_claim found) { status = pending; version = found.version + 1 }

abbrev pub claimed_until : IsoTimestamp → StoredHumanHandoff → StoredHumanHandoff
claimed_until claim_expires_at found = record found {
  status = polling;
  poll_claim_expires_at = some claim_expires_at;
  version = found.version + 1;
}

-- The end of a poll claim that is taken at an instant.
unfoldable pub claim_end : StoredHumanHandoff → ℕ → Result IsoTimestamp
claim_end found now =
    to_iso_string
      (num_min (date_parse found.expires_at) (some (now + max 10000 (found.poll_after_ms * 3))))

-- `Date.parse(current.pollClaimExpiresAt ?? "")`
abbrev pub claim_time : Option IsoTimestamp → Option ℕ
claim_time none = none
claim_time (some claim_expires_at) = date_parse claim_expires_at

-- Another poll holds the record.
abbrev pub is_claimed : StoredHumanHandoff → ℕ → Bool
is_claimed found now = num_lt (some now) (claim_time found.poll_claim_expires_at)

abbrev pub failed_with : String → StoredHumanHandoff → StoredHumanHandoff
failed_with failure claimed = record claimed {
  status = failed;
  failure_code = some (failure_code_of 100 failure);
  version = claimed.version + 1;
}

abbrev pub completed_with : String → StoredHumanHandoff → StoredHumanHandoff
completed_with protected claimed = record claimed {
  status = completed;
  protected_completion = some protected;
  version = claimed.version + 1;
}

abbrev pub cancelled_from : StoredHumanHandoff → StoredHumanHandoff
cancelled_from found = record found { status = cancelled; version = found.version + 1 }

abbrev pub view_of_pending : StoredHumanHandoff → HumanHandoffView
view_of_pending found = pending_view found.handoff_id found.poll_after_ms found.expires_at
