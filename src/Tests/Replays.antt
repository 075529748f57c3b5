-- ===== src/Tests/Replays.antt =====
-- The replay stores at the examples.
use x.Prelude.{
  ◌≡◌, ◌≤◌, ◌⊎◌, refl, false, List, [], ◌∷◌, instant, arith, get, retain, utf16_length, is_digest,
}
use x.Types.{same_operation, replay}
use x.Stores.Nonce.{NonceStore}
use x.Stores.Nonce.Runs.{
  Call as NonceCall, put_call, consume_call, count_wins as count_nonce_wins, nonce_wins-le-one,
}
use x.Stores.Replay.Runs.{
  Call as ReplayCall, plain, with_legacy, count_wins as count_replay_wins, replay_wins-le-one,
}
use x.Stores.Acceptance.{AcceptanceStore, accept, input_invalid, entry_for, prune}
use x.Stores.Acceptance.Runs.{run, accept_after_run}
use x.Stores.Acceptance.Runs.{plain as accept_call}
use x.Stores.Provider.{entry_key}
use x.Stores.Provider.Keys.{IsNulFree, entry_key_injective}
use x.Stores.Provider.Runs.{count_wins as count_subject_wins, subject_wins-le-one}
use x.Tests.Data.{entry, acceptance}

abbrev nonces : NonceStore
nonces = ("dep", record { nonce = "n"; expires_at_ms = 9000; used = false }) ∷ []

abbrev nonce_calls : List NonceCall
nonce_calls =
    put_call "dep" "n" (instant 9000)
    ∷ consume_call "dep" "n" 2000
    ∷ consume_call "dep" "n" 2001
    ∷ []

nonce_example : count_nonce_wins "dep" [] nonce_calls ≤ 1
nonce_example = nonce_wins-le-one "dep" [] nonce_calls

abbrev replay_calls : List ReplayCall
replay_calls =
    plain "result" (instant 9000) 2000
    ∷ plain "result" (instant 9000) 3000
    ∷ with_legacy "result" "old" (instant 9000) 3000
    ∷ []

replay_example : count_replay_wins "result" 9000 [] replay_calls ≤ 1
replay_example =
    replay_wins-le-one [] "result" 9000 1000 replay_calls tt
      (omega arith, (omega arith, (omega arith, tt)))

subject_example : count_subject_wins (entry_key entry) [] (entry ∷ entry ∷ []) ≤ 1
subject_example = subject_wins-le-one (entry_key entry) [] (entry ∷ entry ∷ [])

entry-IsNulFree : IsNulFree entry
entry-IsNulFree = record {
  provider = omega arith;
  method = omega arith;
  scope = omega arith;
  subject = omega arith;
}

entry_key_example : entry ≡ entry
entry_key_example = entry_key_injective entry entry entry-IsNulFree entry-IsNulFree refl

abbrev bound : AcceptanceStore
bound = ("x424_result_u", entry_for (acceptance "op")) ∷ []

accept_after_example :
    ((accept
          (acceptance "op")
          4000
          (run (accept_call (acceptance "other") 3000 ∷ []) (accept (acceptance "op") 2000 []).0)).1
        ≡ same_operation)
      × ((acceptance "op").operation_id ≡ (acceptance "op").operation_id)
      × ((acceptance "op").request_digest ≡ (acceptance "op").request_digest)
    ⊎ ((accept
          (acceptance "op")
          4000
          (run (accept_call (acceptance "other") 3000 ∷ []) (accept (acceptance "op") 2000 []).0)).1
        ≡ replay)
      × (¬ (
          ((acceptance "op").operation_id ≡ (acceptance "op").operation_id)
          × ((acceptance "op").request_digest ≡ (acceptance "op").request_digest)))
unfolding accept input_invalid utf16_length is_digest prune retain get
accept_after_example =
    accept_after_run [] (acceptance "op") (acceptance "op") 2000 4000
      (accept_call (acceptance "other") 3000 ∷ []) tt refl (omega arith, omega arith) refl refl refl
