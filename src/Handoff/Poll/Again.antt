-- ===== src/Handoff/Poll/Again.antt =====
-- The polls of src/handoff.ts after the one that has handed out the proof.
use x.Prelude.{
  String, true, ◌≡◌, refl, sym, ap, ◌∙◌, Option, none, some, List, Result, ok, err, string_eq,
  nat_eq, arith, get, set, get-set, eq_refl, IsoTimestamp, Bool-cases, inl, inr,
}
use x.Effects.{continue}
use x.Types.{HumanResult, Json, str, obj, end, member}
use x.Service.Backends.{NonceBackend, ReplayBackend}
use x.Service.Setup.{X424Service}
use x.Handoff.{
  StoredHumanHandoff, HumanHandoffView, completed_view, HumanHandoffService, is_terminal,
}
use x.Handoff.Store.{HandoffStore, get_authorized, update, update_found, may_update}
use x.Handoff.Transitions.{completed_with}
use x.Handoff.Claim.{Taken, answered, holding, take_claim, terminal_view, completion_proof}
use x.Handoff.Poll.{PollReadings, PollState, finish_poll, poll_found, poll_open, on_handoffs, poll}
use x.Handoff.Poll.Attempt.{IsCompleted}
use x.Handoff.Poll.Completed.{held-IsCompleted}
use x.Handoff.Poll.Held.{HoldsSame, take_claim-HoldsSame}
use x.Handoff.Poll.Waits.{taken-not-completed}
use x.Handoff.Interleaving.{Run, initial}
use x.Handoff.Interleaving.Steps.{Run-IsValid}
use x.Handoff.Interleaving.Reached.{initial-IsValid, final_record_stays}
use x.Handoff.Interleaving.Read.{IsRead, get_authorized-IsRead, get_authorized-final}

-- What the service protects when a handoff is completed.
abbrev completion_of : String → Json
completion_of token = obj (member "humanProof" (str token) end)

found_stored :
    (found : Option StoredHumanHandoff) (p n : StoredHumanHandoff) (s t : HandoffStore)
    → update_found found p n s ≡ (t, true)
    → get n.handoff_id t.records ≡ some n
found_stored none p n s t h = absurd (ground (arith, ap (λ w. w.1) h))
found_stored (some c) p n s t h = elim (Bool-cases (may_update c p n)) [
  | inr other ↦ absurd (ground (arith, other, h))
  | inl same ↦
      let made : set n.handoff_id n s.records ≡ t.records = ap (λ w. w.0.records) (rw same at h) in
      ap (get n.handoff_id) (sym made)
      ∙ rw (get-set n.handoff_id n.handoff_id n s.records, eq_refl n.handoff_id) refl
]

update_stored :
    (p n : StoredHumanHandoff) (s t : HandoffStore)
    → update p n s ≡ (t, true)
    → get n.handoff_id t.records ≡ some n
unfolding update
update_stored p n s t h = found_stored (get p.handoff_id s.records) p n s t h

terminal_view-some :
    (service : HumanHandoffService) (c : StoredHumanHandoff) (view : Result HumanHandoffView)
    → terminal_view service c ≡ some view
    → is_terminal c.status ≡ true
unfolding terminal_view
terminal_view-some service c view h = ground arith

-- The protector gives back what it has protected.
abbrev pub IsFaithful : HumanHandoffService → Type 0
IsFaithful service =
    (value : Json) (protected : String)
    → service.protect value ≡ ok protected
    → service.unprotect protected ≡ ok value

module _ (nonces : NonceBackend) (replays : ReplayBackend) (sign : HumanResult → Result String)
    (sha256 : String → String) (verifier : X424Service) (service : HumanHandoffService) where
  abbrev State : Type 0
  State = PollState nonces replays sign sha256 verifier service

  view_again :
      (c : StoredHumanHandoff) (protected token : String)
      → service.unprotect protected ≡ ok (completion_of token)
      → terminal_view service (completed_with protected c)
        ≡ some (ok (completed_view c.handoff_id token c.expires_at))
  unfolding terminal_view completion_proof
  view_again c protected token h = rw (h) refl

  -- A record in a final state is stored for the capability, and its view is the answer.
  record IsKept (id digest : String) (t : HandoffStore) (view : HumanHandoffView) : Type 0 where
    record_kept : StoredHumanHandoff
    stored : get id t.records ≡ some record_kept
    secret : record_kept.access_token_digest ≡ digest
    closed : is_terminal record_kept.status ≡ true
    shown : terminal_view service record_kept ≡ some (ok view)

  completed-IsKept :
      (id digest : String) (c : StoredHumanHandoff) (readings : PollReadings) (s : HandoffStore)
      (t : State) (view : HumanHandoffView)
      → IsFaithful service
      → c.handoff_id ≡ id
      → c.access_token_digest ≡ digest
      → IsCompleted nonces replays sign sha256 verifier service c readings s t view
      → IsKept id digest t.0 view
  completed-IsKept id digest c readings s t view faithful own secret done = record {
    record_kept = completed_with done.protected c;
    stored =
        ap (λ k. get k t.0.records) (sym own)
        ∙ update_stored c (completed_with done.protected c) s t.0 done.won;
    secret = secret;
    closed = refl;
    shown =
        view_again c done.protected done.token
          (faithful (completion_of done.token) done.protected done.kept)
        ∙ ap (λ v. some (ok v)) (sym done.answer);
  }

  taken-IsKept :
      (id digest : String) (current : StoredHumanHandoff) (r : Result Taken)
      (readings : PollReadings) (st t : State) (i token : String) (e : IsoTimestamp)
      → IsFaithful service
      → current.handoff_id ≡ id
      → current.access_token_digest ≡ digest
      → HoldsSame current r
      → (¬ (r ≡ ok (answered (completed_view i token e))))
      → continue
          (st, r)
          (λ taken. finish_poll nonces replays sign sha256 verifier service taken readings)
        ≡ (t, ok (completed_view i token e))
      → IsKept id digest t.0 (completed_view i token e)
  unfolding finish_poll
  taken-IsKept id digest current (err message) readings st t i token e faithful own secret same
        other h =
      absurd (ground (arith, h))
  taken-IsKept id digest current (ok (answered view)) readings st t i token e faithful own secret
        same other h =
      absurd (other (ap (λ v. ok (answered v)) (ground (arith, h))))
  taken-IsKept id digest current (ok (holding c)) readings st t i token e faithful own secret same
        other h =
      completed-IsKept id digest c readings st.0 t (completed_view i token e) faithful
        (same.id ∙ own) (same.secret ∙ secret)
        (held-IsCompleted nonces replays sign sha256 verifier service c readings st t i token e h)

  open-IsKept :
      (id digest : String) (view : Option (Result HumanHandoffView)) (c : StoredHumanHandoff)
      (readings : PollReadings) (st t : State) (i token : String) (e : IsoTimestamp)
      → IsFaithful service
      → IsRead id digest st.0 c
      → terminal_view service c ≡ view
      → poll_open nonces replays sign sha256 verifier service view c readings st
        ≡ (t, ok (completed_view i token e))
      → IsKept id digest t.0 (completed_view i token e)
  unfolding poll_open on_handoffs
  open-IsKept id digest (some view) c readings st t i token e faithful read seen h =
      let kept : st.0 ≡ t.0 = ap (λ w. w.0.0) h in
      record {
        record_kept = c;
        stored = ap (λ s. get id s.records) (sym kept) ∙ read.stored;
        secret = read.digest_same;
        closed = terminal_view-some service c view seen;
        shown = seen ∙ ap some (ap (λ w. w.1) h);
      }
  open-IsKept id digest none c readings st t i token e faithful read seen h =
      let taken = take_claim c readings.checked_at readings.claimed_at st.0 in
      taken-IsKept id digest c taken.1 readings (taken.0, st.1) t i token e faithful read.own
        read.digest_same (take_claim-HoldsSame c readings.checked_at readings.claimed_at st.0)
        (taken-not-completed c readings.checked_at readings.claimed_at st.0 i token e) h

  found-IsKept :
      (id digest : String) (found : Option StoredHumanHandoff) (readings : PollReadings)
      (st t : State) (i token : String) (e : IsoTimestamp)
      → IsFaithful service
      → ((c : StoredHumanHandoff) → found ≡ some c → IsRead id digest st.0 c)
      → poll_found nonces replays sign sha256 verifier service found readings st
        ≡ (t, ok (completed_view i token e))
      → IsKept id digest t.0 (completed_view i token e)
  unfolding poll_found
  found-IsKept id digest none readings st t i token e faithful read h = absurd (ground (arith, h))
  found-IsKept id digest (some c) readings st t i token e faithful read h =
      open-IsKept id digest (terminal_view service c) c readings st t i token e faithful
        (read c refl) refl h

  kept_view :
      (id access_token : String) (readings : PollReadings) (u : State) (c : StoredHumanHandoff)
      (view : HumanHandoffView)
      → get_authorized id (sha256 access_token) readings.read_at u.0 ≡ (u.0, some c)
      → terminal_view service c ≡ some (ok view)
      → poll nonces replays sign sha256 verifier service id access_token readings u ≡ (u, ok view)
  unfolding poll poll_found poll_open
  kept_view id access_token readings u c view read shown = rw (read, shown) refl

  -- Let the protector give back what it has protected, and let a poll in a world that a run from the
  -- empty store reaches hand out a proof. Let the store that the poll leaves, with some records in
  -- the hands of calls, be reached by a run as well, and let any calls make steps from there. Then
  -- every later poll with the same handoff ID and access token, with any readings and whatever the
  -- other stores hold by then, gives the same answer, and changes no state.
  pub poll_again :
      (id access_token : String) (first later : PollReadings) (st t u : State)
      (ps qs rs : List StoredHumanHandoff) (i token : String) (e : IsoTimestamp)
      → IsFaithful service
      → Run initial (st.0, ps)
      → poll nonces replays sign sha256 verifier service id access_token first st
        ≡ (t, ok (completed_view i token e))
      → Run initial (t.0, qs)
      → Run (t.0, qs) (u.0, rs)
      → poll nonces replays sign sha256 verifier service id access_token later u
        ≡ (u, ok (completed_view i token e))
  unfolding poll
  poll_again id access_token first later st t u ps qs rs i token e faithful before h reached after =
      let keyed = (Run-IsValid initial (st.0, ps) initial-IsValid before).consistent.keyed in
      let read = get_authorized id (sha256 access_token) first.read_at st.0 in
      let kept =
        found-IsKept id (sha256 access_token) read.1 first (read.0, st.1) t i token e faithful
          (λ c found.
            get_authorized-IsRead id (sha256 access_token) first.read_at st.0 c keyed found)
          h in
      let stays =
        final_record_stays (t.0, qs) (u.0, rs) id kept.record_kept reached after kept.stored
          kept.closed in
      kept_view id access_token later u kept.record_kept (completed_view i token e)
        (get_authorized-final id (sha256 access_token) later.read_at u.0 kept.record_kept stays
          kept.secret kept.closed)
        kept.shown
