-- ===== src/Handoff/Poll/Waits.antt =====
-- What a poll of src/handoff.ts answers before it holds a claim.
use x.Prelude.{
  ℕ, String, Bool, true, false, ◌≡◌, refl, sym, ap, ◌∙◌, Result, ok, err, arith, IsoTimestamp, inl,
  inr, Bool-cases, ◌==◌,
}
use x.Effects.{continue}
use x.Handoff.{StoredHumanHandoff, completed_view, pending_view, polling, handoff_status_eq}
use x.Handoff.Store.{HandoffStore, update}
use x.Handoff.Transitions.{released, claimed_until, claim_end, is_claimed}
use x.Handoff.Claim.{Taken, answered, holding, won, swap, reclaim, claim, claim_held, take_claim}

-- Before a claim is held, a poll answers that the handoff is pending, if it answers.
abbrev waits : Result Taken → Bool
waits (ok (answered (pending_view id delay e))) = true
waits (ok (answered _)) = false
waits _ = true

won-waits : (c n : StoredHumanHandoff) (w : HandoffStore × Bool) → waits (won c n w).1 ≡ true
won-waits c n (s, true) = refl
won-waits c n (s, false) = refl

swap-waits : (c n : StoredHumanHandoff) (s : HandoffStore) → waits (swap c n s).1 ≡ true
unfolding swap
swap-waits c n s = won-waits c n (update c n s)

reclaim-waits :
    (c : StoredHumanHandoff) (now : ℕ) (s : HandoffStore) → waits (reclaim c now s).1 ≡ true
unfolding reclaim
reclaim-waits c now s = elim (Bool-cases (c.status == polling)) [
  | inr open_record ↦ rw (open_record) refl
  | inl claimed ↦ elim (Bool-cases (is_claimed c now)) [
    | inl other ↦ rw (claimed, other) refl
    | inr over ↦ rw (claimed, over) (swap-waits c (released c) s)
  ]
]

claim-waits : (c : StoredHumanHandoff) (now : ℕ) (s : HandoffStore) → waits (claim c now s).1 ≡ true
unfolding claim
claim-waits c now s = go (claim_end c now)
  where
    go :
        (r : Result IsoTimestamp)
        → waits (continue (s, r) (λ e. swap c (claimed_until e c))).1 ≡ true
    go (err message) = refl
    go (ok e) = swap-waits c (claimed_until e c) s

take_claim-waits :
    (c : StoredHumanHandoff) (checked_at claimed_at : ℕ) (s : HandoffStore)
    → waits (take_claim c checked_at claimed_at s).1 ≡ true
unfolding take_claim
take_claim-waits c checked_at claimed_at s =
    go (reclaim c checked_at s).0 (reclaim c checked_at s).1 (reclaim-waits c checked_at s)
  where
    go :
        (t : HandoffStore) (r : Result Taken)
        → waits r ≡ true
        → waits (continue (t, r) (claim_held claimed_at)).1 ≡ true
    go t (err message) h = refl
    go t (ok (answered view)) h = h
    go t (ok (holding d)) h = claim-waits d claimed_at t

pub taken-not-completed :
    (c : StoredHumanHandoff) (checked_at claimed_at : ℕ) (s : HandoffStore) (id token : String)
    (e : IsoTimestamp)
    → ¬ ((take_claim c checked_at claimed_at s).1 ≡ ok (answered (completed_view id token e)))
taken-not-completed c checked_at claimed_at s id token e h =
    let waiting : waits (ok (answered (completed_view id token e))) ≡ true =
      ap waits (sym h) ∙ take_claim-waits c checked_at claimed_at s in
    absurd (ground (arith, waiting))
