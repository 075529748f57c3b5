-- ===== src/Handoff/Poll/Held.antt =====
-- The record that a poll of src/handoff.ts holds is the one that it read, under the same ID and with
-- the same digest.
use x.Prelude.{
  ℕ, Bool, true, false, ◌≡◌, refl, ◌∙◌, Result, ok, err, inl, inr, Bool-cases, ◌==◌, IsoTimestamp,
}
use x.Effects.{continue}
use x.Handoff.{StoredHumanHandoff, polling, handoff_status_eq}
use x.Handoff.Store.{HandoffStore, update}
use x.Handoff.Transitions.{released, claimed_until, claim_end, is_claimed}
use x.Handoff.Claim.{Taken, answered, holding, swap, won, reclaim, claim, claim_held, take_claim}

pub record IsSame (c d : StoredHumanHandoff) : Type 0 where
  pub id : d.handoff_id ≡ c.handoff_id
  pub secret : d.access_token_digest ≡ c.access_token_digest

abbrev pub HoldsSame : StoredHumanHandoff → Result Taken → Type 0
HoldsSame c (ok (holding d)) = IsSame c d
HoldsSame c (ok (answered view)) = Unit
HoldsSame c (err message) = Unit

won-HoldsSame :
    (c n : StoredHumanHandoff) (w : HandoffStore × Bool) → IsSame c n → HoldsSame c (won c n w).1
won-HoldsSame c n (s, true) same = same
won-HoldsSame c n (s, false) same = tt

swap-HoldsSame :
    (c n : StoredHumanHandoff) (s : HandoffStore) → IsSame c n → HoldsSame c (swap c n s).1
unfolding swap
swap-HoldsSame c n s same = won-HoldsSame c n (update c n s) same

reclaim-HoldsSame :
    (c : StoredHumanHandoff) (now : ℕ) (s : HandoffStore) → HoldsSame c (reclaim c now s).1
unfolding reclaim
reclaim-HoldsSame c now s = elim (Bool-cases (c.status == polling)) [
  | inr pending ↦ rw pending (record { id = refl; secret = refl })
  | inl claimed ↦ elim (Bool-cases (is_claimed c now)) [
    | inl other ↦ rw (claimed, other) tt
    | inr over ↦
        rw (claimed, over) (swap-HoldsSame c (released c) s (record { id = refl; secret = refl }))
  ]
]

claim-HoldsSame :
    (c : StoredHumanHandoff) (now : ℕ) (s : HandoffStore) → HoldsSame c (claim c now s).1
unfolding claim
claim-HoldsSame c now s = go (claim_end c now)
  where
    go :
        (r : Result IsoTimestamp)
        → HoldsSame c (continue (s, r) (λ e. swap c (claimed_until e c))).1
    go (err message) = tt
    go (ok e) = swap-HoldsSame c (claimed_until e c) s (record { id = refl; secret = refl })

HoldsSame-trans :
    (c d : StoredHumanHandoff) (r : Result Taken) → IsSame c d → HoldsSame d r → HoldsSame c r
HoldsSame-trans c d (err message) same h = tt
HoldsSame-trans c d (ok (answered view)) same h = tt
HoldsSame-trans c d (ok (holding e)) same h = record {
  id = h.id ∙ same.id;
  secret = h.secret ∙ same.secret;
}

pub take_claim-HoldsSame :
    (c : StoredHumanHandoff) (checked_at claimed_at : ℕ) (s : HandoffStore)
    → HoldsSame c (take_claim c checked_at claimed_at s).1
unfolding take_claim
take_claim-HoldsSame c checked_at claimed_at s =
    go (reclaim c checked_at s).0 (reclaim c checked_at s).1 (reclaim-HoldsSame c checked_at s)
  where
    go :
        (t : HandoffStore) (r : Result Taken)
        → HoldsSame c r
        → HoldsSame c (continue (t, r) (claim_held claimed_at)).1
    go t (err message) h = tt
    go t (ok (answered view)) h = tt
    go t (ok (holding d)) h =
        HoldsSame-trans c d (claim d claimed_at t).1 h (claim-HoldsSame d claimed_at t)
