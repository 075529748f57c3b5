-- ===== src/Handoff/Poll/Reach.antt =====
-- Parts of a call of src/handoff.ts as steps of the store, and how they are put together.
use x.Prelude.{
  ℕ, Bool, true, false, ◌≡◌, refl, List, ◌∷◌, Result, ok, err, inl, inr, Bool-cases, ◌==◌, ◌≤◌, ◌+◌,
  arith, IsoTimestamp,
}
use x.Effects.{continue}
use x.Handoff.{StoredHumanHandoff, is_terminal, polling, cancelled, handoff_status_eq}
use x.Handoff.Store.{HandoffStore, update}
use x.Handoff.Transitions.{released, claimed_until, claim_end, is_claimed, view_of_pending}
use x.Handoff.Claim.{
  Taken, answered, holding, swap as take, won, reclaim, claim, claim_held, take_claim,
}
use x.Handoff.Poll.Swaps.{Swaps, done, swap, number, swaps_trans, number-swaps_trans}
use x.Handoff.Interleaving.{Change, release, World, Known, with_written}
use x.Handoff.Interleaving

-- At most so many swaps lead from a store to another one, and the caller still holds its record.
pub record Reaches (most : ℕ) (c : StoredHumanHandoff) (s : HandoffStore)
    (ps : List StoredHumanHandoff) (t : HandoffStore) : Type 0 where
  pub after : List StoredHumanHandoff
  pub run : Swaps (s, ps) (t, after)
  pub bound : number run ≤ most
  pub kept : Known c after

pub reach_none :
    (most : ℕ) (c : StoredHumanHandoff) (s : HandoffStore) (ps : List StoredHumanHandoff)
    → Known c ps
    → Reaches most c s ps s
unfolding number
reach_none most c s ps known = record {
  after = ps;
  run = done (s, ps);
  bound = omega arith;
  kept = known;
}

-- The bounds add up.
pub trans_bound :
    {u v w : World} (r : Swaps u v) (q : Swaps v w) (m n k : ℕ)
    → number r ≤ m
    → number q ≤ n
    → m + n ≤ k
    → number (swaps_trans r q) ≤ k
trans_bound r q m n k h i j = omega (arith, number-swaps_trans r q)

pub reach_trans :
    (m n : ℕ) (c : StoredHumanHandoff) (s t u : HandoffStore) (ps : List StoredHumanHandoff)
    → (r : Reaches m c s ps t) → Reaches n c t r.after u
    → Reaches (m + n) c s ps u
reach_trans m n c s t u ps r q = record {
  after = q.after;
  run = swaps_trans r.run q.run;
  bound = trans_bound r.run q.run m n (m + n) r.bound q.bound (omega arith);
  kept = q.kept;
}

Known-written :
    (c n : StoredHumanHandoff) (b : Bool) (ps : List StoredHumanHandoff)
    → Known c ps
    → Known c (with_written b n ps)
Known-written c n true ps known = inr known
Known-written c n false ps known = known

pub reach_update :
    (c n : StoredHumanHandoff) (s : HandoffStore) (ps : List StoredHumanHandoff)
    → Known c ps
    → Change c n
    → (n.status == cancelled) ≡ false
    → Reaches 1 c s ps (update c n s).0
unfolding number
reach_update c n s ps known change other = record {
  after = with_written (update c n s).1 n ps;
  run =
      swap c n s ps known change other
        (done ((update c n s).0, with_written (update c n s).1 n ps));
  bound = omega arith;
  kept = Known-written c n (update c n s).1 ps known;
}

-- What a poll has taken: it holds an open record, or has an answer.
abbrev IsHeld : Result Taken → List StoredHumanHandoff → Type 0
IsHeld (ok (holding c)) ps = Known c ps × (is_terminal c.status ≡ false)
IsHeld (ok (answered view)) ps = Unit
IsHeld (err message) ps = Unit

pub record Takes (most : ℕ) (s : HandoffStore) (ps : List StoredHumanHandoff) (t : HandoffStore)
    (taken : Result Taken) : Type 0 where
  pub after : List StoredHumanHandoff
  pub run : Swaps (s, ps) (t, after)
  pub bound : number run ≤ most
  pub held : IsHeld taken after

won-Takes :
    (c n : StoredHumanHandoff) (s t : HandoffStore) (b : Bool) (ps : List StoredHumanHandoff)
    → is_terminal n.status ≡ false
    → (run : Swaps (s, ps) (t, with_written b n ps)) → number run ≤ 1
    → Takes 1 s ps (won c n (t, b)).0 (won c n (t, b)).1
won-Takes c n s t true ps live run bound = record {
  after = n ∷ ps;
  run = run;
  bound = bound;
  held = (inl refl, live);
}
won-Takes c n s t false ps live run bound = record {
  after = ps;
  run = run;
  bound = bound;
  held = tt;
}

swap-Takes :
    (c n : StoredHumanHandoff) (s : HandoffStore) (ps : List StoredHumanHandoff)
    → Known c ps
    → Change c n
    → is_terminal n.status ≡ false
    → (n.status == cancelled) ≡ false
    → Takes 1 s ps (take c n s).0 (take c n s).1
unfolding take number
swap-Takes c n s ps known change live other =
    won-Takes c n s (update c n s).0 (update c n s).1 ps live
      (swap c n s ps known change other
        (done ((update c n s).0, with_written (update c n s).1 n ps)))
      (omega arith)

Takes-none :
    (most : ℕ) (s : HandoffStore) (ps : List StoredHumanHandoff) (r : Result Taken)
    → IsHeld r ps
    → Takes most s ps s r
unfolding number
Takes-none most s ps r held = record {
  after = ps;
  run = done (s, ps);
  bound = omega arith;
  held = held;
}

reclaim-Takes :
    (c : StoredHumanHandoff) (now : ℕ) (s : HandoffStore) (ps : List StoredHumanHandoff)
    → Known c ps
    → is_terminal c.status ≡ false
    → Takes 1 s ps (reclaim c now s).0 (reclaim c now s).1
unfolding reclaim
reclaim-Takes c now s ps known live = elim (Bool-cases (c.status == polling)) [
  | inr pending ↦ rw (pending) (Takes-none 1 s ps (ok (holding c)) (known, live))
  | inl claimed ↦ elim (Bool-cases (is_claimed c now)) [
    | inl other ↦ rw (claimed, other) (Takes-none 1 s ps (ok (answered (view_of_pending c))) tt)
    | inr over ↦
        rw (claimed, over) (swap-Takes c (released c) s ps known (release c live) refl refl)
  ]
]

claim-Takes :
    (c : StoredHumanHandoff) (now : ℕ) (s : HandoffStore) (ps : List StoredHumanHandoff)
    → Known c ps
    → is_terminal c.status ≡ false
    → Takes 1 s ps (claim c now s).0 (claim c now s).1
unfolding claim
claim-Takes c now s ps known live = go (claim_end c now)
  where
    go :
        (r : Result IsoTimestamp)
        → Takes 1 s ps
            (continue (s, r) (λ e. take c (claimed_until e c))).0
            (continue (s, r) (λ e. take c (claimed_until e c))).1
    go (err message) = Takes-none 1 s ps (err message) tt
    go (ok e) =
        swap-Takes c (claimed_until e c) s ps known (Interleaving.Change.claim c e live) refl refl

-- From an open record that a poll has read, taking the claim makes at most two swaps, and the
-- record that the poll holds then is open and its own.
pub take_claim-Takes :
    (c : StoredHumanHandoff) (checked_at claimed_at : ℕ) (s : HandoffStore)
    (ps : List StoredHumanHandoff)
    → Known c ps
    → is_terminal c.status ≡ false
    → Takes 2 s ps (take_claim c checked_at claimed_at s).0 (take_claim c checked_at claimed_at s).1
unfolding take_claim
take_claim-Takes c checked_at claimed_at s ps known live =
    go (reclaim c checked_at s).0 (reclaim c checked_at s).1
      (reclaim-Takes c checked_at s ps known live)
  where
    go :
        (t : HandoffStore) (r : Result Taken)
        → Takes 1 s ps t r
        → Takes 2 s ps
            (continue (t, r) (claim_held claimed_at)).0
            (continue (t, r) (claim_held claimed_at)).1
    go t (err message) taken = record {
      after = taken.after;
      run = taken.run;
      bound = omega (arith, taken.bound);
      held = tt;
    }
    go t (ok (answered view)) taken = record {
      after = taken.after;
      run = taken.run;
      bound = omega (arith, taken.bound);
      held = tt;
    }
    go t (ok (holding d)) taken =
        let more = claim-Takes d claimed_at t taken.after taken.held.0 taken.held.1 in
        record {
          after = more.after;
          run = swaps_trans taken.run more.run;
          bound = trans_bound taken.run more.run 1 1 2 taken.bound more.bound (omega arith);
          held = more.held;
        }
