-- ===== src/Handoff/Poll/Swaps.antt =====
-- What one call of `poll` in src/handoff.ts does to the store after its read: compare-and-swaps of
-- records that it has read or written itself.
use x.Prelude.{
  ℕ, suc, ◌+◌, Bool, true, false, ◌≡◌, refl, List, [], ◌∷◌, ◌++◌, inl, inr, arith, ◌==◌,
}
use x.Handoff.{StoredHumanHandoff, cancelled, handoff_status_eq}
use x.Handoff.Store.{HandoffStore, update}
use x.Handoff.Interleaving.{Change, updates, Run, stop, next, World, Known, with_written}

-- No creation, no further read, and no cancellation. The list has the records of this call alone.
pub data Swaps : World → World → Type 0 where
  done : (w : World) → Swaps w w
  swap :
      (p n : StoredHumanHandoff) (s : HandoffStore) (own : List StoredHumanHandoff) {w : World}
      → Known p own
      → Change p n
      → (n.status == cancelled) ≡ false
      → Swaps ((update p n s).0, with_written (update p n s).1 n own) w
      → Swaps (s, own) w

unfoldable pub number : {u w : World} → Swaps u w → ℕ
number (done w) = 0
number (swap p n s own known change other rest) = suc (number rest)

pub swaps_trans : {u v w : World} → Swaps u v → Swaps v w → Swaps u w
swaps_trans (done v) q = q
swaps_trans (swap p n s own known change other rest) q =
    swap p n s own known change other (swaps_trans rest q)

pub number-swaps_trans :
    {u v w : World} (r : Swaps u v) (q : Swaps v w) → number (swaps_trans r q) ≡ number r + number q
unfolding number swaps_trans
number-swaps_trans (done v) q = omega arith
number-swaps_trans (swap p n s own known change other rest) q =
    omega (arith, number-swaps_trans rest q)

Known-append :
    (p : StoredHumanHandoff) (own ps : List StoredHumanHandoff) → Known p own → Known p (own ++ ps)
Known-append p [] ps h = absurd h
Known-append p (c ∷ own) ps (inl e) = inl e
Known-append p (c ∷ own) ps (inr h) = inr (Known-append p own ps h)

with_written-append :
    (b : Bool) (n : StoredHumanHandoff) (own ps : List StoredHumanHandoff)
    → with_written b n own ++ ps ≡ with_written b n (own ++ ps)
with_written-append true n own ps = refl
with_written-append false n own ps = refl

-- They are steps among those of other calls, which hold other records.
pub Swaps-Run :
    {u w : World} (ps : List StoredHumanHandoff) → Swaps u w → Run (u.0, u.1 ++ ps) (w.0, w.1 ++ ps)
Swaps-Run ps (done w) = stop (w.0, w.1 ++ ps)
Swaps-Run {w = w} ps (swap p n s own known change other rest) =
    let b = (update p n s).1 in
    let later : Run ((update p n s).0, with_written b n (own ++ ps)) (w.0, w.1 ++ ps) =
      rw (with_written-append b n own ps) at (Swaps-Run ps rest) in
    next (updates p n s (own ++ ps) (Known-append p own ps known) change) later
