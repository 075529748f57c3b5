-- ===== src/Handoff/Cancel/Interleaved.antt =====
-- `cancel` of src/handoff.ts and the steps of Handoff/Interleaving.antt.
use x.Prelude.{ℕ, String, refl, Option, none, some, List, ◌∷◌, Bool-cases, inl, inr}
use x.Handoff.{StoredHumanHandoff, is_terminal, handoff_status_eq}
use x.Handoff.Store.{HandoffStore, get_authorized, update}
use x.Handoff.Transitions.{cancelled_from}
use x.Handoff.Cancel.{cancel, cancel_found}
use x.Handoff.Interleaving.{reads, updates, Run, stop, next, with_read, with_written}
use x.Handoff.Interleaving

cancel_found-Run :
    (found : Option StoredHumanHandoff) (s : HandoffStore) (ps : List StoredHumanHandoff)
    → (after : List StoredHumanHandoff) × Run
        (s, with_read found ps)
        ((cancel_found found s).0, after)
unfolding cancel_found
cancel_found-Run none s ps = (ps, stop (s, ps))
cancel_found-Run (some c) s ps = elim (Bool-cases (is_terminal c.status)) [
  | inl closed ↦ rw (closed) (c ∷ ps, stop (s, c ∷ ps))
  | inr live ↦
      let won = (update c (cancelled_from c) s).1 in
      rw (live) (
        with_written won (cancelled_from c) (c ∷ ps),
        next
            (updates c (cancelled_from c) s (c ∷ ps) (inl refl) (Interleaving.Change.cancel c live))
            (stop
              ((update c (cancelled_from c) s).0, with_written won (cancelled_from c) (c ∷ ps))),
      )
]

-- With any records in the hands of other calls, a call of `cancel` makes steps of the interleaving.
pub cancel-Run :
    (id digest : String) (now : ℕ) (s : HandoffStore) (ps : List StoredHumanHandoff)
    → (after : List StoredHumanHandoff) × Run (s, ps) ((cancel id digest now s).0, after)
unfolding cancel
cancel-Run id digest now s ps =
    let read = get_authorized id digest now s in
    let (after, run) = cancel_found-Run read.1 read.0 ps in
    (after, next (reads id digest now s ps) run)
