-- ===== src/Handoff/Interleaving.antt =====
-- Any number of starts, polls and cancellations of src/handoff.ts at a time, step by step. A world
-- is the store and the records that the calls have read, or have written themselves.
pub mod Growth
pub mod Valid
pub mod Steps
pub mod Reached
pub mod Read
use x.Prelude.{
  ℕ, String, Bool, true, false, ◌≡◌, ◌⊎◌, Option, none, some, List, [], ◌∷◌, IsoTimestamp,
}
use x.Handoff.{StoredHumanHandoff, is_terminal, pending}
use x.Handoff.Store.{HandoffStore, create, get_authorized, update}
use x.Handoff.Transitions.{released, claimed_until, failed_with, completed_with, cancelled_from}

-- What a call of the service makes of an open record that it has read.
pub data Change : StoredHumanHandoff → StoredHumanHandoff → Type 0 where
  release : (p : StoredHumanHandoff) → is_terminal p.status ≡ false → Change p (released p)
  claim :
      (p : StoredHumanHandoff) (claim_expires_at : IsoTimestamp)
      → is_terminal p.status ≡ false
      → Change p (claimed_until claim_expires_at p)
  fail :
      (p : StoredHumanHandoff) (failure : String)
      → is_terminal p.status ≡ false
      → Change p (failed_with failure p)
  complete :
      (p : StoredHumanHandoff) (protected : String)
      → is_terminal p.status ≡ false
      → Change p (completed_with protected p)
  cancel : (p : StoredHumanHandoff) → is_terminal p.status ≡ false → Change p (cancelled_from p)

abbrev pub World : Type 0
World = HandoffStore × List StoredHumanHandoff

abbrev pub Known : StoredHumanHandoff → List StoredHumanHandoff → Type 0
Known p [] = ⊥
Known p (q ∷ ps) = (p ≡ q) ⊎ Known p ps

abbrev pub with_read : Option StoredHumanHandoff → List StoredHumanHandoff → List StoredHumanHandoff
with_read none snapshots = snapshots
with_read (some found) snapshots = found ∷ snapshots

abbrev pub with_written :
    Bool → StoredHumanHandoff → List StoredHumanHandoff → List StoredHumanHandoff
with_written true next snapshots = next ∷ snapshots
with_written false next snapshots = snapshots

-- One call of the store.
pub data Step : World → World → Type 0 where
  creates :
      (made : StoredHumanHandoff) (s : HandoffStore) (ps : List StoredHumanHandoff)
      → Step (s, ps) ((create made s).0, ps)
  reads :
      (id digest : String) (now : ℕ) (s : HandoffStore) (ps : List StoredHumanHandoff)
      → Step
          (s, ps)
          ((get_authorized id digest now s).0, with_read (get_authorized id digest now s).1 ps)
  updates :
      (p n : StoredHumanHandoff) (s : HandoffStore) (ps : List StoredHumanHandoff)
      → Known p ps
      → Change p n
      → Step (s, ps) ((update p n s).0, with_written (update p n s).1 n ps)

pub data Run : World → World → Type 0 where
  stop : (w : World) → Run w w
  next : {u v w : World} → Step u v → Run v w → Run u w

-- The state after `new InMemoryHandoffStore()`.
abbrev pub initial : World
initial = (record { records = []; active_dependencies = [] }, [])
