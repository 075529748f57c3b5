-- ===== src/Handoff/Interleaving/Reached.antt =====
-- What holds however the calls of the handoff service interleave.
use x.Prelude.{
  String, true, false, ◌≡◌, ◌≤◌, ◌+◌, sym, ap, ◌∙◌, Option, none, some, arith, get, string_eq,
  nat_eq,
}
use x.Handoff.{StoredHumanHandoff, is_terminal}
use x.Handoff.Store.{update, update_found, HandoffStore}
use x.Handoff.Interleaving.{Change, updates, Run, World, Known, initial, with_written}
use x.Handoff.Interleaving.Growth.{some_inj, change-IsFollowing}
use x.Handoff.Interleaving.Steps.{IsValid, Run-IsValid, Run-IsLater, Step-IsValid, update_won}

pub initial-IsValid : IsValid initial
unfolding get
initial-IsValid = record {
  consistent = record {
    keyed = λ id c h. absurd (ground arith);
    exclusive = λ id c h live. absurd (ground arith);
  };
  snapshots = tt;
}

-- In every world that a run from the empty store reaches, two records of one dependency that are
-- both in no final state (pending or polling) are stored under the same handoff ID.
pub one_open_handoff :
    (w : World) (i j : String) (c d : StoredHumanHandoff)
    → Run initial w
    → get i w.0.records ≡ some c
    → get j w.0.records ≡ some d
    → is_terminal c.status ≡ false
    → is_terminal d.status ≡ false
    → c.dependency_id ≡ d.dependency_id
    → i ≡ j
one_open_handoff w i j c d run at_i at_j live_c live_d shared =
    let exclusive = (Run-IsValid initial w initial-IsValid run).consistent.exclusive in
    some_inj (
      sym (exclusive i c at_i live_c)
      ∙ ap (λ k. get k w.0.active_dependencies) shared
      ∙ exclusive j d at_j live_d)

-- A record that is completed, failed, expired or cancelled in a world that a run from the empty
-- store reaches is still there, unchanged, after any further steps.
pub final_record_stays :
    (v w : World) (id : String) (c : StoredHumanHandoff)
    → Run initial v
    → Run v w
    → get id v.0.records ≡ some c
    → is_terminal c.status ≡ true
    → get id w.0.records ≡ some c
final_record_stays v w id c before after stored closed =
    let (d, e, grown) =
      Run-IsLater v w (Run-IsValid initial v initial-IsValid before) after id c stored in
    e ∙ ap some (sym (grown.final closed))

lost_later :
    (found : Option StoredHumanHandoff) (p m d : StoredHumanHandoff) (s : HandoffStore)
    → found ≡ some d
    → p.version + 1 ≤ d.version
    → (update_found found p m s).1 ≡ false
lost_later none p m d s h newer = absurd (ground arith)
lost_later (some c) p m d s h newer =
    let e : c ≡ d = some_inj h in
    let v : c.version ≡ d.version = ap (λ r. r.version) e in ground (arith, v, newer)

-- Of the changes that calls make from one version of a record, at most one is stored. Let a call
-- hold a record p in a world that a run from the empty store reaches. If its compare-and-swap of p
-- with a change n of p succeeds, then every later one of p, with any record m, fails, whatever
-- steps are made in between.
pub swap_once :
    (v w : World) (p n m : StoredHumanHandoff)
    → Run initial v
    → Known p v.1
    → Change p n
    → (update p n v.0).1 ≡ true
    → Run ((update p n v.0).0, with_written (update p n v.0).1 n v.1) w
    → (update p m w.0).1 ≡ false
unfolding update
swap_once v w p n m before known change swapped after =
    let valid = Run-IsValid initial v initial-IsValid before in
    let f = change-IsFollowing p n change in
    let valid' = Step-IsValid v _ valid (updates p n v.0 v.1 known change) in
    let snap = update_won v p n valid known change swapped in
    let (d, e, grown) = Run-IsLater _ w valid' after n.handoff_id snap.current snap.stored in
    lost_later (get p.handoff_id w.0.records) p m d w.0
      (ap (λ k. get k w.0.records) (sym f.same_id) ∙ e)
      (ground (arith, f.next_version, snap.grown.newer, grown.newer))
