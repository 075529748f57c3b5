-- ===== src/Handoff/Interleaving/Steps.antt =====
-- What every step keeps: the store is consistent, and the records that calls hold are versions of
-- the stored ones.
use x.Prelude.{
  ℕ, String, Bool, true, false, ◌≡◌, refl, sym, ap, ◌∙◌, Option, none, some, arith, get, delete,
  eq_iff, get-set, ◌==◌, string_eq, nat_eq, Bool-cases, inl, inr, List, [], ◌∷◌, All,
}
use x.Handoff.{StoredHumanHandoff, is_terminal}
use x.Handoff.Store.{
  HandoffStore, create, get_authorized, update, get_found, update_found, must_expire, may_update,
  expire,
}
use x.Handoff.Interleaving.{
  Change, Step, creates, reads, updates, Run, stop, next, World, Known, with_read, with_written,
}
use x.Handoff.Interleaving.Growth.{
  replace, active_after, IsSnapshot, IsFollowing, update-current, change-IsFollowing, IsGrown-refl,
  IsLater, IsLater-refl, IsLater-trans, IsSnapshot-later, create-IsLater, get_authorized-IsLater,
  update-IsLater,
}
use x.Handoff.Interleaving.Valid.{
  IsConsistent, replace-IsKeyed, close-IsExclusive, keep-IsExclusive, create-IsConsistent,
}

-- A call that reads gets a snapshot, if it gets a record.
abbrev IsRead : HandoffStore → Option StoredHumanHandoff → Type 0
IsRead s none = Unit
IsRead s (some p) = IsSnapshot s p

IsSnapshot-of :
    (s : HandoffStore) (p : StoredHumanHandoff)
    → get p.handoff_id s.records ≡ some p
    → IsSnapshot s p
IsSnapshot-of s p h = record { current = p; stored = h; grown = IsGrown-refl p }

found-IsConsistent :
    (found : Option StoredHumanHandoff) (id digest : String) (now : ℕ) (s : HandoffStore)
    → get id s.records ≡ found
    → IsConsistent s
    → IsConsistent (get_found found id digest now s).0
      × IsRead (get_found found id digest now s).0 (get_found found id digest now s).1
found-IsConsistent none id digest now s h valid = (valid, tt)
found-IsConsistent (some p) id digest now s h valid =
    let own : p.handoff_id ≡ id = valid.keyed id p h in
    elim (Bool-cases (p.access_token_digest == digest)) [
      | inr wrong ↦ rw (wrong) (valid, tt)
      | inl right ↦ elim (Bool-cases (must_expire p now)) [
        | inr live ↦ rw (right, live) (valid, IsSnapshot-of s p (ap (λ k. get k s.records) own ∙ h))
        | inl due ↦
            rw (right, due)
              (
                record {
                  keyed =
                      replace-IsKeyed s id (expire p) (delete p.dependency_id s.active_dependencies)
                        own valid.keyed;
                  exclusive =
                      close-IsExclusive s id p (expire p) h (ground arith) refl refl
                        valid.exclusive;
                },
                IsSnapshot-of
                    (replace id (expire p) (delete p.dependency_id s.active_dependencies) s)
                    (expire p)
                    (ground (
                      arith,
                      own,
                      eq_iff id p.handoff_id,
                      get-set id p.handoff_id (expire p) s.records,
                    )),
              )
      ]
    ]

written-IsConsistent :
    (s : HandoffStore) (p n : StoredHumanHandoff)
    → get p.handoff_id s.records ≡ some p
    → IsFollowing p n
    → IsConsistent s
    → IsConsistent (replace n.handoff_id n (active_after n s) s)
written-IsConsistent s p n h f valid =
    let stored : get n.handoff_id s.records ≡ some p = ap (λ k. get k s.records) f.same_id ∙ h in
    record {
      keyed = replace-IsKeyed s n.handoff_id n (active_after n s) refl valid.keyed;
      exclusive = elim (Bool-cases (is_terminal n.status)) [
        | inl closed ↦ rw (closed) (
            close-IsExclusive s n.handoff_id p n stored f.live closed f.same_dependency
              valid.exclusive)
        | inr live ↦
            rw (live)
              (keep-IsExclusive s n.handoff_id p n stored f.live f.same_dependency valid.exclusive)
      ];
    }

abbrev IsWritten : HandoffStore → Bool → StoredHumanHandoff → Type 0
IsWritten s true n = IsSnapshot s n
IsWritten s false n = Unit

found-update-IsConsistent :
    (found : Option StoredHumanHandoff) (p n : StoredHumanHandoff) (s : HandoffStore)
    → IsSnapshot s p
    → IsFollowing p n
    → get p.handoff_id s.records ≡ found
    → IsConsistent s
    → IsConsistent (update_found found p n s).0
      × IsWritten (update_found found p n s).0 (update_found found p n s).1 n
found-update-IsConsistent none p n s snap f h valid = (valid, tt)
found-update-IsConsistent (some c) p n s snap f h valid = elim (Bool-cases (may_update c p n)) [
  | inr lost ↦ rw (lost) (valid, tt)
  | inl swapped ↦
      let e : p ≡ c = update-current p n c s snap h swapped in
      rw (swapped) (
        written-IsConsistent s p n (h ∙ ap some (sym e)) f valid,
        IsSnapshot-of (replace n.handoff_id n (active_after n s) s) n (
            ground (
              arith,
              eq_iff n.handoff_id n.handoff_id,
              get-set n.handoff_id n.handoff_id n s.records,
            )),
      )
]

-- What every step keeps.
pub record IsValid (w : World) : Type 0 where
  pub consistent : IsConsistent w.0
  pub snapshots : All (IsSnapshot w.0) w.1

later-All :
    (s t : HandoffStore) (ps : List StoredHumanHandoff)
    → IsLater s t
    → All (IsSnapshot s) ps
    → All (IsSnapshot t) ps
later-All s t [] later all = tt
later-All s t (p ∷ ps) later (snap, all) =
    (IsSnapshot-later s t p later snap, later-All s t ps later all)

pub Known-IsSnapshot :
    (s : HandoffStore) (p : StoredHumanHandoff) (ps : List StoredHumanHandoff)
    → Known p ps
    → All (IsSnapshot s) ps
    → IsSnapshot s p
Known-IsSnapshot s p [] known all = absurd known
Known-IsSnapshot s p (q ∷ ps) (inl e) (snap, all) = rw (e) snap
Known-IsSnapshot s p (q ∷ ps) (inr known) (snap, all) = Known-IsSnapshot s p ps known all

with_read-All :
    (s : HandoffStore) (found : Option StoredHumanHandoff) (ps : List StoredHumanHandoff)
    → IsRead s found
    → All (IsSnapshot s) ps
    → All (IsSnapshot s) (with_read found ps)
with_read-All s none ps read all = all
with_read-All s (some p) ps read all = (read, all)

with_written-All :
    (s : HandoffStore) (won : Bool) (n : StoredHumanHandoff) (ps : List StoredHumanHandoff)
    → IsWritten s won n
    → All (IsSnapshot s) ps
    → All (IsSnapshot s) (with_written won n ps)
with_written-All s true n ps written all = (written, all)
with_written-All s false n ps written all = all

pub Step-IsLater : (v w : World) → IsValid v → Step v w → IsLater v.0 w.0
Step-IsLater _ _ valid (creates made s ps) = create-IsLater made s
Step-IsLater _ _ valid (reads id digest now s ps) = get_authorized-IsLater id digest now s
Step-IsLater _ _ valid (updates p n s ps known change) =
    update-IsLater p n s (Known-IsSnapshot s p ps known valid.snapshots) change

pub Step-IsValid : (v w : World) → IsValid v → Step v w → IsValid w
unfolding get_authorized update
Step-IsValid _ _ valid (creates made s ps) = record {
  consistent = create-IsConsistent made s valid.consistent;
  snapshots = later-All s (create made s).0 ps (create-IsLater made s) valid.snapshots;
}
Step-IsValid _ _ valid (reads id digest now s ps) =
    let (kept, read) =
      found-IsConsistent (get id s.records) id digest now s refl valid.consistent in
    record {
      consistent = kept;
      snapshots =
          with_read-All (get_authorized id digest now s).0 (get_authorized id digest now s).1 ps
            read
            (later-All s (get_authorized id digest now s).0 ps
              (get_authorized-IsLater id digest now s) valid.snapshots);
    }
Step-IsValid _ _ valid (updates p n s ps known change) =
    let snap = Known-IsSnapshot s p ps known valid.snapshots in
    let (kept, written) =
      found-update-IsConsistent (get p.handoff_id s.records) p n s snap
        (change-IsFollowing p n change) refl valid.consistent in
    record {
      consistent = kept;
      snapshots =
          with_written-All (update p n s).0 (update p n s).1 n ps written
            (later-All s (update p n s).0 ps (update-IsLater p n s snap change) valid.snapshots);
    }

pub Run-IsValid : (v w : World) → IsValid v → Run v w → IsValid w
Run-IsValid _ _ valid (stop w) = valid
Run-IsValid _ w valid (next {u} {v} step run) = Run-IsValid v w (Step-IsValid u v valid step) run

pub Run-IsLater : (v w : World) → IsValid v → Run v w → IsLater v.0 w.0
Run-IsLater _ _ valid (stop w) = IsLater-refl w.0
Run-IsLater _ w valid (next {u} {v} step run) =
    IsLater-trans u.0 v.0 w.0 (Step-IsLater u v valid step)
      (Run-IsLater v w (Step-IsValid u v valid step) run)

written_true :
    (s : HandoffStore) (won : Bool) (n : StoredHumanHandoff)
    → won ≡ true
    → IsWritten s won n
    → IsSnapshot s n
written_true s true n h written = written
written_true s false n h written = absurd (ground arith)

-- What a compare-and-swap that succeeds has stored.
pub update_won :
    (w : World) (p n : StoredHumanHandoff)
    → IsValid w
    → Known p w.1
    → Change p n
    → (update p n w.0).1 ≡ true
    → IsSnapshot (update p n w.0).0 n
unfolding update
update_won w p n valid known change won =
    let snap = Known-IsSnapshot w.0 p w.1 known valid.snapshots in
    let (kept, written) =
      found-update-IsConsistent (get p.handoff_id w.0.records) p n w.0 snap
        (change-IsFollowing p n change) refl valid.consistent in
    written_true (update p n w.0).0 (update p n w.0).1 n won written

pub Run-trans : (u v w : World) → Run u v → Run v w → Run u w
Run-trans _ _ w (stop u) r = r
Run-trans _ v w (next {v = t} step q) r = next step (Run-trans t v w q r)
