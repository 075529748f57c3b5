-- ===== src/Handoff/Interleaving/Growth.antt =====
-- What a call of the handoff store makes of the records in it: a record is kept or is replaced by
-- a later version, and one in a final state is kept.
use x.Prelude.{
  ℕ, String, true, false, ◌≡◌, ◌≤◌, ◌+◌, refl, sym, ap, ◌∙◌, Option, none, some, arith, eq_iff, get,
  set, delete, StringMap, get-set, ◌==◌, string_eq, nat_eq, Bool-cases, inl, inr, if◌then◌else◌,
}
use x.Handoff.{StoredHumanHandoff, is_terminal}
use x.Handoff.Store.{
  HandoffStore, create, get_authorized, update, get_found, update_found, must_expire, may_update,
  expire,
}
use x.Handoff.Interleaving.{Change, release, claim, fail, complete, cancel}

-- A record and what is stored in its place later.
pub record IsGrown (p c : StoredHumanHandoff) : Type 0 where
  pub newer : p.version ≤ c.version
  pub same : p.version ≡ c.version → p ≡ c
  pub final : is_terminal p.status ≡ true → p ≡ c

pub IsGrown-refl : (p : StoredHumanHandoff) → IsGrown p p
IsGrown-refl p = record { newer = omega arith; same = λ e. refl; final = λ e. refl }

pub IsGrown-trans : (p c d : StoredHumanHandoff) → IsGrown p c → IsGrown c d → IsGrown p d
IsGrown-trans p c d g h = record {
  newer = ground (arith, g.newer, h.newer);
  same = λ e. ground (arith, g.newer, h.newer, g.same, h.same);
  final = λ e. ground (arith, g.final, h.final);
}

pub IsGrown-newer :
    (p c : StoredHumanHandoff)
    → p.version + 1 ≡ c.version
    → is_terminal p.status ≡ false
    → IsGrown p c
IsGrown-newer p c newer live = record {
  newer = omega arith;
  same = λ e. absurd (omega arith);
  final = λ e. absurd (ground arith);
}

-- A record that a call has read or written.
pub record IsSnapshot (s : HandoffStore) (p : StoredHumanHandoff) : Type 0 where
  pub current : StoredHumanHandoff
  pub stored : get p.handoff_id s.records ≡ some current
  pub grown : IsGrown p current

-- Every record of a store is in the other one, the same or grown.
abbrev pub IsLater : HandoffStore → HandoffStore → Type 0
IsLater s t =
    (id : String) (c : StoredHumanHandoff)
    → get id s.records ≡ some c
    → (d : StoredHumanHandoff) × (get id t.records ≡ some d) × IsGrown c d

pub IsLater-refl : (s : HandoffStore) → IsLater s s
IsLater-refl s id c h = (c, h, IsGrown-refl c)

pub IsLater-trans : (s t u : HandoffStore) → IsLater s t → IsLater t u → IsLater s u
IsLater-trans s t u f g id c h =
    let (d, e, k) = f id c h in let (d', e', k') = g id d e in (d', e', IsGrown-trans c d d' k k')

pub IsSnapshot-later :
    (s t : HandoffStore) (p : StoredHumanHandoff) → IsLater s t → IsSnapshot s p → IsSnapshot t p
IsSnapshot-later s t p later snap =
    let (d, e, k) = later p.handoff_id snap.current snap.stored in
    record { current = d; stored = e; grown = IsGrown-trans p snap.current d snap.grown k }

pub get-create :
    (made : StoredHumanHandoff) (s : HandoffStore) (id : String) (c : StoredHumanHandoff)
    → get id s.records ≡ some c
    → get id (create made s).0.records ≡ some c
unfolding create
get-create made s id c h = elim (Bool-cases (made.handoff_id == id)) [
  | inl same ↦
      let e : made.handoff_id ≡ id = ground (arith, eq_iff made.handoff_id id) in
      ground (arith, e, h)
  | inr other ↦ ground (arith, get-set made.handoff_id id made s.records)
]

pub create-IsLater : (made : StoredHumanHandoff) (s : HandoffStore) → IsLater s (create made s).0
create-IsLater made s id c h = (c, get-create made s id c h, IsGrown-refl c)

pub some_inj : {A : Type 0} {a b : A} → some a ≡ some b → a ≡ b
some_inj h = cc

-- A store with another record under one ID.
abbrev pub replace : String → StoredHumanHandoff → StringMap String → HandoffStore → HandoffStore
replace id new active s = record { records = set id new s.records; active_dependencies = active }

pub replace-IsLater :
    (s : HandoffStore) (id : String) (old new : StoredHumanHandoff) (active : StringMap String)
    → get id s.records ≡ some old
    → IsGrown old new
    → IsLater s (replace id new active s)
replace-IsLater s id old new active stored g i c h = elim (Bool-cases (id == i)) [
  | inl same ↦
      let e : id ≡ i = ground (arith, eq_iff id i) in
      let o : old ≡ c = some_inj (sym stored ∙ ap (λ k. get k s.records) e ∙ h) in
      (new, ground (arith, get-set id i new s.records), rw (← o) g)
  | inr other ↦ (c, ground (arith, get-set id i new s.records), IsGrown-refl c)
]

pub expire-IsGrown :
    (p : StoredHumanHandoff) (now : ℕ) → must_expire p now ≡ true → IsGrown p (expire p)
expire-IsGrown p now due = IsGrown-newer p (expire p) refl (ground arith)

found-IsLater :
    (found : Option StoredHumanHandoff) (id digest : String) (now : ℕ) (s : HandoffStore)
    → get id s.records ≡ found
    → IsLater s (get_found found id digest now s).0
found-IsLater none id digest now s h = IsLater-refl s
found-IsLater (some p) id digest now s h = elim (Bool-cases (p.access_token_digest == digest)) [
  | inr wrong ↦ rw (wrong) (IsLater-refl s)
  | inl right ↦ elim (Bool-cases (must_expire p now)) [
    | inl due ↦
        rw (right, due)
          (replace-IsLater s id p (expire p) (delete p.dependency_id s.active_dependencies) h
            (expire-IsGrown p now due))
    | inr live ↦ rw (right, live) (IsLater-refl s)
  ]
]

pub get_authorized-IsLater :
    (id digest : String) (now : ℕ) (s : HandoffStore) → IsLater s (get_authorized id digest now s).0
unfolding get_authorized
get_authorized-IsLater id digest now s = found-IsLater (get id s.records) id digest now s refl

-- What the service's changes have in common.
pub record IsFollowing (p n : StoredHumanHandoff) : Type 0 where
  pub same_id : n.handoff_id ≡ p.handoff_id
  pub same_dependency : n.dependency_id ≡ p.dependency_id
  pub next_version : n.version ≡ p.version + 1
  pub live : is_terminal p.status ≡ false

pub change-IsFollowing : (p n : StoredHumanHandoff) → Change p n → IsFollowing p n
change-IsFollowing _ _ (release p live) = record {
  same_id = refl;
  same_dependency = refl;
  next_version = refl;
  live = live;
}
change-IsFollowing _ _ (claim p claim_expires_at live) = record {
  same_id = refl;
  same_dependency = refl;
  next_version = refl;
  live = live;
}
change-IsFollowing _ _ (fail p failure live) = record {
  same_id = refl;
  same_dependency = refl;
  next_version = refl;
  live = live;
}
change-IsFollowing _ _ (complete p protected live) = record {
  same_id = refl;
  same_dependency = refl;
  next_version = refl;
  live = live;
}
change-IsFollowing _ _ (cancel p live) = record {
  same_id = refl;
  same_dependency = refl;
  next_version = refl;
  live = live;
}

pub may_update-same : (c p n : StoredHumanHandoff) → may_update c p n ≡ true → c.version ≡ p.version
may_update-same c p n h = ground arith

-- The compare-and-swap succeeds only on the record that the caller has read.
pub update-current :
    (p n c : StoredHumanHandoff) (s : HandoffStore) (snap : IsSnapshot s p)
    → get p.handoff_id s.records ≡ some c
    → may_update c p n ≡ true
    → p ≡ c
update-current p n c s snap stored swapped =
    let o : snap.current ≡ c = some_inj (sym snap.stored ∙ stored) in
    snap.grown.same (sym (may_update-same c p n swapped) ∙ ap (λ r. r.version) (sym o)) ∙ o

-- `#activeDependencies` after a record is written.
abbrev pub active_after : StoredHumanHandoff → HandoffStore → StringMap String
active_after n s =
    if is_terminal n.status
    then delete n.dependency_id s.active_dependencies
    else s.active_dependencies

found-update-IsLater :
    (found : Option StoredHumanHandoff) (p n : StoredHumanHandoff) (s : HandoffStore)
    → IsSnapshot s p
    → IsFollowing p n
    → get p.handoff_id s.records ≡ found
    → IsLater s (update_found found p n s).0
found-update-IsLater none p n s snap f h = IsLater-refl s
found-update-IsLater (some c) p n s snap f h = elim (Bool-cases (may_update c p n)) [
  | inr lost ↦ rw (lost) (IsLater-refl s)
  | inl swapped ↦
      let e : p ≡ c = update-current p n c s snap h swapped in
      rw (swapped) (
        replace-IsLater s n.handoff_id c n (active_after n s)
          (ap (λ k. get k s.records) f.same_id ∙ h)
          (rw (← e) (IsGrown-newer p n (sym f.next_version) f.live)))
]

pub update-IsLater :
    (p n : StoredHumanHandoff) (s : HandoffStore)
    → IsSnapshot s p
    → Change p n
    → IsLater s (update p n s).0
unfolding update
update-IsLater p n s snap change =
    found-update-IsLater (get p.handoff_id s.records) p n s snap (change-IsFollowing p n change)
      refl
