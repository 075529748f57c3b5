-- ===== src/Keys/Laws.antt =====
-- When a key may be used, and which secret issues.
use x.Prelude.{
  is_ok, All, ap, ◌++◌, ℕ, true, false, ◌≡◌, ◌≢◌, ◌≤◌, ◌<◌, ◌↔◌, refl, some, List, [], ◌∷◌, ok,
  arith, IsoTimestamp, date_parse, time_ms, keep, Bool-cases, inl, inr, Result, err,
}
use x.Keys.{
  KeyLifecycleStatus, pending, active, revoked, PairwiseSecretVersion, assert_key_usable,
  is_issuing, select_issuing_pairwise_secret,
}

pub record IsUsable (status : KeyLifecycleStatus) (not_before not_after : IsoTimestamp) (now : ℕ)
    : Type 0 where
  pub not_revoked : status ≢ revoked
  pub begun : status ≢ pending
  pub readable_start : date_parse not_before ≡ some (time_ms not_before)
  pub readable_end : date_parse not_after ≡ some (time_ms not_after)
  pub started : time_ms not_before ≤ now
  pub running : now < time_ms not_after

-- A key is usable exactly if it is active or retired and the present lies in its interval, which
-- includes its start and not its end.
pub assert_key_usable_iff :
    (status : KeyLifecycleStatus) (b e : IsoTimestamp) (now : ℕ)
    → (assert_key_usable status b e now ≡ ok tt) ↔ IsUsable status b e now
unfolding assert_key_usable
assert_key_usable_iff status b e now = (
  λ h. ground arith,
  λ u. ground (arith, u.not_revoked, u.begun, u.readable_start, u.readable_end),
)

ok_tt : (r : Result (Unit {0})) → is_ok r ≡ true → r ≡ ok tt
ok_tt (ok tt') h = refl
ok_tt (err e) h = absurd (ground arith)

-- A version issues exactly if it is active and usable.
pub is_issuing_iff :
    (v : PairwiseSecretVersion) (now : ℕ)
    → (is_issuing now v ≡ true)
      ↔ ((v.status ≡ active) × IsUsable v.status v.not_before v.not_after now)
unfolding is_issuing
is_issuing_iff v now =
    let usable = assert_key_usable_iff v.status v.not_before v.not_after now in
    (
      λ h. (ground arith, usable.0 (ok_tt _ (ground arith))),
      λ (live, u). ground (arith, usable.1 u),
    )

-- The only element of the list that passes the test, with what stands around it.
record IsOnlyKept (versions : List PairwiseSecretVersion) (now : ℕ) (v : PairwiseSecretVersion)
    : Type 0 where
  before : List PairwiseSecretVersion
  after : List PairwiseSecretVersion
  split : versions ≡ before ++ (v ∷ after)
  issues : is_issuing now v ≡ true
  none_before : All (λ w. is_issuing now w ≡ false) before
  none_after : All (λ w. is_issuing now w ≡ false) after

keep-nil :
    (vs : List PairwiseSecretVersion) (now : ℕ)
    → keep (is_issuing now) vs ≡ []
    → All (λ w. is_issuing now w ≡ false) vs
keep-nil [] now h = tt
keep-nil (v ∷ vs) now h = (ground arith, keep-nil vs now (ground arith))

keep-IsOnlyKept :
    (vs : List PairwiseSecretVersion) (now : ℕ) (v : PairwiseSecretVersion)
    → keep (is_issuing now) vs ≡ v ∷ []
    → IsOnlyKept vs now v
keep-IsOnlyKept [] now v h = absurd (ground arith)
keep-IsOnlyKept (w ∷ vs) now v h = elim (Bool-cases (is_issuing now w)) [
  | inl issues ↦
      let same : w ≡ v = ground arith in
      record {
        before = [];
        after = vs;
        split = ground arith;
        issues = ground arith;
        none_before = tt;
        none_after = keep-nil vs now (ground arith);
      }
  | inr idle ↦
      let o = keep-IsOnlyKept vs now v (ground arith) in
      record {
        before = w ∷ o.before;
        after = o.after;
        split = ap (λ l. w ∷ l) o.split;
        issues = o.issues;
        none_before = (idle, o.none_before);
        none_after = o.none_after;
      }
]

nil-keep :
    (vs : List PairwiseSecretVersion) (now : ℕ)
    → All (λ w. is_issuing now w ≡ false) vs
    → keep (is_issuing now) vs ≡ []
nil-keep [] now h = refl
nil-keep (v ∷ vs) now (idle, h) = ground (arith, nil-keep vs now h)

only-keep :
    (before after : List PairwiseSecretVersion) (now : ℕ) (v : PairwiseSecretVersion)
    → All (λ w. is_issuing now w ≡ false) before
    → All (λ w. is_issuing now w ≡ false) after
    → is_issuing now v ≡ true
    → keep (is_issuing now) (before ++ (v ∷ after)) ≡ v ∷ []
only-keep [] after now v h k issues = ground (arith, nil-keep after now k)
only-keep (w ∷ before) after now v (idle, h) k issues =
    ground (arith, only-keep before after now v h k issues)

-- The version is active, and the present lies in its interval.
abbrev pub IsIssuing : ℕ → PairwiseSecretVersion → Type 0
IsIssuing now v = (v.status ≡ active) × IsUsable v.status v.not_before v.not_after now

-- The only version of the list that is active and usable, with what stands around it.
pub record IsOnly (versions : List PairwiseSecretVersion) (now : ℕ) (v : PairwiseSecretVersion)
    : Type 0 where
  pub before : List PairwiseSecretVersion
  pub after : List PairwiseSecretVersion
  pub split : versions ≡ before ++ (v ∷ after)
  pub issues : IsIssuing now v
  pub none_before : All (λ w. ¬ IsIssuing now w) before
  pub none_after : All (λ w. ¬ IsIssuing now w) after

idle_none :
    (vs : List PairwiseSecretVersion) (now : ℕ)
    → All (λ w. is_issuing now w ≡ false) vs
    → All (λ w. ¬ IsIssuing now w) vs
idle_none [] now h = tt
idle_none (v ∷ vs) now (idle, h) = (
  λ issues. let e = (is_issuing_iff v now).1 issues in absurd (ground (arith, idle, e)),
  idle_none vs now h,
)

none_idle :
    (vs : List PairwiseSecretVersion) (now : ℕ)
    → All (λ w. ¬ IsIssuing now w) vs
    → All (λ w. is_issuing now w ≡ false) vs
none_idle [] now h = tt
none_idle (v ∷ vs) now (other, h) = (
  elim (Bool-cases (is_issuing now v)) [
    | inl e ↦ absurd (other ((is_issuing_iff v now).0 e))
    | inr e ↦ e
  ],
  none_idle vs now h,
)

kept-IsOnly :
    (vs : List PairwiseSecretVersion) (now : ℕ) (v : PairwiseSecretVersion)
    → IsOnlyKept vs now v
    → IsOnly vs now v
kept-IsOnly vs now v o = record {
  before = o.before;
  after = o.after;
  split = o.split;
  issues = (is_issuing_iff v now).0 o.issues;
  none_before = idle_none o.before now o.none_before;
  none_after = idle_none o.after now o.none_after;
}

-- The issuing secret is found exactly if one version and no other issues: it is active, its interval
-- has readable ends, and the present lies in it, the start included and the end not.
pub select_issuing_iff :
    (vs : List PairwiseSecretVersion) (now : ℕ) (v : PairwiseSecretVersion)
    → (select_issuing_pairwise_secret vs now ≡ ok v) ↔ IsOnly vs now v
unfolding select_issuing_pairwise_secret
select_issuing_iff vs now v = (
  λ h. kept-IsOnly vs now v (keep-IsOnlyKept vs now v (ground arith)),
  λ o. rw (o.split) (
      rw
        (only-keep o.before o.after now v (none_idle o.before now o.none_before)
          (none_idle o.after now o.none_after) ((is_issuing_iff v now).1 o.issues))
        refl),
)
