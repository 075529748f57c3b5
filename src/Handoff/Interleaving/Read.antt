-- ===== src/Handoff/Interleaving/Read.antt =====
-- What a read of the store in src/handoff.ts finds, and leaves.
use x.Prelude.{
  ℕ, String, true, false, ◌≡◌, ◌≢◌, refl, ap, ◌∙◌, Option, none, some, arith, eq_iff, eq_refl, get,
  get-set, ◌==◌, string_eq, nat_eq, Bool-cases, inl, inr,
}
use x.Handoff.{StoredHumanHandoff, is_terminal}
use x.Handoff.Store.{HandoffStore, get_authorized, get_found, must_expire, expire}
use x.Handoff.Interleaving.Valid.{IsKeyed}
use x.Handoff.Interleaving.Growth.{some_inj}

-- The record that was read is the stored one, under its own ID, and has the digest of the call.
pub record IsRead (id digest : String) (t : HandoffStore) (c : StoredHumanHandoff) : Type 0 where
  pub stored : get id t.records ≡ some c
  pub own : c.handoff_id ≡ id
  pub digest_same : c.access_token_digest ≡ digest

found-IsRead :
    (found : Option StoredHumanHandoff) (id digest : String) (now : ℕ) (s : HandoffStore)
    (c : StoredHumanHandoff)
    → get id s.records ≡ found
    → IsKeyed s
    → (get_found found id digest now s).1 ≡ some c
    → IsRead id digest (get_found found id digest now s).0 c
found-IsRead none id digest now s c e keyed h = absurd (ground (arith, h))
found-IsRead (some d) id digest now s c e keyed h =
    elim (Bool-cases (d.access_token_digest == digest)) [
      | inr other ↦ absurd (ground (arith, other, h))
      | inl same ↦
          let own = keyed id d e in
          let secret = (eq_iff d.access_token_digest digest).0 same in
          elim (Bool-cases (must_expire d now)) [
            | inl over ↦
                let it : some (expire d) ≡ some c = rw (same, over) at h in
                rw (same, over)
                  (rw (← some_inj it) (record {
                    stored = rw (get-set id id (expire d) s.records, eq_refl id) refl;
                    own = own;
                    digest_same = secret;
                  }))
            | inr running ↦
                let it : some d ≡ some c = rw (same, running) at h in
                rw (same, running)
                  (rw (← some_inj it) (record { stored = e; own = own; digest_same = secret }))
          ]
    ]

pub get_authorized-IsRead :
    (id digest : String) (now : ℕ) (s : HandoffStore) (c : StoredHumanHandoff)
    → IsKeyed s
    → (get_authorized id digest now s).1 ≡ some c
    → IsRead id digest (get_authorized id digest now s).0 c
unfolding get_authorized
get_authorized-IsRead id digest now s c keyed h =
    found-IsRead (get id s.records) id digest now s c refl keyed h

found_other :
    (found : Option StoredHumanHandoff) (id digest j : String) (now : ℕ) (s : HandoffStore)
    → j ≢ id
    → get j (get_found found id digest now s).0.records ≡ get j s.records
found_other none id digest j now s other = refl
found_other (some d) id digest j now s other =
    ground (arith, get-set id j (expire d) s.records, eq_iff id j)

-- A read changes no other record.
pub get_authorized_other :
    (id digest j : String) (now : ℕ) (s : HandoffStore)
    → j ≢ id
    → get j (get_authorized id digest now s).0.records ≡ get j s.records
unfolding get_authorized
get_authorized_other id digest j now s other =
    found_other (get id s.records) id digest j now s other

final_found :
    (found : Option StoredHumanHandoff) (id digest : String) (now : ℕ) (s : HandoffStore)
    (c : StoredHumanHandoff)
    → found ≡ some c
    → c.access_token_digest ≡ digest
    → is_terminal c.status ≡ true
    → get_found found id digest now s ≡ (s, some c)
final_found none id digest now s c e same closed = absurd (ground (arith, e))
final_found (some d) id digest now s c e same closed =
    let it = some_inj e in
    let secret : (d.access_token_digest == digest) ≡ true =
      (eq_iff d.access_token_digest digest).1 (ap (λ r. r.access_token_digest) it ∙ same) in
    let final : is_terminal d.status ≡ true = ap (λ r. is_terminal r.status) it ∙ closed in
    let kept : must_expire d now ≡ false = ground (arith, final) in
    rw (secret, kept) (ap (λ r. (s, some r)) it)

-- A read of a record in a final state with the digest of the call finds it, and changes nothing.
pub get_authorized-final :
    (id digest : String) (now : ℕ) (s : HandoffStore) (c : StoredHumanHandoff)
    → get id s.records ≡ some c
    → c.access_token_digest ≡ digest
    → is_terminal c.status ≡ true
    → get_authorized id digest now s ≡ (s, some c)
unfolding get_authorized
get_authorized-final id digest now s c e same closed =
    final_found (get id s.records) id digest now s c e same closed
