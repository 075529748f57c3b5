-- ===== src/Stores/Nonce/Laws.antt =====
-- A nonce is consumed at most once, whatever calls come between.
use x.Prelude.{
  ℕ, String, true, false, ◌≡◌, ◌≢◌, ◌<◌, ◌↔◌, refl, none, some, ok, get, get-set, arith, eq_iff,
  IsoTimestamp, time_ms, Option-cases, inl, inr,
}
use x.Stores.Nonce.{NonceEntry, NonceStore, put, consume}

-- The dependency has an entry that is used.
pub record IsSpent (s : NonceStore) (id : String) : Type 0 where
  pub entry : NonceEntry
  pub stored : get id s ≡ some entry
  pub used : entry.used ≡ true

pub record IsOpen (s : NonceStore) (id nonce : String) (now : ℕ) : Type 0 where
  pub entry : NonceEntry
  pub stored : get id s ≡ some entry
  pub fresh : entry.used ≡ false
  pub same : entry.nonce ≡ nonce
  pub running : now < entry.expires_at_ms

-- `consume` gives true exactly for an unused entry with this nonce that has not expired.
pub consume_iff :
    (s : NonceStore) (id nonce : String) (now : ℕ)
    → ((consume id nonce now s).1 ≡ true) ↔ IsOpen s id nonce now
unfolding consume
consume_iff s id nonce now = (to, from)
  where
    to : (consume id nonce now s).1 ≡ true → IsOpen s id nonce now
    to h = elim (Option-cases (get id s)) [
      | inl e ↦ absurd (ground arith)
      | inr (entry, e) ↦ record {
        entry = entry;
        stored = e;
        fresh = ground arith;
        same = ground (arith, eq_iff entry.nonce nonce);
        running = ground arith;
      }
    ]

    from : IsOpen s id nonce now → (consume id nonce now s).1 ≡ true
    from o = ground (arith, eq_iff o.entry.nonce nonce)

-- Consumption marks the entry as used.
pub consume-IsSpent :
    (s : NonceStore) (id nonce : String) (now : ℕ)
    → (consume id nonce now s).1 ≡ true
    → IsSpent (consume id nonce now s).0 id
unfolding consume
consume-IsSpent s id nonce now h =
    let o = (consume_iff s id nonce now).0 h in
    record {
      entry = record (o.entry) { used = true };
      stored = ground (
        arith,
        get-set id id (record (o.entry) { used = true }) s,
        eq_iff id id,
        eq_iff o.entry.nonce nonce,
      );
      used = refl;
    }

-- A used entry is refused for every nonce and time, and stays.
pub consume_spent :
    (s : NonceStore) (id nonce : String) (now : ℕ)
    → IsSpent s id
    → (consume id nonce now s) ≡ (s, false)
unfolding consume
consume_spent s id nonce now sp = ground (arith, sp.stored)

pub IsSpent-consume :
    (s : NonceStore) (id j nonce : String) (now : ℕ)
    → IsSpent s id
    → IsSpent (consume j nonce now s).0 id
unfolding consume
IsSpent-consume s id j nonce now sp = record {
  entry = sp.entry;
  stored = elim (Option-cases (get j s)) [
    | inl missing ↦ ground (arith, sp.stored)
    | inr (entry, e) ↦
        ground (arith, sp.stored, get-set j id (record entry { used = true }) s, eq_iff j id)
  ];
  used = sp.used;
}

pub IsSpent-put :
    (s t : NonceStore) (id j nonce : String) (e : IsoTimestamp)
    → IsSpent s id
    → put j nonce e s ≡ ok t
    → IsSpent t id
unfolding put
IsSpent-put s t id j nonce e sp h = record {
  entry = sp.entry;
  stored = ground (
    arith,
    sp.stored,
    get-set j id (record { nonce = nonce; expires_at_ms = time_ms e; used = false }) s,
    eq_iff j id,
  );
  used = sp.used;
}

-- A dependency is registered only once: `put` refuses an ID that is there, and otherwise stores an
-- unused entry and leaves the other dependencies alone.
pub put_effect :
    (s t : NonceStore) (id nonce : String) (e : IsoTimestamp)
    → put id nonce e s ≡ ok t
    → (get id s ≡ none)
      × ((j : String) → id ≢ j → get j t ≡ get j s)
      × (get id t ≡ some (record { nonce = nonce; expires_at_ms = time_ms e; used = false }))
unfolding put
put_effect s t id nonce e h =
    let entry : NonceEntry = record { nonce = nonce; expires_at_ms = time_ms e; used = false } in
    (
      elim (Option-cases (get id s)) [ inl missing ↦ missing | inr (old, there) ↦ ground arith ],
      λ j other. ground (arith, get-set id j entry s, eq_iff id j),
      ground (arith, get-set id id entry s, eq_iff id id),
    )
