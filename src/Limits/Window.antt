-- ===== src/Limits/Window.antt =====
-- The rate limiter of src/ops/limits.ts and its sliding window.
use x.Prelude.{
  ℕ, String, Bool, true, false, ◌≡◌, ◌≤◌, ◌+◌, refl, List, [], ◌∷◌, ◌++◌, get, set, get-set, eq_iff,
  arith, leb, length, keep, Bool-cases, inl, inr, ◌==◌, string_eq, if◌then◌else◌, All, ap, ◌&&◌,
}
use x.Limits.{
  MemoryRateLimiter, consume, count_hit, prior_hits, hits_or_none, in_window, new_limiter,
}

-- The calls of `consume`: a key and a reading of the clock.
pub record Hit : Type 0 where
  pub key : String
  pub now : ℕ

-- How many of the calls for this key are allowed and are in the window that ends at t.
unfoldable pub count_allowed : String → ℕ → MemoryRateLimiter → List Hit → ℕ
count_allowed k t limiter [] = 0
count_allowed k t limiter (hit ∷ rest) =
    let (next, result) = consume hit.key hit.now limiter in
    (if hit.key == k && result.allowed && in_window limiter.window_ms t hit.now then 1 else 0)
    + count_allowed k t next rest

hits_of : String → MemoryRateLimiter → List ℕ
hits_of k limiter = hits_or_none (get k limiter.hits)

live : ℕ → ℕ → List ℕ → ℕ
live w t times = length (keep (in_window w t) times)

live-length : (w t : ℕ) (times : List ℕ) → live w t times ≤ length times
unfolding live
live-length w t [] = omega arith
live-length w t (ts ∷ times) = ground (arith, live-length w t times)

-- What has left an earlier window is not in a later one.
live-keep :
    (w now t : ℕ) (times : List ℕ)
    → now ≤ t
    → live w t (keep (in_window w now) times) ≡ live w t times
unfolding live
live-keep w now t [] h = refl
live-keep w now t (ts ∷ times) h = ground (arith, live-keep w now t times h)

live-append :
    (w t now : ℕ) (times : List ℕ)
    → live w t (times ++ (now ∷ [])) ≡ live w t times + (if in_window w t now then 1 else 0)
unfolding live
live-append w t now [] = ground arith
live-append w t now (ts ∷ times) = ground (arith, live-append w t now times)

length-append_one : (times : List ℕ) (now : ℕ) → length (times ++ (now ∷ [])) ≡ length times + 1
length-append_one [] now = refl
length-append_one (ts ∷ times) now = ground (arith, length-append_one times now)

-- What one call does to the hits of a key, with what it adds to the count.
record IsCounted (k : String) (t : ℕ) (hit : Hit) (limiter next : MemoryRateLimiter)
    (allowed : Bool) : Type 0 where
  bound : length (hits_of k next) ≤ limiter.max_requests
  counted :
      (if hit.key == k && allowed && in_window limiter.window_ms t hit.now then 1 else 0)
        + live limiter.window_ms t (hits_of k limiter)
      ≡ live limiter.window_ms t (hits_of k next)
  same_window : next.window_ms ≡ limiter.window_ms
  same_max : next.max_requests ≡ limiter.max_requests

hits_of-set :
    (k j : String) (times : List ℕ) (limiter : MemoryRateLimiter)
    → hits_of k (record limiter { hits = set j times limiter.hits })
      ≡ (if j == k then times else hits_of k limiter)
unfolding hits_of
hits_of-set k j times limiter = ground (arith, get-set j k times limiter.hits)

-- The key's own call: its hits are what is left of them, with the new one if it is allowed.
own_call :
    (k : String) (t now : ℕ) (limiter : MemoryRateLimiter)
    → now ≤ t
    → live limiter.window_ms t (prior_hits k now limiter)
      ≡ live limiter.window_ms t (hits_of k limiter)
unfolding prior_hits hits_of
own_call k t now limiter early =
    live-keep limiter.window_ms now t (hits_or_none (get k limiter.hits)) early

keep-length : (p : ℕ → Bool) (times : List ℕ) → length (keep p times) ≤ length times
keep-length p [] = omega arith
keep-length p (ts ∷ times) = ground (arith, keep-length p times)

prior-length :
    (k : String) (now : ℕ) (limiter : MemoryRateLimiter)
    → length (prior_hits k now limiter) ≤ length (hits_of k limiter)
unfolding prior_hits hits_of
prior-length k now limiter =
    keep-length (in_window limiter.window_ms now) (hits_or_none (get k limiter.hits))

refused-IsCounted :
    (k : String) (t : ℕ) (hit : Hit) (limiter : MemoryRateLimiter)
    → hit.now ≤ t
    → length (hits_of k limiter) ≤ limiter.max_requests
    → IsCounted k t hit limiter
        (record limiter { hits = set hit.key (prior_hits hit.key hit.now limiter) limiter.hits })
        false
refused-IsCounted k t hit limiter early bound =
    let after = hits_of-set k hit.key (prior_hits hit.key hit.now limiter) limiter in
    elim (Bool-cases (hit.key == k)) [
      | inl own ↦
          let e : hit.key ≡ k = ground (arith, eq_iff hit.key k) in
          let p = ap (λ j. prior_hits j hit.now limiter) e in
          record {
            bound = ground (arith, after, p, prior-length k hit.now limiter);
            counted = ground (arith, after, p, own_call k t hit.now limiter early);
            same_window = refl;
            same_max = refl;
          }
      | inr other ↦ record {
        bound = ground (arith, after);
        counted = ground (arith, after);
        same_window = refl;
        same_max = refl;
      }
    ]

allowed-IsCounted :
    (k : String) (t : ℕ) (hit : Hit) (limiter : MemoryRateLimiter)
    → hit.now ≤ t
    → length (hits_of k limiter) ≤ limiter.max_requests
    → leb limiter.max_requests (length (prior_hits hit.key hit.now limiter)) ≡ false
    → IsCounted k t hit limiter
        (record limiter {
          hits = set hit.key (prior_hits hit.key hit.now limiter ++ (hit.now ∷ [])) limiter.hits;
        })
        true
allowed-IsCounted k t hit limiter early bound free =
    let more = prior_hits hit.key hit.now limiter ++ (hit.now ∷ []) in
    let after = hits_of-set k hit.key more limiter in
    elim (Bool-cases (hit.key == k)) [
      | inl own ↦
          let e : hit.key ≡ k = ground (arith, eq_iff hit.key k) in
          let p = ap (λ j. prior_hits j hit.now limiter) e in
          record {
            bound =
                ground
                  (arith, after, length-append_one (prior_hits hit.key hit.now limiter) hit.now);
            counted = ground (
              arith,
              after,
              ap (live limiter.window_ms t) p,
              live-append limiter.window_ms t hit.now (prior_hits hit.key hit.now limiter),
              own_call k t hit.now limiter early,
            );
            same_window = refl;
            same_max = refl;
          }
      | inr other ↦ record {
        bound = ground (arith, after);
        counted = ground (arith, after);
        same_window = refl;
        same_max = refl;
      }
    ]

call-IsCounted :
    (k : String) (t : ℕ) (hit : Hit) (limiter : MemoryRateLimiter)
    → hit.now ≤ t
    → length (hits_of k limiter) ≤ limiter.max_requests
    → IsCounted k t hit limiter
        (consume hit.key hit.now limiter).0
        (consume hit.key hit.now limiter).1.allowed
unfolding consume count_hit
call-IsCounted k t hit limiter early bound =
    elim (Bool-cases (leb limiter.max_requests (length (prior_hits hit.key hit.now limiter)))) [
      | inl full ↦ rw (full) (refused-IsCounted k t hit limiter early bound)
      | inr free ↦ rw (free) (allowed-IsCounted k t hit limiter early bound free)
    ]

count_allowed-bound :
    (k : String) (t : ℕ) (limiter : MemoryRateLimiter) (hits : List Hit)
    → All (λ hit. hit.now ≤ t) hits
    → length (hits_of k limiter) ≤ limiter.max_requests
    → count_allowed k t limiter hits + live limiter.window_ms t (hits_of k limiter)
      ≤ limiter.max_requests
unfolding count_allowed
count_allowed-bound k t limiter [] early bound =
    ground (arith, live-length limiter.window_ms t (hits_of k limiter), bound)
count_allowed-bound k t limiter (hit ∷ hits) (first, rest) bound =
    let next = (consume hit.key hit.now limiter).0 in
    let c = call-IsCounted k t hit limiter first bound in
    let more = count_allowed-bound k t next hits rest (ground (arith, c.bound, c.same_max)) in
    let same = ap (λ w. live w t (hits_of k next)) c.same_window in
    ground (arith, c.counted, c.same_max, same, more)

-- From a new limiter, whatever keys are consumed at whatever times, and for every instant t that
-- is not before any of these calls: of the calls for one key, at most `maxRequests` are allowed and
-- are in the window of `windowMs` that ends at t.
pub window_bound :
    (window_ms max_requests : ℕ) (k : String) (t : ℕ) (hits : List Hit)
    → All (λ hit. hit.now ≤ t) hits
    → count_allowed k t (new_limiter window_ms max_requests) hits ≤ max_requests
unfolding new_limiter hits_of get live
window_bound window_ms max_requests k t hits early =
    let bound =
      count_allowed-bound k t (new_limiter window_ms max_requests) hits early (omega arith) in
    ground (arith, bound)
