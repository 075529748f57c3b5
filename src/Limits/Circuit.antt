-- ===== src/Limits/Circuit.antt =====
-- When the circuit breaker of src/ops/limits.ts is open.
use x.Prelude.{
  ℕ, false, not, ◌≡◌, ◌+◌, refl, none, some, List, [], ◌∷◌, arith, ltb, leb, length, ◌&&◌,
  if◌then◌else◌, is_ok,
}
use x.Limits.{CircuitBreaker, new_breaker, record_failure, assert_closed}

-- Failures in a row, with their times.
unfoldable pub fail_all : List ℕ → CircuitBreaker → CircuitBreaker
fail_all [] breaker = breaker
fail_all (t ∷ times) breaker = fail_all times (record_failure t breaker)

-- The state after a number of failures that is below the threshold.
record IsCounting (threshold cool_down n : ℕ) (b : CircuitBreaker) : Type 0 where
  same_threshold : b.failure_threshold ≡ threshold
  same_cool_down : b.cool_down_ms ≡ cool_down
  count : b.failures ≡ n
  unopened : leb threshold n ≡ false → b.opened_at ≡ none

fail_all-IsCounting :
    (threshold cool_down n : ℕ) (times : List ℕ) (b : CircuitBreaker)
    → IsCounting threshold cool_down n b
    → IsCounting threshold cool_down (n + length times) (fail_all times b)
unfolding fail_all record_failure
fail_all-IsCounting threshold cool_down n [] b c = record {
  same_threshold = c.same_threshold;
  same_cool_down = c.same_cool_down;
  count = ground (arith, c.count);
  unopened = λ below. ground (arith, c.unopened);
}
fail_all-IsCounting threshold cool_down n (t ∷ times) b c =
    let d : IsCounting threshold cool_down (n + 1) (record_failure t b) = record {
      same_threshold = c.same_threshold;
      same_cool_down = c.same_cool_down;
      count = ground (arith, c.count);
      unopened = λ below. ground (arith, c.same_threshold, c.count, c.unopened);
    } in
    let more = fail_all-IsCounting threshold cool_down (n + 1) times (record_failure t b) d in
    record {
      same_threshold = more.same_threshold;
      same_cool_down = more.same_cool_down;
      count = ground (arith, more.count);
      unopened = λ below. ground (arith, more.unopened);
    }

-- After any failures of a new breaker in a row, the last one at the time t, `assertClosed` throws
-- exactly if there are at least `failureThreshold` of them and the cool-down since t has not
-- passed. The breaker is open afterwards, since t, in this case only, and its count of failures
-- is kept, except that it is 0 if the breaker was open and the cool-down has passed.
pub circuit_opens :
    (threshold cool_down t now : ℕ) (times : List ℕ)
    → let n = length times + 1 in
      let after =
        assert_closed now (record_failure t (fail_all times (new_breaker threshold cool_down))) in
      (is_ok after.1 ≡ not (leb threshold n && ltb now (t + cool_down)))
      × (after.0.opened_at ≡ (if leb threshold n && ltb now (t + cool_down) then some t else none))
      × (after.0.failures ≡ (if leb threshold n && leb (t + cool_down) now then 0 else n))
unfolding assert_closed record_failure new_breaker
circuit_opens threshold cool_down t now times =
    let c =
      fail_all-IsCounting threshold cool_down 0 times (new_breaker threshold cool_down) (record {
        same_threshold = refl;
        same_cool_down = refl;
        count = refl;
        unopened = λ below. refl;
      }) in
    (
      ground (arith, c.same_threshold, c.same_cool_down, c.count, c.unopened),
      ground (arith, c.same_threshold, c.same_cool_down, c.count, c.unopened),
      ground (arith, c.same_threshold, c.same_cool_down, c.count, c.unopened),
    )
