-- ===== src/Limits.antt =====
-- src/ops/limits.ts: the rate limiter, the circuit breaker, and the origins that a provider may be
-- called at. `now - windowMs < ts` is written with a sum, as ℕ has no negative numbers.
pub mod Window
pub mod Circuit
use x.Prelude.{
  ℕ, String, Bool, true, false, not, Option, none, some, List, [], ◌∷◌, ◌++◌, StringMap, get, set,
  ltb, leb, length, keep, ◌+◌, ◌-◌, Result, ok, err, includes, string_eq, ◌==◌, if◌then◌else◌,
}

pub record RateLimitResult : Type 0 where
  pub allowed : Bool
  pub remaining : ℕ
  pub reset_at : ℕ

pub record MemoryRateLimiter : Type 0 where
  pub window_ms : ℕ
  pub max_requests : ℕ
  pub hits : StringMap (List ℕ)

unfoldable pub new_limiter : ℕ → ℕ → MemoryRateLimiter
new_limiter window_ms max_requests = record {
  window_ms = window_ms;
  max_requests = max_requests;
  hits = [];
}

-- `this.#hits.get(key) ?? []`
abbrev pub hits_or_none : Option (List ℕ) → List ℕ
hits_or_none none = []
hits_or_none (some times) = times

-- A hit is in the window that ends at `now`.
abbrev pub in_window : ℕ → ℕ → ℕ → Bool
in_window window_ms now ts = ltb now (ts + window_ms)

unfoldable pub prior_hits : String → ℕ → MemoryRateLimiter → List ℕ
prior_hits key now limiter =
    keep (in_window limiter.window_ms now) (hits_or_none (get key limiter.hits))

-- `prior[0] ?? now`
abbrev pub first_or : ℕ → List ℕ → ℕ
first_or now [] = now
first_or now (ts ∷ times) = ts

-- `consume` from the hits that are left.
unfoldable pub count_hit :
    String → ℕ → List ℕ → MemoryRateLimiter → MemoryRateLimiter × RateLimitResult
count_hit key now prior limiter =
    if leb limiter.max_requests (length prior)
    then (
      record limiter { hits = set key prior limiter.hits },
      record { allowed = false; remaining = 0; reset_at = first_or now prior + limiter.window_ms },
    )
    else (
      record limiter { hits = set key (prior ++ (now ∷ [])) limiter.hits },
      record {
        allowed = true;
        remaining = limiter.max_requests - length (prior ++ (now ∷ []));
        reset_at = now + limiter.window_ms;
      },
    )

unfoldable pub consume : String → ℕ → MemoryRateLimiter → MemoryRateLimiter × RateLimitResult
consume key now limiter = count_hit key now (prior_hits key now limiter) limiter

pub record CircuitBreaker : Type 0 where
  pub failure_threshold : ℕ
  pub cool_down_ms : ℕ
  pub failures : ℕ
  pub opened_at : Option ℕ

unfoldable pub new_breaker : ℕ → ℕ → CircuitBreaker
new_breaker failure_threshold cool_down_ms = record {
  failure_threshold = failure_threshold;
  cool_down_ms = cool_down_ms;
  failures = 0;
  opened_at = none;
}

abbrev pub closed : CircuitBreaker → CircuitBreaker
closed breaker = record breaker { failures = 0; opened_at = none }

assert_cool : Option ℕ → ℕ → CircuitBreaker → CircuitBreaker × Result (Unit {0})
assert_cool none now breaker = (breaker, ok tt)
assert_cool (some opened_at) now breaker =
    if ltb now (opened_at + breaker.cool_down_ms)
    then (breaker, err "Provider circuit open")
    else (closed breaker, ok tt)

unfoldable pub assert_closed : ℕ → CircuitBreaker → CircuitBreaker × Result (Unit {0})
unfolding assert_cool
assert_closed now breaker = assert_cool breaker.opened_at now breaker

unfoldable pub record_success : CircuitBreaker → CircuitBreaker
record_success breaker = closed breaker

unfoldable pub record_failure : ℕ → CircuitBreaker → CircuitBreaker
record_failure now breaker = record breaker {
  failures = breaker.failures + 1;
  opened_at =
      if leb breaker.failure_threshold (breaker.failures + 1) then some now else breaker.opened_at;
}

-- What the code uses of the platform's `URL`.
pub record Url : Type 0 where
  pub protocol : String
  pub origin : String

-- `parse` stands for the constructor of the platform's `URL`, with `none` where it throws.
egress_of : Option Url → List String → Result (Unit {0})
egress_of none allowlist = err "Invalid provider egress URL"
egress_of (some parsed) allowlist =
    if not (parsed.protocol == "https:")
    then err "Provider egress must use https"
    else if not (includes allowlist parsed.origin)
    then err "Provider origin is not allowlisted"
    else ok tt

unfoldable pub assert_provider_egress_allowed :
    (String → Option Url) → String → List String → Result (Unit {0})
unfolding egress_of
assert_provider_egress_allowed parse url allowlist = egress_of (parse url) allowlist
