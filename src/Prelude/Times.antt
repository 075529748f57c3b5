-- ===== src/Prelude/Times.antt =====
-- Instants and `Date.parse`. An instant is a number of milliseconds since the epoch. A timestamp
-- is the text that `toISOString` gives for an instant, or a text that `Date.parse` reads as NaN.
use Prim.Native.Nat.{ℕ}
use Prim.Native.String.{String}
use mathlib.Core.Bool.{Bool, false}
use mathlib.Core.Option.{Option, none, some}
use x.Prelude.Tests.{leb, if◌then◌else◌, ltb}

pub data IsoTimestamp : Type 0 where
  instant : ℕ → IsoTimestamp
  unreadable : String → IsoTimestamp

-- `Date.parse`, with `none` for NaN.
abbrev pub date_parse : IsoTimestamp → Option ℕ
date_parse (instant ms) = some ms
date_parse (unreadable text) = none

-- `a <= b` on numbers that may be NaN: a comparison with NaN is false.
abbrev pub num_le : Option ℕ → Option ℕ → Bool
num_le (some a) (some b) = leb a b
num_le (some a) none = false
num_le none b = false

abbrev pub num_lt : Option ℕ → Option ℕ → Bool
num_lt (some a) (some b) = ltb a b
num_lt (some a) none = false
num_lt none b = false

-- `Math.min`, which is NaN if an argument is.
abbrev pub num_min : Option ℕ → Option ℕ → Option ℕ
num_min (some a) (some b) = some (if leb a b then a else b)
num_min (some a) none = none
num_min none b = none

-- The instant of a timestamp, and 0 for a text that has none.
abbrev pub time_ms : IsoTimestamp → ℕ
time_ms (instant ms) = ms
time_ms (unreadable text) = 0
