-- ===== src/Limits.antt =====
-- internal/limits/duration.go: durations in milliseconds, as nanoseconds in 64 bits.
use scrape_kdl.Common.Int.{ℤ, pos, negsuc}
use scrape_kdl.Common.{ℕ, ◌*◌, ◌/◌, ◌&&◌, ◌||◌, Option, none, some, ◌≡◌, arith, ltb, if◌then◌else◌}
use scrape_kdl.Executor.Normalize.{two_63, fits_signed, to_signed, to_unsigned}

-- `time.Millisecond`.
abbrev pub millisecond : ℕ
millisecond = 1000000

-- `MaxMilliseconds`, where `^uint64(0)>>1` is 2^63 - 1.
abbrev pub max_milliseconds : ℕ
max_milliseconds = 9223372036854775807 / millisecond

-- `Milliseconds`, whose product wraps around in 64 bits; `none` is a result that is not ok.
unfoldable pub milliseconds : ℤ → Option ℤ
unfolding to_signed
milliseconds (pos n) =
    if ltb n 1 || ltb max_milliseconds n
    then none
    else some (to_signed two_63 (pos (n * millisecond)))
milliseconds (negsuc n) = none

-- Milliseconds returns the nanoseconds of every positive number whose nanoseconds have 64 bits,
-- without an overflow, and refuses every other natural number.
pub milliseconds-eq-fits_signed :
    (n : ℕ)
    → milliseconds (pos n) ≡ (
        if ltb 0 n && fits_signed two_63 (pos (n * millisecond))
        then some (pos (n * millisecond))
        else none)
unfolding milliseconds fits_signed to_signed to_unsigned
milliseconds-eq-fits_signed n = ground arith
