-- ===== src/Channel/Clock.antt =====
-- Elapsed times: hpav_get_elapsed_time_ms and hpav_compute_elapsed of
-- hpav_test/libhpav/hpav_utils.c. The clock is monotonic, so an end is not before its start, and
-- the seconds and the parts of a second are natural numbers.
use tulum_utils.Base.{ℕ, ◌+◌, ◌-◌, ◌*◌, ◌/◌, ◌≤◌, ◌<◌, ◌≡◌, arith, leb, ltb, if◌then◌else◌}
use tulum_utils.Base.Int.{ℤ, pos, to_int}
use tulum_utils.Frame.Layout.{Timeval}

-- A struct timespec, from clock_gettime(CLOCK_MONOTONIC).
pub record Timespec : Type 0 where
  pub tv_sec : ℕ
  pub tv_nsec : ℕ

-- The division of C rounds towards zero, so a negative difference of nanoseconds is subtracted as
-- the rounded quotient of its absolute value.
unfoldable pub elapsed_ms : Timespec → Timespec → ℕ
elapsed_ms start end =
    if leb start.tv_nsec end.tv_nsec
    then (end.tv_sec - start.tv_sec) * 1000 + (end.tv_nsec - start.tv_nsec) / 1000000
    else (end.tv_sec - start.tv_sec) * 1000 - (start.tv_nsec - end.tv_nsec) / 1000000

-- The int that is returned; it wraps after 2^31 milliseconds, which are 24 days.
unfoldable pub get_elapsed_time_ms : Timespec → Timespec → ℤ
get_elapsed_time_ms start end = to_int (elapsed_ms start end)

-- A time on the clock, in nanoseconds.
abbrev pub nanoseconds : Timespec → ℕ
nanoseconds t = t.tv_sec * 1000000000 + t.tv_nsec

-- hpav_compute_elapsed, on a start that is not after the end.
unfoldable pub compute_elapsed : Timeval → Timeval → Timeval
compute_elapsed start end =
    if leb start.tv_usec end.tv_usec
    then record { tv_sec = end.tv_sec - start.tv_sec; tv_usec = end.tv_usec - start.tv_usec }
    else (let usec = end.tv_usec + (1000000 - start.tv_usec) in
        if ltb 1000000 usec
        then record { tv_sec = end.tv_sec - start.tv_sec; tv_usec = usec - 1000000 }
        else record { tv_sec = end.tv_sec - start.tv_sec - 1; tv_usec = usec })

abbrev pub microseconds : Timeval → ℕ
microseconds t = t.tv_sec * 1000000 + t.tv_usec

elapsed_ms_bounds :
    (start end : Timespec)
    → start.tv_nsec < 1000000000
    → end.tv_nsec < 1000000000
    → nanoseconds start ≤ nanoseconds end
    → (nanoseconds end - nanoseconds start < (elapsed_ms start end + 1) * 1000000)
      × (elapsed_ms start end * 1000000 < nanoseconds end - nanoseconds start + 1000000)
unfolding elapsed_ms
elapsed_ms_bounds start end hs he h = ground arith

-- Less than 2^31 - 1 milliseconds after the first reading of the clock, the number returned is not
-- negative, and differs from the time between the two readings by less than a millisecond, to either
-- side: it may be one too many where the nanoseconds wrapped.
pub get_elapsed_time_ms_bounds :
    (start end : Timespec)
    → start.tv_nsec < 1000000000
    → end.tv_nsec < 1000000000
    → nanoseconds start ≤ nanoseconds end
    → nanoseconds end - nanoseconds start < 2147483647 * 1000000
    → (ms : ℕ) × (get_elapsed_time_ms start end ≡ pos ms)
      × (nanoseconds end - nanoseconds start < (ms + 1) * 1000000)
      × (ms * 1000000 < nanoseconds end - nanoseconds start + 1000000)
unfolding get_elapsed_time_ms to_int
get_elapsed_time_ms_bounds start end hs he h soon =
    let (low, high) = elapsed_ms_bounds start end hs he h in
    (elapsed_ms start end, ground arith, low, high)

-- The difference of two times, the first not after the second, is exact, and its microseconds are
-- less than a second.
pub compute_elapsed_lem :
    (start end : Timeval)
    → start.tv_usec < 1000000
    → end.tv_usec < 1000000
    → microseconds start ≤ microseconds end
    → (microseconds (compute_elapsed start end) ≡ microseconds end - microseconds start)
      × ((compute_elapsed start end).tv_usec < 1000000)
unfolding compute_elapsed
compute_elapsed_lem start end hs he h = ground arith
