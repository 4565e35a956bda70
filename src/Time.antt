-- ===== src/Time.antt =====
-- common/src/c++/utils/time_utils.cpp: differences of times, and cleaned file names.
mod Tests
use system_k_dev.Base.{
  ℕ, ◌+◌, ◌-◌, ◌*◌, ◌/◌, ◌%◌, ◌^◌, ◌≤◌, ◌<◌, ◌≡◌, refl, Bool, true, false, ◌||◌, List, [], ◌∷◌,
  ◌++◌, ◌==◌, ltb, ltb→lt, if◌then◌else◌, arith, Bool-cases, inl, inr,
}
use system_k_dev.Book.Limit.{Timespec}

abbrev pub nanos_per_second : ℕ
nanos_per_second = 1000000000

-- Microseconds, of which the code takes the difference.
abbrev pub micros : Timespec → ℕ
micros t = t.tv_sec * 1000000 + t.tv_nsec / 1000

-- The difference is a uint64_t.
unfoldable pub timespec_delta_millis : (start end_time : Timespec) → ℕ
timespec_delta_millis start end_time = ((micros end_time + 2 ^ 64 - micros start) % 2 ^ 64) / 1000

-- For times of which the first is not the later one; tv_sec is not negative then.
unfoldable pub timespec_delta : (start end_time : Timespec) → Timespec
timespec_delta start end_time =
    if ltb end_time.tv_nsec start.tv_nsec
    then record {
      tv_sec = end_time.tv_sec - start.tv_sec - 1;
      tv_nsec = nanos_per_second + end_time.tv_nsec - start.tv_nsec;
    }
    else record {
      tv_sec = end_time.tv_sec - start.tv_sec;
      tv_nsec = end_time.tv_nsec - start.tv_nsec;
    }

unfoldable pub timespec2int64 : Timespec → ℕ
timespec2int64 t = t.tv_sec * nanos_per_second + t.tv_nsec

-- `/`, `\` and a space.
unfoldable pub is_bad_filename_char : ℕ → Bool
is_bad_filename_char c = (c == 47) || ((c == 92) || (c == 32))

unfoldable pub remove_bad_filename_chars : List ℕ → List ℕ
unfolding is_bad_filename_char
remove_bad_filename_chars [] = []
remove_bad_filename_chars (c ∷ cs) =
    if is_bad_filename_char c
    then remove_bad_filename_chars cs
    else c ∷ remove_bad_filename_chars cs

delta_sum :
    (start end_time : Timespec)
    → start.tv_nsec < nanos_per_second
    → end_time.tv_nsec < nanos_per_second
    → timespec2int64 start ≤ timespec2int64 end_time
    → ((timespec_delta start end_time).tv_nsec < nanos_per_second)
      × (timespec2int64 start + timespec2int64 (timespec_delta start end_time)
          ≡ timespec2int64 end_time)
unfolding timespec_delta timespec2int64
delta_sum start end_time a b le = elim (Bool-cases (ltb end_time.tv_nsec start.tv_nsec)) [
  | inl e ↦ let h = ltb→lt _ _ e in rw (timespec_delta, e) (omega arith)
  | inr e ↦
      let h : start.tv_nsec ≤ end_time.tv_nsec = ground (arith, e) in
      rw (timespec_delta, e) (omega arith)
]

millis-eq :
    (start end_time : Timespec)
    → start.tv_nsec < nanos_per_second
    → end_time.tv_nsec < nanos_per_second
    → timespec2int64 start ≤ timespec2int64 end_time
    → micros end_time < 2 ^ 64
    → timespec_delta_millis start end_time ≡ (micros end_time - micros start) / 1000
unfolding timespec_delta_millis timespec2int64
millis-eq start end_time a b le small =
    let h : micros start ≤ micros end_time = omega arith in omega arith

-- For two times with less than 10^9 nanoseconds each, the first not later than the second: the
-- difference has less than 10^9 nanoseconds, and in nanoseconds the first time and the difference
-- make the second. The difference in milliseconds is off from it by less than a millisecond and a
-- microsecond, when the second time is below 2^64 microseconds.
pub timespec_delta-exact :
    (start end_time : Timespec)
    → start.tv_nsec < nanos_per_second
    → end_time.tv_nsec < nanos_per_second
    → timespec2int64 start ≤ timespec2int64 end_time
    → micros end_time < 2 ^ 64
    → ((timespec_delta start end_time).tv_nsec < nanos_per_second)
      × (timespec2int64 start + timespec2int64 (timespec_delta start end_time)
          ≡ timespec2int64 end_time)
      × (timespec_delta_millis start end_time * 1000000
          < timespec2int64 (timespec_delta start end_time) + 1000)
      × (timespec2int64 (timespec_delta start end_time)
          < timespec_delta_millis start end_time * 1000000 + 1001000)
unfolding timespec2int64
timespec_delta-exact start end_time a b le small =
    let (fine, sum) = delta_sum start end_time a b le in
    let m = millis-eq start end_time a b le small in
    (fine, sum, omega (arith, sum, m), omega (arith, sum, m))
