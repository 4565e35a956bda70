-- ===== src/Time/Tests.antt =====
-- Times half a second apart.
use system_k_dev.Base.{◌≤◌, ◌≡◌, refl, [], ◌∷◌, arith}
use system_k_dev.Book.Limit.{Timespec}
use system_k_dev.Time.{timespec_delta_millis, timespec2int64, remove_bad_filename_chars}

abbrev before : Timespec
before = record { tv_sec = 7; tv_nsec = 800000000 }

abbrev after : Timespec
after = record { tv_sec = 8; tv_nsec = 300000000 }

half : timespec_delta_millis before after ≡ 500
unfolding timespec_delta_millis
half = refl

cleaned : remove_bad_filename_chars (69 ∷ 47 ∷ 85 ∷ 32 ∷ []) ≡ 69 ∷ 85 ∷ []
unfolding remove_bad_filename_chars
cleaned = refl

ordered : timespec2int64 before ≤ timespec2int64 after
unfolding timespec2int64
ordered = omega arith
