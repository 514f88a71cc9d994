-- ===== src/Config/Durations.antt =====
-- internal/config/config.go: the durations, in nanoseconds, with the wrap-around of int64.
use live_actions.Base.{ℕ, ◌-◌, ◌*◌, ◌%◌, ◌^◌, ltb, if◌then◌else◌}
use live_actions.Base.Int.{ℤ, pos, negsuc}
use live_actions.Config.{Vars}

-- The 64 bits of a number, in two's complement.
abbrev bits : ℤ → ℕ
bits (pos n) = n % 2 ^ 64
bits (negsuc n) = (2 ^ 64 - 1) - n % 2 ^ 64

abbrev from_bits : ℕ → ℤ
from_bits n = if ltb n (2 ^ 63) then pos n else negsuc ((2 ^ 64 - 1) - n)

-- The product of two numbers of 64 bits.
unfoldable pub times_64 : ℤ → ℤ → ℤ
times_64 a b = from_bits (bits a * bits b % 2 ^ 64)

-- `time.Hour`
abbrev hour : ℤ
hour = pos 3600000000000

unfoldable pub get_data_retention_duration : Vars → ℤ
unfolding times_64
get_data_retention_duration vars = times_64 (times_64 vars.data_retention_days (pos 24)) hour

unfoldable pub get_cleanup_interval : Vars → ℤ
unfolding times_64
get_cleanup_interval vars = times_64 vars.cleanup_interval_hours hour

unfoldable pub get_stale_job_threshold : Vars → ℤ
unfolding times_64
get_stale_job_threshold vars = times_64 vars.stale_job_threshold_hours hour
