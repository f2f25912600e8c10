-- ===== src/RateLimit.antt =====
-- api/internal/ratelimit/limiter.go: the token bucket of each installation, in memory.
-- Times are nanoseconds of a clock that does not run backwards; tokens are float64.
pub mod Levels
pub mod Rate
mod Tests
use deins_complete.Prelude.{
  ℕ, ◌+◌, ◌-◌, ◌*◌, ◌/◌, ◌%◌, Bool, true, false, Option, none, some, ltb, if◌then◌else◌, min,
}
use deins_complete.Prelude.Text.{Str}
use deins_complete.Prelude.Map.{Map, empty, put}
use deins_complete.Prelude.Float.{
  float_one, to_float, add_float, sub_float, mul_float, div_float, of_float,
}

pub record Bucket : Type 0 where
  pub tokens : ℕ
  pub last : ℕ

pub record InMemory : Type 0 where
  pub buckets : Map Bucket
  pub per_minute : ℕ
  pub burst : ℕ

-- Result; the in-memory limiter sets no error.
pub record Answer : Type 0 where
  pub allowed : Bool
  pub remaining : ℕ
  pub retry_after : ℕ

-- time.Minute
abbrev pub minute : ℕ
minute = 60000000000

-- 24 * time.Hour
abbrev pub day : ℕ
day = 86400000000000

unfoldable pub new : ℕ → ℕ → InMemory
new per_minute burst = record { buckets = empty; per_minute = per_minute; burst = burst }

abbrev pub keep_fresh : ℕ → Option Bucket → Option Bucket
keep_fresh now none = none
keep_fresh now (some b) = if ltb day (now - b.last) then none else some b

-- The loop that deletes the buckets not used for 24 hours.
unfoldable pub fresh : ℕ → Map Bucket → Map Bucket
fresh now buckets key = keep_fresh now (buckets key)

-- time.Duration.Minutes
unfoldable pub minutes : ℕ → ℕ
minutes d = add_float (to_float (d / minute)) (div_float (to_float (d % minute)) (to_float minute))

-- The tokens of a bucket at a time; a bucket that is missing is full.
unfoldable pub refilled : ℕ → ℕ → ℕ → Option Bucket → ℕ
refilled burst per_minute now none = to_float burst
refilled burst per_minute now (some b) =
    min (to_float burst)
      (add_float b.tokens (mul_float (minutes (now - b.last)) (to_float per_minute)))

-- The time in which the missing part of a token is refilled.
unfoldable pub retry_after_of : ℕ → ℕ → ℕ
retry_after_of per_minute tokens =
    of_float
      (mul_float (div_float (sub_float float_one tokens) (to_float per_minute)) (to_float minute))

unfoldable pub allow : InMemory → ℕ → Str → Answer × InMemory
unfolding fresh refilled
allow l now id =
    let buckets = fresh now l.buckets in
    let tokens = refilled l.burst l.per_minute now (buckets id) in
    if ltb tokens float_one
    then (
      record { allowed = false; remaining = 0; retry_after = retry_after_of l.per_minute tokens },
      record l { buckets = put id (record { tokens = tokens; last = now }) buckets },
    )
    else (let left = sub_float tokens float_one in
        (
          record { allowed = true; remaining = of_float left; retry_after = 0 },
          record l { buckets = put id (record { tokens = left; last = now }) buckets },
        ))
