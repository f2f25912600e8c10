-- ===== src/Usage/Daily.antt =====
-- api/internal/usage/tracker.go: the daily quota, in memory. Times are nanoseconds since the epoch,
-- in UTC, so the text that `Format("2006-01-02")` gives stands for the number of the day. Counters
-- are the bit patterns of Go's `int`.
pub mod Quota
mod Tests
use deins_complete.Usage.{Answer}
use deins_complete.Prelude.{
  ℕ, ◌+◌, ◌-◌, ◌*◌, ◌/◌, Bool, true, false, Option, none, some, ltb, ◌==◌, if◌then◌else◌,
}
use deins_complete.Prelude.Int.{add_int, gt_int}
use deins_complete.Prelude.Text.{Str}
use deins_complete.Prelude.Map.{Map, empty, put}

pub record Entry : Type 0 where
  pub day : ℕ
  pub count : ℕ
  pub last : ℕ

pub record InMemory : Type 0 where
  pub entries : Map Entry
  pub daily : ℕ

-- 24 * time.Hour
abbrev pub day_length : ℕ
day_length = 86400000000000

-- now.Format("2006-01-02")
abbrev pub day_of : ℕ → ℕ
day_of now = now / day_length

pub new : ℕ → InMemory
new daily = record { entries = empty; daily = daily }

abbrev pub keep_fresh : ℕ → Option Entry → Option Entry
keep_fresh now none = none
keep_fresh now (some e) = if ltb day_length (now - e.last) then none else some e

-- The loop that deletes the entries not used for 24 hours.
pub fresh : ℕ → Map Entry → Map Entry
fresh now entries key = keep_fresh now (entries key)

-- The count of today, 0 where the entry is missing or of another day.
abbrev pub count_on : ℕ → Option Entry → ℕ
count_on day none = 0
count_on day (some e) = if e.day == day then e.count else 0

unfoldable pub check_and_consume : InMemory → ℕ → Str → ℕ → Answer × InMemory
unfolding fresh
check_and_consume t now id amount =
    let entries = fresh now t.entries in
    let day = day_of now in
    let count = count_on day (entries id) in
    let consumed = add_int count amount in
    if gt_int consumed t.daily
    then (
      record { allowed = false; count = count; retry_after = (day + 1) * day_length - now },
      record t { entries = entries },
    )
    else (
      record { allowed = true; count = consumed; retry_after = 0 },
      record t { entries = put id (record { day = day; count = consumed; last = now }) entries },
    )
