-- ===== src/Usage/Monthly.antt =====
-- api/internal/usage/monthly.go: the plan limits of a user or an installation, in memory. Times are
-- nanoseconds since the epoch, in UTC. The calendar is the time package's: `month` is
-- `Format("2006-01")` and `next_month` the first moment of the month after. Counters are the bit
-- patterns of Go's `int`.
pub mod Plan
mod Tests
use deins_complete.Usage.{Answer}
use deins_complete.Prelude.{ℕ, ◌-◌, Bool, true, false, Option, ◌++◌, if◌then◌else◌}
use deins_complete.Prelude.Int.{add_int, gt_int}
use deins_complete.Prelude.Text.{Str, str}
use deins_complete.Prelude.Map.{Map, empty, put, get_or_zero}

pub record InMemory : Type 0 where
  pub entries : Map ℕ
  pub migrations : Map Bool

pub new : InMemory
new = record { entries = empty; migrations = empty }

module _ (month : ℕ → Str) (next_month : ℕ → ℕ) where
  unfoldable pub key : ℕ → Str → Str
  key now subject = month now ++ str ":" ++ subject

  unfoldable pub usage : InMemory → ℕ → Str → ℕ
  usage t now subject = get_or_zero 0 (t.entries (key now subject))

  unfoldable pub check_and_consume : InMemory → ℕ → Str → ℕ → ℕ → Answer × InMemory
  check_and_consume t now subject limit amount =
      let used = get_or_zero 0 (t.entries (key now subject)) in
      if gt_int (add_int used amount) limit
      then (record { allowed = false; count = used; retry_after = next_month now - now }, t)
      else (
        record { allowed = true; count = add_int used amount; retry_after = 0 },
        record t { entries = put (key now subject) (add_int used amount) t.entries },
      )

  unfoldable pub migration : ℕ → Str → Str → Str
  migration now installation user = key now installation ++ str "->" ++ key now user

  unfoldable pub merge_installation_into_user : InMemory → ℕ → Str → Str → InMemory
  merge_installation_into_user t now installation user =
      if get_or_zero false (t.migrations (migration now installation user)) then t else record {
        entries =
            put (key now user)
              (add_int (get_or_zero 0 (t.entries (key now user)))
                (get_or_zero 0 (t.entries (key now installation))))
              t.entries;
        migrations = put (migration now installation user) true t.migrations;
      }
