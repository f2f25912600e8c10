-- ===== src/Usage.antt =====
-- api/internal/usage: the daily quota of an installation and the monthly quota of a plan.
pub mod Daily
pub mod Monthly
use deins_complete.Prelude.{ℕ, Bool}

-- Result; the trackers in memory set no error.
pub record Answer : Type 0 where
  pub allowed : Bool
  pub count : ℕ
  pub retry_after : ℕ
