-- ===== src/Middleware/Chain.antt =====
-- api/internal/server/router.go: the guards in front of the completion handler, in their order.
use deins_complete.Prelude.{ℕ, Bool, ◌&&◌, if◌then◌else◌}
use deins_complete.Prelude.Text.{Str}
use deins_complete.Auth.Envelope.{Crypto}
use deins_complete.Auth.Installation.{Service, Json}
use deins_complete.Middleware.{
  Clock, Repository, Handler, guarded, only, auth, rate_limit, quota, installation_status,
  require_linked_account, entitlements, monthly_quota,
}

-- Which parts the server was started with.
pub record Wiring : Type 0 where
  pub enabled : Bool
  pub has_limiter : Bool
  pub has_tracker : Bool
  pub has_repo : Bool
  pub has_monthly : Bool
  pub account_required : Bool

-- What the guards are built from.
pub record Parts (R : Type 0) : Type 0 where
  pub crypto : Crypto
  pub json : Json
  pub service : Service
  pub repo : Repository R
  pub month : ℕ → Str
  pub next_month : ℕ → ℕ

module _ {R A : Type 0} (wiring : Wiring) (parts : Parts R) (clock : Clock)
    (handle : Handler R A) where
  -- The wrapping under `if enabled`, which puts the last guard first.
  unfoldable pub after_account : Handler R A
  after_account = guarded (only wiring.has_repo (entitlements parts.repo)) (
      guarded
        (only (wiring.has_repo && wiring.has_monthly)
          (monthly_quota parts.month parts.next_month clock.monthly_at))
        handle)

  unfoldable pub after_quota : Handler R A
  after_quota = guarded (only wiring.has_repo (installation_status parts.repo)) (
      guarded (only wiring.has_repo (require_linked_account wiring.account_required)) after_account)

  unfoldable pub protected : Handler R A
  protected = guarded (auth parts.crypto parts.json parts.service clock.auth_at) (
      guarded (only wiring.has_limiter (rate_limit clock.limiter_at))
        (guarded (only wiring.has_tracker (quota clock.tracker_at)) after_quota))

  unfoldable pub completions : Handler R A
  completions = if wiring.enabled then protected else handle
