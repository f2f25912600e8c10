-- ===== src/Middleware/Public.antt =====
-- api/internal/http/middleware: the guards of the account, administration and link routes.
use deins_complete.Prelude.{ℕ, ◌||◌, not, Option, none, some, ◌++◌, if◌then◌else◌}
use deins_complete.Prelude.Text.{Str, str, str_eq, is_empty}
use deins_complete.Prelude.Text.Search.{has_prefix, trim_prefix}
use deins_complete.Prelude.Result.{Result, ok, err}
use deins_complete.RateLimit
use deins_complete.Auth.Envelope.{Crypto}
use deins_complete.Auth.Installation
use deins_complete.Auth.Account
use deins_complete.Middleware.{
  Installation, Incoming, Refusal, Repository, Guard, refusal, unauthorized, retry,
}

-- The host of an address, or the whole address where net.SplitHostPort fails.
abbrev pub host_of : Option Str → Str → Str
host_of none address = address
host_of (some host) address = host

-- The limiter of the public routes is one of its own.
unfoldable pub public_rate_limit :
    (Str → Option Str)
    → ℕ
    → Str
    → RateLimit.InMemory
    → Result Refusal (Unit {0}) × RateLimit.InMemory
public_rate_limit split_host_port now remote_addr limiter =
    let host = host_of (split_host_port remote_addr) remote_addr in
    let (answer, limiter') = RateLimit.allow limiter now (str "auth:" ++ host) in
    if answer.allowed then (ok tt, limiter') else (
      err (record {
        status = 429;
        code = str "RATE_LIMITED";
        retry_after = some (retry answer.retry_after);
      }),
      limiter',
    )

-- UserAuth: the user of the bearer token.
unfoldable pub user_auth : Crypto → Account.Json → Account.Service → ℕ → Str → Result Refusal Str
user_auth crypto json service now authorization =
    if has_prefix authorization (str "Bearer ")
    then elim (Account.validate_access_token crypto json service now
        (trim_prefix authorization (str "Bearer "))) [ ok id ↦ ok id | err _ ↦ err unauthorized ]
    else err unauthorized

-- AdminAuth, for SHA-256 as a parameter
unfoldable pub admin_auth : (Str → Str) → Str → Str → Str → Result Refusal (Unit {0})
admin_auth sha256 token authorization admin_token =
    let candidate =
      if has_prefix authorization (str "Bearer ")
      then trim_prefix authorization (str "Bearer ")
      else admin_token in
    if is_empty candidate || not (str_eq (sha256 token) (sha256 candidate))
    then err unauthorized
    else ok tt

module _ {R : Type 0} (repo : Repository R) where
  abbrev pub active_only : Incoming → Option Installation → Result Refusal Incoming
  active_only r none = err (refusal 401 (str "INSTALLATION_REVOKED"))
  active_only r (some i) =
      if str_eq i.status (str "active")
      then ok (record r { installation = some i })
      else err (refusal 401 (str "INSTALLATION_REVOKED"))

  -- InstallationToken
  unfoldable pub installation_token :
      Crypto → Installation.Json → Installation.Service → ℕ → Guard R
  installation_token crypto json service now r w =
      if is_empty r.installation_token
      then (err unauthorized, w)
      else elim (Installation.validate crypto json service now r.installation_token) [
        | err _ ↦ (err unauthorized, w)
        | ok key ↦
            let (found, repository) = repo.ensure_installation key w.repository in
            (active_only r found, record w { repository = repository })
      ]
