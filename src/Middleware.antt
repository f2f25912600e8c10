-- ===== src/Middleware.antt =====
-- api/internal/http/middleware: the guards before the completion handler, and their order in
-- api/internal/server/router.go. A guard refuses a request or passes it on with what it found out;
-- each reads the clock itself.
pub mod Chain
pub mod Admission
pub mod Public
mod Tests
use deins_complete.Prelude.{
  ℕ, ◌/◌, Bool, true, false, not, Option, none, some, List, [], ◌∷◌, ◌++◌, max, if◌then◌else◌,
}
use deins_complete.Prelude.Text.{Str, str, str_eq, is_empty}
use deins_complete.Prelude.Text.Search.{has_prefix, trim_prefix}
use deins_complete.Prelude.Result.{Result, ok, err}
use deins_complete.RateLimit
use deins_complete.Usage.Daily
use deins_complete.Usage.Monthly
use deins_complete.Auth.Envelope.{Crypto}
use deins_complete.Auth.Installation.{Service, Json, validate}

-- account.Installation and account.Entitlements, as far as the guards read them
pub record Installation : Type 0 where
  pub id : Str
  pub user_id : Str
  pub status : Str

pub record Entitlements : Type 0 where
  pub monthly_completions : ℕ

-- The headers that the guards read, and the values that they put into the context.
pub record Incoming : Type 0 where
  pub authorization : Str
  pub installation_token : Str
  pub identity : Option Str
  pub installation : Option Installation
  pub entitlements : Option Entitlements

-- What WriteError is given, with the Retry-After header in seconds.
pub record Refusal : Type 0 where
  pub status : ℕ
  pub code : Str
  pub retry_after : Option ℕ

-- The operations of account.Repository; `none` is an error.
pub record Repository (R : Type 0) : Type 0 where
  pub ensure_installation : Str → R → Option Installation × R
  pub resolve_entitlements : Str → R → Option Entitlements

pub record World (R : Type 0) : Type 0 where
  pub limiter : RateLimit.InMemory
  pub tracker : Daily.InMemory
  pub monthly : Monthly.InMemory
  pub repository : R

-- When each guard reads the clock.
pub record Clock : Type 0 where
  pub auth_at : ℕ
  pub limiter_at : ℕ
  pub tracker_at : ℕ
  pub monthly_at : ℕ

abbrev pub refusal : ℕ → Str → Refusal
refusal status code = record { status = status; code = code; retry_after = none }

abbrev pub unauthorized : Refusal
unauthorized = refusal 401 (str "UNAUTHORIZED")

abbrev pub unavailable : Refusal
unavailable = refusal 503 (str "SERVICE_UNAVAILABLE")

-- At least one second, and whole seconds.
unfoldable pub retry : ℕ → ℕ
retry d = max 1 (d / 1000000000)

unfoldable pub credentials : Incoming → List Str
credentials r =
    if has_prefix r.authorization (str "Bearer ")
    then trim_prefix r.authorization (str "Bearer ") ∷ r.installation_token ∷ []
    else r.installation_token ∷ []

abbrev pub Guard : Type 0 → Type 0
Guard R = Incoming → World R → Result Refusal Incoming × World R

abbrev pub Handler : Type 0 → Type 0 → Type 0
Handler R A = Incoming → World R → Result Refusal A × World R

-- A guard in front of the next handler.
unfoldable pub guarded : {R A : Type 0} → Guard R → Handler R A → Handler R A
guarded guard next r w =
    let (result, w') = guard r w in
    elim result [ ok r' ↦ next r' w' | err refused ↦ (err refused, w') ]

-- A guard that is only put in front where the part it needs is there.
unfoldable pub only : {R : Type 0} → Bool → Guard R → Guard R
only true guard r w = guard r w
only false guard r w = (ok r, w)

module _ (crypto : Crypto) (json : Json) (service : Service) (now : ℕ) where
  -- The first credential that is valid.
  unfoldable pub first_valid : List Str → Option Str
  first_valid [] = none
  first_valid (credential ∷ rest) =
      let later = first_valid rest in
      if is_empty credential
      then later
      else elim (validate crypto json service now credential) [ ok id ↦ some id | err _ ↦ later ]

  unfoldable pub auth : {R : Type 0} → Guard R
  auth r w = elim (first_valid (credentials r)) [
    | none ↦ (err unauthorized, w)
    | some id ↦ (ok (record r { identity = some id }), w)
  ]

-- IdentityFromContext, with the zero value where there is none
abbrev pub id_or_empty : Option Str → Str
id_or_empty none = []
id_or_empty (some id) = id

module _ {R : Type 0} (now : ℕ) where
  unfoldable pub rate_limit : Guard R
  rate_limit r w = elim r.identity [
    | none ↦ (err unauthorized, w)
    | some id ↦
        let (answer, limiter) = RateLimit.allow w.limiter now id in
        if answer.allowed then (ok r, record w { limiter = limiter }) else (
          err (record {
            status = 429;
            code = str "RATE_LIMITED";
            retry_after = some (retry answer.retry_after);
          }),
          record w { limiter = limiter },
        )
  ]

  unfoldable pub quota : Guard R
  quota r w =
      let (answer, tracker) = Daily.check_and_consume w.tracker now (id_or_empty r.identity) 1 in
      if answer.allowed then (ok r, record w { tracker = tracker }) else (
        err (record {
          status = 429;
          code = str "QUOTA_EXCEEDED";
          retry_after = some (retry answer.retry_after);
        }),
        record w { tracker = tracker },
      )

module _ {R : Type 0} (repo : Repository R) where
  unfoldable pub installation_status : Guard R
  installation_status r w = elim r.identity [
    | none ↦ (err unauthorized, w)
    | some id ↦
        let (found, repository) = repo.ensure_installation id w.repository in
        let w' = record w { repository = repository } in
        elim found [
          | none ↦ (err unavailable, w')
          | some installation ↦
              if str_eq installation.status (str "active")
              then (ok (record r { installation = some installation }), w')
              else (err (refusal 401 (str "INSTALLATION_REVOKED")), w')
        ]
  ]

  unfoldable pub entitlements : Guard R
  entitlements r w = elim r.installation [
    | none ↦ (err unauthorized, w)
    | some installation ↦ elim (repo.resolve_entitlements installation.id w.repository) [
      | none ↦ (err unavailable, w)
      | some e ↦ (ok (record r { entitlements = some e }), w)
    ]
  ]

abbrev pub is_linked : Option Installation → Bool
is_linked none = false
is_linked (some installation) = not (is_empty installation.user_id)

unfoldable pub require_linked_account : {R : Type 0} → Bool → Guard R
require_linked_account required r w =
    if not required
    then (ok r, w)
    else if is_linked r.installation
    then (ok r, w)
    else (err (refusal 401 (str "ACCOUNT_REQUIRED")), w)

-- The subject of the monthly quota.
unfoldable pub subject_of : Installation → Str
subject_of i = if is_empty i.user_id then str "installation:" ++ i.id else str "user:" ++ i.user_id

module _ {R : Type 0} (month : ℕ → Str) (next_month : ℕ → ℕ) (now : ℕ) where
  unfoldable pub monthly_quota : Guard R
  monthly_quota r w = elim r.installation [
    | none ↦ (err unauthorized, w)
    | some i ↦ elim r.entitlements [
      | none ↦ (err unauthorized, w)
      | some e ↦
          let (answer, monthly) =
            Monthly.check_and_consume month next_month w.monthly now (subject_of i)
              e.monthly_completions 1 in
          if answer.allowed then (ok r, record w { monthly = monthly }) else (
            err (record {
              status = 429;
              code = str "PLAN_QUOTA_EXCEEDED";
              retry_after = some (retry answer.retry_after);
            }),
            record w { monthly = monthly },
          )
    ]
  ]
