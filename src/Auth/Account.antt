-- ===== src/Auth/Account.antt =====
-- api/internal/accountauth/tokens.go: the access tokens of users. `now` is nanoseconds since the
-- epoch; `exp` is in seconds.
pub mod Soundness
pub mod Tests
use deins_complete.Prelude.{ℕ, ◌+◌, ◌/◌, Bool, ◌||◌, not, Option, none, some, if◌then◌else◌}
use deins_complete.Prelude.Int.{ℤ, pos, ltb_ℤ}
use deins_complete.Prelude.Text.{Str, str, str_eq, is_empty}
use deins_complete.Prelude.Result.{Result, ok, err}
use deins_complete.Auth.Envelope.{Crypto, seal, unseal}

pub record Service : Type 0 where
  pub secret : Str
  pub access_ttl : ℕ

pub record Claims : Type 0 where
  pub user_id : Str
  pub expires_at : ℤ
  pub kind : Str

pub record Json : Type 0 where
  pub marshal : Claims → Option Str
  pub unmarshal : Str → Option Claims

abbrev pub second : ℕ
second = 1000000000

unfoldable pub refuses_claims : ℕ → Claims → Bool
refuses_claims now c =
    is_empty c.user_id
    || not (str_eq c.kind (str "account"))
    || not (ltb_ℤ (pos (now / second)) c.expires_at)

abbrev pub refused : Result Str Str
refused = err (str "invalid account token")

abbrev pub accept : ℕ → Option Claims → Result Str Str
accept now none = refused
accept now (some c) = if refuses_claims now c then refused else ok c.user_id

abbrev pub claims_of : Service → ℕ → Str → Claims
claims_of s now user_id = record {
  user_id = user_id;
  expires_at = pos ((now + s.access_ttl) / second);
  kind = str "account";
}

module _ (crypto : Crypto) (json : Json) where
  abbrev pub issued_token : Service → Option Str → Option Str
  issued_token s none = none
  issued_token s (some payload) = some (seal crypto s.secret payload)

  -- IssueAccessToken; `none` is the error of encoding.
  unfoldable pub issue_access_token : Service → ℕ → Str → Option Str
  issue_access_token s now user_id = issued_token s (json.marshal (claims_of s now user_id))

  abbrev pub validated : Service → ℕ → Option Str → Result Str Str
  validated s now none = refused
  validated s now (some payload) = accept now (json.unmarshal payload)

  -- ValidateAccessToken
  unfoldable pub validate_access_token : Service → ℕ → Str → Result Str Str
  validate_access_token s now token = validated s now (unseal crypto s.secret token)
