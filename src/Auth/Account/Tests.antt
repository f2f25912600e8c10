-- ===== src/Auth/Account/Tests.antt =====
-- The theorems at an encoding that shifts every byte and a JSON text that is the user's id.
use deins_complete.Prelude.{◌≡◌, ◌≢◌, refl, some, [], arith}
use deins_complete.Prelude.Int.{pos}
use deins_complete.Prelude.Text.{Str, str}
use deins_complete.Prelude.Result.{ok}
use deins_complete.Auth.Envelope.{seal}
use deins_complete.Auth.Installation.Tests.{crypto, crypto-IsEncoding}
use deins_complete.Auth.Account.{Service, Json, issue_access_token, validate_access_token}
use deins_complete.Auth.Account.Soundness.{
  Signed, validate_access_token-Signed, validate_access_token-issue,
}

abbrev pub json : Json
json = record {
  marshal = λ c. some c.user_id;
  unmarshal = λ p. some (record { user_id = p; expires_at = pos 8; kind = str "account" });
}

abbrev pub service : Service
service = record { secret = str "secret"; access_ttl = 3000000000 }

abbrev pub token : Str
token = seal crypto service.secret (str "u")

u_ne : str "u" ≢ []
unfolding str
u_ne = λ h. cc

token_accepted : validate_access_token crypto json service 7999999999 token ≡ ok (str "u")
unfolding issue_access_token
token_accepted =
    validate_access_token-issue crypto json crypto-IsEncoding service 5000000007 7999999999
      (str "u") token u_ne (omega arith) (λ p h. cc) refl

validate_access_token-issue_example :
    validate_access_token crypto json service 7999999999 token ≡ ok (str "u")
unfolding issue_access_token
validate_access_token-issue_example =
    validate_access_token-issue crypto json crypto-IsEncoding service 5000000007 7999999999
      (str "u") token u_ne (omega arith) (λ p h. cc) refl

validate_access_token-Signed_example : Signed crypto json service 7999999999 (str "u") token
validate_access_token-Signed_example =
    validate_access_token-Signed crypto json service 7999999999 (str "u") token token_accepted
