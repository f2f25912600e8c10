-- ===== src/Auth/Installation.antt =====
-- api/internal/auth/token.go: the tokens of installations. JSON is the library's: `marshal` and
-- `unmarshal` of the claims. `now` is nanoseconds since the epoch; `iat` is in seconds.
pub mod Soundness
pub mod Tests
use deins_complete.Prelude.{
  ℕ, ◌+◌, ◌*◌, ◌/◌, Bool, true, false, ◌||◌, ◌&&◌, not, Option, none, some, ltb, if◌then◌else◌,
}
use deins_complete.Prelude.Int.{ℤ, pos, ltb_ℤ, eq_ℤ, to_ℕ}
use deins_complete.Prelude.Text.{Str, str, str_eq, is_empty}
use deins_complete.Prelude.Result.{Result, ok, err}
use deins_complete.Auth.Envelope.{Crypto, seal, unseal}

pub record Service : Type 0 where
  pub secret : Str
  pub version : ℤ
  pub ttl : ℕ

pub record Claims : Type 0 where
  pub id : Str
  pub issued : ℤ
  pub version : ℤ

pub record Json : Type 0 where
  pub marshal : Claims → Option Str
  pub unmarshal : Str → Option Claims

abbrev pub second : ℕ
second = 1000000000

-- s.ttl > 0 && now.After(time.Unix(issued, 0).Add(s.ttl)), for a time of issue that is positive
abbrev pub expired : Service → ℕ → ℤ → Bool
expired s now issued = ltb 0 s.ttl && ltb (to_ℕ issued * second + s.ttl) now

unfoldable pub refuses_claims : Service → ℕ → Claims → Bool
refuses_claims s now c =
    is_empty c.id
    || not (ltb_ℤ (pos 0) c.issued)
    || not (eq_ℤ c.version s.version)
    || expired s now c.issued

abbrev pub accept : Service → ℕ → Option Claims → Result Str Str
accept s now none = err (str "invalid")
accept s now (some c) = if refuses_claims s now c then err (str "invalid") else ok c.id

abbrev pub claims_of : Service → ℕ → Str → Claims
claims_of s now id = record { id = id; issued = pos (now / second); version = s.version }

module _ (crypto : Crypto) (json : Json) where
  abbrev pub issued_token : Service → Option Str → Option Str
  issued_token s none = none
  issued_token s (some payload) = some (seal crypto s.secret payload)

  -- Issue; `none` is the error of encoding.
  unfoldable pub issue : Service → ℕ → Str → Option Str
  issue s now id = issued_token s (json.marshal (claims_of s now id))

  abbrev pub validated : Service → ℕ → Option Str → Result Str Str
  validated s now none = err (str "invalid")
  validated s now (some payload) = accept s now (json.unmarshal payload)

  -- Validate
  unfoldable pub validate : Service → ℕ → Str → Result Str Str
  validate s now token = validated s now (unseal crypto s.secret token)
