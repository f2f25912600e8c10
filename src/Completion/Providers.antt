-- ===== src/Completion/Providers.antt =====
-- api/internal/completion/providers: what the providers share, the mock provider and the choice of a
-- provider. A client answers a request with a status and a body, or fails; json.Marshal or
-- http.NewRequest may refuse the request before.
pub mod Openai
pub mod Anthropic
pub mod Failures
mod Tests
use deins_complete.Prelude.{
  ℕ, Bool, ◌&&◌, ◌||◌, ltb, leb, Option, none, some, if◌then◌else◌, ◌++◌, ◌==◌, not, List, [], ◌∷◌,
}
use deins_complete.Prelude.Text.{Str, str, str_eq, is_empty}
use deins_complete.Prelude.Text.Search.{has_suffix}
use deins_complete.Prelude.Result.{Result, ok, err}
use deins_complete.Completion.Types.{Request, Completed, completed}
use deins_complete.Completion.Errors.{
  ProviderErrorKind, authentication, rate_limit, timeout, unavailable, invalid_response, Error,
  canceled, deadline_exceeded, plain, provider_error, is_canceled, is_deadline_exceeded,
}

-- What client.Do returns: an error, with what ctx.Err() is then, or a status and what is read of
-- the body.
pub data Outcome (B : Type 0) : Type 0 where
  unanswered : Option Error → Error → Outcome B
  answered : ℕ → B → Outcome B

-- The client of a provider: `Q` is the body of a request before it is encoded.
pub record Client (Q B : Type 0) : Type 0 where
  pub refuses : Q → Option Error
  pub post : Str → Q → Outcome B

abbrev pub invalid : Error → Error
invalid e = provider_error invalid_response e

-- errors.Is(ctx.Err(), ...)
abbrev pub holds_of : (Error → Bool) → Option Error → Bool
holds_of p none = Bool.false
holds_of p (some e) = p e

abbrev pub or_else : Option Error → Error → Error
or_else none e = e
or_else (some x) e = x

-- The error of a request that was not answered.
unfoldable pub transport_error : Option Error → Error → Error
transport_error ctx e =
    if holds_of is_deadline_exceeded ctx
    then provider_error timeout e
    else if holds_of is_canceled ctx
    then or_else ctx e
    else provider_error unavailable e

unfoldable pub is_success : ℕ → Bool
is_success status = leb 200 status && ltb status 300

-- What url.Parse reads, with the text that String gives back.
pub record ParsedUrl : Type 0 where
  pub scheme : Str
  pub host : Str
  pub raw_query : Str
  pub fragment : Str
  pub text : Str

unfoldable pub is_base : ParsedUrl → Bool
is_base url =
    (str_eq url.scheme (str "http") || str_eq url.scheme (str "https"))
    && not (is_empty url.host)
    && is_empty url.raw_query
    && is_empty url.fragment

-- Sends a request and reads the body of a successful answer.
module _ {Q B A : Type 0} (client : Client Q B) (status_error : ℕ → Error)
    (read : B → Result Error A) where
  abbrev pub reply : Outcome B → Result Error A
  reply (unanswered ctx e) = err (transport_error ctx e)
  reply (answered status body) = if is_success status then read body else err (status_error status)

  unfoldable pub exchange : Str → Q → Result Error A
  exchange url body = elim (client.refuses body) [
    | some e ↦ err (invalid e)
    | none ↦ reply (client.post url body)
  ]

-- strings.TrimRight(prefix, " \t\r\n")
unfoldable pub trim_spaces : Str → Str
trim_spaces [] = []
trim_spaces (x ∷ s) =
    let rest = trim_spaces s in
    if is_empty rest && (x == 32 || x == 9 || x == 13 || x == 10) then [] else x ∷ rest

-- MockProvider.Complete; `waits` is whether its delay is positive, and `ends` what ctx.Err() is if the
-- context ends before the delay does.
unfoldable pub mock_complete : Bool → Option Error → Request → Result Error Completed
mock_complete waits ends request =
    let prefix = trim_spaces request.context.prefix in
    let text =
      if has_suffix prefix (str "const user =")
      then str "await getUser();"
      else if has_suffix prefix (str "console.")
      then str "log()"
      else [] in
    elim (if waits then ends else none) [ some e ↦ err e | none ↦ ok (completed text) ]

pub data Kind : Type 0 where
  mock openai_compatible anthropic : Kind

-- NewProvider, which builds the provider of this kind.
unfoldable pub kind_of_provider : Str → Result Error Kind
kind_of_provider provider =
    if str_eq provider (str "mock")
    then ok mock
    else if str_eq provider (str "openai-compatible")
    then ok openai_compatible
    else if str_eq provider (str "anthropic")
    then ok anthropic
    else err (plain (str "unsupported AI_PROVIDER: " ++ provider))
