-- ===== src/Handlers.antt =====
-- api/internal/http/handlers/completion.go and stream.go: a completion and a stream of one. What the
-- decoder reads of a body, and what ctx.Err() is when the service has failed, are inputs.
pub mod Stream
pub mod Status
pub mod Registration
mod Tests
use deins_complete.Prelude.{
  ℕ, Bool, true, false, not, Option, none, some, List, [], ◌∷◌, if◌then◌else◌,
}
use deins_complete.Prelude.Int.{ℤ, pos, ltb_ℤ}
use deins_complete.Prelude.Text.{Str, str}
use deins_complete.Prelude.Result.{Result, ok, err}
use deins_complete.Account.{Plan}
use deins_complete.Completion.Types.{Request, Completed}
use deins_complete.Completion.Errors.{
  ProviderErrorKind, authentication, rate_limit, timeout, unavailable, invalid_response, Error,
  as_provider_error,
}
use deins_complete.Completion.Validation.{validate}
use deins_complete.Completion.Service.{Provider, complete, stream}

-- What the decoder reads of a body: more bytes than are allowed, no value or more than one or one
-- with other fields, or a value.
pub data Decoded (A : Type 0) : Type 0 where
  too_large malformed : Decoded A
  decoded : A → Decoded A

-- What is written: an error with its status and code, a value with its status, a status alone, or
-- nothing, where the client is gone.
pub data Reply (A : Type 0) : Type 0 where
  refused : ℕ → Str → Reply A
  replied : ℕ → A → Reply A
  no_content silent : Reply A

abbrev pub invalid_request : {A : Type 0} → Reply A
invalid_request = refused 400 (str "INVALID_REQUEST")

abbrev pub unavailable_now : {A : Type 0} → Reply A
unavailable_now = refused 503 (str "SERVICE_UNAVAILABLE")

abbrev pub is_valid : Request → Bool
is_valid request = elim (validate request) [ ok _ ↦ true | err _ ↦ false ]

-- A plan without repository context falls back to the current file.
unfoldable pub entitled : Option Plan → Request → Request
entitled none request = request
entitled (some plan) request =
    if plan.repository_context then request else record request { repository_context = none }

-- writeProviderError
unfoldable pub provider_reply : {A : Type 0} → ProviderErrorKind → Reply A
provider_reply timeout = refused 504 (str "PROVIDER_TIMEOUT")
provider_reply rate_limit = refused 503 (str "PROVIDER_RATE_LIMITED")
provider_reply _ = refused 502 (str "PROVIDER_UNAVAILABLE")

abbrev pub failure_reply : {A : Type 0} → Option ProviderErrorKind → Reply A
failure_reply none = refused 500 (str "INTERNAL_ERROR")
failure_reply (some kind) = provider_reply kind

-- The answer to what the service returned; `ctx` is ctx.Err() then.
unfoldable pub completion_reply : Option Error → Result Error Completed → Reply Str
completion_reply ctx (ok result) = replied 200 result.text
completion_reply none (err e) = failure_reply (as_provider_error e)
completion_reply (some _) (err e) = silent

abbrev pub max_request_body_bytes : ℕ
max_request_body_bytes = 262144

module _ (sanitizer : Request → Str → Str) (provider : Provider) (plan : Option Plan) where
  -- ServeHTTP of the CompletionHandler, given the Content-Length of the request.
  unfoldable pub serve_completion : Option Error → ℤ → Decoded Request → Reply Str
  serve_completion ctx content_length too_large = refused 413 (str "INVALID_REQUEST")
  serve_completion ctx content_length malformed =
      if ltb_ℤ (pos max_request_body_bytes) content_length
      then refused 413 (str "INVALID_REQUEST")
      else invalid_request
  serve_completion ctx content_length (decoded request) =
      if ltb_ℤ (pos max_request_body_bytes) content_length
      then refused 413 (str "INVALID_REQUEST")
      else if not (is_valid request)
      then invalid_request
      else completion_reply ctx (complete sanitizer provider (entitled plan request))

-- The events of a stream.
pub data Event : Type 0 where
  chunk : Str → Event
  failed : Event
  finished : Str → Event

abbrev pub may_stream : Option Plan → Bool
may_stream none = true
may_stream (some plan) = plan.streaming

-- `write` is writeEvent and `refuse` is WriteError, on the state of the connection; `ctx_err` reads
-- ctx.Err() in it.
module _ {W : Type 0} (refuse : ℕ → Str → W → W) (write : Event → W → Option Error × W)
    (ctx_err : W → Option Error) where
  -- What ends a stream: an event, unless it failed and the client is gone.
  unfoldable pub end_stream : Result Error Completed × W → W
  end_stream (ok result, w) = (write (finished result.text) w).1
  end_stream (err e, w) = elim (ctx_err w) [ some _ ↦ w | none ↦ (write failed w).1 ]

  module _ (sanitizer : Request → Str → Str) (provider : Provider) (plan : Option Plan) where
    -- ServeHTTP of the StreamHandler.
    unfoldable pub serve_stream : Decoded Request → W → W
    serve_stream too_large w = refuse 400 (str "INVALID_REQUEST") w
    serve_stream malformed w = refuse 400 (str "INVALID_REQUEST") w
    serve_stream (decoded request) w =
        if not (is_valid request)
        then refuse 400 (str "INVALID_REQUEST") w
        else if not (may_stream plan)
        then refuse 403 (str "FEATURE_NOT_AVAILABLE") w
        else end_stream (
            stream sanitizer provider (λ text. write (chunk text)) ctx_err (entitled plan request)
              w)
