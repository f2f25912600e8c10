-- ===== src/Completion/Errors.antt =====
-- api/internal/completion/errors.go, and the error values that pass through the package. An error
-- is its chain of wrapping, as `errors.Is` and `errors.As` walk it.
use deins_complete.Prelude.{Bool, true, false, Option, none, some}
use deins_complete.Prelude.Text.{Str}

pub data ProviderErrorKind : Type 0 where
  authentication rate_limit timeout unavailable invalid_response : ProviderErrorKind

pub data Error : Type 0 where
  -- context.Canceled, context.DeadlineExceeded
  canceled deadline_exceeded : Error
  -- errUsefulLineComplete of service.go
  useful_line_complete : Error
  -- errors.New(message)
  plain : Str → Error
  -- &ProviderError{Kind: kind, Err: err}
  provider_error : ProviderErrorKind → Error → Error
  -- any other error that wraps one
  wrapped : Str → Error → Error

-- errors.Is(err, context.Canceled)
unfoldable pub is_canceled : Error → Bool
is_canceled canceled = true
is_canceled (provider_error kind err) = is_canceled err
is_canceled (wrapped message err) = is_canceled err
is_canceled _ = false

-- errors.Is(err, context.DeadlineExceeded)
unfoldable pub is_deadline_exceeded : Error → Bool
is_deadline_exceeded deadline_exceeded = true
is_deadline_exceeded (provider_error kind err) = is_deadline_exceeded err
is_deadline_exceeded (wrapped message err) = is_deadline_exceeded err
is_deadline_exceeded _ = false

-- errors.Is(err, errUsefulLineComplete)
unfoldable pub is_useful_line_complete : Error → Bool
is_useful_line_complete useful_line_complete = true
is_useful_line_complete (provider_error kind err) = is_useful_line_complete err
is_useful_line_complete (wrapped message err) = is_useful_line_complete err
is_useful_line_complete _ = false

unfoldable pub as_provider_error : Error → Option ProviderErrorKind
as_provider_error (provider_error kind err) = some kind
as_provider_error (wrapped message err) = as_provider_error err
as_provider_error _ = none
