-- ===== src/Completion/Validation/Tests.antt =====
-- The bounds at one request.
use deins_complete.Prelude.{◌≡◌, ◌↔◌}
use deins_complete.Prelude.Text.{str}
use deins_complete.Prelude.Result.{ok}
use deins_complete.Completion.Validation.{validate}
use deins_complete.Completion.Validation.Bounds.{RequestFits, validate_iff}
use deins_complete.Completion.Tests.{request}

validate_iff_example :
    (validate (request (str "import")) ≡ ok tt) ↔ RequestFits (request (str "import"))
validate_iff_example = validate_iff (request (str "import"))
