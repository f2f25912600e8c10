-- ===== src/Handlers/Status.antt =====
-- Which failures of a provider a client sees as its own status.
use deins_complete.Prelude.Text.{Str, str}
use deins_complete.Prelude.Result.{Result}
use deins_complete.Handlers.{Reply, refused}

abbrev pub internal : Reply Str
internal = refused 500 (str "INTERNAL_ERROR")
