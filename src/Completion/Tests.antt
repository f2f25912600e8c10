-- ===== src/Completion/Tests.antt =====
-- Requests that the tests of the package use.
use deins_complete.Prelude.{none, []}
use deins_complete.Prelude.Int.{pos}
use deins_complete.Prelude.Text.{Str, str}
use deins_complete.Completion.Types.{Request}

abbrev pub request : Str → Request
request intent = record {
  context = record {
    prefix = str "const a = ";
    suffix = [];
    language = str "typescript";
    file_path = str "src/a.ts";
    cursor_offset = pos 10;
    style = none;
  };
  intent = intent;
  repository_context = none;
  client = none;
}
