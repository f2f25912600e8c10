-- ===== src/Handlers/Tests.antt =====
-- The theorems at a stream of two chunks, at a provider whose every request is too late, and at a
-- first registration.
use deins_complete.Prelude.{ℕ, suc, ◌≡◌, refl, true, false, Option, none, some, [], ◌∷◌, inr, arith}
use deins_complete.Prelude.Int.{pos}
use deins_complete.Prelude.Text.{Str, str, str_eq}
use deins_complete.Prelude.Result.{ok, err}
use deins_complete.Account.{Plan, Tables, Faults, Installation}
use deins_complete.Account.Rows.{exists, insert, transaction}
use deins_complete.Account.Installations.{ensure_installation}
use deins_complete.Auth.Installation as Installation_tokens
use deins_complete.Auth.Installation.{issue}
use deins_complete.Auth.Installation.Tests.{crypto, crypto-IsEncoding, json, service, token}
use deins_complete.Completion.Types.{Request, completed}
use deins_complete.Completion.Errors.{
  Error, plain, provider_error, timeout, is_useful_line_complete,
}
use deins_complete.Completion.Policy.{max_lines_for_intent, single_line_intent, valid_intent}
use deins_complete.Completion.Validation.{
  validate, refuses_context, refuses_style, refuses_client, validate_repository,
}
use deins_complete.Completion.Service.{
  Provider, Script, deliver, focus_single_line, single_line_focus, line_end, emit, forward, finish,
  stream,
}
use deins_complete.Completion.Service.Streaming.{seen}
use deins_complete.Handlers.{
  Event, may_stream, decoded, replied, entitled, end_stream, serve_stream,
}
use deins_complete.Handlers.Stream.{Kept, keeping, refusing, ctx_of, Limits, serve_stream-sent}
use deins_complete.Handlers.Registration.{
  issued_reply, ensured_reply, register_installations, register-validate,
}

abbrev script : Request → Script
script _ = record { chunks = str "a = " ∷ str "1;" ∷ []; final = none }

abbrev answering : Provider
answering = record { complete = λ _. ok (completed []); stream = some script }

abbrev write : Event → ℕ → Option Error × ℕ
write event n = (none, suc n)

abbrev alive : ℕ → Option Error
alive _ = none

abbrev plain_text : Request → Str → Str
plain_text _ text = text

abbrev asked : Request
asked = record {
  context = record {
    prefix = str "const a = ";
    suffix = [];
    language = str "typescript";
    file_path = str "src/a.ts";
    cursor_offset = pos 10;
    style = none;
  };
  intent = str "object-fields";
  repository_context = none;
  client = none;
}

abbrev refuse : ℕ → Str → ℕ → ℕ
refuse status code n = suc n

abbrev limited : Option Plan
limited = some (record {
  id = str "p";
  code = str "free";
  name = str "Free";
  status = str "active";
  monthly_completions = 2000;
  repository_context = false;
  streaming = true;
  premium_routing = false;
})

abbrev after : Kept ℕ
after =
    serve_stream (refusing refuse) (keeping write) (seen (ctx_of alive)) plain_text answering
      limited (decoded asked) ([], (none, 0))

after_done : after.1.0 ≡ some (str "a = 1;")
unfolding serve_stream end_stream entitled validate refuses_context refuses_style refuses_client
    validate_repository valid_intent stream finish forward emit line_end deliver single_line_focus
    focus_single_line single_line_intent max_lines_for_intent is_useful_line_complete str str_eq
after_done = refl

serve_stream-sent_example :
    (may_stream limited ≡ true)
    × ((r : Request) × Limits limited asked r × (str "a = 1;" ≡ plain_text r after.0))
serve_stream-sent_example =
    serve_stream-sent refuse write alive plain_text answering limited script asked 0 (str "a = 1;")
      refl after_done

abbrev late : Provider
late = record { complete = λ _. err (provider_error timeout (plain (str "late"))); stream = none }

abbrev too_late : Error
too_late = provider_error timeout (plain (str "late"))

abbrev empty : Tables
empty = record {
  users = [];
  plans = [];
  user_plans = [];
  installations = [];
  sessions = [];
  invites = [];
  codes = [];
}

abbrev working : Faults
working _ = false

registered :
    (register_installations crypto json service 5000000007 working 5
      (str "r")
      (decoded (str "a"))
      (some empty)).0
    ≡ replied 200 token
unfolding register_installations ensured_reply issued_reply issue ensure_installation exists insert
    transaction str str_eq
registered = refl

register-validate_example :
    (Installation_tokens.validate crypto json service 6000000000 token ≡ ok (str "a"))
    × ((i : Installation) × ((ensure_installation working 5 (str "r") (str "a") empty).0 ≡ ok i)
        × (str_eq i.status (str "active") ≡ true))
register-validate_example =
    register-validate crypto json service 5000000007 working 5 (str "r") (str "a") token empty
      6000000000 crypto-IsEncoding (omega arith) (inr (omega arith)) (λ p h. cc) registered
