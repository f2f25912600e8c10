-- ===== src/Completion/Providers/Anthropic.antt =====
-- api/internal/completion/providers/anthropic/provider.go.
use deins_complete.Prelude.{ℕ, ◌||◌, ◌==◌, none, some, Option, List, [], ◌∷◌, ◌++◌, if◌then◌else◌}
use deins_complete.Prelude.Int.{ℤ, ◌+ℤ◌, wrap_int}
use deins_complete.Prelude.Text.{Str, str, str_eq}
use deins_complete.Prelude.Text.Search.{join, trim_right, trim_suffix}
use deins_complete.Prelude.Result.{Result, ok, err}
use deins_complete.Completion.Types.{
  Request, RepositoryContext, RepositoryContextFile, RepositorySymbol, SignatureHelp, Completed,
}
use deins_complete.Completion.Errors.{
  Error, plain, provider_error, authentication, rate_limit, timeout, unavailable,
}
use deins_complete.Completion.Policy.{max_tokens_for_intent}
use deins_complete.Completion.Prompt.{intent_instruction, style_instruction}
use deins_complete.Completion.FileName.{Library, safe_file_name}
use deins_complete.Completion.Providers.{Client, ParsedUrl, is_base, invalid, exchange}
use deins_complete.Completion.Providers.Openai.{Message}
use deins_complete.Completion.Providers.Openai.Prompt.{is_bare, line}

pub record RequestBody (Float : Type 0) : Type 0 where
  pub model : Str
  pub max_tokens : ℤ
  pub temperature : Float
  pub system : Str
  pub messages : List Message

pub record Block : Type 0 where
  pub kind : Str
  pub text : Str

pub record ResponseBody : Type 0 where
  pub content : List Block
  pub stop_reason : Str
  pub input_tokens : ℤ
  pub output_tokens : ℤ

pub record Provider (Float : Type 0) : Type 0 where
  pub base_url : Str
  pub model : Str
  pub max_tokens : ℤ
  pub temperature : Float

pub system_prompt : Str
system_prompt =
    str
      "You are a code completion engine. Return only code inserted at the cursor. Do not explain, "
    ++ str "use Markdown, or repeat surrounding code. Prefer the smallest useful completion."

unfoldable pub status_error : ℕ → Error
status_error status =
    if status == 401 || status == 403
    then provider_error authentication (plain (str "upstream authentication failed"))
    else if status == 429
    then provider_error rate_limit (plain (str "upstream rate limited"))
    else if status == 408
    then provider_error timeout (plain (str "upstream timeout"))
    else provider_error unavailable (plain (str "upstream unavailable"))

abbrev pub tagged : Str → List Str → Str → Str
tagged name [] separator = []
tagged name (t ∷ ts) separator =
    line ++ str "<" ++ name ++ str ">" ++ join (t ∷ ts) separator ++ str "</" ++ name ++ str ">"

abbrev pub quoted : Str → Str
quoted s = b'"' ∷ (s ++ b'"' ∷ [])

module _ (itoa : ℤ → Str) where
  abbrev pub signature : Option SignatureHelp → Str
  signature none = []
  signature (some s) =
      line
      ++ str "<SIGNATURE_HELP>"
      ++ line
      ++ str "Label: "
      ++ s.label
      ++ line
      ++ str "Active parameter: "
      ++ itoa s.active_parameter
      ++ line
      ++ str "Parameter: "
      ++ s.parameter
      ++ line
      ++ str "</SIGNATURE_HELP>"

  abbrev pub focus : Str → List Str
  focus [] = []
  focus (c ∷ text) = (c ∷ text) ∷ []

  abbrev pub files : List RepositoryContextFile → Str
  files [] = []
  files (f ∷ fs) =
      line
      ++ str "<FILE path="
      ++ quoted f.path
      ++ str " language="
      ++ quoted f.language
      ++ str ">"
      ++ line
      ++ f.content
      ++ line
      ++ str "</FILE>"
      ++ files fs

  abbrev pub symbols : List RepositorySymbol → Str
  symbols [] = []
  symbols (s ∷ ss) =
      line
      ++ str "<SYMBOL name="
      ++ quoted s.name
      ++ str " kind="
      ++ quoted s.kind
      ++ str " source="
      ++ quoted s.file_path
      ++ str ">"
      ++ s.signature
      ++ str "</SYMBOL>"
      ++ symbols ss

  abbrev pub repository : Option RepositoryContext → Str
  repository none = []
  repository (some r) =
      if is_bare r
      then []
      else (line
          ++ line
          ++ str "<REPOSITORY_CONTEXT>"
          ++ tagged (str "COMPLETION_FOCUS") (focus r.focus) []
          ++ tagged (str "DIAGNOSTICS") r.diagnostics (str " | ")
          ++ tagged (str "DEPENDENCIES") r.dependencies (str ", ")
          ++ signature r.signature_help
          ++ files r.files
          ++ symbols r.symbols
          ++ line
          ++ str "</REPOSITORY_CONTEXT>")

  -- userPrompt
  unfoldable pub user_prompt : Library → Request → Str
  user_prompt library r =
      str "File: "
      ++ safe_file_name library r.context.file_path
      ++ line
      ++ str "Language: "
      ++ r.context.language
      ++ line
      ++ str "Completion intent: "
      ++ r.intent
      ++ line
      ++ str "Intent guidance: "
      ++ intent_instruction r.intent
      ++ line
      ++ str "Code style: "
      ++ style_instruction itoa r.context.style
      ++ line
      ++ line
      ++ str "<PREFIX>"
      ++ line
      ++ r.context.prefix
      ++ line
      ++ str "</PREFIX>"
      ++ line
      ++ line
      ++ str "<SUFFIX>"
      ++ line
      ++ r.context.suffix
      ++ line
      ++ str "</SUFFIX>"
      ++ repository r.repository_context
      ++ line
      ++ line
      ++ str "Return only the code inserted between PREFIX and SUFFIX."

-- normalizeBaseURL
unfoldable pub normalize_base_url : Option ParsedUrl → Result Error Str
normalize_base_url none = err (plain (str "invalid Anthropic base URL"))
normalize_base_url (some url) =
    if is_base url
    then ok (trim_suffix (trim_right url.text b'/') (str "/v1"))
    else err (plain (str "invalid Anthropic base URL"))

-- strings.Join of the blocks of text
unfoldable pub joined : List Block → Str
joined [] = []
joined (b ∷ bs) =
    let rest = joined bs in if str_eq b.kind (str "text") then b.text ++ rest else rest

abbrev pub read : Result Error ResponseBody → Result Error Completed
read (err e) = err (invalid e)
read (ok body) = ok (record {
  text = joined body.content;
  finish_reason = body.stop_reason;
  prompt_tokens = body.input_tokens;
  completion_tokens = body.output_tokens;
  total_tokens = wrap_int (body.input_tokens +ℤ body.output_tokens);
})

module _ {Float : Type 0} (provider : Provider Float) (itoa : ℤ → Str) (library : Library)
    (client : Client (RequestBody Float) (Result Error ResponseBody)) where
  -- Complete, which does not look at the error of json.Marshal: only http.NewRequest refuses.
  unfoldable pub complete : Request → Result Error Completed
  complete request =
      exchange client status_error read (provider.base_url ++ str "/v1/messages") (record {
        model = provider.model;
        max_tokens = max_tokens_for_intent request.intent provider.max_tokens;
        temperature = provider.temperature;
        system = system_prompt;
        messages = record { role = str "user"; content = user_prompt itoa library request } ∷ [];
      })
