-- ===== src/Completion/Providers/Openai.antt =====
-- api/internal/completion/providers/openai: provider.go and types.go. The client answers with what
-- json.Decode reads of the first 2^20 bytes, and a stream with what bufio.Scanner yields of them: its
-- lines and its error. What the loggers write is left out.
pub mod Prompt
pub mod Choice
pub mod Stream
use deins_complete.Prelude.{
  ℕ, ◌+◌, ◌-◌, ◌*◌, ◌^◌, Bool, true, false, ◌&&◌, ◌||◌, ◌==◌, not, ltb, leb, Option, none, some,
  List, [], ◌∷◌, ◌++◌, length, take, drop, if◌then◌else◌,
}
use deins_complete.Prelude.Int.{ℤ, pos}
use deins_complete.Prelude.Text.{Str, str, str_eq, is_empty}
use deins_complete.Prelude.Text.Search.{has_prefix, trim_prefix, trim_right, index, count}
use deins_complete.Prelude.Text.Space.{trim_space, to_lower}
use deins_complete.Prelude.Result.{Result, ok, err, ◌>>=◌}
use deins_complete.Config.Types.{AiConfig}
use deins_complete.Completion.Types.{Request, Completed, completed}
use deins_complete.Completion.Errors.{
  ProviderErrorKind, authentication, rate_limit, timeout, unavailable, invalid_response, Error,
  plain, provider_error, is_canceled, is_deadline_exceeded,
}
use deins_complete.Completion.Policy.{max_tokens_for_intent, single_line_intent}
use deins_complete.Completion.Prompt.{FimConfig, format, strip_end}
use deins_complete.Completion.Service.{Script, Callback, deliver}
use deins_complete.Completion.Providers.{
  Client, ParsedUrl, is_base, Outcome, unanswered, answered, invalid, holds_of, or_else, is_success,
  exchange,
}

pub record Message : Type 0 where
  pub role : Str
  pub content : Str

pub record ChatCompletionRequest (Float : Type 0) : Type 0 where
  pub model : Str
  pub messages : List Message
  pub temperature : Float
  pub max_tokens : ℤ
  pub stream : Bool
  pub n : ℕ

pub record CompletionRequest (Float : Type 0) : Type 0 where
  pub model : Str
  pub prompt : Str
  pub temperature : Float
  pub max_tokens : ℤ

pub record RawChoice : Type 0 where
  pub text : Str
  pub finish_reason : Str

pub record ChatChoice : Type 0 where
  pub content : Str
  pub finish_reason : Str

pub record TokenUsage : Type 0 where
  pub prompt_tokens : ℤ
  pub completion_tokens : ℤ
  pub total_tokens : ℤ

pub record ChatCompletionResponse : Type 0 where
  pub choices : List ChatChoice
  pub usage : Option TokenUsage

pub record Provider (Float : Type 0) : Type 0 where
  pub base_url : Str
  pub model : Str
  pub max_tokens : ℤ
  pub temperature : Float
  pub candidate_count : ℕ
  pub api_mode : Str
  pub fim : FimConfig

-- normalizeBaseURL
unfoldable pub normalize_base_url : Option ParsedUrl → Result Error Str
normalize_base_url none = err (plain (str "invalid OpenAI-compatible base URL"))
normalize_base_url (some url) =
    if is_base url
    then ok (trim_right url.text b'/')
    else err (plain (str "invalid OpenAI-compatible base URL"))

-- New, with the configuration that the provider reads
unfoldable pub new :
    {Float : Type 0} → (Str → Option ParsedUrl) → AiConfig Float → Result Error (Provider Float)
new parse c = do
  base_url ← normalize_base_url (parse c.openai.base_url)
  ok (record {
    base_url = base_url;
    model = c.openai.model;
    max_tokens = pos c.max_tokens;
    temperature = c.temperature;
    candidate_count = c.candidate_count;
    api_mode = c.api_mode;
    fim = record {
      prefix_token = c.fim_prefix_token;
      suffix_token = c.fim_suffix_token;
      middle_token = c.fim_middle_token;
      end_token = c.fim_end_token;
      filename_context = c.fim_filename_context;
    };
  })

-- The lines of a stream, and the error at which the scanner stopped, with ctx.Err() then.
pub record Lines : Type 0 where
  pub lines : List Str
  pub broken : Option (Option Error × Error)

unfoldable pub status_error : ℕ → Error
status_error status =
    if status == 401 || status == 403
    then provider_error authentication (plain (str "upstream authentication failed"))
    else if status == 429
    then provider_error rate_limit (plain (str "upstream rate limited"))
    else if status == 408
    then provider_error timeout (plain (str "upstream timeout"))
    else if leb 500 status
    then provider_error unavailable (plain (str "upstream unavailable"))
    else provider_error unavailable (plain (str "upstream request failed"))

-- strings.Contains
unfoldable pub contains : Str → Str → Bool
contains s part = elim (index s part) [ none ↦ false | some _ ↦ true ]

abbrev pub add_if : Bool → ℕ → ℕ
add_if true n = n
add_if false n = 0

unfoldable pub is_script : Str → Bool
is_script language =
    str_eq language (str "typescript")
    || str_eq language (str "typescriptreact")
    || str_eq language (str "javascript")
    || str_eq language (str "javascriptreact")

-- What a text that is in another language than the file costs.
unfoldable pub language_penalty : Str → Str → ℕ
language_penalty language lower =
    if is_script language
    then add_if
        (has_prefix lower (str "def ")
          || has_prefix lower (str "package main")
          || has_prefix lower (str "func "))
        5000
    else if str_eq language (str "python")
    then add_if
        (has_prefix lower (str "const ")
          || has_prefix lower (str "let ")
          || has_prefix lower (str "func "))
        5000
    else 0

unfoldable pub candidate_penalty : Request → Str → ℕ
candidate_penalty request text =
    let lower = to_lower (trim_space text) in
    let prefix = drop (length request.context.prefix - 80) request.context.prefix in
    let suffix = request.context.suffix in
    length text
    + add_if
        (has_prefix lower (str "```")
          || has_prefix lower (str "here is")
          || has_prefix lower (str "completion:")
          || contains text (0 ∷ []))
        10000
    + add_if (not (is_empty prefix) && contains text prefix) 10000
    + add_if (not (is_empty suffix) && contains text (take 80 suffix)) 1000
    + add_if (single_line_intent request.intent) (count (trim_space text) 10 * 500)
    + language_penalty (to_lower request.context.language) lower

module _ (request : Request) where
  -- The loop, with the best text so far and its score.
  unfoldable pub best_from : Str → ℕ → List ChatChoice → Str
  best_from best score [] = best
  best_from best score (choice ∷ choices) =
      let text = trim_space choice.content in
      let penalty = candidate_penalty request text in
      if is_empty text
      then best_from best score choices
      else if ltb penalty score
      then best_from choice.content penalty choices
      else best_from best score choices

  -- bestChoice, from the greatest int
  unfoldable pub best_choice : List ChatChoice → Str
  best_choice choices = best_from [] (2 ^ 63 - 1) choices

abbrev pub with_usage : Option TokenUsage → Completed → Completed
with_usage none c = c
with_usage (some u) c = record c {
  prompt_tokens = u.prompt_tokens;
  completion_tokens = u.completion_tokens;
  total_tokens = u.total_tokens;
}

abbrev pub first_reason : List ChatChoice → Str
first_reason [] = []
first_reason (choice ∷ _) = choice.finish_reason

unfoldable pub chosen : Request → ChatCompletionResponse → Completed
chosen request payload =
    let text = best_choice request payload.choices in
    if is_empty text
    then completed []
    else with_usage payload.usage
        (record (completed text) { finish_reason = first_reason payload.choices })

abbrev pub read_chat : Request → Result Error ChatCompletionResponse → Result Error Completed
read_chat request (ok payload) = ok (chosen request payload)
read_chat request (err e) = err (invalid e)

abbrev pub first_text : Str → List RawChoice → Completed
first_text end [] = completed []
first_text end (choice ∷ _) = record (completed (strip_end choice.text end)) {
  finish_reason = choice.finish_reason;
}

abbrev pub read_raw : Str → Result Error (List RawChoice) → Result Error Completed
read_raw end (ok choices) = ok (first_text end choices)
read_raw end (err e) = err (invalid e)

module _ {Float : Type 0} (provider : Provider Float) (messages : Request → List Message) where
  abbrev pub chat_request : Bool → ℕ → Request → ChatCompletionRequest Float
  chat_request stream n request = record {
    model = provider.model;
    messages = messages request;
    temperature = provider.temperature;
    max_tokens = max_tokens_for_intent request.intent provider.max_tokens;
    stream = stream;
    n = n;
  }

  module _ (base : Str → Str)
      (raw : Client (CompletionRequest Float) (Result Error (List RawChoice))) where
    -- completeRaw
    unfoldable pub complete_raw : Request → Result Error Completed
    complete_raw request =
        exchange raw status_error (read_raw provider.fim.end_token)
          (provider.base_url ++ str "/completions")
          (record {
            model = provider.model;
            prompt = format base request provider.fim;
            temperature = provider.temperature;
            max_tokens = max_tokens_for_intent request.intent provider.max_tokens;
          })

    -- Complete
    unfoldable pub complete :
        Client (ChatCompletionRequest Float) (Result Error ChatCompletionResponse)
        → Request
        → Result Error Completed
    complete chat request =
        if str_eq provider.api_mode (str "completion")
        then complete_raw request
        else exchange chat status_error (read_chat request)
            (provider.base_url ++ str "/chat/completions")
            (chat_request false provider.candidate_count request)

-- The deltas of an event that hold text.
unfoldable pub texts : List Str → List Str
texts [] = []
texts (delta ∷ deltas) = if is_empty delta then texts deltas else delta ∷ texts deltas

abbrev pub broken_off : Option (Option Error × Error) → Option Error
broken_off none = none
broken_off (some (ctx, e)) = some (if holds_of is_canceled ctx then or_else ctx e else invalid e)

-- `event` reads the contents of the deltas of an event.
module _ (event : Str → Result Error (List Str)) where
  -- The loop over the lines: the chunks that it hands over, and the error with which it ends.
  unfoldable pub events : List Str → Option Error → Script
  events [] ending = record { chunks = []; final = ending }
  events (line ∷ lines) ending =
      let data' = trim_space (trim_prefix line (str "data:")) in
      let rest = events lines ending in
      if not (has_prefix line (str "data:"))
      then rest
      else if str_eq data' (str "[DONE]")
      then record { chunks = []; final = none }
      else elim (event data') [
        | err e ↦ record { chunks = []; final = some (invalid e) }
        | ok deltas ↦ record rest { chunks = texts deltas ++ rest.chunks }
      ]

  abbrev pub ended : Error → Script
  ended e = record { chunks = []; final = some e }

  -- As in Complete, but a context that is canceled is asked for first.
  unfoldable pub stream_failure : Option Error → Error → Error
  stream_failure ctx e =
      if holds_of is_canceled ctx
      then or_else ctx e
      else if holds_of is_deadline_exceeded ctx
      then provider_error timeout e
      else provider_error unavailable e

  abbrev pub stream_reply : Outcome Lines → Script
  stream_reply (unanswered ctx e) = ended (stream_failure ctx e)
  stream_reply (answered status body) =
      if is_success status
      then events body.lines (broken_off body.broken)
      else ended (status_error status)

  module _ {Float : Type 0} (provider : Provider Float) (messages : Request → List Message)
      (client : Client (ChatCompletionRequest Float) Lines) where
    unfoldable pub script : Request → Script
    script request =
        let body = chat_request provider messages true 0 request in
        if not (str_eq provider.api_mode (str "chat"))
        then ended (provider_error unavailable (plain (str "streaming requires chat API mode")))
        else elim (client.refuses body) [
          | some e ↦ ended (invalid e)
          | none ↦ stream_reply (client.post (provider.base_url ++ str "/chat/completions") body)
        ]

    -- StreamComplete
    unfoldable pub stream_complete : {S : Type 0} → Callback S → Request → S → Option Error × S
    stream_complete on_chunk request s =
        deliver on_chunk (script request).chunks (script request).final s
