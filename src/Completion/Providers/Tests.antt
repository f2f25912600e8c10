-- ===== src/Completion/Providers/Tests.antt =====
-- The theorems at two candidates, at a stream of one event, and at answers that failed.
use deins_complete.Prelude.{
  ◌≡◌, ◌^◌, ◌-◌, ◌<◌, ◌⊎◌, refl, Bool, true, false, none, some, List, [], ◌∷◌, ◌++◌, ltb→lt,
}
use deins_complete.Prelude.Int.{pos}
use deins_complete.Prelude.Lists.{All}
use deins_complete.Prelude.Text.{Str, str, str_eq}
use deins_complete.Prelude.Text.Search.{has_prefix, trim_prefix, count, index}
use deins_complete.Prelude.Text.Space.{trim_space, to_lower}
use deins_complete.Prelude.Result.{Result, ok, err}
use deins_complete.Completion.Types.{Request}
use deins_complete.Completion.Errors.{
  Error, canceled, plain, provider_error, rate_limit, is_deadline_exceeded, is_canceled,
}
use deins_complete.Completion.Policy.{single_line_intent}
use deins_complete.Completion.Tests.{request}
use deins_complete.Completion.FileName.{Library}
use deins_complete.Completion.Providers.{
  Client, answered, unanswered, exchange, transport_error, is_success,
}
use deins_complete.Completion.Providers.Failures.{
  Routed, openai_complete-Routed, anthropic_complete-Routed,
}
use deins_complete.Completion.Providers.Openai.{
  ChatChoice, Provider, RawChoice, ChatCompletionRequest, ChatCompletionResponse, CompletionRequest,
  candidate_penalty, contains, is_script, language_penalty, best_choice, events, complete,
  status_error,
}
use deins_complete.Completion.Providers.Anthropic as Anthropic
use deins_complete.Completion.Providers.Openai.Choice.{penalty, IsBlank, Best, best_choice-Best}
use deins_complete.Completion.Providers.Openai.Stream.{
  all_text, payload, Speaks, silent, comment, says, events-Speaks,
}

abbrev asked : Request
asked = request (str "general")

abbrev choices : List ChatChoice
choices =
    record { content = str "```x"; finish_reason = str "length" }
    ∷ record { content = str "x"; finish_reason = str "stop" }
    ∷ []

small : All (λ c. penalty asked c < 2 ^ 63 - 1) choices
unfolding candidate_penalty contains is_script language_penalty single_line_intent index has_prefix
    count trim_space to_lower str str_eq
small = (ltb→lt 10004 (2 ^ 63 - 1) refl, (ltb→lt 1 (2 ^ 63 - 1) refl, tt))

best_choice-Best_example :
    ((best_choice asked choices ≡ []) × All IsBlank choices)
    ⊎ Best asked choices (best_choice asked choices)
best_choice-Best_example = best_choice-Best asked choices small

abbrev event : Str → Result Error (List Str)
event s = ok (s ∷ [])

abbrev lines : List Str
lines = str ": ping" ∷ str "data: a" ∷ []

comments : has_prefix (str ": ping") (str "data:") ≡ false
unfolding has_prefix str
comments = refl

is_data : has_prefix (str "data: a") (str "data:") ≡ true
unfolding has_prefix str
is_data = refl

goes_on : str_eq (payload (str "data: a")) (str "[DONE]") ≡ false
unfolding str_eq trim_space trim_prefix has_prefix str
goes_on = refl

speaks : Speaks event lines (all_text (payload (str "data: a") ∷ []) ++ [])
speaks = comment comments (says is_data goes_on refl silent)

is_done : has_prefix (str "data: [DONE]") (str "data:") ≡ true
unfolding has_prefix str
is_done = refl

ends : payload (str "data: [DONE]") ≡ str "[DONE]"
unfolding trim_space trim_prefix has_prefix str
ends = refl

events-Speaks_example :
    let script = events event (lines ++ str "data: [DONE]" ∷ str "data: b" ∷ []) none in
    (all_text script.chunks ≡ all_text (payload (str "data: a") ∷ []) ++ []) × (script.final ≡ none)
events-Speaks_example =
    events-Speaks event lines (all_text (payload (str "data: a") ∷ []) ++ []) (str "data: [DONE]")
      (str "data: b" ∷ []) none speaks is_done ends

abbrev provider : Provider Bool
provider = record {
  base_url = str "https://a";
  model = str "m";
  max_tokens = pos 9;
  temperature = false;
  candidate_count = 1;
  api_mode = str "chat";
  fim = record {
    prefix_token = [];
    suffix_token = [];
    middle_token = [];
    end_token = [];
    filename_context = false;
  };
}

abbrev raw : Client (CompletionRequest Bool) (Result Error (List RawChoice))
raw = record { refuses = λ _. none; post = λ _ _. answered 200 (ok []) }

abbrev chat : Client (ChatCompletionRequest Bool) (Result Error ChatCompletionResponse)
chat = record { refuses = λ _. none; post = λ _ _. answered 429 (err (plain [])) }

abbrev limited : Error
limited = provider_error rate_limit (plain (str "upstream rate limited"))

fails : complete provider (λ _. []) (λ s. s) raw chat asked ≡ err limited
unfolding complete exchange is_success status_error str str_eq
fails = refl

openai_complete-Routed_example : Routed limited
openai_complete-Routed_example =
    openai_complete-Routed provider (λ _. []) (λ s. s) raw chat asked limited fails

abbrev library : Library
library = record { base = λ s. s; runes = λ _. []; is_letter = λ _. true; is_number = λ _. false }

abbrev claude : Anthropic.Provider Bool
claude = record {
  base_url = str "https://b";
  model = str "m";
  max_tokens = pos 9;
  temperature = false;
}

abbrev client : Client (Anthropic.RequestBody Bool) (Result Error Anthropic.ResponseBody)
client = record { refuses = λ _. none; post = λ _ _. unanswered (some canceled) (plain []) }

is_canceled_too : Anthropic.complete claude (λ _. []) library client asked ≡ err canceled
unfolding Anthropic.complete exchange transport_error is_deadline_exceeded is_canceled
is_canceled_too = refl

anthropic_complete-Routed_example : Routed canceled
anthropic_complete-Routed_example =
    anthropic_complete-Routed claude (λ _. []) library client asked canceled is_canceled_too
