-- ===== src/Config/Provider.antt =====
-- api/internal/config/config.go: the settings of one AI provider.
use deins_complete.Prelude.{ℕ, ◌&&◌, ◌||◌, not, Option, none, some, ◌++◌, if◌then◌else◌}
use deins_complete.Prelude.Text.{Str, str, str_eq, is_empty}
use deins_complete.Prelude.Text.Search.{trim_right}
use deins_complete.Prelude.Result.{Result, ok, err, ◌>>=◌, ◌>>◌, refuse_if}
use deins_complete.Config.Types.{OpenAiConfig, AnthropicConfig, AiConfig}
use deins_complete.Config.Read.{Url, Library, invalid_value, ranged, not_a_flag}

-- A provider's address is an http or https URL with a host, https in production.
unfoldable pub validate_url : Option Url → Str → Str → Str → Result Str Str
validate_url none value environment name = err (str "invalid " ++ name)
validate_url (some url) value environment name = do
  refuse_if
      ((not (str_eq url.scheme (str "http")) && not (str_eq url.scheme (str "https")))
        || is_empty url.host)
      (str "invalid " ++ name)
  refuse_if (str_eq environment (str "production") && not (str_eq url.scheme (str "https")))
      (name ++ str " must use HTTPS in production")
  ok (trim_right value b'/')

module _ {Float : Type 0} (library : Library Float) where
  -- The result is the address without its trailing slashes.
  unfoldable pub validate_provider_url : Str → Str → Str → Result Str Str
  validate_provider_url value = validate_url (library.parse_url value) value

  abbrev pub temperature_in_range : Str → Option Float → Result Str Float
  temperature_in_range message none = err message
  temperature_in_range message (some value) =
      if library.less value library.zero_float || library.less library.two value
      then err message
      else ok value

  unfoldable pub temperature_of : (Str → Str) → Float → Result Str Float
  temperature_of lookup default =
      let raw = lookup (str "AI_TEMPERATURE") in
      if is_empty raw
      then ok default
      else temperature_in_range (invalid_value (str "AI_TEMPERATURE") ++ raw)
          (library.parse_float raw)

  unfoldable pub parse_openai : OpenAiConfig → Str → Result Str OpenAiConfig
  parse_openai openai environment = do
    refuse_if (is_empty openai.base_url || is_empty openai.api_key || is_empty openai.model)
        (str "AI_BASE_URL, AI_API_KEY, and AI_MODEL are required for AI_PROVIDER=openai-compatible")
    url ← validate_provider_url openai.base_url environment (str "AI_BASE_URL")
    ok (record openai { base_url = url })

  unfoldable pub parse_anthropic : AnthropicConfig → Str → Result Str AnthropicConfig
  parse_anthropic anthropic environment = do
    refuse_if
        (is_empty anthropic.base_url
          || is_empty anthropic.api_key
          || is_empty anthropic.model
          || is_empty anthropic.version)
        (str
          "ANTHROPIC_BASE_URL, ANTHROPIC_API_KEY, ANTHROPIC_MODEL, and ANTHROPIC_VERSION are required for AI_PROVIDER=anthropic")
    url ← validate_provider_url anthropic.base_url environment (str "ANTHROPIC_BASE_URL")
    ok (record anthropic { base_url = url })

  -- The switch on the provider's name.
  unfoldable pub parse_provider : AiConfig Float → Str → Result Str (AiConfig Float)
  parse_provider config environment =
      if str_eq config.provider (str "mock")
      then ok config
      else if str_eq config.provider (str "openai-compatible")
      then (parse_openai config.openai environment >>= λ openai.
          ok (record config { openai = openai }))
      else if str_eq config.provider (str "anthropic")
      then (parse_anthropic config.anthropic environment >>= λ anthropic.
          ok (record config { anthropic = anthropic }))
      else ok config

  unfoldable pub refuse_modes : AiConfig Float → (Str → Str) → Result Str (Unit {0})
  refuse_modes config lookup = do
    refuse_if
        (not (str_eq config.completion_mode (str "chat"))
          && not (str_eq config.completion_mode (str "fim")))
        (str "invalid AI_COMPLETION_MODE: " ++ config.completion_mode)
    refuse_if
        (not (str_eq config.api_mode (str "chat"))
          && not (str_eq config.api_mode (str "completion")))
        (str "invalid AI_API_MODE: " ++ config.api_mode)
    refuse_if
        (str_eq config.completion_mode (str "fim")
          && (is_empty config.fim_prefix_token
              || is_empty config.fim_suffix_token
              || is_empty config.fim_middle_token))
        (str "FIM prefix, suffix, and middle tokens are required")
    refuse_if (not_a_flag (lookup (str "AI_FIM_FILENAME_CONTEXT_ENABLED"))) (
        invalid_value (str "AI_FIM_FILENAME_CONTEXT_ENABLED")
        ++ lookup (str "AI_FIM_FILENAME_CONTEXT_ENABLED"))
    refuse_if
        (str_eq config.api_mode (str "completion")
          && not (str_eq config.completion_mode (str "fim")))
        (str "completion API mode requires FIM completion mode")
    refuse_if
        (str_eq config.provider (str "anthropic") && not (str_eq config.api_mode (str "chat")))
        (str "Anthropic supports only chat API mode")

  unfoldable pub parse_ai_config : AiConfig Float → Str → (Str → Str) → Result Str (AiConfig Float)
  parse_ai_config config environment lookup = do
    refuse_modes config lookup
    timeout ← number (str "AI_TIMEOUT_MS") 1000 60000 1000000 config.timeout
    tokens ← number (str "AI_MAX_TOKENS") 1 2048 1 config.max_tokens
    candidates ←
        ranged library.atoi lookup (str "AI_CANDIDATE_COUNT") (str "invalid AI_CANDIDATE_COUNT: ") 1
          3 1 config.candidate_count
    temperature ← temperature_of lookup config.temperature
    lines ← number (str "AI_MAX_COMPLETION_LINES") 1 100 1 config.max_completion_lines
    chars ← number (str "AI_MAX_COMPLETION_CHARS") 100 20000 1 config.max_completion_chars
    parse_provider
        (record config {
          timeout = timeout;
          max_tokens = tokens;
          candidate_count = candidates;
          temperature = temperature;
          max_completion_lines = lines;
          max_completion_chars = chars;
        })
        environment
    where
      number : Str → ℕ → ℕ → ℕ → ℕ → Result Str ℕ
      number key = ranged library.atoi lookup key (invalid_value key)
