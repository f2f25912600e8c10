-- ===== src/Config/Routing.antt =====
-- api/internal/config/config.go: the settings for admission and for the router with its fallback.
use deins_complete.Prelude.{false, if◌then◌else◌, []}
use deins_complete.Prelude.Text.{Str, str, str_eq, is_empty}
use deins_complete.Prelude.Result.{Result, ok, ◌>>=◌, ◌>>◌, refuse_if}
use deins_complete.Config.Types.{AiConfig, RouterConfig, RateLimitConfig, UsageQuotaConfig}
use deins_complete.Config.Read.{Library, value_or_default, flag}
use deins_complete.Config.Provider.{parse_ai_config}
use deins_complete.Config.Storage.{millisecond, number}

-- The lookup that gives the fallback's settings their usual names.
unfoldable pub fallback_lookup : {Float : Type 0} → AiConfig Float → (Str → Str) → Str → Str
fallback_lookup fallback lookup key =
    if str_eq key (str "AI_PROVIDER")
    then fallback.provider
    else if str_eq key (str "AI_BASE_URL")
    then fallback.openai.base_url
    else if str_eq key (str "AI_API_KEY")
    then fallback.openai.api_key
    else if str_eq key (str "AI_MODEL")
    then fallback.openai.model
    else if str_eq key (str "ANTHROPIC_BASE_URL")
    then fallback.anthropic.base_url
    else if str_eq key (str "ANTHROPIC_API_KEY")
    then fallback.anthropic.api_key
    else if str_eq key (str "ANTHROPIC_MODEL")
    then fallback.anthropic.model
    else if str_eq key (str "ANTHROPIC_VERSION")
    then fallback.anthropic.version
    else if str_eq key (str "AI_FIM_FILENAME_CONTEXT_ENABLED")
    then lookup (str "AI_FALLBACK_FIM_FILENAME_CONTEXT_ENABLED")
    else []

-- The zero values of AIConfig.
unfoldable pub no_ai : {Float : Type 0} → Float → AiConfig Float
no_ai zero = record {
  provider = [];
  completion_mode = [];
  api_mode = [];
  fim_prefix_token = [];
  fim_suffix_token = [];
  fim_middle_token = [];
  fim_end_token = [];
  fim_filename_context = false;
  timeout = 0;
  max_tokens = 0;
  temperature = zero;
  max_completion_lines = 0;
  max_completion_chars = 0;
  candidate_count = 0;
  openai = record { base_url = []; api_key = []; model = [] };
  anthropic = record { base_url = []; api_key = []; model = []; version = [] };
}

module _ {Float : Type 0} (library : Library Float) (lookup : Str → Str) where
  unfoldable pub parse_admission_config :
      RateLimitConfig → UsageQuotaConfig → Result Str (RateLimitConfig × UsageQuotaConfig)
  parse_admission_config rate quota = do
    requests ←
        number library.atoi lookup (str "RATE_LIMIT_REQUESTS_PER_MINUTE") 1 10000 1
          rate.requests_per_minute
    burst ← number library.atoi lookup (str "RATE_LIMIT_BURST") 1 1000 1 rate.burst
    daily ←
        number library.atoi lookup (str "USAGE_QUOTA_DAILY_REQUESTS") 1 1000000 1
          quota.daily_requests
    ok (
      record rate { requests_per_minute = requests; burst = burst },
      record quota { daily_requests = daily },
    )

  -- The fallback takes the primary's limits, and zero for the limits it does not name.
  unfoldable pub fallback_of : AiConfig Float → AiConfig Float
  fallback_of ai = record {
    provider = lookup (str "AI_FALLBACK_PROVIDER");
    completion_mode = value_or_default (lookup (str "AI_FALLBACK_COMPLETION_MODE")) (str "chat");
    api_mode = value_or_default (lookup (str "AI_FALLBACK_API_MODE")) (str "chat");
    fim_prefix_token = lookup (str "AI_FALLBACK_FIM_PREFIX_TOKEN");
    fim_suffix_token = lookup (str "AI_FALLBACK_FIM_SUFFIX_TOKEN");
    fim_middle_token = lookup (str "AI_FALLBACK_FIM_MIDDLE_TOKEN");
    fim_end_token = lookup (str "AI_FALLBACK_FIM_END_TOKEN");
    fim_filename_context = flag lookup (str "AI_FALLBACK_FIM_FILENAME_CONTEXT_ENABLED");
    timeout = ai.timeout;
    max_tokens = ai.max_tokens;
    temperature = ai.temperature;
    max_completion_lines = 0;
    max_completion_chars = 0;
    candidate_count = 0;
    openai = record {
      base_url = lookup (str "AI_FALLBACK_BASE_URL");
      api_key = lookup (str "AI_FALLBACK_API_KEY");
      model = lookup (str "AI_FALLBACK_MODEL");
    };
    anthropic = record {
      base_url = lookup (str "AI_FALLBACK_BASE_URL");
      api_key = lookup (str "AI_FALLBACK_API_KEY");
      model = lookup (str "AI_FALLBACK_MODEL");
      version = lookup (str "AI_FALLBACK_VERSION");
    };
  }

  unfoldable pub parse_fallback : AiConfig Float → Str → Result Str (AiConfig Float)
  parse_fallback ai environment =
      let fallback = fallback_of ai in
      refuse_if (is_empty fallback.provider)
        (str "AI_FALLBACK_PROVIDER is required when fallback is enabled")
      >> parse_ai_config library fallback environment (fallback_lookup fallback lookup)

  unfoldable pub parse_router_config :
      RouterConfig Float → AiConfig Float → Str → Result Str (RouterConfig Float)
  parse_router_config router ai environment = do
    attempts ← number library.atoi lookup (str "AI_MAX_ROUTER_ATTEMPTS") 1 5 1 router.max_attempts
    timeout ←
        number library.atoi lookup (str "AI_ROUTER_TIMEOUT_MS") 1000 60000 millisecond
          router.timeout
    fallback ←
        (if router.fallback_enabled then parse_fallback ai environment else ok router.fallback)
    ok (record router { max_attempts = attempts; timeout = timeout; fallback = fallback })
