-- ===== src/Config/Load.antt =====
-- api/internal/config/config.go: `parse`, which builds the configuration from the lookup of a name,
-- and its defaults.
pub mod Parts
pub mod Valid
mod Tests
use deins_complete.Prelude.{ℕ, Bool, true, false, ◌&&◌, not, ◌++◌, ltb, length, List, [], ◌∷◌, ◌*◌}
use deins_complete.Prelude.Int.{ℤ}
use deins_complete.Prelude.Text.{Str, str, str_eq, is_empty}
use deins_complete.Prelude.Result.{Result, ok, err, ◌>>=◌, ◌>>◌, refuse_if}
use deins_complete.Config.Types.{
  AiConfig, RouterConfig, AuthConfig, RedisConfig, DatabaseConfig, AccountConfig, Config,
}
use deins_complete.Config.Read.{Library, value_or_default, flag, invalid_value, ranged, version_of}
use deins_complete.Config.Provider.{parse_ai_config}
use deins_complete.Config.Storage.{
  millisecond, minute, hour, day, number, parse_redis_config, parse_database_config,
  parse_quality_config, parse_admin_config,
}
use deins_complete.Config.Routing.{no_ai, parse_admission_config, parse_router_config}

module _ (lookup : Str → Str) where
  unfoldable pub default_ai : {Float : Type 0} → Float → AiConfig Float
  default_ai tenth = record {
    provider = value_or_default (lookup (str "AI_PROVIDER")) (str "mock");
    completion_mode = value_or_default (lookup (str "AI_COMPLETION_MODE")) (str "chat");
    api_mode = value_or_default (lookup (str "AI_API_MODE")) (str "chat");
    fim_prefix_token = lookup (str "AI_FIM_PREFIX_TOKEN");
    fim_suffix_token = lookup (str "AI_FIM_SUFFIX_TOKEN");
    fim_middle_token = lookup (str "AI_FIM_MIDDLE_TOKEN");
    fim_end_token = lookup (str "AI_FIM_END_TOKEN");
    fim_filename_context = flag lookup (str "AI_FIM_FILENAME_CONTEXT_ENABLED");
    timeout = 10000 * millisecond;
    max_tokens = 128;
    temperature = tenth;
    max_completion_lines = 20;
    max_completion_chars = 8000;
    candidate_count = 1;
    openai = record {
      base_url = lookup (str "AI_BASE_URL");
      api_key = lookup (str "AI_API_KEY");
      model = lookup (str "AI_MODEL");
    };
    anthropic = record {
      base_url = lookup (str "ANTHROPIC_BASE_URL");
      api_key = lookup (str "ANTHROPIC_API_KEY");
      model = lookup (str "ANTHROPIC_MODEL");
      version = lookup (str "ANTHROPIC_VERSION");
    };
  }

  unfoldable pub default_redis : RedisConfig
  default_redis = record {
    enabled = flag lookup (str "REDIS_ENABLED");
    addr = lookup (str "REDIS_ADDR");
    username = lookup (str "REDIS_USERNAME");
    password = lookup (str "REDIS_PASSWORD");
    db = 0;
    tls = flag lookup (str "REDIS_TLS_ENABLED");
    connect_timeout = 2000 * millisecond;
    read_timeout = 1000 * millisecond;
    write_timeout = 1000 * millisecond;
  }

  unfoldable pub default_database : DatabaseConfig
  default_database = record {
    enabled = flag lookup (str "DATABASE_ENABLED");
    url = lookup (str "DATABASE_URL");
    max_open_conns = 10;
    max_idle_conns = 5;
    conn_max_lifetime = 30 * minute;
  }

  unfoldable pub default_account : AccountConfig
  default_account = record {
    required = flag lookup (str "ACCOUNT_REQUIRED");
    registration_mode = value_or_default (lookup (str "REGISTRATION_MODE")) (str "invite");
    access_token_secret = lookup (str "ACCOUNT_ACCESS_TOKEN_SECRET");
    access_token_ttl = 30 * minute;
    refresh_token_ttl = 30 * day;
    magic_code_ttl = 15 * minute;
    smtp_addr = lookup (str "ACCOUNT_SMTP_ADDR");
    smtp_from = lookup (str "ACCOUNT_SMTP_FROM");
    smtp_username = lookup (str "ACCOUNT_SMTP_USERNAME");
    smtp_password = lookup (str "ACCOUNT_SMTP_PASSWORD");
  }

  -- The literal that `parse` begins with.
  unfoldable pub defaults : {Float : Type 0} → Library Float → Config Float
  defaults library = record {
    environment = value_or_default (lookup (str "APP_ENV")) (str "development");
    host = value_or_default (lookup (str "HOST")) (str "127.0.0.1");
    port = 3001;
    log_level = value_or_default (lookup (str "LOG_LEVEL")) (str "info");
    ai = default_ai library.tenth;
    auth = record {
      enabled = flag lookup (str "AUTH_ENABLED");
      secret = lookup (str "AUTH_TOKEN_SECRET");
      version = 1;
      token_ttl = 0;
    };
    rate_limit = record {
      enabled = flag lookup (str "RATE_LIMIT_ENABLED");
      requests_per_minute = 60;
      burst = 10;
    };
    usage_quota = record {
      enabled = flag lookup (str "USAGE_QUOTA_ENABLED");
      daily_requests = 2000;
    };
    router = record {
      fallback_enabled = flag lookup (str "AI_FALLBACK_ENABLED");
      max_attempts = 2;
      timeout = 8000 * millisecond;
      fallback = no_ai library.zero_float;
    };
    streaming = flag lookup (str "STREAMING_ENABLED");
    redis = default_redis;
    database = default_database;
    account = default_account;
    admin = record {
      enabled = flag lookup (str "ADMIN_ENABLED");
      token = lookup (str "ADMIN_TOKEN");
    };
    quality = record {
      enabled = flag lookup (str "QUALITY_EVENTS_ENABLED");
      retention_days = 30;
      sample_percent = 100;
    };
  }

-- The tests of the server's own texts.
unfoldable pub refuse_server : {Float : Type 0} → Config Float → Result Str (Unit {0})
refuse_server config = do
  refuse_if
      (not (str_eq config.environment (str "development"))
        && not (str_eq config.environment (str "test"))
        && not (str_eq config.environment (str "production")))
      (str "invalid APP_ENV value: " ++ config.environment)
  refuse_if (is_empty config.host) (str "HOST must not be empty")
  refuse_if
      (not (str_eq config.log_level (str "debug"))
        && not (str_eq config.log_level (str "info"))
        && not (str_eq config.log_level (str "warn"))
        && not (str_eq config.log_level (str "error")))
      (str "invalid LOG_LEVEL value: " ++ config.log_level)

-- The tests of the installation tokens' secret.
unfoldable pub refuse_auth : Str → AuthConfig → Result Str (Unit {0})
refuse_auth environment auth = do
  refuse_if (str_eq environment (str "production") && not auth.enabled)
      (str "AUTH_ENABLED must be true in production")
  refuse_if (auth.enabled && ltb (length auth.secret) 32)
      (str "AUTH_TOKEN_SECRET must be at least 32 bytes when auth is enabled")

unfoldable pub parse : {Float : Type 0} → Library Float → (Str → Str) → Result Str (Config Float)
parse library lookup =
    let config = defaults lookup library in
    do
      refuse_if (config.redis.enabled && is_empty config.redis.addr)
          (str "REDIS_ADDR is required when REDIS_ENABLED=true")
      redis ← parse_redis_config library.atoi lookup config.redis
      stored ←
          parse_database_config library.atoi lookup config.environment config.database
            config.account
      port ← number library.atoi lookup (str "PORT") 1 65535 1 config.port
      refuse_server config
      version ← version_of library.atoi lookup (str "AUTH_TOKEN_VERSION") config.auth.version
      ttl ←
          number library.atoi lookup (str "AUTH_TOKEN_TTL_HOURS") 0 8760 hour config.auth.token_ttl
      refuse_auth config.environment config.auth
      parse_admin_config stored.0.enabled config.admin
      quality ←
          parse_quality_config library.atoi lookup stored.0.enabled config.auth.enabled
            config.quality
      admission ← parse_admission_config library lookup config.rate_limit config.usage_quota
      ai ← parse_ai_config library config.ai config.environment lookup
      router ← parse_router_config library lookup config.router ai config.environment
      ok (record config {
        redis = redis;
        database = stored.0;
        account = stored.1;
        port = port;
        auth = record config.auth { version = version; token_ttl = ttl };
        quality = quality;
        rate_limit = admission.0;
        usage_quota = admission.1;
        ai = ai;
        router = router;
      })
