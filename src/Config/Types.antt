-- ===== src/Config/Types.antt =====
-- api/internal/config/config.go: the records of settings. Durations are nanoseconds; a number that
-- is only stored after a test for its range is a natural number.
use deins_complete.Prelude.{ℕ, Bool}
use deins_complete.Prelude.Text.{Str}

pub record OpenAiConfig : Type 0 where
  pub base_url : Str
  pub api_key : Str
  pub model : Str

pub record AnthropicConfig : Type 0 where
  pub base_url : Str
  pub api_key : Str
  pub model : Str
  pub version : Str

-- `Float` is float64.
pub record AiConfig (Float : Type 0) : Type 0 where
  pub provider : Str
  pub completion_mode : Str
  pub api_mode : Str
  pub fim_prefix_token : Str
  pub fim_suffix_token : Str
  pub fim_middle_token : Str
  pub fim_end_token : Str
  pub fim_filename_context : Bool
  pub timeout : ℕ
  pub max_tokens : ℕ
  pub temperature : Float
  pub max_completion_lines : ℕ
  pub max_completion_chars : ℕ
  pub candidate_count : ℕ
  pub openai : OpenAiConfig
  pub anthropic : AnthropicConfig

pub record RouterConfig (Float : Type 0) : Type 0 where
  pub fallback_enabled : Bool
  pub max_attempts : ℕ
  pub timeout : ℕ
  pub fallback : AiConfig Float

pub record RateLimitConfig : Type 0 where
  pub enabled : Bool
  pub requests_per_minute : ℕ
  pub burst : ℕ

pub record UsageQuotaConfig : Type 0 where
  pub enabled : Bool
  pub daily_requests : ℕ

pub record AuthConfig : Type 0 where
  pub enabled : Bool
  pub secret : Str
  pub version : ℕ
  pub token_ttl : ℕ

pub record RedisConfig : Type 0 where
  pub enabled : Bool
  pub addr : Str
  pub username : Str
  pub password : Str
  pub db : ℕ
  pub tls : Bool
  pub connect_timeout : ℕ
  pub read_timeout : ℕ
  pub write_timeout : ℕ

pub record DatabaseConfig : Type 0 where
  pub enabled : Bool
  pub url : Str
  pub max_open_conns : ℕ
  pub max_idle_conns : ℕ
  pub conn_max_lifetime : ℕ

pub record AccountConfig : Type 0 where
  pub required : Bool
  pub registration_mode : Str
  pub access_token_secret : Str
  pub access_token_ttl : ℕ
  pub refresh_token_ttl : ℕ
  pub magic_code_ttl : ℕ
  pub smtp_addr : Str
  pub smtp_from : Str
  pub smtp_username : Str
  pub smtp_password : Str

pub record AdminConfig : Type 0 where
  pub enabled : Bool
  pub token : Str

pub record QualityConfig : Type 0 where
  pub enabled : Bool
  pub retention_days : ℕ
  pub sample_percent : ℕ

pub record Config (Float : Type 0) : Type 0 where
  pub environment : Str
  pub host : Str
  pub port : ℕ
  pub log_level : Str
  pub ai : AiConfig Float
  pub auth : AuthConfig
  pub rate_limit : RateLimitConfig
  pub usage_quota : UsageQuotaConfig
  pub router : RouterConfig Float
  pub streaming : Bool
  pub redis : RedisConfig
  pub database : DatabaseConfig
  pub account : AccountConfig
  pub admin : AdminConfig
  pub quality : QualityConfig
