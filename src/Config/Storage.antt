-- ===== src/Config/Storage.antt =====
-- api/internal/config/config.go: the settings of Redis, the database and the accounts, the admin
-- interface and the quality events.
use deins_complete.Prelude.{ℕ, Bool, ◌&&◌, ◌||◌, not, ◌++◌, Option, ltb, length, if◌then◌else◌}
use deins_complete.Prelude.Int.{ℤ}
use deins_complete.Prelude.Text.{Str, str, str_eq, is_empty}
use deins_complete.Prelude.Result.{Result, ok, err, ◌>>=◌, ◌>>◌, refuse_if}
use deins_complete.Config.Types.{
  RedisConfig, DatabaseConfig, AccountConfig, AdminConfig, QualityConfig,
}
use deins_complete.Config.Read.{invalid_value, ranged, not_a_flag}

-- In nanoseconds.
abbrev pub millisecond : ℕ
millisecond = 1000000

abbrev pub minute : ℕ
minute = 60000000000

abbrev pub hour : ℕ
hour = 3600000000000

abbrev pub day : ℕ
day = 86400000000000

-- The tests of the texts, in the order of the source.
unfoldable pub refuse_database : Str → DatabaseConfig → AccountConfig → Result Str (Unit {0})
refuse_database environment database account = do
  refuse_if (is_empty database.url) (str "DATABASE_URL is required when DATABASE_ENABLED=true")
  refuse_if
      (str_eq environment (str "production")
        && (is_empty account.smtp_addr || is_empty account.smtp_from))
      (str
        "ACCOUNT_SMTP_ADDR and ACCOUNT_SMTP_FROM are required when database accounts are enabled in production")
  refuse_if
      (not (str_eq account.registration_mode (str "open"))
        && not (str_eq account.registration_mode (str "invite"))
        && not (str_eq account.registration_mode (str "disabled")))
      (str "invalid REGISTRATION_MODE value: " ++ account.registration_mode)
  refuse_if (ltb (length account.access_token_secret) 32)
      (str "ACCOUNT_ACCESS_TOKEN_SECRET must be at least 32 bytes when DATABASE_ENABLED=true")

module _ (atoi : Str → Option ℤ) (lookup : Str → Str) where
  -- A setting with the usual message.
  abbrev pub number : Str → ℕ → ℕ → ℕ → ℕ → Result Str ℕ
  number key = ranged atoi lookup key (invalid_value key)

  unfoldable pub parse_redis_config : RedisConfig → Result Str RedisConfig
  parse_redis_config config = do
    db ← number (str "REDIS_DB") 0 255 1 config.db
    connect ← number (str "REDIS_CONNECT_TIMEOUT_MS") 50 30000 millisecond config.connect_timeout
    read ← number (str "REDIS_READ_TIMEOUT_MS") 50 30000 millisecond config.read_timeout
    write ← number (str "REDIS_WRITE_TIMEOUT_MS") 50 30000 millisecond config.write_timeout
    refuse_if (not_a_flag (lookup (str "REDIS_TLS_ENABLED")))
        (invalid_value (str "REDIS_TLS_ENABLED") ++ lookup (str "REDIS_TLS_ENABLED"))
    ok (record config {
      db = db;
      connect_timeout = connect;
      read_timeout = read;
      write_timeout = write;
    })

  -- The settings read when the database is enabled.
  unfoldable pub read_database :
      Str → DatabaseConfig → AccountConfig → Result Str (DatabaseConfig × AccountConfig)
  read_database environment database account = do
    refuse_database environment database account
    opened ← number (str "DATABASE_MAX_OPEN_CONNS") 1 100 1 database.max_open_conns
    idle ← number (str "DATABASE_MAX_IDLE_CONNS") 0 100 1 database.max_idle_conns
    refuse_if (ltb opened idle)
        (str "DATABASE_MAX_IDLE_CONNS must not exceed DATABASE_MAX_OPEN_CONNS")
    lifetime ←
        number (str "DATABASE_CONN_MAX_LIFETIME_MINUTES") 1 1440 minute database.conn_max_lifetime
    access ← number (str "ACCOUNT_ACCESS_TOKEN_TTL_MINUTES") 5 120 minute account.access_token_ttl
    refresh ← number (str "ACCOUNT_REFRESH_TOKEN_TTL_DAYS") 1 90 day account.refresh_token_ttl
    magic ← number (str "ACCOUNT_MAGIC_CODE_TTL_MINUTES") 5 30 minute account.magic_code_ttl
    ok (
      record database {
        max_open_conns = opened;
        max_idle_conns = idle;
        conn_max_lifetime = lifetime;
      },
      record account {
        access_token_ttl = access;
        refresh_token_ttl = refresh;
        magic_code_ttl = magic;
      },
    )

  -- The two parts of the configuration that it sets.
  unfoldable pub parse_database_config :
      Str → DatabaseConfig → AccountConfig → Result Str (DatabaseConfig × AccountConfig)
  parse_database_config environment database account =
      if not database.enabled
      then if account.required
        then err (str "DATABASE_ENABLED must be true when ACCOUNT_REQUIRED=true")
        else ok (database, account)
      else read_database environment database account

  unfoldable pub parse_quality_config : Bool → Bool → QualityConfig → Result Str QualityConfig
  parse_quality_config database_enabled auth_enabled config = do
    retention ← number (str "QUALITY_EVENTS_RETENTION_DAYS") 1 365 1 config.retention_days
    sample ← number (str "QUALITY_EVENTS_SAMPLE_PERCENT") 0 100 1 config.sample_percent
    refuse_if (config.enabled && (not database_enabled || not auth_enabled))
        (str "DATABASE_ENABLED and AUTH_ENABLED must be true when QUALITY_EVENTS_ENABLED=true")
    ok (record config { retention_days = retention; sample_percent = sample })

unfoldable pub parse_admin_config : Bool → AdminConfig → Result Str (Unit {0})
parse_admin_config database_enabled config = if not config.enabled then ok tt else do
  refuse_if (not database_enabled) (str "DATABASE_ENABLED must be true when ADMIN_ENABLED=true")
  refuse_if (ltb (length config.token) 32)
      (str "ADMIN_TOKEN must be at least 32 bytes when ADMIN_ENABLED=true")
