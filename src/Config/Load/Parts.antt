-- ===== src/Config/Load/Parts.antt =====
-- What the settings for Redis, the database, the accounts and the administration satisfy.
use deins_complete.Prelude.{
  ℕ, ◌≤◌, ◌≡◌, ◌≢◌, ◌⊎◌, inl, inr, refl, Bool, true, false, Bool-cases, ◌&&◌, Option, ltb, length,
  [], ◌*◌, arith,
}
use deins_complete.Prelude.Int.{ℤ}
use deins_complete.Prelude.Text.{Str, str, str_eq_iff, is_empty, is_empty_iff}
use deins_complete.Prelude.Result.{Result, ok, err, ◌>>=◌, refuse_if}
use deins_complete.Config.Types.{
  RedisConfig, DatabaseConfig, AccountConfig, AdminConfig, QualityConfig,
}
use deins_complete.Config.Read.{invalid_value, ranged-Between, Between}
use deins_complete.Config.Storage.{
  millisecond, minute, day, number, parse_redis_config, parse_database_config, read_database,
  refuse_database, parse_quality_config, parse_admin_config,
}
use deins_complete.Config.Load.{default_redis, default_database, default_account}

pub record RedisFits (c : RedisConfig) : Type 0 where
  pub address_set : (c.enabled ≡ false) ⊎ (c.addr ≢ [])
  pub db_fits : Between 0 255 c.db
  pub connect_fits : Between (50 * millisecond) (30000 * millisecond) c.connect_timeout
  pub read_fits : Between (50 * millisecond) (30000 * millisecond) c.read_timeout
  pub write_fits : Between (50 * millisecond) (30000 * millisecond) c.write_timeout

pub record DatabaseFits (c : DatabaseConfig) : Type 0 where
  pub url_set : c.url ≢ []
  pub open_fits : Between 1 100 c.max_open_conns
  pub idle_fits : c.max_idle_conns ≤ c.max_open_conns
  pub lifetime_fits : Between minute (1440 * minute) c.conn_max_lifetime

pub record AccountFits (environment : Str) (c : AccountConfig) : Type 0 where
  pub mail_set : (environment ≢ str "production") ⊎ ((c.smtp_addr ≢ []) × (c.smtp_from ≢ []))
  pub mode_known :
      (c.registration_mode ≡ str "open")
      ⊎ ((c.registration_mode ≡ str "invite") ⊎ (c.registration_mode ≡ str "disabled"))
  pub secret_fits : 32 ≤ length c.access_token_secret
  pub access_fits : Between (5 * minute) (120 * minute) c.access_token_ttl
  pub refresh_fits : Between day (90 * day) c.refresh_token_ttl
  pub magic_fits : Between (5 * minute) (30 * minute) c.magic_code_ttl

-- Accounts that are required have a database, and a database has accounts that fit.
pub StorageFits : Str → DatabaseConfig → AccountConfig → Type 0
StorageFits environment database account =
    ((database.enabled ≡ false) × (account.required ≡ false))
    ⊎ ((database.enabled ≡ true) × DatabaseFits database × AccountFits environment account)

pub record QualityFits (database_enabled auth_enabled : Bool) (c : QualityConfig) : Type 0 where
  pub retention_fits : Between 1 365 c.retention_days
  pub sample_fits : Between 0 100 c.sample_percent
  pub backed : (c.enabled ≡ false) ⊎ ((database_enabled ≡ true) × (auth_enabled ≡ true))

pub AdminFits : Bool → AdminConfig → Type 0
AdminFits database_enabled c =
    (c.enabled ≡ false) ⊎ ((database_enabled ≡ true) × (32 ≤ length c.token))

-- The steps of a chain that succeeds, one at a time.
pub after :
    {A B P : Type 0} (m : Result Str A) (f : A → Result Str B) {b : B}
    → (m >>= f) ≡ ok b
    → ((a : A) → m ≡ ok a → f a ≡ ok b → P)
    → P
after (ok a) f h k = k a refl h
after (err e) f h k = cc

texts_lem :
    (environment : Str) (d : DatabaseConfig) (a : AccountConfig)
    → refuse_database environment d a ≡ ok tt
    → (d.url ≢ [])
      × ((environment ≢ str "production") ⊎ ((a.smtp_addr ≢ []) × (a.smtp_from ≢ [])))
      × ((a.registration_mode ≡ str "open")
          ⊎ ((a.registration_mode ≡ str "invite") ⊎ (a.registration_mode ≡ str "disabled")))
      × (32 ≤ length a.access_token_secret)
unfolding refuse_database
texts_lem environment d a h = ground (
  arith,
  is_empty_iff d.url,
  is_empty_iff a.smtp_addr,
  is_empty_iff a.smtp_from,
  str_eq_iff environment (str "production"),
  str_eq_iff a.registration_mode (str "open"),
  str_eq_iff a.registration_mode (str "invite"),
  str_eq_iff a.registration_mode (str "disabled"),
)

module _ (atoi : Str → Option ℤ) (lookup : Str → Str) where
  pub after_number :
      {A P : Type 0} (key : Str) (lo hi unit default : ℕ) (f : ℕ → Result Str A) {a : A}
      → Between (lo * unit) (hi * unit) default
      → (number atoi lookup key lo hi unit default >>= f) ≡ ok a
      → ((v : ℕ) → Between (lo * unit) (hi * unit) v → f v ≡ ok a → P)
      → P
  after_number key lo hi unit default f d h k =
      after (number atoi lookup key lo hi unit default) f h
        (λ v e. k v (ranged-Between atoi lookup key (invalid_value key) lo hi unit default d e))

  pub redis_lem :
      {r : RedisConfig}
      → parse_redis_config atoi lookup (default_redis lookup) ≡ ok r
      → let config = default_redis lookup in
        refuse_if
            (config.enabled && is_empty config.addr)
            (str "REDIS_ADDR is required when REDIS_ENABLED=true")
          ≡ ok tt
        → RedisFits r
  unfolding parse_redis_config default_redis
  redis_lem h first = after_number _ _ _ _ _ _ (omega arith) h (λ db hdb h1.
      after_number _ _ _ _ _ _ (omega arith) h1 (λ connect hconnect h2.
        after_number _ _ _ _ _ _ (omega arith) h2 (λ read hread h3.
          after_number _ _ _ _ _ _ (omega arith) h3
            (λ write hwrite h4. ground (arith, is_empty_iff (lookup (str "REDIS_ADDR")))))))

  read_lem :
      (environment : Str) {d : DatabaseConfig} {a : AccountConfig}
      → (default_database lookup).enabled ≡ true
      → read_database atoi lookup environment (default_database lookup) (default_account lookup)
        ≡ ok (d, a)
      → (d.enabled ≡ true) × DatabaseFits d × AccountFits environment a
  unfolding read_database default_database default_account
  read_lem environment on h =
      after (refuse_database environment (default_database lookup) (default_account lookup)) _ h
        (λ _ texts h0. after_number _ _ _ _ _ _ (omega arith) h0 (λ opened hopened h1.
          after_number _ _ _ _ _ _ (omega arith) h1 (λ idle hidle h2.
            after (refuse_if (ltb opened idle) _) _ h2 (λ _ few h3.
              after_number _ _ _ _ _ _ (omega arith) h3 (λ life hlife h4.
                after_number _ _ _ _ _ _ (omega arith) h4 (λ access haccess h5.
                  after_number _ _ _ _ _ _ (omega arith) h5 (λ refresh hrefresh h6.
                    after_number _ _ _ _ _ _ (omega arith) h6
                      (λ magic hmagic h7. ground (arith, texts_lem environment _ _ texts)))))))))

  pub database_lem :
      (environment : Str) {d : DatabaseConfig} {a : AccountConfig}
      → parse_database_config atoi lookup environment
          (default_database lookup)
          (default_account lookup)
        ≡ ok (d, a)
      → StorageFits environment d a
  unfolding StorageFits parse_database_config default_database default_account
  database_lem environment h = elim (Bool-cases (default_database lookup).enabled) [
    | inl on ↦ inr (read_lem environment on (ground arith))
    | inr off ↦ ground arith
  ]

  pub quality_lem :
      (database_enabled auth_enabled : Bool) (config : QualityConfig) {q : QualityConfig}
      → config.retention_days ≡ 30
      → config.sample_percent ≡ 100
      → parse_quality_config atoi lookup database_enabled auth_enabled config ≡ ok q
      → QualityFits database_enabled auth_enabled q
  unfolding parse_quality_config
  quality_lem database_enabled auth_enabled config days percent h =
      after_number _ _ _ _ _ _ (omega arith) h (λ retention hretention h1.
        after_number _ _ _ _ _ _ (omega arith) h1 (λ sample hsample h2. ground arith))

pub admin_lem :
    (database_enabled : Bool) (config : AdminConfig)
    → parse_admin_config database_enabled config ≡ ok tt
    → AdminFits database_enabled config
unfolding parse_admin_config AdminFits
admin_lem database_enabled config h = ground arith
