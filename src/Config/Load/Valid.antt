-- ===== src/Config/Load/Valid.antt =====
-- What a configuration that `parse` accepts satisfies.
use mathlib.Core.Path.{subst}
use deins_complete.Prelude.{
  ℕ, ◌≤◌, ◌≡◌, ◌≢◌, ◌⊎◌, inl, inr, refl, true, false, Bool-cases, ◌&&◌, length, [], ◌*◌,
  if◌then◌else◌, arith,
}
use deins_complete.Prelude.Text.{Str, str, str_eq, str_eq_iff, is_empty, is_empty_iff}
use deins_complete.Prelude.Result.{ok, refuse_if, ok-injective}
use deins_complete.Config.Types.{
  AiConfig, RouterConfig, AuthConfig, RateLimitConfig, UsageQuotaConfig, Config,
}
use deins_complete.Config.Read.{Library, ranged, ranged-Between, Between, version_of, version_lem}
use deins_complete.Config.Provider.{
  refuse_modes, parse_openai, parse_anthropic, parse_provider, temperature_of, parse_ai_config,
}
use deins_complete.Config.Storage.{
  millisecond, hour, parse_redis_config, parse_database_config, parse_quality_config,
  parse_admin_config,
}
use deins_complete.Config.Routing.{parse_fallback, parse_admission_config, parse_router_config}
use deins_complete.Config.Load.{default_ai, defaults, refuse_server, refuse_auth, parse}
use deins_complete.Config.Load.Parts.{
  RedisFits, StorageFits, QualityFits, AdminFits, after, after_number, redis_lem, database_lem,
  quality_lem, admin_lem,
}

pub record ServerFits {Float : Type 0} (c : Config Float) : Type 0 where
  pub environment_known :
      (c.environment ≡ str "development")
      ⊎ ((c.environment ≡ str "test") ⊎ (c.environment ≡ str "production"))
  pub host_set : c.host ≢ []
  pub log_level_known :
      (c.log_level ≡ str "debug")
      ⊎ ((c.log_level ≡ str "info") ⊎ ((c.log_level ≡ str "warn") ⊎ (c.log_level ≡ str "error")))

pub record AuthFits (environment : Str) (c : AuthConfig) : Type 0 where
  pub production_auth : (environment ≢ str "production") ⊎ (c.enabled ≡ true)
  pub secret_fits : (c.enabled ≡ false) ⊎ (32 ≤ length c.secret)
  pub version_fits : 1 ≤ c.version
  pub ttl_fits : c.token_ttl ≤ 8760 * hour

pub record AiFits {Float : Type 0} (c : AiConfig Float) : Type 0 where
  pub timeout_fits : Between (1000 * millisecond) (60000 * millisecond) c.timeout
  pub tokens_fit : Between 1 2048 c.max_tokens
  pub candidates_fit : Between 1 3 c.candidate_count
  pub lines_fit : Between 1 100 c.max_completion_lines
  pub chars_fit : Between 100 20000 c.max_completion_chars

pub record IsValid {Float : Type 0} (c : Config Float) : Type 0 where
  pub port_fits : Between 1 65535 c.port
  pub server_fits : ServerFits c
  pub auth_fits : AuthFits c.environment c.auth
  pub redis_fits : RedisFits c.redis
  pub storage_fits : StorageFits c.environment c.database c.account
  pub quality_fits : QualityFits c.database.enabled c.auth.enabled c.quality
  pub admin_fits : AdminFits c.database.enabled c.admin
  pub requests_fit : Between 1 10000 c.rate_limit.requests_per_minute
  pub burst_fits : Between 1 1000 c.rate_limit.burst
  pub daily_fits : Between 1 1000000 c.usage_quota.daily_requests
  pub ai_fits : AiFits c.ai
  pub attempts_fit : Between 1 5 c.router.max_attempts
  pub router_timeout_fits : Between (1000 * millisecond) (60000 * millisecond) c.router.timeout

server_lem : {Float : Type 0} (c : Config Float) → refuse_server c ≡ ok tt → ServerFits c
unfolding refuse_server
server_lem c h = ground (
  arith,
  is_empty_iff c.host,
  str_eq_iff c.environment (str "development"),
  str_eq_iff c.environment (str "test"),
  str_eq_iff c.environment (str "production"),
  str_eq_iff c.log_level (str "debug"),
  str_eq_iff c.log_level (str "info"),
  str_eq_iff c.log_level (str "warn"),
  str_eq_iff c.log_level (str "error"),
)

auth_lem :
    (environment : Str) (c : AuthConfig) (version ttl : ℕ)
    → refuse_auth environment c ≡ ok tt
    → 1 ≤ version
    → ttl ≤ 8760 * hour
    → AuthFits environment (record c { version = version; token_ttl = ttl })
unfolding refuse_auth
auth_lem environment c version ttl h v t = ground (arith, str_eq_iff environment (str "production"))

module _ {Float : Type 0} (library : Library Float) (lookup : Str → Str) where
  -- The switch on the provider leaves the limits as they are.
  provider_lem :
      (config : AiConfig Float) (environment : Str) {c : AiConfig Float}
      → parse_provider library config environment ≡ ok c
      → AiFits config
      → AiFits c
  unfolding parse_provider
  provider_lem config environment {c = c} h fits =
      elim (Bool-cases (str_eq config.provider (str "mock"))) [
        | inl mock ↦ ground arith
        | inr not_mock ↦ elim (Bool-cases (str_eq config.provider (str "openai-compatible"))) [
          | inl compatible ↦
              after (parse_openai library config.openai environment)
                (λ openai. ok (record config { openai = openai })) {b = c} (ground arith)
                (λ openai e k. ground arith)
          | inr other ↦ elim (Bool-cases (str_eq config.provider (str "anthropic"))) [
            | inl claude ↦
                after (parse_anthropic library config.anthropic environment)
                  (λ anthropic. ok (record config { anthropic = anthropic })) {b = c} (ground arith)
                  (λ anthropic e k. ground arith)
            | inr unknown ↦ ground arith
          ]
        ]
      ]

  ai_lem :
      (environment : Str) {c : AiConfig Float}
      → parse_ai_config library (default_ai lookup library.tenth) environment lookup ≡ ok c
      → AiFits c
  unfolding parse_ai_config default_ai
  ai_lem environment h =
      after (refuse_modes library (default_ai lookup library.tenth) lookup) _ h (λ _ modes h0.
        after_number library.atoi lookup _ _ _ _ _ _ (omega arith) h0 (λ timeout htimeout h1.
          after_number library.atoi lookup _ _ _ _ _ _ (omega arith) h1 (λ tokens htokens h2.
            after
              (ranged library.atoi lookup (str "AI_CANDIDATE_COUNT")
                (str "invalid AI_CANDIDATE_COUNT: ") 1 3 1 1)
              _ h2
              (λ candidates ecandidates h3.
                after (temperature_of library lookup library.tenth) _ h3 (λ temperature _ h4.
                  after_number library.atoi lookup _ _ _ _ _ _ (omega arith) h4 (λ lines hlines h5.
                    after_number library.atoi lookup _ _ _ _ _ _ (omega arith) h5
                      (λ chars hchars h6. provider_lem _ environment h6 (record {
                        timeout_fits = htimeout;
                        tokens_fit = ground arith;
                        candidates_fit = ground (
                          arith,
                          ranged-Between library.atoi lookup (str "AI_CANDIDATE_COUNT")
                              (str "invalid AI_CANDIDATE_COUNT: ") 1 3 1 1 {v = candidates}
                              (omega arith) ecandidates,
                        );
                        lines_fit = ground arith;
                        chars_fit = ground arith;
                      }))))))))

  router_lem :
      (ai : AiConfig Float) (environment : Str) {c : RouterConfig Float}
      → parse_router_config library lookup (defaults lookup library).router ai environment ≡ ok c
      → Between 1 5 c.max_attempts × Between (1000 * millisecond) (60000 * millisecond) c.timeout
  unfolding parse_router_config defaults
  router_lem ai environment {c = c} h =
      let router = (defaults lookup library).router in
      after_number library.atoi lookup _ _ _ _ _ _ (omega arith) h (λ attempts hattempts h1.
        after_number library.atoi lookup _ _ _ _ _ _ (omega arith) h1 (λ timeout htimeout h2.
          after
            (if router.fallback_enabled
              then parse_fallback library lookup ai environment
              else ok router.fallback)
            _ {b = c} h2 (λ fallback _ h3. ground arith)))

  admission_lem :
      {r : RateLimitConfig} {q : UsageQuotaConfig}
      → parse_admission_config library lookup
          (defaults lookup library).rate_limit
          (defaults lookup library).usage_quota
        ≡ ok (r, q)
      → Between 1 10000 r.requests_per_minute
        × Between 1 1000 r.burst
        × Between 1 1000000 q.daily_requests
  unfolding parse_admission_config defaults
  admission_lem h =
      after_number library.atoi lookup _ _ _ _ _ _ (omega arith) h (λ requests hrequests h1.
        after_number library.atoi lookup _ _ _ _ _ _ (omega arith) h1 (λ burst hburst h2.
          after_number library.atoi lookup _ _ _ _ _ _ (omega arith) h2
            (λ daily hdaily h3. ground arith)))

-- A configuration that `parse` accepts has a known environment and log level, a host, a secret of at
-- least 32 bytes where tokens are used, which production requires, the settings that a database and
-- accounts need where one is enabled, and, within their ranges, the port, the version and lifetime of
-- tokens, the numbers for Redis, the database, accounts, quality, the rate limit, the quota and the
-- router, and those of the primary provider; its temperature and the limits of a fallback are left
-- out.
pub parse-IsValid :
    {Float : Type 0} (library : Library Float) (lookup : Str → Str) (c : Config Float)
    → parse library lookup ≡ ok c
    → IsValid c
unfolding parse defaults
parse-IsValid library lookup c h =
    let d = defaults lookup library in
    let atoi = library.atoi in
    after (refuse_if (d.redis.enabled && is_empty d.redis.addr) _) _ h (λ _ first h0.
      after (parse_redis_config atoi lookup d.redis) _ h0 (λ redis hredis h1.
        after (parse_database_config atoi lookup d.environment d.database d.account) _ h1
          (λ stored hstored h2.
            after_number atoi lookup _ _ _ _ _ _ (omega arith) h2 (λ port hport h3.
              after (refuse_server d) _ h3 (λ _ hserver h4.
                after (version_of atoi lookup (str "AUTH_TOKEN_VERSION") d.auth.version) _ h4
                  (λ version hversion h5.
                    after_number atoi lookup _ _ _ _ _ _ (omega arith) h5 (λ ttl httl h6.
                      after (refuse_auth d.environment d.auth) _ h6 (λ _ hauth h7.
                        after (parse_admin_config stored.0.enabled d.admin) _ h7 (λ _ hadmin h8.
                          after
                            (parse_quality_config atoi lookup stored.0.enabled d.auth.enabled
                              d.quality)
                            _ h8
                            (λ quality hquality h9.
                              after
                                (parse_admission_config library lookup d.rate_limit d.usage_quota) _
                                h9
                                (λ admission hadmission h10.
                                  after (parse_ai_config library d.ai d.environment lookup) _ h10
                                    (λ ai hai h11.
                                      after
                                        (parse_router_config library lookup d.router ai
                                          d.environment)
                                        _ h11
                                        (λ router hrouter h12.
                                          let server = server_lem d hserver in
                                          let (requests, burst, daily) =
                                            admission_lem library lookup hadmission in
                                          let (attempts, timeout) =
                                            router_lem library lookup ai d.environment hrouter in
                                          subst IsValid (ok-injective h12) (record {
                                            port_fits = ground arith;
                                            server_fits = record {
                                              environment_known = server.environment_known;
                                              host_set = server.host_set;
                                              log_level_known = server.log_level_known;
                                            };
                                            auth_fits =
                                                auth_lem d.environment d.auth version ttl hauth
                                                  (version_lem atoi lookup
                                                    (str "AUTH_TOKEN_VERSION") hversion)
                                                  (ground arith);
                                            redis_fits = redis_lem atoi lookup hredis first;
                                            storage_fits =
                                                database_lem atoi lookup d.environment hstored;
                                            quality_fits =
                                                quality_lem atoi lookup stored.0.enabled
                                                  d.auth.enabled d.quality refl refl hquality;
                                            admin_fits = admin_lem stored.0.enabled d.admin hadmin;
                                            requests_fit = requests;
                                            burst_fits = burst;
                                            daily_fits = daily;
                                            ai_fits = ai_lem library lookup d.environment hai;
                                            attempts_fit = attempts;
                                            router_timeout_fits = timeout;
                                          }))))))))))))))
