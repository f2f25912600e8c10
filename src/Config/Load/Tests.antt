-- ===== src/Config/Load/Tests.antt =====
-- The theorem at an environment that sets the port.
use deins_complete.Prelude.{◌≡◌, refl, false, none, some, [], if◌then◌else◌}
use deins_complete.Prelude.Int.{pos}
use deins_complete.Prelude.Text.{Str, str, str_eq}
use deins_complete.Prelude.Result.{ok}
use deins_complete.Config.Types.{Config}
use deins_complete.Config.Read.{Library, value_or_default, ranged, version_of, not_a_flag}
use deins_complete.Config.Provider.{refuse_modes, temperature_of, parse_provider, parse_ai_config}
use deins_complete.Config.Storage.{
  parse_redis_config, parse_database_config, parse_quality_config, parse_admin_config,
}
use deins_complete.Config.Routing.{no_ai, parse_admission_config, parse_router_config}
use deins_complete.Config.Load.{
  default_ai, default_redis, default_database, default_account, defaults, refuse_server,
  refuse_auth, parse,
}
use deins_complete.Config.Load.Valid.{IsValid, parse-IsValid}

abbrev lookup : Str → Str
lookup key = if str_eq key (str "PORT") then str "8080" else []

-- Numbers are 8080, and temperatures are not computed with.
abbrev library : Library (Unit {0})
library = record {
  atoi = λ _. some (pos 8080);
  parse_float = λ _. none;
  less = λ _ _. false;
  zero_float = tt;
  two = tt;
  tenth = tt;
  parse_url = λ _. none;
}

abbrev settings : Config (Unit {0})
settings = record (defaults lookup library) { port = 8080 }

settings_parsed : parse library lookup ≡ ok settings
unfolding parse defaults default_ai default_redis default_database default_account refuse_server
    refuse_auth parse_redis_config parse_database_config parse_quality_config parse_admin_config
    parse_admission_config parse_router_config no_ai refuse_modes temperature_of parse_provider
    parse_ai_config value_or_default ranged version_of not_a_flag str str_eq
settings_parsed = refl

parse-IsValid_example : IsValid settings
parse-IsValid_example = parse-IsValid library lookup settings settings_parsed
