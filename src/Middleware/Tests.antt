-- ===== src/Middleware/Tests.antt =====
-- The theorem at a server with every part but a monthly quota, and a request with a token.
use deins_complete.Prelude.{◌≡◌, refl, true, false, none, some, []}
use deins_complete.Prelude.Text.{Str, str, str_eq}
use deins_complete.Prelude.Text.Search.{has_prefix, split}
use deins_complete.Prelude.Map.{empty}
use deins_complete.Prelude.Result.{ok}
use deins_complete.Prelude.Int.{add_int, gt_int}
use deins_complete.Prelude.Float.{
  exponent, float_one, nearest, rounded_from, doublings, rounded, to_float, sub_float, of_float,
}
use deins_complete.RateLimit
use deins_complete.Usage.Daily
use deins_complete.Auth.Envelope.{decode_canonical, seal, unseal}
use deins_complete.Auth.Installation.{validate, refuses_claims}
use deins_complete.Auth.Installation.Tests.{crypto, json, service, token}
use deins_complete.Middleware.{
  Incoming, Repository, World, Clock, Handler, guarded, only, first_valid, credentials, auth,
  rate_limit, quota, installation_status, require_linked_account, entitlements,
}
use deins_complete.Middleware.Chain.{
  Wiring, Parts, after_account, after_quota, protected, completions,
}
use deins_complete.Middleware.Admission.{Admitted, completions-Admitted}

abbrev repo : Repository (Unit {0})
repo = record {
  ensure_installation =
      λ id r. (some (record { id = str "1"; user_id = str "u"; status = str "active" }), r);
  resolve_entitlements = λ id r. some (record { monthly_completions = 100 });
}

abbrev wiring : Wiring
wiring = record {
  enabled = true;
  has_limiter = true;
  has_tracker = true;
  has_repo = true;
  has_monthly = false;
  account_required = true;
}

abbrev parts : Parts (Unit {0})
parts = record {
  crypto = crypto;
  json = json;
  service = service;
  repo = repo;
  month = λ _. [];
  next_month = λ now. now;
}

abbrev clock : Clock
clock = record {
  auth_at = 6000000000;
  limiter_at = 6000000001;
  tracker_at = 6000000002;
  monthly_at = 6000000003;
}

abbrev world : World (Unit {0})
world = record {
  limiter = record { buckets = empty; per_minute = 60; burst = 2 };
  tracker = record { entries = empty; daily = 3 };
  monthly = record { entries = empty; migrations = empty };
  repository = tt;
}

abbrev asked : Incoming
asked = record {
  authorization = [];
  installation_token = token;
  identity = none;
  installation = none;
  entitlements = none;
}

abbrev answer : Handler (Unit {0}) Str
answer r w = (ok (str "1;"), w)

asked_answered : (completions wiring parts clock answer asked world).0 ≡ ok (str "1;")
unfolding completions protected after_quota after_account guarded only auth first_valid credentials
    has_prefix validate unseal split decode_canonical seal refuses_claims str str_eq rate_limit
    quota RateLimit.allow to_float sub_float rounded rounded_from doublings nearest float_one
    exponent of_float Daily.check_and_consume add_int gt_int installation_status
    require_linked_account entitlements
asked_answered = refl

completions-Admitted_example :
    (seen : Incoming) × (w' : World (Unit {0})) × ((answer seen w').0 ≡ ok (str "1;"))
    × Admitted wiring parts clock asked world seen
completions-Admitted_example =
    completions-Admitted wiring parts clock answer asked world (str "1;") refl asked_answered
