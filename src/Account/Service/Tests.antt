-- ===== src/Account/Service/Tests.antt =====
-- The theorems at the state of the tests of the tables, a mailer that keeps what it sends, and
-- methods that meet no failure.
use deins_complete.Prelude.{
  ℕ, ◌≡◌, ◌≢◌, refl, ap, true, false, false, none, some, List, [], ◌∷◌, arith,
}
use deins_complete.Prelude.Text.{Str, str, str_eq}
use deins_complete.Prelude.Text.Space.{trim_space}
use deins_complete.Prelude.Text.Search.{count, has_prefix, has_suffix}
use deins_complete.Prelude.Result.{ok, err}
use deins_complete.Prelude.Int.{add_int}
use deins_complete.Prelude.Map.{put}
use deins_complete.Auth.Installation.Tests.{crypto}
use deins_complete.Auth.Account.Tests as Access
use deins_complete.Auth.Account.{issue_access_token}
use deins_complete.Usage.Monthly
use deins_complete.Account.Rows.{exists, select, update, transaction, missing, insert}
use deins_complete.Account.Rows as Rows
use deins_complete.Account.{Session}
use mathlib.Core.List.{Memᴰ}
use deins_complete.Account.Users.{normalize_email, find_user_by_email}
use deins_complete.Account.Codes.{is_pending, consume_magic_code, create_magic_code}
use deins_complete.Account.Sessions.{
  is_active, is_unrevoked, same_session, created, insert_session, create_session, rotate_session,
  find_active_session,
}
use deins_complete.Account.Installations.{
  has_id, owner, is_unlinked, link_installation, mark_installation_usage_linked,
}
use deins_complete.Account.Calls.{run}
use deins_complete.Account.Calls.Valid.{Next}
use deins_complete.Account.Service.{
  Library, Service, World, Context, TokenPair, valid_email, pair, new_session, verify_magic_code,
  session_of, request_magic_code, refresh, merge_usage, link, send_code,
}
use deins_complete.Account.Service.Steps.{Request, asks_code, links, serve_all, serve_all-Next}
use deins_complete.Account.Service.Refresh.{refresh-once}
use deins_complete.Account.Service.SignIn.{SignedIn, verify_magic_code-SignedIn}
use deins_complete.Account.Service.RoundTrip.{verify-request}
use deins_complete.Account.Service.Linking.{link-once}
use deins_complete.Account.Tests.{lower, hash, working, user, tables, tables-IsValid, touched}

abbrev Mail : Type 0
Mail = List (Str × Str)

abbrev library : Library Mail
library = record {
  lower = lower;
  hash = hash;
  send_magic_code = λ email code sent. (none, (email, code) ∷ sent);
  crypto = crypto;
  json = Access.json;
  month = λ _. str "2026-01";
  next_month = λ _. 9;
}

abbrev service : Service
service = record {
  registration = str "open";
  refresh_ttl = 20;
  magic_ttl = 10;
  tokens = Access.service;
  has_mailer = true;
  has_monthly = true;
}

abbrev context : Str → Context
context token = record {
  now = 4;
  at = λ _. 4;
  faults = λ _. working;
  id = λ _. str "new";
  random = some token;
}

abbrev world : World Mail
world = record {
  tables = tables;
  mail = [];
  monthly = record {
    entries = put (str "2026-01:installation:i") 3 (λ _. none);
    migrations = λ _. none;
  };
}

abbrev requests : List (Context × Request)
requests =
    (context (str "x"), asks_code (str "a@b") [])
    ∷ (context (str "y"), links (str "u") (str "i"))
    ∷ []

serve_all-Next_example : Next tables (serve_all library service requests world).tables
serve_all-Next_example = serve_all-Next library service requests world tables-IsValid

abbrev pair_of : Str → TokenPair
pair_of raw = record { access_token = Access.token; refresh_token = raw }

refreshed :
    (refresh library service (context (str "z")) (str "old") world).0 ≡ ok (pair_of (str "z"))
unfolding refresh rotate_session find_active_session select is_active is_unrevoked insert_session
    exists update insert transaction pair issue_access_token str str_eq
refreshed = refl

abbrev later : World Mail
later = record (refresh library service (context (str "z")) (str "old") world).1 {
  tables =
      run lower touched (refresh library service (context (str "z")) (str "old") world).1.tables;
}

refresh-once_example :
    refresh library service (context (str "q")) (str "old") later ≡ (err (missing false), later)
refresh-once_example =
    refresh-once library service (context (str "z")) (context (str "q")) (str "old") world touched
      tables-IsValid refreshed

verified :
    (verify_magic_code library service (context (str "z")) (str "a@b") (str "code") world).0
    ≡ ok (pair_of (str "z"))
unfolding verify_magic_code valid_email normalize_email consume_magic_code find_user_by_email
    new_session create_session select is_pending insert_session exists update insert transaction
    pair issue_access_token str str_eq count has_prefix has_suffix trim_space
verified = refl

verify_magic_code-SignedIn_example :
    SignedIn library service
      (context (str "z"))
      (str "a@b")
      (str "code")
      tables
      (verify_magic_code library service
        (context (str "z"))
        (str "a@b")
        (str "code")
        world).1.tables
      (pair_of (str "z"))
verify_magic_code-SignedIn_example =
    verify_magic_code-SignedIn library service (context (str "z")) (str "a@b") (str "code") world
      (pair_of (str "z")) verified

some_ne : (n : ℕ) → some n ≢ none
some_ne n h = cc

merged :
    (link library service (context (str "z")) (str "u") (str "i") world).1.monthly ≢ world.monthly
unfolding link merge_usage link_installation mark_installation_usage_linked
    Monthly.merge_installation_into_user Monthly.migration Monthly.key transaction select has_id
    owner exists update Rows.count is_unlinked put str str_eq add_int
merged h = some_ne 3 (ap (λ (m : Monthly.InMemory). m.entries (str "2026-01:user:u")) h)

abbrev linked : World Mail
linked = record (link library service (context (str "z")) (str "u") (str "i") world).1 {
  tables =
      run lower touched
        (link library service (context (str "z")) (str "u") (str "i") world).1.tables;
}

link-once_example :
    (link library service (context (str "q")) (str "v") (str "i") linked).1.monthly ≡ linked.monthly
link-once_example =
    link-once library service (context (str "z")) (context (str "q")) (str "u") (str "v") (str "i")
      world touched tables-IsValid merged

valid : valid_email lower (str "a@b") ≡ true
unfolding valid_email normalize_email trim_space count has_prefix has_suffix str
valid = refl

normal :
    normalize_email lower (normalize_email lower (str "a@b")) ≡ normalize_email lower (str "a@b")
unfolding normalize_email trim_space str
normal = refl

known : find_user_by_email working lower (normalize_email lower (str "a@b")) tables ≡ ok user
unfolding find_user_by_email normalize_email trim_space select str str_eq
known = refl

given : str "x" ≢ []
unfolding str
given h = cc

sent : (request_magic_code library service (context (str "x")) (str "a@b") [] world).0 ≡ none
unfolding request_magic_code send_code valid_email normalize_email find_user_by_email
    create_magic_code trim_space count has_prefix has_suffix select exists insert transaction str
    str_eq
sent = refl

abbrev asked : World Mail
asked = (request_magic_code library service (context (str "x")) (str "a@b") [] world).1

new_session_is_new :
    exists
      (same_session (
        created 4 (str "new") (session_of library service (context (str "y")) (str "u") (str "y"))))
      tables.sessions
    ≡ false
unfolding exists str str_eq
new_session_is_new = refl

issued :
    issue_access_token library.crypto library.json service.tokens 4 (str "u") ≡ some Access.token
unfolding issue_access_token str
issued = refl

verify-request_example :
    let answer =
      verify_magic_code library service (context (str "y")) (str "a@b") (str "x") asked in
    (answer.0 ≡ ok (pair_of (str "y")))
    × ((session : Session) × Memᴰ session answer.1.tables.sessions
        × (session.user_id ≡ str "u")
        × (session.refresh_token_hash ≡ hash (str "y"))
        × (session.revoked_at ≡ none))
verify-request_example =
    verify-request library service (context (str "x")) (context (str "y")) (str "a@b") [] (str "x")
      (str "y") Access.token world user tables-IsValid valid normal known refl refl given sent
      (omega arith) refl refl refl refl new_session_is_new issued
