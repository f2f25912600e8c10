-- ===== src/Account/Tests.antt =====
-- The theorems at one user with a code, a session and an installation.
use deins_complete.Prelude.{◌≡◌, ◌≢◌, refl, true, false, none, some, List, [], ◌∷◌, ◌++◌, arith}
use deins_complete.Prelude.Text.{Str, str, str_eq}
use deins_complete.Prelude.Result.{ok, err}
use deins_complete.Account.{Tables, Faults, User, Plan, Installation, Session, MagicCode}
use deins_complete.Account.Rows.{exists, select, update, insert, count, transaction, missing}
use deins_complete.Account.Codes.{is_pending, consume_magic_code}
use deins_complete.Account.Sessions.{
  is_active, is_unrevoked, insert_session, rotate_session, find_active_session,
}
use deins_complete.Account.Installations as Installations
use deins_complete.Account.Installations.{
  has_id, owner, link_installation, find_installation_by_id, admin_revoke_installation,
}
use deins_complete.Account.Plans.{resolve_entitlements_for_installation}
use deins_complete.Account.Calls.Rotation.{rotate_session-active}
use deins_complete.Account.Calls.Ownership.{
  link_installation-owner, admin_revoke_installation-final,
}
use deins_complete.Account.Calls.{Call, touches_installation, run}
use deins_complete.Account.Calls.Valid.{IsValid, Next}
use deins_complete.Account.Calls.History.{run-Next}
use deins_complete.Account.Calls.Once.{consume_magic_code-once}

abbrev pub lower : Str → Str
lower s = s

abbrev pub hash : Str → Str
hash s = str "h" ++ s

abbrev pub working : Faults
working _ = false

abbrev pub user : User
user = record {
  id = str "u";
  email = str "a@b";
  email_normalized = str "a@b";
  display_name = [];
  status = str "active";
  created_at = 1;
  updated_at = 1;
}

abbrev pub free : Plan
free = record {
  id = str "00000000-0000-0000-0000-000000000001";
  code = str "free";
  name = str "Free";
  status = str "active";
  monthly_completions = 2000;
  repository_context = false;
  streaming = true;
  premium_routing = false;
}

abbrev pub code : MagicCode
code = record {
  id = str "c";
  email_normalized = str "a@b";
  token_hash = hash (str "code");
  expires_at = 9;
  created_at = 1;
  consumed_at = none;
}

abbrev pub session : Session
session = record {
  id = str "s";
  user_id = str "u";
  refresh_token_hash = hash (str "old");
  client_name = str "vscode-extension";
  created_at = 1;
  expires_at = 9;
  last_used_at = 1;
  revoked_at = none;
}

abbrev pub installation : Installation
installation = record {
  id = str "i";
  installation_key = str "k";
  user_id = none;
  status = str "active";
  created_at = 1;
  updated_at = 1;
  last_seen_at = 1;
  usage_linked_at = none;
}

abbrev pub tables : Tables
tables = record {
  users = user ∷ [];
  plans = free ∷ [];
  user_plans = record { user_id = str "u"; plan_id = free.id } ∷ [];
  installations = installation ∷ [];
  sessions = session ∷ [];
  invites = [];
  codes = code ∷ [];
}

pub tables-IsValid : IsValid tables
unfolding exists
tables-IsValid = record {
  users = (refl, tt);
  user_plans = (refl, tt);
  installations = (refl, tt);
  sessions = (refl, tt);
  invites = tt;
  codes = (refl, tt);
}

abbrev pub touched : List Call
touched = record { faults = working; now = 5; action = touches_installation (str "i") } ∷ []

run-Next_example : Next tables (run lower touched tables)
run-Next_example = run-Next lower touched tables-IsValid

consumed : (consume_magic_code working 3 (hash (str "code")) tables).0 ≡ ok (str "a@b")
unfolding consume_magic_code transaction select is_pending str str_eq
consumed = refl

consume_magic_code-once_example :
    consume_magic_code working 6
      (hash (str "code"))
      (run lower touched (consume_magic_code working 3 (hash (str "code")) tables).1)
    ≡ (
      err (missing false),
      run lower touched (consume_magic_code working 3 (hash (str "code")) tables).1,
    )
consume_magic_code-once_example =
    consume_magic_code-once lower working working 3 6 (hash (str "code")) tables touched
      tables-IsValid consumed

abbrev next : Session
next = record {
  id = str "t";
  user_id = [];
  refresh_token_hash = hash (str "new");
  client_name = str "vscode-extension";
  created_at = 0;
  expires_at = 30;
  last_used_at = 0;
  revoked_at = none;
}

abbrev rotated : Session
rotated = record next { user_id = str "u"; created_at = 3; last_used_at = 3 }

is_rotated : (rotate_session working 3 (str "t") (hash (str "old")) next tables).0 ≡ ok rotated
unfolding rotate_session insert_session exists select update insert transaction is_active
    is_unrevoked str str_eq
is_rotated = refl

rotate_session-active_example :
    (x y : Session) × (find_active_session (λ _. false) 3 (hash (str "old")) tables ≡ ok x)
    × (find_active_session
          (λ _. false)
          20
          (hash (str "new"))
          (rotate_session working 3 (str "t") (hash (str "old")) next tables).1
        ≡ ok y)
    × (y.user_id ≡ x.user_id)
rotate_session-active_example =
    rotate_session-active working 3 20 (str "t") (hash (str "old")) next tables tables-IsValid
      is_rotated (omega arith)

is_linked :
    (link_installation working 3 (str "i") (str "u") tables).0
    ≡ ok (record installation { user_id = some (str "u") })
unfolding link_installation has_id owner exists select update transaction str str_eq
is_linked = refl

given : str "u" ≢ []
unfolding str
given h = cc

link_installation-owner_example :
    (x : Installation) × (find_installation_by_id
        (λ _. false)
        (str "i")
        (run lower touched (link_installation working 3 (str "i") (str "u") tables).1)
      ≡ ok x)
    × (x.user_id ≡ some (str "u"))
link_installation-owner_example =
    link_installation-owner lower working 3 (str "i") (str "u") tables touched tables-IsValid given
      is_linked

is_revoked : (admin_revoke_installation working 3 (str "i") tables).0 ≡ ok tt
unfolding admin_revoke_installation Installations.is_active has_id count update transaction str
    str_eq
is_revoked = refl

admin_revoke_installation-final_example :
    resolve_entitlements_for_installation working
      (str "i")
      (run lower touched (admin_revoke_installation working 3 (str "i") tables).1)
    ≡ err (missing false)
admin_revoke_installation-final_example =
    admin_revoke_installation-final lower working working 3 (str "i") tables touched tables-IsValid
      is_revoked
