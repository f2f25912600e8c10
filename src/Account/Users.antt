-- ===== src/Account/Users.antt =====
-- api/internal/account/repository.go: users and invites.
use deins_complete.Prelude.{
  ℕ, Bool, false, not, ◌&&◌, ◌||◌, Option, none, some, List, [], ltb, ◌==◌, if◌then◌else◌,
}
use deins_complete.Prelude.Text.{Str, str, str_eq, is_empty}
use deins_complete.Prelude.Text.Space.{trim_space}
use deins_complete.Prelude.Result.{Result, ok, err, ◌>>=◌, ◌>>◌, refuse_if}
use deins_complete.Account.{
  Error, email_required, invite_invalid, email_already_registered, is_unique, CreateUserParams,
  User, Invite, Plan, UserPlan, Tables, Faults,
}
use deins_complete.Account.Rows.{
  is_null, select, update, count, insert, statement, transaction, found,
}

-- NormalizeEmail; `lower` is strings.ToLower.
unfoldable pub normalize_email : (Str → Str) → Str → Str
normalize_email lower email = lower (trim_space email)

-- WHERE code_hash=$1 AND used_at IS NULL
unfoldable pub is_unused : Str → Invite → Bool
is_unused hash i = str_eq i.code_hash hash && is_null i.used_at

unfoldable pub is_usable : ℕ → Str → Invite → Bool
is_usable now hash i = str_eq i.code_hash hash && is_null i.used_at && ltb now i.expires_at

-- Whether an invite that is bound to an email is bound to another one.
abbrev pub is_bound_elsewhere : Option Str → Str → Bool
is_bound_elsewhere none email = false
is_bound_elsewhere (some bound) email = not (str_eq bound email)

abbrev pub check_found : Option Invite → Str → Result Error (Unit {0})
check_found none email = err invite_invalid
check_found (some i) email = refuse_if (is_bound_elsewhere i.email email) invite_invalid

unfoldable pub check_invite : Faults → ℕ → Str → Str → Tables → Result Error (Unit {0})
check_invite faults now hash email t =
    if is_empty hash
    then ok tt
    else statement faults 1 >> check_found (select (is_usable now hash) t.invites) email

abbrev pub same_user : User → User → Bool
same_user a b = str_eq a.id b.id || str_eq a.email_normalized b.email_normalized

abbrev pub registered : {A : Type 0} → Result Error A → Result Error A
registered (ok a) = ok a
registered (err e) = err (if is_unique e then email_already_registered else e)

unfoldable pub insert_user : Faults → User → Tables → Result Error Tables
insert_user faults user t = registered (do
  statement faults 2
  users ← insert (same_user user) user t.users
  ok (record t { users = users }))

-- WHERE code=$1 AND status='active'
unfoldable pub is_active_plan : Str → Plan → Bool
is_active_plan code p = str_eq p.code code && str_eq p.status (str "active")

-- INSERT INTO user_entitlements of the free plan, where there is one.
abbrev pub free_plan : Str → Option Plan → List UserPlan → Result Error (List UserPlan)
free_plan user none rows = ok rows
free_plan user (some p) rows =
    insert (λ e. str_eq user e.user_id) (record { user_id = user; plan_id = p.id }) rows

unfoldable pub insert_entitlement : Faults → Str → Tables → Result Error Tables
insert_entitlement faults user t = do
  statement faults 3
  rows ← free_plan user (select (is_active_plan (str "free")) t.plans) t.user_plans
  ok (record t { user_plans = rows })

abbrev pub use_invite : ℕ → Invite → Invite
use_invite now i = record i { used_at = some now }

unfoldable pub consume_invite : Faults → ℕ → Str → Tables → Result Error Tables
consume_invite faults now hash t = if is_empty hash then ok t else do
  statement faults 4
  refuse_if (not (count (is_unused hash) t.invites == 1)) invite_invalid
  ok (record t { invites = update (is_unused hash) (use_invite now) t.invites })

abbrev pub same_invite : Invite → Invite → Bool
same_invite a b = str_eq a.id b.id || str_eq a.code_hash b.code_hash

-- The email column, NULL for an empty text.
abbrev pub null_if_empty : Str → Option Str
null_if_empty email = if is_empty email then none else some email

module _ (faults : Faults) where
  -- FindUserByEmail
  unfoldable pub find_user_by_email : (Str → Str) → Str → Tables → Result Error User
  find_user_by_email lower email t = do
    statement faults 0
    found (select (λ u. str_eq u.email_normalized (normalize_email lower email)) t.users)

  -- FindUserByID
  unfoldable pub find_user_by_id : Str → Tables → Result Error User
  find_user_by_id id t = do statement faults 0; found (select (λ u. str_eq u.id id) t.users)

module _ (lower : Str → Str) (faults : Faults) (now : ℕ) where
  abbrev pub new_user : Str → Str → CreateUserParams → User
  new_user id email p = record {
    id = id;
    email = trim_space p.email;
    email_normalized = email;
    display_name = trim_space p.display_name;
    status = str "active";
    created_at = now;
    updated_at = now;
  }

  -- CreateUser; `id` is the new UUID.
  unfoldable pub create_user : Str → CreateUserParams → Tables → Result Error User × Tables
  create_user id p t =
      let email = normalize_email lower p.email in
      let user = new_user id email p in
      transaction t (do
        refuse_if (is_empty email) email_required
        statement faults 0
        check_invite faults now p.invite_code_hash email t
        inserted ← insert_user faults user t
        entitled ← insert_entitlement faults id inserted
        consumed ← consume_invite faults now p.invite_code_hash entitled
        statement faults 5
        ok (user, consumed))

  abbrev pub new_invite : Str → Str → Str → ℕ → Invite
  new_invite id hash email expires_at = record {
    id = id;
    code_hash = hash;
    email = null_if_empty (if is_empty email then [] else normalize_email lower email);
    expires_at = expires_at;
    created_at = now;
    used_at = none;
  }

  -- CreateInvite
  unfoldable pub create_invite : Str → Str → Str → ℕ → Tables → Result Error Invite × Tables
  create_invite id hash email expires_at t =
      let invite = new_invite id hash email expires_at in
      transaction t (do
        statement faults 0
        invites ← insert (same_invite invite) invite t.invites
        ok (invite, record t { invites = invites }))
