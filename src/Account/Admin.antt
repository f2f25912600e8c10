-- ===== src/Account/Admin.antt =====
-- api/internal/account/repository.go: what an administrator is shown. `like` is LIKE of PostgreSQL,
-- given the text and the pattern, and `sql_lower` its lower; rows that an ORDER BY does not tell
-- apart stay in the order of the table.
use deins_complete.Prelude.{
  ℕ, Bool, true, false, not, ◌&&◌, ◌||◌, ltb, Option, none, some, List, [], ◌∷◌, ◌++◌, map, take,
  if◌then◌else◌, max,
}
use deins_complete.Prelude.Int.{ℤ, pos, negsuc}
use deins_complete.Prelude.Text.{Str, str, str_eq, is_empty}
use deins_complete.Prelude.Result.{Result, ok, ◌>>◌}
use deins_complete.Account.{Error, User, Plan, UserPlan, Installation, Invite, Tables, Faults}
use deins_complete.Account.Rows.{is_null, select, select_all, count, order_by, statement}
use deins_complete.Account.Users.{normalize_email}
use deins_complete.Account.Installations.{owner, is_owner}
use deins_complete.Account.Plans.{is_of}

pub record AdminSummary : Type 0 where
  pub users : ℕ
  pub linked_installations : ℕ
  pub active_installations : ℕ
  pub pending_invites : ℕ

pub record AdminUser : Type 0 where
  pub id : Str
  pub email : Str
  pub status : Str
  pub plan : Str
  pub created_at : ℕ
  pub installations : ℕ
  pub last_seen_at : Option ℕ

pub record AdminInstallation : Type 0 where
  pub id : Str
  pub user_id : Str
  pub email : Str
  pub status : Str
  pub created_at : ℕ
  pub last_seen_at : ℕ

pub record AdminInvite : Type 0 where
  pub id : Str
  pub email : Str
  pub expires_at : ℕ
  pub created_at : ℕ
  pub used_at : Option ℕ

-- How many rows are shown where a limit of an int is asked for.
unfoldable pub page : ℤ → ℕ
page (negsuc n) = 100
page (pos n) = if ltb n 1 || ltb 200 n then 100 else n

-- max(last_seen_at), NULL where there is no row
unfoldable pub last_seen : List Installation → Option ℕ
last_seen [] = none
last_seen (i ∷ is) = elim (last_seen is) [
  | none ↦ some i.last_seen_at
  | some t ↦ some (max i.last_seen_at t)
]

-- COALESCE(p.code,'free') after the left joins
unfoldable pub plan_code : Option UserPlan → List Plan → Str
plan_code none plans = str "free"
plan_code (some e) plans = elim (select (λ p. str_eq p.id e.plan_id) plans) [
  | none ↦ str "free"
  | some p ↦ p.code
]

abbrev pub text_or_empty : Option Str → Str
text_or_empty none = []
text_or_empty (some s) = s

unfoldable pub show_user : Tables → User → AdminUser
show_user t u =
    let own = select_all (λ i. is_owner u.id i.user_id) t.installations in
    record {
      id = u.id;
      email = u.email;
      status = u.status;
      plan = plan_code (select (is_of u.id) t.user_plans) t.plans;
      created_at = u.created_at;
      installations = count (λ _. true) own;
      last_seen_at = last_seen own;
    }

-- max(i.last_seen_at) DESC NULLS LAST, u.created_at DESC
unfoldable pub shown_later : Option ℕ → ℕ → Option ℕ → ℕ → Bool
shown_later none a none b = ltb a b
shown_later none a (some y) b = true
shown_later (some x) a none b = false
shown_later (some x) a (some y) b = ltb x y || (not (ltb y x) && ltb a b)

abbrev pub email_of : Option User → Str
email_of none = []
email_of (some u) = u.email

unfoldable pub show_installation : Tables → Installation → AdminInstallation
show_installation t i = record {
  id = i.id;
  user_id = owner i;
  email = email_of (select (λ u. is_owner u.id i.user_id) t.users);
  status = i.status;
  created_at = i.created_at;
  last_seen_at = i.last_seen_at;
}

unfoldable pub show_invite : Invite → AdminInvite
show_invite i = record {
  id = i.id;
  email = text_or_empty i.email;
  expires_at = i.expires_at;
  created_at = i.created_at;
  used_at = i.used_at;
}

module _ (faults : Faults) where
  unfoldable pub admin_summary : ℕ → Tables → Result Error AdminSummary
  admin_summary now t = do
    statement faults 0
    ok (record {
      users = count (λ _. true) t.users;
      linked_installations = count (λ i. not (is_null i.user_id)) t.installations;
      active_installations = count (λ i. str_eq i.status (str "active")) t.installations;
      pending_invites = count (λ i. is_null i.used_at && ltb now i.expires_at) t.invites;
    })

  unfoldable pub admin_list_users :
      (Str → Str → Bool)
      → (Str → Str)
      → (Str → Str)
      → Str
      → ℤ
      → Tables
      → Result Error (List AdminUser)
  admin_list_users like sql_lower lower query limit t = do
    statement faults 0
    let pattern = str "%" ++ normalize_email lower query ++ str "%"
    let matching = select_all (λ u. like (sql_lower u.email) pattern) t.users
    ok (
        take (page limit) (
          order_by (λ a b. shown_later a.last_seen_at a.created_at b.last_seen_at b.created_at)
            (map (show_user t) matching)))

  unfoldable pub admin_list_installations : Str → ℤ → Tables → Result Error (List AdminInstallation)
  admin_list_installations user limit t = do
    statement faults 0
    let wanted = select_all (λ i. is_empty user || is_owner user i.user_id) t.installations
    ok (
        take (page limit)
          (order_by (λ a b. ltb a.last_seen_at b.last_seen_at) (map (show_installation t) wanted)))

  unfoldable pub admin_list_invites : ℤ → Tables → Result Error (List AdminInvite)
  admin_list_invites limit t = do
    statement faults 0
    ok (
        take (page limit)
          (order_by (λ a b. ltb a.created_at b.created_at) (map show_invite t.invites)))
