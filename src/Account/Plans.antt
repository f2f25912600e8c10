-- ===== src/Account/Plans.antt =====
-- api/internal/account/repository.go: the plans of users and installations.
use deins_complete.Prelude.{Bool, ◌&&◌, not, Option, none, some, List, [], ◌∷◌, ◌++◌, if◌then◌else◌}
use deins_complete.Prelude.Text.{Str, str, str_eq}
use deins_complete.Prelude.Result.{Result, ok, ◌>>=◌, ◌>>◌, refuse_if}
use deins_complete.Account.{
  Error, foreign_key_violation, Plan, UserPlan, Installation, Tables, Faults,
}
use deins_complete.Account.Rows.{exists, select, update, statement, transaction, found}
use deins_complete.Account.Users.{is_active_plan}
use deins_complete.Account.Installations.{is_active}

-- The plan with this id, where it is active.
abbrev pub is_offered : Str → Plan → Bool
is_offered id p = str_eq p.id id && str_eq p.status (str "active")

abbrev pub is_of : Str → UserPlan → Bool
is_of user e = str_eq user e.user_id

-- Its primary key makes it one row of user_entitlements at most.
unfoldable pub plan_of : Str → Tables → Option Plan
plan_of user t = elim (select (is_of user) t.user_plans) [
  | none ↦ none
  | some e ↦ select (is_offered e.plan_id) t.plans
]

abbrev pub default_plan : Str
default_plan = str "00000000-0000-0000-0000-000000000001"

-- COALESCE(e.plan_id, ...) after the left join of user_entitlements
unfoldable pub plan_id_of : Option Str → List UserPlan → Str
plan_id_of none rows = default_plan
plan_id_of (some user) rows = elim (select (is_of user) rows) [
  | none ↦ default_plan
  | some e ↦ e.plan_id
]

abbrev pub installation_plan : Option Installation → Tables → Option Plan
installation_plan none t = none
installation_plan (some i) t = select (is_offered (plan_id_of i.user_id t.user_plans)) t.plans

abbrev pub upsert : Str → Str → List UserPlan → List UserPlan
upsert user plan rows =
    if exists (is_of user) rows
    then update (is_of user) (λ e. record e { plan_id = plan }) rows
    else rows ++ record { user_id = user; plan_id = plan } ∷ []

module _ (faults : Faults) where
  -- ResolveEntitlementsForUser
  unfoldable pub resolve_entitlements_for_user : Str → Tables → Result Error Plan
  resolve_entitlements_for_user user t = do statement faults 0; found (plan_of user t)

  -- ResolveEntitlementsForInstallation
  unfoldable pub resolve_entitlements_for_installation : Str → Tables → Result Error Plan
  resolve_entitlements_for_installation id t = do
    statement faults 0
    found (installation_plan (select (is_active id) t.installations) t)

  -- SetUserPlan
  unfoldable pub set_user_plan : Str → Str → Tables → Result Error (Unit {0}) × Tables
  set_user_plan user code t = transaction t (do
    statement faults 0
    p ← found (select (is_active_plan code) t.plans)
    refuse_if (not (exists (λ u. str_eq u.id user) t.users)) foreign_key_violation
    ok (tt, record t { user_plans = upsert user p.id t.user_plans }))
