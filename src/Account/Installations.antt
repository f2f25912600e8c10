-- ===== src/Account/Installations.antt =====
-- api/internal/account/repository.go: installations.
use deins_complete.Prelude.{
  ℕ, Bool, false, ◌&&◌, ◌||◌, not, Option, none, some, List, [], if◌then◌else◌, ◌==◌, ltb,
}
use deins_complete.Prelude.Text.{Str, str, str_eq, is_empty}
use deins_complete.Prelude.Result.{Result, ok, ◌>>=◌, ◌>>◌, refuse_if}
use deins_complete.Account.{
  Error, not_found, foreign_key_violation, installation_revoked, installation_owned, Installation,
  Tables, Faults,
}
use deins_complete.Account.Rows.{
  is_null, exists, select, select_all, order_by, update, count, insert, statement, transaction,
  found,
}

abbrev pub same_installation : Installation → Installation → Bool
same_installation a b = str_eq a.id b.id || str_eq a.installation_key b.installation_key

abbrev pub new_installation : ℕ → Str → Str → Installation
new_installation now id key = record {
  id = id;
  installation_key = key;
  user_id = none;
  status = str "active";
  created_at = now;
  updated_at = now;
  last_seen_at = now;
  usage_linked_at = none;
}

abbrev pub insert_installation : Installation → Tables → Result Error Tables
insert_installation i t = do
  installations ← insert (same_installation i) i t.installations
  ok (record t { installations = installations })

-- COALESCE(user_id::text,'')
unfoldable pub owner : Installation → Str
owner i = elim i.user_id [ none ↦ [] | some user ↦ user ]

-- user_id=$1, which NULL never is
abbrev pub is_owner : Str → Option Str → Bool
is_owner user none = false
is_owner user (some u) = str_eq u user

abbrev pub set_owner : ℕ → Str → Installation → Installation
set_owner now user i = record i { user_id = some user; updated_at = now; last_seen_at = now }

abbrev pub set_status : ℕ → Str → Installation → Installation
set_status now status i = record i { status = status; updated_at = now }

unfoldable pub has_id : Str → Installation → Bool
has_id id i = str_eq i.id id

unfoldable pub is_active : Str → Installation → Bool
is_active id i = has_id id i && str_eq i.status (str "active")

unfoldable pub is_unlinked : Str → Installation → Bool
is_unlinked id i = has_id id i && is_null i.usage_linked_at

module _ (faults : Faults) where
  unfoldable pub find_installation_by_key : ℕ → Str → Tables → Result Error Installation
  find_installation_by_key k key t = do
    statement faults k
    found (select (λ i. str_eq i.installation_key key) t.installations)

  unfoldable pub find_installation_by_id : Str → Tables → Result Error Installation
  find_installation_by_id id t = do statement faults 0; found (select (has_id id) t.installations)

  -- ListInstallations
  unfoldable pub list_installations : Str → Tables → Result Error (List Installation)
  list_installations user t = do
    statement faults 0
    ok (
        order_by (λ a b. ltb b.created_at a.created_at)
          (select_all (λ i. is_owner user i.user_id) t.installations))

module _ (faults : Faults) (now : ℕ) where
  abbrev pub existing : Str → Tables → Result Error (Installation × Tables)
  existing key t = do i ← find_installation_by_key faults 1 key t; ok (i, t)

  abbrev pub fresh : Str → Str → Tables → Result Error (Installation × Tables)
  fresh id key t = do
    after ← insert_installation (new_installation now id key) t
    ok (new_installation now id key, after)

  -- CreateInstallation
  unfoldable pub create_installation : Str → Str → Tables → Result Error Installation × Tables
  create_installation id key t = transaction t (statement faults 0 >> fresh id key t)

  -- EnsureInstallation: ON CONFLICT only concerns the key.
  unfoldable pub ensure_installation : Str → Str → Tables → Result Error Installation × Tables
  ensure_installation id key t =
      let taken = exists (λ i. str_eq i.installation_key key) t.installations in
      transaction t (statement faults 0 >> (if taken then existing key t else fresh id key t))

  -- LinkInstallation
  unfoldable pub link_installation : Str → Str → Tables → Result Error Installation × Tables
  link_installation id user t = transaction t (do
    statement faults 0
    statement faults 1
    i ← found (select (has_id id) t.installations)
    refuse_if (not (str_eq i.status (str "active"))) installation_revoked
    refuse_if (not (is_empty (owner i)) && not (str_eq (owner i) user)) installation_owned
    statement faults 2
    refuse_if (not (exists (λ u. str_eq u.id user) t.users)) foreign_key_violation
    statement faults 3
    ok (
      record i { user_id = some user },
      record t { installations = update (has_id id) (set_owner now user) t.installations },
    ))

  -- MarkInstallationUsageLinked
  unfoldable pub mark_installation_usage_linked : Str → Tables → Result Error Bool × Tables
  mark_installation_usage_linked id t = transaction t (do
    statement faults 0
    ok (
      count (is_unlinked id) t.installations == 1,
      record t {
        installations =
            update (is_unlinked id) (λ i. record i { usage_linked_at = some now; updated_at = now })
              t.installations;
      },
    ))

  -- RevokeInstallation
  unfoldable pub revoke_installation : Str → Str → Tables → Result Error (Unit {0}) × Tables
  revoke_installation id user t =
      let mine = λ (i : Installation). is_active id i && is_owner user i.user_id in
      transaction t (do
        statement faults 0
        refuse_if (count mine t.installations == 0) not_found
        ok (
          tt,
          record t { installations = update mine (set_status now (str "revoked")) t.installations },
        ))

  -- AdminRevokeInstallation
  unfoldable pub admin_revoke_installation : Str → Tables → Result Error (Unit {0}) × Tables
  admin_revoke_installation id t = transaction t (do
    statement faults 0
    refuse_if (count (is_active id) t.installations == 0) not_found
    ok (
      tt,
      record t {
        installations = update (is_active id) (set_status now (str "revoked")) t.installations;
      },
    ))

  -- TouchInstallation
  unfoldable pub touch_installation : Str → Tables → Result Error (Unit {0}) × Tables
  touch_installation id t = transaction t (do
    statement faults 0
    ok (
      tt,
      record t {
        installations =
            update (is_active id) (λ i. record i { last_seen_at = now; updated_at = now })
              t.installations;
      },
    ))
