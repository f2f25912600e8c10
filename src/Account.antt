-- ===== src/Account.antt =====
-- api/internal/account: the users of the server, their codes, sessions and installations, in the
-- tables of api/internal/database/migrations. A row has the columns of its table, and a column that
-- may be NULL is an Option; times are nanoseconds since the epoch. Ids are the canonical texts of
-- UUIDs.
pub mod Rows
pub mod Users
pub mod Codes
pub mod Sessions
pub mod Installations
pub mod Plans
pub mod Calls
pub mod Admin
pub mod Service
mod Tests
use deins_complete.Prelude.{ℕ, Bool, true, false, Option, List}
use deins_complete.Prelude.Text.{Str}

pub data Error : Type 0 where
  not_found email_already_registered invite_invalid installation_owned : Error
  installation_revoked email_required code_required mailer_unavailable no_random : Error
  unencoded unsent : Error
  -- What PostgreSQL answers: a row that breaks a UNIQUE or a REFERENCES clause, or that it failed.
  unique_violation foreign_key_violation failed : Error

pub record User : Type 0 where
  pub id : Str
  pub email : Str
  pub email_normalized : Str
  pub display_name : Str
  pub status : Str
  pub created_at : ℕ
  pub updated_at : ℕ

pub record CreateUserParams : Type 0 where
  pub email : Str
  pub display_name : Str
  pub invite_code_hash : Str

pub record Plan : Type 0 where
  pub id : Str
  pub code : Str
  pub name : Str
  pub status : Str
  pub monthly_completions : ℕ
  pub repository_context : Bool
  pub streaming : Bool
  pub premium_routing : Bool

-- A row of user_entitlements.
pub record UserPlan : Type 0 where
  pub user_id : Str
  pub plan_id : Str

pub record Installation : Type 0 where
  pub id : Str
  pub installation_key : Str
  pub user_id : Option Str
  pub status : Str
  pub created_at : ℕ
  pub updated_at : ℕ
  pub last_seen_at : ℕ
  pub usage_linked_at : Option ℕ

pub record Session : Type 0 where
  pub id : Str
  pub user_id : Str
  pub refresh_token_hash : Str
  pub client_name : Str
  pub created_at : ℕ
  pub expires_at : ℕ
  pub last_used_at : ℕ
  pub revoked_at : Option ℕ

pub record Invite : Type 0 where
  pub id : Str
  pub code_hash : Str
  pub email : Option Str
  pub expires_at : ℕ
  pub created_at : ℕ
  pub used_at : Option ℕ

pub record MagicCode : Type 0 where
  pub id : Str
  pub email_normalized : Str
  pub token_hash : Str
  pub expires_at : ℕ
  pub created_at : ℕ
  pub consumed_at : Option ℕ

pub record Tables : Type 0 where
  pub users : List User
  pub plans : List Plan
  pub user_plans : List UserPlan
  pub installations : List Installation
  pub sessions : List Session
  pub invites : List Invite
  pub codes : List MagicCode

-- errors.Is(err, pgx.ErrNoRows) is the result none of a query; isUnique reads the code of an error.
unfoldable pub is_unique : Error → Bool
is_unique unique_violation = true
is_unique _ = false

-- Which statements of an operation fail, the first being 0: the connection is lost, the context is
-- done, or an argument is no UUID.
abbrev pub Faults : Type 0
Faults = ℕ → Bool
