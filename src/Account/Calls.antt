-- ===== src/Account/Calls.antt =====
-- api/internal/account/repository.go: what the tables go through. A call is one method that writes,
-- with the time of the database and the statements that fail.
pub mod Evolution
pub mod Valid
pub mod Credentials
pub mod Devices
pub mod Members
pub mod History
pub mod Once
pub mod Rotation
pub mod Ownership
use deins_complete.Prelude.{ℕ, List, [], ◌∷◌}
use deins_complete.Prelude.Text.{Str}
use deins_complete.Account.{Tables, Faults, CreateUserParams, Session}
use deins_complete.Account.Users.{create_user, create_invite}
use deins_complete.Account.Codes.{create_magic_code, consume_magic_code}
use deins_complete.Account.Sessions.{create_session, rotate_session, revoke_session}
use deins_complete.Account.Installations.{
  create_installation, ensure_installation, link_installation, mark_installation_usage_linked,
  revoke_installation, admin_revoke_installation, touch_installation,
}
use deins_complete.Account.Plans.{set_user_plan}

pub data Action : Type 0 where
  creates_user : Str → CreateUserParams → Action
  creates_invite : Str → Str → Str → ℕ → Action
  creates_code : Str → Str → Str → ℕ → Action
  consumes_code : Str → Action
  creates_session : Str → Session → Action
  rotates_session : Str → Str → Session → Action
  revokes_session : Str → Action
  creates_installation : Str → Str → Action
  ensures_installation : Str → Str → Action
  links_installation : Str → Str → Action
  marks_installation : Str → Action
  revokes_installation : Str → Str → Action
  revokes_as_admin : Str → Action
  touches_installation : Str → Action
  sets_plan : Str → Str → Action

pub record Call : Type 0 where
  pub faults : Faults
  pub now : ℕ
  pub action : Action

module _ (lower : Str → Str) where
  unfoldable pub act : Faults → ℕ → Action → Tables → Tables
  act faults now (creates_user id p) t = (create_user lower faults now id p t).1
  act faults now (creates_invite id hash email expires_at) t =
      (create_invite lower faults now id hash email expires_at t).1
  act faults now (creates_code id email hash expires_at) t =
      (create_magic_code faults now lower id email hash expires_at t).1
  act faults now (consumes_code hash) t = (consume_magic_code faults now hash t).1
  act faults now (creates_session id s) t = (create_session faults now id s t).1
  act faults now (rotates_session id old s) t = (rotate_session faults now id old s t).1
  act faults now (revokes_session hash) t = (revoke_session faults now hash t).1
  act faults now (creates_installation id key) t = (create_installation faults now id key t).1
  act faults now (ensures_installation id key) t = (ensure_installation faults now id key t).1
  act faults now (links_installation id user) t = (link_installation faults now id user t).1
  act faults now (marks_installation id) t = (mark_installation_usage_linked faults now id t).1
  act faults now (revokes_installation id user) t = (revoke_installation faults now id user t).1
  act faults now (revokes_as_admin id) t = (admin_revoke_installation faults now id t).1
  act faults now (touches_installation id) t = (touch_installation faults now id t).1
  act faults now (sets_plan user code) t = (set_user_plan faults user code t).1

  -- The tables after all calls, in this order.
  unfoldable pub run : List Call → Tables → Tables
  run [] t = t
  run (c ∷ cs) t = run cs (act c.faults c.now c.action t)
