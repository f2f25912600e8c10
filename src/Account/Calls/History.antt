-- ===== src/Account/Calls/History.antt =====
-- What the tables keep over any calls.
use deins_complete.Prelude.{ℕ, List, [], ◌∷◌}
use deins_complete.Prelude.Text.{Str}
use deins_complete.Account.{Tables, Faults}
use deins_complete.Account.Calls.{
  Action, Call, creates_user, creates_invite, creates_code, consumes_code, creates_session,
  rotates_session, revokes_session, creates_installation, ensures_installation, links_installation,
  marks_installation, revokes_installation, revokes_as_admin, touches_installation, sets_plan, act,
  run,
}
use deins_complete.Account.Calls.Valid.{IsValid, Next, Next-refl, Next-trans}
use deins_complete.Account.Calls.Credentials.{
  create_magic_code-Next, consume_magic_code-Next, create_session-Next, rotate_session-Next,
  revoke_session-Next,
}
use deins_complete.Account.Calls.Devices.{
  create_installation-Next, ensure_installation-Next, link_installation-Next,
  mark_installation_usage_linked-Next, revoke_installation-Next, admin_revoke_installation-Next,
  touch_installation-Next,
}
use deins_complete.Account.Calls.Members.{create_user-Next, create_invite-Next, set_user_plan-Next}

module _ (lower : Str → Str) where
  act-Next :
      (faults : Faults) (now : ℕ) (a : Action) {t : Tables}
      → IsValid t
      → Next t (act lower faults now a t)
  unfolding act
  act-Next faults now (creates_user id p) v = create_user-Next lower faults now v id p
  act-Next faults now (creates_invite id hash email expires_at) v =
      create_invite-Next lower faults now v id hash email expires_at
  act-Next faults now (creates_code id email hash expires_at) v =
      create_magic_code-Next faults now v lower id email hash expires_at
  act-Next faults now (consumes_code hash) v = consume_magic_code-Next faults now v hash
  act-Next faults now (creates_session id s) v = create_session-Next faults now v id s
  act-Next faults now (rotates_session id old s) v = rotate_session-Next faults now v id old s
  act-Next faults now (revokes_session hash) v = revoke_session-Next faults now v hash
  act-Next faults now (creates_installation id key) v = create_installation-Next faults now v id key
  act-Next faults now (ensures_installation id key) v = ensure_installation-Next faults now v id key
  act-Next faults now (links_installation id user) v = link_installation-Next faults now v id user
  act-Next faults now (marks_installation id) v =
      mark_installation_usage_linked-Next faults now v id
  act-Next faults now (revokes_installation id user) v =
      revoke_installation-Next faults now v id user
  act-Next faults now (revokes_as_admin id) v = admin_revoke_installation-Next faults now v id
  act-Next faults now (touches_installation id) v = touch_installation-Next faults now v id
  act-Next faults now (sets_plan user code) v = set_user_plan-Next v faults user code

  -- Whatever calls are made in order, with whatever statements failing, valid tables stay valid and
  -- every row is followed by a later state of itself: no row goes away or changes its unique
  -- values, what is set once is not changed again, and an installation keeps its owner and is not
  -- activated again.
  pub run-Next : (cs : List Call) {t : Tables} → IsValid t → Next t (run lower cs t)
  unfolding run
  run-Next [] v = Next-refl v
  run-Next (c ∷ cs) v =
      let first = act-Next c.faults c.now c.action v in Next-trans first (run-Next cs first.valid)
