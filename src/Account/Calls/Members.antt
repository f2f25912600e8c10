-- ===== src/Account/Calls/Members.antt =====
-- The methods that write users, invites and plans keep the tables valid and let their rows evolve.
use deins_complete.Prelude.{
  ℕ, ◌≡◌, refl, inl, inr, Option, none, some, List, [], ◌∷◌, arith, Bool-cases,
}
use deins_complete.Prelude.Text.{Str, str, is_empty}
use deins_complete.Prelude.Result.{
  Result, ok, Ensures, Ensures_ok, ensures, of_ok, of_err, ok-injective,
}
use deins_complete.Account.{Error, Tables, Faults, User, Plan, Invite, UserPlan, CreateUserParams}
use deins_complete.Account.Rows.{exists, update, insert, select}
use deins_complete.Account.Rows.Growth.{Grows-append, Distinct-append}
use deins_complete.Account.Users.{
  same_user, same_invite, is_unused, use_invite, insert_user, insert_entitlement, free_plan,
  consume_invite, registered, create_user, create_invite, is_active_plan,
}
use deins_complete.Account.Plans.{is_of, upsert, set_user_plan}
use deins_complete.Account.Calls.Evolution.{LaterInvite, LaterInvite-refl}
use deins_complete.Account.Calls.Valid.{
  IsValid, Next, Next-refl, Next-trans, transaction-Next, insert-Grows, update-Part, same_user_sym,
  same_user_plan, same_user_plan_sym, same_invite_sym, users-Next, user_plans-Next, invites-Next,
}
use deins_complete.Account.Calls.Credentials.{null_lem}

registered-Ensures :
    {A : Type 0} {P : A → Type 0} {m : Result Error A} → Ensures P m → Ensures P (registered m)
registered-Ensures (of_ok p) = of_ok p
registered-Ensures of_err = of_err

module _ {t : Tables} (v : IsValid t) where
  insert_user-Next :
      (faults : Faults) (user : User) (after : Tables)
      → insert_user faults user t ≡ ok after
      → Next t after
  unfolding insert_user
  insert_user-Next faults user after e =
      let inserted : (rows : List User)
          → insert (same_user user) user t.users ≡ ok rows
          → Next t (record t { users = rows }) =
        λ rows e'.
          users-Next v (insert-Grows _ same_user user (λ _. refl) same_user_sym v.users e') in
      Ensures_ok (Next t) (registered-Ensures (search (ensures, inserted))) e

  free_plan-Next :
      (user : Str) (p : Option Plan) (rows : List UserPlan)
      → free_plan user p t.user_plans ≡ ok rows
      → Next t (record t { user_plans = rows })
  free_plan-Next user none rows e = rw⁻¹ (ok-injective e) (Next-refl v)
  free_plan-Next user (some p) rows e =
      let row : UserPlan = record { user_id = user; plan_id = p.id } in
      user_plans-Next v
        (insert-Grows _ same_user_plan row (λ _. refl) same_user_plan_sym v.user_plans e)

  insert_entitlement-Next :
      (faults : Faults) (user : Str) (after : Tables)
      → insert_entitlement faults user t ≡ ok after
      → Next t after
  unfolding insert_entitlement
  insert_entitlement-Next faults user after e =
      let inserted = free_plan-Next user (select (is_active_plan (str "free")) t.plans) in
      let inserts : Ensures (Next t) (insert_entitlement faults user t) =
        search (ensures, inserted) in
      Ensures_ok (Next t) inserts e

  consume_invite-Next :
      (faults : Faults) (now : ℕ) (hash : Str) (after : Tables)
      → consume_invite faults now hash t ≡ ok after
      → Next t after
  unfolding consume_invite is_unused
  consume_invite-Next faults now hash after e =
      let consumed : Next t
          (record t { invites = update (is_unused hash) (use_invite now) t.invites }) =
        invites-Next v (
          update-Part LaterInvite same_invite (is_unused hash) (use_invite now) t.invites
            LaterInvite-refl
            (λ x _ p. record { same = refl; used_at = inl (null_lem x.used_at (ground arith)) })
            (λ _ _. refl) (λ _ _. refl) v.invites) in
      let same = Next-refl v in
      elim (Bool-cases (is_empty hash)) [
        | inl k ↦ rw⁻¹ (ok-injective (rw k at e)) same
        | inr k ↦
            let consumes : Ensures (Next t) (consume_invite faults now hash t) =
              rw k (search (ensures, consumed) depth 8) in
            Ensures_ok (Next t) consumes e
      ]

module _ (lower : Str → Str) (faults : Faults) (now : ℕ) {t : Tables} (v : IsValid t) where
  pub create_user-Next :
      (id : Str) (p : CreateUserParams) → Next t (create_user lower faults now id p t).1
  unfolding create_user
  create_user-Next id p =
      let consumed : (user : User) (a b c : Tables)
          → insert_user faults user t ≡ ok a
          → insert_entitlement faults id a ≡ ok b
          → consume_invite faults now p.invite_code_hash b ≡ ok c
          → Next t c =
        λ user a b c e f g.
          let first = insert_user-Next v faults user a e in
          let second = insert_entitlement-Next first.valid faults id b f in
          Next-trans first (
            Next-trans second
              (consume_invite-Next second.valid faults now p.invite_code_hash c g)) in
      transaction-Next _ v (search (ensures, consumed) depth 20)

  pub create_invite-Next :
      (id hash email : Str) (expires_at : ℕ)
      → Next t (create_invite lower faults now id hash email expires_at t).1
  unfolding create_invite
  create_invite-Next id hash email expires_at =
      let inserted : (invite : Invite) (rows : List Invite)
          → insert (same_invite invite) invite t.invites ≡ ok rows
          → Next t (record t { invites = rows }) =
        λ invite rows e. invites-Next v (
          insert-Grows LaterInvite same_invite invite LaterInvite-refl same_invite_sym v.invites
            e) in
      transaction-Next _ v (search (ensures, inserted))

module _ {t : Tables} (v : IsValid t) where
  upsert-Next : (user plan : Str) → Next t (record t { user_plans = upsert user plan t.user_plans })
  upsert-Next user plan = elim (Bool-cases (exists (is_of user) t.user_plans)) [
    | inl e ↦ rw e (
        user_plans-Next v (
          update-Part _ same_user_plan (is_of user) (λ e. record e { plan_id = plan }) t.user_plans
            (λ _. refl) (λ _ _ _. refl) (λ _ _. refl) (λ _ _. refl) v.user_plans))
    | inr e ↦
        let row : UserPlan = record { user_id = user; plan_id = plan } in
        rw e (
          user_plans-Next v (
            Grows-append (λ _. refl) t.user_plans (row ∷ []),
            Distinct-append same_user_plan same_user_plan_sym row t.user_plans e v.user_plans,
          ))
  ]

  pub set_user_plan-Next :
      (faults : Faults) (user code : Str) → Next t (set_user_plan faults user code t).1
  unfolding set_user_plan
  set_user_plan-Next faults user code =
      let set = upsert-Next user in transaction-Next _ v (search (ensures, set) depth 10)
