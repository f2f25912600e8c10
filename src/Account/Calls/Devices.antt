-- ===== src/Account/Calls/Devices.antt =====
-- The methods that write installations keep the tables valid and let their rows evolve.
use mathlib.Core.List.{Memᴰ}
use deins_complete.Prelude.{
  ℕ, ◌≡◌, refl, sym, ap, ◌⊎◌, inl, inr, Bool, true, false, not, ◌&&◌, some, List, arith, Bool-cases,
  Option-cases,
}
use deins_complete.Prelude.Text.{Str, str, str_eq, str_eq_iff, str_eq_refl, is_empty}
use deins_complete.Prelude.Result.{ok, Ensures, Ensures_ok, ensures, refuse_if, refuse_if-eq_ok}
use deins_complete.Account.{Tables, Faults, Installation, installation_owned}
use deins_complete.Account.Rows.{exists, update, insert, select, found, found-eq_ok}
use deins_complete.Account.Rows.Growth.{select-Mem, Distinct-Mem}
use deins_complete.Account.Installations.{
  same_installation, owner, has_id, is_active, is_unlinked, is_owner, set_owner, set_status,
  insert_installation, find_installation_by_key, create_installation, ensure_installation,
  link_installation, mark_installation_usage_linked, revoke_installation, admin_revoke_installation,
  touch_installation,
}
use deins_complete.Account.Calls.Evolution.{LaterInstallation, LaterInstallation-refl}
use deins_complete.Account.Calls.Valid.{
  IsValid, Next, Next-refl, transaction-Next, insert-Grows, update-Part, same_installation_sym,
  installations-Next,
}
use deins_complete.Account.Calls.Credentials.{null_lem}

module _ {t : Tables} (v : IsValid t) where
  insert_installation-Next :
      (i : Installation) (after : Tables) → insert_installation i t ≡ ok after → Next t after
  insert_installation-Next i after e =
      let inserted : (rows : List Installation)
          → insert (same_installation i) i t.installations ≡ ok rows
          → Next t (record t { installations = rows }) =
        λ rows e'. installations-Next v (
          insert-Grows LaterInstallation same_installation i LaterInstallation-refl
            same_installation_sym v.installations e') in
      let inserts : Ensures (Next t) (insert_installation i t) = search (ensures, inserted) in
      Ensures_ok (Next t) inserts e

  -- An update of installations that changes neither key.
  update_installations-Next :
      (p : Installation → Bool) (f : Installation → Installation)
      → ((x : Installation) → Memᴰ x t.installations → p x ≡ true → LaterInstallation x (f x))
      → ((x : Installation) → (f x).id ≡ x.id)
      → ((x : Installation) → (f x).installation_key ≡ x.installation_key)
      → Next t (record t { installations = update p f t.installations })
  update_installations-Next p f h k l = installations-Next v (
      update-Part LaterInstallation same_installation p f t.installations LaterInstallation-refl h
        (λ x y. rw (k y, l y) refl) (λ x y. rw (k x, l x) refl) v.installations)

owner_lem :
    (user : Str) (x : Installation)
    → (not (is_empty (owner x)) && not (str_eq (owner x) user)) ≡ false
    → (is_empty (owner x) ≡ true) ⊎ (some user ≡ x.user_id)
unfolding owner
owner_lem user x h = elim (Option-cases x.user_id) [
  | inl e ↦ inl (rw e refl)
  | inr (u, e) ↦ elim (Bool-cases (is_empty u)) [
    | inl k ↦ inl (rw (e, k) refl)
    | inr k ↦ inr (rw e (ap some (sym ((str_eq_iff u user).0 (ground arith)))))
  ]
]

module _ (faults : Faults) (now : ℕ) {t : Tables} (v : IsValid t) where
  pub create_installation-Next : (id key : Str) → Next t (create_installation faults now id key t).1
  unfolding create_installation
  create_installation-Next id key =
      transaction-Next _ v (search (ensures, insert_installation-Next v))

  pub ensure_installation-Next : (id key : Str) → Next t (ensure_installation faults now id key t).1
  unfolding ensure_installation find_installation_by_key
  ensure_installation-Next id key =
      let same = Next-refl v in
      elim (Bool-cases (exists (λ i. str_eq i.installation_key key) t.installations)) [
        | inl e ↦ rw e (transaction-Next _ v (search (ensures, same) depth 8))
        | inr e ↦ rw e (transaction-Next _ v (search (ensures, insert_installation-Next v)))
      ]

  pub mark_installation_usage_linked-Next :
      (id : Str) → Next t (mark_installation_usage_linked faults now id t).1
  unfolding mark_installation_usage_linked is_unlinked
  mark_installation_usage_linked-Next id =
      let marked =
        update_installations-Next v (is_unlinked id)
          (λ i. record i { usage_linked_at = some now; updated_at = now })
          (λ x _ p. record {
            id = refl;
            installation_key = refl;
            user_id = inr refl;
            status = inr refl;
            usage_linked_at = inl (null_lem x.usage_linked_at (ground arith));
          })
          (λ _. refl) (λ _. refl) in
      transaction-Next _ v (search (ensures, marked))

  revoked-Next :
      (p : Installation → Bool)
      → ((x : Installation) → p x ≡ true → x.status ≡ str "active")
      → Next t
          (record t { installations = update p (set_status now (str "revoked")) t.installations })
  revoked-Next p h =
      update_installations-Next v p (set_status now (str "revoked"))
        (λ x _ e. record {
          id = refl;
          installation_key = refl;
          user_id = inr refl;
          status = inl (h x e);
          usage_linked_at = inr refl;
        })
        (λ _. refl) (λ _. refl)

  active_lem : (id : Str) (x : Installation) → is_active id x ≡ true → x.status ≡ str "active"
  unfolding is_active
  active_lem id x h = (str_eq_iff x.status (str "active")).0 (ground arith)

  pub revoke_installation-Next :
      (id user : Str) → Next t (revoke_installation faults now id user t).1
  unfolding revoke_installation
  revoke_installation-Next id user =
      let revoked =
        revoked-Next (λ i. is_active id i && is_owner user i.user_id)
          (λ x e. active_lem id x (ground arith)) in
      transaction-Next _ v (search (ensures, revoked) depth 8)

  pub admin_revoke_installation-Next :
      (id : Str) → Next t (admin_revoke_installation faults now id t).1
  unfolding admin_revoke_installation
  admin_revoke_installation-Next id =
      let revoked = revoked-Next (is_active id) (active_lem id) in
      transaction-Next _ v (search (ensures, revoked) depth 8)

  pub touch_installation-Next : (id : Str) → Next t (touch_installation faults now id t).1
  unfolding touch_installation
  touch_installation-Next id =
      let touched =
        update_installations-Next v (is_active id)
          (λ i. record i { last_seen_at = now; updated_at = now })
          (λ x _ p. record {
            id = refl;
            installation_key = refl;
            user_id = inr refl;
            status = inr refl;
            usage_linked_at = inr refl;
          })
          (λ _. refl) (λ _. refl) in
      transaction-Next _ v (search (ensures, touched))

  -- The row that is found is the only one with its id.
  same_lem :
      (id : Str) (i x : Installation)
      → select (has_id id) t.installations ≡ some i
      → Memᴰ x t.installations
      → has_id id x ≡ true
      → x ≡ i
  unfolding has_id
  same_lem id i x e m h =
      let (n, k) = select-Mem (has_id id) t.installations e in
      let one : x.id ≡ id = (str_eq_iff x.id id).0 h in
      let other : i.id ≡ id = (str_eq_iff i.id id).0 k in
      Distinct-Mem same_installation same_installation_sym t.installations v.installations m n
        (rw (one, other, str_eq_refl id) refl)

  linked-Next :
      (id user : Str) (i : Installation)
      → select (has_id id) t.installations ≡ some i
      → (not (is_empty (owner i)) && not (str_eq (owner i) user)) ≡ false
      → Next t
          (record t { installations = update (has_id id) (set_owner now user) t.installations })
  linked-Next id user i e free =
      let kept : (x : Installation)
          → Memᴰ x t.installations
          → has_id id x ≡ true
          → LaterInstallation x (set_owner now user x) =
        λ x m h. record {
          id = refl;
          installation_key = refl;
          status = inr refl;
          usage_linked_at = inr refl;
          user_id = owner_lem user x (rw (same_lem id i x e m h) free);
        } in
      update_installations-Next v (has_id id) (set_owner now user) kept (λ _. refl) (λ _. refl)

  pub link_installation-Next : (id user : Str) → Next t (link_installation faults now id user t).1
  unfolding link_installation
  link_installation-Next id user =
      let linked : (i : Installation) (u : Unit {0})
          → found (select (has_id id) t.installations) ≡ ok i
          → refuse_if (not (is_empty (owner i)) && not (str_eq (owner i) user)) installation_owned
            ≡ ok u
          → Next t (record t {
            installations = update (has_id id) (set_owner now user) t.installations;
          }) =
        λ i u e free. linked-Next id user i (found-eq_ok _ e) (refuse_if-eq_ok _ _ free) in
      transaction-Next _ v (search (ensures, linked) depth 20)
