-- ===== src/Account/Calls/Ownership.antt =====
-- What is final of an installation: its owner, its revocation, and that its usage was merged.
use mathlib.Core.List.{Memᴰ}
use deins_complete.Prelude.{
  ℕ, ◌≡◌, ◌≢◌, refl, ◌∙◌, ◌⊎◌, inl, inr, true, false, none, some, List, [], if◌then◌else◌, arith,
  Bool-cases, ◌==◌,
}
use deins_complete.Prelude.Text.{Str, str, str_eq, str_eq_iff, str_eq_refl, is_empty, is_empty_iff}
use deins_complete.Prelude.Result.{ok, err, ensures}
use deins_complete.Account.{failed, Tables, Faults, Installation}
use deins_complete.Account.Rows.{
  update, count, transaction, is_null, select, found, found-eq_ok, missing,
}
use deins_complete.Account.Rows.Growth.{
  Mem-update, select-Mem, Grows-select, Grows-Mem, Distinct-select, count-Mem, select-count,
}
use deins_complete.Account.Installations.{
  same_installation, owner, has_id, is_active, is_unlinked, set_owner, set_status,
  link_installation, find_installation_by_id, mark_installation_usage_linked,
  admin_revoke_installation,
}
use deins_complete.Account.Plans.{resolve_entitlements_for_installation}
use deins_complete.Account.Calls.{Call, run}
use deins_complete.Account.Calls.Evolution.{set_once}
use deins_complete.Account.Calls.Valid.{IsValid, transaction-Ensures, same_installation_sym}
use deins_complete.Account.Calls.Devices.{
  link_installation-Next, mark_installation_usage_linked-Next, admin_revoke_installation-Next,
}
use deins_complete.Account.Calls.History.{run-Next}

has_id_same :
    (id : Str) (y z : Installation) → y.id ≡ id → has_id id z ≡ true → same_installation y z ≡ true
unfolding has_id
has_id_same id y z e h =
    let same = (str_eq_iff z.id id).0 h in
    let equal : str_eq y.id z.id ≡ true = rw (e, same) (str_eq_refl id) in ground arith

has_id_of : (id : Str) (y : Installation) → y.id ≡ id → has_id id y ≡ true
unfolding has_id
has_id_of id y e = rw e (str_eq_refl id)

linked_lem :
    (faults : Faults) (now : ℕ) (id user : Str) (t : Tables) {i : Installation}
    → (link_installation faults now id user t).0 ≡ ok i
    → (x : Installation) × (x.id ≡ id)
      × Memᴰ (set_owner now user x) (link_installation faults now id user t).1.installations
unfolding link_installation has_id
linked_lem faults now id user t h =
    let linked : (x : Installation)
        → found (select (has_id id) t.installations) ≡ ok x
        → (x : Installation) × (x.id ≡ id)
          × Memᴰ (set_owner now user x) (update (has_id id) (set_owner now user) t.installations) =
      λ x e.
        let (m, p) = select-Mem (has_id id) t.installations (found-eq_ok _ e) in
        (
          x,
          (str_eq_iff x.id id).0 p,
          Mem-update (has_id id) (set_owner now user) t.installations m p,
        ) in
    transaction-Ensures
      (λ _ after.
        (x : Installation) × (x.id ≡ id) × Memᴰ (set_owner now user x) after.installations)
      t _ (search (ensures, linked) depth 20) h

kept_owner :
    (user : Str) (y : Installation)
    → user ≢ []
    → (is_empty user ≡ true) ⊎ (y.user_id ≡ some user)
    → y.user_id ≡ some user
kept_owner user y h (inl e) = absurd (ground (arith, (is_empty_iff user).1 h))
kept_owner user y h (inr e) = e

-- An installation that was linked to a user is found with this user as its owner, whatever calls are
-- made afterwards on valid tables, where the id of the user is not empty.
pub link_installation-owner :
    (lower : Str → Str) (faults : Faults) (now : ℕ) (id user : Str) (t : Tables) (calls : List Call)
    {i : Installation}
    → IsValid t
    → user ≢ []
    → (link_installation faults now id user t).0 ≡ ok i
    → (x : Installation) × (find_installation_by_id
          (λ _. false)
          id
          (run lower calls (link_installation faults now id user t).1)
        ≡ ok x)
      × (x.user_id ≡ some user)
unfolding find_installation_by_id owner
link_installation-owner lower faults now id user t calls v given h =
    let (x, same, m) = linked_lem faults now id user t h in
    let all = run-Next lower calls (link_installation-Next faults now v id user).valid in
    let (y, n, l) = Grows-Mem m all.evolves.installations in
    let known : y.id ≡ id = l.id ∙ same in
    let one =
      Distinct-select same_installation (has_id id) same_installation_sym all.valid.installations n
        (has_id_of id y known) (λ z k. has_id_same id y z known k) in
    (y, rw one refl, kept_owner user y given l.user_id)

marked_lem :
    (faults : Faults) (now : ℕ) (id : Str) (t : Tables)
    → (mark_installation_usage_linked faults now id t).0 ≡ ok true
    → (x : Installation) × (x.id ≡ id)
      × Memᴰ
          (record x { usage_linked_at = some now; updated_at = now })
          (mark_installation_usage_linked faults now id t).1.installations
unfolding mark_installation_usage_linked is_unlinked has_id transaction
marked_lem faults now id t h = elim (Bool-cases (faults 0)) [
  | inl e ↦ absurd (ground arith)
  | inr e ↦
      let some_row : count (is_unlinked id) t.installations ≢ 0 = λ z. ground arith in
      let (x, m, p) = count-Mem (is_unlinked id) t.installations some_row in
      (
        x,
        (str_eq_iff x.id id).0 (ground arith),
        rw e (
            Mem-update (is_unlinked id)
              (λ i. record i { usage_linked_at = some now; updated_at = now }) t.installations m p),
      )
]

remarked_lem :
    (faults : Faults) (now : ℕ) (id : Str) (t : Tables)
    → select (is_unlinked id) t.installations ≡ none
    → (mark_installation_usage_linked faults now id t).0
      ≡ (if faults 0 then err failed else ok false)
unfolding mark_installation_usage_linked transaction
remarked_lem faults now id t h = elim (Bool-cases (faults 0)) [
  | inl e ↦ rw e refl
  | inr e ↦ rw (e, select-count (is_unlinked id) t.installations h) refl
]

linked_fails :
    (id : Str) (y : Installation) → is_null y.usage_linked_at ≡ false → is_unlinked id y ≡ false
unfolding is_unlinked
linked_fails id y h = ground arith

unlinked_id : (id : Str) (z : Installation) → is_unlinked id z ≡ true → has_id id z ≡ true
unfolding is_unlinked
unlinked_id id z h = ground arith

-- That the usage of an installation is to be merged is answered once: whatever calls are made on
-- valid tables after it was, the next one answers no, unless the database fails.
pub mark_installation_usage_linked-once :
    (lower : Str → Str) (faults faults' : Faults) (now now' : ℕ) (id : Str) (t : Tables)
    (calls : List Call)
    → IsValid t
    → (mark_installation_usage_linked faults now id t).0 ≡ ok true
    → (mark_installation_usage_linked faults' now' id
        (run lower calls (mark_installation_usage_linked faults now id t).1)).0
      ≡ (if faults' 0 then err failed else ok false)
mark_installation_usage_linked-once lower faults faults' now now' id t calls v h =
    let (x, same, m) = marked_lem faults now id t h in
    let all = run-Next lower calls (mark_installation_usage_linked-Next faults now v id).valid in
    remarked_lem faults' now' id _ (
      Grows-select same_installation (is_unlinked id) same_installation_sym
        all.evolves.installations all.valid.installations m
        (λ y l. linked_fails id y (set_once l.usage_linked_at))
        (λ y z l k. has_id_same id y z (l.id ∙ same) (unlinked_id id z k)))

revoked_lem :
    (faults : Faults) (now : ℕ) (id : Str) (t : Tables)
    → (admin_revoke_installation faults now id t).0 ≡ ok tt
    → (x : Installation) × (x.id ≡ id)
      × Memᴰ
          (set_status now (str "revoked") x)
          (admin_revoke_installation faults now id t).1.installations
unfolding admin_revoke_installation is_active has_id transaction
revoked_lem faults now id t h = elim (Bool-cases (faults 0)) [
  | inl e ↦ absurd (ground arith)
  | inr e ↦ elim (Bool-cases (count (is_active id) t.installations == 0)) [
    | inl k ↦ absurd (ground arith)
    | inr k ↦
        let (x, m, p) = count-Mem (is_active id) t.installations (λ z. ground arith) in
        (
          x,
          (str_eq_iff x.id id).0 (ground arith),
          rw (e, k)
              (Mem-update (is_active id) (set_status now (str "revoked")) t.installations m p),
        )
  ]
]

unresolved_lem :
    (faults : Faults) (id : Str) (t : Tables)
    → select (is_active id) t.installations ≡ none
    → resolve_entitlements_for_installation faults id t ≡ err (missing (faults 0))
unfolding resolve_entitlements_for_installation
unresolved_lem faults id t h = elim (Bool-cases (faults 0)) [
  | inl e ↦ rw e refl
  | inr e ↦ rw (e, h) refl
]

not_active : str_eq (str "revoked") (str "active") ≡ false
unfolding str str_eq
not_active = refl

revoked_fails :
    (id : Str) (y : Installation)
    → (str "revoked" ≡ str "active") ⊎ (y.status ≡ str "revoked")
    → is_active id y ≡ false
unfolding is_active
revoked_fails id y (inl e) = absurd (ground (arith, not_active, str_eq_refl (str "active")))
revoked_fails id y (inr e) =
    let other : str_eq y.status (str "active") ≡ false = rw e not_active in ground arith

active_id : (id : Str) (z : Installation) → is_active id z ≡ true → has_id id z ≡ true
unfolding is_active
active_id id z h = ground arith

-- An installation that an administrator has revoked has no plan, whatever calls are made afterwards
-- on valid tables.
pub admin_revoke_installation-final :
    (lower : Str → Str) (faults faults' : Faults) (now : ℕ) (id : Str) (t : Tables)
    (calls : List Call)
    → IsValid t
    → (admin_revoke_installation faults now id t).0 ≡ ok tt
    → resolve_entitlements_for_installation faults' id
        (run lower calls (admin_revoke_installation faults now id t).1)
      ≡ err (missing (faults' 0))
admin_revoke_installation-final lower faults faults' now id t calls v h =
    let (x, same, m) = revoked_lem faults now id t h in
    let all = run-Next lower calls (admin_revoke_installation-Next faults now v id).valid in
    unresolved_lem faults' id _ (
      Grows-select same_installation (is_active id) same_installation_sym all.evolves.installations
        all.valid.installations m (λ y l. revoked_fails id y l.status)
        (λ y z l k. has_id_same id y z (l.id ∙ same) (active_id id z k)))
