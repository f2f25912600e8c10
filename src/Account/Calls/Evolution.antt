-- ===== src/Account/Calls/Evolution.antt =====
-- How rows may change over any calls: what a row says for ever, and what is set once.
use deins_complete.Prelude.{◌≡◌, refl, sym, ap, ◌∙◌, ◌⊎◌, inl, inr, true, Option, none, some, false}
use deins_complete.Prelude.Text.{str, is_empty}
use deins_complete.Account.{Tables, Installation, Session, Invite, MagicCode}
use deins_complete.Account.Rows.{is_null}
use deins_complete.Account.Installations.{owner}
use deins_complete.Account.Rows.Growth.{Grows, Grows-refl, Grows-trans}

-- A column that is set once.
abbrev pub SetOnce {ℓ} : {A : Type ℓ} → Option A → Option A → Type ℓ
SetOnce before after = (before ≡ none) ⊎ (after ≡ before)

pub record LaterCode (x y : MagicCode) : Type 0 where
  pub same : y ≡ record x { consumed_at = y.consumed_at }
  pub consumed_at : SetOnce x.consumed_at y.consumed_at

pub record LaterInvite (x y : Invite) : Type 0 where
  pub same : y ≡ record x { used_at = y.used_at }
  pub used_at : SetOnce x.used_at y.used_at

pub record LaterSession (x y : Session) : Type 0 where
  pub same : y ≡ record x { revoked_at = y.revoked_at; last_used_at = y.last_used_at }
  pub revoked_at : SetOnce x.revoked_at y.revoked_at

-- An installation that has an owner keeps it, and one that is not active never is again.
pub record LaterInstallation (x y : Installation) : Type 0 where
  pub id : y.id ≡ x.id
  pub installation_key : y.installation_key ≡ x.installation_key
  pub user_id : (is_empty (owner x) ≡ true) ⊎ (y.user_id ≡ x.user_id)
  pub status : (x.status ≡ str "active") ⊎ (y.status ≡ x.status)
  pub usage_linked_at : SetOnce x.usage_linked_at y.usage_linked_at

pub record Evolves (s t : Tables) : Type 0 where
  pub users : Grows (λ x y. y ≡ x) s.users t.users
  pub plans : t.plans ≡ s.plans
  pub user_plans : Grows (λ x y. y.user_id ≡ x.user_id) s.user_plans t.user_plans
  pub installations : Grows LaterInstallation s.installations t.installations
  pub sessions : Grows LaterSession s.sessions t.sessions
  pub invites : Grows LaterInvite s.invites t.invites
  pub codes : Grows LaterCode s.codes t.codes

SetOnce-trans {ℓ} : {A : Type ℓ} {x y z : Option A} → SetOnce x y → SetOnce y z → SetOnce x z
SetOnce-trans (inl e) h = inl e
SetOnce-trans (inr e) (inl f) = inl (sym e ∙ f)
SetOnce-trans (inr e) (inr f) = inr (f ∙ e)

pub set_once : {A : Type 0} {o : Option A} {a : A} → SetOnce (some a) o → is_null o ≡ false
set_once (inl e) = cc
set_once (inr e) = rw e refl

pub LaterCode-refl : (x : MagicCode) → LaterCode x x
LaterCode-refl x = record { same = refl; consumed_at = inr refl }

LaterCode-trans : (x y z : MagicCode) → LaterCode x y → LaterCode y z → LaterCode x z
LaterCode-trans x y z a b = record {
  same = b.same ∙ ap (λ (c : MagicCode). record c { consumed_at = z.consumed_at }) a.same;
  consumed_at = SetOnce-trans a.consumed_at b.consumed_at;
}

pub LaterInvite-refl : (x : Invite) → LaterInvite x x
LaterInvite-refl x = record { same = refl; used_at = inr refl }

LaterInvite-trans : (x y z : Invite) → LaterInvite x y → LaterInvite y z → LaterInvite x z
LaterInvite-trans x y z a b = record {
  same = b.same ∙ ap (λ (c : Invite). record c { used_at = z.used_at }) a.same;
  used_at = SetOnce-trans a.used_at b.used_at;
}

pub LaterSession-refl : (x : Session) → LaterSession x x
LaterSession-refl x = record { same = refl; revoked_at = inr refl }

LaterSession-trans : (x y z : Session) → LaterSession x y → LaterSession y z → LaterSession x z
LaterSession-trans x y z a b = record {
  same =
      b.same
      ∙ ap (λ (c : Session). record c { revoked_at = z.revoked_at; last_used_at = z.last_used_at })
          a.same;
  revoked_at = SetOnce-trans a.revoked_at b.revoked_at;
}

pub LaterInstallation-refl : (x : Installation) → LaterInstallation x x
LaterInstallation-refl x = record {
  id = refl;
  installation_key = refl;
  user_id = inr refl;
  status = inr refl;
  usage_linked_at = inr refl;
}

owner_kept :
    (x y z : Installation)
    → (is_empty (owner x) ≡ true) ⊎ (y.user_id ≡ x.user_id)
    → (is_empty (owner y) ≡ true) ⊎ (z.user_id ≡ y.user_id)
    → (is_empty (owner x) ≡ true) ⊎ (z.user_id ≡ x.user_id)
unfolding owner
owner_kept x y z (inl e) h = inl e
owner_kept x y z (inr e) (inl f) = inl (rw e at f)
owner_kept x y z (inr e) (inr f) = inr (f ∙ e)

LaterInstallation-trans :
    (x y z : Installation) → LaterInstallation x y → LaterInstallation y z → LaterInstallation x z
LaterInstallation-trans x y z a b = record {
  id = b.id ∙ a.id;
  installation_key = b.installation_key ∙ a.installation_key;
  user_id = owner_kept x y z a.user_id b.user_id;
  status = elim a.status [
    | inl e ↦ inl e
    | inr e ↦ elim b.status [ inl f ↦ inl (sym e ∙ f) | inr f ↦ inr (f ∙ e) ]
  ];
  usage_linked_at = SetOnce-trans a.usage_linked_at b.usage_linked_at;
}

pub Evolves-refl : (t : Tables) → Evolves t t
Evolves-refl t = record {
  users = Grows-refl (λ _. refl) t.users;
  plans = refl;
  user_plans = Grows-refl (λ _. refl) t.user_plans;
  installations = Grows-refl LaterInstallation-refl t.installations;
  sessions = Grows-refl LaterSession-refl t.sessions;
  invites = Grows-refl LaterInvite-refl t.invites;
  codes = Grows-refl LaterCode-refl t.codes;
}

pub Evolves-trans : {s t u : Tables} → Evolves s t → Evolves t u → Evolves s u
Evolves-trans a b = record {
  users = Grows-trans (λ _ _ _ e f. f ∙ e) a.users b.users;
  plans = b.plans ∙ a.plans;
  user_plans = Grows-trans (λ _ _ _ e f. f ∙ e) a.user_plans b.user_plans;
  installations = Grows-trans LaterInstallation-trans a.installations b.installations;
  sessions = Grows-trans LaterSession-trans a.sessions b.sessions;
  invites = Grows-trans LaterInvite-trans a.invites b.invites;
  codes = Grows-trans LaterCode-trans a.codes b.codes;
}
