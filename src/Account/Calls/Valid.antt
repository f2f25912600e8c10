-- ===== src/Account/Calls/Valid.antt =====
-- The unique columns of the tables, and what one statement or transaction keeps of them.
use mathlib.Core.List.{Memᴰ}
use deins_complete.Prelude.{◌≡◌, refl, inl, inr, Bool, true, List, [], ◌∷◌, ◌++◌, arith, Bool-cases}
use deins_complete.Prelude.Text.{str_eq, str_eq_sym}
use deins_complete.Prelude.Result.{Result, ok, err, Ensures, of_ok, ok-injective}
use deins_complete.Account.{Error, Tables, User, UserPlan, Installation, Session, Invite, MagicCode}
use deins_complete.Account.Rows.{exists, update, insert, transaction}
use deins_complete.Account.Rows.Growth.{
  Grows, Grows-append, Grows-update, Distinct, Distinct-append, Distinct-update,
}
use deins_complete.Account.Users.{same_user, same_invite}
use deins_complete.Account.Codes.{same_code}
use deins_complete.Account.Sessions.{same_session}
use deins_complete.Account.Installations.{same_installation}
use deins_complete.Account.Calls.Evolution.{
  Evolves, Evolves-refl, Evolves-trans, LaterCode, LaterInvite, LaterSession, LaterInstallation,
}

abbrev pub same_user_plan : UserPlan → UserPlan → Bool
same_user_plan a b = str_eq a.user_id b.user_id

abbrev pub Part : {A : Type 0} → (A → A → Type 0) → (A → A → Bool) → List A → List A → Type 0
Part R clash before after = Grows R before after × Distinct clash after

-- The PRIMARY KEY and UNIQUE clauses.
pub record IsValid (t : Tables) : Type 0 where
  pub users : Distinct same_user t.users
  pub user_plans : Distinct same_user_plan t.user_plans
  pub installations : Distinct same_installation t.installations
  pub sessions : Distinct same_session t.sessions
  pub invites : Distinct same_invite t.invites
  pub codes : Distinct same_code t.codes

pub record Next (s t : Tables) : Type 0 where
  pub evolves : Evolves s t
  pub valid : IsValid t

pub Next-refl : {t : Tables} → IsValid t → Next t t
Next-refl v = record { evolves = Evolves-refl _; valid = v }

pub Next-trans : {s t u : Tables} → Next s t → Next t u → Next s u
Next-trans a b = record { evolves = Evolves-trans a.evolves b.evolves; valid = b.valid }

-- A transaction keeps what its body and a rollback keep.
pub transaction-Next :
    {A : Type 0} {t : Tables} (body : Result Error (A × Tables))
    → IsValid t
    → Ensures (λ r. Next t r.1) body
    → Next t (transaction t body).1
unfolding transaction
transaction-Next (ok r) v (of_ok h) = h
transaction-Next (err e) v h = Next-refl v

-- What the body ensures of its result and the tables after it.
pub transaction-Ensures :
    {A : Type 0} (P : A → Tables → Type 0) (t : Tables) {a : A} (body : Result Error (A × Tables))
    → Ensures (λ r. P r.0 r.1) body
    → (transaction t body).0 ≡ ok a
    → P a (transaction t body).1
unfolding transaction
transaction-Ensures P t (ok r) (of_ok p) e = rw⁻¹ (ok-injective e) p
transaction-Ensures P t (err x) p e = cc

pub insert-Grows :
    {A : Type 0} (R : A → A → Type 0) (clash : A → A → Bool) (row : A) {rows rows' : List A}
    → ((x : A) → R x x)
    → ((x y : A) → clash x y ≡ clash y x)
    → Distinct clash rows
    → insert (clash row) row rows ≡ ok rows'
    → Part R clash rows rows'
unfolding insert
insert-Grows R clash row {rows = rows} {rows' = rows'} r s d h =
    elim (Bool-cases (exists (clash row) rows)) [
      | inl e ↦ absurd (ground arith)
      | inr e ↦
          let same : rows ++ row ∷ [] ≡ rows' = ground arith in
          let part : Part R clash rows (rows ++ row ∷ []) =
            (Grows-append r rows (row ∷ []), Distinct-append clash s row rows e d) in
          rw same at part
    ]

-- An update that makes rows later and changes no unique value.
pub update-Part :
    {A : Type 0} (R : A → A → Type 0) (clash : A → A → Bool) (p : A → Bool) (f : A → A)
    (rows : List A)
    → ((x : A) → R x x)
    → ((x : A) → Memᴰ x rows → p x ≡ true → R x (f x))
    → ((x y : A) → clash x (f y) ≡ clash x y)
    → ((x y : A) → clash (f x) y ≡ clash x y)
    → Distinct clash rows
    → Part R clash rows (update p f rows)
update-Part R clash p f rows r h k l d =
    (Grows-update p f rows r h, Distinct-update clash p f rows k l d)

pub same_user_sym : (x y : User) → same_user x y ≡ same_user y x
same_user_sym x y = rw (str_eq_sym x.id y.id, str_eq_sym x.email_normalized y.email_normalized) refl

pub same_invite_sym : (x y : Invite) → same_invite x y ≡ same_invite y x
same_invite_sym x y = rw (str_eq_sym x.id y.id, str_eq_sym x.code_hash y.code_hash) refl

pub same_code_sym : (x y : MagicCode) → same_code x y ≡ same_code y x
same_code_sym x y = rw (str_eq_sym x.id y.id, str_eq_sym x.token_hash y.token_hash) refl

pub same_session_sym : (x y : Session) → same_session x y ≡ same_session y x
same_session_sym x y =
    rw (str_eq_sym x.id y.id, str_eq_sym x.refresh_token_hash y.refresh_token_hash) refl

pub same_installation_sym : (x y : Installation) → same_installation x y ≡ same_installation y x
same_installation_sym x y =
    rw (str_eq_sym x.id y.id, str_eq_sym x.installation_key y.installation_key) refl

pub same_user_plan_sym : (x y : UserPlan) → same_user_plan x y ≡ same_user_plan y x
same_user_plan_sym x y = str_eq_sym x.user_id y.user_id

-- A table that is changed, the others being left alone.
module _ {t : Tables} (v : IsValid t) where
  change :
      {us : List User} {ps : List UserPlan} {is : List Installation} {ss : List Session}
      {vs : List Invite} {cs : List MagicCode}
      → Part (λ x y. y ≡ x) same_user t.users us
      → Part (λ x y. y.user_id ≡ x.user_id) same_user_plan t.user_plans ps
      → Part LaterInstallation same_installation t.installations is
      → Part LaterSession same_session t.sessions ss
      → Part LaterInvite same_invite t.invites vs
      → Part LaterCode same_code t.codes cs
      → Next t (record t {
        users = us;
        user_plans = ps;
        installations = is;
        sessions = ss;
        invites = vs;
        codes = cs;
      })
  change (gu, du) (gp, dp) (gi, di) (gs, ds) (gv, dv) (gc, dc) = record {
    evolves = record {
      users = gu;
      plans = refl;
      user_plans = gp;
      installations = gi;
      sessions = gs;
      invites = gv;
      codes = gc;
    };
    valid = record {
      users = du;
      user_plans = dp;
      installations = di;
      sessions = ds;
      invites = dv;
      codes = dc;
    };
  }

  abbrev us : Part (λ x y. y ≡ x) same_user t.users t.users
  us = ((Evolves-refl t).users, v.users)

  abbrev ps : Part (λ x y. y.user_id ≡ x.user_id) same_user_plan t.user_plans t.user_plans
  ps = ((Evolves-refl t).user_plans, v.user_plans)

  abbrev is : Part LaterInstallation same_installation t.installations t.installations
  is = ((Evolves-refl t).installations, v.installations)

  abbrev ss : Part LaterSession same_session t.sessions t.sessions
  ss = ((Evolves-refl t).sessions, v.sessions)

  abbrev vs : Part LaterInvite same_invite t.invites t.invites
  vs = ((Evolves-refl t).invites, v.invites)

  abbrev cs : Part LaterCode same_code t.codes t.codes
  cs = ((Evolves-refl t).codes, v.codes)

  pub users-Next :
      {rows : List User}
      → Part (λ x y. y ≡ x) same_user t.users rows
      → Next t (record t { users = rows })
  users-Next part = change part ps is ss vs cs

  pub user_plans-Next :
      {rows : List UserPlan}
      → Part (λ x y. y.user_id ≡ x.user_id) same_user_plan t.user_plans rows
      → Next t (record t { user_plans = rows })
  user_plans-Next part = change us part is ss vs cs

  pub installations-Next :
      {rows : List Installation}
      → Part LaterInstallation same_installation t.installations rows
      → Next t (record t { installations = rows })
  installations-Next part = change us ps part ss vs cs

  pub sessions-Next :
      {rows : List Session}
      → Part LaterSession same_session t.sessions rows
      → Next t (record t { sessions = rows })
  sessions-Next part = change us ps is part vs cs

  pub invites-Next :
      {rows : List Invite}
      → Part LaterInvite same_invite t.invites rows
      → Next t (record t { invites = rows })
  invites-Next part = change us ps is ss part cs

  pub codes-Next :
      {rows : List MagicCode}
      → Part LaterCode same_code t.codes rows
      → Next t (record t { codes = rows })
  codes-Next part = change us ps is ss vs part
