-- ===== src/Account/Service.antt =====
-- api/internal/account/service.go: signing in by a code sent by mail, refreshing and ending a
-- session, and linking an installation. SHA-256 in base64 (HashToken), strings.ToLower, the mailer
-- and what the random generator yields are parameters.
pub mod Steps
pub mod Refresh
pub mod SignIn
pub mod RoundTrip
pub mod Linking
mod Tests
use deins_complete.Prelude.{
  ℕ, ◌+◌, Bool, not, ◌&&◌, ◌||◌, ◌==◌, leb, Option, none, some, [], length, if◌then◌else◌, ◌++◌,
}
use deins_complete.Prelude.Text.{Str, str, str_eq, is_empty}
use deins_complete.Prelude.Text.Search.{has_prefix, has_suffix, count}
use deins_complete.Prelude.Result.{Result, ok, err}
use deins_complete.Auth.Envelope.{Crypto}
use deins_complete.Auth.Account as Tokens
use deins_complete.Usage.Monthly
use deins_complete.Account.{
  Error, not_found, mailer_unavailable, no_random, unencoded, User, Session, Installation, Tables,
  Faults, CreateUserParams,
}
use deins_complete.Account.Users.{normalize_email, create_user, find_user_by_email}
use deins_complete.Account.Codes.{create_magic_code, consume_magic_code}
use deins_complete.Account.Sessions.{
  create_session, find_active_session, rotate_session, revoke_session,
}
use deins_complete.Account.Installations.{
  link_installation, mark_installation_usage_linked, revoke_installation,
}

-- What is not in the repository.
pub record Library (M : Type 0) : Type 0 where
  pub lower : Str → Str
  pub hash : Str → Str
  pub send_magic_code : Str → Str → M → Option Error × M
  pub crypto : Crypto
  pub json : Tokens.Json
  pub month : ℕ → Str
  pub next_month : ℕ → ℕ

pub record Service : Type 0 where
  pub registration : Str
  pub refresh_ttl : ℕ
  pub magic_ttl : ℕ
  pub tokens : Tokens.Service
  pub has_mailer : Bool
  pub has_monthly : Bool

pub record World (M : Type 0) : Type 0 where
  pub tables : Tables
  pub mail : M
  pub monthly : Monthly.InMemory

-- What one method meets: its time; for each of its calls of the repository, by number, the time of
-- the database, the statements that fail and the next UUID; and the next random token.
pub record Context : Type 0 where
  pub now : ℕ
  pub at : ℕ → ℕ
  pub faults : ℕ → Faults
  pub id : ℕ → Str
  pub random : Option Str

pub record TokenPair : Type 0 where
  pub access_token : Str
  pub refresh_token : Str

unfoldable pub valid_email : (Str → Str) → Str → Bool
valid_email lower email =
    let email = normalize_email lower email in
    leb (length email) 254
    && count email 64 == 1
    && not (has_prefix email (str "@"))
    && not (has_suffix email (str "@"))

abbrev pub params : Str → Str → CreateUserParams
params email hash = record { email = email; display_name = []; invite_code_hash = hash }

module _ {M : Type 0} (library : Library M) (s : Service) (c : Context) where
  abbrev pub with_tables : World M → Tables → World M
  with_tables w t = record w { tables = t }

  abbrev pub mailed : World M → Option Error × M → Option Error × World M
  mailed w (e, mail) = (e, record w { mail = mail })

  unfoldable pub send_code : Str → World M → Option Error × World M
  send_code email w = if not s.has_mailer then (some mailer_unavailable, w) else elim c.random [
    | none ↦ (some no_random, w)
    | some code ↦
        let (made, t) =
          create_magic_code (c.faults 2) (c.at 2) library.lower (c.id 2) email (library.hash code)
            (c.now + s.magic_ttl) w.tables in
        elim made [
          | err e ↦ (some e, with_tables w t)
          | ok _ ↦ mailed (with_tables w t) (library.send_magic_code email code w.mail)
        ]
  ]

  -- The user to create for an unknown email, where the registration allows it.
  unfoldable pub registration : Str → Str → Option CreateUserParams
  registration email invite =
      if str_eq s.registration (str "disabled")
      then none
      else if not (str_eq s.registration (str "invite"))
      then some (params email [])
      else if is_empty invite
      then none
      else some (params email (library.hash invite))

  unfoldable pub register : Str → Str → World M → Option Error × World M
  register email invite w = elim (registration email invite) [
    | none ↦ (none, w)
    | some params ↦
        let (created, t) =
          create_user library.lower (c.faults 1) (c.at 1) (c.id 1) params w.tables in
        elim created [ err _ ↦ (none, with_tables w t) | ok _ ↦ send_code email (with_tables w t) ]
  ]

  abbrev pub known : Str → Str → World M → Result Error User → Option Error × World M
  known email invite w (ok _) = send_code email w
  known email invite w (err not_found) = register email invite w
  known email invite w (err e) = (some e, w)

  -- RequestMagicCode
  unfoldable pub request_magic_code : Str → Str → World M → Option Error × World M
  request_magic_code email invite w =
      let normalized = normalize_email library.lower email in
      if not (valid_email library.lower email)
      then (none, w)
      else known normalized invite w
          (find_user_by_email (c.faults 0) library.lower normalized w.tables)

  -- The pair of an access token, unless it cannot be encoded, and the refresh token.
  unfoldable pub pair : Str → Str → Result Error TokenPair
  pair user raw = elim (Tokens.issue_access_token library.crypto library.json s.tokens c.now user) [
    | none ↦ err unencoded
    | some access ↦ ok (record { access_token = access; refresh_token = raw })
  ]

  abbrev pub session_of : Str → Str → Session
  session_of user raw = record {
    id = [];
    user_id = user;
    refresh_token_hash = library.hash raw;
    client_name = str "vscode-extension";
    created_at = 0;
    expires_at = c.now + s.refresh_ttl;
    last_used_at = 0;
    revoked_at = none;
  }

  -- newSession
  unfoldable pub new_session : Str → World M → Result Error TokenPair × World M
  new_session user w = elim c.random [
    | none ↦ (err no_random, w)
    | some raw ↦
        let (made, t) =
          create_session (c.faults 2) (c.at 2) (c.id 2) (session_of user raw) w.tables in
        elim made [ err e ↦ (err e, with_tables w t) | ok _ ↦ (pair user raw, with_tables w t) ]
  ]

  abbrev pub sign_in : Result Error User → World M → Result Error TokenPair × World M
  sign_in (err _) w = (err not_found, w)
  sign_in (ok u) w =
      if str_eq u.status (str "active") then new_session u.id w else (err not_found, w)

  -- VerifyMagicCode
  unfoldable pub verify_magic_code : Str → Str → World M → Result Error TokenPair × World M
  verify_magic_code email code w =
      if not (valid_email library.lower email) || is_empty code
      then (err not_found, w)
      else (let (consumed, t) =
            consume_magic_code (c.faults 0) (c.at 0) (library.hash code) w.tables in
          elim consumed [
            | err _ ↦ (err not_found, with_tables w t)
            | ok bound ↦
                if str_eq bound (normalize_email library.lower email)
                then sign_in (find_user_by_email (c.faults 1) library.lower bound t)
                    (with_tables w t)
                else (err not_found, with_tables w t)
          ])

  abbrev pub rotated :
      Str → World M → Result Error Session × Tables → Result Error TokenPair × World M
  rotated next w (err e, t) = (err e, with_tables w t)
  rotated next w (ok session, t) = (pair session.user_id next, with_tables w t)

  abbrev pub rotate : Str → World M → Option Str → Result Error TokenPair × World M
  rotate old w none = (err no_random, w)
  rotate old w (some next) =
      rotated next w
        (rotate_session (c.faults 1) (c.at 1) (c.id 1) old (session_of [] next) w.tables)

  -- Refresh
  unfoldable pub refresh : Str → World M → Result Error TokenPair × World M
  refresh raw w =
      if is_empty raw
      then (err not_found, w)
      else elim (find_active_session (c.faults 0) (c.at 0) (library.hash raw) w.tables) [
        | err e ↦ (err e, w)
        | ok _ ↦ rotate (library.hash raw) w c.random
      ]

  -- Logout
  unfoldable pub logout : Str → World M → Result Error (Unit {0}) × World M
  logout raw w =
      if is_empty raw
      then (ok tt, w)
      else (let (e, t) = revoke_session (c.faults 0) (c.at 0) (library.hash raw) w.tables in
          (e, with_tables w t))

  abbrev pub merged : Str → Str → World M → World M
  merged id user w = record w {
    monthly =
        Monthly.merge_installation_into_user library.month library.next_month w.monthly c.now
          (str "installation:" ++ id) (str "user:" ++ user);
  }

  -- Where the usage of the installation is not linked yet, it is merged into that of the user.
  unfoldable pub merge_usage : Str → Installation → World M → Result Error Installation × World M
  merge_usage user i w =
      let (marked, t) = mark_installation_usage_linked (c.faults 1) (c.at 1) i.id w.tables in
      elim marked [
        | err e ↦ (err e, with_tables w t)
        | ok linked ↦ (ok i, if linked then merged i.id user (with_tables w t) else with_tables w t)
      ]

  -- LinkInstallation of the service
  unfoldable pub link : Str → Str → World M → Result Error Installation × World M
  link user id w =
      let (linked, t) = link_installation (c.faults 0) (c.at 0) id user w.tables in
      elim linked [
        | err e ↦ (err e, with_tables w t)
        | ok i ↦
            if s.has_monthly then merge_usage user i (with_tables w t) else (ok i, with_tables w t)
      ]

  -- RevokeInstallation of the service
  unfoldable pub revoke : Str → Str → World M → Result Error (Unit {0}) × World M
  revoke user id w =
      let (e, t) = revoke_installation (c.faults 0) (c.at 0) id user w.tables in
      (e, with_tables w t)
