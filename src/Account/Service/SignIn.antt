-- ===== src/Account/Service/SignIn.antt =====
-- Who is signed in by a magic code, and with what.
use mathlib.Core.List.{Memᴰ}
use mathlib.Core.List.Memᴰ
use mathlib.Core.List.Memᴰ.{head}
use deins_complete.Prelude.{
  ℕ, ◌+◌, ◌/◌, ◌<◌, ◌≡◌, ◌≢◌, refl, sym, ap, ◌∙◌, not, ◌||◌, inl, inr, none, some, [], arith,
  Bool-cases, Option-cases,
}
use deins_complete.Prelude.Text.{Str, str, str_eq, str_eq_iff, is_empty}
use deins_complete.Prelude.Result.{Result, ok, err, Result-cases, ensures}
use deins_complete.Auth.Envelope.{IsEncoding}
use deins_complete.Auth.Account as Tokens
use deins_complete.Auth.Account.Soundness.{validate_access_token-issue}
use deins_complete.Account.{Error, Tables, Session, User, MagicCode, Faults}
use deins_complete.Account.Rows.{select, transaction, found-eq_ok}
use deins_complete.Account.Users.{normalize_email, find_user_by_email}
use deins_complete.Account.Codes.{is_pending, consume_magic_code}
use deins_complete.Account.Sessions.{create_session, created, insert_session}
use deins_complete.Account.Calls.Rotation.{insert_session_lem}
use deins_complete.Account.Calls.Valid.{transaction-Ensures}
use deins_complete.Account.Service.{
  Library, Service, World, Context, TokenPair, session_of, valid_email, pair, new_session, sign_in,
  verify_magic_code,
}

module _ {M : Type 0} (library : Library M) (s : Service) (c : Context) where
  -- The code that was brought, the user whose it is, and the session that is opened for this user.
  pub record SignedIn (email code : Str) (before after : Tables) (p : TokenPair) : Type 0 where
    pub row : MagicCode
    pub pending : select (is_pending (c.at 0) (library.hash code)) before.codes ≡ some row
    pub bound : row.email_normalized ≡ normalize_email library.lower email
    pub user : User
    pub registered :
        select
          (λ u. str_eq u.email_normalized (normalize_email library.lower row.email_normalized))
          before.users
        ≡ some user
    pub active : user.status ≡ str "active"
    pub session : Session
    pub stored : Memᴰ session after.sessions
    pub of_user : session.user_id ≡ user.id
    pub of_token : session.refresh_token_hash ≡ library.hash p.refresh_token
    pub unrevoked : session.revoked_at ≡ none
    pub issued :
        Tokens.issue_access_token library.crypto library.json s.tokens c.now user.id
        ≡ some p.access_token

  consumed_lem :
      (t : Tables) (hash email : Str)
      → (consume_magic_code (c.faults 0) (c.at 0) hash t).0 ≡ ok email
      → (row : MagicCode) × (select (is_pending (c.at 0) hash) t.codes ≡ some row)
        × (row.email_normalized ≡ email)
        × ((consume_magic_code (c.faults 0) (c.at 0) hash t).1.users ≡ t.users)
  unfolding consume_magic_code transaction
  consumed_lem t hash email h = elim (Bool-cases (c.faults 0 0)) [
    | inl e ↦ absurd (ground arith)
    | inr e ↦ elim (Option-cases (select (is_pending (c.at 0) hash) t.codes)) [
      | inl k ↦ absurd (ground arith)
      | inr (row, k) ↦ (row, k, ground arith, rw (e, k) refl)
    ]
  ]

  found_lem :
      (t : Tables) (faults : Faults) (email : Str) (u : User)
      → find_user_by_email faults library.lower email t ≡ ok u
      → select (λ u. str_eq u.email_normalized (normalize_email library.lower email)) t.users
        ≡ some u
  unfolding find_user_by_email
  found_lem t faults email u h = elim (Bool-cases (faults 0)) [
    | inl e ↦ absurd (ground arith)
    | inr e ↦ found-eq_ok _ (rw e at h)
  ]

  created_lem :
      (t : Tables) (session : Session) {made : Session}
      → (create_session (c.faults 2) (c.at 2) (c.id 2) session t).0 ≡ ok made
      → Memᴰ
          (record (created (c.at 2) (c.id 2) session) { revoked_at = none })
          (create_session (c.faults 2) (c.at 2) (c.id 2) session t).1.sessions
  unfolding create_session
  created_lem t session h =
      let row : Session = record (created (c.at 2) (c.id 2) session) { revoked_at = none } in
      let stored : (after : Tables)
          → insert_session (created (c.at 2) (c.id 2) session) t ≡ ok after
          → Memᴰ row after.sessions =
        λ after e. rw (insert_session_lem _ _ _ e) (Memᴰ.append_right t.sessions (head refl)) in
      transaction-Ensures (λ _ after. Memᴰ row after.sessions) t _ (search (ensures, stored)) h

  paired_lem :
      (user raw : Str) (p : TokenPair)
      → pair library s c user raw ≡ ok p
      → (p.refresh_token ≡ raw)
        × (Tokens.issue_access_token library.crypto library.json s.tokens c.now user
            ≡ some p.access_token)
  unfolding pair
  paired_lem user raw p h =
      elim (Option-cases
        (Tokens.issue_access_token library.crypto library.json s.tokens c.now user)) [
          | inl e ↦ absurd (ground arith)
          | inr (access, e) ↦ (ground arith, ground arith)
        ]

  pub new_session_lem :
      (user : Str) (w : World M) (p : TokenPair)
      → (new_session library s c user w).0 ≡ ok p
      → (session : Session) × Memᴰ session (new_session library s c user w).1.tables.sessions
        × (session.user_id ≡ user)
        × (session.refresh_token_hash ≡ library.hash p.refresh_token)
        × (session.revoked_at ≡ none)
        × (Tokens.issue_access_token library.crypto library.json s.tokens c.now user
            ≡ some p.access_token)
  unfolding new_session
  new_session_lem user w p h = elim (Option-cases c.random) [
    | inl e ↦ absurd (ground arith)
    | inr (raw, e) ↦
        let session = session_of library s c user raw in
        elim (Result-cases (create_session (c.faults 2) (c.at 2) (c.id 2) session w.tables).0) [
          | inr (x, f) ↦ absurd (ground arith)
          | inl (made, f) ↦
              let (same, issued) = paired_lem user raw p (ground arith) in
              (
                record (created (c.at 2) (c.id 2) session) { revoked_at = none },
                rw (new_session, e, f) (created_lem w.tables session f),
                refl,
                ap library.hash (sym same),
                refl,
                issued,
              )
        ]
  ]

  sign_in_lem :
      (r : Result Error User) (w : World M) (p : TokenPair)
      → (sign_in library s c r w).0 ≡ ok p
      → (u : User) × (r ≡ ok u)
        × (u.status ≡ str "active")
        × (sign_in library s c r w ≡ new_session library s c u.id w)
  sign_in_lem (err e) w p h = cc
  sign_in_lem (ok u) w p h = elim (Bool-cases (str_eq u.status (str "active"))) [
    | inl e ↦ (u, refl, (str_eq_iff u.status (str "active")).0 e, rw e refl)
    | inr e ↦ absurd (ground arith)
  ]

  bound_lem :
      (email code bound : Str) (w : World M) (p : TokenPair)
      → (consume_magic_code (c.faults 0) (c.at 0) (library.hash code) w.tables).0 ≡ ok bound
      → bound ≡ normalize_email library.lower email
      → let t = (consume_magic_code (c.faults 0) (c.at 0) (library.hash code) w.tables).1 in
        let answer =
          sign_in library s c
            (find_user_by_email (c.faults 1) library.lower bound t)
            (record w { tables = t }) in
        answer.0 ≡ ok p → SignedIn email code w.tables answer.1.tables p
  bound_lem email code bound w p f same h =
      let t = (consume_magic_code (c.faults 0) (c.at 0) (library.hash code) w.tables).1 in
      let (row, pending, of_row, users) = consumed_lem w.tables (library.hash code) bound f in
      let (u, known, active, answered) =
        sign_in_lem (find_user_by_email (c.faults 1) library.lower bound t)
          (record w { tables = t }) p h in
      let (session, stored, of_user, of_token, unrevoked, issued) =
        new_session_lem u.id (record w { tables = t }) p (rw answered at h) in
      let registered = found_lem t (c.faults 1) bound u known in
      record {
        row = row;
        pending = pending;
        bound = of_row ∙ same;
        user = u;
        registered = rw of_row (rw users at registered);
        active = active;
        session = session;
        stored = rw answered stored;
        of_user = of_user;
        of_token = of_token;
        unrevoked = unrevoked;
        issued = issued;
      }

  -- A pair of tokens is only given for a code that is pending and bound to the email that was named,
  -- where the user of this email is active: the access token is issued to this user, and the refresh
  -- token opens a session of this user.
  pub verify_magic_code-SignedIn :
      (email code : Str) (w : World M) (p : TokenPair)
      → (verify_magic_code library s c email code w).0 ≡ ok p
      → SignedIn email code w.tables (verify_magic_code library s c email code w).1.tables p
  unfolding verify_magic_code
  verify_magic_code-SignedIn email code w p h =
      elim (Bool-cases (not (valid_email library.lower email) || is_empty code)) [
        | inl e ↦ absurd (ground arith)
        | inr e ↦
            elim (Result-cases
              (consume_magic_code (c.faults 0) (c.at 0) (library.hash code) w.tables).0) [
                | inr (x, f) ↦ absurd (ground arith)
                | inl (bound, f) ↦
                    elim (Bool-cases (str_eq bound (normalize_email library.lower email))) [
                      | inr k ↦ absurd (ground arith)
                      | inl k ↦
                          rw (e, f, k)
                            (bound_lem email code bound w p f
                              ((str_eq_iff bound (normalize_email library.lower email)).0 k)
                              (rw (verify_magic_code, e, f, k) at h))
                    ]
              ]
      ]

  -- What a code is answered with is accepted as the access token of the user whose code it was, until
  -- the second in which its time ends, where the id of the user is not empty and JSON reads the
  -- claims that it wrote.
  pub verify_magic_code-validate :
      (email code : Str) (w : World M) (p : TokenPair) (later : ℕ)
      → IsEncoding library.crypto
      → (h : (verify_magic_code library s c email code w).0 ≡ ok p)
      → let user = (verify_magic_code-SignedIn email code w p h).user.id in
        user ≢ []
        → later / Tokens.second < (c.now + s.tokens.access_ttl) / Tokens.second
        → ((q : Str)
            → library.json.marshal (Tokens.claims_of s.tokens c.now user) ≡ some q
            → library.json.unmarshal q ≡ some (Tokens.claims_of s.tokens c.now user))
        → Tokens.validate_access_token library.crypto library.json s.tokens later p.access_token
          ≡ ok user
  verify_magic_code-validate email code w p later enc h named fresh reads =
      let signed = verify_magic_code-SignedIn email code w p h in
      validate_access_token-issue library.crypto library.json enc s.tokens c.now later
        signed.user.id p.access_token named fresh reads signed.issued
